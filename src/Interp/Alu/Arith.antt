-- ===== src/Interp/Alu/Arith.antt =====
-- The arithmetic operations compute the sum or difference that their names say, flags included.
use advanced_slop.Base.{ℕ, ◌+◌, ◌-◌, ◌^◌, ◌<◌, ◌≤◌, ◌≡◌, sym, arith, true}
use mathlib.Core.Path.{subst}
use advanced_slop.Base.Word.{u32, wrapping_sub32}
use advanced_slop.Interp.{Ctx, cpsr, carry}
use advanced_slop.Interp.Flags.{sub_flags, sbc_flags}
use advanced_slop.Interp.Flags.Meaning.{
  IsSum, IsDifference, adc_flags-IsSum, sbc_flags-IsDifference, add_flags-eq-adc_flags,
  sub_flags-eq-sbc_flags,
}
use advanced_slop.Interp.Alu.{ArithOp, add, sub, rsb, adc, sbc, rsc, do_arith}

-- What the result and the new CPSR of an operation are, `c` being the old carry.
abbrev pub Computes : ArithOp → (a b c old new r : ℕ) → Type 0
Computes add a b c old new r = IsSum a b 0 old new r
Computes adc a b c old new r = IsSum a b c old new r
Computes sub a b c old new r = IsDifference a b 0 old new r
Computes sbc a b c old new r = IsDifference a b (1 - c) old new r
Computes rsb a b c old new r = IsDifference b a 0 old new r
Computes rsc a b c old new r = IsDifference b a (1 - c) old new r

minus :
    (a b old : ℕ)
    → a < 2 ^ 32
    → b < 2 ^ 32
    → let r = wrapping_sub32 a b in IsDifference a b 0 old (sub_flags a b r old) r
minus a b old ha hb =
    let r : ℕ = wrapping_sub32 a b in
    subst (λ f. IsDifference a b 0 old f r) (sym (sub_flags-eq-sbc_flags a b old r))
      (sbc_flags-IsDifference a b 0 r old ha hb (omega arith) (omega arith))

minus_borrow :
    (a b c old : ℕ)
    → a < 2 ^ 32
    → b < 2 ^ 32
    → c ≤ 1
    → let r = wrapping_sub32 (wrapping_sub32 a b) (1 - c) in
      IsDifference a b (1 - c) old (sbc_flags a b c r old) r
minus_borrow a b c old ha hb hc =
    let r : ℕ = wrapping_sub32 (wrapping_sub32 a b) (1 - c) in
    let same : 1 - (1 - c) ≡ c = omega arith in
    subst (λ x. IsDifference a b (1 - c) old (sbc_flags a b x r old) r) same
      (sbc_flags-IsDifference a b (1 - c) r old ha hb (omega arith) (omega arith))

module _ {R : Type 0} where
  carry-le : (ctx : Ctx R) → carry ctx ≤ 1
  carry-le ctx = ground arith

  -- For words `a` and `b` each of the six operations, with flags, returns the sum or difference
  -- (reversed, and with the old carry in, as its name says), and sets N, Z, C and V for it.
  pub do_arith-Computes :
      (op : ArithOp) (a b : ℕ) (ctx : Ctx R)
      → a < 2 ^ 32
      → b < 2 ^ 32
      → let (r, ctx') = do_arith op a b true ctx in
        Computes op a b (carry ctx) (cpsr ctx) (cpsr ctx') r
  unfolding do_arith
  do_arith-Computes add a b ctx ha hb =
      let r : ℕ = u32 (a + b) in
      subst (λ f. IsSum a b 0 (cpsr ctx) f r) (sym (add_flags-eq-adc_flags a b (cpsr ctx) r))
        (adc_flags-IsSum a b 0 r (cpsr ctx) ha hb (omega arith) (omega arith))
  do_arith-Computes adc a b ctx ha hb =
      let c : ℕ = carry ctx in
      adc_flags-IsSum a b c (u32 (u32 (a + b) + c)) (cpsr ctx) ha hb (carry-le ctx) (omega arith)
  do_arith-Computes sub a b ctx ha hb = minus a b (cpsr ctx) ha hb
  do_arith-Computes rsb a b ctx ha hb = minus b a (cpsr ctx) hb ha
  do_arith-Computes sbc a b ctx ha hb = minus_borrow a b (carry ctx) (cpsr ctx) ha hb (carry-le ctx)
  do_arith-Computes rsc a b ctx ha hb = minus_borrow b a (carry ctx) (cpsr ctx) hb ha (carry-le ctx)
