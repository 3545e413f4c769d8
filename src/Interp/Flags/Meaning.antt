-- ===== src/Interp/Flags/Meaning.antt =====
-- What N, Z, C and V say after an addition or a subtraction.
use advanced_slop.Base.{
  ℕ, ◌+◌, ◌-◌, ◌*◌, ◌/◌, ◌^◌, ◌<◌, ◌≤◌, ◌≡◌, ◌↔◌, arith, ◌∙◌, Bool, not, ◌&&◌, ◌==◌, ltb, leb,
  leb→le, leb→lt, Bool-cases, inl, inr, of_bool,
}
use advanced_slop.Base.Word.{u32, u32_max}
use advanced_slop.Base.Digits.{digit, digit_lem}
use advanced_slop.Base.Int.{pos, ◌+ℤ◌, ◌-ℤ◌, signed32}
use advanced_slop.Interp.Flags.{
  add_overflow, sub_overflow, add_flags, adc_flags, sub_flags, sbc_flags,
}
use advanced_slop.Interp.Flags.Layout.{
  HasFlags, set_nzcv-HasFlags, add_overflow_lem, sub_overflow_lem,
}

-- The sign of a word.
sign : (x : ℕ) → x < 2 ^ 32 → digit x 31 ≡ x / 2 ^ 31
sign x h = digit_lem x 31 ∙ omega arith

-- Signed addition overflows when the operands have one sign and the result has the other.
add_exact :
    (a b c r sa sb sr : ℕ)
    → a < 2 ^ 32
    → b < 2 ^ 32
    → c ≤ 1
    → r ≡ u32 (a + b + c)
    → sa ≡ a / 2 ^ 31
    → sb ≡ b / 2 ^ 31
    → sr ≡ r / 2 ^ 31
    → (of_bool (sa == sb && not (sa == sr)) ≡ 0) ↔ (signed32 r ≡ signed32 a +ℤ signed32 b +ℤ pos c)
add_exact a b c r sa sb sr ha hb hc hr ea eb er = ground arith

-- Signed subtraction, with a borrow, overflows when the operands differ in sign and the result has
-- not the sign of the first. First without, then with a borrow out of bit 31.
SubExact : (a b c r : ℕ) → Type 0
SubExact a b c r =
    (of_bool (not (a / 2 ^ 31 == b / 2 ^ 31) && not (a / 2 ^ 31 == r / 2 ^ 31)) ≡ 0)
    ↔ (signed32 r ≡ signed32 a -ℤ signed32 b -ℤ pos c)

SubExact-within : (a b c r : ℕ) → a < 2 ^ 32 → b < 2 ^ 32 → c ≤ 1 → r + b + c ≡ a → SubExact a b c r
unfolding SubExact
SubExact-within a b c r ha hb hc e = ground arith

SubExact-borrow :
    (a b c r : ℕ)
    → a < 2 ^ 32
    → b < 2 ^ 32
    → c ≤ 1
    → a < b + c
    → r + b + c ≡ a + 2 ^ 32
    → SubExact a b c r
unfolding SubExact
SubExact-borrow a b c r ha hb hc lt e = ground arith

sub_exact :
    (a b c r : ℕ)
    → a < 2 ^ 32
    → b < 2 ^ 32
    → c ≤ 1
    → r ≡ u32 (a + 2 ^ 33 - b - c)
    → SubExact a b c r
sub_exact a b c r ha hb hc e = elim (Bool-cases (leb (b + c) a)) [
  | inl p ↦ let h : b + c ≤ a = leb→le (b + c) a p in SubExact-within a b c r ha hb hc (omega arith)
  | inr p ↦
      let h : a < b + c = leb→lt (b + c) a p in SubExact-borrow a b c r ha hb hc h (omega arith)
]

-- `new` is `old` with the flags of a result `r`; the carry and the exact signed value are the
-- caller's.
pub record IsResult (old new r : ℕ) : Type 0 where
  pub word : r < 2 ^ 32
  pub negative : digit new 31 ≡ r / 2 ^ 31
  pub zero : digit new 30 ≡ of_bool (r == 0)
  pub kept : (k : ℕ) → k < 28 → digit new k ≡ digit old k

-- `r` and the flags are those of `a + b + c`: C is the carry out of bit 31, and V is clear exactly
-- when the signed value of `r` is the sum of the signed operands.
pub record IsSum (a b c old new r : ℕ) : Type 0 where
  pub result : IsResult old new r
  pub carry : digit new 29 * 2 ^ 32 + r ≡ a + b + c
  pub overflow : (digit new 28 ≡ 0) ↔ (signed32 r ≡ signed32 a +ℤ signed32 b +ℤ pos c)

-- `r` and the flags are those of `a - b - c`: C is set when there is no borrow.
pub record IsDifference (a b c old new r : ℕ) : Type 0 where
  pub result : IsResult old new r
  pub carry : r + b + c ≡ (1 - digit new 29) * 2 ^ 32 + a
  pub overflow : (digit new 28 ≡ 0) ↔ (signed32 r ≡ signed32 a -ℤ signed32 b -ℤ pos c)

module _ (a b c r cpsr : ℕ) (ha : a < 2 ^ 32) (hb : b < 2 ^ 32) (hc : c ≤ 1) where
  pub adc_flags-IsSum : r ≡ u32 (a + b + c) → IsSum a b c cpsr (adc_flags a b c r cpsr) r
  unfolding adc_flags
  adc_flags-IsSum hr =
      let carry : Bool = ltb u32_max (a + b + c) in
      let f : HasFlags cpsr (adc_flags a b c r cpsr) r carry (add_overflow a b r) =
        set_nzcv-HasFlags r cpsr carry (add_overflow a b r) in
      let hw : r < 2 ^ 32 = omega arith in
      record {
        result = record {
          word = hw;
          negative = f.negative ∙ sign r hw;
          zero = f.zero;
          kept = f.kept;
        };
        carry = rw (f.carried) (ground arith);
        overflow =
            rw (f.overflowed, add_overflow_lem a b r ha hb)
              (add_exact a b c r (digit a 31) (digit b 31) (digit r 31) ha hb hc hr (sign a ha)
                (sign b hb) (sign r hw));
      }

  pub sbc_flags-IsDifference :
      r ≡ u32 (a + 2 ^ 33 - b - c) → IsDifference a b c cpsr (sbc_flags a b (1 - c) r cpsr) r
  unfolding sbc_flags SubExact
  sbc_flags-IsDifference hr =
      let carry : Bool = leb (b + (1 - (1 - c))) a in
      let f : HasFlags cpsr (sbc_flags a b (1 - c) r cpsr) r carry (sub_overflow a b r) =
        set_nzcv-HasFlags r cpsr carry (sub_overflow a b r) in
      let hw : r < 2 ^ 32 = omega arith in
      record {
        result = record {
          word = hw;
          negative = f.negative ∙ sign r hw;
          zero = f.zero;
          kept = f.kept;
        };
        carry = rw (f.carried) (ground arith);
        overflow =
            rw (f.overflowed, sub_overflow_lem a b r)
              (rw (sign a ha, sign b hb, sign r hw) (sub_exact a b c r ha hb hc hr));
      }

module _ (a b cpsr : ℕ) where
  pub add_flags-eq-adc_flags : (r : ℕ) → add_flags a b r cpsr ≡ adc_flags a b 0 r cpsr
  unfolding add_flags adc_flags
  add_flags-eq-adc_flags r = ground arith

  pub sub_flags-eq-sbc_flags : (r : ℕ) → sub_flags a b r cpsr ≡ sbc_flags a b 1 r cpsr
  unfolding sub_flags sbc_flags
  sub_flags-eq-sbc_flags r = ground arith
