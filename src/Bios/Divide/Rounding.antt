-- ===== src/Bios/Divide/Rounding.antt =====
-- The division of the firmware rounds towards zero.
use advanced_slop.Base.{
  ℕ, ◌+◌, ◌-◌, ◌*◌, ◌/◌, ◌%◌, ◌^◌, ◌<◌, ◌≤◌, ◌≡◌, refl, arith, ap, ◌∙◌, Bool, true, false, not, ◌⊎◌,
  inl, inr, Option, none, some, by_test, length, if◌then◌else◌,
}
use native.Mathlib.Nat.{div-add-mod, div-le_self, mod-lt, mul_comm, mul-le-mul_right}
use advanced_slop.Emu.{Emu}
use advanced_slop.Cpu.{ThreadRegs}
use advanced_slop.Interp.{write_slot}
use advanced_slop.Interp.Memory.Loop.{read-write_slot, length-write_slot}
use advanced_slop.Bios.{get, put}
use advanced_slop.Bios.Divide.{
  negative, magnitude, with_sign, divides_panic, quotient, remainder, divide,
}

-- `q` and `r` are the quotient and the remainder of `a` by `b` as signed words.
abbrev pub IsTruncated : (a b q r : ℕ) → Type 0
IsTruncated a b q r =
    (magnitude q * magnitude b + magnitude r ≡ magnitude a)
    × (magnitude r < magnitude b)
    × ((q ≡ 0) ⊎ (negative q ≡ (if negative a then not (negative b) else negative b)))
    × ((r ≡ 0) ⊎ (negative r ≡ negative a))

-- A magnitude with a sign, where the word can hold it.
magnitude-with_sign :
    (sign : Bool) (m : ℕ)
    → m ≤ 2 ^ 31
    → (sign ≡ false → m < 2 ^ 31)
    → magnitude (with_sign sign m) ≡ m
magnitude-with_sign true m h k = ground arith
magnitude-with_sign false m h k = ground (arith, k refl)

negative-with_sign :
    (sign : Bool) (m : ℕ)
    → m ≤ 2 ^ 31
    → (sign ≡ false → m < 2 ^ 31)
    → (with_sign sign m ≡ 0) ⊎ (negative (with_sign sign m) ≡ sign)
negative-with_sign true m h k = ground arith
negative-with_sign false m h k = ground (arith, k refl)

magnitude-le : (a : ℕ) → a < 2 ^ 32 → magnitude a ≤ 2 ^ 31
magnitude-le a h = ground arith

div-half : (a b : ℕ) → 2 ≤ b → 2 * (a / b) ≤ a
div-half a b h = omega (arith, div-add-mod a b, mul-le-mul_right (a / b) h)

unit_divisor :
    (a b : ℕ)
    → a < 2 ^ 32
    → b < 2 ^ 32
    → divides_panic a b ≡ false
    → (if negative a then not (negative b) else negative b) ≡ false
    → magnitude b ≤ 1
    → magnitude a < 2 ^ 31
unfolding divides_panic
unit_divisor a b ha hb h e one = ground arith

divisor_pos : (a b : ℕ) → b < 2 ^ 32 → divides_panic a b ≡ false → 0 < magnitude b
unfolding divides_panic
divisor_pos a b hb h = ground arith

-- The quotient fits, but for `i32::MIN / -1`.
quotient_fits :
    (a b : ℕ)
    → a < 2 ^ 32
    → b < 2 ^ 32
    → divides_panic a b ≡ false
    → (magnitude a / magnitude b ≤ 2 ^ 31)
      × ((if negative a then not (negative b) else negative b) ≡ false
          → magnitude a / magnitude b < 2 ^ 31)
unfolding divides_panic
quotient_fits a b ha hb h = (
  omega (arith, magnitude-le a ha, div-le_self (magnitude a) (magnitude b)),
  λ e. small e (le-cases (magnitude b)),
)
  where
    le-cases : (n : ℕ) → (n ≤ 1) ⊎ (2 ≤ n)
    le-cases n = omega arith

    small :
        (if negative a then not (negative b) else negative b) ≡ false
        → (magnitude b ≤ 1) ⊎ (2 ≤ magnitude b)
        → magnitude a / magnitude b < 2 ^ 31
    small e (inr two) = omega (arith, magnitude-le a ha, div-half (magnitude a) (magnitude b) two)
    small e (inl one) =
        omega (arith, unit_divisor a b ha hb h e one, div-le_self (magnitude a) (magnitude b))

-- For words that do not panic, the registers hold the truncated quotient and remainder.
IsTruncated-words :
    (a b : ℕ)
    → a < 2 ^ 32
    → b < 2 ^ 32
    → divides_panic a b ≡ false
    → IsTruncated a b (quotient a b) (remainder a b)
unfolding quotient remainder
IsTruncated-words a b ha hb h =
    let fits = quotient_fits a b ha hb h in
    let pos : 0 < magnitude b = divisor_pos a b hb h in
    let small : magnitude a % magnitude b < magnitude b = omega (arith, mod-lt (magnitude a) pos) in
    let bound = magnitude-le b hb in
    let q =
      magnitude-with_sign (if negative a then not (negative b) else negative b)
        (magnitude a / magnitude b) fits.0 fits.1 in
    let r =
      magnitude-with_sign (negative a) (magnitude a % magnitude b) (omega (arith, small, bound))
        (λ _. omega (arith, small, bound)) in
    (
      omega (
        arith,
        ap (λ (t : ℕ). t * magnitude b) q,
        r,
        div-add-mod (magnitude a) (magnitude b),
        mul_comm (magnitude a / magnitude b) (magnitude b),
      ),
      omega (arith, r, small),
      negative-with_sign (if negative a then not (negative b) else negative b)
          (magnitude a / magnitude b) fits.0 fits.1,
      negative-with_sign (negative a) (magnitude a % magnitude b) (omega (arith, small, bound))
          (λ _. omega (arith, small, bound)),
    )

-- A panic is for a divisor of 0 or for the least number by -1.
panics_lem : (a b : ℕ) → divides_panic a b ≡ true → (b ≡ 0) ⊎ ((a ≡ 2 ^ 31) × (b ≡ 2 ^ 32 - 1))
unfolding divides_panic
panics_lem a b h = ground arith

module _ {R : Type 0} where
  abbrev pub Divided : (a b : ℕ) → Option (Emu R) → Type 0
  Divided a b none = (b ≡ 0) ⊎ ((a ≡ 2 ^ 31) × (b ≡ 2 ^ 32 - 1))
  Divided a b (some e) = IsTruncated a b (get 0 e) (get 1 e) × (get 3 e ≡ magnitude (get 0 e))

  Divided-by :
      (a b q r : ℕ) (e : Emu R)
      → get 0 e ≡ q
      → get 1 e ≡ r
      → get 3 e ≡ magnitude q
      → IsTruncated a b q r
      → Divided a b (some e)
  Divided-by a b q r e e0 e1 e3 t = rw (e0, e1, e3) (t, refl)

  -- The division of the words in R0 and R1 panics only for a divisor of 0 and for the least number
  -- by -1; else R0 and R1 get the quotient and the remainder rounded towards zero, and R3 the
  -- magnitude of the quotient.
  pub divide-Divided :
      (e : Emu R)
      → length e.regs.gp_regs ≡ 13
      → get 0 e < 2 ^ 32
      → get 1 e < 2 ^ 32
      → Divided (get 0 e) (get 1 e) (divide e)
  unfolding divide
  divide-Divided e size ha hb =
      by_test (Divided (get 0 e) (get 1 e)) (divides_panic (get 0 e) (get 1 e)) none _
        (λ t. panics_lem (get 0 e) (get 1 e) t)
        (λ f.
          let q : ℕ = quotient (get 0 e) (get 1 e) in
          let r : ℕ = remainder (get 0 e) (get 1 e) in
          let a : ThreadRegs = write_slot 0 q e.regs in
          let b : ThreadRegs = write_slot 1 r a in
          let size_a : length a.gp_regs ≡ 13 = length-write_slot 0 q e.regs ∙ size in
          let size_b : length b.gp_regs ≡ 13 = length-write_slot 1 r a ∙ size_a in
          Divided-by (get 0 e) (get 1 e) q r (put 3 (magnitude q) (put 1 r (put 0 q e)))
            (read-write_slot 3 0 (magnitude q) b size_b (omega arith) (omega arith)
              ∙ read-write_slot 1 0 r a size_a (omega arith) (omega arith)
              ∙ read-write_slot 0 0 q e.regs size (omega arith) (omega arith))
            (read-write_slot 3 1 (magnitude q) b size_b (omega arith) (omega arith)
              ∙ read-write_slot 1 1 r a size_a (omega arith) (omega arith))
            (read-write_slot 3 3 (magnitude q) b size_b (omega arith) (omega arith))
            (IsTruncated-words (get 0 e) (get 1 e) ha hb f))
