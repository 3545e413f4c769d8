-- ===== src/Interp/ThumbAlu/Nzc.antt =====
-- `set_nzc` of src/jit/interpreter/thumb_alu.rs beside the two steps of the ARM handlers.
use advanced_slop.Base.{
  ℕ, ◌+◌, ◌*◌, ◌^◌, ◌<◌, ◌≤◌, ◌≡◌, ◌⊎◌, inl, inr, ap, ◌∙◌, arith, ◌==◌, ltb, if◌then◌else◌, bit_and,
  bit_or, of_bool,
}
use advanced_slop.Base.Word.{digit-two_pow, has_bit, has_bit_lem}
use advanced_slop.Base.Digits.{
  digit, digit-le, complement, digit-bit_and, digit-bit_or, digit-complement, digit-shl_low,
  digit-zero, digit_ext, bit_or-lt, bit_and-le, bit_and-le_right,
}
use advanced_slop.Interp.Flags.{set_nz, or_nz, n_bit, z_bit, c_bit}
use advanced_slop.Interp.Alu.Finish.{digit-set_nz}
use advanced_slop.Interp.ThumbAlu.{set_nzc}

-- The carry of the shifter, as the ARM handlers write it.
abbrev pub put_carry : ℕ → ℕ → ℕ
put_carry c status = bit_or (bit_and status (complement 32 c_bit)) (c * 2 ^ 29)

carry_cases : (c : ℕ) → c ≤ 1 → (c ≡ 0) ⊎ (c ≡ 1)
carry_cases c h = omega arith

carry_digit : (c k : ℕ) → c ≤ 1 → digit (c * 2 ^ 29) k ≡ (if k == 29 then c else 0)
carry_digit c k h = elim (carry_cases c h) [
  | inl e ↦ rw e (digit-zero k ∙ ground arith)
  | inr e ↦ rw e (digit-two_pow 29 k ∙ ground arith)
]

nzc_kept :
    (k : ℕ) → k < 32 → digit (complement 32 (n_bit + z_bit + c_bit)) k ≡ (if ltb k 29 then 1 else 0)
nzc_kept k hk = ground (
  arith,
  digit-complement 32 (7 * 2 ^ 29) k (omega arith) hk,
  digit-shl_low 7 29 k,
  λ (e : k ≡ 31). ap (λ t. digit (7 * 2 ^ 29) t) e,
  λ (e : k ≡ 30). ap (λ t. digit (7 * 2 ^ 29) t) e,
  λ (e : k ≡ 29). ap (λ t. digit (7 * 2 ^ 29) t) e,
)

digit-set_nzc :
    (result c status k : ℕ)
    → c ≤ 1
    → k < 32
    → digit (set_nzc result c status) k ≡ (
        if k == 31
        then digit result k
        else if k == 30
        then of_bool (result == 0)
        else if k == 29
        then c
        else digit status k)
unfolding set_nzc
digit-set_nzc result c status k hc hk =
    let base : ℕ = bit_and status (complement 32 (n_bit + z_bit + c_bit)) in
    ground (
      arith,
      digit-bit_or (or_nz result base) (c * 2 ^ 29) k,
      digit-bit_or (bit_or base (bit_and result n_bit)) z_bit k,
      digit-bit_or base (bit_and result n_bit) k,
      digit-bit_and status (complement 32 (n_bit + z_bit + c_bit)) k,
      digit-bit_and result n_bit k,
      nzc_kept k hk,
      carry_digit c k hc,
      digit-two_pow 31 k,
      digit-two_pow 30 k,
      digit-le result k,
      digit-le status k,
    )

digit-put_carry :
    (c status k : ℕ)
    → c ≤ 1
    → k < 32
    → digit (put_carry c status) k ≡ (if k == 29 then c else digit status k)
digit-put_carry c status k hc hk = ground (
  arith,
  digit-bit_or (bit_and status (complement 32 c_bit)) (c * 2 ^ 29) k,
  digit-bit_and status (complement 32 c_bit) k,
  digit-complement 32 c_bit k (omega arith) hk,
  digit-two_pow 29 k,
  carry_digit c k hc,
  digit-le status k,
)

-- A number below 2^32 that is made of words.
or_nz-lt : (result status : ℕ) → status < 2 ^ 32 → or_nz result status < 2 ^ 32
or_nz-lt result status h =
    let part : bit_and result n_bit < 2 ^ 32 =
      omega (arith, bit_and-le_right n_bit result n_bit (omega arith)) in
    let joined : bit_or status (bit_and result n_bit) < 2 ^ 32 =
      bit_or-lt 32 status (bit_and result n_bit) h part in
    ground (
      arith,
      joined,
      bit_or-lt 32 (bit_or status (bit_and result n_bit)) z_bit joined (omega arith),
    )

set_nzc-lt : (result c status : ℕ) → c ≤ 1 → status < 2 ^ 32 → set_nzc result c status < 2 ^ 32
unfolding set_nzc
set_nzc-lt result c status hc h =
    let base : ℕ = bit_and status (complement 32 (n_bit + z_bit + c_bit)) in
    bit_or-lt 32 (or_nz result base) (c * 2 ^ 29)
      (or_nz-lt result base (
        omega
          (arith, bit_and-le status status (complement 32 (n_bit + z_bit + c_bit)) (omega arith))))
      (omega arith)

set_nz-lt : (result status : ℕ) → status < 2 ^ 32 → set_nz result status < 2 ^ 32
unfolding set_nz
set_nz-lt result status h =
    let base : ℕ = bit_and status (complement 32 (n_bit + z_bit)) in
    or_nz-lt result base
      (omega (arith, bit_and-le status status (complement 32 (n_bit + z_bit)) (omega arith)))

put_carry-lt : (c status : ℕ) → c ≤ 1 → status < 2 ^ 32 → put_carry c status < 2 ^ 32
put_carry-lt c status hc h =
    bit_or-lt 32 (bit_and status (complement 32 c_bit)) (c * 2 ^ 29)
      (omega (arith, bit_and-le status status (complement 32 c_bit) (omega arith))) (omega arith)

-- The thumb helper writes the carry and the flags of the result as the ARM handlers do in two steps.
pub set_nzc_lem :
    (result c status : ℕ)
    → c ≤ 1
    → status < 2 ^ 32
    → set_nzc result c status ≡ set_nz result (put_carry c status)
set_nzc_lem result c status hc h =
    digit_ext 32 _ _ (set_nzc-lt result c status hc h)
      (set_nz-lt result (put_carry c status) (put_carry-lt c status hc h))
      (λ k hk. ground (
        arith,
        digit-set_nzc result c status k hc hk,
        digit-set_nz result (put_carry c status) k hk,
        digit-put_carry c status k hc hk,
      ))

same_bit : (x j k : ℕ) → (if k == j then of_bool (has_bit x j) else digit x k) ≡ digit x k
same_bit x j k = ground (arith, has_bit_lem x j, digit-le x j, λ (e : k ≡ j). ap (λ t. digit x t) e)

unfoldable pub carry_of : ℕ → ℕ
carry_of status = of_bool (has_bit status 29)

-- To write the carry that is there changes nothing.
pub put_carry_same : (status : ℕ) → status < 2 ^ 32 → put_carry (carry_of status) status ≡ status
unfolding carry_of
put_carry_same status h =
    digit_ext 32 _ _ (put_carry-lt (carry_of status) status (ground arith) h) h
      (λ k hk. digit-put_carry (carry_of status) status k (ground arith) hk ∙ same_bit status 29 k)
