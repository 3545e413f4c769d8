-- ===== src/Interp/Flags/Layout.antt =====
-- Where the flag helpers put the flags.
use advanced_slop.Base.{
  ℕ, ◌*◌, ◌^◌, ◌<◌, ◌≡◌, arith, Bool, ◌==◌, if◌then◌else◌, of_bool, not, ◌&&◌, max, min, bit_and,
  bit_or, bit_xor,
}
use advanced_slop.Base.Word.{has_bit, has_bit_lem}
use advanced_slop.Base.Digits.{
  digit, digit-le, complement, digit-bit_and, digit-bit_or, digit-bit_xor, digit-complement,
  digit-shl_low, digit-zero, bit_xor-lt, digit-two_pow_ne,
}
use advanced_slop.Interp.Flags.{
  n_bit, z_bit, nzcv_bits, or_nz, set_nzcv, add_overflow, sub_overflow,
}

-- `new` is `old` with the four flags set from a result, a carry and an overflow.
pub record HasFlags (old new result : ℕ) (carry overflow : Bool) : Type 0 where
  pub negative : digit new 31 ≡ digit result 31
  pub zero : digit new 30 ≡ of_bool (result == 0)
  pub carried : digit new 29 ≡ of_bool carry
  pub overflowed : digit new 28 ≡ of_bool overflow
  pub kept : (k : ℕ) → k < 28 → digit new k ≡ digit old k

module _ (result cpsr : ℕ) (carry overflow : Bool) where
  abbrev base : ℕ
  base = bit_and cpsr (complement 32 nzcv_bits)

  abbrev with_n : ℕ
  with_n = bit_or base (bit_and result n_bit)

  digit-set_nzcv :
      (k : ℕ)
      → digit (set_nzcv result carry overflow cpsr) k
        ≡ max
            (max
              (max
                (max
                  (min (digit cpsr k) (digit (complement 32 nzcv_bits) k))
                  (min (digit result k) (digit n_bit k)))
                (if result == 0 then digit z_bit k else 0))
              (digit (of_bool carry * 2 ^ 29) k))
            (digit (of_bool overflow * 2 ^ 28) k)
  unfolding set_nzcv
  digit-set_nzcv k = ground (
    arith,
    digit-bit_or (bit_or (or_nz result base) (of_bool carry * 2 ^ 29)) (of_bool overflow * 2 ^ 28)
        k,
    digit-bit_or (or_nz result base) (of_bool carry * 2 ^ 29) k,
    digit-bit_or with_n z_bit k,
    digit-bit_or base (bit_and result n_bit) k,
    digit-bit_and cpsr (complement 32 nzcv_bits) k,
    digit-bit_and result n_bit k,
  )

  below_flags : (k : ℕ) → k < 28 → digit (complement 32 nzcv_bits) k ≡ 1
  below_flags k h =
      omega (
        arith,
        digit-complement 32 nzcv_bits k (omega arith) (omega arith),
        digit-shl_low 15 28 k h,
      )

  kept_bits : (k : ℕ) → k < 28 → digit (set_nzcv result carry overflow cpsr) k ≡ digit cpsr k
  kept_bits k h = ground (
    arith,
    digit-set_nzcv k,
    below_flags k h,
    digit-two_pow_ne 31 k (omega arith),
    digit-two_pow_ne 30 k (omega arith),
    digit-two_pow_ne 29 k (omega arith),
    digit-two_pow_ne 28 k (omega arith),
    digit-le cpsr k,
    digit-zero k,
  )

  pub set_nzcv-HasFlags : HasFlags cpsr (set_nzcv result carry overflow cpsr) result carry overflow
  set_nzcv-HasFlags = record {
    negative = ground (arith, digit-set_nzcv 31, digit-le result 31);
    zero = ground (arith, digit-set_nzcv 30);
    carried = ground (arith, digit-set_nzcv 29);
    overflowed = ground (arith, digit-set_nzcv 28);
    kept = kept_bits;
  }

-- The overflow expressions compare the top digits.
module _ (a b result : ℕ) where
  add_overflow_at :
      (k : ℕ)
      → a < 2 ^ 32
      → b < 2 ^ 32
      → k < 32
      → has_bit (bit_and (complement 32 (bit_xor a b)) (bit_xor a result)) k
        ≡ (digit a k == digit b k && not (digit a k == digit result k))
  add_overflow_at k ha hb hk = ground (
    arith,
    has_bit_lem (bit_and (complement 32 (bit_xor a b)) (bit_xor a result)) k,
    digit-bit_and (complement 32 (bit_xor a b)) (bit_xor a result) k,
    digit-complement 32 (bit_xor a b) k (bit_xor-lt 32 a b ha hb) hk,
    digit-bit_xor a b k,
    digit-bit_xor a result k,
    digit-le a k,
    digit-le b k,
    digit-le result k,
  )

  sub_overflow_at :
      (k : ℕ)
      → has_bit (bit_and (bit_xor a b) (bit_xor a result)) k
        ≡ (not (digit a k == digit b k) && not (digit a k == digit result k))
  sub_overflow_at k = ground (
    arith,
    has_bit_lem (bit_and (bit_xor a b) (bit_xor a result)) k,
    digit-bit_and (bit_xor a b) (bit_xor a result) k,
    digit-bit_xor a b k,
    digit-bit_xor a result k,
    digit-le a k,
    digit-le b k,
    digit-le result k,
  )

  pub add_overflow_lem :
      a < 2 ^ 32
      → b < 2 ^ 32
      → add_overflow a b result ≡ (digit a 31 == digit b 31 && not (digit a 31 == digit result 31))
  add_overflow_lem ha hb = add_overflow_at 31 ha hb (omega arith)

  pub sub_overflow_lem :
      sub_overflow a b result
      ≡ (not (digit a 31 == digit b 31) && not (digit a 31 == digit result 31))
  sub_overflow_lem = sub_overflow_at 31
