-- ===== src/Base/Word.antt =====
-- Machine words as native numbers, and the masked register write that the devices share.
use Prim.Native.Nat.{ℕ, ◌+◌, ◌-◌, ◌%◌, ◌^◌, ◌<◌, bit_and, bit_or}
use mathlib.Core.Path.{◌≡◌}
use mathlib.Core.Logic.{◌⊎◌, inl, inr}
use native.Mathlib.Nat.{one-le-pow}
use mathlib.Core.Bool.{Bool}
use native.Mathlib.Omega.{arith}
use advanced_slop.Base.Tests.{◌==◌, ==_iff, Bool-cases, if◌then◌else◌, not_zero}
use advanced_slop.Base.Digits.{
  digit, digit-le, digit-two_pow_self, digit-two_pow_ne, complement, digit-bit_and, digit-bit_or,
  digit-complement, bit_and-two_pow,
}

abbrev pub u32_max : ℕ
u32_max = 2 ^ 32 - 1

abbrev pub u8 : ℕ → ℕ
u8 x = x % 2 ^ 8

abbrev pub u16 : ℕ → ℕ
u16 x = x % 2 ^ 16

abbrev pub u32 : ℕ → ℕ
u32 x = x % 2 ^ 32

-- `a.wrapping_sub(b)` on `u32`, for `b` a word.
abbrev pub wrapping_sub32 : ℕ → ℕ → ℕ
wrapping_sub32 a b = (a + 2 ^ 32 - b) % 2 ^ 32

pub digit-cases : (x k : ℕ) → (digit x k ≡ 0) ⊎ (digit x k ≡ 1)
digit-cases x k = omega (arith, digit-le x k)

-- `x & (1 << k) != 0`
abbrev pub has_bit : ℕ → ℕ → Bool
has_bit x k = not_zero (bit_and x (2 ^ k))

pub has_bit_lem : (x k : ℕ) → has_bit x k ≡ (digit x k == 1)
has_bit_lem x k = elim (digit-cases x k) [
  | inl e ↦ rw (bit_and-two_pow x k, e) (ground arith)
  | inr e ↦ rw (bit_and-two_pow x k, e) (ground (arith, one-le-pow k 2))
]

-- `(old & !mask) | (value & mask)` on words of `w` bits.
abbrev pub masked : ℕ → ℕ → ℕ → ℕ → ℕ
masked w old mask value = bit_or (bit_and old (complement w mask)) (bit_and value mask)

-- A masked write replaces the bits of the mask and keeps the others.
pub digit-masked :
    (w old mask value k : ℕ)
    → mask < 2 ^ w
    → k < w
    → digit (masked w old mask value) k ≡ (if digit mask k == 1 then digit value k else digit old k)
digit-masked w old mask value k hm hk = ground (
  arith,
  digit-bit_or (bit_and old (complement w mask)) (bit_and value mask) k,
  digit-bit_and old (complement w mask) k,
  digit-bit_and value mask k,
  digit-complement w mask k hm hk,
  digit-le mask k,
  digit-le value k,
  digit-le old k,
)

pub digit-two_pow : (j k : ℕ) → digit (2 ^ j) k ≡ (if j == k then 1 else 0)
digit-two_pow j k = elim (Bool-cases (j == k)) [
  | inl p ↦ rw p (rw ((==_iff j k).0 p) (digit-two_pow_self k))
  | inr p ↦ rw p (digit-two_pow_ne j k (λ e. cc ((==_iff j k).1 e)))
]
