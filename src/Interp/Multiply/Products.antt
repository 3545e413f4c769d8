-- ===== src/Interp/Multiply/Products.antt =====
-- The long multiplies return the exact product.
use advanced_slop.Base.{ℕ, ◌+◌, ◌*◌, ◌%◌, ◌^◌, ◌<◌, ◌≡◌, arith, true, false}
use native.Mathlib.Nat.{mod-eq_of_lt}
use advanced_slop.Base.Digits.{bit_or-shl}
use advanced_slop.Interp.Multiply.{product64}

product-lt : (a b : ℕ) → a < 2 ^ 32 → b < 2 ^ 32 → a * b < 2 ^ 64
product-lt a b ha hb = grind arith

-- The unsigned long multiplies, the operands and the low half being words: without accumulation the result is the exact product, with it the
-- sum of the product and the 64-bit accumulator `hi:lo`, modulo 2^64.
pub product64_unsigned :
    (rm rs hi lo : ℕ)
    → rm < 2 ^ 32
    → rs < 2 ^ 32
    → lo < 2 ^ 32
    → (product64 false false rm rs hi lo ≡ rm * rs)
      × (product64 false true rm rs hi lo ≡ (rm * rs + (hi * 2 ^ 32 + lo)) % 2 ^ 64)
unfolding product64
product64_unsigned rm rs hi lo hm hs hl =
    let exact : rm * rs % 2 ^ 64 ≡ rm * rs = mod-eq_of_lt (product-lt rm rs hm hs) in
    (exact, rw (bit_or-shl 32 hi lo hl, exact))
