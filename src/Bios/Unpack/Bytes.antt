-- ===== src/Bios/Unpack/Bytes.antt =====
-- The halfword writes of the decompression store one byte.
use advanced_slop.Base.{
  ℕ, ◌+◌, ◌*◌, ◌/◌, ◌%◌, ◌^◌, ◌<◌, ◌≡◌, ap, ap₂, ◌∙◌, arith, bit_and, bit_or, if◌then◌else◌, ◌==◌,
  ◌⊎◌, inl, inr,
}
use advanced_slop.Base.Digits.{complement, bit_and-shl, bit_and-low_mask, bit_or-shl, bit_or_comm}
use advanced_slop.Bios.Unpack.{put_byte}

put_byte_at : ℕ → ℕ → ℕ → ℕ
put_byte_at cur shift value =
    bit_or (bit_and cur (complement 16 (0xff * 2 ^ shift))) (value * 2 ^ shift)

put_low :
    (cur value : ℕ)
    → cur < 2 ^ 16
    → value < 2 ^ 8
    → put_byte_at cur 0 value ≡ cur / 2 ^ 8 * 2 ^ 8 + value
unfolding put_byte_at
put_low cur value hc hv =
    ap₂ (λ (s t : ℕ). bit_or s t) kept once ∙ bit_or-shl 8 (cur / 2 ^ 8) value hv
  where
    once : value * 1 ≡ value
    once = omega arith

    kept : bit_and cur 0xff00 ≡ cur / 2 ^ 8 * 2 ^ 8
    kept = omega (arith, bit_and-shl cur 0xff 8, bit_and-low_mask (cur / 2 ^ 8) 8)

put_high :
    (cur value : ℕ)
    → cur < 2 ^ 16
    → value < 2 ^ 8
    → put_byte_at cur 8 value ≡ value * 2 ^ 8 + cur % 2 ^ 8
unfolding put_byte_at
put_high cur value hc hv =
    ap (λ (s : ℕ). bit_or s (value * 2 ^ 8)) (bit_and-low_mask cur 8)
    ∙ bit_or_comm 16 (cur % 2 ^ 8) (value * 2 ^ 8) (omega arith) (omega arith)
    ∙ bit_or-shl 8 value (cur % 2 ^ 8) (omega arith)

-- At an even address the byte becomes the low byte of the halfword, at an odd one the high byte;
-- the other byte stays.
pub put_byte_lem :
    (cur addr value : ℕ)
    → cur < 2 ^ 16
    → value < 2 ^ 8
    → put_byte cur addr value
      ≡ (if addr % 2 == 0 then cur / 2 ^ 8 * 2 ^ 8 + value else value * 2 ^ 8 + cur % 2 ^ 8)
unfolding put_byte put_byte_at
put_byte_lem cur addr value hc hv =
    ap (λ (t : ℕ). put_byte_at cur (t * 8) value) (bit_and-low_mask addr 1)
    ∙ by_parity (omega arith)
  where
    by_parity :
        (addr % 2 ≡ 0) ⊎ (addr % 2 ≡ 1)
        → put_byte_at cur (addr % 2 * 8) value
          ≡ (if addr % 2 == 0 then cur / 2 ^ 8 * 2 ^ 8 + value else value * 2 ^ 8 + cur % 2 ^ 8)
    by_parity (inl e) = rw e (put_low cur value hc hv)
    by_parity (inr e) = rw e (put_high cur value hc hv)
