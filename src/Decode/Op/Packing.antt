-- ===== src/Decode/Op/Packing.antt =====
-- The packed transfers give back what they were made of.
use advanced_slop.Base.{
  ℕ, ◌*◌, ◌/◌, ◌^◌, ◌<◌, ◌≡◌, refl, ap, sym, ◌∙◌, ◌==◌, arith, Bool, true, false, bit_or,
}
use advanced_slop.Base.Word.{u8, has_bit, has_bit_lem}
use advanced_slop.Base.Digits.{digit, digit-bit_or, digit-shl_low, bit_or_comm, bit_or-shl}
use advanced_slop.Decode.Op.{
  flags, single, multiple, pre, write_back, add_offset, signed, size, pre_multiple,
  write_back_multiple, add_multiple, user,
}

flags_lem :
    (f0 f1 f2 f3 : Bool)
    → (flags f0 f1 f2 f3 < 16)
      × ((has_bit (flags f0 f1 f2 f3) 0 ≡ f0)
          × (has_bit (flags f0 f1 f2 f3) 1 ≡ f1)
          × (has_bit (flags f0 f1 f2 f3) 2 ≡ f2)
          × (has_bit (flags f0 f1 f2 f3) 3 ≡ f3))
flags_lem false false false false = (omega arith, (refl, refl, refl, refl))
flags_lem false false false true = (omega arith, (refl, refl, refl, refl))
flags_lem false false true false = (omega arith, (refl, refl, refl, refl))
flags_lem false false true true = (omega arith, (refl, refl, refl, refl))
flags_lem false true false false = (omega arith, (refl, refl, refl, refl))
flags_lem false true false true = (omega arith, (refl, refl, refl, refl))
flags_lem false true true false = (omega arith, (refl, refl, refl, refl))
flags_lem false true true true = (omega arith, (refl, refl, refl, refl))
flags_lem true false false false = (omega arith, (refl, refl, refl, refl))
flags_lem true false false true = (omega arith, (refl, refl, refl, refl))
flags_lem true false true false = (omega arith, (refl, refl, refl, refl))
flags_lem true false true true = (omega arith, (refl, refl, refl, refl))
flags_lem true true false false = (omega arith, (refl, refl, refl, refl))
flags_lem true true false true = (omega arith, (refl, refl, refl, refl))
flags_lem true true true false = (omega arith, (refl, refl, refl, refl))
flags_lem true true true true = (omega arith, (refl, refl, refl, refl))

has_bit_packed : (c n k : ℕ) → n < 16 → k < 4 → has_bit (bit_or c (u8 (n * 2 ^ 4))) k ≡ has_bit c k
has_bit_packed c n k hn hk =
    has_bit_lem (bit_or c (u8 (n * 2 ^ 4))) k
    ∙ ap (λ (d : ℕ). d == 1) same_digit
    ∙ sym (has_bit_lem c k)
  where
    byte : u8 (n * 2 ^ 4) ≡ n * 2 ^ 4
    byte = omega arith

    same_digit : digit (bit_or c (u8 (n * 2 ^ 4))) k ≡ digit c k
    same_digit = omega (
      arith,
      digit-bit_or c (u8 (n * 2 ^ 4)) k,
      ap (λ (t : ℕ). digit t k) byte,
      digit-shl_low n 4 k hk,
    )

size_packed : (c n : ℕ) → c < 16 → n < 16 → bit_or c (u8 (n * 2 ^ 4)) / 2 ^ 4 ≡ n
size_packed c n hc hn = omega (
  arith,
  bit_or_comm 8 c (u8 (n * 2 ^ 4)) (omega arith) (omega arith),
  ap (λ (t : ℕ). bit_or t c) byte,
  bit_or-shl 4 n c hc,
)
  where
    byte : u8 (n * 2 ^ 4) ≡ n * 2 ^ 4
    byte = omega arith

-- The four flags and the size, below 16, of a single transfer, and the four flags of a multiple
-- transfer, are read back as they were packed.
pub packing_lem :
    (f0 f1 f2 f3 : Bool) (n : ℕ)
    → n < 16
    → ((pre (single f0 f1 f2 f3 n) ≡ f0)
        × (write_back (single f0 f1 f2 f3 n) ≡ f1)
        × (add_offset (single f0 f1 f2 f3 n) ≡ f2)
        × (signed (single f0 f1 f2 f3 n) ≡ f3)
        × (size (single f0 f1 f2 f3 n) ≡ n))
      × (pre_multiple (multiple f0 f1 f2 f3) ≡ f0)
      × (write_back_multiple (multiple f0 f1 f2 f3) ≡ f1)
      × (add_multiple (multiple f0 f1 f2 f3) ≡ f2)
      × (user (multiple f0 f1 f2 f3) ≡ f3)
unfolding single multiple pre write_back add_offset signed size pre_multiple write_back_multiple
    add_multiple user
packing_lem f0 f1 f2 f3 n h =
    let c : ℕ = flags f0 f1 f2 f3 in
    let f = flags_lem f0 f1 f2 f3 in
    let bits = f.1 in
    (
      (
        has_bit_packed c n 0 h (omega arith) ∙ bits.0,
        has_bit_packed c n 1 h (omega arith) ∙ bits.1,
        has_bit_packed c n 2 h (omega arith) ∙ bits.2,
        has_bit_packed c n 3 h (omega arith) ∙ bits.3,
        size_packed c n f.0 h,
      ),
      bits.0,
      bits.1,
      bits.2,
      bits.3,
    )
