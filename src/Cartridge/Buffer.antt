-- ===== src/Cartridge/Buffer.antt =====
-- What the save buffer answers after a write, for a chip whose size is a power of two, and for a
-- buffer that a longer save file has replaced.
use advanced_slop.Base.{
  ℕ, ◌+◌, ◌-◌, ◌/◌, ◌%◌, ◌^◌, ◌<◌, ◌≡◌, ◌≢◌, refl, ap, sym, ◌∙◌, arith, ◌==◌, ==_iff, if◌then◌else◌,
  true, length, length-set, get_or, set, get_or-set_self, get_or-set_ne, bit_and, List,
}
use native.Mathlib.Nat.{one-le-pow}
use advanced_slop.Base.Digits.{
  bit_and-low_mask, bit_and-le_right, bit_and_halves, bit_and-two_pow, digit_high,
}
use advanced_slop.Cartridge.{CartridgeIo, save_index, read_save_buf, write_save_buf}

-- No access leaves the buffer, whatever its size and the address are.
pub save_index-lt :
    (addr : ℕ) (save_buf : List ℕ)
    → length save_buf ≢ 0
    → save_index addr save_buf < length save_buf
save_index-lt addr save_buf some_bytes =
    omega (arith, bit_and-le_right (length save_buf - 1) addr (length save_buf - 1) (omega arith))

module _ (addr other value : ℕ) (io : CartridgeIo) (some_bytes : length io.save_buf ≢ 0) where
  -- A read sees a write exactly if their indices agree.
  pub read-write_index : read_save_buf addr (write_save_buf other value io) ≡ (
      if save_index addr io.save_buf == save_index other io.save_buf
      then value
      else read_save_buf addr io)
  unfolding read_save_buf write_save_buf
  read-write_index =
      let i : ℕ = save_index addr io.save_buf in
      let j : ℕ = save_index other io.save_buf in
      ground (
        arith,
        length-set io.save_buf j value,
        ap (λ (n : ℕ). bit_and addr (n - 1)) (length-set io.save_buf j value),
        get_or-set_self io.save_buf j value 0 (save_index-lt other io.save_buf some_bytes),
        λ (ne : j ≢ i). get_or-set_ne io.save_buf j i value 0 ne,
        λ (e : i ≡ j). ap (λ (t : ℕ). get_or (set io.save_buf j value) t 0) e,
        ap (λ (t : ℕ). get_or (set io.save_buf j value) t 0)
            (ap (λ (n : ℕ). bit_and addr (n - 1)) (length-set io.save_buf j value)),
      )

-- In a chip of 2^k bytes a read returns the last value written to its address modulo 2^k: a write
-- shows there, and nowhere else.
pub read_save_buf-write_save_buf :
    (k addr other value : ℕ) (io : CartridgeIo)
    → length io.save_buf ≡ 2 ^ k
    → read_save_buf addr (write_save_buf other value io)
      ≡ (if addr % 2 ^ k == other % 2 ^ k then value else read_save_buf addr io)
read_save_buf-write_save_buf k addr other value io size =
    let index = λ (a : ℕ). ap (λ (n : ℕ). bit_and a (n - 1)) size ∙ bit_and-low_mask a k in
    rw (← index addr, ← index other)
      (read-write_index addr other value io (omega (arith, size, one-le-pow k 2)))

low_nibble : (a : ℕ) → a < 2 ^ 17 → bit_and a 0x2000f ≡ a % 16
low_nibble a small = omega (
  arith,
  bit_and_halves a 0x2000f,
  bit_and_halves (a / 2) 0x10007,
  bit_and_halves (a / 2 / 2) 0x8003,
  bit_and_halves (a / 2 / 2 / 2) 0x4001,
  bit_and-two_pow (a / 2 / 2 / 2 / 2) 13,
  digit_high 13 (a / 2 / 2 / 2 / 2) 13 (omega arith) (omega arith),
)

-- In a buffer of 2^17 + 16 bytes, which a flash save with 16 more bytes at its end leaves, every
-- address of the chip shares its byte with one of the first 16: a write there shows at all addresses
-- that agree with it modulo 16.
pub long_save_aliases :
    (addr value : ℕ) (io : CartridgeIo)
    → length io.save_buf ≡ 2 ^ 17 + 16
    → addr < 2 ^ 17
    → read_save_buf addr (write_save_buf (addr % 16) value io) ≡ value
long_save_aliases addr value io size small =
    let index =
      λ (a : ℕ) (h : a < 2 ^ 17). ap (λ (n : ℕ). bit_and a (n - 1)) size ∙ low_nibble a h in
    let same : (save_index addr io.save_buf == save_index (addr % 16) io.save_buf) ≡ true =
      (==_iff _ _).1 (index addr small ∙ sym (index (addr % 16) (omega arith) ∙ omega arith)) in
    read-write_index addr (addr % 16) value io (omega (arith, size)) ∙ rw same refl
