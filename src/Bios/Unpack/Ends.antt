-- ===== src/Bios/Unpack/Ends.antt =====
-- The decompressions return, and how far the output goes beyond the size of the header.
use advanced_slop.Base.{
  ℕ, zero, suc, ◌+◌, ◌*◌, ◌/◌, ◌^◌, ◌<◌, ◌≤◌, ◌≡◌, refl, arith, max, Bool, true, false, Option,
  none, some, bit_and, leb, ltb, leb→le, leb→lt, ltb→lt, ltb→le, by_test, if◌then◌else◌,
}
use advanced_slop.Base.Word.{u16, has_bit}
use advanced_slop.Base.Digits.{bit_and-le_right}
use advanced_slop.Emu.{Emu}
use advanced_slop.Interp.Memory.{Bus}
use advanced_slop.Bios.Unpack.{
  Unpacking, next_byte, emit, copy_byte, copy_back, back_reference, lz77_bits, lz77_loop,
  repeat_byte, copy_bytes, run, runlen_loop,
}

module _ {R : Type 0} (bus : Bus R) (src_addr dst_addr : ℕ) where
  dst-repeat_byte :
      (left value : ℕ) (s : Unpacking R)
      → (repeat_byte bus src_addr dst_addr left value s).dst ≡ s.dst + left
  unfolding repeat_byte
  dst-repeat_byte zero value s = omega arith
  dst-repeat_byte (suc left) value s =
      omega (arith, dst-repeat_byte left value (emit bus src_addr dst_addr value s))

  dst-copy_bytes :
      (left : ℕ) (s : Unpacking R) → (copy_bytes bus src_addr dst_addr left s).dst ≡ s.dst + left
  unfolding copy_bytes
  dst-copy_bytes zero s = omega arith
  dst-copy_bytes (suc left) s =
      omega (arith, dst-copy_bytes left (copy_byte bus src_addr dst_addr s))

  dst-copy_back :
      (left offset : ℕ) (s : Unpacking R)
      → (copy_back bus src_addr dst_addr left offset s).dst ≡ s.dst + left
  unfolding copy_back
  dst-copy_back zero offset s = omega arith
  dst-copy_back (suc left) offset s = omega (arith, dst-copy_back left offset _)

  -- A run has 1 to 130 bytes.
  dst-run :
      (s : Unpacking R)
      → (s.dst + 1 ≤ (run bus src_addr dst_addr s).dst)
        × ((run bus src_addr dst_addr s).dst ≤ s.dst + 130)
  unfolding run
  dst-run s =
      let first : ℕ × Unpacking R = next_byte bus src_addr dst_addr s in
      let second : ℕ × Unpacking R = next_byte bus src_addr dst_addr first.1 in
      let length : ℕ = bit_and first.0 0x7f in
      let few : length ≤ 0x7f = bit_and-le_right 0x7f first.0 0x7f (omega arith) in
      by_test (λ (t : Unpacking R). (s.dst + 1 ≤ t.dst) × (t.dst ≤ s.dst + 130)) (has_bit first.0 7)
        _ _
        (λ _.
          let e = dst-repeat_byte (length + 3) second.0 second.1 in
          (omega (arith, e), omega (arith, e, few)))
        (λ _.
          let e = dst-copy_bytes (length + 1) first.1 in (omega (arith, e), omega (arith, e, few)))

  abbrev pub Ends : (size most : ℕ) → Option (Unpacking R) → Type 0
  Ends size most out = (s : Unpacking R) × (out ≡ some s) × (size ≤ s.dst) × (s.dst < size + most)

  runlen-Ends_from :
      (fuel size : ℕ) (s : Unpacking R)
      → size ≤ s.dst + fuel
      → s.dst < size + 130
      → Ends size 130 (runlen_loop bus src_addr dst_addr fuel size s)
  unfolding runlen_loop
  runlen-Ends_from zero size s enough below =
      by_test (Ends size 130) (ltb s.dst size) none (some s)
        (λ t. absurd (omega (arith, ltb→lt s.dst size t, enough)))
        (λ f. (s, refl, ltb→le s.dst size f, below))
  runlen-Ends_from (suc fuel) size s enough below =
      by_test (Ends size 130) (ltb s.dst size) _ (some s)
        (λ t.
          runlen-Ends_from fuel size (run bus src_addr dst_addr s)
            (omega (arith, enough, (dst-run s).0))
            (omega (arith, ltb→lt s.dst size t, (dst-run s).1)))
        (λ f. (s, refl, ltb→le s.dst size f, below))

  dst-back_reference :
      (s : Unpacking R)
      → (s.dst + 1 ≤ (back_reference bus src_addr dst_addr s).dst)
        × ((back_reference bus src_addr dst_addr s).dst ≤ s.dst + 18)
  dst-back_reference s =
      let first : ℕ × Unpacking R = next_byte bus src_addr dst_addr s in
      let second : ℕ × Unpacking R = next_byte bus src_addr dst_addr first.1 in
      let length : ℕ = bit_and (first.0 / 2 ^ 4) 0xf in
      let few : length ≤ 0xf = bit_and-le_right 0xf (first.0 / 2 ^ 4) 0xf (omega arith) in
      let e = dst-copy_back (3 + length) (1 + bit_and first.0 0xf * 2 ^ 8 + second.0) second.1 in
      (omega (arith, e), omega (arith, e, few))

  -- The rounds of a flag byte: a return has the size reached, else each round advances.
  abbrev After : (size left : ℕ) → Unpacking R → Bool × Unpacking R → Type 0
  After size left s out =
      (out.1.dst < size + 18)
      × (out.0 ≡ true → size ≤ out.1.dst)
      × (out.0 ≡ false → (s.dst + left ≤ out.1.dst) × (s.dst + left ≤ max size s.dst))

  After-step :
      (size left : ℕ) (s next : Unpacking R) (out : Bool × Unpacking R)
      → s.dst < size
      → s.dst + 1 ≤ next.dst
      → After size left next out
      → After size (suc left) s out
  After-step size left s next out below step h =
      (h.0, h.1, λ e. (omega (arith, (h.2 e).0, step), omega (arith, (h.2 e).1, step, below)))

  abbrev lz77_unit : ℕ → Unpacking R → Unpacking R
  lz77_unit flags s =
      if has_bit flags 8
      then back_reference bus src_addr dst_addr s
      else copy_byte bus src_addr dst_addr s

  lz77_unit-bounds :
      (flags : ℕ) (s : Unpacking R)
      → (s.dst + 1 ≤ (lz77_unit flags s).dst) × ((lz77_unit flags s).dst ≤ s.dst + 18)
  lz77_unit-bounds flags s =
      by_test (λ (t : Unpacking R). (s.dst + 1 ≤ t.dst) × (t.dst ≤ s.dst + 18)) (has_bit flags 8) _
        _ (λ _. dst-back_reference s) (λ _. (omega arith, omega arith))

  After-lz77_bits :
      (size left flags : ℕ) (s : Unpacking R)
      → s.dst < size + 18
      → After size left s (lz77_bits bus src_addr dst_addr size left flags s)
  unfolding lz77_bits
  After-lz77_bits size zero flags s below =
      (below, λ e. absurd (ground (arith, e)), λ e. (omega arith, omega arith))
  After-lz77_bits size (suc left) flags s below =
      by_test (After size (suc left) s) (leb size s.dst) (true, s) _
        (λ t. (below, λ e. leb→le size s.dst t, λ e. absurd (ground (arith, e))))
        (λ f.
          let below_size : s.dst < size = leb→lt size s.dst f in
          let shifted : ℕ = u16 (flags * 2) in
          let next : Unpacking R = lz77_unit shifted s in
          let unit = lz77_unit-bounds shifted s in
          After-step size left s next (lz77_bits bus src_addr dst_addr size left shifted next)
            below_size unit.0
            (After-lz77_bits size left shifted next (omega (arith, below_size, unit.1))))

  lz77-Ends_from :
      (fuel size : ℕ) (s : Unpacking R)
      → 1 ≤ fuel
      → size < s.dst + 8 * fuel
      → s.dst < size + 18
      → Ends size 18 (lz77_loop bus src_addr dst_addr fuel size s)
  unfolding lz77_loop
  lz77-Ends_from zero size s some_fuel enough below = absurd (omega (arith, some_fuel))
  lz77-Ends_from (suc fuel) size s some_fuel enough below =
      let first : ℕ × Unpacking R = next_byte bus src_addr dst_addr s in
      let out : Bool × Unpacking R = lz77_bits bus src_addr dst_addr size 8 first.0 first.1 in
      let after : After size 8 s out = After-lz77_bits size 8 first.0 first.1 below in
      by_test (Ends size 18) out.0 (some out.1) _ (λ t. (out.1, refl, after.1 t, after.0))
        (λ f.
          lz77-Ends_from fuel size out.1 (omega (arith, enough, (after.2 f).1))
            (omega (arith, enough, (after.2 f).0)) after.0)

  -- The decompression of a header that says `size` returns within the fuel, with `size` to
  -- `size + 17` bytes written.
  pub lz77_loop-Ends :
      (size : ℕ) (e : Emu R)
      → Ends size 18 (
          lz77_loop bus src_addr dst_addr
            (size / 8 + 1)
            size
            (record { src = 4; dst = 0; machine = e }))
  lz77_loop-Ends size e =
      lz77-Ends_from (size / 8 + 1) size (record { src = 4; dst = 0; machine = e }) (omega arith)
        (omega arith) (omega arith)

  -- The run-length decompression of a header that says `size` returns within the fuel, with `size`
  -- to `size + 129` bytes written.
  pub runlen_loop-Ends :
      (size : ℕ) (e : Emu R)
      → Ends size 130
          (runlen_loop bus src_addr dst_addr size size (record { src = 4; dst = 0; machine = e }))
  runlen_loop-Ends size e =
      runlen-Ends_from size size (record { src = 4; dst = 0; machine = e }) (omega arith)
        (omega arith)
