-- ===== src/Bios/Copy.antt =====
-- `cpu_set` and `cpu_fast_set` of src/core/hle/bios.rs.
use advanced_slop.Base.{ℕ, zero, suc, ◌+◌, ◌*◌, ◌^◌, Bool, if◌then◌else◌, bit_and}
use advanced_slop.Base.Word.{u32, has_bit}
use advanced_slop.Emu.{Emu}
use advanced_slop.Interp.Memory.{Bus}
use advanced_slop.Bios.{get}

module _ {R : Type 0} where
  -- The loops, from round `i` on, with `left` rounds to go.
  unfoldable pub copy_words : Bus R → (fill : Bool) → (src dest left i : ℕ) → Emu R → Emu R
  copy_words bus fill src dest zero i e = e
  copy_words bus fill src dest (suc left) i e =
      let (value, e') = bus.read32 (if fill then src else u32 (src + i * 2 ^ 2)) e in
      copy_words bus fill src dest left (i + 1) (bus.write32 (u32 (dest + i * 2 ^ 2)) value e')

  unfoldable pub copy_halves : Bus R → (fill : Bool) → (src dest left i : ℕ) → Emu R → Emu R
  copy_halves bus fill src dest zero i e = e
  copy_halves bus fill src dest (suc left) i e =
      let (value, e') = bus.read16 (if fill then src else u32 (src + i * 2)) e in
      copy_halves bus fill src dest left (i + 1) (bus.write16 (u32 (dest + i * 2)) value e')

  unfoldable pub cpu_fast_set : Bus R → Emu R → Emu R
  unfolding copy_words
  cpu_fast_set bus e =
      let length_mode : ℕ = get 2 e in
      copy_words bus (has_bit length_mode 24) (get 0 e) (get 1 e) (bit_and length_mode 0x1fffff) 0 e

  unfoldable pub cpu_set : Bus R → Emu R → Emu R
  unfolding copy_words copy_halves
  cpu_set bus e =
      let len_mode : ℕ = get 2 e in
      let count : ℕ = bit_and len_mode 0x1fffff in
      let fill : Bool = has_bit len_mode 24 in
      if has_bit len_mode 26
      then copy_words bus fill (get 0 e) (get 1 e) count 0 e
      else copy_halves bus fill (get 0 e) (get 1 e) count 0 e
