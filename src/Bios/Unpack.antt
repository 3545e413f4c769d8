-- ===== src/Bios/Unpack.antt =====
-- The decompression calls of src/core/hle/bios.rs.
pub mod Ends
pub mod Bytes
use advanced_slop.Base.{
  ℕ, zero, suc, ◌+◌, ◌*◌, ◌-◌, ◌/◌, ◌%◌, ◌^◌, Bool, true, false, leb, ltb, if◌then◌else◌, bit_and,
  bit_or, Option, none, some,
}
use advanced_slop.Base.Word.{u8, u16, u32, has_bit, wrapping_sub32}
use advanced_slop.Base.Digits.{complement}
use advanced_slop.Emu.{Emu}
use advanced_slop.Interp.Memory.{Bus}
use advanced_slop.Bios.{get}

-- The halfword that `uncomp_write_byte` stores.
unfoldable pub put_byte : (cur addr value : ℕ) → ℕ
put_byte cur addr value =
    let shift : ℕ = bit_and addr 1 * 8 in
    bit_or (bit_and cur (complement 16 (0xff * 2 ^ shift))) (value * 2 ^ shift)

-- The local variables of the loops, and the machine.
pub record Unpacking (R : Type 0) : Type 0 where
  pub src : ℕ
  pub dst : ℕ
  pub machine : Emu R

module _ {R : Type 0} where
  unfoldable pub uncomp_write_byte : Bus R → (addr value : ℕ) → Emu R → Emu R
  unfolding put_byte
  uncomp_write_byte bus addr value e =
      let aligned : ℕ = bit_and addr (complement 32 1) in
      let (cur, e') = bus.read16 aligned e in bus.write16 aligned (put_byte cur addr value) e'

  module _ (bus : Bus R) (src_addr dst_addr : ℕ) where
    -- `emu.mem_read::<u8>(src_addr + src); src += 1`
    abbrev pub next_byte : Unpacking R → ℕ × Unpacking R
    next_byte s =
        let (v, e) = bus.read8 (u32 (src_addr + s.src)) s.machine in
        (v, record { src = s.src + 1; dst = s.dst; machine = e })

    -- `uncomp_write_byte(emu, dst_addr + dst, value); dst += 1`
    abbrev pub emit : ℕ → Unpacking R → Unpacking R
    emit value s = record {
      src = s.src;
      dst = s.dst + 1;
      machine = uncomp_write_byte bus (u32 (dst_addr + s.dst)) value s.machine;
    }

    -- A literal byte.
    abbrev pub copy_byte : Unpacking R → Unpacking R
    copy_byte s = let (v, s') = next_byte s in emit v s'

    -- The bytes of a back reference.
    unfoldable pub copy_back : (left offset : ℕ) → Unpacking R → Unpacking R
    copy_back zero offset s = s
    copy_back (suc left) offset s =
        let (v, e) = bus.read8 (wrapping_sub32 (u32 (dst_addr + s.dst)) offset) s.machine in
        copy_back left offset (emit v (record s { machine = e }))

    abbrev pub back_reference : Unpacking R → Unpacking R
    back_reference s =
        let (val1, s1) = next_byte s in
        let (val2, s2) = next_byte s1 in
        copy_back (3 + bit_and (val1 / 2 ^ 4) 0xf) (1 + bit_and val1 0xf * 2 ^ 8 + val2) s2

    -- The inner loop: the bits of one flag byte. `true` is the return.
    unfoldable pub lz77_bits : (size left flags : ℕ) → Unpacking R → Bool × Unpacking R
    unfolding copy_back
    lz77_bits size zero flags s = (false, s)
    lz77_bits size (suc left) flags s =
        let shifted : ℕ = u16 (flags * 2) in
        let next : Unpacking R = if has_bit shifted 8 then back_reference s else copy_byte s in
        let rest : Bool × Unpacking R = lz77_bits size left shifted next in
        if leb size s.dst then (true, s) else rest

    -- The outer loop, on fuel.
    unfoldable pub lz77_loop : (fuel size : ℕ) → Unpacking R → Option (Unpacking R)
    unfolding lz77_bits
    lz77_loop zero size s = none
    lz77_loop (suc fuel) size s =
        let (flags, s') = next_byte s in
        let out : Bool × Unpacking R = lz77_bits size 8 flags s' in
        let again : Option (Unpacking R) = lz77_loop fuel size out.1 in
        if out.0 then some out.1 else again

    -- The loops of the two cases of a run.
    unfoldable pub repeat_byte : (left value : ℕ) → Unpacking R → Unpacking R
    repeat_byte zero value s = s
    repeat_byte (suc left) value s = repeat_byte left value (emit value s)

    unfoldable pub copy_bytes : (left : ℕ) → Unpacking R → Unpacking R
    copy_bytes zero s = s
    copy_bytes (suc left) s = copy_bytes left (copy_byte s)

    unfoldable pub run : Unpacking R → Unpacking R
    unfolding repeat_byte copy_bytes
    run s =
        let (flags, s1) = next_byte s in
        let (value, s2) = next_byte s1 in
        if has_bit flags 7
        then repeat_byte (bit_and flags 0x7f + 3) value s2
        else copy_bytes (bit_and flags 0x7f + 1) s1

    unfoldable pub runlen_loop : (fuel size : ℕ) → Unpacking R → Option (Unpacking R)
    unfolding run
    runlen_loop zero size s = if ltb s.dst size then none else some s
    runlen_loop (suc fuel) size s =
        let again : Option (Unpacking R) = runlen_loop fuel size (run s) in
        if ltb s.dst size then again else some s

  -- The header word has the size in its upper three bytes.
  abbrev pub unpack_with :
      Bus R
      → ((src_addr dst_addr size : ℕ) → Unpacking R → Option (Unpacking R))
      → Emu R
      → Option (Emu R)
  unpack_with bus loop e =
      let (header, e') = bus.read32 (get 0 e) e in
      machine_of
        (loop (get 0 e) (get 1 e) (header / 2 ^ 8) (record { src = 4; dst = 0; machine = e' }))
    where
      machine_of : Option (Unpacking R) → Option (Emu R)
      machine_of none = none
      machine_of (some s) = some s.machine

  unfoldable pub lz77_uncomp : Bus R → Emu R → Option (Emu R)
  unfolding lz77_loop
  lz77_uncomp bus = unpack_with bus (λ src dst size. lz77_loop bus src dst (size / 8 + 1) size)

  unfoldable pub runlen_uncomp : Bus R → Emu R → Option (Emu R)
  unfolding runlen_loop
  runlen_uncomp bus = unpack_with bus (λ src dst size. runlen_loop bus src dst size size)
