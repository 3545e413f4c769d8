-- ===== src/Cartridge/Eeprom.antt =====
-- The serial EEPROM of src/core/memory/cartridge.rs: `cartridge_is_eeprom`, `cartridge_read_eeprom`
-- and `cartridge_write_eeprom`.
use advanced_slop.Base.{
  ℕ, zero, suc, ◌+◌, ◌-◌, ◌*◌, ◌/◌, ◌%◌, ◌^◌, Bool, true, false, ◌&&◌, ◌==◌, ltb, leb,
  if◌then◌else◌, bit_and, bit_or,
}
use advanced_slop.Base.Word.{u8, u16}
use advanced_slop.Cartridge.{
  SaveType, eeprom, CartridgeIo, Cartridge, EepromState, default_eeprom, read_save_buf,
  write_save_buf, resize_save_buf,
}

abbrev pub is_eeprom : SaveType → Bool
is_eeprom eeprom = true
is_eeprom _ = false

unfoldable pub cartridge_is_eeprom : ℕ → Cartridge → Bool
cartridge_is_eeprom addr c =
    is_eeprom c.io.save_type
    && (if ltb (16 * 1024 * 1024) c.io.rom_len
        then leb 0x0dff_ff00 addr
        else leb 0x0d00_0000 addr && ltb addr 0x0e00_0000)

-- A command has 8 bits for the small chip and 16 for the large one.
abbrev pub command_length : EepromState → ℕ
command_length e = if e.size == 0x200 then 8 else 16

abbrev pub opcode_of : EepromState → ℕ
opcode_of e = bit_and e.cmd 0xc000 / 2 ^ 14

-- The block that a command addresses.
abbrev pub block_of : EepromState → ℕ
block_of e = if e.size == 0x200 then bit_and e.cmd 0x3f00 / 2 ^ 8 else bit_and e.cmd 0x03ff

-- The size is detected from how many command bits were sent before the first read.
unfoldable pub detect_size : Cartridge → Cartridge
detect_size c =
    let size : ℕ = if c.eeprom.count == 9 then 0x200 else 0x2000 in
    if c.eeprom.size == 0
    then (record c { eeprom = record (c.eeprom) { size = size }; io = resize_save_buf size c.io })
    else c

-- The bit that a read returns, after `count` has been incremented.
abbrev pub read_bit : Cartridge → ℕ
read_bit c =
    let e : EepromState = c.eeprom in
    let bit : ℕ = 63 - (e.count - (command_length e + 6)) in
    read_save_buf (block_of e * 8 + bit / 8) c.io / 2 ^ (bit % 8) % 2

unfoldable pub cartridge_read_eeprom : Cartridge → ℕ × Cartridge
unfolding detect_size
cartridge_read_eeprom start =
    let c : Cartridge = detect_size start in
    let len : ℕ = command_length c.eeprom in
    let next : Cartridge = record c {
      eeprom = record (c.eeprom) { count = u16 (c.eeprom.count + 1) };
    } in
    if opcode_of c.eeprom == 3 && leb (len + 1) c.eeprom.count
    then (if leb (len + 6) next.eeprom.count
        then (
          read_bit next,
          if leb (len + 69) next.eeprom.count
              then record next { eeprom = record default_eeprom { size = c.eeprom.size } }
              else next,
        )
        else (0, next))
    else (if c.eeprom.done then 1 else 0, c)

-- `for i in 0..8 { write_save_buf(addr * 8 + i, (data >> (i * 8)) as u8) }`, from byte `i` on.
unfoldable pub write_block : ℕ → ℕ → ℕ → ℕ → CartridgeIo → CartridgeIo
write_block zero i addr value io = io
write_block (suc left) i addr value io =
    write_block left (i + 1) addr value
      (write_save_buf (addr * 8 + i) (u8 (value / 2 ^ (i * 8))) io)

-- A command that has been read in full: the block is written.
unfoldable pub finish_write : Cartridge → Cartridge
unfolding write_block
finish_write c =
    let sized : Cartridge =
      if c.eeprom.size == 0
      then (record c {
        eeprom = record (c.eeprom) { size = 0x2000 };
        io = resize_save_buf 0x2000 c.io;
      })
      else c in
    record sized {
      io = write_block 8 0 (block_of sized.eeprom) sized.eeprom.bits sized.io;
      eeprom = record default_eeprom { size = sized.eeprom.size; done = true };
    }

unfoldable pub cartridge_write_eeprom : ℕ → Cartridge → Cartridge
unfolding finish_write
cartridge_write_eeprom value c =
    let e : EepromState = record (c.eeprom) { done = false } in
    let len : ℕ = command_length e in
    let bit : ℕ = bit_and value 1 in
    let count : ℕ = u16 (e.count + 1) in
    let with_bit : EepromState = record e {
      count = count;
      bits = if leb count (len + 64) then bit_or e.bits (bit * 2 ^ (len + 64 - count)) else e.bits;
    } in
    if ltb e.count len
    then (record c {
      eeprom = record e { count = count; cmd = bit_or e.cmd (bit * 2 ^ (16 - count)) };
    })
    else if opcode_of e == 3
    then (record c {
      eeprom = record e { count = if ltb e.count (len + 1) then count else e.count };
    })
    else if opcode_of e == 2
    then (if leb (len + 65) count
        then finish_write (record c { eeprom = with_bit })
        else record c { eeprom = with_bit })
    else (record c { eeprom = e })
