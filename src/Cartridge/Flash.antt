-- ===== src/Cartridge/Flash.antt =====
-- The flash chip and the SRAM window of src/core/memory/cartridge.rs: `cartridge_read_sram`,
-- `cartridge_write_sram` and `cartridge_write_flash`.
pub mod Protect
pub mod Program
use advanced_slop.Base.{
  ℕ, zero, suc, ◌+◌, ◌-◌, ◌*◌, ◌%◌, ◌^◌, Bool, true, false, ◌&&◌, ◌==◌, if◌then◌else◌, bit_and,
  length, of_bool,
}
use advanced_slop.Cartridge.{
  SaveType, no_save, eeprom, sram, flash64k, flash128k, CartridgeIo, Cartridge, FlashState,
  read_save_buf, write_save_buf,
}

abbrev pub is_128k : SaveType → Bool
is_128k flash128k = true
is_128k _ = false

-- `for i in 0..count { write_save_buf(base + i, 0xFF) }`, from index `i` on.
unfoldable pub erase : ℕ → ℕ → ℕ → CartridgeIo → CartridgeIo
erase zero base i io = io
erase (suc left) base i io = erase left base (i + 1) (write_save_buf (base + i) 0xff io)

-- The identification bytes.
unfoldable pub read_id : SaveType → ℕ → ℕ
read_id save_type offset =
    if offset == 0
    then 0xc2
    else if offset == 1
    then (if is_128k save_type then 0x09 else 0x1c)
    else 0xff

unfoldable pub read_flash : ℕ → Cartridge → ℕ
unfolding read_id
read_flash offset c =
    if c.flash.id_mode
    then read_id c.io.save_type offset
    else read_save_buf (c.flash.bank * 0x10000 + offset) c.io

abbrev pub with_flash : FlashState → Cartridge → Cartridge
with_flash flash c = record c { flash = flash }

-- The `match` on a command byte; any other byte does nothing.
unfoldable pub command : Bool → ℕ → FlashState → FlashState
command big value f =
    if value == 0x90
    then record f { id_mode = true }
    else if value == 0xf0
    then record f { id_mode = false }
    else if value == 0xa0
    then record f { write_mode = true }
    else if value == 0x80
    then record f { erase_mode = true }
    else if value == 0xb0 && big
    then record f { bank_mode = true }
    else f

-- The third write of a command sequence: an erase that was announced, or a command.
unfoldable pub third_write : ℕ → ℕ → Cartridge → Cartridge
unfolding command erase
third_write offset value c =
    let big : Bool = is_128k c.io.save_type in
    let idle : FlashState = record (c.flash) { cmd_stage = 0 } in
    let erased : FlashState = record idle { erase_mode = false } in
    let other : Cartridge = with_flash (command big value erased) c in
    if c.flash.erase_mode
    then (if offset == 0x5555 && value == 0x10
        then record c { flash = erased; io = erase (length c.io.save_buf) 0 0 c.io }
        else if value == 0x30
        then (record c {
          flash = erased;
          io = erase 0x1000 (c.flash.bank * 0x10000 + bit_and offset 0xf000) 0 c.io;
        })
        else other)
    else other

unfoldable pub cartridge_write_flash : ℕ → ℕ → Cartridge → Cartridge
unfolding third_write
cartridge_write_flash offset value c =
    let f : FlashState = c.flash in
    if f.write_mode
    then (record c {
      flash = record f { write_mode = false };
      io = write_save_buf (f.bank * 0x10000 + offset) value c.io;
    })
    else if f.bank_mode && offset == 0
    then with_flash
        (record f { bank = bit_and value (of_bool (is_128k c.io.save_type)); bank_mode = false }) c
    else if f.cmd_stage == 0
    then (if offset == 0x5555 && value == 0xaa
        then with_flash (record f { cmd_stage = 1 }) c
        else c)
    else if f.cmd_stage == 1
    then with_flash (record f { cmd_stage = if offset == 0x2aaa && value == 0x55 then 2 else 0 }) c
    else third_write offset value c

unfoldable pub read_chip : SaveType → ℕ → Cartridge → ℕ
unfolding read_flash
read_chip no_save offset c = 0xff
read_chip eeprom offset c = 0xff
read_chip sram offset c = read_save_buf (bit_and offset 0x7fff) c.io
read_chip flash64k offset c = read_flash offset c
read_chip flash128k offset c = read_flash offset c

unfoldable pub cartridge_read_sram : ℕ → Cartridge → ℕ
unfolding read_chip
cartridge_read_sram addr c = read_chip c.io.save_type (bit_and addr 0xffff) c

unfoldable pub write_chip : SaveType → ℕ → ℕ → Cartridge → Cartridge
unfolding cartridge_write_flash
write_chip no_save offset value c = c
write_chip eeprom offset value c = c
write_chip sram offset value c = record c { io = write_save_buf (bit_and offset 0x7fff) value c.io }
write_chip flash64k offset value c = cartridge_write_flash offset value c
write_chip flash128k offset value c = cartridge_write_flash offset value c

unfoldable pub cartridge_write_sram : ℕ → ℕ → Cartridge → Cartridge
unfolding write_chip
cartridge_write_sram addr value c = write_chip c.io.save_type (bit_and addr 0xffff) value c
