-- ===== src/Cartridge.antt =====
-- src/cartridge_io.rs and src/core/memory/cartridge.rs: the save chip of a cartridge. This file has
-- the state, the save buffer and its detection; `Flash` and `Eeprom` have the chips' protocols. The
-- names and paths of the files, which only the host's file system uses, are left out.
pub mod Flash
pub mod Eeprom
pub mod Buffer
use advanced_slop.Base.{
  ℕ, zero, suc, ◌+◌, ◌-◌, ◌*◌, List, [], ◌∷◌, ◌++◌, Bool, true, false, ◌&&◌, ◌||◌, ◌==◌, ltb,
  if◌then◌else◌, Option, none, some, length, get_or, set, take, drop, replicate, bit_and,
}

pub data SaveType : Type 0 where
  no_save eeprom sram flash64k flash128k : SaveType

unfoldable pub initial_size : SaveType → ℕ
initial_size no_save = 0
initial_size eeprom = 8 * 1024
initial_size sram = 32 * 1024
initial_size flash64k = 64 * 1024
initial_size flash128k = 128 * 1024

pub record CartridgeIo : Type 0 where
  pub rom_len : ℕ
  pub rom_mask : ℕ
  pub save_type : SaveType
  pub has_rtc : Bool
  pub save_buf : List ℕ
  pub save_dirty : Bool

unfoldable pub empty : CartridgeIo
empty = record {
  rom_len = 0;
  rom_mask = 0;
  save_type = no_save;
  has_rtc = false;
  save_buf = [];
  save_dirty = false;
}

abbrev pub bytes_eq : List ℕ → List ℕ → Bool
bytes_eq [] [] = true
bytes_eq (x ∷ xs) (y ∷ ys) = x == y && bytes_eq xs ys
bytes_eq _ _ = false

-- `find_string`, from the position that the rest of the rom starts at; a needle at the very end is
-- not looked at. Each round drops four bytes, so the length of the rom is fuel enough.
unfoldable pub find_string : ℕ → List ℕ → List ℕ → Bool
find_string zero rom needle = false
find_string (suc fuel) rom needle =
    let rest : Bool = find_string fuel (drop 4 rom) needle in
    if ltb (length needle) (length rom)
    then bytes_eq (take (length needle) rom) needle || rest
    else false

abbrev pub eeprom_v : List ℕ
eeprom_v = b'E' ∷ b'E' ∷ b'P' ∷ b'R' ∷ b'O' ∷ b'M' ∷ b'_' ∷ b'V' ∷ []

abbrev pub sram_v : List ℕ
sram_v = b'S' ∷ b'R' ∷ b'A' ∷ b'M' ∷ b'_' ∷ b'V' ∷ []

abbrev pub flash1m_v : List ℕ
flash1m_v = b'F' ∷ b'L' ∷ b'A' ∷ b'S' ∷ b'H' ∷ b'1' ∷ b'M' ∷ b'_' ∷ b'V' ∷ []

abbrev pub flash_v : List ℕ
flash_v = b'F' ∷ b'L' ∷ b'A' ∷ b'S' ∷ b'H' ∷ b'_' ∷ b'V' ∷ []

abbrev pub flash512_v : List ℕ
flash512_v = b'F' ∷ b'L' ∷ b'A' ∷ b'S' ∷ b'H' ∷ b'5' ∷ b'1' ∷ b'2' ∷ b'_' ∷ b'V' ∷ []

abbrev pub siirtc_v : List ℕ
siirtc_v = b'S' ∷ b'I' ∷ b'I' ∷ b'R' ∷ b'T' ∷ b'C' ∷ b'_' ∷ b'V' ∷ []

unfoldable pub detect_save_type : List ℕ → SaveType
unfolding find_string
detect_save_type rom =
    let find = λ (needle : List ℕ). find_string (length rom) rom needle in
    if find eeprom_v
    then eeprom
    else if find sram_v
    then sram
    else if find flash1m_v
    then flash128k
    else if find flash_v || find flash512_v
    then flash64k
    else no_save

-- A save file longer than the chip replaces the buffer; a shorter one fills its start.
unfoldable pub load_content : ℕ → List ℕ → List ℕ
load_content size content =
    if ltb size (length content)
    then content
    else content ++ drop (length content) (replicate size 0xff)

-- `detect_and_load_save`, on what the save file holds (`none` if it cannot be read). An empty file
-- is as good as none.
unfoldable pub detect_and_load_save : List ℕ → Option (List ℕ) → CartridgeIo → CartridgeIo
unfolding detect_save_type initial_size load_content
detect_and_load_save rom file io =
    let save_type : SaveType = detect_save_type rom in
    let size : ℕ = initial_size save_type in
    record io {
      save_type = save_type;
      has_rtc = find_string (length rom) rom siirtc_v;
      save_buf = elim file [
        | none ↦ replicate size 0xff
        | some content ↦
            if length content == 0 then replicate size 0xff else load_content size content
      ];
    }

-- The index that both accesses use.
abbrev pub save_index : ℕ → List ℕ → ℕ
save_index addr save_buf = bit_and addr (length save_buf - 1)

unfoldable pub read_save_buf : ℕ → CartridgeIo → ℕ
read_save_buf addr io =
    if length io.save_buf == 0 then 0xff else get_or io.save_buf (save_index addr io.save_buf) 0

unfoldable pub write_save_buf : ℕ → ℕ → CartridgeIo → CartridgeIo
write_save_buf addr value io = if length io.save_buf == 0 then io else (record io {
  save_buf = set io.save_buf (save_index addr io.save_buf) value;
  save_dirty = true;
})

-- `Vec::resize(new_size, 0xFF)`
unfoldable pub resize_save_buf : ℕ → CartridgeIo → CartridgeIo
resize_save_buf new_size io = record io {
  save_buf = take new_size io.save_buf ++ replicate (new_size - length io.save_buf) 0xff;
  save_dirty = true;
}

-- The write of the file is the host's: the bytes to write, if there are any.
unfoldable pub flush_save_buf : CartridgeIo → CartridgeIo × Option (List ℕ)
flush_save_buf io =
    (record io { save_dirty = false }, if io.save_dirty then some io.save_buf else none)

pub record FlashState : Type 0 where
  pub cmd_stage : ℕ
  pub id_mode : Bool
  pub erase_mode : Bool
  pub write_mode : Bool
  pub bank_mode : Bool
  pub bank : ℕ

abbrev pub default_flash : FlashState
default_flash = record {
  cmd_stage = 0;
  id_mode = false;
  erase_mode = false;
  write_mode = false;
  bank_mode = false;
  bank = 0;
}

pub record EepromState : Type 0 where
  pub count : ℕ
  pub cmd : ℕ
  pub bits : ℕ
  pub done : Bool
  pub size : ℕ

abbrev pub default_eeprom : EepromState
default_eeprom = record { count = 0; cmd = 0; bits = 0; done = false; size = 0 }

pub record Cartridge : Type 0 where
  pub io : CartridgeIo
  pub flash : FlashState
  pub eeprom : EepromState

unfoldable pub set_cartridge_io : CartridgeIo → Cartridge → Cartridge
set_cartridge_io io c = record { io = io; flash = default_flash; eeprom = default_eeprom }

-- `cartridge_savestate_post_load`
unfoldable pub savestate_post_load : Cartridge → Cartridge
savestate_post_load c =
    if c.eeprom.size == 0 || length c.io.save_buf == c.eeprom.size
    then c
    else (record c { io = resize_save_buf c.eeprom.size c.io })
