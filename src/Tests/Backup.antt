-- ===== src/Tests/Backup.antt =====
-- Save chips and the clock on concrete cartridges.
use advanced_slop.Base.{
  ℕ, zero, suc, ap, ◌+◌, ◌%◌, ◌^◌, ◌≡◌, refl, arith, inl, [], ◌∷◌, List, true, false, Bool, ◌&&◌,
  ◌==◌, if◌then◌else◌, of_bool, leb, length, replicate,
}
use advanced_slop.Cartridge.{
  flash64k, initial_size, CartridgeIo, Cartridge, default_eeprom, read_save_buf, write_save_buf,
}
use advanced_slop.Cartridge.Buffer.{read_save_buf-write_save_buf, long_save_aliases}
use advanced_slop.Cartridge.Flash.{cartridge_read_sram}
use advanced_slop.Cartridge.Flash.Protect.{IsFlash, write_all, write_all_protects}
use advanced_slop.Cartridge.Flash.Program.{program, idle, read-program}
use advanced_slop.Rtc.{Rtc, Now, date_of, update_rtc}
use advanced_slop.Rtc.Panics.{is_none, clocked, reads, outside, register, update_rtc_panics}
use advanced_slop.Rtc.Transfer.{Good, send, send_returns}
use advanced_slop.Rtc.Dates.{decode, decode-date_of, IsTime, shown_hour}

-- A buffer of `n` erased bytes.
module _ (n : ℕ) where
  abbrev erased_io : CartridgeIo
  erased_io = record {
    rom_len = 0x100_0000;
    rom_mask = 0xff_ffff;
    save_type = flash64k;
    has_rtc = true;
    save_buf = replicate n 0xff;
    save_dirty = false;
  }

length-replicate : (n v : ℕ) → length (replicate n v) ≡ n
length-replicate zero v = refl
length-replicate (suc n) v = ap suc (length-replicate n v)

abbrev erased_flash : Cartridge
erased_flash = record { io = erased_io (2 ^ 16); flash = idle 0; eeprom = default_eeprom }

read_save_buf-write_save_buf_example :
    read_save_buf 0x1_0005 (write_save_buf 5 0x42 (erased_io (2 ^ 16))) ≡ (
      if 0x1_0005 % 2 ^ 16 == 5 % 2 ^ 16 then 0x42 else read_save_buf 0x1_0005 (erased_io (2 ^ 16)))
read_save_buf-write_save_buf_example =
    read_save_buf-write_save_buf 16 0x1_0005 5 0x42 (erased_io (2 ^ 16))
      (length-replicate (2 ^ 16) 0xff)

long_save_aliases_example :
    read_save_buf 0x1_2345 (write_save_buf (0x1_2345 % 16) 0x42 (erased_io (2 ^ 17 + 16))) ≡ 0x42
long_save_aliases_example =
    long_save_aliases 0x1_2345 0x42 (erased_io (2 ^ 17 + 16)) (length-replicate (2 ^ 17 + 16) 0xff)
      (omega arith)

-- The announcement of an erase, which is not completed.
abbrev three_writes : List (ℕ × ℕ)
three_writes = (0x0e00_5555, 0xaa) ∷ (0x0e00_2aaa, 0x55) ∷ (0x0e00_5555, 0x80) ∷ []

write_all_protects_example : (write_all three_writes erased_flash).io ≡ erased_flash.io
unfolding IsFlash
write_all_protects_example = write_all_protects three_writes erased_flash (inl refl) (omega arith)

read-program_example : cartridge_read_sram 0x0e00_0123 (program 0x0e00_0123 0x5a erased_flash) ≡ (
    if 0x0e00_0123 % 0x10000 == 0x0e00_0123 % 0x10000
    then 0x5a
    else cartridge_read_sram 0x0e00_0123 erased_flash)
unfolding IsFlash initial_size
read-program_example =
    read-program 0 0x0e00_0123 0x0e00_0123 0x5a erased_flash (inl refl) refl
      (length-replicate (2 ^ 16) 0xff)

-- Half past one in the afternoon.
abbrev afternoon : Now
afternoon = record {
  frozen = false;
  year = 2026;
  month = 7;
  day = 23;
  weekday = 4;
  hour = 13;
  minute = 30;
  second = 59;
}

-- The 65th clock of a transfer that reads date and time.
abbrev overrun : Rtc
overrun = record {
  cs = 1;
  sck = 0;
  sio = 0;
  write_count = 64;
  command = 0x65;
  control = 0x40;
  date_time = 0x26 ∷ 7 ∷ 0x23 ∷ 4 ∷ 0x13 ∷ 0x30 ∷ 0x59 ∷ [];
  gp_direction = 5;
  gp_control = 1;
}

update_rtc_panics_example : is_none (update_rtc afternoon 1 1 0 overrun) ≡ (
    clocked 1 1 overrun
    && leb 8 overrun.write_count
    && reads overrun
    && outside (register overrun) overrun)
update_rtc_panics_example = update_rtc_panics afternoon 1 1 0 overrun refl

-- The command for date and time, and the first bit of the answer.
abbrev date_command : List Bool
date_command = false ∷ true ∷ true ∷ false ∷ false ∷ true ∷ false ∷ true ∷ false ∷ []

abbrev idle_clock : Rtc
idle_clock = record overrun { write_count = 0; command = 0 }

send_returns_example :
    Good (idle_clock.write_count + length date_command) (send afternoon date_command idle_clock)
send_returns_example = send_returns afternoon date_command idle_clock refl (omega arith)

decode-date_of_example :
    decode (date_of afternoon 0)
    ≡ afternoon.year % 100
      ∷ afternoon.month
      ∷ afternoon.day
      ∷ afternoon.weekday
      ∷ shown_hour 0 afternoon
      ∷ afternoon.minute
      ∷ afternoon.second
      ∷ of_bool (leb 12 afternoon.hour)
      ∷ []
unfolding IsTime
decode-date_of_example =
    decode-date_of afternoon 0
      (omega arith, omega arith, omega arith, omega arith, omega arith, omega arith)
