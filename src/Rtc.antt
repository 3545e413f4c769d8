-- ===== src/Rtc.antt =====
-- src/core/rtc.rs: the real-time clock of a cartridge, and its GPIO port in
-- src/core/memory/cartridge.rs. The host's clock is the argument `now`; `none` is the panic of an
-- array index out of bounds.
pub mod Panics
pub mod Transfer
pub mod Dates
use advanced_slop.Base.{
  ℕ, zero, suc, ◌+◌, ◌-◌, ◌*◌, ◌/◌, ◌%◌, ◌^◌, List, [], ◌∷◌, Bool, true, false, not, ◌&&◌, ◌||◌,
  ◌==◌, ltb, leb, if◌then◌else◌, Option, none, some, get_elem?, bit_and, bit_or,
}
use advanced_slop.Base.Digits.{complement}
use advanced_slop.Base.Word.{u8}

pub record Rtc : Type 0 where
  pub cs : ℕ
  pub sck : ℕ
  pub sio : ℕ
  pub write_count : ℕ
  pub command : ℕ
  pub control : ℕ
  pub date_time : List ℕ
  pub gp_direction : ℕ
  pub gp_control : ℕ

unfoldable pub new : Rtc
new = record {
  cs = 0;
  sck = 0;
  sio = 0;
  write_count = 0;
  command = 0;
  control = 0;
  date_time = 0 ∷ 0 ∷ 0 ∷ 0 ∷ 0 ∷ 0 ∷ 0 ∷ [];
  gp_direction = 0;
  gp_control = 0;
}

-- What the host's clock says; `frozen` if `ADVANCEDSLOP_RTC_FREEZE` is set.
pub record Now : Type 0 where
  pub frozen : Bool
  pub year : ℕ
  pub month : ℕ
  pub day : ℕ
  pub weekday : ℕ
  pub hour : ℕ
  pub minute : ℕ
  pub second : ℕ

unfoldable pub bcd : ℕ → ℕ
bcd v = bit_or (u8 (v / 10 * 2 ^ 4)) (v % 10)

unfoldable pub date_of : Now → ℕ → List ℕ
unfolding bcd
date_of now control =
    let pm : Bool = leb 12 now.hour in
    let hour : ℕ = if bit_and control (2 ^ 6) == 0 then now.hour % 12 else now.hour in
    bcd (now.year % 100)
    ∷ bcd now.month
    ∷ bcd now.day
    ∷ bcd now.weekday
    ∷ (if pm then bit_or (bcd hour) (2 ^ 6) else bcd hour)
    ∷ bcd now.minute
    ∷ bcd now.second
    ∷ []

unfoldable pub update_date_time : Now → Rtc → Rtc
unfolding date_of
update_date_time now r = record r {
  date_time =
      if now.frozen
      then 0x26 ∷ 0x07 ∷ 0x23 ∷ 0x04 ∷ 0x12 ∷ 0x00 ∷ 0x00 ∷ []
      else date_of now r.control;
}

-- The bit of byte `index` that `write_count` is at.
abbrev pub date_time_bit : ℕ → Rtc → Option (ℕ × Rtc)
date_time_bit index r = elim (get_elem? r.date_time index) [
  | none ↦ none
  | some byte ↦ some (byte / 2 ^ (r.write_count % 8) % 2, r)
]

-- The date is read on the first bit of the transfer.
abbrev pub sampled : Now → Rtc → Rtc
sampled now r = if r.write_count == 8 then update_date_time now r else r

unfoldable pub read_register : Now → ℕ → Rtc → Option (ℕ × Rtc)
unfolding update_date_time
read_register now index r =
    if index == 0
    then some (0, record r { control = 0 })
    else if index == 1
    then some (r.control / 2 ^ bit_and r.write_count 7 % 2, r)
    else if index == 2
    then (if r.write_count / 8 == 0
        then none
        else date_time_bit (r.write_count / 8 - 1) (sampled now r))
    else if index == 3
    then date_time_bit (r.write_count / 8 + 4 - 1) (sampled now r)
    else some (0, r)

unfoldable pub write_register : ℕ → ℕ → Rtc → Rtc
write_register index value r =
    let bit : ℕ = bit_and r.write_count 7 in
    if index == 1 && not (bit_and (2 ^ bit) 0x6a == 0)
    then (record r {
      control = bit_or (bit_and r.control (complement 8 (2 ^ bit))) (u8 (value * 2 ^ bit));
    })
    else r

-- `u8::reverse_bits` for the low `n` bits.
unfoldable pub reverse_bits : ℕ → ℕ → ℕ
reverse_bits zero x = 0
reverse_bits (suc n) x = x % 2 * 2 ^ n + reverse_bits n (x / 2)

-- One of the first eight bits of a transfer.
unfoldable pub receive_command : ℕ → Rtc → Rtc
unfolding reverse_bits
receive_command sio r =
    let command : ℕ = bit_or r.command (u8 (sio * 2 ^ (7 - r.write_count))) in
    record r {
      command =
          if r.write_count == 7 && not (bit_and command 0xf0 == 0x60)
          then reverse_bits 8 command
          else command;
    }

-- A rising edge of SCK transfers one bit; the result has the new SIO.
unfoldable pub transfer_bit : Now → ℕ → Rtc → Option (ℕ × Rtc)
unfolding receive_command read_register write_register
transfer_bit now sio r =
    let index : ℕ = bit_and (r.command / 2) 7 in
    if ltb r.write_count 8
    then some (sio, receive_command sio r)
    else if not (bit_and r.command 1 == 0)
    then read_register now index r
    else some (sio, write_register index sio r)

abbrev pub set_lines : ℕ → ℕ → ℕ → Rtc → Rtc
set_lines cs sck sio r = record r { cs = cs; sck = sck; sio = sio }

unfoldable pub update_rtc : Now → ℕ → ℕ → ℕ → Rtc → Option Rtc
unfolding transfer_bit
update_rtc now cs sck sio r =
    if cs == 0
    then some (set_lines cs sck sio (record r { write_count = 0; command = 0 }))
    else if r.sck == 0 && not (sck == 0)
    then (elim (transfer_bit now sio r) [
      | none ↦ none
      | some t ↦
          some (set_lines cs sck (t.0) (record (t.1) { write_count = u8 (t.1.write_count + 1) }))
    ])
    else some (set_lines cs sck sio r)

abbrev pub is_output : ℕ → Rtc → Bool
is_output line r = not (bit_and r.gp_direction (2 ^ line) == 0)

unfoldable pub write_gp_data : Now → ℕ → ℕ → Rtc → Option Rtc
unfolding update_rtc
write_gp_data now mask value r =
    let cs : ℕ = if is_output 2 r then value / 2 ^ 2 % 2 else r.cs in
    let sio : ℕ = if is_output 1 r then value / 2 ^ 1 % 2 else r.sio in
    let sck : ℕ = if is_output 0 r then value % 2 else r.sck in
    if bit_and mask 0xff == 0 then some r else update_rtc now cs sck sio r

unfoldable pub read_gp_data : Rtc → ℕ
read_gp_data r =
    let cs : ℕ = if is_output 2 r then 0 else r.cs in
    let sio : ℕ = if is_output 1 r then 0 else r.sio in
    let sck : ℕ = if is_output 0 r then 0 else r.sck in
    bit_or (bit_or (cs * 2 ^ 2) (sio * 2 ^ 1)) sck

unfoldable pub write_gp_direction : ℕ → ℕ → Rtc → Rtc
write_gp_direction mask value r =
    let m : ℕ = bit_and mask 0xf in
    record r { gp_direction = bit_or (bit_and r.gp_direction (complement 16 m)) (bit_and value m) }

unfoldable pub write_gp_control : ℕ → ℕ → Rtc → Rtc
write_gp_control mask value r =
    let m : ℕ = bit_and mask 1 in
    record r { gp_control = bit_or (bit_and r.gp_control (complement 16 m)) (bit_and value m) }

-- `cartridge_read_gpio`; `rom` reads a halfword of the cartridge's rom.
unfoldable pub cartridge_read_gpio : (ℕ → ℕ) → ℕ → ℕ → ℕ → Rtc → ℕ
unfolding read_gp_data
cartridge_read_gpio rom rom_len rom_mask addr r =
    let offset : ℕ = bit_and (bit_and addr 0x01ff_ffff) rom_mask in
    let register : ℕ = bit_and addr 0xf in
    if bit_and r.gp_control 1 == 0
    then (if ltb (offset + 1) rom_len then rom offset else 0)
    else if register == 4
    then read_gp_data r
    else if register == 6
    then r.gp_direction
    else if register == 8
    then r.gp_control
    else 0

unfoldable pub cartridge_write_gpio : Now → ℕ → ℕ → Rtc → Option Rtc
unfolding write_gp_data write_gp_direction write_gp_control
cartridge_write_gpio now addr value r =
    let register : ℕ = bit_and addr 0xf in
    if register == 4
    then write_gp_data now 0xffff value r
    else if register == 6
    then some (write_gp_direction 0xffff value r)
    else if register == 8
    then some (write_gp_control 0xffff value r)
    else some r
