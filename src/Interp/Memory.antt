-- ===== src/Interp/Memory.antt =====
-- src/jit/interpreter/memory.rs: single transfers, halfword transfers and swaps; `Block` has the
-- block transfers. The const generics and the variants that the macros generate are arguments; the
-- accesses of src/core/memory/mem.rs are the operations of a `Bus`.
pub mod Block
pub mod Loop
pub mod Forms
pub mod Stack
use advanced_slop.Base.{
  ℕ, ◌+◌, ◌-◌, ◌*◌, ◌/◌, ◌%◌, ◌^◌, List, Bool, true, false, not, ◌&&◌, ◌||◌, ◌==◌, ltb,
  if◌then◌else◌, bit_and, bit_or,
}
use advanced_slop.Base.Word.{u8, u16, u32, wrapping_sub32}
use advanced_slop.Base.Digits.{complement}
use advanced_slop.Emu.{Emu}
use advanced_slop.Interp.{
  Ctx, InstResult, continue, continue_store, branch, branch_return, reg, set_reg, carry,
}
use advanced_slop.Interp.Shifter.{rotate_right, sar}

-- `mem_read`, `mem_write`, `mem_read_multiple_slice` and `mem_write_multiple_slice`. A read can
-- change the machine too.
pub record Bus (R : Type 0) : Type 0 where
  pub read8 : ℕ → Emu R → ℕ × Emu R
  pub read16 : ℕ → Emu R → ℕ × Emu R
  pub read32 : ℕ → Emu R → ℕ × Emu R
  pub read_multiple : ℕ → ℕ → Emu R → List ℕ × Emu R
  pub write8 : ℕ → ℕ → Emu R → Emu R
  pub write16 : ℕ → ℕ → Emu R → Emu R
  pub write32 : ℕ → ℕ → Emu R → Emu R
  pub write_multiple : ℕ → List ℕ → Emu R → Emu R

-- `OFFK`
pub data OffsetForm : Type 0 where
  immediate by_lsl by_lsr by_asr by_ror : OffsetForm

-- `ADDR`
pub data AddrMode : Type 0 where
  offset preindex postindex : AddrMode

abbrev is_immediate : OffsetForm → Bool
is_immediate immediate = true
is_immediate _ = false

abbrev is_postindex : AddrMode → Bool
is_postindex postindex = true
is_postindex _ = false

abbrev pub writes_back : AddrMode → Bool
writes_back offset = false
writes_back _ = true

-- A shift of the offset register `v`; an amount of 0 means 32, or RRX.
unfoldable pub shift_offset : OffsetForm → (v amount old_carry : ℕ) → ℕ
unfolding sar rotate_right
shift_offset by_lsl v amount old_carry = u32 (v * 2 ^ amount)
shift_offset by_lsr v amount old_carry = if amount == 0 then 0 else v / 2 ^ amount
shift_offset by_asr v amount old_carry = if amount == 0 then sar v 31 else sar v amount
shift_offset _ v amount old_carry =
    if amount == 0 then bit_or (old_carry * 2 ^ 31) (v / 2) else rotate_right v amount

-- `x as i8 as i32 as u32`, and the same for `i16`.
abbrev pub extend8 : ℕ → ℕ
extend8 x = if ltb x (2 ^ 7) then x else x + (2 ^ 32 - 2 ^ 8)

abbrev pub extend16 : ℕ → ℕ
extend16 x = if ltb x (2 ^ 15) then x else x + (2 ^ 32 - 2 ^ 16)

abbrev pub move_base : Bool → ℕ → ℕ → ℕ
move_base up base n = if up then u32 (base + n) else wrapping_sub32 base n

-- The fields of an opcode.
abbrev pub rn_of : ℕ → ℕ
rn_of opcode = bit_and (opcode / 2 ^ 16) 0xf

abbrev pub rd_of : ℕ → ℕ
rd_of opcode = bit_and (opcode / 2 ^ 12) 0xf

-- `SIZE` and `SIGNED`
pub data HalfForm : Type 0 where
  signed_byte signed_half half : HalfForm

module _ {R : Type 0} where
  unfoldable pub transfer_reg_offset : OffsetForm → ℕ → Ctx R → ℕ
  unfolding shift_offset
  transfer_reg_offset form opcode ctx =
      shift_offset form (reg ctx (bit_and opcode 0xf)) (bit_and (opcode / 2 ^ 7) 0x1f) (carry ctx)

  abbrev pub with_emu : Ctx R → Emu R → Ctx R
  with_emu ctx e = record ctx { emu = e }

  abbrev pub write_back : Bool → ℕ → ℕ → Ctx R → Ctx R
  write_back wb rn base ctx = if wb then set_reg rn base ctx else ctx

  -- A stored PC is the address of the instruction plus 12.
  abbrev pub stored_reg : ℕ → Ctx R → ℕ
  stored_reg rd ctx = if rd == 15 then u32 (ctx.inst_addr + 12) else reg ctx rd

  -- The end of a load: a loaded PC is a branch, and a return if SP is among the sources.
  unfoldable pub load_result : Bool → ℕ → ℕ → Ctx R → Ctx R × InstResult
  load_result from_sp rd value ctx =
      if rd == 15
      then (ctx, if from_sp then branch_return 3 value else branch 3 value)
      else (set_reg rd value ctx, continue 3)

  -- The values that `ldr_str` loads, and the stores.
  unfoldable pub load_word : Bus R → Bool → ℕ → Ctx R → ℕ × Ctx R
  unfolding rotate_right
  load_word bus byte addr ctx =
      let (b, e8) = bus.read8 addr ctx.emu in
      let (raw, e32) = bus.read32 addr ctx.emu in
      if byte
      then (b, with_emu ctx e8)
      else (rotate_right raw (bit_and addr 3 * 8), with_emu ctx e32)

  unfoldable pub store_word : Bus R → Bool → ℕ → ℕ → Ctx R → Ctx R
  store_word bus byte addr value ctx =
      with_emu ctx
        (if byte then bus.write8 addr (u8 value) ctx.emu else bus.write32 addr value ctx.emu)

  unfoldable pub ldr_str :
      Bus R
      → (load byte : Bool) → AddrMode
      → (up : Bool) → OffsetForm
      → ℕ
      → Ctx R
      → Ctx R × InstResult
  unfolding transfer_reg_offset load_word store_word load_result
  ldr_str bus load byte mode up form opcode ctx =
      let rn : ℕ = rn_of opcode in
      let rd : ℕ = rd_of opcode in
      let base : ℕ = reg ctx rn in
      let off : ℕ =
        if is_immediate form then bit_and opcode 0xfff else transfer_reg_offset form opcode ctx in
      let offset_addr : ℕ = move_base up base off in
      let addr : ℕ = if is_postindex mode then base else offset_addr in
      let (value, loaded) = load_word bus byte addr ctx in
      let from_sp : Bool = rn == 13 || (not (is_immediate form) && bit_and opcode 0xf == 13) in
      let stored : Ctx R = store_word bus byte addr (stored_reg rd ctx) ctx in
      if load
      then load_result from_sp rd value (write_back (writes_back mode) rn offset_addr loaded)
      else (write_back (writes_back mode) rn offset_addr stored, continue_store 2)

  -- The values that `ldrh_strh` loads; an odd address has its own rule.
  unfoldable pub load_half : Bus R → HalfForm → ℕ → Ctx R → ℕ × Ctx R
  unfolding rotate_right
  load_half bus form addr ctx =
      let (b, e8) = bus.read8 addr ctx.emu in
      let (h, e16) = bus.read16 addr ctx.emu in
      elim form [
        | signed_byte ↦ (extend8 b, with_emu ctx e8)
        | signed_half ↦
            if bit_and addr 1 == 0
            then (extend16 h, with_emu ctx e16)
            else (extend8 b, with_emu ctx e8)
        | half ↦ (rotate_right h (bit_and addr 1 * 2 ^ 3), with_emu ctx e16)
      ]

  unfoldable pub ldrh_strh :
      Bus R
      → (load : Bool) → HalfForm
      → AddrMode
      → (up by_register : Bool) → ℕ
      → Ctx R
      → Ctx R × InstResult
  unfolding load_half load_result
  ldrh_strh bus load form mode up by_register opcode ctx =
      let rn : ℕ = rn_of opcode in
      let rd : ℕ = rd_of opcode in
      let base : ℕ = reg ctx rn in
      let off : ℕ =
        if by_register
        then reg ctx (bit_and opcode 0xf)
        else bit_or (bit_and (opcode / 2 ^ 4) 0xf0) (bit_and opcode 0xf) in
      let offset_addr : ℕ = move_base up base off in
      let addr : ℕ = if is_postindex mode then base else offset_addr in
      let (value, loaded) = load_half bus form addr ctx in
      let from_sp : Bool = rn == 13 || (by_register && bit_and opcode 0xf == 13) in
      let stored : Ctx R = with_emu ctx (bus.write16 addr (u16 (stored_reg rd ctx)) ctx.emu) in
      if load
      then load_result from_sp rd value (write_back (writes_back mode) rn offset_addr loaded)
      else (write_back (writes_back mode) rn offset_addr stored, continue_store 2)

  -- Absent on the processor.
  unfoldable pub ldrd_strd : ℕ → Ctx R → Ctx R × InstResult
  ldrd_strd opcode ctx = (ctx, continue 1)

  unfoldable pub swp_common : Bus R → Bool → ℕ → Ctx R → Ctx R × InstResult
  unfolding rotate_right
  swp_common bus byte opcode ctx =
      let rd : ℕ = rd_of opcode in
      let addr : ℕ = reg ctx (rn_of opcode) in
      let store_value : ℕ = reg ctx (bit_and opcode 0xf) in
      let aligned : ℕ = bit_and addr (complement 32 3) in
      let (b, e8) = bus.read8 addr ctx.emu in
      let (raw, e32) = bus.read32 aligned ctx.emu in
      let loaded : ℕ = if byte then b else rotate_right raw (bit_and addr 3 * 2 ^ 3) in
      let swapped : Ctx R = with_emu ctx (
        if byte
        then bus.write8 addr (u8 store_value) e8
        else bus.write32 aligned store_value e32) in
      (if rd == 15 then swapped else set_reg rd loaded swapped, continue_store 4)
