-- ===== src/Interp/Multiply.antt =====
-- The multiplies, status register transfers and CLZ of src/jit/interpreter/alu.rs.
pub mod Products
use advanced_slop.Base.{
  ℕ, zero, suc, ◌+◌, ◌-◌, ◌*◌, ◌/◌, ◌%◌, ◌^◌, Bool, true, false, ltb, if◌then◌else◌, bit_and,
  bit_or,
}
use advanced_slop.Base.Word.{u32, has_bit}
use advanced_slop.Cpu.Banks.{thread_set_cpsr_with_flags, thread_set_spsr_with_flags}
use advanced_slop.Interp.{Ctx, InstResult, continue, reg, set_reg, cpsr, set_cpsr}
use advanced_slop.Interp.Flags
use advanced_slop.Interp.Shifter.{rotate_right}
use advanced_slop.Interp.Alu.{map_cpsr}
use advanced_slop.Scheduler.Scan.{leading_zeros}

-- `x as i32 as i64 as u64`
abbrev pub sign_extend : ℕ → ℕ
sign_extend x = if ltb x (2 ^ 31) then x else x + (2 ^ 64 - 2 ^ 32)

-- The 32-bit product of `mul` and `mla`.
unfoldable pub product32 : Bool → ℕ → ℕ → ℕ → ℕ
product32 acc rm rs rn = let r : ℕ = u32 (rm * rs) in if acc then u32 (r + rn) else r

-- The 64-bit product of the long multiplies.
unfoldable pub product64 : Bool → Bool → ℕ → ℕ → ℕ → ℕ → ℕ
product64 signed acc rm rs hi lo =
    let r : ℕ = if signed then sign_extend rm * sign_extend rs % 2 ^ 64 else rm * rs % 2 ^ 64 in
    if acc then (r + bit_or (hi * 2 ^ 32) lo) % 2 ^ 64 else r

-- `msr_fields`: bits 16 to 19 of the opcode.
unfoldable pub msr_fields : ℕ → ℕ → ℕ → ℕ → ℕ
msr_fields opcode zero i flags = flags
msr_fields opcode (suc left) i flags =
    msr_fields opcode left (i + 1) (if has_bit opcode (16 + i) then bit_or flags (2 ^ i) else flags)

module _ {R : Type 0} where
  -- `mul32!`
  unfoldable pub mul32 : Bool → Bool → ℕ → Ctx R → Ctx R × InstResult
  unfolding product32
  mul32 s acc opcode ctx =
      let rd : ℕ = bit_and (opcode / 2 ^ 16) 0xf in
      let rn : ℕ = bit_and (opcode / 2 ^ 12) 0xf in
      let rm : ℕ = reg ctx (bit_and opcode 0xf) in
      let rs : ℕ = reg ctx (bit_and (opcode / 2 ^ 8) 0xf) in
      let r : ℕ = product32 acc rm rs (reg ctx rn) in
      let ctx' : Ctx R = set_reg rd r ctx in
      (if s then map_cpsr (Flags.set_nz r) ctx' else ctx', continue (if acc then 6 else 5))

  -- `mul64!`: the low word is written first.
  unfoldable pub mul64 : Bool → Bool → Bool → ℕ → Ctx R → Ctx R × InstResult
  unfolding product64
  mul64 s acc signed opcode ctx =
      let rdhi : ℕ = bit_and (opcode / 2 ^ 16) 0xf in
      let rdlo : ℕ = bit_and (opcode / 2 ^ 12) 0xf in
      let rm : ℕ = reg ctx (bit_and opcode 0xf) in
      let rs : ℕ = reg ctx (bit_and (opcode / 2 ^ 8) 0xf) in
      let r : ℕ = product64 signed acc rm rs (reg ctx rdhi) (reg ctx rdlo) in
      let ctx' : Ctx R = set_reg rdhi (u32 (r / 2 ^ 32)) (set_reg rdlo (u32 r) ctx) in
      (if s then map_cpsr (Flags.set_nz_64 r) ctx' else ctx', continue (if acc then 7 else 6))

  unfoldable pub mrs_rc : ℕ → Ctx R → Ctx R × InstResult
  mrs_rc opcode ctx = (set_reg (bit_and (opcode / 2 ^ 12) 0xf) (cpsr ctx) ctx, continue 1)

  unfoldable pub mrs_rs : ℕ → Ctx R → Ctx R × InstResult
  mrs_rs opcode ctx = (set_reg (bit_and (opcode / 2 ^ 12) 0xf) ctx.emu.regs.spsr ctx, continue 1)

  unfoldable pub msr_apply : ℕ → ℕ → Bool → Ctx R → Ctx R × InstResult
  unfolding msr_fields
  msr_apply opcode value spsr ctx =
      let flags : ℕ = msr_fields opcode 4 0 0 in
      let emu =
        if spsr
        then thread_set_spsr_with_flags value flags ctx.emu
        else thread_set_cpsr_with_flags value flags ctx.emu in
      (record ctx { emu = emu }, continue 1)

  -- `msr_rc` and `msr_rs`
  unfoldable pub msr_register : Bool → ℕ → Ctx R → Ctx R × InstResult
  unfolding msr_apply
  msr_register spsr opcode ctx = msr_apply opcode (reg ctx (bit_and opcode 0xf)) spsr ctx

  -- `msr_ic` and `msr_is`
  unfoldable pub msr_immediate : Bool → ℕ → Ctx R → Ctx R × InstResult
  unfolding msr_apply
  msr_immediate spsr opcode ctx =
      msr_apply opcode (rotate_right (bit_and opcode 0xff) (bit_and (opcode / 2 ^ 7) 0x1e)) spsr ctx

  unfoldable pub clz : ℕ → Ctx R → Ctx R × InstResult
  clz opcode ctx = (
    set_reg (bit_and (opcode / 2 ^ 12) 0xf) (leading_zeros (reg ctx (bit_and opcode 0xf))) ctx,
    continue 1,
  )
