-- ===== src/Interp.antt =====
-- src/jit/interpreter/mod.rs: the context of an interpreted instruction, its register accesses and
-- its outcome.
pub mod Flags
pub mod Shifter
pub mod Alu
pub mod Condition
pub mod Multiply
pub mod Branch
pub mod ThumbBranch
pub mod ThumbAlu
pub mod Memory
pub mod ThumbMemory
pub mod System
pub mod Run
pub mod Step
use advanced_slop.Base.{ℕ, ◌+◌, ◌-◌, ◌^◌, Bool, ◌==◌, ltb, if◌then◌else◌, of_bool, get_or, set}
use advanced_slop.Base.Word.{u32, has_bit}
use advanced_slop.Cpu.{ThreadRegs}
use advanced_slop.Emu.{Emu}

-- Cycles first; `branch_link` carries the target and the return address.
pub data InstResult : Type 0 where
  continue : ℕ → InstResult
  continue_store : ℕ → InstResult
  branch : ℕ → ℕ → InstResult
  branch_link : ℕ → ℕ → ℕ → InstResult
  branch_return : ℕ → ℕ → InstResult

pub record Ctx (R : Type 0) : Type 0 where
  pub emu : Emu R
  pub inst_addr : ℕ

-- `reg_slot`: `gp_regs` to `spsr` are one block of words.
unfoldable pub read_slot : ℕ → ThreadRegs → ℕ
read_slot i r =
    if ltb i 13
    then get_or r.gp_regs i 0
    else if i == 13
    then r.sp
    else if i == 14
    then r.lr
    else if i == 15
    then r.pc
    else if i == 16
    then r.cpsr
    else r.spsr

unfoldable pub write_slot : ℕ → ℕ → ThreadRegs → ThreadRegs
write_slot i v r =
    if ltb i 13
    then record r { gp_regs = set r.gp_regs i v }
    else if i == 13
    then record r { sp = v }
    else if i == 14
    then record r { lr = v }
    else if i == 15
    then record r { pc = v }
    else if i == 16
    then record r { cpsr = v }
    else record r { spsr = v }

module _ {R : Type 0} where
  -- PC reads as the address of the instruction plus 8.
  unfoldable pub reg : Ctx R → ℕ → ℕ
  unfolding read_slot
  reg ctx i = if i == 15 then u32 (ctx.inst_addr + 8) else read_slot i ctx.emu.regs

  -- In thumb state it reads as the address plus 4.
  unfoldable pub reg_t : Ctx R → ℕ → ℕ
  unfolding read_slot
  reg_t ctx i = if i == 15 then u32 (ctx.inst_addr + 4) else read_slot i ctx.emu.regs

  unfoldable pub set_reg : ℕ → ℕ → Ctx R → Ctx R
  unfolding write_slot
  set_reg i v ctx = record ctx { emu = record (ctx.emu) { regs = write_slot i v ctx.emu.regs } }

  abbrev pub cpsr : Ctx R → ℕ
  cpsr ctx = ctx.emu.regs.cpsr

  abbrev pub set_cpsr : ℕ → Ctx R → Ctx R
  set_cpsr v ctx = record ctx {
    emu = record (ctx.emu) { regs = record (ctx.emu.regs) { cpsr = v } };
  }

  abbrev pub carry : Ctx R → ℕ
  carry ctx = of_bool (has_bit (cpsr ctx) 29)
