-- ===== src/Interp/System.antt =====
-- src/jit/interpreter/system.rs: software interrupts, which the firmware model executes, and the
-- coprocessor transfers, which do nothing.
use advanced_slop.Base.{
  ℕ, ◌+◌, ◌/◌, ◌^◌, true, ◌==◌, if◌then◌else◌, Option, none, some, bit_and, bit_or, of_bool,
}
use advanced_slop.Base.Word.{u8, u32, has_bit}
use advanced_slop.Base.Digits.{complement}
use advanced_slop.Cpu.Interrupts.{cpu_is_halted}
use advanced_slop.Emu.{Emu}
use advanced_slop.Interp.{Ctx, InstResult, continue, continue_store, branch, cpsr}
use advanced_slop.Bios.{BulkBus}
use advanced_slop.Bios.Calls.{Host, handle, software_interrupt}

-- The resume address or the target, with the thumb bit of the status.
abbrev pub tagged : ℕ → ℕ → ℕ
tagged addr status = bit_or addr (of_bool (has_bit status 5))

module _ {R : Type 0} where
  abbrev pub set_pc : ℕ → Emu R → Emu R
  set_pc pc e = record e { regs = record (e.regs) { pc = pc } }

  -- What follows the call of the firmware.
  unfoldable pub after_swi : (resume : ℕ) → Ctx R → Ctx R × InstResult
  after_swi resume ctx =
      let pc : ℕ = ctx.emu.regs.pc in
      if cpu_is_halted ctx.emu
      then (record ctx { emu = record (ctx.emu) { breakout_imm = true } }, continue_store 3)
      else if pc == resume
      then (ctx, continue 3)
      else (ctx, branch 3 (tagged (bit_and pc (complement 32 1)) (cpsr ctx)))

  abbrev pub then_after : ℕ → ℕ → Option (Emu R) → Option (Ctx R × InstResult)
  unfolding after_swi
  then_after resume inst_addr none = none
  then_after resume inst_addr (some e) =
      some (after_swi resume (record { emu = e; inst_addr = inst_addr }))

  -- `none` is a panic of the firmware call.
  unfoldable pub swi_common :
      BulkBus R → Host → (comment step : ℕ) → Ctx R → Option (Ctx R × InstResult)
  unfolding then_after handle
  swi_common m host comment step ctx =
      let resume : ℕ = tagged (u32 (ctx.inst_addr + step)) (cpsr ctx) in
      then_after resume ctx.inst_addr
        (handle m host comment software_interrupt (set_pc resume ctx.emu))

  unfoldable pub swi : BulkBus R → Host → ℕ → Ctx R → Option (Ctx R × InstResult)
  unfolding swi_common
  swi m host opcode = swi_common m host (u8 (opcode / 2 ^ 16)) 4

  unfoldable pub swi_t : BulkBus R → Host → ℕ → Ctx R → Option (Ctx R × InstResult)
  unfolding swi_common
  swi_t m host opcode = swi_common m host (u8 opcode) 2

  unfoldable pub mcr : ℕ → Ctx R → Ctx R × InstResult
  mcr opcode ctx = (ctx, continue 1)

  unfoldable pub mrc : ℕ → Ctx R → Ctx R × InstResult
  mrc opcode ctx = (ctx, continue 1)
