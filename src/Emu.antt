-- ===== src/Emu.antt =====
-- The machine state that the operations of `impl Emu` pass on: src/core/emu.rs, and the registers
-- that `thread_regs()` reaches. `R` stands for the parts that have no model here (the picture and
-- sound units, the memory map, the compiled code).
use advanced_slop.Base.{ℕ, List, Bool}
use advanced_slop.Scheduler.{CycleManager}
use advanced_slop.Cpu.{ThreadRegs, CpuRegs}
use advanced_slop.Timers.{TimerChannel}
use advanced_slop.Dma.{DmaChannel}

-- `accumulated_cycles` is `asm.runtime_data.accumulated_cycles`.
pub record Emu (R : Type 0) : Type 0 where
  pub cm : CycleManager
  pub regs : ThreadRegs
  pub cpu : CpuRegs
  pub timers : List TimerChannel
  pub dma : List DmaChannel
  pub accumulated_cycles : ℕ
  pub breakout_imm : Bool
  pub rest : R
