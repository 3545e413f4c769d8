-- ===== src/Tests.antt =====
-- Concrete machines, and the theorems of the library applied to them.
pub mod Events
pub mod Processor
pub mod Instructions
pub mod Counters
pub mod Backup
pub mod Devices
pub mod Transfers
pub mod Firmware
pub mod Decoding
use advanced_slop.Base.{◌*◌, false, ℕ, ◌+◌, ◌^◌, [], ◌∷◌}
use advanced_slop.Base.Word.{u32_max}
use advanced_slop.Scheduler.{CycleManager}
use advanced_slop.Cpu.{ThreadRegs, default_regs, new_cpu_regs}
use advanced_slop.Timers.{TimerChannel, default_channel}
use advanced_slop.Dma
use advanced_slop.Dma.{DmaChannel}
use advanced_slop.Emu.{Emu}

-- The scanline event was due at cycle 90, timer 1 is due at 300.
abbrev pub clock : CycleManager
clock = record {
  cycle_count = 100;
  events = 90 ∷ 0 ∷ 0 ∷ 300 ∷ 0 ∷ 0 ∷ 0 ∷ [];
  next_event_cycle = 300;
  active_events = 2 ^ 31 + 2 ^ 28;
  active_imm_events = 0;
  current_event_due = 0;
}

-- System mode, with the interrupts of timer 0 and of the vertical blank enabled, and no flag raised.
abbrev pub registers : ThreadRegs
registers = record {
  gp_regs = 0 ∷ 1 ∷ 2 ∷ 3 ∷ 4 ∷ 5 ∷ 6 ∷ 7 ∷ 8 ∷ 9 ∷ 10 ∷ 11 ∷ 12 ∷ [];
  sp = 0x300_7f00;
  lr = 0x800_0123;
  pc = 0x800_0200;
  cpsr = 0x1f;
  spsr = 0;
  ime = 1;
  ie = 9;
  irf = 0;
  user = record { gp_regs = 0 ∷ 0 ∷ 0 ∷ 0 ∷ 0 ∷ []; sp = 0; lr = 0 };
  fiq = record { gp_regs = 21 ∷ 22 ∷ 23 ∷ 24 ∷ 25 ∷ []; sp = 0; lr = 0; spsr = 0 };
  svc = record { sp = 0x300_7fe0; lr = 0; spsr = 0 };
  abt = record { sp = 0; lr = 0; spsr = 0 };
  irq = record { sp = 0x300_7fa0; lr = 0; spsr = 0 };
  und = record { sp = 0; lr = 0; spsr = 0 };
}

-- A stopped channel with a reload value.
abbrev pub stopped_channel : TimerChannel
stopped_channel = record default_channel { cnt_l = 0xff00 }

-- A repeating channel for the sound unit's first queue.
abbrev pub armed_channel : DmaChannel
armed_channel = record {
  cnt = 2 ^ 31 + 3 * 2 ^ 28 + 2 ^ 25 + 4;
  sad = 0x200_0000;
  dad = 0x400_00a0;
  current_src = 0x200_0040;
  current_dest = 0x400_00a0;
  current_count = 4;
}

abbrev pub machine : Emu ℕ
machine = record {
  cm = clock;
  regs = registers;
  cpu = record {
    post_flg = 0;
    halt_cnt = 0;
    halt = 1;
    bios_wait_flags = 0;
    wait_cnt = 0;
    bios_open_bus = 0;
  };
  timers = stopped_channel ∷ default_channel ∷ default_channel ∷ default_channel ∷ [];
  dma = Dma.default_channel ∷ armed_channel ∷ Dma.default_channel ∷ Dma.default_channel ∷ [];
  accumulated_cycles = 5;
  breakout_imm = false;
  rest = 0;
}
