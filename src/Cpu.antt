-- ===== src/Cpu.antt =====
-- src/core/thread_regs.rs and src/core/cpu_regs.rs: the register file of the processor, with the
-- banks of the privileged modes, and its interrupt and halt state.
pub mod Banks
pub mod Interrupts
use advanced_slop.Base.{
  ℕ, ◌+◌, ◌-◌, ◌/◌, ◌%◌, ◌^◌, List, [], ◌∷◌, Bool, true, false, ◌||◌, ◌==◌, if◌then◌else◌,
  replicate,
}
use advanced_slop.Base.Word.{has_bit}

-- R8 to R12, SP and LR of the user bank.
pub record UserRegs : Type 0 where
  pub gp_regs : List ℕ
  pub sp : ℕ
  pub lr : ℕ

pub record FiqRegs : Type 0 where
  pub gp_regs : List ℕ
  pub sp : ℕ
  pub lr : ℕ
  pub spsr : ℕ

pub record OtherModeRegs : Type 0 where
  pub sp : ℕ
  pub lr : ℕ
  pub spsr : ℕ

-- `gp_regs` holds R0 to R12.
pub record ThreadRegs : Type 0 where
  pub gp_regs : List ℕ
  pub sp : ℕ
  pub lr : ℕ
  pub pc : ℕ
  pub cpsr : ℕ
  pub spsr : ℕ
  pub ime : ℕ
  pub ie : ℕ
  pub irf : ℕ
  pub user : UserRegs
  pub fiq : FiqRegs
  pub svc : OtherModeRegs
  pub abt : OtherModeRegs
  pub irq : OtherModeRegs
  pub und : OtherModeRegs

pub record CpuRegs : Type 0 where
  pub post_flg : ℕ
  pub halt_cnt : ℕ
  pub halt : ℕ
  pub bios_wait_flags : ℕ
  pub wait_cnt : ℕ
  pub bios_open_bus : ℕ

-- The fields of `Cpsr`.
abbrev pub mode : ℕ → ℕ
mode cpsr = cpsr % 2 ^ 5

abbrev pub thumb : ℕ → Bool
thumb cpsr = has_bit cpsr 5

abbrev pub irq_disable : ℕ → Bool
irq_disable cpsr = has_bit cpsr 7

-- `0x10` is the user mode and `0x1F` the system mode.
abbrev pub is_user_mode : ℕ → Bool
is_user_mode m = m == 0x10 || m == 0x1f

abbrev pub no_bank : OtherModeRegs
no_bank = record { sp = 0; lr = 0; spsr = 0 }

-- `ThreadRegs::default()`
unfoldable pub default_regs : ThreadRegs
default_regs = record {
  gp_regs = replicate 13 0;
  sp = 0;
  lr = 0;
  pc = 0;
  cpsr = 0;
  spsr = 0;
  ime = 0;
  ie = 0;
  irf = 0;
  user = record { gp_regs = replicate 5 0; sp = 0; lr = 0 };
  fiq = record { gp_regs = replicate 5 0; sp = 0; lr = 0; spsr = 0 };
  svc = no_bank;
  abt = no_bank;
  irq = no_bank;
  und = no_bank;
}

unfoldable pub new_cpu_regs : CpuRegs
new_cpu_regs = record {
  post_flg = 0;
  halt_cnt = 0;
  halt = 0;
  bios_wait_flags = 0;
  wait_cnt = 0;
  bios_open_bus = 0xe129_f000;
}
