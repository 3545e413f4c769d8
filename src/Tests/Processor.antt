-- ===== src/Tests/Processor.antt =====
-- The register banks and the interrupts of a concrete machine.
use advanced_slop.Base.{ℕ, ◌≡◌, ◌⊎◌, refl, arith, true, false}
use advanced_slop.Base.Digits.{digit}
use advanced_slop.Emu.{Emu}
use advanced_slop.Cpu.Banks.{usr, fiq, mode_bank, thread_set_cpsr}
use advanced_slop.Cpu.Banks.Physical.{SameFile}
use advanced_slop.Cpu.Banks.Switch.{thread_set_cpsr-SameFile, irq_spsr_lost}
use advanced_slop.Cpu.Interrupts.{
  flag_index, timer0_overflow, cpu_send_interrupt, cpu_set_ime, cpu_set_ie,
}
use advanced_slop.Cpu.Interrupts.Delivery.{
  IsServed, pending, interrupt_writes-IsServed, cpu_send_interrupt_wakes,
}
use advanced_slop.Tests.{registers, machine}

-- From the system mode to FIQ.
thread_set_cpsr-SameFile_example :
    SameFile usr registers fiq (thread_set_cpsr 0x11 true machine).regs
    × ((thread_set_cpsr 0x11 true machine).regs.cpsr ≡ 0x11)
unfolding mode_bank
thread_set_cpsr-SameFile_example =
    thread_set_cpsr-SameFile 0x11 true machine usr fiq refl refl (omega arith)

-- In IRQ mode, with the CPSR of the interrupted code in SPSR.
abbrev in_irq : Emu ℕ
in_irq = record machine { regs = record registers { cpsr = 0x12; spsr = 0x6000_001f } }

-- The SPSR of the interrupted code is replaced by the supervisor's.
irq_spsr_lost_example :
    (thread_set_cpsr 0x12 false (
      thread_set_cpsr 0x1f false
        (thread_set_cpsr 0x13 false (thread_set_cpsr 0x1f false in_irq)))).regs.spsr
    ≡ 0
irq_spsr_lost_example = irq_spsr_lost in_irq refl

interrupt_writes-IsServed_example :
    IsServed (cpu_send_interrupt timer0_overflow machine)
    × IsServed (cpu_set_ime 8 machine)
    × IsServed (cpu_set_ie 0xffff 8 machine)
    × IsServed (thread_set_cpsr 8 true machine)
interrupt_writes-IsServed_example = interrupt_writes-IsServed timer0_overflow 0xffff 8 true machine

cpu_send_interrupt_wakes_example :
    (pending (cpu_send_interrupt timer0_overflow machine).cm ≡ 1)
    ⊎ (digit (cpu_send_interrupt timer0_overflow machine).cpu.halt 0 ≡ 0)
unfolding flag_index
cpu_send_interrupt_wakes_example = cpu_send_interrupt_wakes timer0_overflow machine refl

-- A handler that masks further interrupts.
abbrev masking : Emu ℕ → Emu ℕ
masking e = record e { regs = record (e.regs) { ime = 0 } }

abbrev raised : Emu ℕ
raised = record machine { regs = record registers { irf = 8 } }
