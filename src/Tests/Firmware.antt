-- ===== src/Tests/Firmware.antt =====
-- Firmware calls on a concrete machine.
use advanced_slop.Base.{
  ℕ, ◌+◌, ◌*◌, ◌/◌, ◌%◌, ◌^◌, ◌≡◌, refl, arith, ◌==◌, if◌then◌else◌, replicate, [], ◌∷◌,
}
use advanced_slop.Cpu.Banks.{usr, mode_bank, thread_set_cpsr, switch_mode, switch_banks}
use advanced_slop.Cpu.Interrupts.{cpu_check_for_interrupt}
use advanced_slop.Emu.{Emu}
use advanced_slop.Interp.{read_slot}
use advanced_slop.Interp.Memory.{Bus}
use advanced_slop.Bios.{BulkBus, get}
use advanced_slop.Bios.Divide.{divide}
use advanced_slop.Bios.Divide.Rounding.{Divided, divide-Divided}
use advanced_slop.Bios.Unpack.{put_byte, lz77_loop, runlen_loop}
use advanced_slop.Bios.Unpack.Bytes.{put_byte_lem}
use advanced_slop.Bios.Unpack.Ends.{Ends, lz77_loop-Ends, runlen_loop-Ends}
use advanced_slop.Bios.Exception.{enter_irq, leave_irq, regs_to_push, irq_cpsr}
use advanced_slop.Bios.Exception.Return.{Restored, leave_irq-enter_irq}
use advanced_slop.Tests.{machine, registers}

-- A memory of bytes 0x13 that drops what is written.
abbrev still_bus : Bus ℕ
still_bus = record {
  read8 = λ addr e. (0x13, e);
  read16 = λ addr e. (0x1313, e);
  read32 = λ addr e. (0x1313_1313, e);
  read_multiple = λ addr count e. (replicate count 0x1313_1313, e);
  write8 = λ addr value e. e;
  write16 = λ addr value e. e;
  write32 = λ addr value e. e;
  write_multiple = λ addr values e. e;
}

abbrev pub still_memory : BulkBus ℕ
still_memory = record {
  bus = still_bus;
  memset8 = λ addr value count e. e;
  memset32 = λ addr value count e. e;
  shm_offset = λ addr e. addr % 2 ^ 16;
  shm_words = λ offset count e. replicate count 0x1313_1313;
  read_slice = λ addr count e. (replicate count 0x1313_1313, e);
}

-- -7 divided by 2.
abbrev dividing : Emu ℕ
dividing = record machine {
  regs = record registers {
    gp_regs = 0xffff_fff9 ∷ 2 ∷ 0 ∷ 0 ∷ 0 ∷ 0 ∷ 0 ∷ 0 ∷ 0 ∷ 0 ∷ 0 ∷ 0 ∷ 0 ∷ [];
  };
}

divide-Divided_example : Divided (get 0 dividing) (get 1 dividing) (divide dividing)
unfolding read_slot
divide-Divided_example = divide-Divided dividing refl (omega arith) (omega arith)

lz77_loop-Ends_example : Ends still_bus 0x800_0000 0x200_0000 21 18 (
    lz77_loop still_bus 0x800_0000 0x200_0000
      (21 / 8 + 1)
      21
      (record { src = 4; dst = 0; machine = machine }))
lz77_loop-Ends_example = lz77_loop-Ends still_bus 0x800_0000 0x200_0000 21 machine

runlen_loop-Ends_example : Ends still_bus 0x800_0000 0x200_0000 21 130 (
    runlen_loop still_bus 0x800_0000 0x200_0000 21 21
      (record { src = 4; dst = 0; machine = machine }))
runlen_loop-Ends_example = runlen_loop-Ends still_bus 0x800_0000 0x200_0000 21 machine

put_byte_lem_example :
    put_byte 0xabcd 0x600_0001 0x12
    ≡ (if 0x600_0001 % 2 == 0 then 0xabcd / 2 ^ 8 * 2 ^ 8 + 0x12 else 0x12 * 2 ^ 8 + 0xabcd % 2 ^ 8)
put_byte_lem_example = put_byte_lem 0xabcd 0x600_0001 0x12 (omega arith) (omega arith)

-- A handler that leaves other values in the registers.
abbrev handled : Emu ℕ
handled = record (enter_irq machine) {
  regs = record ((enter_irq machine).regs) { gp_regs = replicate 13 7; pc = 0 };
}

leave_irq-enter_irq_example :
    Restored registers (leave_irq (regs_to_push (enter_irq machine).regs) handled).regs
unfolding mode_bank enter_irq thread_set_cpsr cpu_check_for_interrupt switch_mode switch_banks
    irq_cpsr
leave_irq-enter_irq_example =
    leave_irq-enter_irq machine usr handled refl refl refl (omega arith) refl refl refl
