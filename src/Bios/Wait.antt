-- ===== src/Bios/Wait.antt =====
-- The calls of src/core/hle/bios.rs that halt the processor, and the wait for an interrupt.
use advanced_slop.Base.{ℕ, ◌^◌, ◌==◌, if◌then◌else◌, bit_and}
use advanced_slop.Base.Digits.{complement}
use advanced_slop.Cpu.Interrupts.{cpu_halt, cpu_set_halt_cnt, flag_index, lcd_vblank}
use advanced_slop.Emu.{Emu}
use advanced_slop.Interp.Memory.{Bus}
use advanced_slop.Bios.{get, put}

module _ {R : Type 0} where
  abbrev pub set_wait_flags : ℕ → Emu R → Emu R
  set_wait_flags flags e = record e { cpu = record (e.cpu) { bios_wait_flags = flags } }

  unfoldable pub halt : Emu R → Emu R
  halt e = cpu_halt 0 e

  unfoldable pub sleep : Emu R → Emu R
  sleep e = cpu_set_halt_cnt 0xc0 e

  -- The flags word at the top of the internal work memory.
  unfoldable pub check_wait_flags : Bus R → Emu R → Emu R
  check_wait_flags bus e =
      let (flags, e') = bus.read32 0x3fffff8 e in
      let wait_flags : ℕ = e'.cpu.bios_wait_flags in
      if bit_and flags wait_flags == 0
      then cpu_halt 0 e'
      else set_wait_flags 0 (bus.write32 0x3fffff8 (bit_and flags (complement 32 wait_flags)) e')

  unfoldable pub interrupt_wait : Bus R → Emu R → Emu R
  unfolding check_wait_flags
  interrupt_wait bus e =
      let wait_flags : ℕ = get 1 e in
      let checked : Emu R = check_wait_flags bus (set_wait_flags wait_flags e) in
      if get 0 e == 0 then checked else cpu_halt 0 (set_wait_flags wait_flags checked)

  unfoldable pub v_blank_intr_wait : Bus R → Emu R → Emu R
  unfolding interrupt_wait flag_index
  v_blank_intr_wait bus e = interrupt_wait bus (put 1 (2 ^ flag_index lcd_vblank) (put 0 1 e))
