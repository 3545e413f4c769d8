-- ===== src/Cpu/Interrupts.antt =====
-- src/core/cpu_regs.rs: raising, masking and delivering interrupts, and the halt state.
pub mod Delivery
use advanced_slop.Base.{
  ℕ, ◌+◌, ◌-◌, ◌^◌, ◌≡◌, ◌≢◌, ◌⊎◌, refl, arith, Bool, true, false, not, ◌&&◌, ltb, if◌then◌else◌,
  bit_and, bit_or, not_zero,
}
use advanced_slop.Base.Word.{masked, has_bit}
use advanced_slop.Base.Digits.{digit, complement}
use advanced_slop.Scheduler.{schedule_imm, ImmEventType}
use advanced_slop.Cpu.{ThreadRegs, CpuRegs, irq_disable}
use advanced_slop.Emu.{Emu}

pub data InterruptFlag : Type 0 where
  lcd_vblank lcd_hblank lcd_vcounter_match timer0_overflow timer1_overflow timer2_overflow
        timer3_overflow rtc dma0 dma1 dma2 dma3 keypad gba_slot :
      InterruptFlag

-- `flag as u8`
unfoldable pub flag_index : InterruptFlag → ℕ
flag_index lcd_vblank = 0
flag_index lcd_hblank = 1
flag_index lcd_vcounter_match = 2
flag_index timer0_overflow = 3
flag_index timer1_overflow = 4
flag_index timer2_overflow = 5
flag_index timer3_overflow = 6
flag_index rtc = 7
flag_index dma0 = 8
flag_index dma1 = 9
flag_index dma2 = 10
flag_index dma3 = 11
flag_index keypad = 12
flag_index gba_slot = 13

-- `MAX_BRANCH_LOOP_CYCLE_COUNT` of src/core/mod.rs.
abbrev pub max_branch_loop_cycle_count : ℕ
max_branch_loop_cycle_count = 128

-- The processor takes an interrupt: the master enable is set, a flag is both raised and enabled, and
-- CPSR does not mask it.
abbrev pub can_interrupt : ThreadRegs → Bool
can_interrupt r = not_zero r.ime && (not_zero (bit_and r.ie r.irf) && not (irq_disable r.cpsr))

module _ {R : Type 0} where
  unfoldable pub cpu_schedule_interrupt : Emu R → Emu R
  cpu_schedule_interrupt e = record e { cm = schedule_imm ImmEventType.cpu_interrupt e.cm }

  unfoldable pub cpu_check_for_interrupt : Emu R → Emu R
  unfolding cpu_schedule_interrupt
  cpu_check_for_interrupt e =
      if can_interrupt e.regs
      then (record (cpu_schedule_interrupt e) {
        accumulated_cycles =
            if ltb e.accumulated_cycles max_branch_loop_cycle_count
            then max_branch_loop_cycle_count
            else e.accumulated_cycles;
      })
      else e

  unfoldable pub cpu_set_ime : ℕ → Emu R → Emu R
  cpu_set_ime value e =
      cpu_check_for_interrupt (record e { regs = record (e.regs) { ime = bit_and value 1 } })

  unfoldable pub cpu_set_ie : ℕ → ℕ → Emu R → Emu R
  cpu_set_ie mask value e =
      cpu_check_for_interrupt (record e {
        regs = record (e.regs) { ie = masked 32 e.regs.ie (bit_and mask 0x3fff) value };
      })

  -- Writing a one acknowledges a flag.
  unfoldable pub cpu_set_irf : ℕ → ℕ → Emu R → Emu R
  cpu_set_irf mask value e = record e {
    regs = record (e.regs) { irf = bit_and e.regs.irf (complement 32 (bit_and value mask)) };
  }

  unfoldable pub cpu_set_post_flg : ℕ → Emu R → Emu R
  cpu_set_post_flg value e = record e {
    cpu = record (e.cpu) { post_flg = bit_or e.cpu.post_flg (bit_and value 1) };
  }

  unfoldable pub cpu_halt : ℕ → Emu R → Emu R
  cpu_halt bit e = record e { cpu = record (e.cpu) { halt = bit_or e.cpu.halt (2 ^ bit) } }

  unfoldable pub cpu_unhalt : ℕ → Emu R → Emu R
  cpu_unhalt bit e = record e {
    cpu = record (e.cpu) { halt = bit_and e.cpu.halt (complement 8 (2 ^ bit)) };
  }

  unfoldable pub cpu_is_halted : Emu R → Bool
  cpu_is_halted e = not_zero e.cpu.halt

  unfoldable pub cpu_set_halt_cnt : ℕ → Emu R → Emu R
  unfolding cpu_halt
  cpu_set_halt_cnt value e =
      cpu_halt 0 (record e { cpu = record (e.cpu) { halt_cnt = bit_and value 0xc0 } })

  unfoldable pub raise_flag : InterruptFlag → Emu R → Emu R
  unfolding flag_index
  raise_flag flag e = record e {
    regs = record (e.regs) { irf = bit_or e.regs.irf (2 ^ flag_index flag) };
  }

  unfoldable pub cpu_send_interrupt : InterruptFlag → Emu R → Emu R
  unfolding raise_flag
  cpu_send_interrupt flag e =
      let e' : Emu R = raise_flag flag e in
      if not_zero (bit_and e'.regs.ie e'.regs.irf)
      then (if not_zero e'.regs.ime && not (irq_disable e'.regs.cpsr)
          then cpu_check_for_interrupt e'
          else cpu_unhalt 0 e')
      else e'

  -- `handle` is `exception_handler::handle` at the interrupt vector.
  unfoldable pub cpu_on_interrupt_event : (Emu R → Emu R) → Emu R → Emu R
  cpu_on_interrupt_event handle e = if can_interrupt e.regs then cpu_unhalt 0 (handle e) else e
