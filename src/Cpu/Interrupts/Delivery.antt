-- ===== src/Cpu/Interrupts/Delivery.antt =====
-- An interrupt that the processor can take is always on its way.
use advanced_slop.Base.{
  ℕ, ◌^◌, ◌<◌, ◌≤◌, ◌≡◌, ◌⊎◌, inl, inr, arith, ap, Bool, true, false, ◌&&◌, ◌==◌, if◌then◌else◌,
  bit_and, bit_or, not_zero, Bool-cases,
}
use advanced_slop.Base.Digits.{
  digit, digit-le, complement, digit-bit_or, digit-bit_and, digit-complement, digit-two_pow_self,
  digit-zero,
}
use advanced_slop.Scheduler.{CycleManager, schedule_imm, ImmEventType}
use advanced_slop.Cpu.Interrupts.{
  InterruptFlag, flag_index, can_interrupt, max_branch_loop_cycle_count, cpu_check_for_interrupt,
  cpu_set_ime, cpu_set_ie, cpu_set_irf, cpu_send_interrupt, raise_flag, cpu_unhalt,
  cpu_on_interrupt_event,
}
use advanced_slop.Cpu.Banks.{thread_set_cpsr}
use advanced_slop.Emu.{Emu}

-- The bit of the processor's own event in the mask of immediate events.
abbrev pub pending : CycleManager → ℕ
pending cm = digit cm.active_imm_events 31

-- If the processor can take an interrupt, its event is scheduled and the running slice is cut short.
abbrev pub IsServed : {R : Type 0} → Emu R → Type 0
IsServed e =
    (can_interrupt e.regs ≡ false)
    ⊎ ((pending e.cm ≡ 1) × (max_branch_loop_cycle_count ≤ e.accumulated_cycles))

pending-schedule_imm :
    (cm : CycleManager) → pending (schedule_imm ImmEventType.cpu_interrupt cm) ≡ 1
unfolding schedule_imm
pending-schedule_imm cm =
    omega (arith, digit-bit_or cm.active_imm_events (2 ^ 31) 31, digit-le cm.active_imm_events 31)

not_zero→eq : (x : ℕ) → not_zero x ≡ false → x ≡ 0
not_zero→eq x q = ground arith

-- Raising flags never clears one, so an enabled flag that is raised shows in the masked flags.
enabled_raised : (ie irf k : ℕ) → digit ie k ≡ 1 → not_zero (bit_and ie (bit_or irf (2 ^ k))) ≡ true
enabled_raised ie irf k h =
    let flags : ℕ = bit_and ie (bit_or irf (2 ^ k)) in
    let shown : digit flags k ≡ 1 = omega (
      arith,
      digit-bit_and ie (bit_or irf (2 ^ k)) k,
      digit-bit_or irf (2 ^ k) k,
      digit-two_pow_self k,
      digit-le irf k,
    ) in
    elim (Bool-cases (not_zero flags)) [
      | inl p ↦ p
      | inr q ↦
          absurd
            (omega (arith, shown, digit-zero k, ap (λ (t : ℕ). digit t k) (not_zero→eq flags q)))
    ]

module _ {R : Type 0} where
  pub cpu_check_for_interrupt-IsServed : (e : Emu R) → IsServed (cpu_check_for_interrupt e)
  unfolding cpu_check_for_interrupt
  cpu_check_for_interrupt-IsServed e = ground (arith, pending-schedule_imm e.cm)

  cpu_send_interrupt-IsServed :
      (flag : InterruptFlag) (e : Emu R) → IsServed (cpu_send_interrupt flag e)
  unfolding cpu_send_interrupt cpu_unhalt
  cpu_send_interrupt-IsServed flag e =
      ground (arith, cpu_check_for_interrupt-IsServed (raise_flag flag e))

  -- Writing IME, IE or CPSR and raising a flag leave no interrupt that the processor can take
  -- unserved: its event is scheduled, and the running slice ends at the next check.
  pub interrupt_writes-IsServed :
      (flag : InterruptFlag) (mask value : ℕ) (save : Bool) (e : Emu R)
      → IsServed (cpu_send_interrupt flag e)
        × IsServed (cpu_set_ime value e)
        × IsServed (cpu_set_ie mask value e)
        × IsServed (thread_set_cpsr value save e)
  unfolding cpu_set_ime cpu_set_ie thread_set_cpsr
  interrupt_writes-IsServed flag mask value save e = (
    cpu_send_interrupt-IsServed flag e,
    cpu_check_for_interrupt-IsServed _,
    cpu_check_for_interrupt-IsServed _,
    cpu_check_for_interrupt-IsServed _,
  )

  halt-cpu_unhalt : (e : Emu R) → digit (cpu_unhalt 0 e).cpu.halt 0 ≡ 0
  unfolding cpu_unhalt
  halt-cpu_unhalt e = omega (arith, digit-bit_and e.cpu.halt (complement 8 (2 ^ 0)) 0)

  -- Raising a flag that IE enables either schedules the processor's interrupt event or, when
  -- interrupts are masked, ends the halt of the processor at once.
  pub cpu_send_interrupt_wakes :
      (flag : InterruptFlag) (e : Emu R)
      → digit e.regs.ie (flag_index flag) ≡ 1
      → let e' = cpu_send_interrupt flag e in (pending e'.cm ≡ 1) ⊎ (digit e'.cpu.halt 0 ≡ 0)
  unfolding cpu_send_interrupt cpu_check_for_interrupt
  cpu_send_interrupt_wakes flag e enabled = ground (
    arith,
    enabled_raised e.regs.ie e.regs.irf (flag_index flag) enabled,
    pending-schedule_imm e.cm,
    halt-cpu_unhalt (raise_flag flag e),
  )

  -- Delivery happens exactly when the processor can take an interrupt: it then ends the halt, and
  -- otherwise it leaves the state as it is.
  pub cpu_on_interrupt_event_lem :
      (handle : Emu R → Emu R) (e : Emu R)
      → ((can_interrupt e.regs ≡ true) × (digit (cpu_on_interrupt_event handle e).cpu.halt 0 ≡ 0))
        ⊎ ((can_interrupt e.regs ≡ false) × (cpu_on_interrupt_event handle e ≡ e))
  unfolding cpu_on_interrupt_event
  cpu_on_interrupt_event_lem handle e = ground (arith, halt-cpu_unhalt (handle e))

  -- A write to IF clears the flags that mask and value, whose conjunction is a word, both select, and
  -- no other.
  pub digit-cpu_set_irf :
      (mask value k : ℕ) (e : Emu R)
      → bit_and value mask < 2 ^ 32
      → k < 32
      → digit (cpu_set_irf mask value e).regs.irf k
        ≡ (if digit value k == 1 && digit mask k == 1 then 0 else digit e.regs.irf k)
  unfolding cpu_set_irf
  digit-cpu_set_irf mask value k e small hk = ground (
    arith,
    digit-bit_and e.regs.irf (complement 32 (bit_and value mask)) k,
    digit-complement 32 (bit_and value mask) k small hk,
    digit-bit_and value mask k,
    digit-le value k,
    digit-le mask k,
    digit-le e.regs.irf k,
  )
