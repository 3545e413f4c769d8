-- ===== src/Timers/Control/Progress.antt =====
-- An overflow re-arms its channel for a later cycle, however short the period is.
use advanced_slop.Base.{
  ℕ, zero, suc, ◌+◌, ◌-◌, ◌*◌, ◌^◌, ◌<◌, ◌≤◌, ◌≡◌, refl, arith, true, ltb, if◌then◌else◌,
  Bool-cases, inl, inr,
}
use native.Mathlib.Nat.{mul-le-mul, one-le-pow}
use advanced_slop.Base.Table.{every, every_at}
use advanced_slop.Timers.{TimerChannel}
use advanced_slop.Cpu.Interrupts.{
  InterruptFlag, cpu_send_interrupt, raise_flag, cpu_unhalt, cpu_check_for_interrupt,
  cpu_schedule_interrupt,
}
use advanced_slop.Timers.Control.{
  start, count_up, is_count_up, irq_enable, timer_event, timer_flag, remaining_cycles, channel,
  put_channel, reload, cascade, overflow_with, timers_overflow, time_overflow,
}
use advanced_slop.Scheduler.{saturating_add, schedule_imm, schedule_from_due}
use advanced_slop.Scheduler.Progress.{
  IsReady, Advances, Progresses, Advances-same, Advances-refl, Advances-then, Advances-put_channel,
  schedule_from_due-Progresses,
}
use advanced_slop.Emu.{Emu}

powers_checked : every 16 (λ s. ltb (2 ^ s) (2 ^ 15 + 1)) ≡ true
unfolding every
powers_checked = refl

-- A channel in range has at least one cycle left when it is reloaded.
remaining_cycles-pos :
    (c : TimerChannel) → c.current_value < 2 ^ 16 → c.current_shift < 16 → 1 ≤ remaining_cycles c
remaining_cycles-pos c value shift =
    let period : 2 ^ c.current_shift ≤ 2 ^ 15 =
      ground (arith, every_at 16 _ c.current_shift powers_checked shift) in
    let low : 1 * 1 ≤ (time_overflow - c.current_value) * 2 ^ c.current_shift =
      mul-le-mul {n₁ = 1} {m₁ = 1} (omega (arith, value))
        (one-le-pow c.current_shift 2 (omega arith)) in
    let high : (time_overflow - c.current_value) * 2 ^ c.current_shift ≤ 2 ^ 16 * 2 ^ 15 =
      mul-le-mul {n₂ = 2 ^ 16} (omega arith) period in
    omega (arith, low, high)

module _ {R : Type 0} where
  Advances-cpu_send_interrupt :
      (flag : InterruptFlag) {e : Emu R} → IsReady e → Advances e (cpu_send_interrupt flag e)
  unfolding cpu_send_interrupt raise_flag cpu_unhalt cpu_check_for_interrupt cpu_schedule_interrupt
      schedule_imm
  Advances-cpu_send_interrupt flag {e} r =
      let same : (cpu_send_interrupt flag e).timers ≡ e.timers = ground arith in
      Advances-same r (ground arith) (ground arith) (ground arith) (ground arith)
        λ n. rw same (r.paced n)

  -- The reloaded channel, with its next overflow on the clock if it does not count up.
  abbrev reloaded : ℕ → Emu R → Emu R
  reloaded n e =
      let c : TimerChannel = channel n e in
      let c' : TimerChannel = record c { current_value = c.cnt_l } in
      let due : ℕ = saturating_add e.cm.current_event_due (remaining_cycles c') in
      if is_count_up c.cnt_h n
      then put_channel n c' e
      else (record (put_channel n (record c' { scheduled_cycle = due }) e) {
        cm = schedule_from_due (remaining_cycles c') (timer_event n) e.cm;
      })

  reloaded-Progresses : (n : ℕ) → Progresses (reloaded n)
  reloaded-Progresses n e r due =
      let c : TimerChannel = channel n e in
      let (small, shift) = r.paced n in
      let c' : TimerChannel = record c { current_value = c.cnt_l } in
      let at : ℕ = saturating_add e.cm.current_event_due (remaining_cycles c') in
      elim (Bool-cases (is_count_up c.cnt_h n)) [
        | inl p ↦ rw p (Advances-put_channel n c' (small, shift) r)
        | inr p ↦ rw p (
            Advances-then
              (λ (s : Emu R). record s {
                cm = schedule_from_due (remaining_cycles c') (timer_event n) s.cm;
              })
              due (Advances-put_channel n (record c' { scheduled_cycle = at }) (small, shift) r)
              (schedule_from_due-Progresses (remaining_cycles c') (timer_event n)
                (remaining_cycles-pos c' small shift)))
      ]

  reload-Progresses : (n : ℕ) → Progresses {R = R} (reload n)
  unfolding reload
  reload-Progresses n e r due =
      let first = reloaded-Progresses n e r due in
      elim (Bool-cases (irq_enable (channel n e).cnt_h)) [
        | inl p ↦ rw p (
            Advances-then (cpu_send_interrupt (timer_flag n)) due first
              (λ s ready d. Advances-cpu_send_interrupt (timer_flag n) ready))
        | inr p ↦ rw p first
      ]

  cascade-Progresses : (n : ℕ) → Progresses (λ (e : Emu R). (cascade n e).0)
  unfolding cascade
  cascade-Progresses n e r due = elim (Bool-cases (count_up (channel n e).cnt_h)) [
    | inl p ↦ rw p (Advances-put_channel n _ (r.paced n) r)
    | inr p ↦ rw p (Advances-refl r)
  ]

  overflow_with-Progresses :
      (fifo : ℕ → Emu R → Emu R)
      → ((n : ℕ) → Progresses (fifo n))
      → (fuel n : ℕ) → Progresses (overflow_with fifo fuel n)
  unfolding overflow_with
  overflow_with-Progresses fifo steps zero n e r due = Advances-refl r
  overflow_with-Progresses fifo steps (suc fuel) n e r due =
      let first = reload-Progresses n e r due in
      let paced : Emu R = if ltb n 2 then fifo n (reload n e) else reload n e in
      let second : Advances e paced = elim (Bool-cases (ltb n 2)) [
        | inl p ↦ rw p (Advances-then (fifo n) due first (steps n))
        | inr p ↦ rw p first
      ] in
      let third = Advances-then (λ s. (cascade n s).0) due second (cascade-Progresses n) in
      let rest =
        Advances-then (overflow_with fifo fuel (n + 1)) due third
          (overflow_with-Progresses fifo steps fuel (n + 1)) in
      elim (Bool-cases (start (channel n e).cnt_h)) [
        | inl p ↦ rw p (elim (Bool-cases (ltb n 3)) [
          | inl q ↦
              rw q
                (elim (Bool-cases (cascade n paced).1) [ inl o ↦ rw o rest | inr o ↦ rw o third ])
          | inr q ↦ rw q second
        ])
        | inr p ↦ rw p (Advances-refl r)
      ]

  -- The overflow handler of a channel keeps the state in range, and arms events only for cycles after
  -- the one for which the overflow was due, if the sound unit's callback does so too.
  pub timers_overflow-Progresses :
      (fifo : ℕ → Emu R → Emu R)
      → ((n : ℕ) → Progresses (fifo n))
      → (n : ℕ) → Progresses (timers_overflow fifo n)
  unfolding timers_overflow
  timers_overflow-Progresses fifo steps = overflow_with-Progresses fifo steps 4
