-- ===== src/Timers/Control/Cascade.antt =====
-- What an overflow does to the other channels.
use advanced_slop.Base.{
  ℕ, suc, ◌<◌, ◌≡◌, ◌≢◌, refl, arith, false, if◌then◌else◌, ltb, set, get_or-set_ne,
  get_or-set_self, length, Bool-cases, inl, inr,
}
use advanced_slop.Timers.{TimerChannel, default_channel}
use advanced_slop.Cpu.Interrupts.{
  InterruptFlag, cpu_send_interrupt, raise_flag, cpu_unhalt, cpu_check_for_interrupt,
}
use advanced_slop.Timers.Control.{
  start, count_up, is_count_up, irq_enable, timer_flag, remaining_cycles, channel, reload, cascade,
  overflow_with, timers_overflow,
}
use advanced_slop.Scheduler.{saturating_add}
use advanced_slop.Emu.{Emu}

module _ {R : Type 0} where
  timers-cpu_send_interrupt :
      (flag : InterruptFlag) (e : Emu R) → (cpu_send_interrupt flag e).timers ≡ e.timers
  unfolding cpu_send_interrupt raise_flag cpu_unhalt cpu_check_for_interrupt
  timers-cpu_send_interrupt flag e = ground arith

  -- The state after `reload` and, for the channels that have one, the sound unit's callback.
  abbrev paced : (ℕ → Emu R → Emu R) → ℕ → Emu R → Emu R
  paced apu_on_fifo_timer channel_num e =
      let reloaded : Emu R = reload channel_num e in
      if ltb channel_num 2 then apu_on_fifo_timer channel_num reloaded else reloaded

  -- A reload writes one channel, and keeps its control register.
  timers-reload :
      (channel_num : ℕ) (e : Emu R)
      → (v : TimerChannel) × ((reload channel_num e).timers ≡ set e.timers channel_num v)
        × (v.cnt_h ≡ (channel channel_num e).cnt_h)
  unfolding reload
  timers-reload channel_num e =
      let c : TimerChannel = channel channel_num e in
      let c' : TimerChannel = record c { current_value = c.cnt_l } in
      let due : ℕ = saturating_add e.cm.current_event_due (remaining_cycles c') in
      elim (Bool-cases (is_count_up c.cnt_h channel_num)) [
        | inl p ↦ (
          c',
          elim (Bool-cases (irq_enable c.cnt_h)) [
            | inl q ↦ rw (q, p) (timers-cpu_send_interrupt (timer_flag channel_num) _)
            | inr q ↦ rw (q, p) refl
          ],
          refl,
        )
        | inr p ↦ (
          record c' { scheduled_cycle = due },
          elim (Bool-cases (irq_enable c.cnt_h)) [
            | inl q ↦ rw (q, p) (timers-cpu_send_interrupt (timer_flag channel_num) _)
            | inr q ↦ rw (q, p) refl
          ],
          refl,
        )
      ]

  channel-reload :
      (channel_num j : ℕ) (e : Emu R)
      → channel_num ≢ j
      → channel j (reload channel_num e) ≡ channel j e
  channel-reload channel_num j e ne =
      let (v, written, kept) = timers-reload channel_num e in
      rw written (get_or-set_ne e.timers channel_num j v default_channel ne)

  cnt_h-reload :
      (channel_num : ℕ) (e : Emu R)
      → channel_num < length e.timers
      → (channel channel_num (reload channel_num e)).cnt_h ≡ (channel channel_num e).cnt_h
  cnt_h-reload channel_num e h =
      let (v, written, kept) = timers-reload channel_num e in
      rw (written, get_or-set_self e.timers channel_num v default_channel h) kept

  timers-paced :
      (fifo : ℕ → Emu R → Emu R) (channel_num : ℕ) (e : Emu R)
      → ((n : ℕ) (s : Emu R) → (fifo n s).timers ≡ s.timers)
      → (paced fifo channel_num e).timers ≡ (reload channel_num e).timers
  timers-paced fifo channel_num e keeps = elim (Bool-cases (ltb channel_num 2)) [
    | inl p ↦ rw p (keeps channel_num (reload channel_num e))
    | inr p ↦ rw p refl
  ]

  cascade-single :
      (channel_num : ℕ) (e : Emu R)
      → count_up (channel channel_num e).cnt_h ≡ false
      → cascade channel_num e ≡ (e, false)
  unfolding cascade
  cascade-single channel_num e single = rw (cascade, single) refl

  overflow_with-single :
      (fifo : ℕ → Emu R → Emu R) (fuel channel_num : ℕ) (e : Emu R)
      → count_up (channel channel_num (paced fifo channel_num e)).cnt_h ≡ false
      → overflow_with fifo (suc fuel) channel_num e
        ≡ (if start (channel channel_num e).cnt_h then paced fifo channel_num e else e)
  unfolding overflow_with
  overflow_with-single fifo fuel channel_num e single =
      rw (cascade-single channel_num (paced fifo channel_num e) single) (ground arith)

  -- A channel that does not itself count up never advances another one, whatever the control
  -- register of that one says: its overflow leaves every other channel as it was. The sound unit's
  -- callback is assumed to leave the timers alone.
  pub timers_overflow_alone :
      (apu_on_fifo_timer : ℕ → Emu R → Emu R) (channel_num j : ℕ) (e : Emu R)
      → ((n : ℕ) (s : Emu R) → (apu_on_fifo_timer n s).timers ≡ s.timers)
      → channel_num < length e.timers
      → count_up (channel channel_num e).cnt_h ≡ false
      → channel_num ≢ j
      → channel j (timers_overflow apu_on_fifo_timer channel_num e) ≡ channel j e
  unfolding timers_overflow
  timers_overflow_alone fifo channel_num j e keeps inside single ne =
      let same : (paced fifo channel_num e).timers ≡ (reload channel_num e).timers =
        timers-paced fifo channel_num e keeps in
      let single' : count_up (channel channel_num (paced fifo channel_num e)).cnt_h ≡ false =
        rw (same, cnt_h-reload channel_num e inside) single in
      rw (overflow_with-single fifo 3 channel_num e single')
        (elim (Bool-cases (start (channel channel_num e).cnt_h)) [
          | inl p ↦ rw (p, same) (channel-reload channel_num j e ne)
          | inr p ↦ rw p refl
        ])
