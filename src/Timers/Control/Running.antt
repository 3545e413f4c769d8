-- ===== src/Timers/Control/Running.antt =====
-- What a running channel shows, and when it overflows.
use advanced_slop.Base.{
  ℕ, zero, suc, ◌+◌, ◌-◌, ◌*◌, ◌/◌, ◌^◌, ◌<◌, ◌≤◌, ◌≡◌, refl, arith, ap, ◌∙◌, sym, true, false,
  get_or, get_or-set_self, length,
}
use native.Mathlib.Nat.{div-eq_of_lt-le, add-mul, one-mul, mul-le-mul, mul-le-mul_right, one-le-pow}
use advanced_slop.Base.Word.{u16, u32, u32_max, wrapping_sub32}
use advanced_slop.Base.Digits.{digit-le, digit-bit_or, digit-two_pow_self}
use advanced_slop.Timers.{TimerChannel, default_channel}
use advanced_slop.Timers.Control.{
  current_count, time_overflow, start, is_count_up, write_control, timer_event, channel,
  remaining_cycles, timers_set_cnt_h, put_channel,
}
use advanced_slop.Scheduler.{event_index, event_slots, schedule, arm, due_cycle, slot_mask}
use advanced_slop.Scheduler.Clock.{IsArmed, due_cycle_lem}
use advanced_slop.Emu.{Emu}

periods_left :
    (total ticks period d : ℕ)
    → d ≤ ticks * period
    → ticks * period < d + period
    → ticks ≤ total
    → (total * period - d) / period ≡ total - ticks
periods_left total ticks period d lo hi h =
    let m : ℕ = total - ticks in
    let split : total * period ≡ ticks * period + m * period =
      ap (λ (t : ℕ). t * period) (omega (arith, h)) ∙ add-mul ticks m period in
    let top : (m + 1) * period ≡ m * period + 1 * period = add-mul m 1 period in
    div-eq_of_lt-le {k = m} period (omega (arith, split))
      (omega (arith, split, top, one-mul period))

-- If a channel with the value `v` was started at the cycle `now`, so that its overflow is scheduled
-- for the end of its last period, and a word can hold that cycle, then it reads `v + j`, modulo
-- 2^16, in its period `j`: `d` cycles after the start, from the end of period `j - 1`, exclusive, to
-- the end of period `j`.
pub current_count_lem :
    (c : TimerChannel) (now j d : ℕ)
    → c.current_value < time_overflow
    → c.scheduled_cycle ≡ now + (time_overflow - c.current_value) * 2 ^ c.current_shift
    → c.scheduled_cycle < 2 ^ 32
    → j ≤ time_overflow - c.current_value
    → d ≤ j * 2 ^ c.current_shift
    → j * 2 ^ c.current_shift < d + 2 ^ c.current_shift
    → current_count (now + d) c ≡ u16 (c.current_value + j)
unfolding current_count
current_count_lem c now j d small due word left lo hi =
    let period : ℕ = 2 ^ c.current_shift in
    let total : ℕ = time_overflow - c.current_value in
    let within : j * period ≤ total * period = mul-le-mul_right period left in
    let diff : wrapping_sub32 c.scheduled_cycle (now + d) ≡ total * period - d =
      omega (arith, due, word, within, lo) in
    rw (diff, periods_left total j period d lo hi left) (omega (arith, small, left))

-- Setting the start bit of a stopped channel loads the reload value and asks for a restart.
write_control_starts :
    (channel_num mask value : ℕ) (c : TimerChannel)
    → start c.cnt_h ≡ false
    → let (c', update) = write_control channel_num mask value c in
      start c'.cnt_h ≡ true → (c'.current_value ≡ c.cnt_l) × (update ≡ true)
unfolding write_control
write_control_starts channel_num mask value c stopped started =
    (rw (stopped, started) refl, rw (stopped, started) refl)

timer_event-lt : (n : ℕ) → event_index (timer_event n) < event_slots
unfolding event_index timer_event
timer_event-lt zero = omega arith
timer_event-lt (suc zero) = omega arith
timer_event-lt (suc (suc zero)) = omega arith
timer_event-lt (suc (suc (suc n))) = omega arith

two_pow-pos : (n : ℕ) → 1 ≤ 2 ^ n
two_pow-pos n = one-le-pow n 2 (omega arith)

module _ {R : Type 0} where
  -- The restart of a channel: its next overflow is put on the clock.
  abbrev restarted : ℕ → TimerChannel → Emu R → Emu R
  restarted channel_num c e =
      (record (put_channel channel_num
        (record c { scheduled_cycle = u32 (e.cm.cycle_count + remaining_cycles c) }) e) {
          cm = schedule (remaining_cycles c) (timer_event channel_num) e.cm;
        })

  timers_set_cnt_h-restarted :
      (channel_num mask value : ℕ) (e : Emu R)
      → let (c, update) = write_control channel_num mask value (channel channel_num e) in
        update ≡ true
        → start c.cnt_h ≡ true
        → is_count_up c.cnt_h channel_num ≡ false
        → timers_set_cnt_h channel_num mask value e ≡ restarted channel_num c e
  unfolding timers_set_cnt_h
  timers_set_cnt_h-restarted channel_num mask value e update started single =
      rw (update, started, single) refl

  restarted_lem :
      (channel_num total : ℕ) (c : TimerChannel) (e : Emu R)
      → channel_num < length e.timers
      → length e.cm.events ≡ event_slots
      → remaining_cycles c ≡ total
      → 1 ≤ total
      → e.cm.cycle_count + total ≤ u32_max
      → let e' = restarted channel_num c e in
        let c' = channel channel_num e' in
        (c' ≡ record c { scheduled_cycle = e.cm.cycle_count + total })
        × (get_or e'.cm.events (event_index (timer_event channel_num)) 0 ≡ e.cm.cycle_count + total)
        × (IsArmed e'.cm (event_index (timer_event channel_num)))
  unfolding schedule arm
  restarted_lem channel_num total c e inside slots left some_left word =
      let slot : ℕ = event_index (timer_event channel_num) in
      let fits : slot < length e.cm.events = omega (arith, timer_event-lt channel_num, slots) in
      let due = due_cycle_lem total e.cm.cycle_count (omega arith) (omega arith) in
      (
        get_or-set_self e.timers channel_num _ default_channel inside
            ∙ ap (λ (t : ℕ). record c { scheduled_cycle = u32 (e.cm.cycle_count + t) }) left
            ∙ ap (λ (t : ℕ). record c { scheduled_cycle = t }) (omega (arith, word)),
        get_or-set_self e.cm.events slot (due_cycle (remaining_cycles c) e.cm.cycle_count) 0 fits
            ∙ ap (λ (t : ℕ). due_cycle t e.cm.cycle_count) left
            ∙ due.1
            ∙ omega (arith, some_left, word),
        omega (
          arith,
          digit-bit_or e.cm.active_events (slot_mask slot) (31 - slot),
          digit-two_pow_self (31 - slot),
          digit-le e.cm.active_events (31 - slot),
        ),
      )

-- If a write of the control register starts a stopped channel that does not count up, the channel
-- holds its reload value, and its overflow is scheduled for the cycle at which its counter will have
-- run through the values from there to 0x10000, provided that a word can hold that cycle.
pub timers_set_cnt_h_starts :
    {R : Type 0} (channel_num mask value : ℕ) (e : Emu R)
    → let c = channel channel_num e in
      let written = (write_control channel_num mask value c).0 in
      let e' = timers_set_cnt_h channel_num mask value e in
      let c' = channel channel_num e' in
      channel_num < length e.timers
      → length e.cm.events ≡ event_slots
      → c.cnt_l < time_overflow
      → start c.cnt_h ≡ false
      → start written.cnt_h ≡ true
      → is_count_up written.cnt_h channel_num ≡ false
      → e.cm.cycle_count + (time_overflow - c.cnt_l) * 2 ^ written.current_shift ≤ u32_max
      → (c'.current_value ≡ c.cnt_l)
        × (c'.scheduled_cycle
            ≡ e.cm.cycle_count + (time_overflow - c'.current_value) * 2 ^ c'.current_shift)
        × (get_or e'.cm.events (event_index (timer_event channel_num)) 0 ≡ c'.scheduled_cycle)
        × (IsArmed e'.cm (event_index (timer_event channel_num)))
timers_set_cnt_h_starts channel_num mask value e inside slots small stopped started single word =
    let c : TimerChannel = channel channel_num e in
    let w : TimerChannel = (write_control channel_num mask value c).0 in
    let (loaded, update) = write_control_starts channel_num mask value c stopped started in
    let total : ℕ = (time_overflow - c.cnt_l) * 2 ^ w.current_shift in
    let some_left : 1 ≤ total =
      mul-le-mul {n₁ = 1} {m₁ = 1} (omega (arith, small)) (two_pow-pos w.current_shift) in
    let left : remaining_cycles w ≡ total =
      ap (λ (t : ℕ). u32 ((time_overflow - t) * 2 ^ w.current_shift)) loaded
      ∙ omega (arith, word) in
    let (written, event, armed) =
      restarted_lem channel_num total w e inside slots left some_left word in
    rw (timers_set_cnt_h-restarted channel_num mask value e update started single, written)
      (
        loaded,
        ap (λ (t : ℕ). e.cm.cycle_count + (time_overflow - t) * 2 ^ w.current_shift) (sym loaded),
        event,
        armed,
      )
