-- ===== src/Timers/Control.antt =====
-- src/core/timers.rs: `impl Emu`, the operations on the timer channels. Timers 0 and 1 pace the
-- sound unit's queues, which have no model: `Emu::apu_on_fifo_timer` is a parameter.
pub mod Running
pub mod Cascade
pub mod Progress
use advanced_slop.Base.{
  ℕ, zero, suc, ◌+◌, ◌*◌, ◌-◌, ◌/◌, ◌%◌, ◌^◌, Bool, true, false, not, ◌&&◌, ◌||◌, ◌==◌, ltb,
  if◌then◌else◌, bit_and, List, get_or, set, not_zero,
}
use advanced_slop.Base.Word.{u16, u32, wrapping_sub32, masked, has_bit}
use advanced_slop.Base.Digits.{digit}
use advanced_slop.Scheduler.{
  CycleManager, EventType, timer0, timer1, timer2, timer3, schedule, schedule_from_due,
  saturating_add,
}
use advanced_slop.Timers.{TimerChannel, default_channel}
use advanced_slop.Cpu.Interrupts.{
  InterruptFlag, timer0_overflow, timer1_overflow, timer2_overflow, timer3_overflow,
  cpu_send_interrupt,
}
use advanced_slop.Emu.{Emu}

abbrev pub time_overflow : ℕ
time_overflow = 0x10000

-- The fields of `TimerCntH`.
abbrev pub prescaler : ℕ → ℕ
prescaler cnt_h = bit_and cnt_h 3

abbrev pub count_up : ℕ → Bool
count_up cnt_h = has_bit cnt_h 2

abbrev pub irq_enable : ℕ → Bool
irq_enable cnt_h = has_bit cnt_h 6

abbrev pub start : ℕ → Bool
start cnt_h = has_bit cnt_h 7

abbrev pub is_count_up : ℕ → ℕ → Bool
is_count_up cnt_h channel_num = not (channel_num == 0) && count_up cnt_h

-- `EventType::timer`
unfoldable pub timer_event : ℕ → EventType
timer_event zero = timer0
timer_event (suc zero) = timer1
timer_event (suc (suc zero)) = timer2
timer_event (suc (suc (suc n))) = timer3

-- `InterruptFlag::from(InterruptFlag::Timer0Overflow as u8 + channel_num as u8)`
unfoldable pub timer_flag : ℕ → InterruptFlag
timer_flag zero = timer0_overflow
timer_flag (suc zero) = timer1_overflow
timer_flag (suc (suc zero)) = timer2_overflow
timer_flag (suc (suc (suc n))) = timer3_overflow

-- The cycles until a channel overflows, on words.
abbrev pub remaining_cycles : TimerChannel → ℕ
remaining_cycles c = u32 ((time_overflow - c.current_value) * 2 ^ c.current_shift)

abbrev pub shift_of : ℕ → ℕ → ℕ
shift_of cnt_h channel_num =
    if prescaler cnt_h == 0 || is_count_up cnt_h channel_num then 0 else 4 + prescaler cnt_h * 2

-- The counter that a running channel shows at `now`.
unfoldable pub current_count : ℕ → TimerChannel → ℕ
current_count now c =
    let diff : ℕ = wrapping_sub32 c.scheduled_cycle now in
    u16 (wrapping_sub32 time_overflow (diff / 2 ^ c.current_shift))

-- The channel after a write of its control register, and whether its clock is to be restarted.
unfoldable pub write_control : ℕ → ℕ → ℕ → TimerChannel → TimerChannel × Bool
write_control channel_num mask value c =
    let m : ℕ = bit_and mask 0xc7 in
    let cnt : ℕ = masked 16 c.cnt_h m value in
    let starts : Bool = not (start c.cnt_h) && start cnt in
    let shift : ℕ = shift_of cnt channel_num in
    let reshift : Bool = not_zero (bit_and m 0xff) && not (c.current_shift == shift) in
    (
      record c {
        cnt_h = cnt;
        current_value = if starts then c.cnt_l else c.current_value;
        current_shift = if reshift then shift else c.current_shift;
      },
      starts || reshift,
    )

module _ {R : Type 0} where
  abbrev pub channel : ℕ → Emu R → TimerChannel
  channel channel_num e = get_or e.timers channel_num default_channel

  abbrev pub put_channel : ℕ → TimerChannel → Emu R → Emu R
  put_channel channel_num c e = record e { timers = set e.timers channel_num c }

  unfoldable pub timers_get_cnt_l : ℕ → Emu R → ℕ × Emu R
  unfolding current_count
  timers_get_cnt_l channel_num e =
      let c : TimerChannel = channel channel_num e in
      let now : ℕ =
        if start c.cnt_h && not (is_count_up c.cnt_h channel_num)
        then current_count e.cm.cycle_count c
        else c.current_value in
      (now, put_channel channel_num (record c { current_value = now }) e)

  unfoldable pub timers_get_cnt_h : ℕ → Emu R → ℕ
  timers_get_cnt_h channel_num e = (channel channel_num e).cnt_h

  unfoldable pub timers_set_cnt_l : ℕ → ℕ → ℕ → Emu R → Emu R
  timers_set_cnt_l channel_num mask value e =
      let c : TimerChannel = channel channel_num e in
      put_channel channel_num (record c { cnt_l = masked 16 c.cnt_l mask value }) e

  unfoldable pub timers_set_cnt_h : ℕ → ℕ → ℕ → Emu R → Emu R
  unfolding write_control
  timers_set_cnt_h channel_num mask value e =
      let (c, update) = write_control channel_num mask value (channel channel_num e) in
      if update && (start c.cnt_h && not (is_count_up c.cnt_h channel_num))
      then (record (put_channel channel_num
          (record c { scheduled_cycle = u32 (e.cm.cycle_count + remaining_cycles c) }) e) {
            cm = schedule (remaining_cycles c) (timer_event channel_num) e.cm;
          })
      else put_channel channel_num c e

  -- The first block of `timers_overflow`, for a channel that runs: reload, next overflow, interrupt.
  unfoldable pub reload : ℕ → Emu R → Emu R
  reload channel_num e =
      let c : TimerChannel = channel channel_num e in
      let c' : TimerChannel = record c { current_value = c.cnt_l } in
      let due : ℕ = saturating_add e.cm.current_event_due (remaining_cycles c') in
      let e' : Emu R =
        if is_count_up c.cnt_h channel_num
        then put_channel channel_num c' e
        else (record (put_channel channel_num (record c' { scheduled_cycle = due }) e) {
          cm = schedule_from_due (remaining_cycles c') (timer_event channel_num) e.cm;
        }) in
      if irq_enable c.cnt_h then cpu_send_interrupt (timer_flag channel_num) e' else e'

  -- The last block: the increment, and whether it overflows.
  unfoldable pub cascade : ℕ → Emu R → Emu R × Bool
  cascade channel_num e =
      let c : TimerChannel = channel channel_num e in
      if count_up c.cnt_h
      then (let value : ℕ = u16 (c.current_value + 1) in
          (put_channel channel_num (record c { current_value = value }) e, value == 0))
      else (e, false)

  -- `timers_overflow` with fuel; four rounds reach the last channel from any.
  unfoldable pub overflow_with : (ℕ → Emu R → Emu R) → ℕ → ℕ → Emu R → Emu R
  unfolding reload cascade
  overflow_with apu_on_fifo_timer zero channel_num e = e
  overflow_with apu_on_fifo_timer (suc fuel) channel_num e =
      if start (channel channel_num e).cnt_h
      then (let reloaded : Emu R = reload channel_num e in
          let paced : Emu R =
            if ltb channel_num 2 then apu_on_fifo_timer channel_num reloaded else reloaded in
          let (counted, overflow) = cascade channel_num paced in
          let rest : Emu R = overflow_with apu_on_fifo_timer fuel (channel_num + 1) counted in
          if ltb channel_num 3 then (if overflow then rest else counted) else paced)
      else e

  unfoldable pub timers_overflow : (ℕ → Emu R → Emu R) → ℕ → Emu R → Emu R
  timers_overflow apu_on_fifo_timer = overflow_with apu_on_fifo_timer 4
