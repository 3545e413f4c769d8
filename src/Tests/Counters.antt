-- ===== src/Tests/Counters.antt =====
-- The timers of a concrete machine.
use advanced_slop.Base.{ℕ, ◌+◌, ◌-◌, ◌*◌, ◌^◌, ◌≡◌, refl, arith, get_or, ◌∷◌, []}
use advanced_slop.Base.Word.{u16}
use advanced_slop.Timers.{TimerChannel, default_channel}
use advanced_slop.Timers.Control.{
  channel, current_count, time_overflow, timer_event, timers_set_cnt_h, timers_overflow,
  write_control,
}
use advanced_slop.Timers.Control.Running.{current_count_lem, timers_set_cnt_h_starts}
use advanced_slop.Timers.Control.Cascade.{timers_overflow_alone}
use advanced_slop.Scheduler.{event_index}
use advanced_slop.Scheduler.Clock.{IsArmed}
use advanced_slop.Emu.{Emu}
use advanced_slop.Tests.{machine}

-- Started at cycle 100 with 0xff00 and a period of 64 cycles.
abbrev running : TimerChannel
running = record default_channel {
  current_value = 0xff00;
  current_shift = 6;
  scheduled_cycle = 100 + 256 * 64;
}

-- 130 cycles later the third period runs.
current_count_lem_example : current_count (100 + 130) running ≡ u16 (0xff00 + 3)
current_count_lem_example =
    current_count_lem running 100 3 130 (omega arith) refl (omega arith) (omega arith) (omega arith)
      (omega arith)

timers_set_cnt_h_starts_example :
    let e' = timers_set_cnt_h 0 0xffff 0x81 machine in
    let c' = channel 0 e' in
    (c'.current_value ≡ 0xff00)
    × (c'.scheduled_cycle ≡ 100 + (time_overflow - c'.current_value) * 2 ^ c'.current_shift)
    × (get_or e'.cm.events (event_index (timer_event 0)) 0 ≡ c'.scheduled_cycle)
    × (IsArmed e'.cm (event_index (timer_event 0)))
unfolding write_control
timers_set_cnt_h_starts_example =
    timers_set_cnt_h_starts 0 0xffff 0x81 machine (omega arith) refl (omega arith) refl refl refl
      (omega arith)

-- Timer 0 runs and timer 1 counts its overflows, or would.
abbrev chained : Emu ℕ
chained = record machine {
  timers =
      record running { cnt_h = 0x80 }
      ∷ record default_channel { cnt_h = 0x84 }
      ∷ default_channel
      ∷ default_channel
      ∷ [];
}

abbrev silent : ℕ → Emu ℕ → Emu ℕ
silent channel_num e = e

timers_overflow_alone_example : channel 1 (timers_overflow silent 0 chained) ≡ channel 1 chained
timers_overflow_alone_example =
    timers_overflow_alone silent 0 1 chained (λ n s. refl) (omega arith) refl (omega arith)
