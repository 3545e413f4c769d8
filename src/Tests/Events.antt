-- ===== src/Tests/Events.antt =====
-- The scheduler on a concrete clock.
use advanced_slop.Base.{
  zero, suc, if◌then◌else◌, ℕ, ◌+◌, ◌-◌, ◌^◌, ◌<◌, ◌≤◌, ◌≡◌, arith, refl, some, true, ◌==◌, get_or,
  List, leb, leb→le, not, ◌||◌, Bool-cases, inl, inr, ◌∷◌, [],
}
use advanced_slop.Base.Table.{every, every_at}
use advanced_slop.Base.Digits.{digit}
use advanced_slop.Scheduler.{
  CycleManager, timer2, apu_sample, gpu_scanline240, gpu_scanline308, dma1, new, schedule,
  schedule_from_due, schedule_imm, add_cycles, jump_to_next_event,
}
use advanced_slop.Scheduler.Scan.{scan, walk, scan_fuel, scan-eq-walk}
use advanced_slop.Scheduler.Dispatch.{find_due, drain, recompute_next}
use advanced_slop.Scheduler.Earliest.{IsSet31, Found}
use advanced_slop.Scheduler.Clock.{IsValid, methods-IsValid}
use advanced_slop.Scheduler.Settled.{find_due-Found}
use advanced_slop.Scheduler.Drain.{drain_settles}
use advanced_slop.Scheduler.Handlers.{event_lut}
use advanced_slop.Scheduler.Progress.{
  IsReady, IsPaced, Progresses, Advances-same, schedule_from_due-Progresses,
}
use advanced_slop.Timers.{default_channel}
use advanced_slop.Timers.Control.{channel}
use advanced_slop.Emu.{Emu}
use advanced_slop.Tests.{clock, machine}

find_due-Found_example : Found clock.events clock.active_events 100 32 (find_due clock)
find_due-Found_example = find_due-Found clock (omega arith) (omega arith) (omega arith)

-- The sample event was due at cycle 80, the scanline event at 90, and timer 0, which overflows at every
-- cycle, at 95.
abbrev late_machine : Emu ℕ
late_machine = record machine {
  cm = record clock {
    events = 90 ∷ 0 ∷ 95 ∷ 300 ∷ 0 ∷ 0 ∷ 80 ∷ [];
    active_events = 2 ^ 31 + 2 ^ 29 + 2 ^ 28 + 2 ^ 25;
  };
  timers =
      record default_channel { cnt_l = 0xffff; cnt_h = 0xc0 }
      ∷ default_channel
      ∷ default_channel
      ∷ default_channel
      ∷ [];
}

late_machine-IsReady : IsReady late_machine
late_machine-IsReady = record {
  slots = refl;
  mask = omega arith;
  even = omega arith;
  early = omega arith;
  paced = paced;
}
  where
    paced : (n : ℕ) → IsPaced (channel n late_machine)
    paced zero = (omega arith, omega arith)
    paced (suc zero) = (omega arith, omega arith)
    paced (suc (suc zero)) = (omega arith, omega arith)
    paced (suc (suc (suc zero))) = (omega arith, omega arith)
    paced (suc (suc (suc (suc n)))) = (omega arith, omega arith)

-- How the scanline events and the sample event follow one another.
other_handlers : ℕ → Emu ℕ → Emu ℕ
other_handlers i e =
    if i == 0
    then (record e { cm = schedule_from_due 272 gpu_scanline308 e.cm })
    else if i == 1
    then (record e { cm = schedule_from_due 960 gpu_scanline240 e.cm })
    else (record e { cm = schedule_from_due 512 apu_sample e.cm })

other_handlers-Progresses : (i : ℕ) → Progresses (other_handlers i)
unfolding other_handlers
other_handlers-Progresses i e r due = elim (Bool-cases (i == 0)) [
  | inl p ↦ rw p (schedule_from_due-Progresses 272 gpu_scanline308 (omega arith) e r due)
  | inr p ↦ elim (Bool-cases (i == 1)) [
    | inl q ↦ rw (p, q) (schedule_from_due-Progresses 960 gpu_scanline240 (omega arith) e r due)
    | inr q ↦ rw (p, q) (schedule_from_due-Progresses 512 apu_sample (omega arith) e r due)
  ]
]

-- The queue runs low, and its transfer is asked for.
refill : ℕ → Emu ℕ → Emu ℕ
refill channel_num e = record e { cm = schedule_imm dma1 e.cm }

refill-Progresses : (n : ℕ) → Progresses (refill n)
unfolding refill schedule_imm
refill-Progresses n e r due = Advances-same r refl refl refl refl r.paced

first_checked :
    every 32 (λ i.
      not (digit late_machine.cm.active_events (31 - i) == 1)
      || leb 80 (get_or late_machine.cm.events i 0))
    ≡ true
unfolding every
first_checked = refl

drain_settles_example :
    (e' : Emu ℕ) × (drain (event_lut other_handlers refill) 673 late_machine ≡ some e')
    × ((i : ℕ)
        → i < 32
        → IsSet31 e'.cm.active_events i
        → (e'.cm.cycle_count < get_or e'.cm.events i 0)
          × ((recompute_next e'.cm).next_event_cycle ≤ get_or e'.cm.events i 0))
drain_settles_example =
    drain_settles other_handlers refill 673 80 late_machine other_handlers-Progresses
      refill-Progresses late_machine-IsReady (λ i hi armed. not_before i hi armed) (omega arith)
  where
    not_before :
        (i : ℕ)
        → i < 32
        → IsSet31 late_machine.cm.active_events i
        → 80 ≤ get_or late_machine.cm.events i 0
    not_before i hi armed = ground (
      arith,
      every_at 32
          (λ (j : ℕ).
            not (digit late_machine.cm.active_events (31 - j) == 1)
            || leb 80 (get_or late_machine.cm.events j 0))
          i first_checked hi,
    )

abbrev note : ℕ → List ℕ → List ℕ
note i seen = i ∷ seen

scan-eq-walk_example :
    scan note scan_fuel (2 ^ 31 + 2 ^ 28) 0 [] ≡ walk note 32 (2 ^ 31 + 2 ^ 28) 0 []
scan-eq-walk_example = scan-eq-walk note (2 ^ 31 + 2 ^ 28) [] (omega arith) (omega arith)

-- The first check after a reset.
abbrev idle_clock : CycleManager
idle_clock = record clock { events = 400 ∷ 0 ∷ 0 ∷ 300 ∷ 0 ∷ 0 ∷ 0 ∷ [] }

idle_clock-IsValid : IsValid idle_clock
unfolding every
idle_clock-IsValid = record {
  slots = refl;
  mask = omega arith;
  covered = λ i hi armed. leb→le 300 (get_or idle_clock.events i 0) (covered_at i hi armed);
}
  where
    covered_checked :
        every 7 (λ i.
          not (digit idle_clock.active_events (31 - i) == 1)
          || leb 300 (get_or idle_clock.events i 0))
        ≡ true
    covered_checked = refl

    covered_at :
        (i : ℕ)
        → i < 7
        → digit idle_clock.active_events (31 - i) ≡ 1
        → leb 300 (get_or idle_clock.events i 0) ≡ true
    covered_at i hi armed = ground (
      arith,
      every_at 7
          (λ (j : ℕ).
            not (digit idle_clock.active_events (31 - j) == 1)
            || leb 300 (get_or idle_clock.events j 0))
          i covered_checked hi,
    )

methods-IsValid_example :
    IsValid new
    × IsValid (schedule 7 timer2 idle_clock)
    × IsValid (schedule_from_due 7 timer2 idle_clock)
    × IsValid (schedule_imm dma1 idle_clock)
    × IsValid (add_cycles 7 idle_clock)
    × IsValid (jump_to_next_event idle_clock)
methods-IsValid_example = methods-IsValid 7 timer2 dma1 idle_clock-IsValid
