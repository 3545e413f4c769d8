-- ===== src/Scheduler/Dispatch.antt =====
-- `Emu::cm_check_events` and `Emu::cm_on_overflow_event` of src/core/cycle_manager.rs. The two
-- handler tables are parameters, indexed as in the source: some handlers have no model.
use advanced_slop.Base.{
  ℕ, zero, suc, ◌+◌, ◌-◌, List, [], ◌∷◌, map, Bool, true, false, ◌&&◌, ltb, leb, if◌then◌else◌,
  Option, none, some, get_or, bit_and,
}
use mathlib.Core.Option
use advanced_slop.Base.Word.{wrapping_sub32, u32_max, has_bit}
use advanced_slop.Base.Digits.{complement}
use advanced_slop.Scheduler.{CycleManager, slot_mask}
use advanced_slop.Scheduler.Scan.{scan, scan_fuel}
use advanced_slop.Timers.{TimerChannel}
use advanced_slop.Emu.{Emu}

-- `best_index` (`none` for `usize::MAX`) and `best_cycle`.
abbrev pub Best : Type 0
Best = Option ℕ × ℕ

unfoldable pub better : List ℕ → ℕ → ℕ → Best → Best
better events cycle_count i best =
    let event_cycle : ℕ = get_or events i 0 in
    if leb event_cycle cycle_count && ltb event_cycle best.1 then (some i, event_cycle) else best

-- One scan of the dispatch loop: the earliest due event, the lowest index on a tie.
unfoldable pub find_due : CycleManager → Best
unfolding better
find_due cm = scan (better cm.events cm.cycle_count) scan_fuel cm.active_events 0 (none, u32_max)

-- The event is taken off the mask before its handler runs.
unfoldable pub take_due : ℕ → ℕ → CycleManager → CycleManager
take_due i due cm = record cm {
  active_events = bit_and cm.active_events (complement 32 (slot_mask i));
  current_event_due = due;
}

unfoldable pub earlier : List ℕ → ℕ → ℕ → ℕ
earlier events i next =
    let event_cycle : ℕ = get_or events i 0 in if ltb event_cycle next then event_cycle else next

-- The next due cycle, over the events that the handlers rescheduled.
unfoldable pub recompute_next : CycleManager → CycleManager
unfolding earlier
recompute_next cm = record cm {
  next_event_cycle = scan (earlier cm.events) scan_fuel cm.active_events 0 cm.next_event_cycle;
}

-- `for i in 0..events.len() { if active { events[i] -= cycle_count } }`, from index `i` on.
unfoldable pub rebase_events : ℕ → ℕ → ℕ → List ℕ → List ℕ
rebase_events active cycle_count i [] = []
rebase_events active cycle_count i (x ∷ xs) =
    (if has_bit active (31 - i) then wrapping_sub32 x cycle_count else x)
    ∷ rebase_events active cycle_count (i + 1) xs

unfoldable pub rebase : CycleManager → CycleManager
unfolding rebase_events
rebase cm = record cm {
  events = rebase_events cm.active_events cm.cycle_count 0 cm.events;
  next_event_cycle = wrapping_sub32 cm.next_event_cycle cm.cycle_count;
  cycle_count = 0;
}

unfoldable pub rebase_channel : ℕ → TimerChannel → TimerChannel
rebase_channel cycle_count c = record c {
  scheduled_cycle =
      if ltb c.scheduled_cycle cycle_count then 0 else c.scheduled_cycle - cycle_count;
}

module _ {R : Type 0} where
  unfoldable pub cm_on_overflow_event : Emu R → Emu R
  unfolding rebase rebase_channel
  cm_on_overflow_event e = record e {
    cm = rebase e.cm;
    timers = map (rebase_channel e.cm.cycle_count) e.timers;
  }

  unfoldable pub settle : Emu R → Emu R
  unfolding recompute_next cm_on_overflow_event
  settle e =
      let e' : Emu R = record e { cm = recompute_next e.cm } in
      if ltb 0x7fff_ffff e'.cm.cycle_count then cm_on_overflow_event e' else e'

  -- The dispatch loop, with fuel; `none` means that it ran out.
  unfoldable pub drain : (ℕ → Emu R → Emu R) → ℕ → Emu R → Option (Emu R)
  drain lut zero e = none
  drain lut (suc fuel) e =
      let (index, due) = find_due e.cm in
      elim index [
        | none ↦ some e
        | some i ↦ drain lut fuel (lut i (record e { cm = take_due i due e.cm }))
      ]

  -- The immediate events: those that their handlers raise wait for the next check.
  unfoldable pub run_imm_events : (ℕ → Emu R → Emu R) → Emu R → Emu R
  run_imm_events imm_lut e =
      scan imm_lut scan_fuel e.cm.active_imm_events 0
        (record e { cm = record (e.cm) { active_imm_events = 0 } })

  unfoldable pub cm_check_events :
      (ℕ → Emu R → Emu R) → (ℕ → Emu R → Emu R) → ℕ → Emu R → Option (Emu R × Bool)
  unfolding drain run_imm_events settle
  cm_check_events imm_lut lut fuel e =
      let e' : Emu R = run_imm_events imm_lut e in
      if ltb e'.cm.cycle_count e'.cm.next_event_cycle
      then some (e', false)
      else (Option.map (λ s. (settle s, true))
          (drain lut fuel (record e' { cm = record (e'.cm) { next_event_cycle = u32_max } })))
