-- ===== src/Scheduler/Drain.antt =====
-- The dispatch loop of `Emu::cm_check_events` ends, with nothing due, and the next check is in time.
use advanced_slop.Base.{
  ◌*◌, min, leb, ◌&&◌, Bool-cases, ℕ, zero, suc, ◌+◌, ◌-◌, ◌<◌, ◌≤◌, ◌≡◌, sym, ◌∙◌, arith, List,
  inl, inr, get_or, none, some, Option-cases,
}
use mathlib.Core.Path.{subst}
use advanced_slop.Base.Digits.{digit-bit_and, complement, bit_and-le}
use advanced_slop.Scheduler.{slot_mask}
use advanced_slop.Scheduler.Progress.{IsReady, Advances, Progresses}
use advanced_slop.Scheduler.Handlers.{event_lut}
use advanced_slop.Timers.Control.Progress.{timers_overflow-Progresses}
use advanced_slop.Scheduler.Dispatch.{Best, find_due, take_due, recompute_next, drain}
use advanced_slop.Scheduler.Earliest.{Found, IsSet31}
use advanced_slop.Emu.{Emu}
use advanced_slop.Scheduler.Taken.{Found-due, Found-first, taken_armed}
use advanced_slop.Scheduler.Settled.{find_due-Found, recompute_next_lem}

none_due :
    (events : List ℕ) (active now : ℕ) (best : Best)
    → best.0 ≡ none
    → Found events active now 32 best
    → (i : ℕ) → i < 32
    → IsSet31 active i
    → now < get_or events i 0
none_due events active now (none, bound) n f i hi s = f.1 i hi s
none_due events active now (some b, due) n f i hi s = cc

module _ {R : Type 0} (lut : ℕ → Emu R → Emu R) where
  abbrev dispatched : Emu R → ℕ → Emu R
  dispatched e i = lut i (record e { cm = take_due i (find_due e.cm).1 e.cm })

  drain-none : (fuel : ℕ) (e : Emu R) → (find_due e.cm).0 ≡ none → drain lut (suc fuel) e ≡ some e
  unfolding drain
  drain-none fuel e n = rw (n, drain)

  drain-some :
      (fuel i : ℕ) (e : Emu R)
      → (find_due e.cm).0 ≡ some i
      → drain lut (suc fuel) e ≡ drain lut fuel (dispatched e i)
  unfolding drain
  drain-some fuel i e n = rw (n, drain)

  drain-find_due :
      (fuel : ℕ) (e e' : Emu R) → drain lut fuel e ≡ some e' → (find_due e'.cm).0 ≡ none
  unfolding drain
  drain-find_due zero e e' h = cc
  drain-find_due (suc fuel) e e' h = elim (Option-cases (find_due e.cm).0) [
    | inl n ↦
        let same : e ≡ e' = cc (drain-none fuel e n) in subst (λ s. (find_due s.cm).0 ≡ none) same n
    | inr (i, n) ↦ drain-find_due fuel (dispatched e i) e' (sym (drain-some fuel i e n) ∙ h)
  ]

  without_due : Emu R → ℕ → Emu R
  without_due e i = record e { cm = take_due i (find_due e.cm).1 e.cm }

  without_due-IsReady : (e : Emu R) (i : ℕ) → IsReady e → IsReady (without_due e i)
  unfolding without_due take_due
  without_due-IsReady e i r = record {
    slots = r.slots;
    mask = omega (
      arith,
      r.mask,
      bit_and-le e.cm.active_events e.cm.active_events (complement 32 (slot_mask i)) (omega arith),
    );
    even = omega (arith, r.even, digit-bit_and e.cm.active_events (complement 32 (slot_mask i)) 0);
    early = r.early;
    paced = r.paced;
  }

  -- Every armed event stands at or after `place` in the order of due cycles and indices.
  abbrev IsAfter : ℕ → Emu R → Type 0
  IsAfter place e =
      (j : ℕ) → j < 32 → IsSet31 e.cm.active_events j → place ≤ get_or e.cm.events j 0 * 32 + j

  -- A dispatch moves the first place on, past that of the event that is handled.
  dispatch_step :
      ((i : ℕ) → Progresses (lut i))
      → (e : Emu R) (i place : ℕ) → IsReady e
      → (find_due e.cm).0 ≡ some i
      → IsAfter place e
      → IsReady (dispatched e i)
        × ((dispatched e i).cm.cycle_count ≡ e.cm.cycle_count)
        × (place' : ℕ) × (place < place')
        × (place' ≤ (e.cm.cycle_count + 1) * 32)
        × IsAfter place' (dispatched e i)
  unfolding without_due take_due
  dispatch_step steps e i place r n after =
      let due : ℕ = (find_due e.cm).1 in
      let (hi, armed, late, first) =
        Found-first e.cm.events e.cm.active_events e.cm.cycle_count (find_due e.cm) i r.early n
          (find_due-Found e.cm r.mask r.even r.early) in
      let found_at : get_or e.cm.events i 0 ≡ due =
        Found-due e.cm.events e.cm.active_events e.cm.cycle_count (find_due e.cm) i n
          (find_due-Found e.cm r.mask r.even r.early) in
      let step : Advances (without_due e i) (dispatched e i) =
        steps i (without_due e i) (without_due-IsReady e i r) late in
      (
        step.ready,
        step.clock,
        due * 32 + i + 1,
        omega (arith, after i hi armed, found_at),
        omega (arith, late, hi),
        λ j hj now_armed. elim (step.later j hj now_armed) [
          | inl (was_armed, same) ↦
              let (armed', ne) = taken_armed e.cm.active_events i j hi hj was_armed in
              elim (first j hj armed') [
                | inl before ↦ omega (arith, before, same, hi)
                | inr (tie, le) ↦ ground (arith, tie, le, same, ne)
              ]
          | inr later ↦ omega (arith, later, hi)
        ],
      )

  drain_ends :
      ((i : ℕ) → Progresses (lut i))
      → (fuel place : ℕ) (e : Emu R) → IsReady e
      → IsAfter place e
      → place ≤ (e.cm.cycle_count + 1) * 32
      → (e.cm.cycle_count + 1) * 32 < place + fuel
      → (e' : Emu R) × (drain lut fuel e ≡ some e') × IsReady e'
  drain_ends steps zero place e r after within enough = absurd (omega arith)
  drain_ends steps (suc fuel) place e r after within enough =
      elim (Option-cases (find_due e.cm).0) [
        | inl n ↦ (e, drain-none fuel e n, r)
        | inr (i, n) ↦
            let (r', clock, place', further, within', after') =
              dispatch_step steps e i place r n after in
            let (e', ends, last) =
              drain_ends steps fuel place' (dispatched e i) r' after'
                (omega (arith, clock, within')) (omega (arith, clock, further, enough)) in
            (e', drain-some fuel i e n ∙ ends, last)
      ]

module _ {R : Type 0} (others apu_on_fifo_timer : ℕ → Emu R → Emu R) where
  event_lut-Progresses :
      ((i : ℕ) → Progresses (others i))
      → ((n : ℕ) → Progresses (apu_on_fifo_timer n))
      → (i : ℕ) → Progresses (event_lut others apu_on_fifo_timer i)
  unfolding event_lut
  event_lut-Progresses steps fifo_steps i e r due = elim (Bool-cases (leb 2 i && leb i 5)) [
    | inl p ↦ rw p (timers_overflow-Progresses apu_on_fifo_timer fifo_steps (i - 2) e r due)
    | inr p ↦ rw p (steps i e r due)
  ]

  -- The dispatch loop ends, with the timers' overflow handlers in its table, from a state in range
  -- (seven slots and a mask for them, a clock short of its end, halfwords as reload values and shifts
  -- below 16), if the handlers without a model and the sound unit's callback, when an event is due,
  -- keep the state in range and the clock, and arm events only for cycles after the one for which that
  -- event was due; 32 rounds for each cycle from the first due one to the clock are enough. When it
  -- ends no armed event is due, and the next cycle that is then computed is not after any armed event.
  pub drain_settles :
      (fuel first : ℕ) (e : Emu R)
      → ((i : ℕ) → Progresses (others i))
      → ((n : ℕ) → Progresses (apu_on_fifo_timer n))
      → IsReady e
      → ((i : ℕ) → i < 32 → IsSet31 e.cm.active_events i → first ≤ get_or e.cm.events i 0)
      → (e.cm.cycle_count + 1 - first) * 32 < fuel
      → (e' : Emu R) × (drain (event_lut others apu_on_fifo_timer) fuel e ≡ some e')
        × ((i : ℕ)
            → i < 32
            → IsSet31 e'.cm.active_events i
            → (e'.cm.cycle_count < get_or e'.cm.events i 0)
              × ((recompute_next e'.cm).next_event_cycle ≤ get_or e'.cm.events i 0))
  drain_settles fuel first e steps fifo_steps r not_before enough =
      let lut : ℕ → Emu R → Emu R = event_lut others apu_on_fifo_timer in
      let place : ℕ = min first (e.cm.cycle_count + 1) in
      let (e', ends, r') =
        drain_ends lut (event_lut-Progresses steps fifo_steps) fuel (place * 32) e r
          (λ j hj armed. omega (arith, not_before j hj armed)) (omega arith)
          (omega (arith, enough)) in
      (
        e',
        ends,
        λ i hi armed. (
          none_due e'.cm.events e'.cm.active_events e'.cm.cycle_count (find_due e'.cm)
              (drain-find_due lut fuel e e' ends) (find_due-Found e'.cm r'.mask r'.even r'.early) i
              hi armed,
          recompute_next_lem e'.cm r'.mask r'.even i hi armed,
        ),
      )
