-- ===== src/Scheduler/Settled.antt =====
-- The scans of the dispatch loop find the first due event and the next cycle, and restarting the clock
-- keeps every distance.
use advanced_slop.Base.{
  ℕ, zero, suc, ◌+◌, ◌-◌, ◌^◌, ◌%◌, ◌<◌, ◌≤◌, ◌≡◌, refl, sym, ap, ◌∙◌, arith, List, [], ◌∷◌, ◌==◌,
  inl, inr, if◌then◌else◌, get_or, length, none,
}
use mathlib.Core.Path.{subst}
use advanced_slop.Base.Word.{wrapping_sub32, u32_max, has_bit_lem}
use advanced_slop.Base.Digits.{digit}
use advanced_slop.Scheduler.{CycleManager}
use advanced_slop.Scheduler.Scan.{scan_rule}
use advanced_slop.Scheduler.Dispatch.{
  better, find_due, earlier, recompute_next, rebase, rebase_events,
}
use advanced_slop.Scheduler.Earliest.{Found, IsSet31, Found-pass, Found-visit, below_suc}

-- For a mask that is an even word and a clock short of the last cycle, the scan of the dispatch loop
-- finds the armed event with the lowest due cycle among those that are due, on a tie the one with the
-- lowest index, and finds none only if none is due.
pub find_due-Found :
    (cm : CycleManager)
    → cm.active_events < 2 ^ 32
    → cm.active_events % 2 ≡ 0
    → cm.cycle_count < u32_max
    → Found cm.events cm.active_events cm.cycle_count 32 (find_due cm)
unfolding find_due
find_due-Found cm small even early =
    scan_rule (better cm.events cm.cycle_count) cm.active_events
      (λ k best. Found cm.events cm.active_events cm.cycle_count k best)
      (λ k best hk s f. Found-visit cm.events cm.active_events cm.cycle_count early k best hk s f)
      (λ k best hk s f. Found-pass cm.events cm.active_events cm.cycle_count early k best hk s f)
      (none, u32_max) small even (refl, λ i hi s. elim hi [ ])

-- The recomputed next cycle is not after any armed event.
pub recompute_next_lem :
    (cm : CycleManager)
    → cm.active_events < 2 ^ 32
    → cm.active_events % 2 ≡ 0
    → (i : ℕ) → i < 32
    → IsSet31 cm.active_events i
    → (recompute_next cm).next_event_cycle ≤ get_or cm.events i 0
unfolding recompute_next
recompute_next_lem cm small even =
    scan_rule (earlier cm.events) cm.active_events
      (λ k next. (i : ℕ) → i < k → IsSet31 cm.active_events i → next ≤ get_or cm.events i 0)
      (λ k next hk s f i hi si. earlier_le k next i hi (λ lt. f i lt si))
      (λ k next hk s f i hi si. passed k next i hi s si (λ lt. f i lt si)) cm.next_event_cycle small
      even (λ i hi s. elim hi [ ])
  where
    earlier_le :
        (k next i : ℕ)
        → i < suc k
        → (i < k → next ≤ get_or cm.events i 0)
        → earlier cm.events k next ≤ get_or cm.events i 0
    earlier_le k next i hi f = elim (below_suc i k hi) [
      | inl lt ↦ ground (arith, f lt)
      | inr e ↦ subst (λ j. earlier cm.events k next ≤ get_or cm.events j 0) (sym e) (ground arith)
    ]

    passed :
        (k next i : ℕ)
        → i < suc k
        → digit cm.active_events (31 - k) ≡ 0
        → IsSet31 cm.active_events i
        → (i < k → next ≤ get_or cm.events i 0)
        → next ≤ get_or cm.events i 0
    passed k next i hi clear si f = elim (below_suc i k hi) [
      | inl lt ↦ f lt
      | inr e ↦ absurd (omega (arith, si, clear, ap (λ (t : ℕ). digit cm.active_events (31 - t)) e))
    ]

rebase_events_at :
    (active now i : ℕ) (events : List ℕ) (j : ℕ)
    → j < length events
    → get_or (rebase_events active now i events) j 0 ≡ (
        if digit active (31 - (i + j)) == 1
        then wrapping_sub32 (get_or events j 0) now
        else get_or events j 0)
unfolding rebase_events
rebase_events_at active now i [] j h = elim h [ ]
rebase_events_at active now i (x ∷ xs) zero h =
    let place : i + 0 ≡ i = omega arith in rw (has_bit_lem active (31 - i), place)
rebase_events_at active now i (x ∷ xs) (suc j) h =
    let place : i + 1 + j ≡ i + suc j = omega arith in
    rw (← place) (rebase_events_at active now (i + 1) xs j (omega arith))

-- Restarting the clock at 0 keeps the distance from the clock to every armed event and to the next
-- check, when these are words and do not lie behind it; the slots that are not armed are left alone.
pub rebase_lem :
    (cm : CycleManager) (i : ℕ)
    → i < length cm.events
    → (digit cm.active_events (31 - i) ≡ 1 → cm.cycle_count ≤ get_or cm.events i 0)
    → cm.cycle_count ≤ cm.next_event_cycle
    → get_or cm.events i 0 < 2 ^ 32
    → cm.next_event_cycle < 2 ^ 32
    → ((rebase cm).cycle_count ≡ 0)
      × ((rebase cm).next_event_cycle + cm.cycle_count ≡ cm.next_event_cycle)
      × (get_or (rebase cm).events i 0
            + (if digit cm.active_events (31 - i) == 1 then cm.cycle_count else 0)
          ≡ get_or cm.events i 0)
unfolding rebase
rebase_lem cm i hi ahead next word word' =
    let at_i : get_or (rebase_events cm.active_events cm.cycle_count 0 cm.events) i 0 ≡ (
        if digit cm.active_events (31 - i) == 1
        then wrapping_sub32 (get_or cm.events i 0) cm.cycle_count
        else get_or cm.events i 0) =
      rebase_events_at cm.active_events cm.cycle_count 0 cm.events i hi
      ∙ ap
          (λ (t : ℕ).
            if digit cm.active_events (31 - t) == 1
            then wrapping_sub32 (get_or cm.events i 0) cm.cycle_count
            else get_or cm.events i 0)
          start in
    ground (arith, at_i)
  where
    start : 0 + i ≡ i
    start = omega arith
