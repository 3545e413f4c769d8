-- ===== src/Scheduler/Clock.antt =====
-- The invariant of the scheduler's state, and how the methods of `CycleManager` keep it.
use advanced_slop.Base.{
  ℕ, ◌+◌, ◌-◌, ◌^◌, ◌<◌, ◌≤◌, ◌≡◌, ◌≢◌, inl, inr, refl, arith, true, ◌==◌, ==_iff, Bool-cases, ltb,
  ltb→lt, get_or, length, length-set, get_or-set_self, get_or-set_ne, max, min,
}
use advanced_slop.Base.Word.{u32_max, digit-two_pow}
use advanced_slop.Base.Digits.{digit, digit-le, digit-zero, digit-bit_or, bit_or-lt}
use advanced_slop.Base.Table.{every, every_at}
use advanced_slop.Scheduler.{
  CycleManager, EventType, event_index, event_slots, slot_mask, arm, due_cycle, schedule,
  schedule_from_due, saturating_add, add_cycles, jump_to_next_event, new, schedule_imm,
  ImmEventType,
}

-- Slot `i` is armed.
abbrev pub IsArmed : CycleManager → ℕ → Type 0
IsArmed cm i = digit cm.active_events (31 - i) ≡ 1

-- There are seven slots, the mask of armed events is a word, and no armed event is due before the next check.
pub record IsValid (cm : CycleManager) : Type 0 where
  pub slots : length cm.events ≡ event_slots
  pub mask : cm.active_events < 2 ^ 32
  pub covered :
      (i : ℕ) → i < event_slots → IsArmed cm i → cm.next_event_cycle ≤ get_or cm.events i 0

event_index-lt : (e : EventType) → event_index e < event_slots
unfolding event_index
event_index-lt e = ground arith

masks_checked : every 7 (λ i. ltb (slot_mask i) (2 ^ 32)) ≡ true
unfolding every
masks_checked = refl

slot_mask-lt : (i : ℕ) → i < event_slots → slot_mask i < 2 ^ 32
slot_mask-lt i h = ltb→lt _ _ (every_at 7 _ i masks_checked h)

-- A slot is armed by its own write, or was before.
IsArmed-before :
    (cm : CycleManager) (i c j : ℕ)
    → i < event_slots
    → j < event_slots
    → i ≢ j
    → IsArmed (arm i c cm) j
    → IsArmed cm j
unfolding arm
IsArmed-before cm i c j hi hj ne armed = ground (
  arith,
  digit-bit_or cm.active_events (slot_mask i) (31 - j),
  digit-two_pow (31 - i) (31 - j),
  digit-le cm.active_events (31 - j),
)

arm-IsValid : {cm : CycleManager} (i c : ℕ) → i < event_slots → IsValid cm → IsValid (arm i c cm)
unfolding arm
arm-IsValid {cm} i c hi v = record {
  slots = ground (arith, length-set cm.events i c, v.slots);
  mask = bit_or-lt 32 cm.active_events (slot_mask i) v.mask (slot_mask-lt i hi);
  covered = λ j hj armed. elim (Bool-cases (i == j)) [
    | inl p ↦
        let e : i ≡ j = (==_iff i j).0 p in
        rw (← e, get_or-set_self cm.events i c 0 (omega (arith, v.slots))) (ground arith)
    | inr p ↦
        let ne : i ≢ j = λ e. cc ((==_iff i j).1 e) in
        let old : cm.next_event_cycle ≤ get_or cm.events j 0 =
          v.covered j hj (IsArmed-before cm i c j hi hj ne armed) in
        rw (get_or-set_ne cm.events i j c 0 ne) (ground arith)
  ];
}

-- The methods keep the scheduler's state valid, and a new one is valid: after each no armed event is due before
-- `next_event_cycle`, the cycle at which the events are next looked at.
pub methods-IsValid :
    {cm : CycleManager} (n : ℕ) (e : EventType) (imm : ImmEventType)
    → IsValid cm
    → IsValid new
      × IsValid (schedule n e cm)
      × IsValid (schedule_from_due n e cm)
      × IsValid (schedule_imm imm cm)
      × IsValid (add_cycles n cm)
      × IsValid (jump_to_next_event cm)
unfolding schedule schedule_from_due new schedule_imm add_cycles jump_to_next_event
methods-IsValid {cm} n e imm v = (
  record {
    slots = refl;
    mask = omega arith;
    covered = λ i hi armed. absurd (omega (arith, digit-zero (31 - i)));
  },
  arm-IsValid (event_index e) (due_cycle n cm.cycle_count) (event_index-lt e) v,
  arm-IsValid (event_index e) (saturating_add cm.current_event_due n) (event_index-lt e) v,
  record { slots = v.slots; mask = v.mask; covered = v.covered },
  record { slots = v.slots; mask = v.mask; covered = v.covered },
  jump_valid,
)
  where
    jump_valid : IsValid (jump_to_next_event cm)
    jump_valid = ground (arith, v.slots)

-- If the wait is a word and the clock is short of the last cycle, an event is never put in the past:
-- it is due when asked for, but at least one cycle ahead and not beyond the last cycle of a word.
pub due_cycle_lem :
    (in_cycles now : ℕ)
    → in_cycles < 2 ^ 32
    → now < u32_max
    → (now < due_cycle in_cycles now)
      × (due_cycle in_cycles now ≡ min (now + max in_cycles 1) u32_max)
unfolding due_cycle
due_cycle_lem in_cycles now small h = ground arith

-- Going to the next event never moves the clock back, and makes the event due.
pub jump_to_next_event_lem :
    (cm : CycleManager)
    → let cm' = jump_to_next_event cm in
      (cm'.cycle_count ≡ max cm.cycle_count cm.next_event_cycle)
      × (cm.cycle_count ≤ cm'.cycle_count)
      × (cm'.next_event_cycle ≤ cm'.cycle_count)
unfolding jump_to_next_event
jump_to_next_event_lem cm = ground arith
