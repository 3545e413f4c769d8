-- ===== src/Scheduler/Progress.antt =====
-- What the dispatch loop of src/core/cycle_manager.rs needs of a handler: it moves forward in time.
use advanced_slop.Base.{
  ℕ, zero, suc, ◌-◌, ◌^◌, ◌%◌, ◌<◌, ◌≤◌, ◌≡◌, ◌≢◌, ◌⊎◌, inl, inr, refl, sym, ap, ◌∙◌, arith, List,
  [], ◌∷◌, true, ◌==◌, ==_iff, Bool-cases, ltb, ltb→lt, get_or, set, length, length-set,
  get_or-set_self, get_or-set_ne,
}
use mathlib.Core.Path.{subst}
use advanced_slop.Base.Table.{every, every_at}
use advanced_slop.Base.Word.{u32_max, digit-two_pow}
use advanced_slop.Base.Digits.{digit, digit-le, digit-bit_or, bit_or-lt}
use advanced_slop.Timers.{TimerChannel, default_channel}
use advanced_slop.Timers.Control.{channel, put_channel}
use advanced_slop.Scheduler.{
  EventType, event_index, event_slots, slot_mask, arm, schedule_from_due, saturating_add,
}
use advanced_slop.Scheduler.Earliest.{IsSet31}
use advanced_slop.Emu.{Emu}

-- The reload value of a channel is a halfword, and its period fits a word.
abbrev pub IsPaced : TimerChannel → Type 0
IsPaced c = (c.cnt_l < 2 ^ 16) × (c.current_shift < 16)

-- There are seven slots, the mask is a word without the last bit, the clock is short of its end, and
-- the timer channels are in range.
pub record IsReady {R : Type 0} (e : Emu R) : Type 0 where
  pub slots : length e.cm.events ≡ event_slots
  pub mask : e.cm.active_events < 2 ^ 32
  pub even : e.cm.active_events % 2 ≡ 0
  pub early : e.cm.cycle_count < u32_max
  pub paced : (n : ℕ) → IsPaced (channel n e)

-- From `e` to `e'` the clock and the due cycle of the event that is handled stay, and every armed
-- event was armed for the same cycle before or is due after the event that is handled.
pub record Advances {R : Type 0} (e e' : Emu R) : Type 0 where
  pub ready : IsReady e'
  pub clock : e'.cm.cycle_count ≡ e.cm.cycle_count
  pub handled : e'.cm.current_event_due ≡ e.cm.current_event_due
  pub later :
      (j : ℕ)
      → j < 32
      → IsSet31 e'.cm.active_events j
      → (IsSet31 e.cm.active_events j × (get_or e'.cm.events j 0 ≡ get_or e.cm.events j 0))
        ⊎ (e.cm.current_event_due < get_or e'.cm.events j 0)

module _ {R : Type 0} where
  -- A handler keeps the state in range and advances, called for an event that is due.
  abbrev pub Progresses : (Emu R → Emu R) → Type 0
  Progresses f =
      (e : Emu R) → IsReady e → e.cm.current_event_due ≤ e.cm.cycle_count → Advances e (f e)

  -- A step that leaves the scheduler's events and the timer channels alone.
  pub Advances-same :
      {e e' : Emu R}
      → IsReady e
      → e'.cm.cycle_count ≡ e.cm.cycle_count
      → e'.cm.current_event_due ≡ e.cm.current_event_due
      → e'.cm.events ≡ e.cm.events
      → e'.cm.active_events ≡ e.cm.active_events
      → ((n : ℕ) → IsPaced (channel n e'))
      → Advances e e'
  Advances-same {e} {e'} r clock handled events active paced = record {
    ready = record {
      slots = ap (λ (t : List ℕ). length t) events ∙ r.slots;
      mask = omega (arith, active, r.mask);
      even = ap (λ (t : ℕ). t % 2) active ∙ r.even;
      early = omega (arith, clock, r.early);
      paced = paced;
    };
    clock = clock;
    handled = handled;
    later = λ j hj armed.
        inl (subst (λ t. IsSet31 t j) active armed, ap (λ (t : List ℕ). get_or t j 0) events);
  }

  pub Advances-refl : {e : Emu R} → IsReady e → Advances e e
  Advances-refl {e} r = Advances-same r refl refl refl refl r.paced

  pub Advances-trans : {e e' e'' : Emu R} → Advances e e' → Advances e' e'' → Advances e e''
  Advances-trans {e} {e'} {e''} p q = record {
    ready = q.ready;
    clock = q.clock ∙ p.clock;
    handled = q.handled ∙ p.handled;
    later = λ j hj armed. elim (q.later j hj armed) [
      | inl (armed', same) ↦ elim (p.later j hj armed') [
        | inl (armed'', same') ↦ inl (armed'', same ∙ same')
        | inr after ↦ inr (omega (arith, same, after))
      ]
      | inr after ↦ inr (omega (arith, p.handled, after))
    ];
  }

  -- The next step, taken from where the last one has led.
  pub Advances-then :
      {e e' : Emu R} (f : Emu R → Emu R)
      → e.cm.current_event_due ≤ e.cm.cycle_count
      → Advances e e'
      → Progresses f
      → Advances e (f e')
  Advances-then {e} {e'} f due p steps =
      Advances-trans p (steps e' p.ready (omega (arith, due, p.clock, p.handled)))

get_or-set :
    (cs : List TimerChannel) (i j : ℕ) (v d : TimerChannel)
    → (get_or (set cs i v) j d ≡ v) ⊎ (get_or (set cs i v) j d ≡ get_or cs j d)
get_or-set [] i j v d = inr refl
get_or-set (c ∷ cs) zero zero v d = inl refl
get_or-set (c ∷ cs) zero (suc j) v d = inr refl
get_or-set (c ∷ cs) (suc i) zero v d = inr refl
get_or-set (c ∷ cs) (suc i) (suc j) v d = get_or-set cs i j v d

masks_checked : every 7 (λ i. ltb (slot_mask i) (2 ^ 32)) ≡ true
unfolding every
masks_checked = refl

event_index-lt : (e : EventType) → event_index e < event_slots
unfolding event_index
event_index-lt e = ground arith

module _ {R : Type 0} where
  pub Advances-put_channel :
      (n : ℕ) (c : TimerChannel)
      → IsPaced c
      → {e : Emu R} → IsReady e
      → Advances e (put_channel n c e)
  Advances-put_channel n c ok {e} r = Advances-same r refl refl refl refl λ m.
      elim (get_or-set e.timers n m c default_channel) [
        | inl p ↦ subst IsPaced (sym p) ok
        | inr p ↦ subst IsPaced (sym p) (r.paced m)
      ]

  -- An event that is armed for a later cycle.
  pub Advances-arm :
      (i c : ℕ)
      → i < event_slots
      → {e : Emu R} → IsReady e
      → e.cm.current_event_due < c
      → Advances e (record e { cm = arm i c e.cm })
  unfolding arm
  Advances-arm i c hi {e} r after =
      let small : slot_mask i < 2 ^ 32 = ltb→lt _ _ (every_at 7 _ i masks_checked hi) in
      let off : digit (slot_mask i) 0 ≡ 0 = ground (arith, hi, digit-two_pow (31 - i) 0) in
      record {
        ready = record {
          slots = length-set e.cm.events i c ∙ r.slots;
          mask = bit_or-lt 32 e.cm.active_events (slot_mask i) r.mask small;
          even = omega (arith, r.even, off, digit-bit_or e.cm.active_events (slot_mask i) 0);
          early = r.early;
          paced = r.paced;
        };
        clock = refl;
        handled = refl;
        later = λ j hj armed. elim (Bool-cases (i == j)) [
          | inl p ↦
              let same : i ≡ j = (==_iff i j).0 p in
              inr (
                subst (λ t. e.cm.current_event_due < get_or (set e.cm.events i c) t 0) same
                  (omega
                    (arith, after, get_or-set_self e.cm.events i c 0 (omega (arith, r.slots, hi)))))
          | inr p ↦
              let ne : i ≢ j = λ q. cc ((==_iff i j).1 q) in
              inl (
                ground (
                  arith,
                  ne,
                  digit-bit_or e.cm.active_events (slot_mask i) (31 - j),
                  digit-two_pow (31 - i) (31 - j),
                  digit-le e.cm.active_events (31 - j),
                ),
                get_or-set_ne e.cm.events i j c 0 ne,
              )
        ];
      }

  -- `schedule_from_due` puts an event after the one that is handled.
  pub schedule_from_due-Progresses :
      (n : ℕ) (event : EventType)
      → 1 ≤ n
      → Progresses (λ (e : Emu R). record e { cm = schedule_from_due n event e.cm })
  unfolding schedule_from_due
  schedule_from_due-Progresses n event wait e r due =
      Advances-arm (event_index event) (saturating_add e.cm.current_event_due n)
        (event_index-lt event) r (ground (arith, r.early))
