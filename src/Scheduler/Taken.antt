-- ===== src/Scheduler/Taken.antt =====
-- The event that the dispatch loop takes: it is the first, and it leaves the mask.
use advanced_slop.Base.{
  ◌≢◌, ◌⊎◌, min, bit_and, leb, leb→le, ltb, ltb→lt, true, Bool-cases, ℕ, ◌-◌, ◌^◌, ◌<◌, ◌≤◌, ◌≡◌,
  refl, ap, arith, List, inl, inr, get_or, none, some,
}
use mathlib.Core.Path.{subst}
use advanced_slop.Base.Word.{u32_max}
use advanced_slop.Base.Table.{every, every_at}
use advanced_slop.Base.Digits.{
  digit, digit-le, digit-bit_and, digit-complement, digit-two_pow_self, complement,
}
use advanced_slop.Scheduler.{slot_mask}
use advanced_slop.Scheduler.Dispatch.{Best}
use advanced_slop.Scheduler.Earliest.{Found, IsSet31}

-- What is found is armed and due, and first in the order of due cycles and indices.
pub Found-first :
    (events : List ℕ) (active now : ℕ) (best : Best) (i : ℕ)
    → now < u32_max
    → best.0 ≡ some i
    → Found events active now 32 best
    → (i < 32)
      × IsSet31 active i
      × (best.1 ≤ now)
      × ((j : ℕ)
          → j < 32
          → IsSet31 active j
          → (best.1 < get_or events j 0) ⊎ ((best.1 ≡ get_or events j 0) × (i ≤ j)))
Found-first events active now (none, bound) i early n f = cc
Found-first events active now (some b, due) i early n f =
    let same : b ≡ i = cc in
    (
      subst (λ t. t < 32) same (f.0),
      subst (IsSet31 active) same (f.1),
      f.3,
      λ j hj armed. elim (Bool-cases (leb (get_or events j 0) now)) [
        | inl p ↦
            subst (λ t. (due < get_or events j 0) ⊎ ((due ≡ get_or events j 0) × (t ≤ j))) same
              (f.4 j hj armed (leb→le _ _ p))
        | inr p ↦ inl (ground (arith, f.3))
      ],
    )

pub Found-due :
    (events : List ℕ) (active now : ℕ) (best : Best) (i : ℕ)
    → best.0 ≡ some i
    → Found events active now 32 best
    → get_or events i 0 ≡ best.1
Found-due events active now (none, bound) i n f = cc
Found-due events active now (some b, due) i n f =
    let same : b ≡ i = cc in subst (λ t. get_or events t 0 ≡ due) same (f.2)

masks_checked : every 32 (λ i. ltb (slot_mask i) (2 ^ 32)) ≡ true
unfolding every
masks_checked = refl

-- The mask without the event that is taken: what is armed was armed before, and is not this event.
pub taken_armed :
    (active i j : ℕ)
    → i < 32
    → j < 32
    → IsSet31 (bit_and active (complement 32 (slot_mask i))) j
    → IsSet31 active j × (i ≢ j)
taken_armed active i j hi hj armed =
    let word : slot_mask i < 2 ^ 32 = ltb→lt _ _ (every_at 32 _ i masks_checked hi) in
    let off : digit (complement 32 (slot_mask i)) (31 - j) ≡ 1 - digit (slot_mask i) (31 - j) =
      digit-complement 32 (slot_mask i) (31 - j) word (omega arith) in
    let both : min (digit active (31 - j)) (1 - digit (slot_mask i) (31 - j)) ≡ 1 =
      omega (arith, armed, off, digit-bit_and active (complement 32 (slot_mask i)) (31 - j)) in
    (
      omega (arith, both, digit-le active (31 - j)),
      λ e. omega (
        arith,
        both,
        digit-two_pow_self (31 - j),
        ap (λ (t : ℕ). digit (slot_mask t) (31 - j)) e,
      ),
    )
