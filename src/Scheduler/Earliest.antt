-- ===== src/Scheduler/Earliest.antt =====
-- The dispatch loop takes due events in the order of their cycles, and leaves none behind.
use advanced_slop.Base.{
  ℕ, suc, ◌-◌, ◌<◌, ◌≤◌, ◌≡◌, ◌⊎◌, inl, inr, refl, sym, ap, arith, List, Bool, true, false, ◌&&◌,
  ◌==◌, ==_iff, Bool-cases, ltb, leb, get_or, none, some,
}
use mathlib.Core.Path.{subst}
use advanced_slop.Base.Word.{u32_max}
use advanced_slop.Base.Digits.{digit}
use advanced_slop.Scheduler.Dispatch.{Best, better}

-- Position `i` of a mask is set.
abbrev pub IsSet31 : ℕ → ℕ → Type 0
IsSet31 active i = digit active (31 - i) ≡ 1

-- What a scan of the positions below `k` has found. A due event has `events[i] ≤ now`.
abbrev pub Found : List ℕ → ℕ → ℕ → ℕ → Best → Type 0
Found events active now k (none, bound) =
    (bound ≡ u32_max) × ((i : ℕ) → i < k → IsSet31 active i → now < get_or events i 0)
Found events active now k (some b, due) =
    (b < k)
    × IsSet31 active b
    × (get_or events b 0 ≡ due)
    × (due ≤ now)
    × ((i : ℕ)
        → i < k
        → IsSet31 active i
        → get_or events i 0 ≤ now
        → (due < get_or events i 0) ⊎ ((due ≡ get_or events i 0) × (b ≤ i)))

pub below_suc : (i k : ℕ) → i < suc k → (i < k) ⊎ (i ≡ k)
below_suc i k h = elim (Bool-cases (i == k)) [
  | inl p ↦ inr ((==_iff i k).0 p)
  | inr p ↦ inl (ground arith)
]

order_split : (a c b i : ℕ) → a ≤ c → b ≤ i → (a < c) ⊎ ((a ≡ c) × (b ≤ i))
order_split a c b i le hb = elim (Bool-cases (a == c)) [
  | inl p ↦ inr ((==_iff a c).0 p, hb)
  | inr p ↦ inl (ground arith)
]

one_ne_zero : {d : ℕ} → d ≡ 1 → d ≡ 0 → ⊥
one_ne_zero p q = omega arith

-- The test of `better`.
better_means : (c now bound : ℕ) → (leb c now && ltb c bound) ≡ true → (c ≤ now) × (c < bound)
better_means c now bound h = ground arith

not_better_none :
    (c now bound : ℕ)
    → now < u32_max
    → bound ≡ u32_max
    → (leb c now && ltb c bound) ≡ false
    → now < c
not_better_none c now bound early e h = ground arith

not_better_some : (c now due : ℕ) → c ≤ now → (leb c now && ltb c due) ≡ false → due ≤ c
not_better_some c now due d h = ground arith

module _ (events : List ℕ) (active now : ℕ) (early : now < u32_max) where
  abbrev is_better : ℕ → Best → Bool
  is_better k best = leb (get_or events k 0) now && ltb (get_or events k 0) best.1

  -- One more position, which is not the earliest due event.
  keep_none :
      (k bound : ℕ)
      → (IsSet31 active k → now < get_or events k 0)
      → Found events active now k (none, bound)
      → Found events active now (suc k) (none, bound)
  keep_none k bound at_k f = (
    f.0,
    λ i hi s. elim (below_suc i k hi) [
      | inl lt ↦ f.1 i lt s
      | inr e ↦ subst (λ j. now < get_or events j 0) (sym e) (at_k (subst (IsSet31 active) e s))
    ],
  )

  keep_some :
      (k b due : ℕ)
      → (IsSet31 active k → get_or events k 0 ≤ now → due ≤ get_or events k 0)
      → Found events active now k (some b, due)
      → Found events active now (suc k) (some b, due)
  keep_some k b due at_k f = (
    omega (arith, f.0),
    f.1,
    f.2,
    f.3,
    λ i hi s d. elim (below_suc i k hi) [
      | inl lt ↦ f.4 i lt s d
      | inr e ↦
          let le : due ≤ get_or events i 0 =
            subst (λ j. get_or events j 0 ≤ now → due ≤ get_or events j 0) (sym e)
              (at_k (subst (IsSet31 active) e s)) d in
          order_split due (get_or events i 0) b i le (omega (arith, f.0))
    ],
  )

  -- The new position is due before all found so far.
  take_new :
      (k : ℕ) (best : Best)
      → IsSet31 active k
      → get_or events k 0 ≤ now
      → get_or events k 0 < best.1
      → Found events active now k best
      → Found events active now (suc k) (some k, get_or events k 0)
  take_new k (none, bound) armed due lt f = (
    omega arith,
    armed,
    refl,
    due,
    λ i hi s d. elim (below_suc i k hi) [
      | inl less ↦ absurd (omega (arith, f.1 i less s))
      | inr e ↦ inr (ap (λ j. get_or events j 0) (sym e), omega (arith, e))
    ],
  )
  take_new k (some b, due') armed due lt f = (
    omega arith,
    armed,
    refl,
    due,
    λ i hi s d. elim (below_suc i k hi) [
      | inl less ↦ elim (f.4 i less s d) [
        | inl before ↦ inl (omega arith)
        | inr same ↦ inl (omega (arith, same.0))
      ]
      | inr e ↦ inr (ap (λ j. get_or events j 0) (sym e), omega (arith, e))
    ],
  )

  pub Found-pass :
      (k : ℕ) (best : Best)
      → k < 32
      → digit active (31 - k) ≡ 0
      → Found events active now k best
      → Found events active now (suc k) best
  Found-pass k (none, bound) hk clear f = keep_none k bound (λ s. absurd (one_ne_zero s clear)) f
  Found-pass k (some b, due) hk clear f = keep_some k b due (λ s d. absurd (one_ne_zero s clear)) f

  pub Found-visit :
      (k : ℕ) (best : Best)
      → k < 32
      → IsSet31 active k
      → Found events active now k best
      → Found events active now (suc k) (better events now k best)
  unfolding better
  Found-visit k best hk armed f = elim (Bool-cases (is_better k best)) [
    | inl p ↦
        let h : (get_or events k 0 ≤ now) × (get_or events k 0 < best.1) =
          better_means (get_or events k 0) now best.1 p in
        rw p (take_new k best armed h.0 h.1 f)
    | inr p ↦ rw p (keep best f p)
  ]
    where
      keep :
          (bst : Best)
          → Found events active now k bst
          → is_better k bst ≡ false
          → Found events active now (suc k) bst
      keep (none, bound) g q =
          keep_none k bound (λ s. not_better_none (get_or events k 0) now bound early (g.0) q) g
      keep (some b, due) g q =
          keep_some k b due (λ s d. not_better_some (get_or events k 0) now due d q) g
