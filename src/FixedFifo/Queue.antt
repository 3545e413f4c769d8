-- ===== src/FixedFifo/Queue.antt =====
-- The ring as a list: what it holds, from the front.
use advanced_slop.Base.{
  ℕ, zero, suc, ◌+◌, ◌-◌, ◌%◌, ◌<◌, ◌≤◌, ◌≡◌, ◌≢◌, ◌⊎◌, inl, inr, refl, sym, ap, ap₂, ◌∙◌, arith,
  List, [], ◌∷◌, ◌++◌, length, get_or, get_or-set_ne, set,
}
use native.Mathlib.Nat.{mod-eq_of_lt, mod-eq-sub-mod, mod-add-mod}
use advanced_slop.FixedFifo.{FixedFifo}

-- Positions of the ring that are less than its size apart differ.
wrap :
    (n i k : ℕ)
    → i < n
    → k < n
    → (((i + k) % n ≡ i + k) × (i + k < n)) ⊎ (((i + k) % n + n ≡ i + k) × (n ≤ i + k))
wrap n i k hi hk = elim (below_cases n (i + k)) [
  | inl below ↦ inl (mod-eq_of_lt below, below)
  | inr above ↦
      inr (
        omega (arith, above, mod-eq-sub-mod above, mod-eq_of_lt (rest_lt n i k hi hk above)),
        above,
      )
]
  where
    below_cases : (n x : ℕ) → (x < n) ⊎ (n ≤ x)
    below_cases n x = omega arith

    rest_lt : (n i k : ℕ) → i < n → k < n → n ≤ i + k → i + k - n < n
    rest_lt n i k hi hk above = omega arith

pub apart : (n i j k : ℕ) → i < n → j < k → k < n → (i + j) % n ≢ (i + k) % n
apart n i j k hi hj hk e = omega (arith, wrap n i j hi (omega arith), wrap n i k hi hk)

same_next : (n a b : ℕ) → a % n ≡ b % n → (a + 1) % n ≡ (b + 1) % n
same_next n a b e = sym (mod-add-mod a n 1) ∙ (ap (λ t. (t + 1) % n) e ∙ mod-add-mod b n 1)

module _ {ℓ} {A : Type ℓ} (size : ℕ) (zeroed : A) where
  -- `left` elements from position `i` on.
  unfoldable pub contents_from : ℕ → ℕ → List A → List A
  contents_from zero i ring = []
  contents_from (suc left) i ring = get_or ring (i % size) zeroed ∷ contents_from left (i + 1) ring

  -- The list that a queue stands for.
  unfoldable pub contents : FixedFifo A → List A
  unfolding contents_from
  contents f = contents_from f.len f.start f.fifo

  -- The ring is full-length, and its indices agree with each other.
  pub record IsFifo (f : FixedFifo A) : Type 0 where
    pub ring : length f.fifo ≡ size
    pub start_within : f.start < size
    pub len_within : f.len ≤ size
    pub ends : f.end ≡ (f.start + f.len) % size

  pub contents_from-same :
      (left a b : ℕ) (ring : List A)
      → a % size ≡ b % size
      → contents_from left a ring ≡ contents_from left b ring
  unfolding contents_from
  contents_from-same zero a b ring e = refl
  contents_from-same (suc left) a b ring e =
      ap₂ (λ x xs. x ∷ xs) (ap (λ t. get_or ring t zeroed) e)
        (contents_from-same left (a + 1) (b + 1) ring (same_next size a b e))

  pub contents_from-set :
      (left i j : ℕ) (v : A) (ring : List A)
      → ((k : ℕ) → k < left → j ≢ (i + k) % size)
      → contents_from left i (set ring j v) ≡ contents_from left i ring
  unfolding contents_from
  contents_from-set zero i j v ring h = refl
  contents_from-set (suc left) i j v ring h =
      ap₂ (λ x xs. x ∷ xs)
        (get_or-set_ne ring j (i % size) v zeroed
          (λ e. h 0 (omega arith) (e ∙ ap (λ t. t % size) (here i))))
        (contents_from-set left (i + 1) j v ring
          (λ k hk e. h (suc k) (omega arith) (e ∙ ap (λ t. t % size) (shifted i k))))
    where
      here : (i : ℕ) → i ≡ i + 0
      here i = omega arith

      shifted : (i k : ℕ) → i + 1 + k ≡ i + suc k
      shifted i k = omega arith

  pub contents_from-last :
      (left i : ℕ) (ring : List A)
      → contents_from (suc left) i ring
        ≡ contents_from left i ring ++ (get_or ring ((i + left) % size) zeroed ∷ [])
  unfolding contents_from
  contents_from-last zero i ring = ap (λ t. get_or ring (t % size) zeroed ∷ []) (here i)
    where
      here : (i : ℕ) → i ≡ i + 0
      here i = omega arith
  contents_from-last (suc left) i ring =
      ap (λ xs. get_or ring (i % size) zeroed ∷ xs)
        (contents_from-last left (i + 1) ring
          ∙ ap (λ t. contents_from left (i + 1) ring ++ (get_or ring (t % size) zeroed ∷ []))
              (shifted i left))
    where
      shifted : (i k : ℕ) → i + 1 + k ≡ i + suc k
      shifted i k = omega arith
