-- ===== src/FixedFifo/Refines.antt =====
-- The operations of the ring are those of the list that it stands for.
use advanced_slop.Base.{
  ℕ, suc, ◌+◌, ◌-◌, ◌%◌, ◌^◌, ◌<◌, ◌≤◌, ◌≡◌, ◌≢◌, sym, ap, ap₂, ◌∙◌, arith, List, [], ◌∷◌, ◌++◌,
  length-set, get_or, get_or-set_self, set,
}
use native.Mathlib.Nat.{mod-eq_of_lt, mod-add-mod, mod-mod, mod-lt}
use advanced_slop.Base.Word.{u16}
use advanced_slop.FixedFifo.{FixedFifo, front, push_back, pop_front}
use advanced_slop.FixedFifo.Queue.{
  contents_from, contents, IsFifo, apart, contents_from-same, contents_from-set, contents_from-last,
}

module _ {ℓ} {A : Type ℓ} (size : ℕ) (zeroed : A) (small : size ≤ 2 ^ 15) (f : FixedFifo A)
    (h : IsFifo size zeroed f) where
  end_within : f.end < size
  end_within = rw h.ends (mod-lt (f.start + f.len) (omega (arith, h.start_within)))

  free_slot : f.len < size → (k : ℕ) → k < f.len → f.end ≢ (f.start + k) % size
  free_slot room k hk e = apart size f.start k f.len h.start_within hk room (sym e ∙ h.ends)

  -- A push on a well-formed queue of at most 2^15 slots that is not full appends to its list, and
  -- keeps it well-formed.
  pub contents-push_back :
      (v : A)
      → f.len < size
      → IsFifo size zeroed (push_back size v f)
        × (contents size zeroed (push_back size v f) ≡ contents size zeroed f ++ (v ∷ []))
  unfolding push_back contents
  contents-push_back v room =
      let count : u16 (f.len + 1) ≡ suc f.len = omega (arith, small, room) in
      let next : u16 (f.end + 1) ≡ f.end + 1 = omega (arith, small, end_within) in
      let ring' : List A = set f.fifo f.end v in
      (
        record {
          ring = length-set f.fifo f.end v ∙ h.ring;
          start_within = h.start_within;
          len_within = omega (arith, count, room);
          ends =
              ap (λ t. t % size) (next ∙ ap (λ t. t + 1) h.ends)
              ∙ (mod-add-mod (f.start + f.len) size 1 ∙ ap (λ t. t % size) (omega (arith, count)));
        },
        ap (λ n. contents_from size zeroed n f.start ring') count
            ∙ (contents_from-last size zeroed f.len f.start ring'
                ∙ ap₂ (λ xs x. xs ++ (x ∷ []))
                    (contents_from-set size zeroed f.len f.start f.end v f.fifo (free_slot room))
                    (ap (λ t. get_or ring' t zeroed) (sym h.ends)
                      ∙ get_or-set_self f.fifo f.end v zeroed (omega (arith, end_within, h.ring)))),
      )

  -- The front of a well-formed queue of at most 2^15 slots that is not empty is the head of its list,
  -- and a pop leaves the tail and a well-formed queue.
  pub contents-pop_front :
      0 < f.len
      → IsFifo size zeroed (pop_front size f)
        × (contents size zeroed f ≡ front size zeroed f ∷ contents size zeroed (pop_front size f))
  unfolding pop_front contents front
  contents-pop_front some_left =
      let count : u16 (f.len + 2 ^ 16 - 1) ≡ f.len - 1 =
        omega (arith, small, some_left, h.len_within) in
      let next : u16 (f.start + 1) ≡ f.start + 1 = omega (arith, small, h.start_within) in
      (
        record {
          ring = h.ring;
          start_within = mod-lt (u16 (f.start + 1)) (omega (arith, h.start_within));
          len_within = omega (arith, count, h.len_within);
          ends = h.ends ∙ sym (moved count next);
        },
        ap (λ n. contents_from size zeroed n f.start f.fifo) less_one
            ∙ ap₂ (λ x xs. x ∷ xs) (ap (λ t. get_or f.fifo t zeroed) (mod-eq_of_lt h.start_within))
                (ap (λ n. contents_from size zeroed n (f.start + 1) f.fifo) (sym count)
                  ∙ contents_from-same size zeroed (u16 (f.len + 2 ^ 16 - 1)) (f.start + 1)
                      (u16 (f.start + 1) % size) f.fifo
                      (ap (λ t. t % size) (sym next) ∙ sym (mod-mod (u16 (f.start + 1)) size))),
      )
    where
      less_one : f.len ≡ suc (f.len - 1)
      less_one = omega (arith, some_left)

      moved :
          u16 (f.len + 2 ^ 16 - 1) ≡ f.len - 1
          → u16 (f.start + 1) ≡ f.start + 1
          → (u16 (f.start + 1) % size + u16 (f.len + 2 ^ 16 - 1)) % size ≡ (f.start + f.len) % size
      moved count next =
          mod-add-mod (u16 (f.start + 1)) size (u16 (f.len + 2 ^ 16 - 1))
          ∙ ap (λ t. t % size) (omega (arith, count, next, some_left))
