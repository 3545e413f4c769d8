-- ===== src/FixedFifo.antt =====
-- src/fixed_fifo.rs: a queue in a ring of `size` slots. `zeroed` is what `mem::zeroed` makes of an
-- element.
pub mod Queue
pub mod Refines
use advanced_slop.Base.{
  ℕ, zero, suc, ◌+◌, ◌-◌, ◌*◌, ◌%◌, ◌^◌, List, [], ◌∷◌, Bool, ◌==◌, if◌then◌else◌, length, get_or,
  set, replicate,
}
use advanced_slop.Base.Word.{u16}

pub record FixedFifo {ℓ} (A : Type ℓ) : Type ℓ where
  pub start : ℕ
  pub len : ℕ
  pub end : ℕ
  pub fifo : List A

module _ {ℓ} {A : Type ℓ} (size : ℕ) (zeroed : A) where
  unfoldable pub new : FixedFifo A
  new = record { start = 0; len = 0; end = 0; fifo = replicate size zeroed }

  unfoldable pub front : FixedFifo A → A
  front f = get_or f.fifo f.start zeroed

  -- `index`
  unfoldable pub at : FixedFifo A → ℕ → A
  at f i = get_or f.fifo (u16 (i + f.start) % size) zeroed

module _ {ℓ} {A : Type ℓ} (size : ℕ) where
  unfoldable pub push_front : A → FixedFifo A → FixedFifo A
  push_front value f =
      let start : ℕ = (f.start + 2 ^ 16 - 1) % 2 ^ 16 % size in
      record f { start = start; fifo = set f.fifo start value; len = u16 (f.len + 1) }

  unfoldable pub push_back : A → FixedFifo A → FixedFifo A
  push_back value f = record f {
    fifo = set f.fifo f.end value;
    end = u16 (f.end + 1) % size;
    len = u16 (f.len + 1);
  }

  unfoldable pub pop_front_multiple : ℕ → FixedFifo A → FixedFifo A
  pop_front_multiple count f = record f {
    start = u16 (f.start + count) % size;
    len = u16 (f.len + 2 ^ 16 - count);
  }

  unfoldable pub pop_front : FixedFifo A → FixedFifo A
  pop_front f = record f { start = u16 (f.start + 1) % size; len = u16 (f.len + 2 ^ 16 - 1) }

  -- The loop of `push_back_multiple`, from element `i` on.
  unfoldable pub write_from : ℕ → ℕ → List A → List A → List A
  write_from end i [] fifo = fifo
  write_from end i (v ∷ vs) fifo = write_from end (i + 1) vs (set fifo (u16 (end + u16 i) % size) v)

  unfoldable pub push_back_multiple : List A → FixedFifo A → FixedFifo A
  unfolding write_from
  push_back_multiple values f = record f {
    end = u16 (f.end + u16 (length values)) % size;
    len = u16 (f.len + u16 (length values));
    fifo = write_from f.end 0 values f.fifo;
  }

  unfoldable pub is_full : FixedFifo A → Bool
  is_full f = f.len == size

module _ {ℓ} {A : Type ℓ} where
  unfoldable pub is_empty : FixedFifo A → Bool
  is_empty f = f.len == 0

  unfoldable pub clear : FixedFifo A → FixedFifo A
  clear f = record f { len = 0; start = 0; end = 0 }
