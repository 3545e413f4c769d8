-- ===== src/Interp/Memory/Forms.antt =====
-- The block transfers of a stack, the memory that it needs, and the length of a block.
use advanced_slop.Base.{
  [], ◌∷◌, ◌*◌, ◌^◌, inl, inr, Bool-cases, ℕ, zero, suc, ◌+◌, ◌<◌, ◌≤◌, ◌≡◌, refl, ◌∙◌, arith, List,
  Bool, true, false, ◌&&◌, ◌||◌, ltb, leb, if◌then◌else◌, bit_and, length,
}
use advanced_slop.Base.Word.{has_bit}
use advanced_slop.Cpu.{ThreadRegs}
use advanced_slop.Emu.{Emu}
use advanced_slop.Interp.Memory.{Bus}
use advanced_slop.Interp.Memory.Block.{gather, count_ones, BlockForm}

pub if-false {ℓ} : {A : Type ℓ} (b : Bool) (x y : A) → b ≡ false → (if b then x else y) ≡ y
if-false b x y e = rw e refl

pub merge :
    (b c : Bool) (v s w x y : ℕ)
    → (b ≡ true → v ≡ x)
    → s ≡ (if c then w else y)
    → (c ≡ true → w ≡ x)
    → (if b then v else s) ≡ (if b || c then x else y)
merge true c v s w x y h k l = h refl
merge false true v s w x y h k l = k ∙ l refl
merge false false v s w x y h k l = k

pub drop_guards :
    (j : ℕ) (b : Bool) (x y : ℕ)
    → j < 16
    → (if leb 0 j && ltb j 16 && b then x else y) ≡ (if b then x else y)
drop_guards j b x y hj = ground arith

pub length-gather :
    (value : ℕ → ℕ) (reg_list left i : ℕ)
    → length (gather value reg_list left i) ≡ count_ones left i reg_list
unfolding gather count_ones
length-gather value reg_list zero i = refl
length-gather value reg_list (suc left) i =
    ground (arith, length-gather value reg_list left (i + 1))

pub count_ones-le : (left i x : ℕ) → count_ones left i x ≤ left
unfolding count_ones
count_ones-le zero i x = omega arith
count_ones-le (suc left) i x = ground (arith, count_ones-le left (i + 1) x)

-- `stmdb` and `ldmia`, with writeback.
abbrev pub push_form : BlockForm
push_form = record { pre = true; up = false; user = false; wb = true }

abbrev pub pop_form : BlockForm
pop_form = record { pre = false; up = true; user = false; wb = true }

-- A list of words.
unfoldable pub AreWords : List ℕ → Type 0
AreWords [] = Unit {0}
AreWords (v ∷ vs) = (v < 2 ^ 32) × AreWords vs

pub gather-AreWords :
    (value : ℕ → ℕ) (reg_list left i : ℕ)
    → ((j : ℕ) → j < i + left → has_bit reg_list j ≡ true → value j < 2 ^ 32)
    → AreWords (gather value reg_list left i)
unfolding gather AreWords
gather-AreWords value reg_list zero i words = tt
gather-AreWords value reg_list (suc left) i words =
    let rest : AreWords (gather value reg_list left (i + 1)) =
      gather-AreWords value reg_list left (i + 1) (λ j hj. words j (omega (arith, hj))) in
    elim (Bool-cases (has_bit reg_list i)) [
      | inl p ↦ rw p (words i (omega arith) p, rest)
      | inr p ↦ rw p rest
    ]

-- The region from `first` to before `end` is RAM: a block of words that is written inside it is read
-- back, whatever the registers hold by then, and the write leaves the registers alone.
pub record StoresBlocks {R : Type 0} (bus : Bus R) (first end : ℕ) : Type 0 where
  pub stored :
      (addr : ℕ) (values : List ℕ) (e : Emu R) (regs : ThreadRegs)
      → first ≤ addr
      → addr + length values * 4 ≤ end
      → AreWords values
      → let e' : Emu R = record (bus.write_multiple addr values e) { regs = regs } in
        bus.read_multiple addr (length values) e' ≡ (values, e')
  pub regs_kept :
      (addr : ℕ) (values : List ℕ) (e : Emu R)
      → first ≤ addr
      → addr + length values * 4 ≤ end
      → (bus.write_multiple addr values e).regs ≡ e.regs

abbrev pub list_of : ℕ → ℕ
list_of opcode = bit_and opcode 0xffff
