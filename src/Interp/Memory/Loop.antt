-- ===== src/Interp/Memory/Loop.antt =====
-- The loops of a block transfer: a load puts the values of a store where they were taken.
use advanced_slop.Base.{
  ℕ, zero, suc, ◌+◌, ◌<◌, ◌≡◌, ◌≢◌, inl, inr, refl, sym, ap, ◌∙◌, arith, Bool, true, false, ◌&&◌,
  ◌==◌, ltb, leb, if◌then◌else◌, Option, none, get_or, set, length, length-set, get_or-set_self,
  get_or-set_ne, Bool-cases,
}
use mathlib.Core.Path.{subst}
use advanced_slop.Base.Word.{has_bit}
use advanced_slop.Cpu.{ThreadRegs}
use advanced_slop.Interp.{Ctx, set_reg, read_slot, write_slot}
use advanced_slop.Interp.Memory.Block.{load_reg, scatter, gather}

pub read-write_slot :
    (i j v : ℕ) (r : ThreadRegs)
    → length r.gp_regs ≡ 13
    → i < 16
    → j < 18
    → read_slot j (write_slot i v r) ≡ (if i == j then v else read_slot j r)
unfolding read_slot write_slot
read-write_slot i j v r len hi hj = ground (
  arith,
  λ (h : i ≡ j). get_or-set_self r.gp_regs i v 0,
  ap (λ (t : ℕ). get_or (set r.gp_regs i v) t 0),
  λ (h : i ≢ j). get_or-set_ne r.gp_regs i j v 0 h,
)

pub length-write_slot :
    (i v : ℕ) (r : ThreadRegs) → length (write_slot i v r).gp_regs ≡ length r.gp_regs
unfolding write_slot
length-write_slot i v r = ground (arith, length-set r.gp_regs i v)

not_last :
    (reg_list i left : ℕ)
    → has_bit reg_list 15 ≡ false
    → has_bit reg_list i ≡ true
    → i + suc left ≡ 16
    → i < 15
not_last reg_list i left no_pc listed all =
    ground (arith, λ (h : 15 ≡ i). ap (has_bit reg_list) h, no_pc, listed)

module _ {R : Type 0} (in_user : ℕ → Bool) (value : ℕ → ℕ) (reg_list : ℕ) where
  -- What a load from register `i` on leaves, of the values that a store takes there.
  pub record Loaded (i : ℕ) (c : Ctx R) (out : Option ℕ × Ctx R) : Type 0 where
    pub no_target : out.0 ≡ none
    pub size : length out.1.emu.regs.gp_regs ≡ 13
    pub slots :
        (j : ℕ)
        → j < 18
        → read_slot j out.1.emu.regs
          ≡ (if leb i j && ltb j 16 && has_bit reg_list j then value j else read_slot j c.emu.regs)

  module _ (no_pc : has_bit reg_list 15 ≡ false) (no_user : (k : ℕ) → in_user k ≡ false) where
    load_reg_lem :
        (i v : ℕ) (c : Ctx R) → i < 15 → load_reg (in_user i) i v (none, c) ≡ (none, set_reg i v c)
    unfolding load_reg
    load_reg_lem i v c below = ground (arith, no_user i)

    set_reg-slot :
        (i j v : ℕ) (c : Ctx R)
        → length c.emu.regs.gp_regs ≡ 13
        → i < 16
        → j < 18
        → read_slot j (set_reg i v c).emu.regs ≡ (if i == j then v else read_slot j c.emu.regs)
    unfolding set_reg
    set_reg-slot i j v c len hi hj = read-write_slot i j v c.emu.regs len hi hj

    set_reg-size :
        (i v : ℕ) (c : Ctx R)
        → length c.emu.regs.gp_regs ≡ 13
        → length (set_reg i v c).emu.regs.gp_regs ≡ 13
    unfolding set_reg
    set_reg-size i v c len = length-write_slot i v c.emu.regs ∙ len

    scatter-listed :
        (left i : ℕ) (s : Option ℕ × Ctx R)
        → has_bit reg_list i ≡ true
        → scatter in_user reg_list (suc left) i (gather value reg_list (suc left) i) s
          ≡ scatter in_user reg_list left
              (i + 1)
              (gather value reg_list left (i + 1))
              (load_reg (in_user i) i (value i) s)
    unfolding scatter gather
    scatter-listed left i s listed = rw listed refl

    scatter-skipped :
        (left i : ℕ) (s : Option ℕ × Ctx R)
        → has_bit reg_list i ≡ false
        → scatter in_user reg_list (suc left) i (gather value reg_list (suc left) i) s
          ≡ scatter in_user reg_list left (i + 1) (gather value reg_list left (i + 1)) s
    unfolding scatter gather
    scatter-skipped left i s skipped = rw skipped refl

    Loaded-listed :
        (i : ℕ) (c : Ctx R) (out : Option ℕ × Ctx R)
        → length c.emu.regs.gp_regs ≡ 13
        → i < 16
        → has_bit reg_list i ≡ true
        → Loaded (i + 1) (set_reg i (value i) c) out
        → Loaded i c out
    Loaded-listed i c out len hi listed l = record {
      no_target = l.no_target;
      size = l.size;
      slots = λ j hj. ground (
        arith,
        l.slots j hj,
        set_reg-slot i j (value i) c len hi hj,
        λ (h : i ≡ j). ap value h,
        λ (h : i ≡ j). ap (has_bit reg_list) h,
        listed,
      );
    }

    Loaded-skipped :
        (i : ℕ) (c : Ctx R) (out : Option ℕ × Ctx R)
        → has_bit reg_list i ≡ false
        → Loaded (i + 1) c out
        → Loaded i c out
    Loaded-skipped i c out skipped l = record {
      no_target = l.no_target;
      size = l.size;
      slots = λ j hj. ground (arith, l.slots j hj, λ (h : i ≡ j). ap (has_bit reg_list) h, skipped);
    }

    pub scatter-gather :
        (left i : ℕ) (c : Ctx R)
        → i + left ≡ 16
        → length c.emu.regs.gp_regs ≡ 13
        → Loaded i c (scatter in_user reg_list left i (gather value reg_list left i) (none, c))
    unfolding scatter gather
    scatter-gather zero i c all len = record {
      no_target = refl;
      size = len;
      slots = λ j hj. ground arith;
    }
    scatter-gather (suc left) i c all len = elim (Bool-cases (has_bit reg_list i)) [
      | inl listed ↦
          let next : Ctx R = set_reg i (value i) c in
          let here : i < 15 = not_last reg_list i left no_pc listed all in
          subst (Loaded i c)
            (sym (
              scatter-listed left i (none, c) listed
              ∙ ap (scatter in_user reg_list left (i + 1) (gather value reg_list left (i + 1)))
                  (load_reg_lem i (value i) c here)))
            (Loaded-listed i c _ len (omega arith) listed (
              scatter-gather left (i + 1) next (omega (arith, all))
                (set_reg-size i (value i) c len)))
      | inr skipped ↦
          subst (Loaded i c) (sym (scatter-skipped left i (none, c) skipped))
            (Loaded-skipped i c _ skipped (scatter-gather left (i + 1) c (omega (arith, all)) len))
    ]
