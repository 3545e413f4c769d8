-- ===== src/Interp/Memory/Stack.antt =====
-- A block of registers that is pushed and popped again.
use advanced_slop.Base.{
  ℕ, ◌≤◌, ◌+◌, ◌*◌, ◌/◌, ◌^◌, ◌<◌, ◌≡◌, refl, sym, ap, ap₂, ◌∙◌, arith, List, Bool, true, false,
  not, ◌||◌, ◌==◌, if◌then◌else◌, Option, none, length, ==_iff,
}
use advanced_slop.Base.Word.{u32, wrapping_sub32, has_bit}
use advanced_slop.Base.Digits.{bit_and-le_right}
use advanced_slop.Cpu.{ThreadRegs}
use advanced_slop.Emu.{Emu}
use advanced_slop.Interp.{Ctx, InstResult, continue, continue_store, reg, set_reg, read_slot}
use advanced_slop.Interp.Memory.{Bus, rn_of, write_back}
use advanced_slop.Interp.Memory.Block.{
  scatter, gather, stored_value, count_ones, lowest, finish_load, ldm, stm, ldm_stm, load_values,
}
use advanced_slop.Interp.Memory.Loop.{read-write_slot, scatter-gather}
use advanced_slop.Interp.Memory.Forms.{
  if-false, merge, drop_guards, length-gather, count_ones-le, push_form, pop_form, StoresBlocks,
  AreWords, gather-AreWords, list_of,
}

module _ {R : Type 0} (bus : Bus R) (opcode : ℕ) (ctx : Ctx R) where
  abbrev base : ℕ
  base = reg ctx (rn_of opcode)

  abbrev count : ℕ
  count = count_ones 16 0 (list_of opcode)

  abbrev bytes : ℕ
  bytes = count * 4

  abbrev value_at : ℕ → ℕ
  value_at =
      stored_value push_form (rn_of opcode) (list_of opcode) (wrapping_sub32 base bytes) false ctx

  abbrev values : List ℕ
  values = gather value_at (list_of opcode) 16 0

  abbrev written : Emu R
  written = bus.write_multiple (wrapping_sub32 base bytes) values ctx.emu

  pushed_lem :
      (list_of opcode == 0) ≡ false
      → ldm_stm bus false push_form opcode ctx ≡ (
        set_reg (rn_of opcode) (wrapping_sub32 base bytes) (record ctx { emu = written }),
        continue_store (count + 1),
      )
  unfolding ldm_stm stm lowest
  pushed_lem listed = if-false _ _ _ listed

  -- The pop in a machine that has other registers by then.
  module _ (inst_addr : ℕ) (regs : ThreadRegs) where
    abbrev later : Ctx R
    later = record { emu = record written { regs = regs }; inst_addr = inst_addr }

    abbrev loaded : Option ℕ × Ctx R
    loaded = scatter (λ i. false) (list_of opcode) 16 0 values (none, later)

    ldm_step :
        (list_of opcode == 0) ≡ false
        → ldm_stm bus true pop_form opcode later
          ≡ load_values pop_form
              (rn_of opcode)
              (list_of opcode)
              count
              later
              (bus.read_multiple (reg later (rn_of opcode)) count later.emu)
    unfolding ldm_stm ldm lowest
    ldm_step listed = if-false _ _ _ listed

    -- The two uses of the memory: the write keeps the registers, and the block is read back.
    abbrev IsKept : Type 0
    IsKept = written.regs ≡ ctx.emu.regs

    abbrev IsStored : Type 0
    IsStored =
        bus.read_multiple (wrapping_sub32 base bytes) (length values) later.emu
        ≡ (values, later.emu)

    read_step :
        IsStored
        → reg later (rn_of opcode) ≡ wrapping_sub32 base bytes
        → bus.read_multiple (reg later (rn_of opcode)) count later.emu ≡ (values, later.emu)
    read_step stored at =
        ap₂ (λ a n. bus.read_multiple a n later.emu) at
          (sym (length-gather value_at (list_of opcode) 16 0))
        ∙ stored

    values_step :
        has_bit (list_of opcode) (rn_of opcode) ≡ false
        → reg later (rn_of opcode) ≡ wrapping_sub32 base bytes
        → load_values pop_form (rn_of opcode) (list_of opcode) count later (values, later.emu)
          ≡ finish_load pop_form (rn_of opcode) (count + 2) (
            loaded.0,
            set_reg (rn_of opcode) (u32 (wrapping_sub32 base bytes + bytes)) (loaded.1),
          )
    unfolding load_values
    values_step no_base at =
        ap₂
          (λ (b : Bool) (x : ℕ).
            finish_load pop_form (rn_of opcode) (count + 2)
              (loaded.0, write_back (not b) (rn_of opcode) (u32 (x + bytes)) (loaded.1)))
          no_base at

    later_base :
        (rn_of opcode == 15) ≡ false → reg later (rn_of opcode) ≡ read_slot (rn_of opcode) regs
    unfolding reg
    later_base not_pc = if-false _ _ _ not_pc

    popped_lem :
        IsStored
        → (list_of opcode == 0) ≡ false
        → has_bit (list_of opcode) (rn_of opcode) ≡ false
        → reg later (rn_of opcode) ≡ wrapping_sub32 base bytes
        → ldm_stm bus true pop_form opcode later
          ≡ finish_load pop_form (rn_of opcode) (count + 2) (
            loaded.0,
            set_reg (rn_of opcode) (u32 (wrapping_sub32 base bytes + bytes)) (loaded.1),
          )
    popped_lem stored listed no_base at =
        ldm_step listed
        ∙ (ap (load_values pop_form (rn_of opcode) (list_of opcode) count later)
              (read_step stored at)
            ∙ values_step no_base at)

    value_at_lem :
        (j : ℕ)
        → has_bit (list_of opcode) 15 ≡ false
        → has_bit (list_of opcode) (rn_of opcode) ≡ false
        → has_bit (list_of opcode) j ≡ true
        → value_at j ≡ read_slot j ctx.emu.regs
    unfolding stored_value reg
    value_at_lem j no_pc no_base listed = ground (
      arith,
      no_pc,
      no_base,
      listed,
      λ (h : j ≡ 15). ap (has_bit (list_of opcode)) h,
      λ (h : j ≡ rn_of opcode). ap (has_bit (list_of opcode)) h,
    )

    -- The registers when the loop of the load is over and the base is written back.
    popped_slot :
        (j : ℕ)
        → has_bit (list_of opcode) 15 ≡ false
        → has_bit (list_of opcode) (rn_of opcode) ≡ false
        → (rn_of opcode == 15) ≡ false
        → rn_of opcode < 16
        → base < 2 ^ 32
        → length regs.gp_regs ≡ 13
        → j < 16
        → read_slot j
            (set_reg (rn_of opcode) (u32 (wrapping_sub32 base bytes + bytes)) (loaded.1)).emu.regs
          ≡ (if rn_of opcode == j || has_bit (list_of opcode) j
              then read_slot j ctx.emu.regs
              else read_slot j regs)
    unfolding set_reg reg
    popped_slot j no_pc no_base not_pc small word len hj =
        let l =
          scatter-gather (λ i. false) value_at (list_of opcode) no_pc (λ k. refl) 16 0 later
            (omega arith) len in
        let back : u32 (wrapping_sub32 base bytes + bytes) ≡ base =
          omega (arith, word, count_ones-le 16 0 (list_of opcode)) in
        let r : ThreadRegs = ctx.emu.regs in
        let base_slot : (rn_of opcode == j) ≡ true
            → u32 (wrapping_sub32 base bytes + bytes) ≡ read_slot j r =
          λ e.
            back
            ∙ (if-false _ _ _ not_pc ∙ ap (λ t. read_slot t r) ((==_iff (rn_of opcode) j).0 e)) in
        read-write_slot (rn_of opcode) j (u32 (wrapping_sub32 base bytes + bytes))
          (loaded.1.emu.regs) l.size small (omega arith)
        ∙ merge (rn_of opcode == j) (has_bit (list_of opcode) j) _ _ (value_at j) _ _ base_slot
            (l.slots j (omega arith) ∙ drop_guards j _ _ _ hj) (value_at_lem j no_pc no_base)

    abbrev popped : Ctx R
    popped = set_reg (rn_of opcode) (u32 (wrapping_sub32 base bytes + bytes)) (loaded.1)

    finish_step :
        has_bit (list_of opcode) 15 ≡ false
        → length regs.gp_regs ≡ 13
        → finish_load pop_form (rn_of opcode) (count + 2) (loaded.0, popped)
          ≡ (popped, continue (count + 2))
    unfolding finish_load
    finish_step no_pc len =
        let l =
          scatter-gather (λ i. false) value_at (list_of opcode) no_pc (λ k. refl) 16 0 later
            (omega arith) len in
        ap (λ t. finish_load pop_form (rn_of opcode) (count + 2) (t, popped)) l.no_target

    -- The machine before the pop, from the outcome of the push.
    abbrev before_pop : Ctx R × InstResult → Ctx R
    before_pop (pushed, out) = record {
      emu = record (pushed.emu) { regs = regs };
      inst_addr = inst_addr;
    }

    before_pop_lem :
        (list_of opcode == 0) ≡ false → before_pop (ldm_stm bus false push_form opcode ctx) ≡ later
    unfolding set_reg
    before_pop_lem listed = ap before_pop (pushed_lem listed)

    pushed_base :
        IsKept
        → (list_of opcode == 0) ≡ false
        → rn_of opcode < 16
        → length ctx.emu.regs.gp_regs ≡ 13
        → read_slot (rn_of opcode) (ldm_stm bus false push_form opcode ctx).0.emu.regs
          ≡ wrapping_sub32 base bytes
    unfolding set_reg
    pushed_base kept listed small len =
        let rn : ℕ = rn_of opcode in
        let fb : ℕ = wrapping_sub32 base bytes in
        ap (λ t. read_slot rn t.0.emu.regs) (pushed_lem listed)
        ∙ (read-write_slot rn rn fb written.regs
              (ap (λ (t : ThreadRegs). length t.gp_regs) kept ∙ len) small (omega (arith, small))
            ∙ ap (λ b. if b then fb else read_slot rn written.regs) ((==_iff rn rn).1 refl))

    base_word :
        (rn_of opcode == 15) ≡ false
        → rn_of opcode < 16
        → ((i : ℕ) → i < 16 → read_slot i ctx.emu.regs < 2 ^ 32)
        → base < 2 ^ 32
    unfolding reg
    base_word not_pc small words =
        let same : base ≡ read_slot (rn_of opcode) ctx.emu.regs = if-false _ _ _ not_pc in
        omega (arith, same, words (rn_of opcode) small)

    values-AreWords :
        has_bit (list_of opcode) 15 ≡ false
        → has_bit (list_of opcode) (rn_of opcode) ≡ false
        → ((i : ℕ) → i < 16 → read_slot i ctx.emu.regs < 2 ^ 32)
        → AreWords values
    values-AreWords no_pc no_base words =
        gather-AreWords value_at (list_of opcode) 16 0 λ i hi listed.
          omega (arith, value_at_lem i no_pc no_base listed, words i (omega (arith, hi)))

    -- A push is undone by a pop with the same list: if the block lies in a region of RAM, for a list
    -- that has neither PC nor the base register, for registers that are words, and for a base
    -- register that, at the pop, is as the push left it, the pop returns the listed registers and the
    -- base to what they were before the push, whatever has become of the registers, and leaves the
    -- others.
    pub pop-push :
        (j first end : ℕ)
        → StoresBlocks bus first end
        → first ≤ wrapping_sub32 base bytes
        → wrapping_sub32 base bytes + bytes ≤ end
        → (list_of opcode == 0) ≡ false
        → has_bit (list_of opcode) 15 ≡ false
        → has_bit (list_of opcode) (rn_of opcode) ≡ false
        → (rn_of opcode == 15) ≡ false
        → ((i : ℕ) → i < 16 → read_slot i ctx.emu.regs < 2 ^ 32)
        → length ctx.emu.regs.gp_regs ≡ 13
        → length regs.gp_regs ≡ 13
        → read_slot (rn_of opcode) regs
          ≡ read_slot (rn_of opcode) (ldm_stm bus false push_form opcode ctx).0.emu.regs
        → j < 16
        → let pushed : Ctx R = (ldm_stm bus false push_form opcode ctx).0 in
          let before : Ctx R = record {
            emu = record (pushed.emu) { regs = regs };
            inst_addr = inst_addr;
          } in
          let (after, out) = ldm_stm bus true pop_form opcode before in
          (out ≡ continue (count_ones 16 0 (list_of opcode) + 2))
          × (read_slot j after.emu.regs ≡ (
              if rn_of opcode == j || has_bit (list_of opcode) j
              then read_slot j ctx.emu.regs
              else read_slot j regs))
    pop-push j first end laws above below listed no_pc no_base not_pc words len_before len at hj =
        let rn : ℕ = rn_of opcode in
        let small : rn < 16 =
          omega (arith, bit_and-le_right 15 (opcode / 2 ^ 16) 15 (omega arith)) in
        let word : base < 2 ^ 32 = base_word not_pc small words in
        let fits : wrapping_sub32 base bytes + length values * 4 ≤ end =
          omega (arith, length-gather value_at (list_of opcode) 16 0, below) in
        let kept : IsKept = laws.regs_kept (wrapping_sub32 base bytes) values ctx.emu above fits in
        let stored : IsStored =
          laws.stored (wrapping_sub32 base bytes) values ctx.emu regs above fits
            (values-AreWords no_pc no_base words) in
        let at_base : reg later rn ≡ wrapping_sub32 base bytes =
          later_base not_pc ∙ (at ∙ pushed_base kept listed small len_before) in
        let all : ldm_stm bus true pop_form opcode
              (before_pop (ldm_stm bus false push_form opcode ctx))
            ≡ (popped, continue (count + 2)) =
          ap (ldm_stm bus true pop_form opcode) (before_pop_lem listed)
          ∙ (popped_lem stored listed no_base at_base ∙ finish_step no_pc len) in
        (
          ap (λ t. t.1) all,
          ap (λ t. read_slot j t.0.emu.regs) all
              ∙ popped_slot j no_pc no_base not_pc small word len hj,
        )
