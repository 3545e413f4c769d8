-- ===== src/Interp/Alu/Finish.antt =====
-- Where a data processing result goes, and what the logical operations do to the flags.
use advanced_slop.Base.{
  ℕ, ◌+◌, ◌*◌, ◌/◌, ◌^◌, ◌<◌, ◌≡◌, ◌⊎◌, inl, inr, ap, refl, ◌∙◌, ◌-◌, length, arith, Bool, true,
  false, ◌==◌, of_bool, if◌then◌else◌, Bool-cases, bit_and, bit_or,
}
use advanced_slop.Base.Word.{has_bit, digit-two_pow}
use advanced_slop.Base.Digits.{
  digit, digit-le, complement, digit-bit_and, digit-bit_or, digit-complement, digit-shl_low,
  bit_and-shl, bit_and-low_mask, bit_or-shl, bit_and-le_right,
}
use advanced_slop.Interp.{Ctx, continue, branch, branch_return, set_reg, read_slot, cpsr}
use advanced_slop.Interp.Memory.Forms.{if-false}
use advanced_slop.Interp.Memory.Loop.{read-write_slot}
use advanced_slop.Interp.Flags.{set_nz, n_bit, z_bit}
use advanced_slop.Interp.Shifter.{ShiftForm}
use advanced_slop.Interp.Alu.{alu_finish, branch_target, restore_spsr}

-- In thumb state the target is the halfword of the result with bit 0 set, in ARM state its word.
abbrev pub resume_address : ℕ → ℕ → ℕ
resume_address status result = if has_bit status 5 then result / 2 * 2 + 1 else result / 4 * 4

branch_target_lem :
    (status result : ℕ)
    → result < 2 ^ 32
    → branch_target status result ≡ resume_address status result
unfolding branch_target
branch_target_lem status result word =
    let half : bit_and result (complement 32 1) ≡ result / 2 * 2 =
      bit_and-shl result (2 ^ 31 - 1) 1
      ∙ ap (λ (t : ℕ). t * 2) (bit_and-low_mask (result / 2) 31 ∙ omega (arith, word)) in
    let whole : bit_and result (complement 32 3) ≡ result / 4 * 4 =
      bit_and-shl result (2 ^ 30 - 1) 2
      ∙ ap (λ (t : ℕ). t * 4) (bit_and-low_mask (result / 4) 30 ∙ omega (arith, word)) in
    elim (Bool-cases (has_bit status 5)) [
      | inl p ↦ rw p (ap (λ (t : ℕ). bit_or t 1) half ∙ bit_or-shl 1 (result / 2) 1 (omega arith))
      | inr p ↦ rw p whole
    ]

abbrev pub rd_of : ℕ → ℕ
rd_of opcode = bit_and (opcode / 2 ^ 12) 0xf

module _ {R : Type 0} where
  finish_register :
      (form : ShiftForm) (mov : Bool) (opcode result : ℕ) (s : Bool) (ctx : Ctx R)
      → (rd_of opcode == 15) ≡ false
      → alu_finish form mov opcode result s ctx ≡ (set_reg (rd_of opcode) result ctx, continue 1)
  unfolding alu_finish
  finish_register form mov opcode result s ctx p = if-false _ _ _ p

  finish_pc :
      (form : ShiftForm) (mov : Bool) (opcode result : ℕ) (s : Bool) (ctx : Ctx R)
      → (rd_of opcode == 15) ≡ true
      → let (ctx', out) = alu_finish form mov opcode result s ctx in
        let target : ℕ = branch_target (cpsr ctx') result in
        (ctx' ≡ (if s then restore_spsr ctx else ctx))
        × ((out ≡ branch 1 target) ⊎ ((out ≡ branch_return 1 target) × (mov ≡ true) × (s ≡ false)))
  unfolding alu_finish
  finish_pc form mov opcode result s ctx p = ground (arith, p)

  -- For a result that is a word: a result for R15 leaves by a branch to it, to its halfword with
  -- bit 0 set if the new status (restored from SPSR if the flags are set, unchanged otherwise) is
  -- thumb state and to its word if not, and the branch is a return only for a `mov` that leaves the
  -- flags; any other result is written to its register and to no
  -- other slot (CPSR and SPSR are slots too), and execution goes on.
  pub alu_finish_lem :
      (form : ShiftForm) (mov : Bool) (opcode result : ℕ) (s : Bool) (ctx : Ctx R)
      → result < 2 ^ 32
      → length ctx.emu.regs.gp_regs ≡ 13
      → let (ctx', out) = alu_finish form mov opcode result s ctx in
        let target : ℕ = resume_address (cpsr ctx') result in
        (((rd_of opcode == 15) ≡ false)
          × ((j : ℕ)
              → j < 18
              → read_slot j ctx'.emu.regs
                ≡ (if rd_of opcode == j then result else read_slot j ctx.emu.regs))
          × (out ≡ continue 1))
        ⊎ (((rd_of opcode == 15) ≡ true)
            × (ctx' ≡ (if s then restore_spsr ctx else ctx))
            × ((out ≡ branch 1 target)
                ⊎ ((out ≡ branch_return 1 target) × (mov ≡ true) × (s ≡ false))))
  unfolding set_reg
  alu_finish_lem form mov opcode result s ctx word len =
      let small : rd_of opcode < 16 =
        omega (arith, bit_and-le_right 15 (opcode / 2 ^ 12) 15 (omega arith)) in
      elim (Bool-cases (rd_of opcode == 15)) [
        | inl p ↦
            let (kept, left) = finish_pc form mov opcode result s ctx p in
            inr (
              p,
              kept,
              rw
                  (← branch_target_lem (cpsr (alu_finish form mov opcode result s ctx).0) result
                    word)
                  left,
            )
        | inr p ↦ rw (finish_register form mov opcode result s ctx p) (
            inl (
              p,
              λ j hj.
                  read-write_slot (rd_of opcode) j result ctx.emu.regs len small
                    (omega (arith, hj)),
              refl,
            ))
      ]

-- The bits of `!(N_BIT | Z_BIT)`.
nz_kept :
    (k : ℕ)
    → k < 32
    → digit (complement 32 (n_bit + z_bit)) k ≡ (if k == 31 then 0 else if k == 30 then 0 else 1)
nz_kept k hk = ground (
  arith,
  digit-complement 32 (3 * 2 ^ 30) k (omega arith) hk,
  digit-shl_low 3 30 k,
  λ (e : k ≡ 31). ap (λ t. digit (3 * 2 ^ 30) t) e,
  λ (e : k ≡ 30). ap (λ t. digit (3 * 2 ^ 30) t) e,
)

-- In each bit of a word `set_nz` writes N from bit 31 of the result, Z from the test against zero, and nothing else.
pub digit-set_nz :
    (result status k : ℕ)
    → k < 32
    → digit (set_nz result status) k ≡ (
        if k == 31
        then digit result k
        else if k == 30
        then of_bool (result == 0)
        else digit status k)
unfolding set_nz
digit-set_nz result status k hk =
    let base : ℕ = bit_and status (complement 32 (n_bit + z_bit)) in
    ground (
      arith,
      digit-bit_or (bit_or base (bit_and result n_bit)) z_bit k,
      digit-bit_or base (bit_and result n_bit) k,
      digit-bit_and status (complement 32 (n_bit + z_bit)) k,
      digit-bit_and result n_bit k,
      nz_kept k hk,
      digit-two_pow 31 k,
      digit-two_pow 30 k,
      digit-le result k,
      digit-le status k,
    )
