-- ===== src/Interp/ThumbBranch.antt =====
-- The thumb branches of src/jit/interpreter/thumb_branch.rs.
pub mod Taken
use advanced_slop.Base.{
  ℕ, ◌+◌, ◌-◌, ◌*◌, ◌/◌, ◌%◌, ◌^◌, Bool, not, ◌&&◌, ◌||◌, ◌==◌, ltb, if◌then◌else◌, bit_and, bit_or,
  bit_xor,
}
use advanced_slop.Base.Word.{u16, u32, has_bit}
use advanced_slop.Base.Digits.{complement}
use advanced_slop.Interp.{
  Ctx, InstResult, continue, branch, branch_link, branch_return, reg_t, reg, set_reg, cpsr,
}
use advanced_slop.Interp.Shifter.{sar}

pub data BranchCond : Type 0 where
  beq bne bcs bcc bmi bpl bvs bvc bhi bls bge blt bgt ble : BranchCond

-- `(c ^ (c << 3)) & N_BIT != 0`
abbrev pub n_differs_v : ℕ → Bool
n_differs_v c = has_bit (bit_xor c (u32 (c * 2 ^ 3))) 31

-- The tests of `def_bcond!`.
unfoldable pub taken : BranchCond → ℕ → Bool
taken beq c = has_bit c 30
taken bne c = not (has_bit c 30)
taken bcs c = has_bit c 29
taken bcc c = not (has_bit c 29)
taken bmi c = has_bit c 31
taken bpl c = not (has_bit c 31)
taken bvs c = has_bit c 28
taken bvc c = not (has_bit c 28)
taken bhi c = has_bit c 29 && not (has_bit c 30)
taken bls c = not (has_bit c 29) || has_bit c 30
taken bge c = not (n_differs_v c)
taken blt c = n_differs_v c
taken bgt c = not (has_bit c 30) && not (n_differs_v c)
taken ble c = has_bit c 30 || n_differs_v c

-- A signed number of `w` bits as a word.
abbrev pub extend : ℕ → ℕ → ℕ
extend w x = if ltb x (2 ^ (w - 1)) then x else x + (2 ^ 32 - 2 ^ w)

unfoldable pub branch_offset_t : ℕ → ℕ
unfolding sar
branch_offset_t opcode = sar (extend 16 (u16 (opcode * 2 ^ 5))) 4

module _ {R : Type 0} where
  unfoldable pub bcond_t : BranchCond → ℕ → Ctx R → Ctx R × InstResult
  unfolding taken
  bcond_t cond opcode ctx =
      let target : ℕ = u32 (u32 (ctx.inst_addr + 4) + u32 (extend 8 (opcode % 2 ^ 8) * 2)) in
      if taken cond (cpsr ctx) then (ctx, branch 1 (bit_or target 1)) else (ctx, continue 1)

  unfoldable pub b_t : ℕ → Ctx R → Ctx R × InstResult
  unfolding branch_offset_t
  b_t opcode ctx =
      let target : ℕ = u32 (u32 (ctx.inst_addr + 4) + branch_offset_t opcode) in
      (ctx, branch 1 (bit_or target 1))

  unfoldable pub bl_setup_t : ℕ → Ctx R → Ctx R × InstResult
  unfolding branch_offset_t
  bl_setup_t opcode ctx =
      let lr : ℕ = u32 (u32 (ctx.inst_addr + 4) + u32 (branch_offset_t opcode * 2 ^ 11)) in
      (set_reg 14 lr ctx, continue 1)

  unfoldable pub bl_off_t : ℕ → Ctx R → Ctx R × InstResult
  bl_off_t opcode ctx =
      let target : ℕ = u32 (reg ctx 14 + bit_and opcode 0x7ff * 2) in
      let lr : ℕ = bit_or (u32 (ctx.inst_addr + 2)) 1 in
      (set_reg 14 lr ctx, branch_link 1 (bit_or (bit_and target (complement 32 1)) 1) lr)

  -- The ARM7TDMI has no interworking call.
  unfoldable pub blx_off_t : ℕ → Ctx R → Ctx R × InstResult
  blx_off_t opcode ctx = (ctx, continue 1)

  unfoldable pub bx_reg_t : ℕ → Ctx R → Ctx R × InstResult
  bx_reg_t opcode ctx =
      let rm : ℕ = bit_and (opcode / 2 ^ 3) 0xf in
      let target : ℕ = reg_t ctx rm in
      (ctx, if rm == 14 then branch_return 1 target else branch 1 target)

  unfoldable pub blx_reg_t : ℕ → Ctx R → Ctx R × InstResult
  blx_reg_t opcode ctx = (ctx, continue 1)
