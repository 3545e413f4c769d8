-- ===== src/Interp/Branch.antt =====
-- The branches of src/jit/interpreter/branch.rs, and the handlers of src/jit/interpreter/alu.rs for
-- the instructions that the ARM7TDMI does not have.
use advanced_slop.Base.{ℕ, ◌+◌, ◌*◌, ◌^◌, ◌==◌, if◌then◌else◌, bit_and}
use advanced_slop.Base.Word.{u32}
use advanced_slop.Base.Digits.{complement}
use advanced_slop.Interp.{
  Ctx, InstResult, continue, branch, branch_link, branch_return, reg, set_reg,
}
use advanced_slop.Interp.Shifter.{sar}

-- The offset as a word; adding it wraps.
unfoldable pub branch_offset : ℕ → ℕ
unfolding sar
branch_offset opcode = sar (u32 (opcode * 2 ^ 8)) 6

module _ {R : Type 0} where
  unfoldable pub b : ℕ → Ctx R → Ctx R × InstResult
  unfolding branch_offset
  b opcode ctx =
      let target : ℕ = u32 (reg ctx 15 + branch_offset opcode) in
      (ctx, branch 1 (bit_and target (complement 32 3)))

  unfoldable pub bl : ℕ → Ctx R → Ctx R × InstResult
  unfolding branch_offset
  bl opcode ctx =
      let target : ℕ = u32 (reg ctx 15 + branch_offset opcode) in
      let lr : ℕ = u32 (ctx.inst_addr + 4) in
      (set_reg 14 lr ctx, branch_link 1 (bit_and target (complement 32 3)) lr)

  unfoldable pub bx : ℕ → Ctx R → Ctx R × InstResult
  bx opcode ctx =
      let target : ℕ = reg ctx (bit_and opcode 0xf) in
      (ctx, if bit_and opcode 0xf == 14 then branch_return 1 target else branch 1 target)

  unfoldable pub blx_reg : ℕ → Ctx R → Ctx R × InstResult
  blx_reg opcode ctx =
      let target : ℕ = reg ctx (bit_and opcode 0xf) in
      let lr : ℕ = u32 (ctx.inst_addr + 4) in (set_reg 14 lr ctx, branch_link 1 target lr)

  -- The saturating additions and the halfword multiplies return at once; what follows the return in
  -- the source is not reached.
  unfoldable pub dsp : ℕ → Ctx R → Ctx R × InstResult
  dsp opcode ctx = (ctx, continue 1)
