-- ===== src/Interp/Alu.antt =====
-- The data processing handlers of src/jit/interpreter/alu.rs. Where the source generates a function
-- for each operation by macro, the operation is an argument here.
pub mod Arith
pub mod Finish
use advanced_slop.Base.{
  ℕ, ◌+◌, ◌-◌, ◌*◌, ◌/◌, ◌%◌, ◌^◌, Bool, true, false, not, ◌&&◌, ◌||◌, ◌==◌, if◌then◌else◌, bit_and,
  bit_or, bit_xor,
}
use advanced_slop.Base.Word.{u32, wrapping_sub32, has_bit}
use advanced_slop.Base.Digits.{complement}
use advanced_slop.Cpu.Banks.{thread_restore_spsr}
use advanced_slop.Interp.{
  Ctx, InstResult, continue, branch, branch_return, reg, set_reg, cpsr, set_cpsr, carry,
}
use advanced_slop.Interp.Flags
use advanced_slop.Interp.Shifter.{ShiftForm, imm, by_reg, alu_shift}

pub data LogicalOp : Type 0 where
  and eor orr bic mov mvn : LogicalOp

pub data ArithOp : Type 0 where
  add sub rsb adc sbc rsc : ArithOp

pub data TestOp : Type 0 where
  tst teq cmp cmn : TestOp

unfoldable pub logical_result : LogicalOp → ℕ → ℕ → ℕ
logical_result and a b = bit_and a b
logical_result eor a b = bit_xor a b
logical_result orr a b = bit_or a b
logical_result bic a b = bit_and a (complement 32 b)
logical_result mov a b = b
logical_result mvn a b = complement 32 b

abbrev is_mov : LogicalOp → Bool
is_mov mov = true
is_mov _ = false

abbrev is_imm : ShiftForm → Bool
is_imm imm = true
is_imm _ = false

-- The resume address, with the thumb bit in bit 0.
unfoldable pub branch_target : ℕ → ℕ → ℕ
branch_target status result =
    if has_bit status 5
    then bit_or (bit_and result (complement 32 1)) 1
    else bit_and result (complement 32 3)

-- `mov pc, <ops with lr>` is a function return.
unfoldable pub reads_lr : ShiftForm → ℕ → Bool
reads_lr form opcode =
    bit_and opcode 0xf == 14 || (by_reg form && bit_and (opcode / 2 ^ 8) 0xf == 14)

-- The flags of `tst`, `teq`, `cmp` and `cmn`.
unfoldable pub test_flags : TestOp → ℕ → ℕ → ℕ → ℕ
test_flags tst a b = Flags.set_nz (bit_and a b)
test_flags teq a b = Flags.set_nz (bit_xor a b)
test_flags cmp a b = Flags.sub_flags a b (wrapping_sub32 a b)
test_flags cmn a b = Flags.add_flags a b (u32 (a + b))

abbrev is_logical : TestOp → Bool
is_logical tst = true
is_logical teq = true
is_logical _ = false

module _ {R : Type 0} where
  unfoldable pub alu_rn : Ctx R → ℕ → Bool → ℕ
  alu_rn ctx opcode by_register =
      let rn_idx : ℕ = bit_and (opcode / 2 ^ 16) 0xf in
      u32 (reg ctx rn_idx + (if by_register && rn_idx == 15 then 4 else 0))

  abbrev pub map_cpsr : (ℕ → ℕ) → Ctx R → Ctx R
  map_cpsr f ctx = set_cpsr (f (cpsr ctx)) ctx

  abbrev pub restore_spsr : Ctx R → Ctx R
  restore_spsr ctx = record ctx { emu = thread_restore_spsr ctx.emu }

  unfoldable pub alu_finish : ShiftForm → Bool → ℕ → ℕ → Bool → Ctx R → Ctx R × InstResult
  alu_finish form plain_mov opcode result set_flags ctx =
      let rd : ℕ = bit_and (opcode / 2 ^ 12) 0xf in
      let ctx' : Ctx R = if set_flags then restore_spsr ctx else ctx in
      let target : ℕ = branch_target (cpsr ctx') result in
      if rd == 15
      then (if plain_mov && (not set_flags && (not (is_imm form) && reads_lr form opcode))
          then (ctx', branch_return 1 target)
          else (ctx', branch 1 target))
      else (set_reg rd result ctx, continue 1)

  -- `def_logical!`: the shifter's carry is taken if the flags are set.
  unfoldable pub logical : LogicalOp → Bool → ShiftForm → ℕ → Ctx R → Ctx R × InstResult
  unfolding alu_rn alu_finish logical_result
  logical op s form opcode ctx =
      let a : ℕ = alu_rn ctx opcode (by_reg form) in
      let (b, ctx') = alu_shift form s opcode ctx in
      let result : ℕ = logical_result op a b in
      let ctx'' : Ctx R = if s then map_cpsr (Flags.set_nz result) ctx' else ctx' in
      alu_finish form (is_mov op) opcode result s ctx''

  -- `do_add` to `do_rsc`: the result, and the flags if `s` asks for them.
  unfoldable pub do_arith : ArithOp → ℕ → ℕ → Bool → Ctx R → ℕ × Ctx R
  do_arith add a b s ctx =
      let r : ℕ = u32 (a + b) in (r, if s then map_cpsr (Flags.add_flags a b r) ctx else ctx)
  do_arith sub a b s ctx =
      let r : ℕ = wrapping_sub32 a b in (r, if s then map_cpsr (Flags.sub_flags a b r) ctx else ctx)
  do_arith rsb a b s ctx =
      let r : ℕ = wrapping_sub32 b a in (r, if s then map_cpsr (Flags.sub_flags b a r) ctx else ctx)
  do_arith adc a b s ctx =
      let c : ℕ = carry ctx in
      let r : ℕ = u32 (u32 (a + b) + c) in
      (r, if s then map_cpsr (Flags.adc_flags a b c r) ctx else ctx)
  do_arith sbc a b s ctx =
      let c : ℕ = carry ctx in
      let r : ℕ = wrapping_sub32 (wrapping_sub32 a b) (1 - c) in
      (r, if s then map_cpsr (Flags.sbc_flags a b c r) ctx else ctx)
  do_arith rsc a b s ctx =
      let c : ℕ = carry ctx in
      let r : ℕ = wrapping_sub32 (wrapping_sub32 b a) (1 - c) in
      (r, if s then map_cpsr (Flags.sbc_flags b a c r) ctx else ctx)

  -- `def_arith!`: the shifter leaves the carry for the operation.
  unfoldable pub arith_op : ArithOp → Bool → ShiftForm → ℕ → Ctx R → Ctx R × InstResult
  unfolding alu_rn alu_finish do_arith
  arith_op op s form opcode ctx =
      let a : ℕ = alu_rn ctx opcode (by_reg form) in
      let (b, ctx') = alu_shift form false opcode ctx in
      let (result, ctx'') = do_arith op a b s ctx' in alu_finish form false opcode result s ctx''

  -- With Rd = 15 a test also restores CPSR from SPSR.
  unfoldable pub test_rd15_quirk : ℕ → Ctx R → Ctx R
  test_rd15_quirk opcode ctx = if bit_and opcode 0xf000 == 0xf000 then restore_spsr ctx else ctx

  -- `def_test!`
  unfoldable pub test : TestOp → ShiftForm → ℕ → Ctx R → Ctx R × InstResult
  unfolding alu_rn test_flags test_rd15_quirk
  test op form opcode ctx =
      let a : ℕ = alu_rn ctx opcode (by_reg form) in
      let (b, ctx') = alu_shift form (is_logical op) opcode ctx in
      (test_rd15_quirk opcode (map_cpsr (test_flags op a b) ctx'), continue 1)
