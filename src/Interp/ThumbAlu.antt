-- ===== src/Interp/ThumbAlu.antt =====
-- src/jit/interpreter/thumb_alu.rs: the thumb shifts, arithmetic, logical and high register
-- operations. Where the source has a function for each operation, the operation is an argument here.
pub mod Nzc
pub mod Shifts
use advanced_slop.Base.{
  ℕ, ◌+◌, ◌-◌, ◌*◌, ◌/◌, ◌%◌, ◌^◌, Bool, true, false, ◌==◌, ltb, leb, if◌then◌else◌, bit_and,
  bit_or, bit_xor,
}
use advanced_slop.Base.Word.{u32, wrapping_sub32, has_bit}
use advanced_slop.Base.Digits.{complement}
use advanced_slop.Interp.{
  Ctx, InstResult, continue, branch, branch_return, reg, reg_t, set_reg, cpsr, set_cpsr, carry,
}
use advanced_slop.Interp.Flags
use advanced_slop.Interp.Shifter.{rotate_right, sar}
use advanced_slop.Interp.Alu.{map_cpsr, do_arith, adc, sbc}

-- The register fields.
abbrev pub lo_rd : ℕ → ℕ
lo_rd opcode = bit_and opcode 7

abbrev pub lo_rs : ℕ → ℕ
lo_rs opcode = bit_and (opcode / 2 ^ 3) 7

abbrev pub lo_rn : ℕ → ℕ
lo_rn opcode = bit_and (opcode / 2 ^ 6) 7

abbrev pub imm8_rd : ℕ → ℕ
imm8_rd opcode = bit_and (opcode / 2 ^ 8) 7

abbrev pub high_rd : ℕ → ℕ
high_rd opcode = bit_or (bit_and (opcode / 2 ^ 4) 8) (bit_and opcode 7)

abbrev pub high_rs : ℕ → ℕ
high_rs opcode = bit_and (opcode / 2 ^ 3) 0xf

-- `set_nzc`, of CPSR.
unfoldable pub set_nzc : ℕ → ℕ → ℕ → ℕ
set_nzc result carry_out cpsr =
    bit_or
      (Flags.or_nz result (bit_and cpsr (complement 32 (Flags.n_bit + Flags.z_bit + Flags.c_bit))))
      (carry_out * 2 ^ 29)

pub data ShiftOp : Type 0 where
  lsl_t lsr_t asr_t ror_t : ShiftOp

-- There is no rotation by an immediate amount.
pub data ImmShiftOp : Type 0 where
  lsl_imm lsr_imm asr_imm : ImmShiftOp

-- The result of a shift and what it does to CPSR; the immediate forms, by a value and an amount
-- below 32.
unfoldable pub shift_imm : ImmShiftOp → ℕ → ℕ → ℕ × (ℕ → ℕ)
unfolding set_nzc sar
shift_imm lsl_imm op1 amount =
    let result : ℕ = u32 (op1 * 2 ^ amount) in
    (
      result,
      if amount == 0 then Flags.set_nz result else set_nzc result (op1 / 2 ^ (32 - amount) % 2),
    )
shift_imm lsr_imm op1 amount =
    let result : ℕ = if amount == 0 then 0 else op1 / 2 ^ amount in
    (result, set_nzc result (op1 / 2 ^ (if amount == 0 then 31 else amount - 1) % 2))
shift_imm asr_imm op1 amount =
    let result : ℕ = if amount == 0 then sar op1 31 else sar op1 amount in
    (result, set_nzc result (op1 / 2 ^ (if amount == 0 then 31 else amount - 1) % 2))

-- The forms by a register, by a value and an amount below 256.
unfoldable pub shift_dp : ShiftOp → ℕ → ℕ → ℕ × (ℕ → ℕ)
unfolding set_nzc sar rotate_right
shift_dp lsl_t op1 amount =
    let result : ℕ = if ltb amount 32 then u32 (op1 * 2 ^ amount) else 0 in
    let out : ℕ = if leb amount 32 then op1 / 2 ^ (32 - amount) % 2 else 0 in
    (result, if amount == 0 then Flags.set_nz result else set_nzc result out)
shift_dp lsr_t op1 amount =
    let result : ℕ = if ltb amount 32 then op1 / 2 ^ amount else 0 in
    let out : ℕ = if leb amount 32 then op1 / 2 ^ (amount - 1) % 2 else 0 in
    (result, if amount == 0 then Flags.set_nz result else set_nzc result out)
shift_dp asr_t op1 amount =
    let result : ℕ = if ltb amount 32 then sar op1 amount else sar op1 31 in
    let out : ℕ = op1 / 2 ^ (if leb amount 32 then amount - 1 else 31) % 2 in
    (result, if amount == 0 then Flags.set_nz result else set_nzc result out)
shift_dp ror_t op1 amount =
    let result : ℕ = rotate_right op1 (bit_and amount 0x1f) in
    let out : ℕ = op1 / 2 ^ bit_and (amount - 1) 0x1f % 2 in
    (result, if amount == 0 then Flags.set_nz result else set_nzc result out)

pub data LogicalOpT : Type 0 where
  and_t eor_t orr_t bic_t mvn_t : LogicalOpT

unfoldable pub logical_result_t : LogicalOpT → ℕ → ℕ → ℕ
logical_result_t and_t a b = bit_and a b
logical_result_t eor_t a b = bit_xor a b
logical_result_t orr_t a b = bit_or a b
logical_result_t bic_t a b = bit_and a (complement 32 b)
logical_result_t mvn_t a b = complement 32 b

-- An addition or a subtraction: the result and what it does to CPSR.
unfoldable pub add_sub : Bool → ℕ → ℕ → ℕ × (ℕ → ℕ)
add_sub false a b = let r : ℕ = u32 (a + b) in (r, Flags.add_flags a b r)
add_sub true a b = let r : ℕ = wrapping_sub32 a b in (r, Flags.sub_flags a b r)

-- The thumb bit of a target stays set.
abbrev pub thumb_target : ℕ → ℕ
thumb_target result = bit_or (bit_and result (complement 32 1)) 1

module _ {R : Type 0} where
  -- A result for a register, and what becomes of CPSR.
  abbrev pub set_result : ℕ → ℕ × (ℕ → ℕ) → Ctx R → Ctx R
  set_result rd (result, flags) ctx = map_cpsr flags (set_reg rd result ctx)

  -- `lsl_imm_t`, `lsr_imm_t` and `asr_imm_t`
  unfoldable pub shift_imm_t : ImmShiftOp → ℕ → Ctx R → Ctx R × InstResult
  unfolding shift_imm
  shift_imm_t op opcode ctx =
      let amount : ℕ = bit_and (opcode / 2 ^ 6) 0x1f in
      (set_result (lo_rd opcode) (shift_imm op (reg ctx (lo_rs opcode)) amount) ctx, continue 1)

  -- `def_add_sub!`, with the second operand a register or three bits.
  unfoldable pub add_sub_t : Bool → Bool → ℕ → Ctx R → Ctx R × InstResult
  unfolding add_sub
  add_sub_t is_sub is_imm3 opcode ctx =
      let op2 : ℕ = if is_imm3 then lo_rn opcode else reg ctx (lo_rn opcode) in
      (set_result (lo_rd opcode) (add_sub is_sub (reg ctx (lo_rs opcode)) op2) ctx, continue 1)

  unfoldable pub mov_imm8_t : ℕ → Ctx R → Ctx R × InstResult
  mov_imm8_t opcode ctx =
      let result : ℕ = bit_and opcode 0xff in
      (set_result (imm8_rd opcode) (result, Flags.set_nz result) ctx, continue 1)

  unfoldable pub cmp_imm8_t : ℕ → Ctx R → Ctx R × InstResult
  unfolding add_sub
  cmp_imm8_t opcode ctx =
      (map_cpsr ((add_sub true (reg ctx (imm8_rd opcode)) (bit_and opcode 0xff)).1) ctx, continue 1)

  -- `add_imm8_t` and `sub_imm8_t`
  unfoldable pub add_sub_imm8_t : Bool → ℕ → Ctx R → Ctx R × InstResult
  unfolding add_sub
  add_sub_imm8_t is_sub opcode ctx =
      let rd : ℕ = imm8_rd opcode in
      (set_result rd (add_sub is_sub (reg ctx rd) (bit_and opcode 0xff)) ctx, continue 1)

  -- `def_dp_logical!`
  unfoldable pub logical_dp_t : LogicalOpT → ℕ → Ctx R → Ctx R × InstResult
  unfolding logical_result_t
  logical_dp_t op opcode ctx =
      let rd : ℕ = lo_rd opcode in
      let result : ℕ = logical_result_t op (reg ctx rd) (reg ctx (lo_rs opcode)) in
      (set_result rd (result, Flags.set_nz result) ctx, continue 1)

  unfoldable pub adc_dp_t : ℕ → Ctx R → Ctx R × InstResult
  adc_dp_t opcode ctx =
      let rd : ℕ = lo_rd opcode in
      let (result, ctx') = do_arith adc (reg ctx rd) (reg ctx (lo_rs opcode)) true ctx in
      (set_reg rd result ctx', continue 1)

  unfoldable pub sbc_dp_t : ℕ → Ctx R → Ctx R × InstResult
  sbc_dp_t opcode ctx =
      let rd : ℕ = lo_rd opcode in
      let (result, ctx') = do_arith sbc (reg ctx rd) (reg ctx (lo_rs opcode)) true ctx in
      (set_reg rd result ctx', continue 1)

  unfoldable pub tst_dp_t : ℕ → Ctx R → Ctx R × InstResult
  tst_dp_t opcode ctx =
      let result : ℕ = bit_and (reg ctx (lo_rd opcode)) (reg ctx (lo_rs opcode)) in
      (map_cpsr (Flags.set_nz result) ctx, continue 1)

  -- `cmp_dp_t` and `cmn_dp_t`
  unfoldable pub compare_dp_t : Bool → ℕ → Ctx R → Ctx R × InstResult
  unfolding add_sub
  compare_dp_t is_sub opcode ctx =
      let result : ℕ × (ℕ → ℕ) = add_sub is_sub (reg ctx (lo_rd opcode)) (reg ctx (lo_rs opcode)) in
      (map_cpsr (result.1) ctx, continue 1)

  unfoldable pub neg_dp_t : ℕ → Ctx R → Ctx R × InstResult
  unfolding add_sub
  neg_dp_t opcode ctx =
      (set_result (lo_rd opcode) (add_sub true 0 (reg ctx (lo_rs opcode))) ctx, continue 1)

  unfoldable pub mul_dp_t : ℕ → Ctx R → Ctx R × InstResult
  mul_dp_t opcode ctx =
      let rd : ℕ = lo_rd opcode in
      let result : ℕ = u32 (reg ctx rd * reg ctx (lo_rs opcode)) in
      (set_result rd (result, Flags.set_nz result) ctx, continue 4)

  -- `lsl_dp_t`, `lsr_dp_t`, `asr_dp_t` and `ror_dp_t`
  unfoldable pub shift_dp_t : ShiftOp → ℕ → Ctx R → Ctx R × InstResult
  unfolding shift_dp
  shift_dp_t op opcode ctx =
      let rd : ℕ = lo_rd opcode in
      let amount : ℕ = bit_and (reg ctx (lo_rs opcode)) 0xff in
      (set_result rd (shift_dp op (reg ctx rd) amount) ctx, continue 1)

  unfoldable pub add_h_t : ℕ → Ctx R → Ctx R × InstResult
  add_h_t opcode ctx =
      let rd : ℕ = high_rd opcode in
      let result : ℕ = u32 (reg_t ctx rd + reg_t ctx (high_rs opcode)) in
      if rd == 15
      then (ctx, branch 1 (thumb_target result))
      else (set_reg rd result ctx, continue 1)

  unfoldable pub cmp_h_t : ℕ → Ctx R → Ctx R × InstResult
  unfolding add_sub
  cmp_h_t opcode ctx =
      let result : ℕ × (ℕ → ℕ) =
        add_sub true (reg_t ctx (high_rd opcode)) (reg_t ctx (high_rs opcode)) in
      (map_cpsr (result.1) ctx, continue 1)

  -- A move of LR to PC is a return.
  unfoldable pub mov_h_t : ℕ → Ctx R → Ctx R × InstResult
  mov_h_t opcode ctx =
      let rd : ℕ = high_rd opcode in
      let rs : ℕ = high_rs opcode in
      let result : ℕ = reg_t ctx rs in
      if rd == 15
      then (
        ctx,
        if rs == 14 then branch_return 1 (thumb_target result) else branch 1 (thumb_target result),
      )
      else (set_reg rd result ctx, continue 1)

  unfoldable pub add_pc_t : ℕ → Ctx R → Ctx R × InstResult
  add_pc_t opcode ctx =
      let base : ℕ = bit_and (u32 (ctx.inst_addr + 4)) (complement 32 3) in
      (set_reg (imm8_rd opcode) (u32 (base + bit_and opcode 0xff * 2 ^ 2)) ctx, continue 1)

  unfoldable pub add_sp_t : ℕ → Ctx R → Ctx R × InstResult
  add_sp_t opcode ctx =
      (set_reg (imm8_rd opcode) (u32 (reg ctx 13 + bit_and opcode 0xff * 2 ^ 2)) ctx, continue 1)

  unfoldable pub add_sp_imm_t : ℕ → Ctx R → Ctx R × InstResult
  add_sp_imm_t opcode ctx =
      let offset : ℕ = bit_and opcode 0x7f * 2 ^ 2 in
      let sp : ℕ = reg ctx 13 in
      (
        set_reg 13 (if has_bit opcode 7 then wrapping_sub32 sp offset else u32 (sp + offset)) ctx,
        continue 1,
      )
