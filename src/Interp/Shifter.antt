-- ===== src/Interp/Shifter.antt =====
-- The shifter operand of src/jit/interpreter/alu.rs: `alu_shift`, over the nine shifter forms.
pub mod Bits
use advanced_slop.Base.{
  ℕ, ◌+◌, ◌-◌, ◌*◌, ◌/◌, ◌%◌, ◌^◌, Bool, true, false, not, ◌&&◌, ◌==◌, ltb, leb, if◌then◌else◌,
  of_bool, bit_and, bit_or,
}
use advanced_slop.Base.Word.{u32, has_bit}
use advanced_slop.Base.Digits.{complement}
use advanced_slop.Interp.{Ctx, reg, cpsr, set_cpsr, carry}
use advanced_slop.Interp.Flags.{c_bit}

-- The const generic `SHIFT`: the shift, then `l` for an immediate amount and `r` for a register.
pub data ShiftForm : Type 0 where
  lli llr lri lrr ari arr rri rrr imm : ShiftForm

-- `matches!(SHIFT, 1 | 3 | 5 | 7)`
abbrev pub by_reg : ShiftForm → Bool
by_reg llr = true
by_reg lrr = true
by_reg arr = true
by_reg rrr = true
by_reg _ = false

-- `u32::rotate_right`, for `n` below 32.
unfoldable pub rotate_right : ℕ → ℕ → ℕ
rotate_right x n = bit_or (u32 (x * 2 ^ (32 - n))) (x / 2 ^ n)

-- `((x as i32) >> n) as u32`, for `n` below 32.
unfoldable pub sar : ℕ → ℕ → ℕ
sar x n = bit_or (x / 2 ^ n) (if ltb x (2 ^ 31) then 0 else (2 ^ n - 1) * 2 ^ (32 - n))

-- The arms of the `match`: the result and the carry out, from the value, the amount and the old
-- carry.
unfoldable pub lsl : ℕ → ℕ → ℕ → ℕ × ℕ
lsl value amount old_carry =
    if amount == 0
    then (value, old_carry)
    else if ltb amount 32
    then (u32 (value * 2 ^ amount), value / 2 ^ (32 - amount) % 2)
    else if amount == 32
    then (0, value % 2)
    else (0, 0)

unfoldable pub lsr : ℕ → ℕ → ℕ → ℕ × ℕ
lsr value amount old_carry =
    if amount == 0
    then (value, old_carry)
    else if ltb amount 32
    then (value / 2 ^ amount, value / 2 ^ (amount - 1) % 2)
    else if amount == 32
    then (0, value / 2 ^ 31 % 2)
    else (0, 0)

unfoldable pub asr : ℕ → ℕ → ℕ → ℕ × ℕ
unfolding sar
asr value amount old_carry =
    if amount == 0
    then (value, old_carry)
    else if ltb amount 32
    then (sar value amount, value / 2 ^ (amount - 1) % 2)
    else (sar value 31, value / 2 ^ 31 % 2)

unfoldable pub ror : ℕ → ℕ → ℕ → ℕ × ℕ
unfolding rotate_right
ror value amount old_carry =
    let rot : ℕ = amount % 32 in
    if amount == 0
    then (value, old_carry)
    else if rot == 0
    then (value, value / 2 ^ 31 % 2)
    else (rotate_right value rot, value / 2 ^ (rot - 1) % 2)

-- Rotate right through the carry by one.
unfoldable pub rrx : ℕ → ℕ → ℕ × ℕ
rrx value old_carry = (bit_or (old_carry * 2 ^ 31) (value / 2), value % 2)

-- In the immediate forms of LSR and ASR the amount 0 means 32; in that of ROR it means RRX.
unfoldable pub shift : ShiftForm → ℕ → ℕ → ℕ → ℕ × ℕ
unfolding lsl lsr asr ror rrx
shift lli value amount old = lsl value amount old
shift llr value amount old = lsl value amount old
shift lri value amount old = lsr value (if amount == 0 then 32 else amount) old
shift lrr value amount old = lsr value amount old
shift ari value amount old = asr value (if amount == 0 then 32 else amount) old
shift arr value amount old = asr value amount old
shift rri value amount old = if amount == 0 then rrx value old else ror value amount old
shift rrr value amount old = ror value amount old
shift imm value amount old = (value, old)

module _ {R : Type 0} where
  abbrev pub set_carry : ℕ → Ctx R → Ctx R
  set_carry c ctx = set_cpsr (bit_or (bit_and (cpsr ctx) (complement 32 c_bit)) (c * 2 ^ 29)) ctx

  -- The rotated immediate: a rotation by 0 leaves the carry alone.
  unfoldable pub immediate : Bool → ℕ → Ctx R → ℕ × Ctx R
  unfolding rotate_right
  immediate set opcode ctx =
      let value : ℕ = bit_and opcode 0xff in
      let rot : ℕ = bit_and (opcode / 2 ^ 7) 0x1e in
      let result : ℕ = rotate_right value rot in
      if rot == 0
      then (value, ctx)
      else (result, if set then set_carry (result / 2 ^ 31 % 2) ctx else ctx)

  unfoldable pub shifted_register : ShiftForm → Bool → ℕ → Ctx R → ℕ × Ctx R
  unfolding shift
  shifted_register form set opcode ctx =
      let rm_idx : ℕ = bit_and opcode 0xf in
      let value : ℕ = u32 (reg ctx rm_idx + (if by_reg form && rm_idx == 15 then 4 else 0)) in
      let amount : ℕ =
        if by_reg form
        then bit_and (reg ctx (bit_and (opcode / 2 ^ 8) 0xf)) 0xff
        else bit_and (opcode / 2 ^ 7) 0x1f in
      let (result, carry_out) = shift form value amount (carry ctx) in
      (result, if set then set_carry carry_out ctx else ctx)

  unfoldable pub alu_shift : ShiftForm → Bool → ℕ → Ctx R → ℕ × Ctx R
  unfolding immediate shifted_register
  alu_shift imm set opcode ctx = immediate set opcode ctx
  alu_shift form set opcode ctx = shifted_register form set opcode ctx
