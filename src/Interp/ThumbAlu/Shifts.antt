-- ===== src/Interp/ThumbAlu/Shifts.antt =====
-- The thumb shifts are the ARM ones: the same results, and the same flags as MOVS sets.
use advanced_slop.Base.{
  ℕ, ◌-◌, ◌*◌, ◌/◌, ◌%◌, ◌^◌, ◌<◌, ◌≤◌, ◌≡◌, refl, sym, ap, ap₂, ◌∙◌, arith, Bool, true, false,
  ◌==◌, ==_iff, ltb, leb, if◌then◌else◌, bit_and, bit_or, of_bool,
}
use advanced_slop.Base.Word.{u32, has_bit}
use advanced_slop.Base.Digits.{bit_or-zero, bit_or-shl, bit_and-low_mask}
use advanced_slop.Interp.Flags.{set_nz}
use advanced_slop.Interp.Shifter.{
  ShiftForm, lli, llr, lri, lrr, ari, arr, rrr, shift, lsl, lsr, asr, ror, rotate_right, sar,
}
use advanced_slop.Interp.ThumbAlu.{
  set_nzc, ImmShiftOp, lsl_imm, lsr_imm, asr_imm, ShiftOp, lsl_t, lsr_t, asr_t, ror_t, shift_imm,
  shift_dp,
}
use advanced_slop.Interp.ThumbAlu.Nzc.{put_carry, carry_of, set_nzc_lem, put_carry_same}

-- What `movs` with a shift makes of a value, an amount and CPSR: the result, and the flags and the
-- carry of the shifter.
pub IsMovs : ShiftForm → (op1 amount status : ℕ) → ℕ × (ℕ → ℕ) → Type 0
IsMovs form op1 amount status (result, flags) =
    let (r, c) = shift form op1 amount (of_bool (has_bit status 29)) in
    (result ≡ r) × (flags status ≡ set_nz r (put_carry c status))

abbrev pub imm_form : ImmShiftOp → ShiftForm
imm_form lsl_imm = lli
imm_form lsr_imm = lri
imm_form asr_imm = ari

abbrev pub reg_form : ShiftOp → ShiftForm
reg_form lsl_t = llr
reg_form lsr_t = lrr
reg_form asr_t = arr
reg_form ror_t = rrr

module _ (form : ShiftForm) (op1 amount status : ℕ) (status_word : status < 2 ^ 32) where
  set_nzc-IsMovs :
      (r c : ℕ)
      → c ≤ 1
      → shift form op1 amount (carry_of status) ≡ (r, c)
      → IsMovs form op1 amount status (r, set_nzc r c)
  unfolding IsMovs carry_of
  set_nzc-IsMovs r c hc e = rw e (refl, set_nzc_lem r c status hc status_word)

  if-IsMovs :
      (b : Bool) (r c : ℕ)
      → c ≤ 1
      → (b ≡ true → shift form op1 amount (carry_of status) ≡ (r, carry_of status))
      → (b ≡ false → shift form op1 amount (carry_of status) ≡ (r, c))
      → IsMovs form op1 amount status (r, if b then set_nz r else set_nzc r c)
  unfolding IsMovs carry_of
  if-IsMovs true r c hc keeps sets =
      rw (keeps refl) (refl, ap (set_nz r) (sym (put_carry_same status status_word)))
  if-IsMovs false r c hc keeps sets = set_nzc-IsMovs r c hc (sets refl)

module _ (op1 amount status : ℕ) (word : op1 < 2 ^ 32) (status_word : status < 2 ^ 32) where
  abbrev old : ℕ
  old = of_bool (has_bit status 29)

  by_zero : amount ≡ 0 → u32 (op1 * 2 ^ amount) ≡ op1
  by_zero e = ap (λ t. u32 (op1 * 2 ^ t)) e ∙ omega (arith, word)

  shr_zero : amount ≡ 0 → op1 / 2 ^ amount ≡ op1
  shr_zero e = ap (λ t. op1 / 2 ^ t) e ∙ omega arith

  sar_zero : amount ≡ 0 → sar op1 amount ≡ op1
  unfolding sar
  sar_zero e = ap (λ t. sar op1 t) e ∙ ap₂ bit_or (omega arith) (ground arith) ∙ bit_or-zero op1

  -- A rotation by a multiple of 32.
  rotate_none : amount % 32 ≡ 0 → rotate_right op1 (bit_and amount 31) ≡ op1
  unfolding rotate_right
  rotate_none e =
      ap (rotate_right op1) (bit_and-low_mask amount 5 ∙ e)
      ∙ ap₂ bit_or (omega arith) (omega arith)
      ∙ (bit_or-shl 32 0 op1 word ∙ omega arith)

  -- For words `op1` and `status` the immediate forms set the register and CPSR as MOVS with the
  -- same shift.
  pub shift_imm-IsMovs :
      (op : ImmShiftOp)
      → amount < 32
      → IsMovs (imm_form op) op1 amount status (shift_imm op op1 amount)
  unfolding shift_imm shift lsl lsr asr carry_of
  shift_imm-IsMovs lsl_imm small =
      if-IsMovs lli op1 amount status status_word (amount == 0) (u32 (op1 * 2 ^ amount))
        (op1 / 2 ^ (32 - amount) % 2) (omega arith)
        (λ e. ground (arith, e, by_zero ((==_iff amount 0).0 e))) (λ e. ground (arith, e, small))
  shift_imm-IsMovs lsr_imm small =
      set_nzc-IsMovs lri op1 amount status status_word (if amount == 0 then 0 else op1 / 2 ^ amount)
        (op1 / 2 ^ (if amount == 0 then 31 else amount - 1) % 2) (omega arith)
        (ground (arith, small))
  shift_imm-IsMovs asr_imm small =
      set_nzc-IsMovs ari op1 amount status status_word
        (if amount == 0 then sar op1 31 else sar op1 amount)
        (op1 / 2 ^ (if amount == 0 then 31 else amount - 1) % 2) (omega arith)
        (ground (arith, small))

  -- For a word, a CPSR that is a word and an amount below 256 the shifts by a register give the
  -- result and the CPSR of MOVS with the same shift.
  pub shift_dp-IsMovs :
      (op : ShiftOp)
      → amount < 256
      → IsMovs (reg_form op) op1 amount status (shift_dp op op1 amount)
  unfolding shift_dp shift lsl lsr asr ror carry_of sar
  shift_dp-IsMovs lsl_t small =
      if-IsMovs llr op1 amount status status_word (amount == 0)
        (if ltb amount 32 then u32 (op1 * 2 ^ amount) else 0)
        (if leb amount 32 then op1 / 2 ^ (32 - amount) % 2 else 0) (ground arith)
        (λ e. ground (arith, e, by_zero ((==_iff amount 0).0 e)))
        (λ e. ground (arith, e, λ (h : amount ≡ 32). ap (λ t. op1 / 2 ^ (32 - t) % 2) h))
  shift_dp-IsMovs lsr_t small =
      if-IsMovs lrr op1 amount status status_word (amount == 0)
        (if ltb amount 32 then op1 / 2 ^ amount else 0)
        (if leb amount 32 then op1 / 2 ^ (amount - 1) % 2 else 0) (ground arith)
        (λ e. ground (arith, e, shr_zero ((==_iff amount 0).0 e)))
        (λ e. ground (arith, e, λ (h : amount ≡ 32). ap (λ t. op1 / 2 ^ (t - 1) % 2) h))
  shift_dp-IsMovs asr_t small =
      if-IsMovs arr op1 amount status status_word (amount == 0)
        (if ltb amount 32 then sar op1 amount else sar op1 31)
        (op1 / 2 ^ (if leb amount 32 then amount - 1 else 31) % 2) (omega arith)
        (λ e. ground (arith, e, sar_zero ((==_iff amount 0).0 e)))
        (λ e. ground (arith, e, λ (h : amount ≡ 32). ap (λ t. op1 / 2 ^ (t - 1) % 2) h))
  shift_dp-IsMovs ror_t small =
      if-IsMovs rrr op1 amount status status_word (amount == 0)
        (rotate_right op1 (bit_and amount 0x1f)) (op1 / 2 ^ bit_and (amount - 1) 0x1f % 2)
        (omega arith) (λ e. ground (arith, e, rotate_none (omega (arith, (==_iff amount 0).0 e))))
        (λ e. ground (
          arith,
          e,
          rotate_none,
          ap (rotate_right op1) (bit_and-low_mask amount 5),
          ap (λ t. op1 / 2 ^ t % 2) (bit_and-low_mask (amount - 1) 5),
          λ (h : (amount - 1) % 32 ≡ amount % 32 - 1). ap (λ t. op1 / 2 ^ t % 2) h,
          λ (h : (amount - 1) % 32 ≡ 31). ap (λ t. op1 / 2 ^ t % 2) h,
        ))
