-- ===== src/Interp/ThumbBranch/Taken.antt =====
-- The thumb conditions are the ARM conditions.
use advanced_slop.Base.{
  ℕ, ◌+◌, ◌*◌, ◌/◌, ◌%◌, ◌^◌, ◌<◌, ◌≤◌, ap₂, ◌≡◌, arith, ap, ◌∙◌, Bool, not, ◌&&◌, ◌||◌, ◌==◌,
  bit_xor,
}
use advanced_slop.Base.Word.{u32, has_bit, has_bit_lem}
use advanced_slop.Base.Digits.{digit, digit_lem, digit-bit_xor, digit-mod, digit-shl}
use advanced_slop.Interp.Condition.Codes.{passes, bool_eq}
use advanced_slop.Interp.ThumbBranch.{
  BranchCond, beq, bne, bcs, bcc, bmi, bpl, bvs, bvc, bhi, bls, bge, blt, bgt, ble, taken,
  n_differs_v,
}

-- The condition field of an ARM instruction for each branch.
abbrev pub code : BranchCond → ℕ
code beq = 0
code bne = 1
code bcs = 2
code bcc = 3
code bmi = 4
code bpl = 5
code bvs = 6
code bvc = 7
code bhi = 8
code bls = 9
code bge = 10
code blt = 11
code bgt = 12
code ble = 13

module _ (cpsr : ℕ) (word : cpsr < 2 ^ 32) where
  n_set : has_bit cpsr 31 ≡ (cpsr / 2 ^ 28 / 8 % 2 == 1)
  n_set = has_bit_lem cpsr 31 ∙ ap (λ (d : ℕ). d == 1) (digit_lem cpsr 31 ∙ omega arith)

  z_set : has_bit cpsr 30 ≡ (cpsr / 2 ^ 28 / 4 % 2 == 1)
  z_set = has_bit_lem cpsr 30 ∙ ap (λ (d : ℕ). d == 1) (digit_lem cpsr 30 ∙ omega arith)

  c_set : has_bit cpsr 29 ≡ (cpsr / 2 ^ 28 / 2 % 2 == 1)
  c_set = has_bit_lem cpsr 29 ∙ ap (λ (d : ℕ). d == 1) (digit_lem cpsr 29 ∙ omega arith)

  v_set : has_bit cpsr 28 ≡ (cpsr / 2 ^ 28 % 2 == 1)
  v_set = has_bit_lem cpsr 28 ∙ ap (λ (d : ℕ). d == 1) (digit_lem cpsr 28 ∙ omega arith)

  -- Shifted up by three places, V stands where N does.
  v_shifted : digit (u32 (cpsr * 2 ^ 3)) 31 ≡ cpsr / 2 ^ 28 % 2
  v_shifted = digit-mod (cpsr * 2 ^ 3) 32 31 (omega arith) ∙ digit-shl cpsr 3 28 ∙ digit_lem cpsr 28

  n_differs_v_lem :
      n_differs_v cpsr ≡ not (bool_eq (cpsr / 2 ^ 28 / 8 % 2 == 1) (cpsr / 2 ^ 28 % 2 == 1))
  n_differs_v_lem =
      has_bit_lem (bit_xor cpsr (u32 (cpsr * 2 ^ 3))) 31
      ∙ ap (λ (d : ℕ). d == 1) (digit-bit_xor cpsr (u32 (cpsr * 2 ^ 3)) 31)
      ∙ ap (λ (d : ℕ). (digit cpsr 31 + d) % 2 == 1) v_shifted
      ∙ ap (λ (d : ℕ). (d + cpsr / 2 ^ 28 % 2) % 2 == 1) (digit_lem cpsr 31 ∙ omega arith)
      ∙ parity (cpsr / 2 ^ 28 / 8 % 2) (cpsr / 2 ^ 28 % 2) (omega arith) (omega arith)
    where
      parity : (n v : ℕ) → n ≤ 1 → v ≤ 1 → ((n + v) % 2 == 1) ≡ not (bool_eq (n == 1) (v == 1))
      parity n v hn hv = ground arith

-- A thumb branch is taken exactly when the ARM condition of the same name holds of the flags in
-- CPSR, a word.
pub taken-eq-passes :
    (cond : BranchCond) (cpsr : ℕ)
    → cpsr < 2 ^ 32
    → taken cond cpsr ≡ passes (code cond) (cpsr / 2 ^ 28)
unfolding taken
taken-eq-passes beq cpsr h = z_set cpsr h
taken-eq-passes bne cpsr h = ap not (z_set cpsr h)
taken-eq-passes bcs cpsr h = c_set cpsr h
taken-eq-passes bcc cpsr h = ap not (c_set cpsr h)
taken-eq-passes bmi cpsr h = n_set cpsr h
taken-eq-passes bpl cpsr h = ap not (n_set cpsr h)
taken-eq-passes bvs cpsr h = v_set cpsr h
taken-eq-passes bvc cpsr h = ap not (v_set cpsr h)
taken-eq-passes bhi cpsr h = ap₂ (λ (c z : Bool). c && not z) (c_set cpsr h) (z_set cpsr h)
taken-eq-passes bls cpsr h = ap₂ (λ (c z : Bool). not c || z) (c_set cpsr h) (z_set cpsr h)
taken-eq-passes bge cpsr h = ap not (n_differs_v_lem cpsr h) ∙ twice _
  where
    twice : (x : Bool) → not (not x) ≡ x
    twice x = ground arith
taken-eq-passes blt cpsr h = n_differs_v_lem cpsr h
taken-eq-passes bgt cpsr h =
    ap₂ (λ (z d : Bool). not z && not d) (z_set cpsr h) (n_differs_v_lem cpsr h) ∙ flip _ _
  where
    flip : (z x : Bool) → (not z && not (not x)) ≡ (not z && x)
    flip z x = ground arith
taken-eq-passes ble cpsr h = ap₂ (λ (z d : Bool). z || d) (z_set cpsr h) (n_differs_v_lem cpsr h)
