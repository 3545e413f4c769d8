-- ===== src/Interp/Shifter/Bits.antt =====
-- The shifts bit by bit.
use advanced_slop.Base.{
  ℕ, zero, suc, ◌+◌, ◌-◌, ◌*◌, ◌/◌, ◌%◌, ◌^◌, ◌<◌, ◌≤◌, ◌≡◌, ◌≢◌, refl, sym, ap, ap₂, ◌∙◌, arith,
  ◌⊎◌, ◌==◌, ==_iff, ltb, leb, le→leb, lt→leb, ltb→lt, ltb→le, if◌then◌else◌, Bool-cases, inl, inr,
  min, max,
}
use native.Mathlib.Nat.{pow-succ', one-le-pow, div-div-eq-div-mul}
use advanced_slop.Base.Word.{u32}
use advanced_slop.Base.Digits.{
  digit, digit-le, digit_lem, digit_high, digit-zero, digit-mod, digit-shl, digit-shl_low,
  digit-bit_or, digit-complement, complement,
}
use advanced_slop.Interp.Shifter.{rotate_right, sar, lsl, lsr, asr, ror}

digit-shr : (x a k : ℕ) → digit (x / 2 ^ a) k ≡ digit x (a + k)
digit-shr x zero k = ap₂ digit whole place
  where
    whole : x / 1 ≡ x
    whole = omega arith

    place : k ≡ 0 + k
    place = omega arith
digit-shr x (suc a) k = ap (λ t. digit t k) step ∙ digit-shr (x / 2) a k ∙ ap (λ t. digit x t) place
  where
    step : x / 2 ^ suc a ≡ x / 2 / 2 ^ a
    step = omega (arith, div-div-eq-div-mul x 2 (2 ^ a), ap (λ (t : ℕ). x / t) (pow-succ' 2 a))

    place : suc (a + k) ≡ suc a + k
    place = omega arith

-- A shift left by `n` within a word.
digit-shl_word :
    (x n k : ℕ) → k < 32 → digit (u32 (x * 2 ^ n)) k ≡ (if ltb k n then 0 else digit x (k - n))
digit-shl_word x n k hk = digit-mod (x * 2 ^ n) 32 k hk ∙ cases
  where
    cases : digit (x * 2 ^ n) k ≡ (if ltb k n then 0 else digit x (k - n))
    cases = elim (Bool-cases (ltb k n)) [
      | inl p ↦ rw p (digit-shl_low x n k (ltb→lt k n p))
      | inr p ↦
          let h : n ≤ k = ltb→le k n p in
          let place : k ≡ n + (k - n) = omega arith in
          rw p (ap (λ t. digit (x * 2 ^ n) t) place ∙ digit-shl x n (k - n))
    ]

-- A run of ones.
digit-ones : (n k : ℕ) → k < n → digit (2 ^ n - 1) k ≡ 1
digit-ones n k h =
    ap (λ t. digit t k) same
    ∙ omega (arith, digit-complement n 0 k (one-le-pow n 2 (omega arith)) h, digit-zero k)
  where
    same : 2 ^ n - 1 ≡ complement n 0
    same = omega arith

top_digit : (x : ℕ) → x < 2 ^ 32 → 2 ^ 31 ≤ x → digit x 31 ≡ 1
top_digit x hx neg = digit_lem x 31 ∙ omega arith

sign_fill : (n k : ℕ) → n < 32 → 32 ≤ n + k → k < 32 → digit ((2 ^ n - 1) * 2 ^ (32 - n)) k ≡ 1
sign_fill n k hn h hk =
    ap (λ t. digit ((2 ^ n - 1) * 2 ^ (32 - n)) t) place
    ∙ digit-shl (2 ^ n - 1) (32 - n) (n + k - 32)
    ∙ digit-ones n (n + k - 32) (omega arith)
  where
    place : k ≡ 32 - n + (n + k - 32)
    place = omega arith

-- Bit `k` of a sign-extended shift.
digit-sar :
    (x n k : ℕ) → x < 2 ^ 32 → n < 32 → k < 32 → digit (sar x n) k ≡ digit x (min (n + k) 31)
unfolding sar
digit-sar x n k hx hn hk = elim (Bool-cases (ltb x (2 ^ 31))) [
  | inl p ↦ rw p (
      digit-bit_or (x / 2 ^ n) 0 k
      ∙ omega (arith, digit-shr x n k, digit-zero k, plain (ltb→lt x (2 ^ 31) p)))
  | inr p ↦
      rw p (digit-bit_or (x / 2 ^ n) ((2 ^ n - 1) * 2 ^ (32 - n)) k ∙ signed (ltb→le x (2 ^ 31) p))
]
  where
    plain : x < 2 ^ 31 → digit x (min (n + k) 31) ≡ digit x (n + k)
    plain small = elim (Bool-cases (ltb (n + k) 32)) [
      | inl p ↦
          let h : n + k < 32 = ltb→lt (n + k) 32 p in
          let place : min (n + k) 31 ≡ n + k = omega arith in ap (λ t. digit x t) place
      | inr p ↦
          let h : 32 ≤ n + k = ltb→le (n + k) 32 p in
          digit_high 31 x (min (n + k) 31) small (omega arith)
          ∙ sym (digit_high 31 x (n + k) small (omega arith))
    ]

    signed :
        2 ^ 31 ≤ x
        → max (digit (x / 2 ^ n) k) (digit ((2 ^ n - 1) * 2 ^ (32 - n)) k)
          ≡ digit x (min (n + k) 31)
    signed neg = elim (Bool-cases (ltb (n + k) 32)) [
      | inl p ↦
          let h : n + k < 32 = ltb→lt (n + k) 32 p in
          let place : min (n + k) 31 ≡ n + k = omega arith in
          omega (
            arith,
            digit-shr x n k,
            digit-shl_low (2 ^ n - 1) (32 - n) k (omega arith),
            ap (λ t. digit x t) place,
          )
      | inr p ↦
          let h : 32 ≤ n + k = ltb→le (n + k) 32 p in
          let place : min (n + k) 31 ≡ 31 = omega arith in
          omega (
            arith,
            digit-shr x n k,
            digit-le x (n + k),
            sign_fill n k hn h hk,
            ap (λ t. digit x t) place ∙ top_digit x hx neg,
          )
    ]

digit-rotate_right :
    (x n k : ℕ) → x < 2 ^ 32 → n < 32 → k < 32 → digit (rotate_right x n) k ≡ digit x ((n + k) % 32)
unfolding rotate_right
digit-rotate_right x n k hx hn hk =
    digit-bit_or (u32 (x * 2 ^ (32 - n))) (x / 2 ^ n) k ∙ elim (Bool-cases (ltb k (32 - n))) [
      | inl p ↦
          let h : k < 32 - n = ltb→lt k (32 - n) p in
          let place : (n + k) % 32 ≡ n + k = omega arith in
          omega (
            arith,
            digit-shr x n k,
            rw p at (digit-shl_word x (32 - n) k hk),
            ap (λ t. digit x t) place,
          )
      | inr p ↦
          let h : 32 - n ≤ k = ltb→le k (32 - n) p in
          let place : (n + k) % 32 ≡ k - (32 - n) = omega arith in
          omega (
            arith,
            digit-shr x n k,
            digit_high 32 x (n + k) hx (omega arith),
            rw p at (digit-shl_word x (32 - n) k hk),
            ap (λ t. digit x t) place,
          )
    ]

-- Where bit `k` of the result comes from, and the carry out, for each shift by a register amount.
-- An amount of 0 leaves the value and the carry alone.
pub record IsShifted (value amount : ℕ) (out : ℕ × ℕ) (bit : ℕ → ℕ) (carry : ℕ) : Type 0 where
  pub bits : (k : ℕ) → k < 32 → digit (out.0) k ≡ bit k
  pub carry_out : out.1 ≡ carry

-- The three ranges of an amount that the code tells apart.
region : (amount : ℕ) → (amount < 32) ⊎ ((amount ≡ 32) ⊎ (32 < amount))
region amount = elim (Bool-cases (ltb amount 32)) [
  | inl p ↦ inl (ltb→lt amount 32 p)
  | inr p ↦ elim (Bool-cases (ltb 32 amount)) [
    | inl q ↦ inr (inr (ltb→lt 32 amount q))
    | inr q ↦ inr (inl (omega (arith, ltb→le amount 32 p, ltb→le 32 amount q)))
  ]
]

-- Bit `j` as the code extracts it.
bit_at : (x j : ℕ) → x / 2 ^ j % 2 ≡ digit x j
bit_at x j = sym (digit_lem x j)

module _ (value amount old : ℕ) (some_shift : amount ≢ 0) where
  lsl_small :
      amount < 32 → lsl value amount old ≡ (u32 (value * 2 ^ amount), value / 2 ^ (32 - amount) % 2)
  unfolding lsl
  lsl_small h = ground arith

  lsl_word : amount ≡ 32 → lsl value amount old ≡ (0, value % 2)
  unfolding lsl
  lsl_word h = ground arith

  lsl_large : 32 < amount → lsl value amount old ≡ (0, 0)
  unfolding lsl
  lsl_large h = ground arith

  lsr_small :
      amount < 32 → lsr value amount old ≡ (value / 2 ^ amount, value / 2 ^ (amount - 1) % 2)
  unfolding lsr
  lsr_small h = ground arith

  lsr_word : amount ≡ 32 → lsr value amount old ≡ (0, value / 2 ^ 31 % 2)
  unfolding lsr
  lsr_word h = ground arith

  lsr_large : 32 < amount → lsr value amount old ≡ (0, 0)
  unfolding lsr
  lsr_large h = ground arith

  asr_small : amount < 32 → asr value amount old ≡ (sar value amount, value / 2 ^ (amount - 1) % 2)
  unfolding asr
  asr_small h = ground arith

  asr_large : 32 ≤ amount → asr value amount old ≡ (sar value 31, value / 2 ^ 31 % 2)
  unfolding asr
  asr_large h = ground arith

  ror_turn : amount % 32 ≡ 0 → ror value amount old ≡ (value, value / 2 ^ 31 % 2)
  unfolding ror
  ror_turn h = ground arith

  ror_part :
      amount % 32 ≢ 0
      → ror value amount old ≡ (rotate_right value (amount % 32), value / 2 ^ (amount % 32 - 1) % 2)
  unfolding ror
  ror_part h = ground arith

module _ (value amount old : ℕ) (word : value < 2 ^ 32) (some_shift : amount ≢ 0) where
  -- For a word and an amount other than 0: a left shift fills with zeros; the last bit shifted out is bit `32 - amount`.
  pub lsl-IsShifted :
      IsShifted value amount
        (lsl value amount old)
        (λ k. if ltb k amount then 0 else digit value (k - amount))
        (if leb amount 32 then digit value (32 - amount) else 0)
  lsl-IsShifted = record {
    bits = λ k hk. elim (region amount) [
      | inl h ↦ rw (lsl_small value amount old some_shift h) (digit-shl_word value amount k hk)
      | inr (inl h) ↦ rw (lsl_word value amount old some_shift h) (ground (arith, digit-zero k))
      | inr (inr h) ↦ rw (lsl_large value amount old some_shift h) (ground (arith, digit-zero k))
    ];
    carry_out = elim (region amount) [
      | inl h ↦
          rw (lsl_small value amount old some_shift h, le→leb amount 32 (omega arith))
            (bit_at value (32 - amount))
      | inr (inl h) ↦ rw (lsl_word value amount old some_shift h, h) refl
      | inr (inr h) ↦ rw (lsl_large value amount old some_shift h, lt→leb amount 32 h) refl
    ];
  }

  -- For a word and an amount other than 0: a right shift fills with zeros, which are the bits above
  -- the word; the carry is the last bit shifted out.
  pub lsr-IsShifted :
      IsShifted value amount
        (lsr value amount old)
        (λ k. digit value (amount + k))
        (digit value (amount - 1))
  lsr-IsShifted = record {
    bits = λ k hk. elim (region amount) [
      | inl h ↦ rw (lsr_small value amount old some_shift h) (digit-shr value amount k)
      | inr (inl h) ↦
          rw (lsr_word value amount old some_shift h)
            (digit-zero k ∙ sym (digit_high 32 value (amount + k) word (omega arith)))
      | inr (inr h) ↦
          rw (lsr_large value amount old some_shift h)
            (digit-zero k ∙ sym (digit_high 32 value (amount + k) word (omega arith)))
    ];
    carry_out = elim (region amount) [
      | inl h ↦ rw (lsr_small value amount old some_shift h) (bit_at value (amount - 1))
      | inr (inl h) ↦ rw (lsr_word value amount old some_shift h, h) (bit_at value 31)
      | inr (inr h) ↦
          rw (lsr_large value amount old some_shift h)
            (sym (digit_high 32 value (amount - 1) word (omega arith)))
    ];
  }

  -- For a word and an amount other than 0: an arithmetic shift repeats bit 31; the carry is the last
  -- bit shifted out.
  pub asr-IsShifted :
      IsShifted value amount
        (asr value amount old)
        (λ k. digit value (min (amount + k) 31))
        (digit value (min (amount - 1) 31))
  asr-IsShifted = record {
    bits = λ k hk. elim (Bool-cases (ltb amount 32)) [
      | inl p ↦
          let h : amount < 32 = ltb→lt amount 32 p in
          rw (asr_small value amount old some_shift h) (digit-sar value amount k word h hk)
      | inr p ↦
          let h : 32 ≤ amount = ltb→le amount 32 p in
          let place : min (31 + k) 31 ≡ min (amount + k) 31 = omega arith in
          rw (asr_large value amount old some_shift h)
            (digit-sar value 31 k word (omega arith) hk ∙ ap (λ t. digit value t) place)
    ];
    carry_out = elim (Bool-cases (ltb amount 32)) [
      | inl p ↦
          let h : amount < 32 = ltb→lt amount 32 p in
          let place : amount - 1 ≡ min (amount - 1) 31 = omega arith in
          rw (asr_small value amount old some_shift h)
            (bit_at value (amount - 1) ∙ ap (λ t. digit value t) place)
      | inr p ↦
          let h : 32 ≤ amount = ltb→le amount 32 p in
          let place : 31 ≡ min (amount - 1) 31 = omega arith in
          rw (asr_large value amount old some_shift h)
            (bit_at value 31 ∙ ap (λ t. digit value t) place)
    ];
  }

  -- For a word and an amount other than 0: a rotation; the carry is the bit that arrives at the top.
  pub ror-IsShifted :
      IsShifted value amount
        (ror value amount old)
        (λ k. digit value ((amount + k) % 32))
        (digit value ((amount + 31) % 32))
  ror-IsShifted = record {
    bits = λ k hk. elim (Bool-cases (amount % 32 == 0)) [
      | inl p ↦
          let h : amount % 32 ≡ 0 = (==_iff (amount % 32) 0).0 p in
          let place : k ≡ (amount + k) % 32 = omega arith in
          rw (ror_turn value amount old some_shift h) (ap (λ t. digit value t) place)
      | inr p ↦
          let h : amount % 32 ≢ 0 = λ e. cc ((==_iff (amount % 32) 0).1 e) in
          let place : (amount % 32 + k) % 32 ≡ (amount + k) % 32 = omega arith in
          rw (ror_part value amount old some_shift h) (
            digit-rotate_right value (amount % 32) k word (omega arith) hk
            ∙ ap (λ t. digit value t) place)
    ];
    carry_out = elim (Bool-cases (amount % 32 == 0)) [
      | inl p ↦
          let h : amount % 32 ≡ 0 = (==_iff (amount % 32) 0).0 p in
          let place : 31 ≡ (amount + 31) % 32 = omega arith in
          rw (ror_turn value amount old some_shift h)
            (bit_at value 31 ∙ ap (λ t. digit value t) place)
      | inr p ↦
          let h : amount % 32 ≢ 0 = λ e. cc ((==_iff (amount % 32) 0).1 e) in
          let place : amount % 32 - 1 ≡ (amount + 31) % 32 = omega arith in
          rw (ror_part value amount old some_shift h)
            (bit_at value (amount % 32 - 1) ∙ ap (λ t. digit value t) place)
    ];
  }
