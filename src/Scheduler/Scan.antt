-- ===== src/Scheduler/Scan.antt =====
-- The loops of `cm_check_events` over an event mask: `leading_zeros` finds the next set bit, and
-- the mask is shifted past it. They are compared with a walk over all 32 positions.
use native.Mathlib.Nat.{pow-succ', add-mul-mod_self_right, mod-add-div'}
use advanced_slop.Base.{
  ℕ, zero, suc, ◌+◌, ◌-◌, ◌*◌, ◌/◌, ◌^◌, ◌≤◌, ◌<◌, ◌%◌, ◌≡◌, ◌≢◌, refl, ap, ◌∙◌, arith, leb, ◌==◌,
  if◌then◌else◌, Bool-cases, inl, inr, true, false, ==_iff, le→leb, lt→leb, leb→le, leb→lt, sym,
}
use mathlib.Core.Path.{subst}
use advanced_slop.Base.Word.{u32}
use advanced_slop.Base.Digits.{digit, digit_lem, digit-mod, digit-shl}

-- Leading zeros of `x` as a word of `n` bits.
abbrev leading_zeros_in : ℕ → ℕ → ℕ
leading_zeros_in zero x = 0
leading_zeros_in (suc n) x = if leb (2 ^ n) x then 0 else suc (leading_zeros_in n x)

-- `u32::leading_zeros`
unfoldable pub leading_zeros : ℕ → ℕ
leading_zeros x = leading_zeros_in 32 x

module _ {ℓ} {S : Type ℓ} (body : ℕ → S → S) where
  -- A shift takes its amount modulo 32.
  -- `while active != 0 { let zeros = ...; body(zeros + offset); active <<= zeros + 1; ... }`
  pub scan : ℕ → ℕ → ℕ → S → S
  scan zero active offset s = s
  scan (suc fuel) active offset s =
      let zeros : ℕ = leading_zeros active in
      let rest : S =
        scan fuel (u32 (active * 2 ^ ((zeros + 1) % 32))) (offset + zeros + 1)
          (body (zeros + offset) s) in
      if active == 0 then s else rest

  -- One position at a time, from the top bit down.
  pub walk : ℕ → ℕ → ℕ → S → S
  walk zero active offset s = s
  walk (suc n) active offset s =
      walk n (u32 (active * 2)) (offset + 1) (if leb (2 ^ 31) active then body offset s else s)

-- A `u32` has at most 32 set bits, so 33 rounds end the loop by its test.
abbrev pub scan_fuel : ℕ
scan_fuel = 33

leading_zeros_in-double :
    (n x : ℕ) → 0 < x → leading_zeros_in (suc n) (x * 2) ≡ leading_zeros_in n x
leading_zeros_in-double zero x h = ground arith
leading_zeros_in-double (suc n) x h = ground (arith, leading_zeros_in-double n x h, pow-succ' 2 n)

leading_zeros-top : (x : ℕ) → 2 ^ 31 ≤ x → leading_zeros x ≡ 0
unfolding leading_zeros
leading_zeros-top x h = rw (le→leb _ _ h)

leading_zeros-double : (x : ℕ) → 0 < x → x < 2 ^ 31 → leading_zeros x ≡ suc (leading_zeros (x * 2))
unfolding leading_zeros
leading_zeros-double x pos small =
    rw (lt→leb _ _ small) (ap suc (sym (leading_zeros_in-double 31 x pos)))

leading_zeros_in-le : (n x : ℕ) → 2 ≤ x → leading_zeros_in (suc (suc n)) x ≤ n
leading_zeros_in-le zero x h = ground arith
leading_zeros_in-le (suc n) x h = ground (arith, leading_zeros_in-le n x h)

-- Without bit 0 the shift is by less than the width of a word.
leading_zeros-le : (x : ℕ) → x ≢ 0 → x % 2 ≡ 0 → leading_zeros x ≤ 30
unfolding leading_zeros
leading_zeros-le x pos even = leading_zeros_in-le 30 x (omega (arith, pos, even))

mod-mul-mod : (y c m : ℕ) → y % m * c % m ≡ y * c % m
mod-mul-mod y c m = sym (ap (λ t. t % m) split ∙ add-mul-mod_self_right (y % m * c) (y / m * c) m)
  where
    split : y * c ≡ y % m * c + y / m * c * m
    split = omega (arith, ap (λ (t : ℕ). t * c) (mod-add-div' y m))

-- A shift by `k + 1` is a shift by one, cut to 32 bits, and a shift by `k`.
u32-shift : (x k : ℕ) → u32 (x * 2 ^ suc k) ≡ u32 (u32 (x * 2) * 2 ^ k)
u32-shift x k = ap u32 exponent ∙ sym (mod-mul-mod (x * 2) (2 ^ k) (2 ^ 32))
  where
    exponent : x * 2 ^ suc k ≡ x * 2 * 2 ^ k
    exponent = omega (arith, ap (λ (t : ℕ). x * t) (pow-succ' 2 k))

module _ {ℓ} {S : Type ℓ} (body : ℕ → S → S) where
  scan-zero : (fuel offset : ℕ) (s : S) → scan body fuel 0 offset s ≡ s
  unfolding scan
  scan-zero zero offset s = refl
  scan-zero (suc fuel) offset s = refl

  -- A round of the loop on an even mask.
  abbrev round : ℕ → ℕ → ℕ → S → S
  round fuel x offset s =
      let zeros : ℕ = leading_zeros x in
      let rest : S =
        scan body fuel (u32 (x * 2 ^ (zeros + 1))) (offset + zeros + 1) (body (zeros + offset) s) in
      if x == 0 then s else rest

  scan-round :
      (fuel x offset : ℕ) (s : S)
      → x % 2 ≡ 0
      → scan body (suc fuel) x offset s ≡ round fuel x offset s
  unfolding scan
  scan-round fuel x offset s even = elim (Bool-cases (x == 0)) [
    | inl p ↦ rw p refl
    | inr p ↦
        let ne : x ≢ 0 = λ e. cc ((==_iff x 0).1 e) in
        let whole : (leading_zeros x + 1) % 32 ≡ leading_zeros x + 1 =
          omega (arith, leading_zeros-le x ne even) in
        rw (p, whole) refl
  ]

  -- A clear top bit may be shifted out first.
  scan-double :
      (fuel x offset : ℕ) (s : S)
      → 0 < x
      → x < 2 ^ 31
      → round fuel x offset s ≡ round fuel (u32 (x * 2)) (offset + 1) s
  scan-double fuel x offset s pos small = ground (
    arith,
    fits,
    ap leading_zeros fits,
    leading_zeros-double x pos small,
    word,
    ap (λ (t : ℕ). body t s) entry,
    place,
  )
    where
      fits : u32 (x * 2) ≡ x * 2
      fits = omega arith

      same : leading_zeros x ≡ suc (leading_zeros (u32 (x * 2)))
      same = rw fits (leading_zeros-double x pos small)

      next : leading_zeros x + 1 ≡ suc (leading_zeros (u32 (x * 2)) + 1)
      next = omega (arith, same)

      word :
          u32 (x * 2 ^ (leading_zeros x + 1))
          ≡ u32 (u32 (x * 2) * 2 ^ (leading_zeros (u32 (x * 2)) + 1))
      word = ap (λ (t : ℕ). u32 (x * 2 ^ t)) next ∙ u32-shift x (leading_zeros (u32 (x * 2)) + 1)

      entry : leading_zeros x + offset ≡ leading_zeros (u32 (x * 2)) + (offset + 1)
      entry = omega (arith, same)

      place : offset + leading_zeros x + 1 ≡ offset + 1 + leading_zeros (u32 (x * 2)) + 1
      place = omega (arith, same)

  -- A set top bit is visited, and shifted out.
  scan-top :
      (fuel x offset : ℕ) (s : S)
      → 2 ^ 31 ≤ x
      → round fuel x offset s ≡ scan body fuel (u32 (x * 2)) (offset + 1) (body offset s)
  scan-top fuel x offset s top = ground (
    arith,
    leading_zeros-top x top,
    ap (λ (t : ℕ). u32 (x * 2 ^ (t + 1))) (leading_zeros-top x top),
    ap (λ (t : ℕ). body (t + offset) s) (leading_zeros-top x top),
    ap (λ (t : ℕ). body t s) first,
    place,
  )
    where
      first : 0 + offset ≡ offset
      first = omega arith

      place : offset + leading_zeros x + 1 ≡ offset + 1
      place = omega (arith, leading_zeros-top x top)

  walk-zero : (n offset : ℕ) (s : S) → walk body n 0 offset s ≡ s
  unfolding walk
  walk-zero zero offset s = refl
  walk-zero (suc n) offset s = walk-zero n (offset + 1) s

  -- With as many rounds as there are bits left, the scan is the walk.
  scan-eq-walk_from :
      (n fuel x offset : ℕ) (s : S)
      → n < fuel
      → x < 2 ^ 32
      → x % 2 ≡ 0
      → u32 (x * 2 ^ n) ≡ 0
      → scan body fuel x offset s ≡ walk body n x offset s
  unfolding walk
  scan-eq-walk_from zero fuel x offset s enough small even gone =
      ap (λ (t : ℕ). scan body fuel t offset s) none_left ∙ scan-zero fuel offset s
    where
      none_left : x ≡ 0
      none_left = omega arith
  scan-eq-walk_from (suc n) zero x offset s enough small even gone = elim enough [ ]
  scan-eq-walk_from (suc n) (suc fuel) zero offset s enough small even gone =
      scan-zero (suc fuel) offset s ∙ sym (walk-zero n (offset + 1) s)
  scan-eq-walk_from (suc n) (suc fuel) (suc x) offset s enough small even gone =
      let rest = λ (f : ℕ) (t : S) (h : n < f).
        scan-eq-walk_from n f (u32 (suc x * 2)) (offset + 1) t h (omega arith) (omega arith)
          (sym (u32-shift (suc x) n) ∙ gone) in
      elim (Bool-cases (leb (2 ^ 31) (suc x))) [
        | inl top ↦ rw top (
            scan-round fuel (suc x) offset s even
            ∙ scan-top fuel (suc x) offset s (leb→le (2 ^ 31) (suc x) top)
            ∙ rest fuel (body offset s) (omega arith))
        | inr clear ↦ rw clear (
            scan-round fuel (suc x) offset s even
            ∙ scan-double fuel (suc x) offset s (omega arith) (leb→lt (2 ^ 31) (suc x) clear)
            ∙ sym (scan-round fuel (u32 (suc x * 2)) (offset + 1) s (omega arith))
            ∙ rest (suc fuel) s (omega arith))
      ]

  -- For an even word the loop runs the body at each set bit, from the top bit down, and its fuel is
  -- enough.
  pub scan-eq-walk :
      (active : ℕ) (s : S)
      → active < 2 ^ 32
      → active % 2 ≡ 0
      → scan body scan_fuel active 0 s ≡ walk body 32 active 0 s
  scan-eq-walk active s small even =
      scan-eq-walk_from 32 scan_fuel active 0 s (omega arith) small even (omega arith)

-- The bit that the walk tests at position `offset`.
top-digit :
    (active offset : ℕ)
    → offset < 32
    → digit (u32 (active * 2 ^ offset)) 31 ≡ digit active (31 - offset)
top-digit active offset h =
    digit-mod (active * 2 ^ offset) 32 31 (omega arith)
    ∙ ap (λ (t : ℕ). digit (active * 2 ^ offset) t) place
    ∙ digit-shl active offset (31 - offset)
  where
    place : 31 ≡ offset + (31 - offset)
    place = omega arith

top-digit_one : (w : ℕ) → w < 2 ^ 32 → leb (2 ^ 31) w ≡ true → digit w 31 ≡ 1
top-digit_one w small top = omega (arith, digit_lem w 31, leb→le (2 ^ 31) w top)

top-digit_zero : (w : ℕ) → leb (2 ^ 31) w ≡ false → digit w 31 ≡ 0
top-digit_zero w clear = omega (arith, digit_lem w 31, leb→lt (2 ^ 31) w clear)

shifted-double :
    (active offset : ℕ) → u32 (u32 (active * 2 ^ offset) * 2) ≡ u32 (active * 2 ^ suc offset)
shifted-double active offset =
    mod-mul-mod (active * 2 ^ offset) 2 (2 ^ 32)
    ∙ ap u32 (omega (arith, ap (λ (t : ℕ). active * t) (pow-succ' 2 offset)))

module _ {ℓ κ} {S : Type ℓ} (body : ℕ → S → S) (active : ℕ) (P : ℕ → S → Type κ)
    (visit : (i : ℕ) (s : S) → i < 32 → digit active (31 - i) ≡ 1 → P i s → P (suc i) (body i s))
    (pass : (i : ℕ) (s : S) → i < 32 → digit active (31 - i) ≡ 0 → P i s → P (suc i) s) where
  walk_rule :
      (n offset : ℕ) (s : S)
      → n + offset ≡ 32
      → P offset s
      → P 32 (walk body n (u32 (active * 2 ^ offset)) offset s)
  unfolding walk
  walk_rule zero offset s e p = subst (λ t. P t s) (omega arith) p
  walk_rule (suc n) offset s e p =
      let w : ℕ = u32 (active * 2 ^ offset) in
      let word : u32 (w * 2) ≡ u32 (active * 2 ^ suc offset) = shifted-double active offset in
      let place : offset + 1 ≡ suc offset = omega arith in
      let next = λ (t : S) (q : P (suc offset) t).
        subst (λ x. P 32 (walk body n x (offset + 1) t)) (sym word)
          (subst (λ k. P 32 (walk body n (u32 (active * 2 ^ suc offset)) k t)) (sym place)
            (walk_rule n (suc offset) t (omega arith) q)) in
      let bit : digit w 31 ≡ digit active (31 - offset) = top-digit active offset (omega arith) in
      elim (Bool-cases (leb (2 ^ 31) w)) [
        | inl top ↦ rw top (
            next (body offset s)
              (visit offset s (omega arith) (sym bit ∙ top-digit_one w (omega arith) top) p))
        | inr clear ↦
            rw clear (next s (pass offset s (omega arith) (sym bit ∙ top-digit_zero w clear) p))
      ]

  -- An invariant of the loop, by position: `P i s` holds when the positions below `i` are done.
  pub scan_rule :
      (s : S) → active < 2 ^ 32 → active % 2 ≡ 0 → P 0 s → P 32 (scan body scan_fuel active 0 s)
  scan_rule s small even p =
      subst (λ t. P 32 t) (sym (scan-eq-walk body active s small even))
        (subst (λ (x : ℕ). P 32 (walk body 32 x 0 s)) whole (walk_rule 32 0 s refl p))
    where
      whole : u32 (active * 2 ^ 0) ≡ active
      whole = omega arith
