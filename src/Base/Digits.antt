-- ===== src/Base/Digits.antt =====
-- Binary digits of a number, and the digits of `&`, `|`, `^` and `!`.
use Prim.Native.Nat.{ℕ, zero, suc, ◌+◌, ◌-◌, ◌*◌, ◌/◌, ◌%◌, ◌^◌, ◌≤◌, ◌<◌, min, max}
use Prim.Native.Nat.{bit_and, bit_or, bit_xor, digits, bitwise, differ}
use Prim.Native.Nat.{bit_and-bitwise, bit_or-bitwise, bit_xor-bitwise}
use mathlib.Core.Path.{◌≡◌, refl, sym, ap, ap₂, ◌∙◌}
use mathlib.Core.Logic.{◌≢◌}
use native.Mathlib.Nat.{pow-succ', one-le-pow, div-add-mod, div-div-eq-div-mul}
use native.Mathlib.Omega.{arith}

-- Bit `k` of `x`.
abbrev pub digit : ℕ → ℕ → ℕ
digit x zero = x % 2
digit x (suc k) = digit (x / 2) k

pub digit-le : (x k : ℕ) → digit x k ≤ 1
digit-le x zero = omega arith
digit-le x (suc k) = digit-le (x / 2) k

-- The native operations run on fuel; any fuel that covers the first number will do.
module _ (rest : ℕ → ℕ) (op : ℕ → ℕ → ℕ) where
  digits-eq-digits : (x y k l : ℕ) → x ≤ k → x ≤ l → digits rest op k x y ≡ digits rest op l x y
  digits-eq-digits zero y zero zero hk hl = refl
  digits-eq-digits zero y zero (suc l) hk hl = refl
  digits-eq-digits zero y (suc k) zero hk hl = refl
  digits-eq-digits zero y (suc k) (suc l) hk hl = refl
  digits-eq-digits (suc x) y zero l hk hl = elim hk [ ]
  digits-eq-digits (suc x) y (suc k) zero hk hl = elim hl [ ]
  digits-eq-digits (suc x) y (suc k) (suc l) hk hl =
      ap (λ (d : ℕ). d * 2 + op (suc x % 2) (y % 2))
        (digits-eq-digits (suc x / 2) (y / 2) k l (omega arith) (omega arith))

  bitwise_peel :
      (x y : ℕ)
      → bitwise rest op (suc x) y ≡ bitwise rest op (suc x / 2) (y / 2) * 2 + op (suc x % 2) (y % 2)
  bitwise_peel x y =
      ap (λ (d : ℕ). d * 2 + op (suc x % 2) (y % 2))
        (digits-eq-digits (suc x / 2) (y / 2) x (suc x / 2) (omega arith) (omega arith))

-- One digit at a time.
pub bit_and_halves : (x y : ℕ) → bit_and x y ≡ bit_and (x / 2) (y / 2) * 2 + min (x % 2) (y % 2)
bit_and_halves zero y = omega (arith, bit_and-bitwise 0 y, bit_and-bitwise 0 (y / 2))
bit_and_halves (suc x) y =
    rw (bit_and-bitwise (suc x) y, bit_and-bitwise (suc x / 2) (y / 2))
      (bitwise_peel (λ _. 0) min x y)

pub bit_or_halves : (x y : ℕ) → bit_or x y ≡ bit_or (x / 2) (y / 2) * 2 + max (x % 2) (y % 2)
bit_or_halves zero y = omega (arith, bit_or-bitwise 0 y, bit_or-bitwise 0 (y / 2))
bit_or_halves (suc x) y =
    rw (bit_or-bitwise (suc x) y, bit_or-bitwise (suc x / 2) (y / 2))
      (bitwise_peel (λ b. b) max x y)

differ_digits : (x y : ℕ) → x < 2 → y < 2 → differ x y ≡ (x + y) % 2
differ_digits zero y hx hy = omega arith
differ_digits (suc zero) zero hx hy = refl
differ_digits (suc zero) (suc zero) hx hy = refl
differ_digits (suc zero) (suc (suc y)) hx hy = absurd (omega arith)
differ_digits (suc (suc x)) y hx hy = absurd (omega arith)

pub bit_xor_halves : (x y : ℕ) → bit_xor x y ≡ bit_xor (x / 2) (y / 2) * 2 + (x + y) % 2
bit_xor_halves zero y = omega (arith, bit_xor-bitwise 0 y, bit_xor-bitwise 0 (y / 2))
bit_xor_halves (suc x) y =
    rw (bit_xor-bitwise (suc x) y, bit_xor-bitwise (suc x / 2) (y / 2))
      (bitwise_peel (λ b. b) differ x y
        ∙ omega (arith, differ_digits (suc x % 2) (y % 2) (omega arith) (omega arith)))

-- The digits of the operations.
pub digit-bit_and : (x y k : ℕ) → digit (bit_and x y) k ≡ min (digit x k) (digit y k)
digit-bit_and x y zero = omega (arith, bit_and_halves x y)
digit-bit_and x y (suc k) =
    ap (λ t. digit t k) (omega (arith, bit_and_halves x y)) ∙ digit-bit_and (x / 2) (y / 2) k

pub digit-bit_or : (x y k : ℕ) → digit (bit_or x y) k ≡ max (digit x k) (digit y k)
digit-bit_or x y zero = omega (arith, bit_or_halves x y)
digit-bit_or x y (suc k) =
    ap (λ t. digit t k) (omega (arith, bit_or_halves x y)) ∙ digit-bit_or (x / 2) (y / 2) k

pub digit-bit_xor : (x y k : ℕ) → digit (bit_xor x y) k ≡ (digit x k + digit y k) % 2
digit-bit_xor x y zero = omega (arith, bit_xor_halves x y)
digit-bit_xor x y (suc k) =
    ap (λ t. digit t k) (omega (arith, bit_xor_halves x y)) ∙ digit-bit_xor (x / 2) (y / 2) k

-- `digit` as a quotient.
pub digit_lem : (x k : ℕ) → digit x k ≡ x / 2 ^ k % 2
digit_lem x zero = omega arith
digit_lem x (suc k) = omega (
  arith,
  digit_lem (x / 2) k,
  div-div-eq-div-mul x 2 (2 ^ k),
  ap (λ (t : ℕ). x / t) (pow-succ' 2 k),
)

-- `!x` on a word of `w` bits.
abbrev pub complement : ℕ → ℕ → ℕ
complement w x = 2 ^ w - 1 - x

pub digit-complement : (w x k : ℕ) → x < 2 ^ w → k < w → digit (complement w x) k ≡ 1 - digit x k
digit-complement zero x k hx hk = elim hk [ ]
digit-complement (suc w) x zero hx hk = omega (arith, pow-succ' 2 w, one-le-pow w 2)
digit-complement (suc w) x (suc k) hx hk =
    ap (λ t. digit t k) (omega (arith, pow-succ' 2 w, one-le-pow w 2))
    ∙ digit-complement w (x / 2) k (omega (arith, pow-succ' 2 w)) (omega arith)

pub digit_high : (w x k : ℕ) → x < 2 ^ w → w ≤ k → digit x k ≡ 0
digit_high zero x zero hx hk = omega arith
digit_high zero x (suc k) hx hk = digit_high zero (x / 2) k (omega arith) (omega arith)
digit_high (suc w) x zero hx hk = elim hk [ ]
digit_high (suc w) x (suc k) hx hk =
    digit_high w (x / 2) k (omega (arith, pow-succ' 2 w)) (omega arith)

-- Words with the same digits are equal.
pub digit_ext :
    (w x y : ℕ) → x < 2 ^ w → y < 2 ^ w → ((k : ℕ) → k < w → digit x k ≡ digit y k) → x ≡ y
digit_ext zero x y hx hy h = omega arith
digit_ext (suc w) x y hx hy h = omega (
  arith,
  h 0 (omega arith),
  digit_ext w (x / 2) (y / 2) (omega (arith, pow-succ' 2 w)) (omega (arith, pow-succ' 2 w))
      (λ k hk. h (suc k) (omega arith)),
)

-- Single bits.
pub digit-zero : (k : ℕ) → digit 0 k ≡ 0
digit-zero zero = refl
digit-zero (suc k) = digit-zero k

pub digit-two_pow_self : (k : ℕ) → digit (2 ^ k) k ≡ 1
digit-two_pow_self zero = refl
digit-two_pow_self (suc k) =
    ap (λ t. digit t k) (omega (arith, pow-succ' 2 k)) ∙ digit-two_pow_self k

pub digit-two_pow_ne : (j k : ℕ) → j ≢ k → digit (2 ^ j) k ≡ 0
digit-two_pow_ne zero zero h = absurd (h refl)
digit-two_pow_ne zero (suc k) h = digit-zero k
digit-two_pow_ne (suc j) zero h = omega (arith, pow-succ' 2 j)
digit-two_pow_ne (suc j) (suc k) h =
    ap (λ t. digit t k) (omega (arith, pow-succ' 2 j)) ∙ digit-two_pow_ne j k (λ e. h (ap suc e))

bit_and-zero : (x : ℕ) → bit_and x 0 ≡ 0
bit_and-zero x = digit_ext_zero x x (omega arith)
  where
    digit_ext_zero : (n y : ℕ) → y ≤ n → bit_and y 0 ≡ 0
    digit_ext_zero n zero h = bit_and-bitwise 0 0
    digit_ext_zero zero (suc y) h = elim h [ ]
    digit_ext_zero (suc n) (suc y) h =
        omega (arith, bit_and_halves (suc y) 0, digit_ext_zero n (suc y / 2) (omega arith))

-- Testing one bit.
pub bit_and-two_pow : (x k : ℕ) → bit_and x (2 ^ k) ≡ digit x k * 2 ^ k
bit_and-two_pow x zero = omega (arith, bit_and_halves x 1, bit_and-zero (x / 2))
bit_and-two_pow x (suc k) = omega (
  arith,
  bit_and_halves x (2 ^ suc k),
  pow-succ' 2 k,
  ap (λ (t : ℕ). bit_and (x / 2) t) half,
  bit_and-two_pow (x / 2) k,
  ap (λ (t : ℕ). digit (x / 2) k * t) (pow-succ' 2 k),
)
  where
    half : 2 ^ suc k / 2 ≡ 2 ^ k
    half = omega (arith, pow-succ' 2 k)

pub mod_halves : (x k : ℕ) → x % 2 ^ suc k ≡ x / 2 % 2 ^ k * 2 + x % 2
mod_halves x k = omega (
  arith,
  div-add-mod (x / 2) (2 ^ k),
  div-add-mod x (2 * 2 ^ k),
  div-div-eq-div-mul x 2 (2 ^ k),
  ap (λ (t : ℕ). 2 ^ k * t) (div-div-eq-div-mul x 2 (2 ^ k)),
  ap (λ (t : ℕ). x % t) (pow-succ' 2 k),
)

-- A mask of `k` ones keeps the low bits.
pub bit_and-low_mask : (x k : ℕ) → bit_and x (2 ^ k - 1) ≡ x % 2 ^ k
bit_and-low_mask x zero = omega (arith, bit_and-zero x)
bit_and-low_mask x (suc k) = omega (
  arith,
  bit_and_halves x (2 ^ suc k - 1),
  pow-succ' 2 k,
  one-le-pow k 2,
  ap (λ (t : ℕ). bit_and (x / 2) t) half,
  bit_and-low_mask (x / 2) k,
  mod_halves x k,
)
  where
    half : (2 ^ suc k - 1) / 2 ≡ 2 ^ k - 1
    half = omega (arith, pow-succ' 2 k, one-le-pow k 2)

pub digit-mod : (x w k : ℕ) → k < w → digit (x % 2 ^ w) k ≡ digit x k
digit-mod x zero k h = elim h [ ]
digit-mod x (suc w) zero h = omega (arith, mod_halves x w)
digit-mod x (suc w) (suc k) h =
    ap (λ t. digit t k) (omega (arith, mod_halves x w)) ∙ digit-mod (x / 2) w k (omega arith)

-- A field above bit `j`.
pub digit-shl_low : (x j k : ℕ) → k < j → digit (x * 2 ^ j) k ≡ 0
digit-shl_low x zero k h = elim h [ ]
digit-shl_low x (suc j) zero h = omega (arith, ap (λ (t : ℕ). x * t) (pow-succ' 2 j))
digit-shl_low x (suc j) (suc k) h =
    ap (λ t. digit t k) (omega (arith, ap (λ (t : ℕ). x * t) (pow-succ' 2 j)))
    ∙ digit-shl_low x j k (omega arith)

pub digit-shl : (x j k : ℕ) → digit (x * 2 ^ j) (j + k) ≡ digit x k
digit-shl x zero k = ap₂ digit shift_none index
  where
    shift_none : x * 1 ≡ x
    shift_none = omega arith

    index : 0 + k ≡ k
    index = omega arith
digit-shl x (suc j) k =
    ap (λ (t : ℕ). digit (x * 2 ^ suc j) t) shift
    ∙ ap (λ t. digit t (j + k)) (omega (arith, ap (λ (t : ℕ). x * t) (pow-succ' 2 j)))
    ∙ digit-shl x j k
  where
    shift : suc j + k ≡ suc (j + k)
    shift = omega arith

-- The operations stay within the width of a word.
pub bit_and-le : (n x y : ℕ) → x ≤ n → bit_and x y ≤ x
bit_and-le n zero y h = omega (arith, bit_and-bitwise 0 y)
bit_and-le zero (suc x) y h = elim h [ ]
bit_and-le (suc n) (suc x) y h =
    omega (arith, bit_and_halves (suc x) y, bit_and-le n (suc x / 2) (y / 2) (omega arith))

pub bit_and-le_right : (n x y : ℕ) → y ≤ n → bit_and x y ≤ y
bit_and-le_right n x zero h = omega (arith, bit_and-zero x)
bit_and-le_right zero x (suc y) h = elim h [ ]
bit_and-le_right (suc n) x (suc y) h =
    omega (arith, bit_and_halves x (suc y), bit_and-le_right n (x / 2) (suc y / 2) (omega arith))

pub bit_or-lt : (w x y : ℕ) → x < 2 ^ w → y < 2 ^ w → bit_or x y < 2 ^ w
bit_or-lt zero zero zero hx hy = omega (arith, bit_or-bitwise 0 0)
bit_or-lt zero zero (suc y) hx hy = absurd (omega arith)
bit_or-lt zero (suc x) y hx hy = absurd (omega arith)
bit_or-lt (suc w) x y hx hy = omega (
  arith,
  bit_or_halves x y,
  pow-succ' 2 w,
  bit_or-lt w (x / 2) (y / 2) (omega (arith, pow-succ' 2 w)) (omega (arith, pow-succ' 2 w)),
)

pub bit_xor-lt : (w x y : ℕ) → x < 2 ^ w → y < 2 ^ w → bit_xor x y < 2 ^ w
bit_xor-lt zero zero zero hx hy = omega (arith, bit_xor-bitwise 0 0)
bit_xor-lt zero zero (suc y) hx hy = absurd (omega arith)
bit_xor-lt zero (suc x) y hx hy = absurd (omega arith)
bit_xor-lt (suc w) x y hx hy = omega (
  arith,
  bit_xor_halves x y,
  pow-succ' 2 w,
  bit_xor-lt w (x / 2) (y / 2) (omega (arith, pow-succ' 2 w)) (omega (arith, pow-succ' 2 w)),
)

bit_or-zero_below : (n x : ℕ) → x ≤ n → bit_or x 0 ≡ x
bit_or-zero_below n zero h = bit_or-bitwise 0 0
bit_or-zero_below zero (suc x) h = elim h [ ]
bit_or-zero_below (suc n) (suc x) h =
    omega (arith, bit_or_halves (suc x) 0, bit_or-zero_below n (suc x / 2) (omega arith))

pub bit_or-zero : (x : ℕ) → bit_or x 0 ≡ x
bit_or-zero x = bit_or-zero_below x x (omega arith)

-- A field above bit `k` beside one below it.
pub bit_or-shl : (k q r : ℕ) → r < 2 ^ k → bit_or (q * 2 ^ k) r ≡ q * 2 ^ k + r
bit_or-shl zero q zero h = omega (arith, bit_or-zero (q * 1))
bit_or-shl zero q (suc r) h = absurd (omega arith)
bit_or-shl (suc k) q r h =
    bit_or_halves (q * 2 ^ suc k) r
    ∙ omega (
      arith,
      ap (λ (t : ℕ). bit_or t (r / 2)) half,
      double,
      bit_or-shl k q (r / 2) (omega (arith, pow-succ' 2 k)),
    )
  where
    double : q * 2 ^ suc k ≡ 2 * (q * 2 ^ k)
    double = omega (arith, ap (λ (t : ℕ). q * t) (pow-succ' 2 k))

    half : q * 2 ^ suc k / 2 ≡ q * 2 ^ k
    half = omega (arith, double)

pub bit_and-double : (x y : ℕ) → bit_and x (2 * y) ≡ bit_and (x / 2) y * 2
bit_and-double x y = omega (arith, bit_and_halves x (2 * y), ap (λ (t : ℕ). bit_and (x / 2) t) half)
  where
    half : 2 * y / 2 ≡ y
    half = omega arith

-- A mask of higher bits.
pub bit_and-shl : (x y k : ℕ) → bit_and x (y * 2 ^ k) ≡ bit_and (x / 2 ^ k) y * 2 ^ k
bit_and-shl x y zero = ap₂ (λ (s t : ℕ). bit_and s t) whole one ∙ one_of
  where
    whole : x ≡ x / 2 ^ 0
    whole = omega arith

    one : y * 2 ^ 0 ≡ y
    one = omega arith

    one_of : bit_and (x / 2 ^ 0) y ≡ bit_and (x / 2 ^ 0) y * 2 ^ 0
    one_of = omega arith
bit_and-shl x y (suc k) = omega (
  arith,
  ap (λ (t : ℕ). bit_and x t) double,
  bit_and-double x (y * 2 ^ k),
  bit_and-shl (x / 2) y k,
  ap (λ (t : ℕ). bit_and t y * 2 ^ k) shift,
  ap (λ (t : ℕ). bit_and (x / 2 ^ suc k) y * t) (pow-succ' 2 k),
)
  where
    double : y * 2 ^ suc k ≡ 2 * (y * 2 ^ k)
    double = omega (arith, ap (λ (t : ℕ). y * t) (pow-succ' 2 k))

    shift : x / 2 / 2 ^ k ≡ x / 2 ^ suc k
    shift = div-div-eq-div-mul x 2 (2 ^ k) ∙ ap (λ (t : ℕ). x / t) (sym (pow-succ' 2 k))

pub bit_or_comm : (w x y : ℕ) → x < 2 ^ w → y < 2 ^ w → bit_or x y ≡ bit_or y x
bit_or_comm w x y hx hy =
    digit_ext w (bit_or x y) (bit_or y x) (bit_or-lt w x y hx hy) (bit_or-lt w y x hy hx)
      (λ k h. omega (arith, digit-bit_or x y k, digit-bit_or y x k))
