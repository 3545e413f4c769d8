-- ===== src/Rtc/Dates.antt =====
-- What the date register answers of the host's clock.
use advanced_slop.Base.{
  ℕ, ◌+◌, ◌*◌, ◌/◌, ◌%◌, ◌^◌, ◌<◌, ◌≡◌, refl, ap, ap₂, ◌∙◌, arith, List, [], ◌∷◌, Bool, true, false,
  ◌==◌, leb, if◌then◌else◌, bit_and, bit_or, of_bool,
}
use advanced_slop.Base.Digits.{bit_or-shl, bit_or-zero, bit_or_halves}
use advanced_slop.Rtc.{Now, bcd, date_of}

bcd_lem : (v : ℕ) → v < 100 → bcd v ≡ v / 10 * 16 + v % 10
unfolding bcd
bcd_lem v small =
    ap (λ t. bit_or t (v % 10)) (omega arith) ∙ bit_or-shl 4 (v / 10) (v % 10) (omega arith)

-- The number that two decimal digits show.
abbrev pub decimal : ℕ → ℕ
decimal byte = byte / 16 * 10 + byte % 16

decimal-bcd : (v : ℕ) → v < 100 → decimal (bcd v) ≡ v
decimal-bcd v small = rw (bcd_lem v small) (omega arith)

bit_or-64 : (x : ℕ) → x < 64 → bit_or x 64 ≡ x + 64
bit_or-64 x small = omega (
  arith,
  bit_or_halves x 64,
  bit_or_halves (x / 2) 32,
  bit_or_halves (x / 2 / 2) 16,
  bit_or_halves (x / 2 / 2 / 2) 8,
  bit_or_halves (x / 2 / 2 / 2 / 2) 4,
  bit_or_halves (x / 2 / 2 / 2 / 2 / 2) 2,
  bit_or_halves (x / 2 / 2 / 2 / 2 / 2 / 2) 1,
  bit_or-zero (x / 2 / 2 / 2 / 2 / 2 / 2 / 2),
)

-- The hour shares its byte with the PM flag in bit 6.
abbrev hour_byte : Bool → ℕ → ℕ
hour_byte pm h = if pm then bit_or (bcd h) (2 ^ 6) else bcd h

hour_byte_lem :
    (h : ℕ) (pm : Bool)
    → h < 24
    → (decimal (hour_byte pm h % 64) ≡ h) × (hour_byte pm h / 64 ≡ of_bool pm)
hour_byte_lem h true small =
    rw (bcd_lem h (omega (arith, small))) rw
      (bit_or-64 (h / 10 * 16 + h % 10) (omega (arith, small)))
      (omega (arith, small), omega (arith, small))
hour_byte_lem h false small =
    rw (bcd_lem h (omega (arith, small))) (omega (arith, small), omega (arith, small))

cons : {x y : ℕ} {xs ys : List ℕ} → x ≡ y → xs ≡ ys → x ∷ xs ≡ y ∷ ys
cons p q = ap₂ (λ t ts. t ∷ ts) p q

-- The fields of the host's clock have two digits, and the hour is below 24.
unfoldable pub IsTime : Now → Type 0
IsTime now =
    (now.month < 100)
    × (now.day < 100)
    × (now.weekday < 100)
    × (now.hour < 24)
    × (now.minute < 100)
    × (now.second < 100)

-- The hour that the register shows, in the 24 hour mode or in the other.
abbrev pub shown_hour : ℕ → Now → ℕ
shown_hour control now = if bit_and control (2 ^ 6) == 0 then now.hour % 12 else now.hour

-- The fields that the seven bytes say, PM last.
abbrev pub decode : List ℕ → List ℕ
decode (year ∷ month ∷ day ∷ weekday ∷ hour ∷ minute ∷ second ∷ []) =
    decimal year
    ∷ decimal month
    ∷ decimal day
    ∷ decimal weekday
    ∷ decimal (hour % 64)
    ∷ decimal minute
    ∷ decimal second
    ∷ hour / 64
    ∷ []
decode _ = []

-- For a time in range the seven bytes decode to the fields of the host's clock, the year modulo
-- 100 and the hour in the mode of the control register, and to the PM flag.
pub decode-date_of :
    (now : Now) (control : ℕ)
    → IsTime now
    → decode (date_of now control)
      ≡ now.year % 100
        ∷ now.month
        ∷ now.day
        ∷ now.weekday
        ∷ shown_hour control now
        ∷ now.minute
        ∷ now.second
        ∷ of_bool (leb 12 now.hour)
        ∷ []
unfolding date_of IsTime
decode-date_of now control (month, day, weekday, hour, minute, second) =
    let shown : shown_hour control now < 24 = ground (arith, hour) in
    let (h, pm) = hour_byte_lem (shown_hour control now) (leb 12 now.hour) shown in
    cons (decimal-bcd (now.year % 100) (omega arith)) (
      cons (decimal-bcd now.month month) (
        cons (decimal-bcd now.day day) (
          cons (decimal-bcd now.weekday weekday) (
            cons h (
              cons (decimal-bcd now.minute minute)
                (cons (decimal-bcd now.second second) (cons pm refl)))))))
