-- ===== src/Rtc/Transfer.antt =====
-- Transfers over the GPIO port: a bit is a clock pulse, which takes two writes.
use advanced_slop.Base.{
  ℕ, ◌+◌, ◌*◌, ◌%◌, ◌≤◌, ◌<◌, ◌≡◌, refl, sym, ◌∙◌, arith, List, [], ◌∷◌, Bool, true, false, not,
  ◌&&◌, ◌==◌, if◌then◌else◌, Option, none, some, length, of_bool,
}
use advanced_slop.Base.Word.{u8}
use advanced_slop.Rtc.{Rtc, Now, set_lines, is_output, transfer_bit, update_rtc, write_gp_data}
use advanced_slop.Rtc.Panics.{
  is_none, HasDate, Keeps, Keeps-transfer_bit, clocked, is_none-transfer_bit,
}

abbrev pub and_then {ℓ} : {A B : Type ℓ} → Option A → (A → Option B) → Option B
and_then none f = none
and_then (some a) f = f a

-- SIO is set while SCK is low, and transferred when it rises; CS stays high.
unfoldable pub pulse : Now → Bool → Rtc → Option Rtc
pulse now sio r =
    and_then (write_gp_data now 0xffff (4 + 2 * of_bool sio) r)
      (write_gp_data now 0xffff (5 + 2 * of_bool sio))

unfoldable pub send : Now → List Bool → Rtc → Option Rtc
unfolding pulse
send now [] r = some r
send now (bit ∷ bits) r = and_then (pulse now bit r) (send now bits)

-- A clock with a date of seven bytes that has counted to `n` at most.
unfoldable pub Good : ℕ → Option Rtc → Type 0
Good n none = false ≡ true
Good n (some s) = HasDate s × (s.write_count ≤ n)

Good-shown : (n : ℕ) (o : Option Rtc) → Good n o → is_none o ≡ false
unfolding Good
Good-shown n none h = sym h
Good-shown n (some s) h = refl

Good-le : (m n : ℕ) (o : Option Rtc) → m ≤ n → Good m o → Good n o
unfolding Good
Good-le m n none le h = h
Good-le m n (some s) le h = (h.0, omega (arith, le, h.1))

Good-and_then :
    (m n : ℕ) (o : Option Rtc) (f : Rtc → Option Rtc)
    → Good m o
    → ((s : Rtc) → HasDate s → s.write_count ≤ m → Good n (f s))
    → Good n (and_then o f)
unfolding Good
Good-and_then m n none f h k = h
Good-and_then m n (some s) f h k = k s (h.0) (h.1)

Good-if :
    (n : ℕ) (b : Bool) (x y : Option Rtc)
    → (b ≡ true → Good n x)
    → (b ≡ false → Good n y)
    → Good n (if b then x else y)
Good-if n true x y h k = h refl
Good-if n false x y h k = k refl

-- A bit that is transferred adds one to the count.
Good-counted :
    (cs sck : ℕ) (r : Rtc) (o : Option (ℕ × Rtc))
    → is_none o ≡ false
    → Keeps r o
    → Good (r.write_count + 1) (elim o [
      | none ↦ none
      | some t ↦
          some (set_lines cs sck (t.0) (record (t.1) { write_count = u8 (t.1.write_count + 1) }))
    ])
unfolding Good Keeps
Good-counted cs sck r none shown kept = sym shown
Good-counted cs sck r (some t) shown kept = (kept.1, omega (arith, kept.0))

Good-update_rtc :
    (now : Now) (cs sck sio : ℕ) (r : Rtc)
    → HasDate r
    → r.write_count < 32
    → Good
        (if clocked cs sck r then r.write_count + 1 else r.write_count)
        (update_rtc now cs sck sio r)
unfolding update_rtc Good
Good-update_rtc now cs sck sio r h below =
    let n : ℕ = if clocked cs sck r then r.write_count + 1 else r.write_count in
    let shown : is_none (transfer_bit now sio r) ≡ false =
      is_none-transfer_bit now sio r h ∙ ground (arith, below) in
    Good-if n (cs == 0) _ _ (λ _. (h, omega arith))
      (λ selected.
        Good-if n (r.sck == 0 && not (sck == 0)) _ _
          (λ rises.
            Good-le (r.write_count + 1) n _ (ground (arith, selected, rises)) (
              Good-counted cs sck r (transfer_bit now sio r) shown
                (Keeps-transfer_bit now sio r h)))
          (λ _. (h, ground arith)))

-- Low SCK is no rising edge, whatever its direction is.
low-count :
    (cs : ℕ) (sio : Bool) (r : Rtc)
    → (if clocked cs (if is_output 0 r then (4 + 2 * of_bool sio) % 2 else r.sck) r
        then r.write_count + 1
        else r.write_count)
      ≤ r.write_count
low-count cs sio r = ground arith

-- What the two writes of a pulse leave of the count.
Good-low :
    (now : Now) (sio : Bool) (r : Rtc)
    → HasDate r
    → r.write_count < 32
    → Good r.write_count (write_gp_data now 0xffff (4 + 2 * of_bool sio) r)
unfolding write_gp_data
Good-low now sio r h below =
    Good-le _ r.write_count _ (low-count _ sio r) (Good-update_rtc now _ _ _ r h below)

Good-high :
    (now : Now) (value : ℕ) (r : Rtc)
    → HasDate r
    → r.write_count < 32
    → Good (r.write_count + 1) (write_gp_data now 0xffff value r)
unfolding write_gp_data
Good-high now value r h below =
    Good-le _ (r.write_count + 1) _ (ground arith) (Good-update_rtc now _ _ _ r h below)

Good-pulse :
    (now : Now) (sio : Bool) (r : Rtc)
    → HasDate r
    → r.write_count < 32
    → Good (r.write_count + 1) (pulse now sio r)
unfolding pulse
Good-pulse now sio r h below =
    Good-and_then r.write_count (r.write_count + 1) _ _ (Good-low now sio r h below) (λ s hs le.
      Good-le (s.write_count + 1) (r.write_count + 1) _ (omega (arith, le))
        (Good-high now _ s hs (omega (arith, le, below))))

-- From a date of seven bytes the pulses of a transfer up to the 32nd never panic, whatever the
-- command, the bits, the direction of the lines and the host's time are; they leave a date of seven
-- bytes, and a count that has grown by at most one for each pulse.
pub send_returns :
    (now : Now) (bits : List Bool) (r : Rtc)
    → length r.date_time ≡ 7
    → r.write_count + length bits ≤ 32
    → Good (r.write_count + length bits) (send now bits r)
unfolding send Good
send_returns now [] r h fits = (h, omega arith)
send_returns now (bit ∷ bits) r h fits =
    Good-and_then (r.write_count + 1) (r.write_count + length (bit ∷ bits)) (pulse now bit r)
      (send now bits) (Good-pulse now bit r h (omega (arith, fits)))
      (λ s hs le.
        Good-le (s.write_count + length bits) _ _ (omega (arith, le))
          (send_returns now bits s hs (omega (arith, le, fits))))
