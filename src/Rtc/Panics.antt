-- ===== src/Rtc/Panics.antt =====
-- When an access of the clock leaves the seven bytes of the date.
use advanced_slop.Base.{
  ℕ, zero, suc, ◌+◌, ◌-◌, ◌/◌, ◌%◌, ◌^◌, ◌≤◌, ◌≡◌, refl, ap, ◌∙◌, arith, List, [], ◌∷◌, Bool, true,
  false, not, ◌&&◌, ◌==◌, ltb, leb, if◌then◌else◌, Option, none, some, get_elem?, length, bit_and,
}
use advanced_slop.Base.Word.{u8}
use advanced_slop.Rtc.{
  Rtc, Now, update_date_time, date_of, sampled, date_time_bit, read_register, write_register,
  receive_command, transfer_bit, set_lines, update_rtc,
}

abbrev pub is_none {ℓ} : {A : Type ℓ} → Option A → Bool
is_none none = true
is_none (some a) = false

is_none-get_elem? : (xs : List ℕ) (i : ℕ) → is_none (get_elem? xs i) ≡ leb (length xs) i
is_none-get_elem? [] i = ground arith
is_none-get_elem? (x ∷ xs) zero = ground arith
is_none-get_elem? (x ∷ xs) (suc i) = is_none-get_elem? xs i ∙ ground arith

-- The register that a command addresses.
abbrev pub register : Rtc → ℕ
register r = bit_and (r.command / 2) 7

abbrev pub reads : Rtc → Bool
reads r = not (bit_and r.command 1 == 0)

abbrev pub HasDate : Rtc → Type 0
HasDate r = length r.date_time ≡ 7

length-sampled : (now : Now) (r : Rtc) → HasDate r → HasDate (sampled now r)
unfolding update_date_time date_of
length-sampled now r h = ground (arith, h)

-- An access of register `index` panics if it does so here.
abbrev pub outside : ℕ → Rtc → Bool
outside index r =
    if index == 2 then leb 64 r.write_count else if index == 3 then leb 32 r.write_count else false

-- What an access leaves: the count, and a date of seven bytes.
unfoldable pub Keeps : Rtc → Option (ℕ × Rtc) → Type 0
Keeps r none = true ≡ true
Keeps r (some t) = (t.1.write_count ≡ r.write_count) × HasDate (t.1)

is_none-elim :
    (o : Option ℕ) (f : ℕ → ℕ × Rtc)
    → is_none {A = ℕ × Rtc} (elim o [ none ↦ none | some byte ↦ some (f byte) ]) ≡ is_none o
is_none-elim none f = refl
is_none-elim (some byte) f = refl

Keeps-elim :
    (o : Option ℕ) (f : ℕ → ℕ) (r s : Rtc)
    → s.write_count ≡ r.write_count
    → HasDate s
    → Keeps r (elim o [ none ↦ none | some byte ↦ some (f byte, s) ])
unfolding Keeps
Keeps-elim none f r s e h = refl
Keeps-elim (some byte) f r s e h = (e, h)

is_none-date_time_bit :
    (index : ℕ) (r : Rtc) → HasDate r → is_none (date_time_bit index r) ≡ leb 7 index
is_none-date_time_bit index r h =
    is_none-elim (get_elem? r.date_time index) (λ byte. (byte / 2 ^ (r.write_count % 8) % 2, r))
    ∙ (is_none-get_elem? r.date_time index ∙ ap (λ n. leb n index) h)

sampled-write_count : (now : Now) (r : Rtc) → (sampled now r).write_count ≡ r.write_count
unfolding update_date_time
sampled-write_count now r = ground arith

is_none-read_register :
    (now : Now) (index : ℕ) (r : Rtc)
    → HasDate r
    → 8 ≤ r.write_count
    → is_none (read_register now index r) ≡ outside index r
unfolding read_register
is_none-read_register now index r h started = ground (
  arith,
  is_none-date_time_bit (r.write_count / 8 - 1) (sampled now r) (length-sampled now r h),
  is_none-date_time_bit (r.write_count / 8 + 4 - 1) (sampled now r) (length-sampled now r h),
)

Keeps-date_time_bit :
    (now : Now) (index : ℕ) (r : Rtc) → HasDate r → Keeps r (date_time_bit index (sampled now r))
Keeps-date_time_bit now index r h =
    let s : Rtc = sampled now r in
    Keeps-elim (get_elem? s.date_time index) (λ byte. byte / 2 ^ (s.write_count % 8) % 2) r s
      (sampled-write_count now r) (length-sampled now r h)

Keeps-if :
    (r : Rtc) (b : Bool) (x y : Option (ℕ × Rtc))
    → Keeps r x
    → Keeps r y
    → Keeps r (if b then x else y)
Keeps-if r true x y h k = h
Keeps-if r false x y h k = k

Keeps-read_register :
    (now : Now) (index : ℕ) (r : Rtc) → HasDate r → Keeps r (read_register now index r)
unfolding read_register Keeps
Keeps-read_register now index r h =
    Keeps-if r (index == 0) _ _ (refl, h)
      (Keeps-if r (index == 1) _ _ (refl, h)
        (Keeps-if r (index == 2) _ _
          (Keeps-if r (r.write_count / 8 == 0) _ _ refl (Keeps-date_time_bit now _ r h))
          (Keeps-if r (index == 3) _ _ (Keeps-date_time_bit now _ r h) (refl, h))))

write_register-kept :
    (index value : ℕ) (r : Rtc)
    → ((write_register index value r).write_count ≡ r.write_count)
      × ((write_register index value r).date_time ≡ r.date_time)
unfolding write_register
write_register-kept index value r = ground arith

pub Keeps-transfer_bit :
    (now : Now) (sio : ℕ) (r : Rtc) → HasDate r → Keeps r (transfer_bit now sio r)
unfolding transfer_bit receive_command Keeps
Keeps-transfer_bit now sio r h =
    Keeps-if r (ltb r.write_count 8) _ _ (refl, h)
      (Keeps-if r (not (bit_and r.command 1 == 0)) _ _ (Keeps-read_register now (register r) r h) (
        (write_register-kept (register r) sio r).0,
        ap length (write_register-kept (register r) sio r).1 ∙ h,
      ))

pub is_none-transfer_bit :
    (now : Now) (sio : ℕ) (r : Rtc)
    → HasDate r
    → is_none (transfer_bit now sio r) ≡ (leb 8 r.write_count && reads r && outside (register r) r)
unfolding transfer_bit
is_none-transfer_bit now sio r h = ground (arith, is_none-read_register now (register r) r h)

-- A rising edge of SCK while CS is high.
abbrev pub clocked : ℕ → ℕ → Rtc → Bool
clocked cs sck r = not (cs == 0) && r.sck == 0 && not (sck == 0)

is_none-some :
    (o : Option (ℕ × Rtc)) (f : ℕ × Rtc → Rtc)
    → is_none {A = Rtc} (elim o [ none ↦ none | some t ↦ some (f t) ]) ≡ is_none o
is_none-some none f = refl
is_none-some (some t) f = refl

-- For a date of seven bytes the clock panics exactly if a rising edge of SCK reads the date after 64
-- bits of the transfer, or the time of day after 32.
pub update_rtc_panics :
    (now : Now) (cs sck sio : ℕ) (r : Rtc)
    → length r.date_time ≡ 7
    → is_none (update_rtc now cs sck sio r)
      ≡ (clocked cs sck r && leb 8 r.write_count && reads r && outside (register r) r)
unfolding update_rtc
update_rtc_panics now cs sck sio r h =
    let f = λ (t : ℕ × Rtc).
      set_lines cs sck (t.0) (record (t.1) { write_count = u8 (t.1.write_count + 1) }) in
    ground (arith, is_none-some (transfer_bit now sio r) f, is_none-transfer_bit now sio r h)
