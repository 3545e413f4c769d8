-- ===== src/Interp/Condition/Codes.antt =====
-- The condition codes as the architecture defines them, against the table.
use advanced_slop.Base.{
  ℕ, ◌+◌, ◌*◌, ◌/◌, ◌%◌, ◌^◌, ◌<◌, ◌≤◌, ◌≡◌, refl, ap, ◌∙◌, arith, Bool, true, false, not, ◌&&◌,
  ◌||◌, ◌==◌, ==_iff, if◌then◌else◌, ltb, leb, leb→le, leb→lt, ltb→lt, ltb→le, Bool-cases, inl, inr,
  bit_and, bit_or, not_zero, get_or,
}
use advanced_slop.Base.Table.{every, every_at}
use advanced_slop.Interp.Condition.{condition_table, condition_index, runs}

abbrev pub bool_eq : Bool → Bool → Bool
bool_eq true b = b
bool_eq false b = not b

-- Condition `code` on the flags N, Z, C, V, numbered from their nibble.
abbrev pub passes : ℕ → ℕ → Bool
passes code flags =
    let n : Bool = flags / 8 % 2 == 1 in
    let z : Bool = flags / 4 % 2 == 1 in
    let c : Bool = flags / 2 % 2 == 1 in
    let v : Bool = flags % 2 == 1 in
    if code == 0
    then z
    else if code == 1
    then not z
    else if code == 2
    then c
    else if code == 3
    then not c
    else if code == 4
    then n
    else if code == 5
    then not n
    else if code == 6
    then v
    else if code == 7
    then not v
    else if code == 8
    then c && not z
    else if code == 9
    then not c || z
    else if code == 10
    then bool_eq n v
    else if code == 11
    then not (bool_eq n v)
    else if code == 12
    then not z && bool_eq n v
    else if code == 13
    then z || not (bool_eq n v)
    else code == 14

table_checked :
    every 14 (λ code. every 16 (λ flags.
      bool_eq (not_zero (get_or condition_table (code * 16 + flags) 0)) (passes code flags)))
    ≡ true
unfolding every
table_checked = refl

join_checked : every 16 (λ q. every 16 (λ r. bit_or (q * 16) r == q * 16 + r)) ≡ true
unfolding every
join_checked = refl

high_checked : every 256 (λ y. bit_and y 0xf0 == y / 16 * 16) ≡ true
unfolding every
high_checked = refl

bool_eq→eq : (a b : Bool) → bool_eq a b ≡ true → a ≡ b
bool_eq→eq a b h = ground arith

table_at :
    (code flags : ℕ)
    → code < 14
    → flags < 16
    → not_zero (get_or condition_table (code * 16 + flags) 0) ≡ passes code flags
table_at code flags hc hf =
    bool_eq→eq _ _ (every_at 16 _ flags (every_at 14 _ code table_checked hc) hf)

index_lem :
    (opcode cpsr : ℕ)
    → opcode < 2 ^ 32
    → cpsr < 2 ^ 32
    → condition_index opcode cpsr ≡ opcode / 2 ^ 28 * 16 + cpsr / 2 ^ 28
unfolding condition_index
index_lem opcode cpsr ho hs =
    ap (λ (t : ℕ). bit_or t (cpsr / 2 ^ 28)) high
    ∙ (==_iff _ _).0 (
        every_at 16 _ (cpsr / 2 ^ 28) (every_at 16 _ (opcode / 2 ^ 28) join_checked (omega arith))
          (omega arith))
  where
    high : bit_and (opcode / 2 ^ 24) 0xf0 ≡ opcode / 2 ^ 28 * 16
    high =
        (==_iff _ _).0 (every_at 256 _ (opcode / 2 ^ 24) high_checked (omega arith)) ∙ omega arith

-- The two conditions that the loop decides without the table.
always :
    (opcode flags : ℕ)
    → opcode < 2 ^ 32
    → 0xe000_0000 ≤ opcode
    → ltb opcode 0xf000_0000 ≡ passes (opcode / 2 ^ 28) flags
always opcode flags small h = elim (Bool-cases (ltb opcode 0xf000_0000)) [
  | inl p ↦
      let code : opcode / 2 ^ 28 ≡ 14 = omega (arith, ltb→lt opcode 0xf000_0000 p) in
      rw (p, code) refl
  | inr p ↦
      let code : opcode / 2 ^ 28 ≡ 15 = omega (arith, ltb→le opcode 0xf000_0000 p) in
      rw (p, code) refl
]

-- For an instruction and a CPSR that are words, the interpreter runs the instruction exactly when its condition field holds of the flags in CPSR,
-- for all sixteen conditions; the sixteenth never holds.
pub runs-eq-passes :
    (opcode cpsr : ℕ)
    → opcode < 2 ^ 32
    → cpsr < 2 ^ 32
    → runs opcode cpsr ≡ passes (opcode / 2 ^ 28) (cpsr / 2 ^ 28)
unfolding runs
runs-eq-passes opcode cpsr ho hs = elim (Bool-cases (leb 0xe000_0000 opcode)) [
  | inl p ↦ rw p (always opcode (cpsr / 2 ^ 28) ho (leb→le 0xe000_0000 opcode p))
  | inr p ↦
      rw (p, index_lem opcode cpsr ho hs)
        (table_at (opcode / 2 ^ 28) (cpsr / 2 ^ 28) (omega (arith, leb→lt 0xe000_0000 opcode p))
          (omega arith))
]
