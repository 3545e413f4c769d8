-- ===== src/Bios/Exception/Return.antt =====
-- The return from an interrupt handler restores what the entry pushed.
use advanced_slop.Base.{
  ℕ, zero, suc, ◌+◌, ◌-◌, ◌*◌, ◌/◌, ◌%◌, ◌^◌, ◌<◌, ◌≤◌, ◌≡◌, refl, sym, ap, ap₂, ◌∙◌, arith, List,
  true, false, ◌==◌, if◌then◌else◌, some, bit_and, bit_or, of_bool, get_or, set, take, drop, length,
  length-set, get_or-take, get_or-drop, get_or-set_self, get_or-set_ne,
}
use advanced_slop.Base.Word.{u32, wrapping_sub32, has_bit_lem}
use advanced_slop.Base.Digits.{
  digit, digit-le, complement, digit-bit_or, digit-bit_and, digit-complement, digit-mod, digit_ext,
  digit-shl_low, digit-shl, digit-two_pow_ne, digit-two_pow_self, bit_and-low_mask, bit_and-shl,
  bit_or-shl,
}
use advanced_slop.Cpu.{ThreadRegs, mode, thumb}
use advanced_slop.Cpu.Banks.{Bank, irq, mode_bank, thread_set_cpsr}
use advanced_slop.Cpu.Banks.Physical.{is_fiq, user_high, low}
use advanced_slop.Cpu.Banks.Switch.{thread_set_cpsr-SameFile, spsr-thread_set_cpsr}
use advanced_slop.Emu.{Emu}
use advanced_slop.Bios.Exception.{
  irq_cpsr, with_thumb, regs_to_push, pop_regs, retag, enter_irq, leave_irq,
}

-- A field write keeps the digits outside the field.
mode-with_thumb : (s b : ℕ) → mode (with_thumb s b) ≡ mode s
unfolding with_thumb
mode-with_thumb s b =
    digit_ext 5 (mode (with_thumb s b)) (mode s) (omega arith) (omega arith) (λ k h.
      digit-mod (with_thumb s b) 5 k h
      ∙ omega (
        arith,
        digit-bit_or (bit_and s (complement 32 (2 ^ 5))) (b * 2 ^ 5) k,
        digit-bit_and s (complement 32 (2 ^ 5)) k,
        digit-complement 32 (2 ^ 5) k (omega arith) (omega (arith, h)),
        digit-two_pow_ne 5 k (λ e. absurd (omega (arith, e, h))),
        digit-shl_low b 5 k h,
        digit-le s k,
      )
      ∙ sym (digit-mod s 5 k h))

mode-irq_cpsr : (s : ℕ) → mode (irq_cpsr s) ≡ 0x12
unfolding irq_cpsr
mode-irq_cpsr s =
    digit_ext 5 (mode (irq_cpsr s)) 0x12 (omega arith) (omega arith)
      (λ k h. digit-mod (irq_cpsr s) 5 k h ∙ at k h)
  where
    at_bit :
        (k : ℕ)
        → (digit (complement 32 0xbf) k ≡ 0) × (digit 0x92 k ≡ digit 0x12 k)
        → digit (bit_or (bit_and s (complement 32 0xbf)) 0x92) k ≡ digit 0x12 k
    at_bit k h = omega (
      arith,
      digit-bit_or (bit_and s (complement 32 0xbf)) 0x92 k,
      digit-bit_and s (complement 32 0xbf) k,
      h.0,
      h.1,
    )

    at : (k : ℕ) → k < 5 → digit (bit_or (bit_and s (complement 32 0xbf)) 0x92) k ≡ digit 0x12 k
    at zero h = at_bit 0 (refl, refl)
    at (suc zero) h = at_bit 1 (refl, refl)
    at (suc (suc zero)) h = at_bit 2 (refl, refl)
    at (suc (suc (suc zero))) h = at_bit 3 (refl, refl)
    at (suc (suc (suc (suc zero)))) h = at_bit 4 (refl, refl)
    at (suc (suc (suc (suc (suc k))))) h = absurd (omega arith)

thumb-with_thumb : (s b : ℕ) → b < 2 → of_bool (thumb (with_thumb s b)) ≡ b
unfolding with_thumb
thumb-with_thumb s b h =
    ap (λ t. of_bool t) (has_bit_lem (with_thumb s b) 5)
    ∙ ap (λ (d : ℕ). of_bool (d == 1)) set_digit
    ∙ small
  where
    set_digit : digit (with_thumb s b) 5 ≡ b
    set_digit = omega (
      arith,
      digit-bit_or (bit_and s (complement 32 (2 ^ 5))) (b * 2 ^ 5) 5,
      digit-bit_and s (complement 32 (2 ^ 5)) 5,
      digit-complement 32 (2 ^ 5) 5 (omega arith) (omega arith),
      digit-two_pow_self 5,
      digit-shl b 5 0,
      h,
    )

    small : of_bool (b == 1) ≡ b
    small = ground (arith, h)

-- The tag of the return address is its own bit 0.
retag_same : (pc : ℕ) → pc < 2 ^ 32 → bit_or (bit_and pc (complement 32 1)) (pc % 2) ≡ pc
retag_same pc h =
    ap (λ (t : ℕ). bit_or t (pc % 2)) cleared ∙ bit_or-shl 1 (pc / 2) (pc % 2) (omega arith) ∙ whole
  where
    cleared : bit_and pc (complement 32 1) ≡ pc / 2 * 2 ^ 1
    cleared = omega (arith, bit_and-shl pc (2 ^ 31 - 1) 1, bit_and-low_mask (pc / 2) 31, h)

    whole : pc / 2 * 2 ^ 1 + pc % 2 ≡ pc
    whole = omega arith

get_or-set_other :
    (xs : List ℕ) (i j v : ℕ) → (i == j) ≡ false → get_or (set xs i v) j 0 ≡ get_or xs j 0
get_or-set_other xs i j v h = get_or-set_ne xs i j v 0 (λ e. absurd (ground (arith, e, h)))

-- R0 to R3 and R12 of two register files are the same.
abbrev pub SamePushed : List ℕ → List ℕ → Type 0
SamePushed xs ys =
    (get_or xs 0 0 ≡ get_or ys 0 0)
    × (get_or xs 1 0 ≡ get_or ys 1 0)
    × (get_or xs 2 0 ≡ get_or ys 2 0)
    × (get_or xs 3 0 ≡ get_or ys 3 0)
    × (get_or xs 12 0 ≡ get_or ys 12 0)

SamePushed-halves :
    (xs ys : List ℕ) → take 8 xs ≡ take 8 ys → drop 8 xs ≡ drop 8 ys → SamePushed xs ys
SamePushed-halves xs ys low high =
    (at 0 (omega arith), at 1 (omega arith), at 2 (omega arith), at 3 (omega arith), above)
  where
    at : (i : ℕ) → i < 8 → get_or xs i 0 ≡ get_or ys i 0
    at i h = sym (get_or-take 8 xs i 0 h) ∙ ap (λ t. get_or t i 0) low ∙ get_or-take 8 ys i 0 h

    above : get_or xs 12 0 ≡ get_or ys 12 0
    above = sym (get_or-drop 8 xs 4 0) ∙ ap (λ t. get_or t 4 0) high ∙ get_or-drop 8 ys 4 0

SamePushed-trans : (xs ys zs : List ℕ) → SamePushed xs ys → SamePushed ys zs → SamePushed xs zs
SamePushed-trans xs ys zs h k = (h.0 ∙ k.0, h.1 ∙ k.1, h.2 ∙ k.2, h.3 ∙ k.3, h.4 ∙ k.4)

length-pop_regs : (v : List ℕ) (r : ThreadRegs) → length (pop_regs v r).gp_regs ≡ length r.gp_regs
unfolding pop_regs
length-pop_regs v r =
    let g1 : List ℕ = set r.gp_regs 0 (get_or v 0 0) in
    let g2 : List ℕ = set g1 1 (get_or v 1 0) in
    let g3 : List ℕ = set g2 2 (get_or v 2 0) in
    length-set (set g3 3 (get_or v 3 0)) 12 (get_or v 4 0)
    ∙ length-set g3 3 (get_or v 3 0)
    ∙ length-set g2 2 (get_or v 2 0)
    ∙ length-set g1 1 (get_or v 1 0)
    ∙ length-set r.gp_regs 0 (get_or v 0 0)

-- The pops write what they read.
SamePushed-pop_regs :
    (entered r : ThreadRegs)
    → length r.gp_regs ≡ 13
    → SamePushed (pop_regs (regs_to_push entered) r).gp_regs entered.gp_regs
unfolding pop_regs
SamePushed-pop_regs entered r size =
    let v : List ℕ = regs_to_push entered in
    let g0 : List ℕ = r.gp_regs in
    let g1 : List ℕ = set g0 0 (get_or v 0 0) in
    let g2 : List ℕ = set g1 1 (get_or v 1 0) in
    let g3 : List ℕ = set g2 2 (get_or v 2 0) in
    let g4 : List ℕ = set g3 3 (get_or v 3 0) in
    let l1 : length g1 ≡ 13 = length-set g0 0 (get_or v 0 0) ∙ size in
    let l2 : length g2 ≡ 13 = length-set g1 1 (get_or v 1 0) ∙ l1 in
    let l3 : length g3 ≡ 13 = length-set g2 2 (get_or v 2 0) ∙ l2 in
    let l4 : length g4 ≡ 13 = length-set g3 3 (get_or v 3 0) ∙ l3 in
    let last : ℕ = get_or v 4 0 in
    (
      get_or-set_other g4 12 0 last refl
          ∙ get_or-set_other g3 3 0 (get_or v 3 0) refl
          ∙ get_or-set_other g2 2 0 (get_or v 2 0) refl
          ∙ get_or-set_other g1 1 0 (get_or v 1 0) refl
          ∙ get_or-set_self g0 0 (get_or v 0 0) 0 (omega (arith, size)),
      get_or-set_other g4 12 1 last refl
          ∙ get_or-set_other g3 3 1 (get_or v 3 0) refl
          ∙ get_or-set_other g2 2 1 (get_or v 2 0) refl
          ∙ get_or-set_self g1 1 (get_or v 1 0) 0 (omega (arith, l1)),
      get_or-set_other g4 12 2 last refl
          ∙ get_or-set_other g3 3 2 (get_or v 3 0) refl
          ∙ get_or-set_self g2 2 (get_or v 2 0) 0 (omega (arith, l2)),
      get_or-set_other g4 12 3 last refl
          ∙ get_or-set_self g3 3 (get_or v 3 0) 0 (omega (arith, l3)),
      get_or-set_self g4 12 last 0 (omega (arith, l4)),
    )

-- What the entry leaves for the return: the registers, the return address, and the status with its
-- tag, in the IRQ mode.
abbrev pub Entered : ThreadRegs → ThreadRegs → Type 0
Entered before r =
    SamePushed r.gp_regs before.gp_regs
    × (r.pc ≡ before.pc)
    × (r.spsr ≡ with_thumb before.cpsr (bit_and before.pc 1))
    × (mode r.cpsr ≡ 0x12)

-- What the return brings back.
abbrev pub Restored : ThreadRegs → ThreadRegs → Type 0
Restored before r =
    SamePushed r.gp_regs before.gp_regs
    × (r.pc ≡ before.pc)
    × (r.cpsr ≡ with_thumb before.cpsr (bit_and before.pc 1))

irq_bank : (status : ℕ) → mode status ≡ 0x12 → mode_bank (mode status) ≡ some irq
unfolding mode_bank
irq_bank status h = ap mode_bank h

-- The banks other than FIQ share R8 to R12.
shared_high : (c : Bank) (r : ThreadRegs) → is_fiq c ≡ false → user_high c r ≡ drop 8 r.gp_regs
shared_high c r slow = ap (λ b. if b then r.user.gp_regs else drop 8 r.gp_regs) slow

return_address :
    (pc word spsr : ℕ)
    → pc < 2 ^ 32
    → word ≡ u32 (pc + 4)
    → of_bool (thumb spsr) ≡ pc % 2
    → bit_or (bit_and (wrapping_sub32 word 4) (complement 32 1)) (of_bool (thumb spsr)) ≡ pc
return_address pc word spsr small word_lem tag =
    ap₂ (λ (a t : ℕ). bit_or (bit_and a (complement 32 1)) t) address tag ∙ retag_same pc small
  where
    address : wrapping_sub32 word 4 ≡ pc
    address = omega (arith, word_lem, small)

module _ {R : Type 0} where
  enter_irq-Entered :
      (e : Emu R) (c : Bank)
      → mode_bank (mode e.regs.cpsr) ≡ some c
      → is_fiq c ≡ false
      → 8 ≤ length e.regs.gp_regs
      → Entered e.regs (enter_irq e).regs
  unfolding enter_irq
  enter_irq-Entered e c hc slow full =
      let value : ℕ = irq_cpsr e.regs.cpsr in
      let target : mode_bank (mode value) ≡ some irq = irq_bank value (mode-irq_cpsr e.regs.cpsr) in
      let (kept, status) = thread_set_cpsr-SameFile value true e c irq hc target full in
      let r : ThreadRegs = (thread_set_cpsr value true e).regs in
      (
        SamePushed-halves r.gp_regs e.regs.gp_regs kept.same_low
            (kept.same_user_high ∙ shared_high c e.regs slow),
        kept.same_pc,
        ap₂ (λ (s p : ℕ). with_thumb s (bit_and p 1)) (spsr-thread_set_cpsr value e c irq hc target)
            kept.same_pc,
        ap mode status ∙ mode-irq_cpsr e.regs.cpsr,
      )

  leave_irq-Restored :
      (before entered : ThreadRegs) (e : Emu R) (c : Bank)
      → mode_bank (mode before.cpsr) ≡ some c
      → is_fiq c ≡ false
      → before.pc < 2 ^ 32
      → Entered before entered
      → length e.regs.gp_regs ≡ 13
      → e.regs.spsr ≡ entered.spsr
      → mode e.regs.cpsr ≡ 0x12
      → Restored before (leave_irq (regs_to_push entered) e).regs
  unfolding leave_irq pop_regs
  leave_irq-Restored before entered e c hc slow small h size same_spsr in_irq =
      let v : List ℕ = regs_to_push entered in
      let popped : ThreadRegs = retag (pop_regs v e.regs) in
      let spsr : e.regs.spsr ≡ with_thumb before.cpsr (bit_and before.pc 1) = same_spsr ∙ h.2 in
      let target : mode_bank (mode e.regs.spsr) ≡ some c =
        ap (λ (s : ℕ). mode_bank (mode s)) spsr
        ∙ ap mode_bank (mode-with_thumb before.cpsr (bit_and before.pc 1))
        ∙ hc in
      let (kept, status) =
        thread_set_cpsr-SameFile popped.spsr false (record e { regs = popped }) irq c
          (irq_bank popped.cpsr in_irq) target (omega (arith, length-pop_regs v e.regs, size)) in
      let r : ThreadRegs = (thread_set_cpsr popped.spsr false (record e { regs = popped })).regs in
      let tag : of_bool (thumb e.regs.spsr) ≡ before.pc % 2 =
        ap (λ s. of_bool (thumb s)) spsr
        ∙ thumb-with_thumb before.cpsr (bit_and before.pc 1)
            (omega (arith, bit_and-low_mask before.pc 1))
        ∙ bit_and-low_mask before.pc 1 in
      (
        SamePushed-trans r.gp_regs popped.gp_regs before.gp_regs
            (SamePushed-halves r.gp_regs popped.gp_regs kept.same_low
              (sym (shared_high c r slow) ∙ kept.same_user_high))
            (SamePushed-trans popped.gp_regs entered.gp_regs before.gp_regs
              (SamePushed-pop_regs entered e.regs size) h.0),
        kept.same_pc
            ∙ return_address before.pc (u32 (entered.pc + 4)) e.regs.spsr small
                (ap (λ (p : ℕ). u32 (p + 4)) h.1) tag,
        status ∙ spsr,
      )

  -- From a mode with a bank, other than FIQ, an interrupt entry followed by the return from its
  -- handler brings back R0 to R3, R12, PC and, but for the thumb bit, which comes from bit 0 of PC,
  -- CPSR; the handler may change anything but the pushed frame, SPSR and the mode.
  pub leave_irq-enter_irq :
      (e : Emu R) (c : Bank) (after : Emu R)
      → mode_bank (mode e.regs.cpsr) ≡ some c
      → is_fiq c ≡ false
      → length e.regs.gp_regs ≡ 13
      → e.regs.pc < 2 ^ 32
      → length after.regs.gp_regs ≡ 13
      → after.regs.spsr ≡ (enter_irq e).regs.spsr
      → mode after.regs.cpsr ≡ 0x12
      → Restored e.regs (leave_irq (regs_to_push (enter_irq e).regs) after).regs
  leave_irq-enter_irq e c after hc slow size small size' same_spsr in_irq =
      leave_irq-Restored e.regs (enter_irq e).regs after c hc slow small
        (enter_irq-Entered e c hc slow (omega (arith, size))) size' same_spsr in_irq
