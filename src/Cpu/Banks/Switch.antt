-- ===== src/Cpu/Banks/Switch.antt =====
-- What a CPSR write does to the registers of every bank.
use advanced_slop.Base.{
  ℕ, ◌≤◌, ◌≡◌, refl, arith, ap, Bool, true, false, ◌==◌, ==_iff, if◌then◌else◌, Bool-cases, inl,
  inr, some, length,
}
use mathlib.Core.Path.{subst}
use advanced_slop.Cpu.{ThreadRegs, mode}
use advanced_slop.Cpu.Interrupts.{cpu_check_for_interrupt}
use advanced_slop.Cpu.Banks.{Bank, mode_bank, switch_mode, thread_set_cpsr}
use advanced_slop.Cpu.Banks.Physical.{
  SameFile, SameFile-self, SameFile-status, cpsr-switch_banks, switch_banks-SameFile,
}
use advanced_slop.Emu.{Emu}

module _ {R : Type 0} where
  pub regs-cpu_check_for_interrupt : (e : Emu R) → (cpu_check_for_interrupt e).regs ≡ e.regs
  unfolding cpu_check_for_interrupt
  regs-cpu_check_for_interrupt e = ground arith

switch_mode-SameFile :
    (current target : ℕ) (r : ThreadRegs) (c t : Bank)
    → mode_bank current ≡ some c
    → mode_bank target ≡ some t
    → 8 ≤ length r.gp_regs
    → SameFile c r t (switch_mode current target r)
unfolding switch_mode
switch_mode-SameFile current target r c t hc ht full = elim (Bool-cases (current == target)) [
  | inl e ↦
      let eq : current ≡ target = (==_iff current target).0 e in
      let one_bank : c ≡ t = cc (ap mode_bank eq) in
      rw e (subst (λ b. SameFile c r b r) one_bank (SameFile-self r full c))
  | inr ne ↦ rw (ne, hc, ht) (switch_banks-SameFile r full c t)
]

cpsr-switch_mode :
    (current target : ℕ) (r : ThreadRegs) (c t : Bank)
    → mode_bank current ≡ some c
    → mode_bank target ≡ some t
    → (switch_mode current target r).cpsr ≡ r.cpsr
unfolding switch_mode
cpsr-switch_mode current target r c t hc ht = elim (Bool-cases (current == target)) [
  | inl e ↦ rw e refl
  | inr e ↦ rw (e, hc, ht) (cpsr-switch_banks r c t)
]

module _ {R : Type 0} where
  -- The status before the switch is saved.
  pub spsr-thread_set_cpsr :
      (value : ℕ) (e : Emu R) (c t : Bank)
      → mode_bank (mode e.regs.cpsr) ≡ some c
      → mode_bank (mode value) ≡ some t
      → (thread_set_cpsr value true e).regs.spsr ≡ e.regs.cpsr
  unfolding thread_set_cpsr
  spsr-thread_set_cpsr value e c t hc ht =
      rw regs-cpu_check_for_interrupt
        (cpsr-switch_mode (mode e.regs.cpsr) (mode value) e.regs c t hc ht)

  pub regs-thread_set_cpsr :
      (value : ℕ) (e : Emu R)
      → (thread_set_cpsr value false e).regs
        ≡ record (switch_mode (mode e.regs.cpsr) (mode value) e.regs) { cpsr = value }
  unfolding thread_set_cpsr
  regs-thread_set_cpsr value e = rw regs-cpu_check_for_interrupt

  -- If both modes have a bank, writing CPSR sets it to the value and keeps every register of every
  -- bank, SPSR aside: what was live is stored, and the registers of the new mode's bank are live.
  pub thread_set_cpsr-SameFile :
      (value : ℕ) (save : Bool) (e : Emu R) (c t : Bank)
      → mode_bank (mode e.regs.cpsr) ≡ some c
      → mode_bank (mode value) ≡ some t
      → 8 ≤ length e.regs.gp_regs
      → SameFile c e.regs t (thread_set_cpsr value save e).regs
        × ((thread_set_cpsr value save e).regs.cpsr ≡ value)
  unfolding thread_set_cpsr
  thread_set_cpsr-SameFile value save e c t hc ht full =
      let r : ThreadRegs = switch_mode (mode e.regs.cpsr) (mode value) e.regs in
      let kept = switch_mode-SameFile (mode e.regs.cpsr) (mode value) e.regs c t hc ht full in
      let written : Emu R = record e {
        regs = record r { spsr = if save then r.cpsr else r.spsr; cpsr = value };
      } in
      (
        rw (regs-cpu_check_for_interrupt written)
            (SameFile-status (if save then r.cpsr else r.spsr) value kept),
        ap (λ (q : ThreadRegs). q.cpsr) (regs-cpu_check_for_interrupt written),
      )

  -- SPSR of the IRQ bank does not survive a visit to the supervisor mode by way of the system mode:
  -- the switches between IRQ and system leave SPSR alone, and that from system to supervisor
  -- replaces it.
  pub irq_spsr_lost :
      (e : Emu R)
      → mode e.regs.cpsr ≡ 0x12
      → let set = λ (m : ℕ) (s : Emu R). thread_set_cpsr m false s in
        (set 0x12 (set 0x1f (set 0x13 (set 0x1f e)))).regs.spsr ≡ e.regs.svc.spsr
  unfolding switch_mode
  irq_spsr_lost e h = simp regs-thread_set_cpsr (rw h refl)
