-- ===== src/Cpu/Banks/Physical.antt =====
-- The physical register file behind src/core/thread_regs.rs: each bank's registers, live or stored.
use advanced_slop.Base.{
  ℕ, ◌≤◌, ◌≡◌, refl, ◌∙◌, arith, List, Bool, true, false, if◌then◌else◌, some, take, drop, length,
  drop-take-append, take-take-append, ◌++◌,
}
use advanced_slop.Cpu.{ThreadRegs}
use advanced_slop.Cpu.Banks.{Bank, usr, fiq, irq, svc, abt, und, switch_banks}

abbrev pub same : Bank → Bank → Bool
same usr usr = true
same fiq fiq = true
same irq irq = true
same svc svc = true
same abt abt = true
same und und = true
same _ _ = false

abbrev pub is_fiq : Bank → Bool
is_fiq fiq = true
is_fiq _ = false

abbrev stored_sp : Bank → ThreadRegs → ℕ
stored_sp usr r = r.user.sp
stored_sp fiq r = r.fiq.sp
stored_sp irq r = r.irq.sp
stored_sp svc r = r.svc.sp
stored_sp abt r = r.abt.sp
stored_sp und r = r.und.sp

abbrev stored_lr : Bank → ThreadRegs → ℕ
stored_lr usr r = r.user.lr
stored_lr fiq r = r.fiq.lr
stored_lr irq r = r.irq.lr
stored_lr svc r = r.svc.lr
stored_lr abt r = r.abt.lr
stored_lr und r = r.und.lr

-- SP of bank `b` while the bank `live` is in the live registers; likewise the rest.
abbrev pub sp_of : Bank → Bank → ThreadRegs → ℕ
sp_of live b r = if same live b then r.sp else stored_sp b r

abbrev pub lr_of : Bank → Bank → ThreadRegs → ℕ
lr_of live b r = if same live b then r.lr else stored_lr b r

-- R8 to R12: FIQ has its own, all other modes share the user's.
abbrev pub user_high : Bank → ThreadRegs → List ℕ
user_high live r = if is_fiq live then r.user.gp_regs else drop 8 r.gp_regs

abbrev pub fiq_high : Bank → ThreadRegs → List ℕ
fiq_high live r = if is_fiq live then drop 8 r.gp_regs else r.fiq.gp_regs

abbrev pub low : ThreadRegs → List ℕ
low r = take 8 r.gp_regs

-- The two views agree on every register but SPSR and CPSR.
pub record SameFile (live : Bank) (r : ThreadRegs) (live' : Bank) (r' : ThreadRegs) : Type 0 where
  pub same_low : low r' ≡ low r
  pub same_user_high : user_high live' r' ≡ user_high live r
  pub same_fiq_high : fiq_high live' r' ≡ fiq_high live r
  pub same_sp : (b : Bank) → sp_of live' b r' ≡ sp_of live b r
  pub same_lr : (b : Bank) → lr_of live' b r' ≡ lr_of live b r
  pub same_pc : r'.pc ≡ r.pc

sp_of-switch_banks :
    (r : ThreadRegs) (current target b : Bank)
    → sp_of target b (switch_banks (some current) (some target) r) ≡ sp_of current b r
unfolding switch_banks
sp_of-switch_banks r usr target b = ground arith
sp_of-switch_banks r current target b = ground arith

lr_of-switch_banks :
    (r : ThreadRegs) (current target b : Bank)
    → lr_of target b (switch_banks (some current) (some target) r) ≡ lr_of current b r
unfolding switch_banks
lr_of-switch_banks r usr target b = ground arith
lr_of-switch_banks r current target b = ground arith

pc-switch_banks :
    (r : ThreadRegs) (current target : Bank)
    → (switch_banks (some current) (some target) r).pc ≡ r.pc
unfolding switch_banks
pc-switch_banks r current target = ground arith

pub cpsr-switch_banks :
    (r : ThreadRegs) (current target : Bank)
    → (switch_banks (some current) (some target) r).cpsr ≡ r.cpsr
unfolding switch_banks
cpsr-switch_banks r current target = ground arith

module _ (r : ThreadRegs) (full : 8 ≤ length r.gp_regs) where
  high_of : (xs : List ℕ) → drop 8 (take 8 r.gp_regs ++ xs) ≡ xs
  high_of xs = drop-take-append 8 r.gp_regs xs full

  low_of : (xs : List ℕ) → take 8 (take 8 r.gp_regs ++ xs) ≡ take 8 r.gp_regs
  low_of xs = take-take-append 8 r.gp_regs xs full

  low-switch_banks :
      (current target : Bank) → low (switch_banks (some current) (some target) r) ≡ low r
  unfolding switch_banks
  low-switch_banks current target =
      ground (arith, low_of r.user.gp_regs, low_of r.fiq.gp_regs, low_of (drop 8 r.gp_regs))

  user_high-switch_banks :
      (current target : Bank)
      → user_high target (switch_banks (some current) (some target) r) ≡ user_high current r
  unfolding switch_banks
  user_high-switch_banks current target =
      ground (arith, high_of r.user.gp_regs, high_of r.fiq.gp_regs, high_of (drop 8 r.gp_regs))

  fiq_high-switch_banks :
      (current target : Bank)
      → fiq_high target (switch_banks (some current) (some target) r) ≡ fiq_high current r
  unfolding switch_banks
  fiq_high-switch_banks current target =
      ground (arith, high_of r.user.gp_regs, high_of r.fiq.gp_regs, high_of (drop 8 r.gp_regs))

  pub switch_banks-SameFile :
      (current target : Bank)
      → SameFile current r target (switch_banks (some current) (some target) r)
  switch_banks-SameFile current target = record {
    same_low = low-switch_banks current target;
    same_user_high = user_high-switch_banks current target;
    same_fiq_high = fiq_high-switch_banks current target;
    same_sp = sp_of-switch_banks r current target;
    same_lr = lr_of-switch_banks r current target;
    same_pc = pc-switch_banks r current target;
  }

  pub SameFile-self : (live : Bank) → SameFile live r live r
  SameFile-self live = record {
    same_low = refl;
    same_user_high = refl;
    same_fiq_high = refl;
    same_sp = λ b. refl;
    same_lr = λ b. refl;
    same_pc = refl;
  }

-- The status registers are not part of the file.
module _ (r : ThreadRegs) (spsr cpsr : ℕ) where
  abbrev restatus : ThreadRegs
  restatus = record r { spsr = spsr; cpsr = cpsr }

  sp_of-restatus : (live b : Bank) → sp_of live b restatus ≡ sp_of live b r
  sp_of-restatus live b = ground arith

  lr_of-restatus : (live b : Bank) → lr_of live b restatus ≡ lr_of live b r
  lr_of-restatus live b = ground arith

pub SameFile-status :
    {live live' : Bank} {r r' : ThreadRegs} (spsr cpsr : ℕ)
    → SameFile live r live' r'
    → SameFile live r live' (record r' { spsr = spsr; cpsr = cpsr })
SameFile-status {live' = l} {r' = q} spsr cpsr kept = record {
  same_low = kept.same_low;
  same_user_high = kept.same_user_high;
  same_fiq_high = kept.same_fiq_high;
  same_sp = λ b. sp_of-restatus q spsr cpsr l b ∙ kept.same_sp b;
  same_lr = λ b. lr_of-restatus q spsr cpsr l b ∙ kept.same_lr b;
  same_pc = kept.same_pc;
}

-- SPSR: each privileged bank has one.
abbrev stored_spsr : Bank → ThreadRegs → ℕ
stored_spsr usr r = 0
stored_spsr fiq r = r.fiq.spsr
stored_spsr irq r = r.irq.spsr
stored_spsr svc r = r.svc.spsr
stored_spsr abt r = r.abt.spsr
stored_spsr und r = r.und.spsr

abbrev pub spsr_of : Bank → Bank → ThreadRegs → ℕ
spsr_of live b r = if same live b then r.spsr else stored_spsr b r

-- The switches that swap only SP and LR.
abbrev pub is_fast : Bank → Bank → Bool
is_fast usr irq = true
is_fast irq usr = true
is_fast _ _ = false

-- Outside the two fast switches every privileged bank keeps its SPSR.
pub spsr_of-switch_banks :
    (r : ThreadRegs) (current target b : Bank)
    → is_fast current target ≡ false
    → same usr b ≡ false
    → spsr_of target b (switch_banks (some current) (some target) r) ≡ spsr_of current b r
unfolding switch_banks
spsr_of-switch_banks r current target b slow privileged = ground arith
