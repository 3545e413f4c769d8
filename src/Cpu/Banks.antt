-- ===== src/Cpu/Banks.antt =====
-- src/core/thread_regs.rs: CPSR and SPSR writes, and the register banks that a mode switch swaps.
pub mod Physical
pub mod Switch
use advanced_slop.Base.{
  ℕ, zero, suc, ◌+◌, ◌-◌, ◌*◌, ◌/◌, ◌%◌, ◌^◌, ◌++◌, Bool, true, false, not, ◌&&◌, ◌||◌, ◌==◌,
  if◌then◌else◌, Option, none, some, take, drop, bit_and, bit_or, of_bool,
}
use advanced_slop.Base.Word.{masked, has_bit}
use advanced_slop.Base.Digits.{complement}
use advanced_slop.Cpu.{ThreadRegs, UserRegs, FiqRegs, OtherModeRegs, mode, thumb, is_user_mode}
use advanced_slop.Cpu.Interrupts.{cpu_check_for_interrupt}
use advanced_slop.Emu.{Emu}

-- The banks that the arms of the `match` on a mode name.
pub data Bank : Type 0 where
  usr fiq irq svc abt und : Bank

-- The mode numbers of those arms; any other number has no bank.
unfoldable pub mode_bank : ℕ → Option Bank
mode_bank m =
    if is_user_mode m
    then some usr
    else if m == 0x11
    then some fiq
    else if m == 0x12
    then some irq
    else if m == 0x13
    then some svc
    else if m == 0x17
    then some abt
    else if m == 0x1b
    then some und
    else none

abbrev other_bank : ThreadRegs → OtherModeRegs
other_bank r = record { sp = r.sp; lr = r.lr; spsr = r.spsr }

-- `regs.user.gp_regs.copy_from_slice(&regs.gp_regs[8..13])`
abbrev save_high : ThreadRegs → UserRegs
save_high r = record (r.user) { gp_regs = drop 8 r.gp_regs }

-- The first `match`: the live registers go to the bank of the current mode.
unfoldable pub save_bank : Bank → ThreadRegs → ThreadRegs
save_bank usr r = record r { user = record { gp_regs = drop 8 r.gp_regs; sp = r.sp; lr = r.lr } }
save_bank fiq r = record r {
  fiq = record { gp_regs = drop 8 r.gp_regs; sp = r.sp; lr = r.lr; spsr = r.spsr };
}
save_bank irq r = record r { user = save_high r; irq = other_bank r }
save_bank svc r = record r { user = save_high r; svc = other_bank r }
save_bank abt r = record r { user = save_high r; abt = other_bank r }
save_bank und r = record r { user = save_high r; und = other_bank r }

-- `regs.gp_regs[8..13].copy_from_slice(..)`, with the stack pointer, link register and SPSR.
abbrev load_other : OtherModeRegs → ThreadRegs → ThreadRegs
load_other b r = record r {
  gp_regs = take 8 r.gp_regs ++ r.user.gp_regs;
  sp = b.sp;
  lr = b.lr;
  spsr = b.spsr;
}

-- The second `match`: the bank of the new mode becomes live. (The debug build also clears SPSR on
-- the way to the user bank.)
unfoldable pub load_bank : Bank → ThreadRegs → ThreadRegs
load_bank usr r = record r {
  gp_regs = take 8 r.gp_regs ++ r.user.gp_regs;
  sp = r.user.sp;
  lr = r.user.lr;
}
load_bank fiq r = record r {
  gp_regs = take 8 r.gp_regs ++ r.fiq.gp_regs;
  sp = r.fiq.sp;
  lr = r.fiq.lr;
  spsr = r.fiq.spsr;
}
load_bank irq r = load_other r.irq r
load_bank svc r = load_other r.svc r
load_bank abt r = load_other r.abt r
load_bank und r = load_other r.und r

-- An unknown mode saves or loads nothing.
unfoldable pub on_bank : (Bank → ThreadRegs → ThreadRegs) → Option Bank → ThreadRegs → ThreadRegs
on_bank f none r = r
on_bank f (some b) r = f b r

-- `thread_set_cpsr_mode_slow`
unfoldable pub set_mode_slow : Option Bank → Option Bank → ThreadRegs → ThreadRegs
unfolding on_bank save_bank load_bank
set_mode_slow current target r = on_bank load_bank target (on_bank save_bank current r)

-- The three ways of `thread_set_cpsr` when the mode changes: between the user bank and the IRQ
-- bank only SP and LR are swapped.
unfoldable pub switch_banks : Option Bank → Option Bank → ThreadRegs → ThreadRegs
unfolding set_mode_slow
switch_banks (some usr) (some irq) r = record r {
  user = record (r.user) { sp = r.sp; lr = r.lr };
  sp = r.irq.sp;
  lr = r.irq.lr;
}
switch_banks (some irq) (some usr) r = record r {
  irq = record (r.irq) { sp = r.sp; lr = r.lr };
  sp = r.user.sp;
  lr = r.user.lr;
}
switch_banks current target r = set_mode_slow current target r

unfoldable pub switch_mode : ℕ → ℕ → ThreadRegs → ThreadRegs
unfolding switch_banks mode_bank
switch_mode current target r =
    if current == target then r else switch_banks (mode_bank current) (mode_bank target) r

-- The mask of byte `i` of a status register, `0xFF << (i << 3)`.
abbrev pub byte_mask : ℕ → ℕ
byte_mask i = 0xff * 2 ^ (i * 8)

-- `for i in .. { if flags & (1 << i) != 0 { .. } }`, over the `left` bytes from byte `i` on.
unfoldable pub merge_bytes : ℕ → ℕ → ℕ → ℕ → ℕ → ℕ
merge_bytes zero i flags value old = old
merge_bytes (suc left) i flags value old =
    merge_bytes left (i + 1) flags value
      (if has_bit flags i then masked 32 old (byte_mask i) value else old)

module _ {R : Type 0} where
  unfoldable pub thread_set_cpsr : ℕ → Bool → Emu R → Emu R
  unfolding switch_mode
  thread_set_cpsr value save e =
      let r : ThreadRegs = switch_mode (mode e.regs.cpsr) (mode value) e.regs in
      cpu_check_for_interrupt
        (record e { regs = record r { spsr = if save then r.cpsr else r.spsr; cpsr = value } })

  -- In the user mode proper the low five bits, the mode, cannot be written.
  unfoldable pub thread_set_cpsr_with_flags : ℕ → ℕ → Emu R → Emu R
  unfolding merge_bytes
  thread_set_cpsr_with_flags value flags e =
      let mask : ℕ = if mode e.regs.cpsr == 0x10 then 0xe0 else 0xff in
      let e' : Emu R =
        if bit_and flags 1 == 1
        then thread_set_cpsr (masked 32 e.regs.cpsr mask value) false e
        else e in
      record e' { regs = record (e'.regs) { cpsr = merge_bytes 3 1 flags value e'.regs.cpsr } }

  unfoldable pub thread_set_spsr_with_flags : ℕ → ℕ → Emu R → Emu R
  unfolding merge_bytes
  thread_set_spsr_with_flags value flags e = record e {
    regs = record (e.regs) { spsr = merge_bytes 4 0 flags value e.regs.spsr };
  }

  unfoldable pub thread_restore_spsr : Emu R → Emu R
  thread_restore_spsr e =
      if not (is_user_mode (mode e.regs.cpsr)) then thread_set_cpsr e.regs.spsr false e else e

  unfoldable pub thread_restore_thumb_mode : Emu R → Emu R
  thread_restore_thumb_mode e = record e {
    regs = record (e.regs) {
      pc = bit_or (bit_and e.regs.pc (complement 32 1)) (of_bool (thumb e.regs.cpsr));
    };
  }

  unfoldable pub thread_set_thumb : Bool → Emu R → Emu R
  thread_set_thumb on e = record e {
    regs = record (e.regs) {
      cpsr = bit_or (bit_and e.regs.cpsr (complement 32 (2 ^ 5))) (of_bool on * 2 ^ 5);
    };
  }
