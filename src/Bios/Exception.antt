-- ===== src/Bios/Exception.antt =====
-- The entry of an interrupt and the return from its handler: `interrupt` and `uninterrupt` of
-- src/core/hle/bios.rs.
pub mod Return
use advanced_slop.Base.{
  true, false, ℕ, ◌+◌, ◌*◌, ◌-◌, ◌^◌, List, [], ◌∷◌, ◌==◌, if◌then◌else◌, bit_and, bit_or, of_bool,
  get_or, set,
}
use advanced_slop.Base.Word.{u32, wrapping_sub32}
use advanced_slop.Base.Digits.{complement}
use advanced_slop.Cpu.{ThreadRegs, thumb}
use advanced_slop.Cpu.Banks.{thread_set_cpsr}
use advanced_slop.Emu.{Emu}
use advanced_slop.Interp.Memory.{Bus}
use advanced_slop.Bios.{BulkBus}
use advanced_slop.Bios.Wait.{check_wait_flags}

-- `set_irq_disable(true)`, `set_thumb(false)` and `set_mode(0x12)`.
unfoldable pub irq_cpsr : ℕ → ℕ
irq_cpsr cpsr = bit_or (bit_and cpsr (complement 32 0xbf)) 0x92

-- `set_thumb`
unfoldable pub with_thumb : (spsr bit : ℕ) → ℕ
with_thumb spsr bit = bit_or (bit_and spsr (complement 32 (2 ^ 5))) (bit * 2 ^ 5)

abbrev pub regs_to_push : ThreadRegs → List ℕ
regs_to_push r =
    get_or r.gp_regs 0 0
    ∷ get_or r.gp_regs 1 0
    ∷ get_or r.gp_regs 2 0
    ∷ get_or r.gp_regs 3 0
    ∷ get_or r.gp_regs 12 0
    ∷ u32 (r.pc + 4)
    ∷ []

-- The popped registers, with `regs.pc = regs.lr - 4`.
unfoldable pub pop_regs : List ℕ → ThreadRegs → ThreadRegs
pop_regs v r = record r {
  gp_regs =
      set
        (set (set (set (set r.gp_regs 0 (get_or v 0 0)) 1 (get_or v 1 0)) 2 (get_or v 2 0)) 3
          (get_or v 3 0))
        12 (get_or v 4 0);
  sp = u32 (r.sp + 24);
  lr = get_or v 5 0;
  pc = wrapping_sub32 (get_or v 5 0) 4;
}

-- The return address takes its bit 0 from the saved status.
abbrev pub retag : ThreadRegs → ThreadRegs
retag r = record r { pc = bit_or (bit_and r.pc (complement 32 1)) (of_bool (thumb r.spsr)) }

module _ {R : Type 0} where
  abbrev pub set_open_bus : ℕ → Emu R → Emu R
  set_open_bus v e = record e { cpu = record (e.cpu) { bios_open_bus = v } }

  -- The registers from the mode switch to the push.
  unfoldable pub enter_irq : Emu R → Emu R
  unfolding irq_cpsr with_thumb
  enter_irq e =
      let switched : Emu R = thread_set_cpsr (irq_cpsr e.regs.cpsr) true e in
      let r : ThreadRegs = switched.regs in
      record switched {
        regs = record r { spsr = with_thumb r.spsr (bit_and r.pc 1); sp = wrapping_sub32 r.sp 24 };
      }

  unfoldable pub interrupt : Bus R → Emu R → Emu R
  unfolding enter_irq
  interrupt bus e =
      let entered : Emu R = enter_irq (set_open_bus 0xe25e_f004 e) in
      let pushed : Emu R = bus.write_multiple entered.regs.sp (regs_to_push entered.regs) entered in
      let linked : Emu R = record pushed { regs = record (pushed.regs) { lr = 0xfff0_0000 } } in
      let (handler, e') = bus.read32 0x03ff_fffc linked in
      record e' { regs = record (e'.regs) { pc = handler } }

  -- The stack is read from the shared memory if it is mapped there.
  unfoldable pub read_frame : BulkBus R → Emu R → List ℕ × Emu R
  read_frame m e =
      let sp : ℕ = e.regs.sp in
      let aligned_addr : ℕ = bit_and (bit_and sp (complement 32 3)) 0x0fff_ffff in
      let shm_offset : ℕ = m.shm_offset aligned_addr e in
      if shm_offset == 0 then m.read_slice sp 6 e else (m.shm_words shm_offset 6 e, e)

  unfoldable pub leave_irq : List ℕ → Emu R → Emu R
  unfolding pop_regs
  leave_irq v e =
      let popped : ThreadRegs = retag (pop_regs v e.regs) in
      thread_set_cpsr popped.spsr false (record e { regs = popped })

  unfoldable pub uninterrupt : BulkBus R → Emu R → Emu R
  unfolding read_frame leave_irq
  uninterrupt m e =
      let opened : Emu R = set_open_bus 0xe55e_c002 e in
      let checked : Emu R =
        if opened.cpu.bios_wait_flags == 0 then opened else check_wait_flags m.bus opened in
      let (v, e') = read_frame m checked in leave_irq v e'
