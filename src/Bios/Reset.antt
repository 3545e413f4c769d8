-- ===== src/Bios/Reset.antt =====
-- The calls of src/core/hle/bios.rs that reset registers and memory.
use advanced_slop.Base.{false, ℕ, ◌-◌, ◌*◌, ◌/◌, ◌==◌, if◌then◌else◌, replicate}
use advanced_slop.Base.Word.{has_bit}
use advanced_slop.Cpu.{ThreadRegs}
use advanced_slop.Cpu.Banks.{thread_set_cpsr}
use advanced_slop.Emu.{Emu}
use advanced_slop.Interp.Memory.{Bus}
use advanced_slop.Bios.{BulkBus, get}

-- src/core/memory/regions.rs
abbrev ewram_offset : ℕ
ewram_offset = 0x0200_0000

abbrev ewram_size : ℕ
ewram_size = 256 * 1024

abbrev iwram_offset : ℕ
iwram_offset = 0x0300_0000

abbrev iwram_size : ℕ
iwram_size = 32 * 1024

abbrev palettes_offset : ℕ
palettes_offset = 0x0500_0000

abbrev palettes_size : ℕ
palettes_size = 1024

abbrev vram_offset : ℕ
vram_offset = 0x0600_0000

abbrev vram_size : ℕ
vram_size = 96 * 1024

abbrev oam_offset : ℕ
oam_offset = 0x0700_0000

abbrev oam_size : ℕ
oam_size = 1024

-- The registers after the reset, with the entry point in PC and in the user LR.
unfoldable pub reset_regs : ℕ → ThreadRegs → ThreadRegs
reset_regs entry r = record r {
  user = record (r.user) { sp = 0x0300_7f00; lr = entry };
  irq = record { sp = 0x0300_7fa0; lr = 0; spsr = 0 };
  svc = record { sp = 0x0300_7fe0; lr = 0; spsr = 0 };
  gp_regs = replicate 13 0;
  pc = entry;
}

module _ {R : Type 0} where
  unfoldable pub sound_bias : Bus R → Emu R → Emu R
  sound_bias bus e = bus.write16 0x0400_0088 (if get 0 e == 0 then 0 else 0x200) e

  unfoldable pub soft_reset : BulkBus R → Emu R → Emu R
  unfolding reset_regs
  soft_reset m e =
      let (return_flag, e') = m.bus.read8 0x0300_7ffa (m.memset8 0x0300_7e00 0 0x200 e) in
      let entry : ℕ = if return_flag == 0 then 0x0800_0000 else 0x0200_0000 in
      thread_set_cpsr 0xdf false (record e' { regs = reset_regs entry e'.regs })

  abbrev clear_if : BulkBus R → (flags bit base words : ℕ) → Emu R → Emu R
  clear_if m flags bit base words e = if has_bit flags bit then m.memset32 base 0 words e else e

  -- The flags are those after the forced blank has been written.
  unfoldable pub register_ram_reset : BulkBus R → Emu R → Emu R
  register_ram_reset m e =
      let blanked : Emu R = m.bus.write16 0x0400_0000 0x80 e in
      let flags : ℕ = get 0 blanked in
      clear_if m flags 4 oam_offset (oam_size / 4) (
        clear_if m flags 3 vram_offset (vram_size / 4) (
          clear_if m flags 2 palettes_offset (palettes_size / 4) (
            clear_if m flags 1 iwram_offset ((iwram_size - 0x200) / 4)
              (clear_if m flags 0 ewram_offset (ewram_size / 4) blanked))))
