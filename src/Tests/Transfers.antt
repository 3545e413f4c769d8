-- ===== src/Tests/Transfers.antt =====
-- Shifts and block transfers on a concrete machine.
use advanced_slop.Base.{
  ℕ, zero, suc, ◌*◌, ◌/◌, ◌%◌, ◌^◌, ◌<◌, ◌≤◌, ap, ap₂, ◌∙◌, Bool, ◌&&◌, leb, ltb, ltb→lt, length,
  ◌+◌, ◌-◌, ◌≡◌, refl, arith, [], ◌∷◌, List, true, false, ◌||◌, ◌==◌, if◌then◌else◌,
}
use advanced_slop.Base.Table.{every, every_at}
use advanced_slop.Base.Word.{u32, has_bit}
use advanced_slop.Cpu.{ThreadRegs}
use advanced_slop.Emu.{Emu}
use advanced_slop.Interp.{Ctx, InstResult, continue, read_slot, reg, set_reg, write_slot}
use advanced_slop.Interp.Memory.{Bus, rn_of}
use advanced_slop.Interp.Memory.Block.{count_ones, ldm_stm, stm, lowest, gather, stored_value}
use advanced_slop.Interp.Memory.Forms.{push_form, pop_form, list_of, StoresBlocks, AreWords}
use advanced_slop.Interp.Memory.Stack.{pop-push}
use advanced_slop.Interp.ThumbAlu.{ror_t, shift_dp}
use advanced_slop.Interp.ThumbAlu.Shifts.{IsMovs, reg_form, shift_dp-IsMovs}
use advanced_slop.Tests.{machine, registers}

-- A rotation by 33.
shift_dp-IsMovs_example :
    IsMovs (reg_form ror_t) 0xdead_beef 33 0x6000_001f (shift_dp ror_t 0xdead_beef 33)
shift_dp-IsMovs_example =
    shift_dp-IsMovs 0xdead_beef 33 0x6000_001f (omega arith) (omega arith) ror_t (omega arith)

-- A memory with 32 KB of RAM at 0x300_0000: a store of words by their index, the address without its
-- two low bits. Elsewhere nothing is stored, and zero is read.
abbrev is_ram : ℕ → Bool
is_ram index = leb 0xc0_0000 index && ltb index 0xc0_2000

put : ℕ → ℕ → (ℕ → ℕ) → ℕ → ℕ
put index word ram x = if is_ram index && x == index then word else ram x

write_words : ℕ → List ℕ → (ℕ → ℕ) → ℕ → ℕ
write_words index [] ram = ram
write_words index (v ∷ vs) ram = put index (u32 v) (write_words (index + 1) vs ram)

read_words : ℕ → ℕ → (ℕ → ℕ) → List ℕ
read_words index zero ram = []
read_words index (suc n) ram =
    (if is_ram index then ram index else 0) ∷ read_words (index + 1) n ram

abbrev read_word : ℕ → (ℕ → ℕ) → ℕ
read_word addr ram = if is_ram (addr / 4) then ram (addr / 4) else 0

read_words-put :
    (index n at word : ℕ) (ram : ℕ → ℕ)
    → at < index
    → read_words index n (put at word ram) ≡ read_words index n ram
unfolding read_words put
read_words-put index zero at word ram later = refl
read_words-put index (suc n) at word ram later =
    ground (arith, read_words-put (index + 1) n at word ram (omega (arith, later)))

put_same :
    (index v : ℕ) (ram : ℕ → ℕ)
    → 0xc0_0000 ≤ index
    → index < 0xc0_2000
    → v < 2 ^ 32
    → (if is_ram index then put index (u32 v) ram index else 0) ≡ v
unfolding put
put_same index v ram lo hi word = ground arith

read_words-write_words :
    (index : ℕ) (values : List ℕ) (ram : ℕ → ℕ)
    → 0xc0_0000 ≤ index
    → index + length values ≤ 0xc0_2000
    → AreWords values
    → read_words index (length values) (write_words index values ram) ≡ values
unfolding read_words write_words AreWords
read_words-write_words index [] ram lo hi words = refl
read_words-write_words index (v ∷ vs) ram lo hi (word, words) =
    ap₂ ◌∷◌ (put_same index v (write_words (index + 1) vs ram) lo (omega (arith, hi)) word) (
      read_words-put (index + 1) (length vs) index (u32 v) (write_words (index + 1) vs ram)
        (omega arith)
      ∙ read_words-write_words (index + 1) vs ram (omega (arith, lo)) (omega (arith, hi)) words)

-- The word with `value` in the `width` bits from bit `at` on.
abbrev with_bits : ℕ → ℕ → ℕ → ℕ → ℕ
with_bits width at value word =
    word / 2 ^ (at + width) * 2 ^ (at + width) + value % 2 ^ width * 2 ^ at + word % 2 ^ at

abbrev write_bits : ℕ → ℕ → ℕ → Emu (ℕ → ℕ) → Emu (ℕ → ℕ)
write_bits width addr value e = record e {
  rest =
      put (addr / 4)
        (with_bits width (addr % 4 / (width / 8) * width) value (read_word addr e.rest)) e.rest;
}

abbrev ram_bus : Bus (ℕ → ℕ)
ram_bus = record {
  read8 = λ addr e. (read_word addr e.rest / 2 ^ (addr % 4 * 8) % 2 ^ 8, e);
  read16 = λ addr e. (read_word addr e.rest / 2 ^ (addr / 2 % 2 * 16) % 2 ^ 16, e);
  read32 = λ addr e. (read_word addr e.rest, e);
  read_multiple = λ addr count e. (read_words (addr / 4) count e.rest, e);
  write8 = write_bits 8;
  write16 = write_bits 16;
  write32 = λ addr value e. record e { rest = put (addr / 4) (u32 value) e.rest };
  write_multiple = λ addr values e. record e { rest = write_words (addr / 4) values e.rest };
}

ram_bus-StoresBlocks : StoresBlocks ram_bus 0x300_0000 0x300_8000
ram_bus-StoresBlocks = record {
  stored = λ addr values e regs lo hi words.
      ap (λ t. (t, record e { rest = write_words (addr / 4) values e.rest; regs = regs }))
        (read_words-write_words (addr / 4) values e.rest (omega (arith, lo)) (omega (arith, hi))
          words);
  regs_kept = λ addr values e lo hi. refl;
}

abbrev stack_ctx : Ctx (ℕ → ℕ)
stack_ctx = record {
  emu = record {
    cm = machine.cm;
    regs = registers;
    cpu = machine.cpu;
    timers = machine.timers;
    dma = machine.dma;
    accumulated_cycles = 5;
    breakout_imm = false;
    rest = λ index. 0;
  };
  inst_addr = 0x800_0200;
}

-- `stmdb sp!, {r0, r1, lr}`, and the registers when the function that began with it ends.
abbrev stack_opcode : ℕ
stack_opcode = 0x000d_4003

abbrev clobbered : ThreadRegs
clobbered = record registers {
  gp_regs = 90 ∷ 91 ∷ 92 ∷ 93 ∷ 4 ∷ 5 ∷ 6 ∷ 7 ∷ 8 ∷ 9 ∷ 10 ∷ 11 ∷ 12 ∷ [];
  sp = registers.sp - 12;
  lr = 0x800_0999;
}

abbrev pushed : Ctx (ℕ → ℕ)
pushed = (ldm_stm ram_bus false push_form stack_opcode stack_ctx).0

abbrev popped : Ctx (ℕ → ℕ) × InstResult
popped =
    ldm_stm ram_bus true pop_form stack_opcode
      (record { emu = record (pushed.emu) { regs = clobbered }; inst_addr = 0x800_0280 })

registers_checked : every 16 (λ i. ltb (read_slot i registers) (2 ^ 32)) ≡ true
unfolding every read_slot
registers_checked = refl

pop-push_example :
    (popped.1 ≡ continue (count_ones 16 0 (list_of stack_opcode) + 2))
    × (read_slot 14 popped.0.emu.regs ≡ (
        if rn_of stack_opcode == 14 || has_bit (list_of stack_opcode) 14
        then read_slot 14 stack_ctx.emu.regs
        else read_slot 14 clobbered))
unfolding ldm_stm stm read_slot reg set_reg write_slot lowest count_ones gather stored_value
pop-push_example =
    pop-push ram_bus stack_opcode stack_ctx 0x800_0280 clobbered 14 0x300_0000 0x300_8000
      ram_bus-StoresBlocks (omega arith) (omega arith) refl refl refl refl
      (λ i hi. ltb→lt _ _ (every_at 16 _ i registers_checked hi)) refl refl refl (omega arith)
