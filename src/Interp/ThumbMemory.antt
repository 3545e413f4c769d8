-- ===== src/Interp/ThumbMemory.antt =====
-- src/jit/interpreter/thumb_memory.rs: the thumb transfers. The single transfers are an access at an
-- address, where the source has a function for each pair of these.
use advanced_slop.Base.{
  ℕ, ◌+◌, ◌-◌, ◌*◌, ◌/◌, ◌^◌, List, [], ◌∷◌, ◌++◌, false, ◌==◌, ltb, if◌then◌else◌, bit_and, bit_or,
  none, get_or,
}
use advanced_slop.Base.Word.{u8, u16, u32, wrapping_sub32}
use advanced_slop.Base.Digits.{complement}
use advanced_slop.Emu.{Emu}
use advanced_slop.Interp.{
  Ctx, InstResult, continue, continue_store, branch, branch_return, reg, set_reg,
}
use advanced_slop.Interp.Shifter.{rotate_right}
use advanced_slop.Interp.Memory.{Bus, extend8, extend16, with_emu}
use advanced_slop.Interp.Memory.Block.{count_ones, gather, scatter}

unfoldable pub rotate_word_read : ℕ → ℕ → ℕ
unfolding rotate_right
rotate_word_read raw addr = rotate_right raw (bit_and addr 3 * 8)

-- The accesses of the single transfers.
pub data LoadOp : Type 0 where
  ldr ldrb ldrh ldrsb ldrsh : LoadOp

pub data StoreOp : Type 0 where
  str strb strh : StoreOp

abbrev pub rd_t : ℕ → ℕ
rd_t opcode = bit_and opcode 7

abbrev pub rb_t : ℕ → ℕ
rb_t opcode = bit_and (opcode / 2 ^ 3) 7

abbrev pub ro_t : ℕ → ℕ
ro_t opcode = bit_and (opcode / 2 ^ 6) 7

-- Rd of the relative accesses, and the base of the block transfers.
abbrev pub rd8_t : ℕ → ℕ
rd8_t opcode = bit_and (opcode / 2 ^ 8) 7

abbrev pub rlist_t : ℕ → ℕ
rlist_t opcode = bit_and opcode 0xff

-- The immediate offsets, scaled by the size of the access.
unfoldable pub imm5_load : LoadOp → ℕ → ℕ
imm5_load ldr opcode = bit_and (opcode / 2 ^ 4) 0x7c
imm5_load ldrb opcode = bit_and (opcode / 2 ^ 6) 0x1f
imm5_load _ opcode = bit_and (opcode / 2 ^ 5) 0x3e

unfoldable pub imm5_store : StoreOp → ℕ → ℕ
imm5_store str opcode = bit_and (opcode / 2 ^ 4) 0x7c
imm5_store strb opcode = bit_and (opcode / 2 ^ 6) 0x1f
imm5_store strh opcode = bit_and (opcode / 2 ^ 5) 0x3e

module _ {R : Type 0} where
  unfoldable pub load_t : Bus R → LoadOp → ℕ → Emu R → ℕ × Emu R
  unfolding rotate_word_read rotate_right
  load_t bus ldr addr e = let (raw, e') = bus.read32 addr e in (rotate_word_read raw addr, e')
  load_t bus ldrb addr e = bus.read8 addr e
  load_t bus ldrh addr e =
      let (h, e') = bus.read16 addr e in (rotate_right h (bit_and addr 1 * 2 ^ 3), e')
  load_t bus ldrsb addr e = let (b, e') = bus.read8 addr e in (extend8 b, e')
  load_t bus ldrsh addr e =
      let (b, e8) = bus.read8 addr e in
      let (h, e16) = bus.read16 addr e in
      if bit_and addr 1 == 0 then (extend16 h, e16) else (extend8 b, e8)

  unfoldable pub store_t : Bus R → StoreOp → ℕ → ℕ → Emu R → Emu R
  store_t bus str addr value e = bus.write32 addr value e
  store_t bus strb addr value e = bus.write8 addr (u8 value) e
  store_t bus strh addr value e = bus.write16 addr (u16 value) e

  unfoldable pub reg_offset_addr : ℕ → Ctx R → ℕ
  reg_offset_addr opcode ctx = u32 (reg ctx (rb_t opcode) + reg ctx (ro_t opcode))

  -- A load into `rd`, and a store of it.
  unfoldable pub load_at : Bus R → LoadOp → (rd addr : ℕ) → Ctx R → Ctx R × InstResult
  unfolding load_t
  load_at bus op rd addr ctx =
      let (value, e) = load_t bus op addr ctx.emu in (set_reg rd value (with_emu ctx e), continue 3)

  unfoldable pub store_at : Bus R → StoreOp → (rd addr : ℕ) → Ctx R → Ctx R × InstResult
  unfolding store_t
  store_at bus op rd addr ctx =
      (with_emu ctx (store_t bus op addr (reg ctx rd) ctx.emu), continue_store 2)

  -- `ldr_reg_t` to `ldrsh_reg_t`
  unfoldable pub load_reg_t : Bus R → LoadOp → ℕ → Ctx R → Ctx R × InstResult
  unfolding load_at reg_offset_addr
  load_reg_t bus op opcode ctx = load_at bus op (rd_t opcode) (reg_offset_addr opcode ctx) ctx

  -- `str_reg_t`, `strb_reg_t` and `strh_reg_t`
  unfoldable pub store_reg_t : Bus R → StoreOp → ℕ → Ctx R → Ctx R × InstResult
  unfolding store_at reg_offset_addr
  store_reg_t bus op opcode ctx = store_at bus op (rd_t opcode) (reg_offset_addr opcode ctx) ctx

  -- `ldr_imm5_t`, `ldrb_imm5_t` and `ldrh_imm5_t`
  unfoldable pub load_imm5_t : Bus R → LoadOp → ℕ → Ctx R → Ctx R × InstResult
  unfolding load_at imm5_load
  load_imm5_t bus op opcode ctx =
      load_at bus op (rd_t opcode) (u32 (reg ctx (rb_t opcode) + imm5_load op opcode)) ctx

  -- `str_imm5_t`, `strb_imm5_t` and `strh_imm5_t`
  unfoldable pub store_imm5_t : Bus R → StoreOp → ℕ → Ctx R → Ctx R × InstResult
  unfolding store_at imm5_store
  store_imm5_t bus op opcode ctx =
      store_at bus op (rd_t opcode) (u32 (reg ctx (rb_t opcode) + imm5_store op opcode)) ctx

  unfoldable pub ldr_pc_t : Bus R → ℕ → Ctx R → Ctx R × InstResult
  unfolding load_at
  ldr_pc_t bus opcode ctx =
      let base : ℕ = bit_and (u32 (ctx.inst_addr + 4)) (complement 32 3) in
      load_at bus ldr (rd8_t opcode) (u32 (base + rlist_t opcode * 2 ^ 2)) ctx

  unfoldable pub ldr_sp_t : Bus R → ℕ → Ctx R → Ctx R × InstResult
  unfolding load_at
  ldr_sp_t bus opcode ctx =
      load_at bus ldr (rd8_t opcode) (u32 (reg ctx 13 + bit_and opcode 0xff * 2 ^ 2)) ctx

  unfoldable pub str_sp_t : Bus R → ℕ → Ctx R → Ctx R × InstResult
  unfolding store_at
  str_sp_t bus opcode ctx =
      store_at bus str (rd8_t opcode) (u32 (reg ctx 13 + bit_and opcode 0xff * 2 ^ 2)) ctx

  -- The loops over R0 to R7.
  abbrev pub scatter_low : ℕ → List ℕ → Ctx R → Ctx R
  scatter_low rlist values ctx = (scatter (λ i. false) rlist 8 0 values (none, ctx)).1

  abbrev pub gather_low : ℕ → Ctx R → List ℕ
  gather_low rlist ctx = gather (reg ctx) rlist 8 0

  unfoldable pub ldmia_t : Bus R → ℕ → Ctx R → Ctx R × InstResult
  unfolding count_ones scatter
  ldmia_t bus opcode ctx =
      let rb : ℕ = rd8_t opcode in
      let rlist : ℕ = rlist_t opcode in
      let count : ℕ = count_ones 8 0 rlist in
      let addr : ℕ = reg ctx rb in
      let (target, e1) = bus.read32 addr ctx.emu in
      let (values, e) = bus.read_multiple addr count ctx.emu in
      if count == 0
      then (set_reg rb (u32 (addr + 0x40)) (with_emu ctx e1), branch 2 (bit_or target 1))
      else (
        scatter_low rlist values (set_reg rb (u32 (addr + count * 4)) (with_emu ctx e)),
        continue (count + 2),
      )

  -- A base in the list that is not the lowest register is stored as it is written back.
  unfoldable pub stmia_t : Bus R → ℕ → Ctx R → Ctx R × InstResult
  unfolding count_ones gather
  stmia_t bus opcode ctx =
      let rb : ℕ = rd8_t opcode in
      let rlist : ℕ = rlist_t opcode in
      let count : ℕ = count_ones 8 0 rlist in
      let addr : ℕ = reg ctx rb in
      let final_base : ℕ = u32 (addr + count * 4) in
      let based : Ctx R =
        if ltb (2 ^ rb) (bit_and rlist (2 ^ (rb + 1) - 1))
        then set_reg rb final_base ctx
        else ctx in
      let e : Emu R = bus.write_multiple addr (gather_low rlist based) based.emu in
      if count == 0
      then (
        set_reg rb (u32 (addr + 0x40))
            (with_emu ctx (bus.write32 addr (u32 (ctx.inst_addr + 6)) ctx.emu)),
        continue_store 1,
      )
      else (set_reg rb final_base (with_emu based e), continue_store (1 + count))

  unfoldable pub pop_t : Bus R → ℕ → Ctx R → Ctx R × InstResult
  unfolding count_ones scatter
  pop_t bus opcode ctx =
      let rlist : ℕ = rlist_t opcode in
      let count : ℕ = count_ones 8 0 rlist in
      let sp : ℕ = reg ctx 13 in
      let (values, e) = bus.read_multiple sp count ctx.emu in
      (
        set_reg 13 (u32 (sp + count * 4)) (scatter_low rlist values (with_emu ctx e)),
        continue (count + 2),
      )

  -- A pop of PC stays in thumb state.
  unfoldable pub pop_pc_t : Bus R → ℕ → Ctx R → Ctx R × InstResult
  unfolding count_ones scatter
  pop_pc_t bus opcode ctx =
      let rlist : ℕ = rlist_t opcode in
      let count : ℕ = count_ones 8 0 rlist + 1 in
      let sp : ℕ = reg ctx 13 in
      let (values, e) = bus.read_multiple sp count ctx.emu in
      let target : ℕ = bit_or (bit_and (get_or values (count - 1) 0) (complement 32 1)) 1 in
      (
        set_reg 13 (u32 (sp + count * 4)) (scatter_low rlist values (with_emu ctx e)),
        branch_return (count + 2) target,
      )

  unfoldable pub push_t : Bus R → ℕ → Ctx R → Ctx R × InstResult
  unfolding count_ones gather
  push_t bus opcode ctx =
      let rlist : ℕ = rlist_t opcode in
      let count : ℕ = count_ones 8 0 rlist in
      let addr : ℕ = wrapping_sub32 (reg ctx 13) (count * 4) in
      let moved : Ctx R = set_reg 13 addr ctx in
      (
        with_emu moved (bus.write_multiple addr (gather_low rlist moved) moved.emu),
        continue_store (1 + count),
      )

  unfoldable pub push_lr_t : Bus R → ℕ → Ctx R → Ctx R × InstResult
  unfolding count_ones gather
  push_lr_t bus opcode ctx =
      let rlist : ℕ = rlist_t opcode in
      let count : ℕ = count_ones 8 0 rlist + 1 in
      let addr : ℕ = wrapping_sub32 (reg ctx 13) (count * 4) in
      let moved : Ctx R = set_reg 13 addr ctx in
      let values : List ℕ = gather_low rlist moved ++ (reg moved 14 ∷ []) in
      (with_emu moved (bus.write_multiple addr values moved.emu), continue_store (1 + count))
