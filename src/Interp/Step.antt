-- ===== src/Interp/Step.antt =====
-- `interpret_block_inner` of src/jit/interpreter/mod.rs: the loop that interprets cold blocks, one
-- instruction a round. The debug logs of the source are left out.
pub mod Decoded
pub mod Window
use advanced_slop.Base.{
  ℕ, zero, suc, ◌+◌, ◌-◌, ◌^◌, Bool, true, false, ◌==◌, leb, if◌then◌else◌, of_bool, Option, none,
  some, bit_and, bit_or, min,
}
use advanced_slop.Base.Word.{u16, u32, wrapping_sub32}
use advanced_slop.Base.Digits.{complement}
use advanced_slop.Emu.{Emu}
use advanced_slop.Interp.{
  Ctx, InstResult, continue, continue_store, branch, branch_link, branch_return, cpsr,
}
use advanced_slop.Interp.Condition.{runs}
use advanced_slop.Interp.Run.{run_arm}
use advanced_slop.Interp.Run.Thumb.{run_thumb}
use advanced_slop.Interp.System.{set_pc}
use advanced_slop.Bios.{BulkBus}
use advanced_slop.Bios.Calls.{Host}
use advanced_slop.Decode.Index.{arm_fn, thumb_fn}

-- A call into the compiled code comes back, or leaves the guest context for good.
pub data Flow (R : Type 0) : Type 0 where
  returned : Emu R → Flow R
  left : Emu R → Flow R

-- The code around the loop: the reads of the shared memory, the scheduler check, the execution
-- counters (`none` outside the executable regions) and the calls of src/jit/inst_branch_handler.rs.
pub record Jit (R : Type 0) : Type 0 where
  pub shm_read16 : ℕ → Emu R → ℕ
  pub shm_read32 : ℕ → Emu R → ℕ
  pub check_scheduler : ℕ → Emu R → Flow R
  pub exec_count : ℕ → Emu R → Option ℕ
  pub set_exec_count : ℕ → ℕ → Emu R → Emu R
  pub call_jit_fun : ℕ → Emu R → Flow R
  pub branch_reg : (target lr current_pc : ℕ) → Emu R → Flow R
  pub branch_lr : (target current_pc : ℕ) → Emu R → Flow R
  pub breakout_imm : ℕ → Emu R → Flow R

-- The local variables of the loop.
pub record Cursor : Type 0 where
  pub addr : ℕ
  pub code_shm_offset : ℕ
  pub page_left : ℕ

-- The end of a round: another one, the return of the function, the exit from the guest context, or
-- a panic.
pub data Round (R : Type 0) : Type 0 where
  again : Cursor → Emu R → Round R
  finished : Emu R → Round R
  exited : Emu R → Round R
  panicked : Round R

abbrev pub interp_threshold : ℕ
interp_threshold = 100

abbrev pub mmu_page_size : ℕ
mmu_page_size = 2 ^ 12

abbrev pub step_of : Bool → ℕ
step_of thumb = if thumb then 2 else 4

-- A jump: the page is looked up again.
abbrev pub jump_to : ℕ → Cursor → Cursor
jump_to addr c = record c { addr = addr; page_left = 0 }

abbrev pub advance : ℕ → Cursor → Cursor
advance step c = record {
  addr = u32 (c.addr + step);
  code_shm_offset = u32 (c.code_shm_offset + step);
  page_left = c.page_left - step;
}

module _ {R : Type 0} (m : BulkBus R) where
  unfoldable pub resolve : Bool → Cursor → Emu R → Cursor
  resolve thumb c e =
      let offset : ℕ = m.shm_offset (bit_and c.addr 0x0fff_ffff) e in
      let left : ℕ =
        if offset == 0 then step_of thumb else mmu_page_size - bit_and c.addr (mmu_page_size - 1) in
      if c.page_left == 0 then record c { code_shm_offset = offset; page_left = left } else c

module _ {R : Type 0} (m : BulkBus R) (host : Host) where
  -- Thumb has no condition field.
  unfoldable pub execute : Bool → ℕ → Ctx R → Option (Ctx R × InstResult)
  unfolding run_thumb run_arm thumb_fn arm_fn
  execute true opcode ctx = run_thumb m host (thumb_fn opcode) opcode ctx
  execute false opcode ctx =
      if runs opcode (cpsr ctx)
      then run_arm m host (arm_fn opcode) opcode ctx
      else some (ctx, continue 1)

module _ {R : Type 0} (m : BulkBus R) (host : Host) (jit : Jit R) where
  unfoldable pub fetch : Bool → Cursor → Emu R → ℕ × Emu R
  fetch true c e =
      if c.code_shm_offset == 0
      then m.bus.read16 c.addr e
      else (jit.shm_read16 c.code_shm_offset e, e)
  fetch false c e =
      if c.code_shm_offset == 0
      then m.bus.read32 c.addr e
      else (jit.shm_read32 c.code_shm_offset e, e)

  abbrev pub add_cycles : ℕ → Emu R → Emu R
  add_cycles n e = record e { accumulated_cycles = u16 (e.accumulated_cycles + n) }

  abbrev pub then_again : Cursor → Flow R → Round R
  then_again c (returned e) = again c e
  then_again c (left e) = exited e

  abbrev pub then_return : Flow R → Round R
  then_return (returned e) = finished e
  then_return (left e) = exited e

  abbrev pub run_breakout_imm : Bool → ℕ → Emu R → Flow R
  run_breakout_imm thumb next_addr e =
      jit.breakout_imm (bit_or (wrapping_sub32 next_addr (step_of thumb)) (of_bool thumb)) e

  abbrev pub hand_to_next_entry : ℕ → Emu R → Flow R
  hand_to_next_entry target e = jit.call_jit_fun target e

  abbrev pub run_scheduler : ℕ → Emu R → Flow R
  run_scheduler current_pc e = jit.check_scheduler current_pc e

  -- The hotness counter of a target in the same mode decides between another round and the handover.
  unfoldable pub count_or_hand : (target aligned : ℕ) → Cursor → Option ℕ → Emu R → Round R
  count_or_hand target aligned c none e = then_return (hand_to_next_entry target e)
  count_or_hand target aligned c (some before) e =
      let count : ℕ = min (before + 1) 255 in
      let counted : Emu R = jit.set_exec_count aligned count e in
      if leb count interp_threshold
      then again (jump_to aligned c) counted
      else then_return (hand_to_next_entry target counted)

  unfoldable pub take_branch : Bool → ℕ → Cursor → Flow R → Round R
  unfolding count_or_hand
  take_branch thumb target c (left e) = exited e
  take_branch thumb target c (returned e) =
      let aligned : ℕ = bit_and target (complement 32 (step_of thumb - 1)) in
      if bit_and target 1 == of_bool thumb
      then count_or_hand target aligned c (jit.exec_count aligned e) e
      else then_return (hand_to_next_entry target e)

  unfoldable pub finish : Bool → Cursor → Emu R → InstResult → Round R
  unfolding take_branch
  finish thumb c e (continue cycles) = again (advance (step_of thumb) c) (add_cycles cycles e)
  finish thumb c e (continue_store cycles) =
      let next : Cursor = advance (step_of thumb) c in
      let counted : Emu R = add_cycles cycles e in
      if counted.breakout_imm
      then then_again next (run_breakout_imm thumb next.addr counted)
      else again next counted
  finish thumb c e (branch cycles target) =
      take_branch thumb target c (run_scheduler c.addr (set_pc target (add_cycles (cycles + 2) e)))
  finish thumb c e (branch_link cycles target lr) =
      then_again (jump_to (bit_and lr (complement 32 1)) c)
        (jit.branch_reg target lr c.addr (set_pc target (add_cycles cycles e)))
  finish thumb c e (branch_return cycles target) =
      then_return (jit.branch_lr target c.addr (set_pc target (add_cycles cycles e)))

  abbrev pub finish_executed : Bool → Cursor → Option (Ctx R × InstResult) → Round R
  unfolding finish
  finish_executed thumb c none = panicked
  finish_executed thumb c (some (ctx, result)) = finish thumb c ctx.emu result

  unfoldable pub round : Bool → Cursor → Emu R → Round R
  unfolding resolve fetch execute finish_executed
  round thumb c e =
      let at : Cursor = resolve m thumb c e in
      let (opcode, fetched) = fetch thumb at e in
      finish_executed thumb at
        (execute m host thumb opcode (record { emu = fetched; inst_addr = at.addr }))

  -- The loop on fuel: `again` is left over if the fuel ends first.
  unfoldable pub interpret_rounds : ℕ → Bool → Round R → Round R
  unfolding round
  interpret_rounds zero thumb r = r
  interpret_rounds (suc fuel) thumb (again c e) = interpret_rounds fuel thumb (round thumb c e)
  interpret_rounds (suc fuel) thumb r = r

  unfoldable pub interpret_block_inner : ℕ → Bool → ℕ → Emu R → Round R
  unfolding interpret_rounds
  interpret_block_inner fuel thumb guest_pc e =
      interpret_rounds fuel thumb
        (again (record { addr = guest_pc; code_shm_offset = 0; page_left = 0 }) e)
