-- ===== src/Interp/Memory/Block.antt =====
-- `ldm_stm` of src/jit/interpreter/memory.rs.
use advanced_slop.Base.{
  ℕ, zero, suc, ◌+◌, ◌-◌, ◌*◌, ◌^◌, List, [], ◌∷◌, Bool, not, ◌&&◌, ◌||◌, ◌==◌, leb, if◌then◌else◌,
  bit_and, Option, none, some, get_or, set, drop, of_bool,
}
use advanced_slop.Base.Word.{u32, wrapping_sub32, has_bit}
use advanced_slop.Cpu.{ThreadRegs, mode, is_user_mode}
use advanced_slop.Cpu.Banks.{thread_restore_spsr}
use advanced_slop.Emu.{Emu}
use advanced_slop.Interp.{
  Ctx, InstResult, continue, continue_store, branch, branch_return, reg, set_reg, cpsr, read_slot,
  write_slot,
}
use advanced_slop.Interp.Memory.{Bus, rn_of, write_back}

-- `u32::count_ones`, of `left` bits from bit `i` on.
unfoldable pub count_ones : ℕ → ℕ → ℕ → ℕ
count_ones zero i x = 0
count_ones (suc left) i x = of_bool (has_bit x i) + count_ones left (i + 1) x

-- `thread_get_reg_usr` and `thread_get_reg_usr_mut`
unfoldable pub get_reg_usr : ℕ → ThreadRegs → ℕ
unfolding read_slot
get_reg_usr i r =
    if leb 8 i && leb i 12
    then get_or r.user.gp_regs (i - 8) 0
    else if i == 13
    then r.user.sp
    else if i == 14
    then r.user.lr
    else read_slot i r

unfoldable pub set_reg_usr : ℕ → ℕ → ThreadRegs → ThreadRegs
unfolding write_slot
set_reg_usr i v r =
    if leb 8 i && leb i 12
    then record r { user = record (r.user) { gp_regs = set r.user.gp_regs (i - 8) v } }
    else if i == 13
    then record r { user = record (r.user) { sp = v } }
    else if i == 14
    then record r { user = record (r.user) { lr = v } }
    else write_slot i v r

-- The const generics `PRE`, `UP`, `USER` and `WB`.
pub record BlockForm : Type 0 where
  pub pre : Bool
  pub up : Bool
  pub user : Bool
  pub wb : Bool

-- The lowest address of a transfer of `n` bytes.
unfoldable pub lowest : BlockForm → ℕ → ℕ → ℕ
lowest f base n =
    if f.up
    then (if f.pre then u32 (base + 4) else base)
    else if f.pre
    then wrapping_sub32 base n
    else u32 (wrapping_sub32 base n + 4)

-- The loop of the store, over `left` registers from `i` on.
unfoldable pub gather : (ℕ → ℕ) → ℕ → ℕ → ℕ → List ℕ
gather value reg_list zero i = []
gather value reg_list (suc left) i =
    let rest : List ℕ = gather value reg_list left (i + 1) in
    if has_bit reg_list i then value i ∷ rest else rest

module _ {R : Type 0} where
  abbrev pub user_banked : BlockForm → ℕ → Ctx R → Bool
  user_banked f reg_list ctx = f.user && not (has_bit reg_list 15) && not (is_user_mode (cpsr ctx))

  -- Whether register `i` is of the user bank: SP and LR, and all others in FIQ mode.
  abbrev pub from_user : Bool → Ctx R → ℕ → Bool
  from_user banked ctx i = banked && (i == 13 || i == 14 || mode (cpsr ctx) == 0x11)

  -- The value that a store takes from register `i`.
  unfoldable pub stored_value : BlockForm → ℕ → ℕ → ℕ → Bool → Ctx R → ℕ → ℕ
  unfolding get_reg_usr
  stored_value f rn reg_list final_base banked ctx i =
      if i == 15
      then u32 (ctx.inst_addr + 12)
      else if from_user banked ctx i
      then get_reg_usr i ctx.emu.regs
      else if f.wb && i == rn && not (bit_and reg_list (2 ^ rn - 1) == 0)
      then final_base
      else reg ctx i

  -- A register of the load; PC is kept as the target of the branch.
  unfoldable pub load_reg : Bool → ℕ → ℕ → Option ℕ × Ctx R → Option ℕ × Ctx R
  unfolding set_reg_usr
  load_reg banked_now i value (target, ctx) =
      if i == 15
      then (some value, ctx)
      else if banked_now
      then (
        target,
        record ctx { emu = record (ctx.emu) { regs = set_reg_usr i value ctx.emu.regs } },
      )
      else (target, set_reg i value ctx)

  -- The loop of the load, over `left` registers from `i` on; `in_user` is fixed before it.
  unfoldable pub scatter : (ℕ → Bool) → ℕ → ℕ → ℕ → List ℕ → Option ℕ × Ctx R → Option ℕ × Ctx R
  unfolding load_reg
  scatter in_user reg_list zero i values s = s
  scatter in_user reg_list (suc left) i values s =
      let listed : Bool = has_bit reg_list i in
      scatter in_user reg_list left (i + 1) (if listed then drop 1 values else values)
        (if listed then load_reg (in_user i) i (get_or values 0 0) s else s)

  -- An empty list transfers PC, and moves the base by 0x40.
  unfoldable pub empty_list : Bus R → Bool → BlockForm → ℕ → Ctx R → Ctx R × InstResult
  empty_list bus load f rn ctx =
      let base : ℕ = reg ctx rn in
      let addr : ℕ =
        if f.up
        then (if f.pre then u32 (base + 4) else base)
        else wrapping_sub32 base (if f.pre then 0x40 else 0x3c) in
      let moved : ℕ = if f.up then u32 (base + 0x40) else wrapping_sub32 base 0x40 in
      let ctx' : Ctx R = write_back f.wb rn moved ctx in
      let (target, e) = bus.read32 addr ctx'.emu in
      if load then (record ctx' { emu = e }, branch 2 target) else (
        record ctx' { emu = bus.write32 addr (u32 (ctx.inst_addr + 12)) ctx'.emu },
        continue_store 1,
      )

  -- What ends a load: SPSR is restored last.
  unfoldable pub finish_load : BlockForm → ℕ → ℕ → Option ℕ × Ctx R → Ctx R × InstResult
  finish_load f rn cycles (none, ctx) = (ctx, continue cycles)
  finish_load f rn cycles (some t, ctx) = (
    if f.user then record ctx { emu = thread_restore_spsr ctx.emu } else ctx,
    if rn == 13 then branch_return cycles t else branch cycles t,
  )

  -- What a load does with the values, of `count` registers.
  unfoldable pub load_values :
      BlockForm → (rn reg_list count : ℕ) → Ctx R → List ℕ × Emu R → Ctx R × InstResult
  unfolding scatter finish_load
  load_values f rn reg_list count ctx (values, e) =
      let base : ℕ = reg ctx rn in
      let final_base : ℕ =
        if f.up then u32 (base + count * 4) else wrapping_sub32 base (count * 4) in
      let in_user : ℕ → Bool = from_user (user_banked f reg_list ctx) ctx in
      let (target, loaded) = scatter in_user reg_list 16 0 values (none, record ctx { emu = e }) in
      finish_load f rn (count + 2)
        (target, write_back (f.wb && not (has_bit reg_list rn)) rn final_base loaded)

  unfoldable pub ldm : Bus R → BlockForm → ℕ → Ctx R → Ctx R × InstResult
  unfolding count_ones lowest load_values
  ldm bus f opcode ctx =
      let rn : ℕ = rn_of opcode in
      let reg_list : ℕ = bit_and opcode 0xffff in
      let count : ℕ = count_ones 16 0 reg_list in
      load_values f rn reg_list count ctx
        (bus.read_multiple (lowest f (reg ctx rn) (count * 4)) count ctx.emu)

  unfoldable pub stm : Bus R → BlockForm → ℕ → Ctx R → Ctx R × InstResult
  unfolding count_ones lowest gather stored_value
  stm bus f opcode ctx =
      let rn : ℕ = rn_of opcode in
      let reg_list : ℕ = bit_and opcode 0xffff in
      let count : ℕ = count_ones 16 0 reg_list in
      let base : ℕ = reg ctx rn in
      let final_base : ℕ =
        if f.up then u32 (base + count * 4) else wrapping_sub32 base (count * 4) in
      let banked : Bool = user_banked f reg_list ctx in
      let values : List ℕ =
        gather (stored_value f rn reg_list final_base banked ctx) reg_list 16 0 in
      let e : Emu R = bus.write_multiple (lowest f base (count * 4)) values ctx.emu in
      (write_back f.wb rn final_base (record ctx { emu = e }), continue_store (count + 1))

  unfoldable pub ldm_stm : Bus R → Bool → BlockForm → ℕ → Ctx R → Ctx R × InstResult
  unfolding empty_list ldm stm
  ldm_stm bus load f opcode ctx =
      if bit_and opcode 0xffff == 0
      then empty_list bus load f (rn_of opcode) ctx
      else if load
      then ldm bus f opcode ctx
      else stm bus f opcode ctx
