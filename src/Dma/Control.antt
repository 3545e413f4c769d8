-- ===== src/Dma/Control.antt =====
-- The operations of src/core/memory/dma.rs. The memory's slices are the operations of a `Bus`.
use advanced_slop.Base.{
  ℕ, zero, suc, ◌+◌, ◌-◌, ◌*◌, ◌^◌, List, [], ◌∷◌, Bool, true, false, not, ◌&&◌, ◌||◌, ◌==◌,
  if◌then◌else◌, bit_and, get_or, set,
}
use advanced_slop.Base.Word.{u32, wrapping_sub32, masked, has_bit}
use advanced_slop.Base.Digits.{complement}
use advanced_slop.Scheduler.{ImmEventType, schedule_imm}
use advanced_slop.Cpu.Interrupts.{InterruptFlag, cpu_send_interrupt}
use advanced_slop.Emu.{Emu}
use advanced_slop.Dma.{
  DmaChannel, default_channel, DmaAddrCtrl, increment, decrement, fixed, increment_reload,
  DmaTransferMode, start_imm, special, has_mode, dest_addr_ctrl, src_addr_ctrl, repeats, is_wide,
  irq_at_end, enabled, dma_word_count,
}

-- `ImmEventType::dma`
unfoldable pub imm_dma : ℕ → ImmEventType
imm_dma n =
    if n == 0
    then ImmEventType.dma0
    else if n == 1
    then ImmEventType.dma1
    else if n == 2
    then ImmEventType.dma2
    else ImmEventType.dma3

-- `InterruptFlag::from(InterruptFlag::Dma0 as u8 + channel_num)`
unfoldable pub dma_flag : ℕ → InterruptFlag
dma_flag n =
    if n == 0
    then InterruptFlag.dma0
    else if n == 1
    then InterruptFlag.dma1
    else if n == 2
    then InterruptFlag.dma2
    else InterruptFlag.dma3

-- What a block is written from: a buffer of values that were read, or the memory itself, from an
-- address on.
pub data Source : Type 0 where
  buffer : List ℕ → Source
  live : ℕ → Source

-- The accesses of src/core/memory/mem.rs, of words (`true`) or halfwords. `in_shm` says whether
-- `get_shm_offset` finds an address; the address comes first, the count of elements last.
pub record Bus (R : Type 0) : Type 0 where
  pub read : Bool → ℕ → Emu R → ℕ × Emu R
  pub write : Bool → ℕ → ℕ → Emu R → Emu R
  pub in_shm : ℕ → Emu R → Bool
  pub read_multiple : Bool → ℕ → ℕ → Emu R → List ℕ × Emu R
  pub read_fixed : Bool → ℕ → ℕ → Emu R → List ℕ × Emu R
  pub write_multiple : Bool → ℕ → Source → ℕ → Emu R → Emu R
  pub write_fixed : Bool → ℕ → Source → ℕ → Emu R → Emu R

abbrev pub step_size : Bool → ℕ
step_size wide = if wide then 4 else 2

-- One step of an address in the loop over the words of a transfer.
unfoldable pub step_addr : DmaAddrCtrl → ℕ → ℕ → ℕ
step_addr increment n addr = u32 (addr + n)
step_addr decrement n addr = wrapping_sub32 addr n
step_addr fixed n addr = addr
step_addr increment_reload n addr = u32 (addr + n)

-- A source that reloads stays where it is.
unfoldable pub step_src : DmaAddrCtrl → ℕ → ℕ → ℕ
step_src increment n addr = u32 (addr + n)
step_src decrement n addr = wrapping_sub32 addr n
step_src _ n addr = addr

-- The bits of the registers that a write reaches.
abbrev pub addr_mask : ℕ → ℕ
addr_mask channel_num = if channel_num == 0 then 0x07ff_ffff else 0x0fff_ffff

abbrev pub cnt_mask : ℕ → ℕ
cnt_mask channel_num = if channel_num == 3 then 0xf7e0_ffff else 0xf7e0_3fff

-- The channel after a write of its control word: a channel that becomes enabled takes its addresses
-- and its count.
unfoldable pub write_cnt : (channel_num mask value : ℕ) → DmaChannel → DmaChannel
unfolding dma_word_count
write_cnt channel_num mask value c =
    let cnt : ℕ = masked 32 c.cnt (bit_and mask (cnt_mask channel_num)) value in
    let written : DmaChannel = record c { cnt = cnt } in
    if not (enabled c.cnt) && enabled cnt
    then (record written {
      current_src = c.sad;
      current_dest = c.dad;
      current_count = dma_word_count cnt channel_num;
    })
    else written

-- The channel after a transfer that began with the control word `cnt`: it is made ready to repeat,
-- or disabled.
unfoldable pub end_channel : (channel_num cnt dest src : ℕ) → DmaChannel → DmaChannel
unfolding dma_word_count
end_channel channel_num cnt dest src c =
    let moved : DmaChannel = record c { current_dest = dest; current_src = src } in
    let reload : ℕ = elim (dest_addr_ctrl cnt) [ increment_reload ↦ c.dad | _ ↦ dest ] in
    if repeats cnt && not (has_mode start_imm cnt)
    then (record moved { current_count = dma_word_count c.cnt channel_num; current_dest = reload })
    else (record moved { cnt = bit_and c.cnt (complement 32 (2 ^ 31)) })

-- The `match` on the address controls, source first: three pairs have slices, all others the loop.
abbrev pub by_addr_ctrl {ℓ} :
    {A : Type ℓ} → DmaAddrCtrl → DmaAddrCtrl → (to_fixed to_block filled looped : A) → A
by_addr_ctrl increment fixed to_fixed to_block filled looped = to_fixed
by_addr_ctrl increment increment to_fixed to_block filled looped = to_block
by_addr_ctrl increment increment_reload to_fixed to_block filled looped = to_block
by_addr_ctrl fixed increment to_fixed to_block filled looped = filled
by_addr_ctrl fixed increment_reload to_fixed to_block filled looped = filled
by_addr_ctrl _ _ to_fixed to_block filled looped = looped

-- The test of the triggers.
unfoldable pub answers : DmaTransferMode → (channels index : ℕ) → DmaChannel → Bool
answers mode channels index c = has_bit channels index && enabled c.cnt && has_mode mode c.cnt

-- `dma_is_scheduled`, over the channels from `index` on.
unfoldable pub scheduled_from : DmaTransferMode → (channels index : ℕ) → List DmaChannel → Bool
unfolding answers
scheduled_from mode channels index [] = false
scheduled_from mode channels index (c ∷ cs) =
    answers mode channels index c || scheduled_from mode channels (index + 1) cs

module _ {R : Type 0} where
  abbrev pub channel_at : ℕ → Emu R → DmaChannel
  channel_at n e = get_or e.dma n default_channel

  abbrev pub set_channel : ℕ → DmaChannel → Emu R → Emu R
  set_channel n c e = record e { dma = set e.dma n c }

  unfoldable pub dma_get_cnt : ℕ → Emu R → ℕ
  dma_get_cnt n e = (channel_at n e).cnt

  unfoldable pub dma_set_sad : (channel_num mask value : ℕ) → Emu R → Emu R
  dma_set_sad n mask value e =
      let c : DmaChannel = channel_at n e in
      set_channel n (record c { sad = masked 32 c.sad (bit_and mask (addr_mask n)) value }) e

  unfoldable pub dma_set_dad : (channel_num mask value : ℕ) → Emu R → Emu R
  dma_set_dad n mask value e =
      let c : DmaChannel = channel_at n e in
      set_channel n (record c { dad = masked 32 c.dad (bit_and mask (addr_mask n)) value }) e

  unfoldable pub dma_set_cnt : (channel_num mask value : ℕ) → Emu R → Emu R
  unfolding write_cnt imm_dma
  dma_set_cnt n mask value e =
      let old : DmaChannel = channel_at n e in
      let c : DmaChannel = write_cnt n mask value old in
      let e' : Emu R = set_channel n c e in
      if not (enabled old.cnt) && enabled c.cnt && has_mode start_imm c.cnt
      then (record e' { breakout_imm = true; cm = schedule_imm (imm_dma n) e.cm })
      else e'

  -- `dma_trigger`, over the channels from `index` on.
  unfoldable pub trigger_from :
      DmaTransferMode → (channels index : ℕ) → List DmaChannel → Emu R → Emu R
  unfolding answers imm_dma
  trigger_from mode channels index [] e = e
  trigger_from mode channels index (c ∷ cs) e = trigger_from mode channels (index + 1) cs (
      if answers mode channels index c
      then record e { cm = schedule_imm (imm_dma index) e.cm }
      else e)

  unfoldable pub dma_trigger : DmaTransferMode → ℕ → Emu R → Emu R
  unfolding trigger_from
  dma_trigger mode channels e = trigger_from mode channels 0 e.dma e

  unfoldable pub dma_trigger_all : DmaTransferMode → Emu R → Emu R
  unfolding dma_trigger
  dma_trigger_all mode e = dma_trigger mode 0xf e

  unfoldable pub dma_is_scheduled : DmaTransferMode → ℕ → Emu R → Bool
  unfolding scheduled_from
  dma_is_scheduled mode channels e = scheduled_from mode channels 0 e.dma

  -- The loop over the words: the destination, the source and the machine.
  unfoldable pub copy_loop : Bus R → (wide : Bool) → (cnt count : ℕ) → ℕ × ℕ × Emu R → ℕ × ℕ × Emu R
  unfolding step_addr step_src
  copy_loop bus wide cnt zero s = s
  copy_loop bus wide cnt (suc count) (dest, src, e) =
      let n : ℕ = step_size wide in
      let (value, e') = bus.read wide src e in
      copy_loop bus wide cnt count (
        step_addr (dest_addr_ctrl cnt) n dest,
        step_src (src_addr_ctrl cnt) n src,
        bus.write wide dest value e',
      )

  -- The block that a transfer with an increasing source writes.
  unfoldable pub source_block : Bus R → (wide : Bool) → (src count : ℕ) → Emu R → Source × Emu R
  source_block bus wide src count e =
      let aligned : ℕ = bit_and (bit_and src (complement 32 (step_size wide - 1))) 0x0fff_ffff in
      let (values, e') = bus.read_multiple wide aligned count e in
      if bus.in_shm aligned e then (live aligned, e) else (buffer values, e')

  -- `dma_do_transfer`, all of whose ways are named before one is chosen.
  unfoldable pub dma_do_transfer :
      Bus R → (wide : Bool) → (cnt dest src count : ℕ) → Emu R → ℕ × ℕ × Emu R
  unfolding copy_loop source_block
  dma_do_transfer bus wide cnt dest src count e =
      let total : ℕ = count * step_size wide in
      let (block, read) = source_block bus wide src count e in
      let (values, read_once) = bus.read_fixed wide src count e in
      let to_fixed : ℕ × ℕ × Emu R =
        (dest, u32 (src + total), bus.write_fixed wide dest block count read) in
      let to_block : ℕ × ℕ × Emu R =
        (u32 (dest + total), u32 (src + total), bus.write_multiple wide dest block count read) in
      let filled : ℕ × ℕ × Emu R =
        (u32 (dest + total), src, bus.write_multiple wide dest (buffer values) count read_once) in
      let looped : ℕ × ℕ × Emu R = copy_loop bus wide cnt count (dest, src, e) in
      by_addr_ctrl (src_addr_ctrl cnt) (dest_addr_ctrl cnt) to_fixed to_block filled looped

  -- The values of a sound transfer.
  unfoldable pub sound_values : Bus R → (cnt left src : ℕ) → Emu R → List ℕ × ℕ × Emu R
  unfolding step_src
  sound_values bus cnt zero src e = ([], src, e)
  sound_values bus cnt (suc left) src e =
      let (value, e') = bus.read true src e in
      let (values, src', e'') = sound_values bus cnt left (step_src (src_addr_ctrl cnt) 4 src) e' in
      (value ∷ values, src', e'')

  -- Always four words for the sound unit's queue, whatever the count and the destination's control.
  unfoldable pub sound_transfer : Bus R → (cnt dest src : ℕ) → Emu R → ℕ × ℕ × Emu R
  unfolding sound_values
  sound_transfer bus cnt dest src e =
      let (values, src', e') = sound_values bus cnt 4 src e in
      (dest, src', bus.write_fixed true dest (buffer values) 4 e')

  unfoldable pub dma_on_event : Bus R → ℕ → Emu R → Emu R
  unfolding dma_do_transfer sound_transfer end_channel dma_flag
  dma_on_event bus n e =
      let c : DmaChannel = channel_at n e in
      let (dest, src, moved) =
        if has_mode special c.cnt && (n == 1 || n == 2)
        then sound_transfer bus c.cnt c.current_dest c.current_src e
        else dma_do_transfer bus (is_wide c.cnt) c.cnt c.current_dest c.current_src c.current_count
            e in
      let ended : Emu R = set_channel n (end_channel n c.cnt dest src (channel_at n moved)) moved in
      if irq_at_end c.cnt then cpu_send_interrupt (dma_flag n) ended else ended

  -- `dma_trigger_imm`: `left` channels from `i` on, each tested when its turn comes.
  unfoldable pub dma_trigger_imm : Bus R → DmaTransferMode → (channels left i : ℕ) → Emu R → Emu R
  unfolding dma_on_event answers
  dma_trigger_imm bus mode channels zero i e = e
  dma_trigger_imm bus mode channels (suc left) i e =
      dma_trigger_imm bus mode channels left (i + 1)
        (if answers mode channels i (channel_at i e) then dma_on_event bus i e else e)
