-- ===== src/Dma/Invariant.antt =====
-- The operations of the DMA unit keep every channel ready.
use advanced_slop.Base.{
  ℕ, zero, suc, ◌-◌, ◌<◌, ◌≡◌, inl, inr, refl, sym, ap, ◌∙◌, arith, List, Bool, true, false, not,
  ◌&&◌, ◌||◌, ◌==◌, if◌then◌else◌, not_zero, bit_and, get_or, set, length, length-set,
  get_or-set_self, get_or-set_ne, Bool-cases, ==_iff,
}
use mathlib.Core.Path.{subst}
use advanced_slop.Emu.{Emu}
use advanced_slop.Cpu.Interrupts.{
  can_interrupt, cpu_unhalt, raise_flag, cpu_check_for_interrupt, cpu_schedule_interrupt,
  InterruptFlag, cpu_send_interrupt,
}
use advanced_slop.Base.Digits.{complement}
use advanced_slop.Cpu.{irq_disable}
use advanced_slop.Scheduler.{schedule_imm}
use advanced_slop.Dma.{
  DmaAddrCtrl, DmaChannel, default_channel, increment, decrement, fixed, increment_reload, enabled,
  has_mode, special, start_imm, is_wide, irq_at_end, src_addr_ctrl, dest_addr_ctrl,
}
use advanced_slop.Dma.Control.{
  by_addr_ctrl, step_size, buffer, live, imm_dma, write_cnt, end_channel, channel_at, set_channel,
  dma_set_cnt, dma_flag, copy_loop, source_block, sound_values, sound_transfer, dma_do_transfer,
  dma_on_event, Source, Bus,
}
use advanced_slop.Dma.Ready.{IsReady, write_cnt-IsReady, end_channel-IsReady}

module _ {R : Type 0} where
  pub record AllReady (e : Emu R) : Type 0 where
    pub size : length e.dma ≡ 4
    pub ready : (n : ℕ) → n < 4 → IsReady n (channel_at n e)

  set_channel-AllReady :
      (n : ℕ) (c : DmaChannel) (e : Emu R)
      → n < 4
      → IsReady n c
      → AllReady e
      → AllReady (set_channel n c e)
  set_channel-AllReady n c e hn h all = record {
    size = length-set e.dma n c ∙ all.size;
    ready = λ k hk. elim (Bool-cases (n == k)) [
      | inl same ↦
          let p : n ≡ k = (==_iff n k).0 same in
          subst (λ t. IsReady t (get_or (set e.dma n c) t default_channel)) p
            (subst (IsReady n)
              (sym (get_or-set_self e.dma n c default_channel (omega (arith, hn, all.size)))) h)
      | inr other ↦
          subst (IsReady k)
            (sym (get_or-set_ne e.dma n k c default_channel (λ p. cc ((==_iff n k).1 p, other))))
            (all.ready k hk)
    ];
  }

  -- Only the channels matter.
  AllReady-same : (e e' : Emu R) → e'.dma ≡ e.dma → AllReady e → AllReady e'
  AllReady-same e e' p all = record {
    size = ap length p ∙ all.size;
    ready = λ n hn. subst (λ d. IsReady n (get_or d n default_channel)) (sym p) (all.ready n hn);
  }

  AllReady-if : (b : Bool) (x y : Emu R) → AllReady x → AllReady y → AllReady (if b then x else y)
  AllReady-if true x y h k = h
  AllReady-if false x y h k = k

  second_if :
      (b : Bool) (x y : Source × Emu R)
      → AllReady x.1
      → AllReady y.1
      → AllReady (if b then x else y).1
  second_if true x y h k = h
  second_if false x y h k = k

  third_if :
      (b : Bool) (x y : ℕ × ℕ × Emu R)
      → AllReady x.2
      → AllReady y.2
      → AllReady (if b then x else y).2
  third_if true x y h k = h
  third_if false x y h k = k

  -- The accesses of the memory keep the channels ready: they reach them by `dma_set_cnt` and its
  -- like only.
  pub record KeepsReady (bus : Bus R) : Type 0 where
    pub read : (wide : Bool) (addr : ℕ) (e : Emu R) → AllReady e → AllReady (bus.read wide addr e).1
    pub write :
        (wide : Bool) (addr value : ℕ) (e : Emu R)
        → AllReady e
        → AllReady (bus.write wide addr value e)
    pub read_multiple :
        (wide : Bool) (addr count : ℕ) (e : Emu R)
        → AllReady e
        → AllReady (bus.read_multiple wide addr count e).1
    pub read_fixed :
        (wide : Bool) (addr count : ℕ) (e : Emu R)
        → AllReady e
        → AllReady (bus.read_fixed wide addr count e).1
    pub write_multiple :
        (wide : Bool) (addr : ℕ) (s : Source) (count : ℕ) (e : Emu R)
        → AllReady e
        → AllReady (bus.write_multiple wide addr s count e)
    pub write_fixed :
        (wide : Bool) (addr : ℕ) (s : Source) (count : ℕ) (e : Emu R)
        → AllReady e
        → AllReady (bus.write_fixed wide addr s count e)

  -- A write of the control word of one of the four channels keeps every channel ready.
  pub dma_set_cnt-AllReady :
      (n mask value : ℕ) (e : Emu R) → n < 4 → AllReady e → AllReady (dma_set_cnt n mask value e)
  unfolding dma_set_cnt
  dma_set_cnt-AllReady n mask value e hn all =
      let c : DmaChannel = write_cnt n mask value (channel_at n e) in
      let done : AllReady (set_channel n c e) =
        set_channel-AllReady n c e hn
          (write_cnt-IsReady n mask value (channel_at n e) (all.ready n hn)) all in
      let old : DmaChannel = channel_at n e in
      AllReady-if (not (enabled old.cnt) && enabled c.cnt && has_mode start_imm c.cnt)
        (record (set_channel n c e) { breakout_imm = true; cm = schedule_imm (imm_dma n) e.cm })
        (set_channel n c e) (AllReady-same (set_channel n c e) _ refl done) done

  dma_if :
      (b : Bool) (x y : Emu R) (d : List DmaChannel)
      → x.dma ≡ d
      → y.dma ≡ d
      → (if b then x else y).dma ≡ d
  dma_if true x y d h k = h
  dma_if false x y d h k = k

  cpu_send_interrupt-dma :
      (flag : InterruptFlag) (e : Emu R) → (cpu_send_interrupt flag e).dma ≡ e.dma
  unfolding cpu_send_interrupt raise_flag cpu_check_for_interrupt cpu_schedule_interrupt cpu_unhalt
  cpu_send_interrupt-dma flag e =
      let e' : Emu R = raise_flag flag e in
      dma_if (not_zero (bit_and e'.regs.ie e'.regs.irf)) _ _ e.dma
        (dma_if (not_zero e'.regs.ime && not (irq_disable e'.regs.cpsr)) _ _ e.dma
          (dma_if (can_interrupt e'.regs) _ _ e.dma refl refl) refl)
        refl

  -- The pairs of address controls choose between four transfers.
  by_ctrl :
      (s d : DmaAddrCtrl) (to_fixed to_block filled looped : ℕ × ℕ × Emu R)
      → AllReady to_fixed.2
      → AllReady to_block.2
      → AllReady filled.2
      → AllReady looped.2
      → AllReady (by_addr_ctrl s d to_fixed to_block filled looped).2
  by_ctrl increment increment a b c l ha hb hc hl = hb
  by_ctrl increment decrement a b c l ha hb hc hl = hl
  by_ctrl increment fixed a b c l ha hb hc hl = ha
  by_ctrl increment increment_reload a b c l ha hb hc hl = hb
  by_ctrl fixed increment a b c l ha hb hc hl = hc
  by_ctrl fixed decrement a b c l ha hb hc hl = hl
  by_ctrl fixed fixed a b c l ha hb hc hl = hl
  by_ctrl fixed increment_reload a b c l ha hb hc hl = hc
  by_ctrl decrement d a b c l ha hb hc hl = hl
  by_ctrl increment_reload d a b c l ha hb hc hl = hl

  module _ (bus : Bus R) (keeps : KeepsReady bus) where
    copy_loop-AllReady :
        (wide : Bool) (cnt count dest src : ℕ) (e : Emu R)
        → AllReady e
        → AllReady (copy_loop bus wide cnt count (dest, src, e)).2
    unfolding copy_loop
    copy_loop-AllReady wide cnt zero dest src e all = all
    copy_loop-AllReady wide cnt (suc count) dest src e all =
        copy_loop-AllReady wide cnt count _ _ _
          (keeps.write wide dest _ _ (keeps.read wide src e all))

    source_block-AllReady :
        (wide : Bool) (src count : ℕ) (e : Emu R)
        → AllReady e
        → AllReady (source_block bus wide src count e).1
    unfolding source_block
    source_block-AllReady wide src count e all =
        let aligned : ℕ = bit_and (bit_and src (complement 32 (step_size wide - 1))) 0x0fff_ffff in
        second_if (bus.in_shm aligned e) (live aligned, e)
          (
            buffer (bus.read_multiple wide aligned count e).0,
            (bus.read_multiple wide aligned count e).1,
          )
          all (keeps.read_multiple wide aligned count e all)

    sound_values-AllReady :
        (cnt left src : ℕ) (e : Emu R) → AllReady e → AllReady (sound_values bus cnt left src e).2
    unfolding sound_values
    sound_values-AllReady cnt zero src e all = all
    sound_values-AllReady cnt (suc left) src e all =
        sound_values-AllReady cnt left _ _ (keeps.read true src e all)

    sound_transfer-AllReady :
        (cnt dest src : ℕ) (e : Emu R) → AllReady e → AllReady (sound_transfer bus cnt dest src e).2
    unfolding sound_transfer
    sound_transfer-AllReady cnt dest src e all =
        keeps.write_fixed true dest _ 4 _ (sound_values-AllReady cnt 4 src e all)

    dma_do_transfer-AllReady :
        (wide : Bool) (cnt dest src count : ℕ) (e : Emu R)
        → AllReady e
        → AllReady (dma_do_transfer bus wide cnt dest src count e).2
    unfolding dma_do_transfer
    dma_do_transfer-AllReady wide cnt dest src count e all =
        let block : AllReady (source_block bus wide src count e).1 =
          source_block-AllReady wide src count e all in
        by_ctrl (src_addr_ctrl cnt) (dest_addr_ctrl cnt) _ _ _ _
          (keeps.write_fixed wide dest _ count _ block)
          (keeps.write_multiple wide dest _ count _ block)
          (keeps.write_multiple wide dest _ count _ (keeps.read_fixed wide src count e all))
          (copy_loop-AllReady wide cnt count dest src e all)

    -- With a memory that keeps the channels ready, a transfer of one of the four channels keeps every
    -- channel ready.
    pub dma_on_event-AllReady :
        (n : ℕ) (e : Emu R) → n < 4 → AllReady e → AllReady (dma_on_event bus n e)
    unfolding dma_on_event
    dma_on_event-AllReady n e hn all =
        let c : DmaChannel = channel_at n e in
        let t : ℕ × ℕ × Emu R =
          if has_mode special c.cnt && (n == 1 || n == 2)
          then sound_transfer bus c.cnt c.current_dest c.current_src e
          else dma_do_transfer bus (is_wide c.cnt) c.cnt c.current_dest c.current_src
              c.current_count e in
        let moved : AllReady t.2 =
          third_if (has_mode special c.cnt && (n == 1 || n == 2)) _ _
            (sound_transfer-AllReady c.cnt c.current_dest c.current_src e all)
            (dma_do_transfer-AllReady (is_wide c.cnt) c.cnt c.current_dest c.current_src
              c.current_count e all) in
        let last : DmaChannel = end_channel n c.cnt t.0 t.1 (channel_at n t.2) in
        let ended : AllReady (set_channel n last t.2) =
          set_channel-AllReady n last t.2 hn
            (end_channel-IsReady n c.cnt t.0 t.1 (channel_at n t.2) (moved.ready n hn)) moved in
        AllReady-if (irq_at_end c.cnt) (cpu_send_interrupt (dma_flag n) (set_channel n last t.2))
          (set_channel n last t.2)
          (AllReady-same (set_channel n last t.2) _
            (cpu_send_interrupt-dma (dma_flag n) (set_channel n last t.2)) ended)
          ended
