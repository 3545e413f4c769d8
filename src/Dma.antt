-- ===== src/Dma.antt =====
-- src/core/memory/dma.rs: the four DMA channels. This file has their state and the fields of a
-- control word; the operations are in `Control`.
pub mod Control
pub mod Ready
pub mod Invariant
use advanced_slop.Base.{
  ℕ, ◌+◌, ◌-◌, ◌*◌, ◌/◌, ◌%◌, ◌^◌, List, replicate, Bool, true, false, ◌==◌, if◌then◌else◌,
}
use advanced_slop.Base.Word.{has_bit}

pub record DmaChannel : Type 0 where
  pub cnt : ℕ
  pub sad : ℕ
  pub dad : ℕ
  pub current_src : ℕ
  pub current_dest : ℕ
  pub current_count : ℕ

-- `DmaChannel::default()`
abbrev pub default_channel : DmaChannel
default_channel = record {
  cnt = 0;
  sad = 0;
  dad = 0;
  current_src = 0;
  current_dest = 0;
  current_count = 0;
}

-- `Dma::new().channels`
unfoldable pub new_channels : List DmaChannel
new_channels = replicate 4 default_channel

pub data DmaAddrCtrl : Type 0 where
  increment decrement fixed increment_reload : DmaAddrCtrl

-- `DmaAddrCtrl::from`, of two bits.
abbrev pub addr_ctrl : ℕ → DmaAddrCtrl
addr_ctrl n =
    if n == 0
    then increment
    else if n == 1
    then decrement
    else if n == 2
    then fixed
    else increment_reload

pub data DmaTransferMode : Type 0 where
  start_imm start_at_vblank start_at_hblank special : DmaTransferMode

-- `transfer_mode as u8`, of the bits 28 and 29.
abbrev pub mode_bits : ℕ → ℕ
mode_bits cnt = cnt / 2 ^ 28 % 4

abbrev pub mode_index : DmaTransferMode → ℕ
mode_index start_imm = 0
mode_index start_at_vblank = 1
mode_index start_at_hblank = 2
mode_index special = 3

-- `DmaTransferMode::from_cnt(cnt) == mode`
abbrev pub has_mode : DmaTransferMode → ℕ → Bool
has_mode mode cnt = mode_bits cnt == mode_index mode

-- The fields of `DmaCnt`.
abbrev pub dest_addr_ctrl : ℕ → DmaAddrCtrl
dest_addr_ctrl cnt = addr_ctrl (cnt / 2 ^ 21 % 4)

abbrev pub src_addr_ctrl : ℕ → DmaAddrCtrl
src_addr_ctrl cnt = addr_ctrl (cnt / 2 ^ 23 % 4)

abbrev pub repeats : ℕ → Bool
repeats cnt = has_bit cnt 25

abbrev pub is_wide : ℕ → Bool
is_wide cnt = has_bit cnt 26

abbrev pub irq_at_end : ℕ → Bool
irq_at_end cnt = has_bit cnt 30

abbrev pub enabled : ℕ → Bool
enabled cnt = has_bit cnt 31

-- The most words that a channel transfers.
abbrev pub max_count : ℕ → ℕ
max_count channel_num = if channel_num == 3 then 0x10000 else 0x4000

unfoldable pub dma_word_count : ℕ → ℕ → ℕ
dma_word_count cnt channel_num =
    let count : ℕ = cnt % 2 ^ 16 in if count == 0 then max_count channel_num else count
