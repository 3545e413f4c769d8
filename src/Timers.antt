-- ===== src/Timers.antt =====
-- src/core/timers.rs: the four timer channels. This file has their state; the operations, which
-- also schedule events and raise interrupts, are in `Control`.
pub mod Control
use advanced_slop.Base.{ℕ, List, replicate}

pub record TimerChannel : Type 0 where
  pub cnt_l : ℕ
  pub cnt_h : ℕ
  pub current_value : ℕ
  pub current_shift : ℕ
  pub scheduled_cycle : ℕ

-- `TimerChannel::default()`
abbrev pub default_channel : TimerChannel
default_channel = record {
  cnt_l = 0;
  cnt_h = 0;
  current_value = 0;
  current_shift = 0;
  scheduled_cycle = 0;
}

abbrev pub channel_count : ℕ
channel_count = 4

-- `Timers::new().channels`
unfoldable pub new_channels : List TimerChannel
new_channels = replicate channel_count default_channel
