-- ===== src/Scheduler.antt =====
-- src/core/cycle_manager.rs: the event scheduler. This file has the state of `CycleManager` and the
-- methods on it; `Dispatch` has `Emu::cm_check_events` and `cm_on_overflow_event`.
pub mod Scan
pub mod Dispatch
pub mod Clock
pub mod Earliest
pub mod Progress
pub mod Handlers
pub mod Settled
pub mod Taken
pub mod Drain
use advanced_slop.Base.{
  ℕ, ◌+◌, ◌-◌, ◌*◌, ◌^◌, max, min, bit_or, List, [], ◌∷◌, Bool, ltb, if◌then◌else◌, get_or, set,
  replicate,
}
use advanced_slop.Base.Word.{u32, u32_max}

pub data ImmEventType : Type 0 where
  cpu_interrupt dma0 dma1 dma2 dma3 : ImmEventType

-- `event_type as u8`
unfoldable pub imm_index : ImmEventType → ℕ
imm_index cpu_interrupt = 0
imm_index dma0 = 1
imm_index dma1 = 2
imm_index dma2 = 3
imm_index dma3 = 4

pub data EventType : Type 0 where
  gpu_scanline240 gpu_scanline308 timer0 timer1 timer2 timer3 apu_sample : EventType

unfoldable pub event_index : EventType → ℕ
event_index gpu_scanline240 = 0
event_index gpu_scanline308 = 1
event_index timer0 = 2
event_index timer1 = 3
event_index timer2 = 4
event_index timer3 = 5
event_index apu_sample = 6

-- `EventType::Last`, the number of slots.
abbrev pub event_slots : ℕ
event_slots = 7

pub record CycleManager : Type 0 where
  pub cycle_count : ℕ
  pub events : List ℕ
  pub next_event_cycle : ℕ
  pub active_events : ℕ
  pub active_imm_events : ℕ
  pub current_event_due : ℕ

unfoldable pub new : CycleManager
new = record {
  cycle_count = 0;
  events = replicate event_slots 0;
  next_event_cycle = u32_max;
  active_events = 0;
  active_imm_events = 0;
  current_event_due = 0;
}

-- The release build wraps.
unfoldable pub add_cycles : ℕ → CycleManager → CycleManager
add_cycles n cm = record cm { cycle_count = u32 (cm.cycle_count + n) }

-- The mask of slot `i`, `1 << (31 - i)`.
abbrev pub slot_mask : ℕ → ℕ
slot_mask i = 2 ^ (31 - i)

unfoldable pub schedule_imm : ImmEventType → CycleManager → CycleManager
unfolding imm_index
schedule_imm e cm = record cm {
  active_imm_events = bit_or cm.active_imm_events (slot_mask (imm_index e));
}

-- The write that `schedule` and `schedule_from_due` share.
unfoldable pub arm : ℕ → ℕ → CycleManager → CycleManager
arm i event_cycle cm = record cm {
  events = set cm.events i event_cycle;
  active_events = bit_or cm.active_events (slot_mask i);
  next_event_cycle =
      if ltb event_cycle cm.next_event_cycle then event_cycle else cm.next_event_cycle;
}

-- The cycle at which `schedule` puts an event: at least one cycle ahead, at most `u32::MAX`.
unfoldable pub due_cycle : ℕ → ℕ → ℕ
due_cycle in_cycles now =
    let wait : ℕ = max in_cycles 1 in
    now + (if ltb (u32_max - wait) now then u32_max - now else wait)

unfoldable pub schedule : ℕ → EventType → CycleManager → CycleManager
unfolding arm due_cycle event_index
schedule in_cycles e cm = arm (event_index e) (due_cycle in_cycles cm.cycle_count) cm

-- `a.saturating_add(b)`
abbrev pub saturating_add : ℕ → ℕ → ℕ
saturating_add a b = min (a + b) u32_max

unfoldable pub schedule_from_due : ℕ → EventType → CycleManager → CycleManager
unfolding arm event_index
schedule_from_due in_cycles e cm =
    arm (event_index e) (saturating_add cm.current_event_due in_cycles) cm

-- The clock never moves backwards.
unfoldable pub jump_to_next_event : CycleManager → CycleManager
jump_to_next_event cm =
    if ltb cm.cycle_count cm.next_event_cycle
    then record cm { cycle_count = cm.next_event_cycle }
    else cm
