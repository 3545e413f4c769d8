-- ===== src/Scheduler/Handlers.antt =====
-- The table of the event handlers in `Emu::cm_check_events` of src/core/cycle_manager.rs.
use advanced_slop.Base.{ℕ, ◌-◌, ◌&&◌, leb, if◌then◌else◌}
use advanced_slop.Timers.Control.{timers_overflow}
use advanced_slop.Emu.{Emu}

-- `LUT`: the slots 2 to 5 are those of the timers (`Emu::timers_on_overflow_event`). The handlers of
-- the picture and the sound unit, in the other slots, have no model.
unfoldable pub event_lut :
    {R : Type 0} → (others apu_on_fifo_timer : ℕ → Emu R → Emu R) → ℕ → Emu R → Emu R
event_lut others apu_on_fifo_timer i e =
    if leb 2 i && leb i 5 then timers_overflow apu_on_fifo_timer (i - 2) e else others i e
