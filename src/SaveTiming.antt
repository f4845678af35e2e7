-- ===== src/SaveTiming.antt =====
-- drum/save_timing_manager.cpp and .h: `SaveTimingManager`, when changed state is written to flash.
-- The time source is the argument `now`, what `get_time_ms` returned.
pub mod Debounce
mod Tests
use drum_firmware.Base.{◌||◌, sub_u32, leb, not, if◌then◌else◌, ◌/◌, true, false, Bool, ℕ}

pub record SaveTimingManager : Type 0 where
  pub save_debounce_ms : ℕ
  pub max_save_interval_ms : ℕ
  pub state_is_dirty : Bool
  pub last_change_time_ms : ℕ
  pub last_save_time_ms : ℕ

unfoldable pub mark_dirty : ℕ → SaveTimingManager → SaveTimingManager
mark_dirty now s = record s { state_is_dirty = true; last_change_time_ms = now }

unfoldable pub mark_clean : ℕ → SaveTimingManager → SaveTimingManager
mark_clean now s = record s { state_is_dirty = false; last_save_time_ms = now }

unfoldable pub should_save_now : ℕ → SaveTimingManager → Bool
should_save_now now s =
    if not s.state_is_dirty
    then false
    else leb s.save_debounce_ms (sub_u32 now s.last_change_time_ms)
      || leb s.max_save_interval_ms (sub_u32 now s.last_save_time_ms)

-- `PicoTimeSource`, from the 32-bit microsecond timer.
unfoldable pub get_time_ms : ℕ → ℕ
get_time_ms time_us_32 = time_us_32 / 1000
