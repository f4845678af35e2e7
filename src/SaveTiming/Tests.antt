-- ===== src/SaveTiming/Tests.antt =====
-- Runs with a debounce time of ten seconds and a longest interval of thirty.
use drum_firmware.SaveTiming.Debounce.{clock_fall_saves, saves_when_due}
use drum_firmware.SaveTiming.{
  get_time_ms, mark_clean, mark_dirty, should_save_now, SaveTimingManager,
}
use drum_firmware.Base.{◌⊎◌, ◌-◌, ◌≤◌, arith, ◌↔◌, true, ◌≡◌, false}

abbrev timing : SaveTimingManager
timing = record {
  save_debounce_ms = 10000;
  max_save_interval_ms = 30000;
  state_is_dirty = false;
  last_change_time_ms = 0;
  last_save_time_ms = 0;
}

saves_when_due_example :
    (should_save_now
        (get_time_ms 4290000000)
        (mark_dirty (get_time_ms 4280000999) (mark_clean (get_time_ms 4275000000) timing))
      ≡ true)
    ↔ ((10000 ≤ get_time_ms 4290000000 - get_time_ms 4280000999)
        ⊎ (30000 ≤ get_time_ms 4290000000 - get_time_ms 4275000000))
saves_when_due_example =
    saves_when_due 4275000000 4280000999 4290000000 timing (omega arith) (omega arith) (omega arith)

clock_fall_saves_example :
    should_save_now (get_time_ms 1000000) (mark_dirty (get_time_ms 4294000000) timing) ≡ true
unfolding get_time_ms
clock_fall_saves_example =
    clock_fall_saves 4294000000 1000000 timing (omega arith) (omega arith) (omega arith)
