-- ===== src/Drumpad/Tests.antt =====
-- Runs of a pad.
use drum_firmware.Base.{◌≤◌, false}
use drum_firmware.Drumpad.{DrumpadConfig, update, initial, calculate_velocity}
use drum_firmware.Drumpad.Gesture
use drum_firmware.Drumpad.Gesture.{IsOrdered, events-IsOrdered}
use drum_firmware.Drumpad.Velocity.{calculate_velocity_bounds}

abbrev pad_config : DrumpadConfig
pad_config = record {
  noise_threshold = 150;
  trigger_threshold = 800;
  high_pressure_threshold = 2000;
  active_low = false;
  debounce_time_us = 5000;
  hold_time_us = 200000;
  max_velocity_time_us = 25000;
  min_velocity_time_us = 100;
}

events-IsOrdered_example :
    IsOrdered
      (update pad_config 5000 900 (update pad_config 1000 400 (initial pad_config))).notified
events-IsOrdered_example =
    events-IsOrdered (Gesture.updated 5000 900 (Gesture.updated 1000 400 Gesture.started))

calculate_velocity_bounds_example :
    (1 ≤ calculate_velocity pad_config 4000) × (calculate_velocity pad_config 4000 ≤ 127)
calculate_velocity_bounds_example = calculate_velocity_bounds pad_config 4000
