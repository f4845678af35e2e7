-- ===== src/Speed/Tests.antt =====
-- Runs of the speed adapter on the external clock.
use drum_firmware.Speed.Rate.{ticks_notified, run}
use drum_firmware.Speed.{divisor, half_speed, external_sync, SpeedAdapter, ClockEvent}
use drum_firmware.Base.{◌/◌, ◌%◌, true, ◌+◌, none, false, [], ◌≡◌, replicate, length, List, refl}

abbrev tick : ClockEvent
tick = record { source = external_sync; is_resync = false; is_beat = false }

abbrev down_beat : ClockEvent
down_beat = record { source = external_sync; is_resync = false; is_beat = true }

abbrev half_adapter : SpeedAdapter
half_adapter = record {
  modifier = half_speed;
  tick_counter = 3;
  current_source = external_sync;
  pending_modifier = none;
  notified = [];
}

abbrev five_ticks : List ClockEvent
five_ticks = replicate 5 tick

ticks_notified_example :
    length (run five_ticks half_adapter).notified
    ≡ length half_adapter.notified
      + (3 % divisor half_speed + length five_ticks) / divisor half_speed
ticks_notified_example =
    ticks_notified five_ticks half_adapter
      ((refl, refl), ((refl, refl), ((refl, refl), ((refl, refl), ((refl, refl), tt)))))
