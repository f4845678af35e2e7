-- ===== src/Clock/Tests.antt =====
-- Runs of the clock's parts.
use drum_firmware.Base.{refl, arith, ◌*◌, ◌+◌, ◌/◌, false, [], ◌∷◌, ◌==◌, true, some, ℕ}
use drum_firmware.Speed.{external_sync, ClockEvent}
use drum_firmware.Clock.Internal.{BpmOps, InternalClock, set_bpm}
use drum_firmware.Clock.NoDrift.{IsTicking, run, set_bpm_rephases}
use drum_firmware.Clock.Midi.{MidiClockProcessor}
use drum_firmware.Clock.Midi.Pauses
use drum_firmware.Clock.SyncIn.{update, create}
use drum_firmware.Clock.SyncIn.Debounce.{
  created, updated, Debounced, Bounded, Reach, beats_and_ticks,
}
use drum_firmware.Clock.SyncOut.{notification, enable}
use drum_firmware.Clock.SyncOut
use drum_firmware.Clock.SyncOut.Pulse.{IsValid, pulse_ends}
use drum_firmware.Clock.SyncOut.Pulse

abbrev whole_bpm : BpmOps ℕ
whole_bpm = record {
  not_positive = λ b. b == 0;
  same = λ a b. a == b;
  tick_interval = λ b. 2500000 / b;
}

abbrev at_120 : InternalClock ℕ
at_120 = record {
  current_bpm = 120;
  tick_interval_us = 20833;
  is_running = true;
  next_tick_time = some 30833;
}

set_bpm_rephases_example :
    let r = run (40000 ∷ 60000 ∷ []) (set_bpm whole_bpm 100 at_120) in
    IsTicking (10000 + (r.0 + 1) * 25000) r.1
set_bpm_rephases_example =
    set_bpm_rephases whole_bpm 100 10000 (40000 ∷ 60000 ∷ []) at_120 refl refl
      (record { running = refl; scheduled = refl })

abbrev ticking : MidiClockProcessor
ticking = record {
  last_raw_tick_time = some 0;
  forward_echo_enabled = true;
  notified = [];
  echoed = 0;
}

-- Two pulses, with the pin low between them.
abbrev two_pulses : Reach 20000 (
    update true true 20000 20000 (
      update false true 15000 15000
        (update false true 5000 5000 (update true true 1000 1000 (create false true)))))
two_pulses =
    updated true true 20000 20000
      (updated false true 15000 15000
        (updated false true 5000 5000
          (updated true true 1000 1000 (created false true 0) (omega arith)) (omega arith))
        (omega arith))
      (omega arith)

beats_and_ticks_example :
    let s = update true true 20000 20000 (
      update false true 15000 15000
        (update false true 5000 5000 (update true true 1000 1000 (create false true)))) in
    Debounced s.emitted × Bounded s.emitted
beats_and_ticks_example = beats_and_ticks two_pulses

abbrev beat : ClockEvent
beat = record { source = external_sync; is_resync = false; is_beat = true }

pulse_ends_example : IsValid (notification (some 1) beat (enable (SyncOut.create 12)))
pulse_ends_example =
    pulse_ends
      (Pulse.stepped (Pulse.stepped Pulse.created Pulse.enabled) (Pulse.notified (some 1) beat))
