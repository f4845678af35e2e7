-- ===== src/Clock/Midi.antt =====
-- musin/timing/midi_clock_processor.cpp: `MidiClockProcessor`. A time is in microseconds, a time that
-- is not set is `none`, and the events that are passed to the observers are kept newest first.
use drum_firmware.Base.{
  ◌-◌, ◌+◌, u32, true, ltb, if◌then◌else◌, false, List, ◌∷◌, some, none, Option, Bool, ℕ,
}
use drum_firmware.Speed.{midi, ClockEvent, ClockSource}
pub mod Pauses

pub record MidiClockProcessor : Type 0 where
  pub last_raw_tick_time : Option ℕ
  pub forward_echo_enabled : Bool
  pub notified : List ClockEvent
  pub echoed : ℕ

abbrev pub midi_clock_timeout_us : ℕ
midi_clock_timeout_us = 500000

abbrev pub resync_event : ClockEvent
resync_event = record { source = midi; is_resync = true; is_beat = false }

abbrev pub raw_tick_event : ClockEvent
raw_tick_event = record { source = midi; is_resync = false; is_beat = false }

unfoldable pub reset : MidiClockProcessor → MidiClockProcessor
reset p = record p { last_raw_tick_time = none }

-- `current_interval_us > MIDI_CLOCK_TIMEOUT_US`, where the interval is kept in 32 bits.
unfoldable pub is_paused : ℕ → ℕ → Bool
is_paused last now = ltb midi_clock_timeout_us (u32 (now - last))

unfoldable pub resynced : ℕ → MidiClockProcessor → MidiClockProcessor
resynced now p = record p { last_raw_tick_time = some now; notified = resync_event ∷ p.notified }

-- The part before the tick is forwarded.
unfoldable pub time_tick : Option ℕ → ℕ → MidiClockProcessor → MidiClockProcessor
unfolding resynced reset
time_tick none now p = resynced now p
time_tick (some last) now p =
    let q = if is_paused last now then resynced now (reset p) else p in
    record q { last_raw_tick_time = some now }

unfoldable pub on_midi_clock_tick_received : ℕ → MidiClockProcessor → MidiClockProcessor
unfolding time_tick
on_midi_clock_tick_received now p =
    let q = time_tick p.last_raw_tick_time now p in
    record q {
      notified = raw_tick_event ∷ q.notified;
      echoed = if q.forward_echo_enabled then q.echoed + 1 else q.echoed;
    }

unfoldable pub within_timeout : Option ℕ → ℕ → Bool
within_timeout none now = false
within_timeout (some last) now = ltb (now - last) midi_clock_timeout_us

unfoldable pub is_active : ℕ → MidiClockProcessor → Bool
unfolding within_timeout
is_active now p = within_timeout p.last_raw_tick_time now
