-- ===== src/Clock/Midi/Pauses.antt =====
-- The resync events of the MIDI clock mark the pauses of the ticks.
use drum_firmware.Base.{ℕ}
use drum_firmware.Speed.{
  ClockEvent, ClockEvent, ClockEvent, ClockEvent, ClockEvent, ClockEvent, ClockEvent, ClockEvent,
  ClockEvent, ClockEvent, ClockEvent, ClockEvent, ClockEvent, ClockEvent, ClockEvent, ClockEvent,
  ClockEvent, ClockEvent, ClockEvent, ClockEvent, ClockEvent, ClockEvent, ClockEvent, ClockEvent,
  ClockEvent, ClockEvent, ClockEvent, ClockEvent, ClockEvent, ClockEvent,
}
use drum_firmware.Base.{[], ◌+◌, ltb, ◌<◌, if◌then◌else◌, ◌≤◌, ◌∷◌, ℕ, List}
use drum_firmware.Clock.Midi.{
  midi_clock_timeout_us, MidiClockProcessor, on_midi_clock_tick_received,
}

-- The ticks at the times of the list.
unfoldable pub run : List ℕ → MidiClockProcessor → MidiClockProcessor
run [] p = p
run (now ∷ nows) p = run nows (on_midi_clock_tick_received now p)

unfoldable pub resyncs : List ClockEvent → ℕ
resyncs [] = 0
resyncs (e ∷ es) = (if e.is_resync then 1 else 0) + resyncs es

-- How many of the times come more than the timeout after the one before.
unfoldable pub pauses : ℕ → List ℕ → ℕ
pauses last [] = 0
pauses last (now ∷ nows) =
    (if ltb (last + midi_clock_timeout_us) now then 1 else 0) + pauses now nows

-- Times that do not go back, less than 2 ^ 32 microseconds apart.
unfoldable pub Timed : ℕ → List ℕ → Type 0
Timed last [] = Unit
Timed last (now ∷ nows) = (last ≤ now) × (now < last + 4294967296) × Timed now nows
