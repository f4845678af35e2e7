-- ===== src/Tempo/Tests.antt =====
-- Runs of the clock router and the tempo handler.
use drum_firmware.Tempo.Sources.{running≢waiting}
use drum_firmware.Base.{ltb, [], ◌*◌, none, ◌+◌, some, refl, ◌≡◌, ◌/◌, false, ◌==◌, true, arith, ℕ}
use drum_firmware.Speed.{normal_speed, midi, internal}
use drum_firmware.Tempo.{
  running, Timing, KnobOps, set_clock_source, update_auto_source_switching, same_source,
}
use drum_firmware.Tempo.Exclusive.{IsValid}
use drum_firmware.Tempo.Reached
use drum_firmware.Tempo.Auto.{auto_source, wanted_source}
use drum_firmware.Tempo.Reached.{one_source_counts}

abbrev knob_ops : KnobOps ℕ
knob_ops = record {
  bpm_ops = record {
    not_positive = λ b. b == 0;
    same = λ a b. a == b;
    tick_interval = λ b. 2500000 / b;
  };
  bpm = λ k. 60 + k * 3;
  is_low = λ k. ltb k 10;
  is_high = λ k. ltb 90 k;
}

-- The internal clock runs and is the source.
abbrev internal_timing : Timing ℕ
internal_timing = record {
  current_source = internal;
  auto_switching_enabled = true;
  awaiting_first_tick = false;
  observes = λ s. same_source s internal;
  internal_clock = record {
    current_bpm = 120;
    tick_interval_us = 20833;
    is_running = true;
    next_tick_time = some 20833;
  };
  midi_clock = record {
    last_raw_tick_time = none;
    forward_echo_enabled = false;
    notified = [];
    echoed = 0;
  };
  sync_resyncs = 0;
  adapter = record {
    modifier = normal_speed;
    tick_counter = 0;
    current_source = internal;
    pending_modifier = none;
    notified = [];
  };
  handler = record {
    current_speed_modifier = normal_speed;
    phase_12 = 0;
    tick_count = 0;
    sync_state = running;
    notified = [];
  };
  last_tempo_knob_value = 20;
}

internal_timing-IsValid : IsValid internal_timing
unfolding same_source
internal_timing-IsValid = record {
  attached = record { current = refl; one = λ s. refl; internal_only = λ r. refl; echo = refl };
  counting = record { phase = omega arith; waits = λ w. absurd (running≢waiting w) };
}

one_source_counts_example : IsValid (set_clock_source knob_ops 1000 midi internal_timing)
one_source_counts_example =
    one_source_counts
      (Reached.stepped (Reached.initial internal_timing-IsValid) (Reached.chosen 1000 midi))

auto_source_example :
    (update_auto_source_switching knob_ops 1000 true internal_timing).current_source
    ≡ wanted_source 1000 true internal_timing
auto_source_example = auto_source knob_ops 1000 true internal_timing internal_timing-IsValid refl
