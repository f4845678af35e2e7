-- ===== src/Sequencer/Tests.antt =====
-- Runs of the sequencer.
use drum_firmware.Sequencer.Random.Flips.{Reach-FlipsAreOwn, FlipsAreOwn}
use drum_firmware.Base.{
  [], ◌%◌, ◌||◌, ◌==◌, ◌+◌, refl, none, arith, ◌≡◌, u32, true, some, if◌then◌else◌, false,
}
use drum_firmware.Sequencer.Swing.{SequencerEffectSwing, classify_hit_phase}
use drum_firmware.Sequencer.Swing.Zones.{zone, classify_hit_phase_zones}
use drum_firmware.Sequencer.Repeat.{SequencerEffectRepeat, calculate_step_index, activate}
use drum_firmware.Sequencer.Repeat.Loop.{repeat_loops}
use drum_firmware.Sequencer.Retrigger.{off}
use drum_firmware.Sequencer.Random.{
  step_preview, set_random_intensity, offset_with_flip, create, request_state,
}
use drum_firmware.Sequencer.Random.States.{IsValid, modes_match_state}
use drum_firmware.Sequencer.Random.States
use drum_firmware.Sequencer.Controller.{
  SequencerController, stop, start, trigger_note_on, set_track, other_off, show_cursor,
}
use drum_firmware.Sequencer.Controller.Window.{look_behind, is_substep_due}
use drum_firmware.Sequencer.Controller.Window.Cycle.{
  has_passed, grid_passed, next_timing, look_behind_steps, look_behind_substeps,
}
use drum_firmware.Sequencer.Controller.Silence.{is_on}
use drum_firmware.Sequencer.Controller.Silence.Reached
use drum_firmware.Sequencer.Controller.Silence.Stopped.{stop_silences}
use drum_firmware.Sequencer.Controller.Pattern.{
  SequencerPersistentState, decode_sequencer_state, encode_sequencer_state,
}
use drum_firmware.Sequencer.Controller.Pattern.RoundTrip.{Same, decode-encode}

abbrev swung : SequencerEffectSwing
swung = record { swing_enabled = true; swing_delays_odd_steps = true }

classify_hit_phase_zones_example : classify_hit_phase 7 swung ≡ zone 7 swung
classify_hit_phase_zones_example = classify_hit_phase_zones 7 swung (omega arith)

abbrev no_repeat : SequencerEffectRepeat
no_repeat = record {
  active = false;
  length = 0;
  activation_step_index = 0;
  activation_step_counter = 0;
}

repeat_loops_example :
    calculate_step_index (u32 (4294967294 + 5)) 8 (activate 3 4294967294 8 no_repeat)
    ≡ (4294967294 + 5 % 3) % 8
repeat_loops_example =
    repeat_loops 3 4294967294 8 5 no_repeat refl (omega arith) (omega arith) (omega arith)
      (omega arith)

modes_match_state_example : IsValid (request_state offset_with_flip true create)
modes_match_state_example =
    modes_match_state (States.stepped States.created (States.requested offset_with_flip true))

Reach-FlipsAreOwn_example :
    FlipsAreOwn (set_random_intensity false (request_state step_preview false create))
Reach-FlipsAreOwn_example = Reach-FlipsAreOwn (
    States.stepped (States.stepped States.created (States.requested step_preview false))
      (States.intensified refl false))

-- A controller at the last phase of a cycle, with a step on every track.
abbrev fresh : SequencerController
fresh = record {
  main_sequencer = λ t s. record { note = some 40; velocity = some 100; enabled = true };
  scheduled_step_counter = 0;
  track_states = λ t. record {
    active_note = 40;
    has_velocity_hit = false;
    last_played_note = none;
    just_played_step = none;
  };
  trace_velocities = λ t s. 0;
  pending_trace_fade_ticks = 0;
  running = false;
  step_is_due = false;
  last_phase_12 = 11;
  repeat_effect = no_repeat;
  retrigger_effect = record { mode_per_track = λ t. off; due_mask = 0 };
  swing_effect = swung;
  random_effect = create;
  random_intends_flip = false;
  swing_enabled_update_pending = false;
  pending_swing_enabled = false;
  swing_target_update_pending = false;
  pending_swing_target_delays_odd = false;
  is_dirty = false;
  notified = [];
  tempo_calls = [];
}

look_behind_steps_example :
    (look_behind 1 fresh).step_is_due
    ≡ (has_passed (next_timing fresh).expected_phase 11 1 || false)
look_behind_steps_example = look_behind_steps 1 fresh (omega arith) (omega arith)

look_behind_substeps_example :
    is_substep_due (next_timing fresh).substep_mask 11 4
    ≡ grid_passed true (next_timing fresh).expected_phase 11 4
look_behind_substeps_example = look_behind_substeps 4 fresh (omega arith) (omega arith)

is_running : (trigger_note_on 1 40 100 (start fresh)).running ≡ true
unfolding trigger_note_on set_track other_off start show_cursor
is_running = refl

stop_silences_example : is_on 1 40 (stop (trigger_note_on 1 40 100 (start fresh))).notified ≡ false
stop_silences_example =
    stop_silences 1 40
      (Reached.stepped (Reached.stepped (Reached.initial refl) Reached.started)
        (Reached.pad_on 1 40 100))
      is_running (omega arith)

abbrev pattern_of_100 : SequencerPersistentState
pattern_of_100 = record {
  magic = 1397047619;
  version = 2;
  velocities = λ t s. if t == s then 100 else 0;
  active_notes = λ t. 60;
}

decode-encode_example :
    (q : SequencerPersistentState) × ((decode_sequencer_state
          (encode_sequencer_state 40 pattern_of_100)
        ≡ some q)
      × Same pattern_of_100 q)
decode-encode_example =
    decode-encode 40 pattern_of_100 (omega arith)
      (record { velocities = λ t s a b. ground arith; active_notes = λ t a. omega arith })
