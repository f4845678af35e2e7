-- ===== src/Sequencer/Controller/Panel.antt =====
-- drum/sequencer_controller.cpp: what the front panel asks for, the initial state, and the state that is
-- loaded at start-up. The calls of the constructor that set up members are one record.
use drum_firmware.Sequencer.Random.{
  set_random_intensity, get_highlighted_step_for_track, create, trigger_step_highlighting,
  stop_step_highlighting, start_step_highlighting, regenerate_offsets,
}
use drum_firmware.Base.{
  [], ◌&&◌, ◌*◌, true, none, ltb, false, ◌+◌, some, if◌then◌else◌, Option, Bool, ℕ,
}
use drum_firmware.Sequencer.Retrigger.{RetriggerMode}
use drum_firmware.Sequencer.Controller.{
  inactive, request_state, each_track, off, num_tracks, num_steps, notify, set_mode,
  SequencerController, set_track,
}
use drum_firmware.Sequencer.Controller.Update.{default_step_velocity}
use drum_firmware.Sequencer.Controller.Pattern.{SequencerPersistentState, apply_persistent_state}

-- `config::track_ranges[t].low_note`
unfoldable pub low_note : ℕ → ℕ
low_note t = 30 + 8 * t

-- `SequencerController`, with `initialize_active_notes`, `initialize_all_sequencers` and
-- `initialize_timing_and_random`.
unfoldable pub initial_controller : SequencerController
unfolding low_note
initial_controller = record {
  main_sequencer = λ t s. record {
    note = some (low_note t);
    velocity = some default_step_velocity;
    enabled = false;
  };
  scheduled_step_counter = 0;
  track_states = λ t. record {
    active_note = low_note t;
    has_velocity_hit = false;
    last_played_note = none;
    just_played_step = none;
  };
  trace_velocities = λ t s. 0;
  pending_trace_fade_ticks = 0;
  running = false;
  step_is_due = false;
  last_phase_12 = 0;
  repeat_effect = record {
    active = false;
    length = 0;
    activation_step_index = 0;
    activation_step_counter = 0;
  };
  retrigger_effect = record { mode_per_track = λ t. off; due_mask = 0 };
  swing_effect = record { swing_enabled = false; swing_delays_odd_steps = true };
  random_effect = create;
  random_intends_flip = false;
  swing_enabled_update_pending = false;
  pending_swing_enabled = false;
  swing_target_update_pending = false;
  pending_swing_target_delays_odd = false;
  is_dirty = false;
  notified = [];
  tempo_calls = [];
}

-- The swing changes at the next downbeat.
unfoldable pub set_swing_enabled : Bool → SequencerController → SequencerController
set_swing_enabled enabled c = record c {
  pending_swing_enabled = enabled;
  swing_enabled_update_pending = true;
}

unfoldable pub set_swing_target : Bool → SequencerController → SequencerController
set_swing_target delay_odd c = record c {
  pending_swing_target_delays_odd = delay_odd;
  swing_target_update_pending = true;
}

unfoldable pub activate_play_on_every_step :
    ℕ → RetriggerMode → SequencerController → SequencerController
activate_play_on_every_step track mode c = record c {
  retrigger_effect = set_mode track mode c.retrigger_effect;
}

unfoldable pub clear_velocity_hit : ℕ → SequencerController → SequencerController
unfolding set_track
clear_velocity_hit track c =
    if ltb track num_tracks
    then set_track track (record (c.track_states track) { has_velocity_hit = false }) c
    else c

unfoldable pub has_recent_velocity_hit : ℕ → SequencerController → Bool
has_recent_velocity_hit track c = ltb track num_tracks && (c.track_states track).has_velocity_hit

unfoldable pub regenerate_random_offsets : (ℕ → ℕ → ℕ) → SequencerController → SequencerController
regenerate_random_offsets rand c = record c {
  random_effect = regenerate_offsets rand num_steps num_tracks c.random_effect;
}

-- The two comparisons of the value with 0.2, below it and not below it, are both false for a NaN.
unfoldable pub set_random : Bool → Bool → (ℕ → ℕ → ℕ) → SequencerController → SequencerController
set_random is_low is_high rand c =
    let r = set_random_intensity is_low c.random_effect in
    record c {
      random_effect = if is_high then regenerate_offsets rand num_steps num_tracks r else r;
    }

unfoldable pub disable_random_probability_mode : SequencerController → SequencerController
disable_random_probability_mode c = record c {
  random_effect = request_state inactive c.repeat_effect.active c.random_effect;
  random_intends_flip = false;
}

unfoldable pub mark_step_due : SequencerController → SequencerController
mark_step_due c = record c { step_is_due = true }

unfoldable pub mark_state_dirty_public : SequencerController → SequencerController
mark_state_dirty_public c = record c { is_dirty = true }

unfoldable pub start_random_step_highlighting : SequencerController → SequencerController
start_random_step_highlighting c =
    if c.running then c else record c { random_effect = start_step_highlighting c.random_effect }

unfoldable pub stop_random_step_highlighting : SequencerController → SequencerController
stop_random_step_highlighting c = record c {
  random_effect = stop_step_highlighting c.random_effect;
}

-- The note of a step that is enabled and has a note and a velocity.
unfoldable pub preview_note :
    ℕ → Bool → Option ℕ → Option ℕ → SequencerController → SequencerController
preview_note track enabled none velocity c = c
preview_note track enabled (some note) none c = c
preview_note track enabled (some note) (some velocity) c =
    if enabled then notify track note velocity c else c

unfoldable pub preview_step : Option ℕ → ℕ → SequencerController → SequencerController
unfolding preview_note
preview_step none track c = c
preview_step (some s) track c =
    let p = c.main_sequencer track s in preview_note track p.enabled p.note p.velocity c

-- The steps are drawn by `rand`, one for each track, and played.
unfoldable pub trigger_random_steps_when_stopped :
    (ℕ → ℕ) → SequencerController → SequencerController
unfolding preview_step
trigger_random_steps_when_stopped rand c =
    let shown = record c {
      random_effect =
          start_step_highlighting
            (trigger_step_highlighting rand num_steps num_tracks c.random_effect);
    } in
    if c.running
    then c
    else each_track
        (λ track d. preview_step (get_highlighted_step_for_track track d.random_effect) track d)
        shown

-- `load_state_from_flash`, with the state that the storage gives, if it has a valid one.
unfoldable pub load_state_from_flash :
    Option SequencerPersistentState → SequencerController → Bool × SequencerController
unfolding apply_persistent_state
load_state_from_flash none c = (false, c)
load_state_from_flash (some p) c = (true, apply_persistent_state p c)
