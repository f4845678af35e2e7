-- ===== src/Sequencer/Controller/Silence/Asked.antt =====
-- What the front panel and the storage ask of drum/sequencer_controller.cpp plays no note.
use drum_firmware.Sequencer.Retrigger.{RetriggerMode}
use drum_firmware.Sequencer.Controller.{
  disable_random, deactivate_play_on_every_step, TrackState, SequencerController, PatternStep,
  num_tracks,
}
use drum_firmware.Sequencer.Controller.Panel.{
  mark_state_dirty_public, mark_step_due, stop_random_step_highlighting, regenerate_random_offsets,
  disable_random_probability_mode, set_swing_target, set_swing_enabled,
  start_random_step_highlighting, load_state_from_flash, clear_velocity_hit,
  activate_play_on_every_step, set_random,
}
use drum_firmware.Sequencer.Controller.Update.{enable_random_offset_mode, activate_repeat}
use drum_firmware.Sequencer.Controller.Pattern.{
  is_valid, apply_persistent_state, SequencerPersistentState, apply_state,
}
use drum_firmware.Sequencer.Controller.Silence.Operations.{set_track-Same, Same, Same-refl}
use drum_firmware.Base.{◌≡◌, none, some, refl, if_cases, Bool, Option, ℕ, not, ltb}

-- These operations, with what `rand` gives in them, and an edit of the pattern that `get_sequencer`
-- gives access to.
pub data Asked (c : SequencerController) : SequencerController → Type 0 where
  every_step :
      (track : ℕ) (mode : RetriggerMode) → Asked c (activate_play_on_every_step track mode c)
  no_every_step : (track : ℕ) → Asked c (deactivate_play_on_every_step track c)
  swing : (enabled : Bool) → Asked c (set_swing_enabled enabled c)
  swing_target : (delay_odd : Bool) → Asked c (set_swing_target delay_odd c)
  hit_cleared : (track : ℕ) → Asked c (clear_velocity_hit track c)
  offsets : (rand : ℕ → ℕ → ℕ) → Asked c (enable_random_offset_mode rand c)
  no_offsets : Asked c (disable_random c)
  no_flips : Asked c (disable_random_probability_mode c)
  new_offsets : (rand : ℕ → ℕ → ℕ) → Asked c (regenerate_random_offsets rand c)
  intensity :
      (is_low is_high : Bool) (rand : ℕ → ℕ → ℕ) → Asked c (set_random is_low is_high rand c)
  highlighted : Asked c (start_random_step_highlighting c)
  not_highlighted : Asked c (stop_random_step_highlighting c)
  repeated : (length : ℕ) → Asked c (activate_repeat length c)
  due : Asked c (mark_step_due c)
  dirty : Asked c (mark_state_dirty_public c)
  applied : (p : SequencerPersistentState) → Asked c (apply_state p c).1
  loaded : (p : Option SequencerPersistentState) → Asked c (load_state_from_flash p c).1
  edited : (pattern : ℕ → ℕ → PatternStep) → Asked c (record c { main_sequencer = pattern })

clear_velocity_hit-Same :
    (track : ℕ) (c : SequencerController) → Same c (clear_velocity_hit track c)
unfolding clear_velocity_hit
clear_velocity_hit-Same track c =
    if_cases {A = SequencerController} (Same c) (ltb track num_tracks)
      (λ e. set_track-Same track _ c refl) (λ e. Same-refl c)

highlighting-Same : (c : SequencerController) → Same c (start_random_step_highlighting c)
unfolding start_random_step_highlighting
highlighting-Same c =
    if_cases {A = SequencerController} (Same c) c.running (λ e. Same-refl c)
      (λ e. record { events = refl; notes = λ t. refl })

activate_repeat-Same : (length : ℕ) (c : SequencerController) → Same c (activate_repeat length c)
unfolding activate_repeat
activate_repeat-Same length c =
    if_cases {A = SequencerController} (Same c) c.running
      (λ e. record { events = refl; notes = λ t. refl }) (λ e. Same-refl c)

apply_persistent_state-Same :
    (p : SequencerPersistentState) (c : SequencerController) → Same c (apply_persistent_state p c)
unfolding apply_persistent_state
apply_persistent_state-Same p c = record {
  events = refl;
  notes = λ t.
      if_cases {A = TrackState}
        (λ (s : TrackState). s.last_played_note ≡ (c.track_states t).last_played_note)
        (ltb t num_tracks) (λ e. refl) (λ e. refl);
}

apply_state-Same :
    (p : SequencerPersistentState) (c : SequencerController) → Same c (apply_state p c).1
unfolding apply_state
apply_state-Same p c =
    let s = apply_persistent_state-Same p c in
    if_cases {A = Bool × SequencerController} (λ (r : Bool × SequencerController). Same c r.1)
      (not (is_valid p)) (λ e. Same-refl c) (λ e. record { events = s.events; notes = s.notes })

load_state_from_flash-Same :
    (p : Option SequencerPersistentState) (c : SequencerController)
    → Same c (load_state_from_flash p c).1
unfolding load_state_from_flash
load_state_from_flash-Same none c = Same-refl c
load_state_from_flash-Same (some p) c = apply_persistent_state-Same p c

pub Asked-Same : {c d : SequencerController} → Asked c d → Same c d
unfolding activate_play_on_every_step deactivate_play_on_every_step set_swing_enabled
    set_swing_target enable_random_offset_mode disable_random disable_random_probability_mode
    regenerate_random_offsets set_random stop_random_step_highlighting mark_step_due
    mark_state_dirty_public
Asked-Same {c} (hit_cleared track) = clear_velocity_hit-Same track c
Asked-Same {c} highlighted = highlighting-Same c
Asked-Same {c} (repeated length) = activate_repeat-Same length c
Asked-Same {c} (applied p) = apply_state-Same p c
Asked-Same {c} (loaded p) = load_state_from_flash-Same p c
Asked-Same (every_step track mode) = record { events = refl; notes = λ t. refl }
Asked-Same (no_every_step track) = record { events = refl; notes = λ t. refl }
Asked-Same (swing enabled) = record { events = refl; notes = λ t. refl }
Asked-Same (swing_target delay_odd) = record { events = refl; notes = λ t. refl }
Asked-Same (offsets rand) = record { events = refl; notes = λ t. refl }
Asked-Same no_offsets = record { events = refl; notes = λ t. refl }
Asked-Same no_flips = record { events = refl; notes = λ t. refl }
Asked-Same (new_offsets rand) = record { events = refl; notes = λ t. refl }
Asked-Same (intensity is_low is_high rand) = record { events = refl; notes = λ t. refl }
Asked-Same not_highlighted = record { events = refl; notes = λ t. refl }
Asked-Same due = record { events = refl; notes = λ t. refl }
Asked-Same dirty = record { events = refl; notes = λ t. refl }
Asked-Same (edited pattern) = record { events = refl; notes = λ t. refl }
