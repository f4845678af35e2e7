-- ===== src/Sequencer/Controller.antt =====
-- drum/sequencer_controller.cpp: the state of `SequencerController`, its transport, what it does on a
-- tempo event, and the notes of its tracks. A per-track or per-step array is a function of the index.
-- The note events for the observers are kept newest first, and so are the calls of the tempo source.
use drum_firmware.Sequencer.Retrigger.{SequencerEffectRetrigger, off, set_mode}
use drum_firmware.Sequencer.Repeat.{deactivate, SequencerEffectRepeat, calculate_step_index}
use drum_firmware.Sequencer.Random.{
  SequencerEffectRandom, reset_to_inactive, inactive, request_state,
}
use drum_firmware.Base.{
  List, ◌==◌, true, not, ltb, ◌∷◌, some, none, if◌then◌else◌, false, Option, Bool, ℕ,
}
use drum_firmware.Sequencer.Swing.{straight_offbeat, SequencerEffectSwing, StepTiming}
pub mod Window
pub mod Update
pub mod Panel
pub mod Silence
pub mod Pattern

pub record PatternStep : Type 0 where
  pub note : Option ℕ
  pub velocity : Option ℕ
  pub enabled : Bool

pub record TrackState : Type 0 where
  pub active_note : ℕ
  pub has_velocity_hit : Bool
  pub last_played_note : Option ℕ
  pub just_played_step : Option ℕ

pub record NoteEvent : Type 0 where
  pub track_index : ℕ
  pub note : ℕ
  pub velocity : ℕ

pub record TempoEvent : Type 0 where
  pub phase_12 : ℕ
  pub is_resync : Bool

-- The calls of the tempo source.
pub data TempoCall : Type 0 where
  add_observer remove_observer set_playing set_stopped : TempoCall
  trigger_manual_sync : ℕ → TempoCall

pub record SequencerController : Type 0 where
  pub main_sequencer : ℕ → ℕ → PatternStep
  pub scheduled_step_counter : ℕ
  pub track_states : ℕ → TrackState
  pub trace_velocities : ℕ → ℕ → ℕ
  pub pending_trace_fade_ticks : ℕ
  pub running : Bool
  pub step_is_due : Bool
  pub last_phase_12 : ℕ
  pub repeat_effect : SequencerEffectRepeat
  pub retrigger_effect : SequencerEffectRetrigger
  pub swing_effect : SequencerEffectSwing
  pub random_effect : SequencerEffectRandom
  pub random_intends_flip : Bool
  pub swing_enabled_update_pending : Bool
  pub pending_swing_enabled : Bool
  pub swing_target_update_pending : Bool
  pub pending_swing_target_delays_odd : Bool
  pub is_dirty : Bool
  pub notified : List NoteEvent
  pub tempo_calls : List TempoCall

abbrev pub num_tracks : ℕ
num_tracks = 4

abbrev pub num_steps : ℕ
num_steps = 8

unfoldable pub set_track : ℕ → TrackState → SequencerController → SequencerController
set_track track s c = record c { track_states = λ t. if t == track then s else c.track_states t }

abbrev pub notify : ℕ → ℕ → ℕ → SequencerController → SequencerController
notify track note velocity c = record c {
  notified = record { track_index = track; note = note; velocity = velocity } ∷ c.notified;
}

-- `for (size_t track_idx = 0; track_idx < NumTracks; ++track_idx)`
abbrev pub each_track :
    (ℕ → SequencerController → SequencerController) → SequencerController → SequencerController
each_track f c = f 3 (f 2 (f 1 (f 0 c)))

unfoldable pub calculate_base_step_index : SequencerController → ℕ
calculate_base_step_index c =
    calculate_step_index c.scheduled_step_counter num_steps c.repeat_effect

-- A note off for the note that plays on the track.
unfoldable pub note_off : ℕ → Option ℕ → SequencerController → SequencerController
note_off track none c = c
note_off track (some note) c = notify track note 0 c

unfoldable pub forget_note : ℕ → SequencerController → SequencerController
unfolding set_track
forget_note track c = set_track track (record (c.track_states track) { last_played_note = none }) c

unfoldable pub silence_track : ℕ → SequencerController → SequencerController
unfolding note_off forget_note
silence_track track c = forget_note track (note_off track (c.track_states track).last_played_note c)

unfoldable pub clear_traces : SequencerController → SequencerController
clear_traces c = record c { trace_velocities = λ t s. 0 }

unfoldable pub deactivate_play_on_every_step : ℕ → SequencerController → SequencerController
deactivate_play_on_every_step track c = record c {
  retrigger_effect = set_mode track off c.retrigger_effect;
}

unfoldable pub disable_random : SequencerController → SequencerController
disable_random c = record c {
  random_effect = request_state inactive c.repeat_effect.active c.random_effect;
  random_intends_flip = false;
}

unfoldable pub show_cursor : Option ℕ → SequencerController → SequencerController
show_cursor s c = record c {
  track_states = λ t. record (c.track_states t) { just_played_step = s };
}

unfoldable pub reset : SequencerController → SequencerController
unfolding silence_track clear_traces deactivate_play_on_every_step disable_random show_cursor
    calculate_base_step_index
reset c =
    let silent = record (each_track silence_track c) {
      scheduled_step_counter = 0;
      last_phase_12 = 0;
    } in
    let shown = show_cursor (some (calculate_base_step_index silent)) silent in
    let steady = record shown { repeat_effect = deactivate shown.repeat_effect } in
    each_track deactivate_play_on_every_step (clear_traces (disable_random (disable_random steady)))

-- The anchor phase and the primed phase.
unfoldable pub align_to_last_anchor : ℕ → ℕ × ℕ
align_to_last_anchor phase = if ltb phase straight_offbeat then (0, 11) else (6, 5)

unfoldable pub start : SequencerController → SequencerController
unfolding show_cursor align_to_last_anchor
start c =
    let shown = show_cursor none c in
    let aligned = align_to_last_anchor c.last_phase_12 in
    if c.running then c else record shown {
      running = true;
      last_phase_12 = aligned.1;
      tempo_calls = trigger_manual_sync aligned.0 ∷ set_playing ∷ add_observer ∷ c.tempo_calls;
    }

-- The notes are turned off, but stay recorded as the last ones played.
unfoldable pub stop_note : ℕ → SequencerController → SequencerController
unfolding note_off
stop_note track c = note_off track (c.track_states track).last_played_note c

unfoldable pub stop : SequencerController → SequencerController
unfolding stop_note deactivate_play_on_every_step clear_traces
stop c =
    let stopped = record c {
      running = false;
      tempo_calls = remove_observer ∷ set_stopped ∷ c.tempo_calls;
    } in
    let quiet = each_track deactivate_play_on_every_step (each_track stop_note stopped) in
    if not c.running
    then c
    else clear_traces (record quiet {
      random_effect = reset_to_inactive quiet.random_effect;
      random_intends_flip = false;
    })

unfoldable pub toggle : SequencerController → SequencerController
unfolding start stop
toggle c = if c.running then stop c else start c

-- `notification(SysExTransferStateChangeEvent)`
unfoldable pub transfer_changed : Bool → SequencerController → SequencerController
unfolding stop
transfer_changed is_active c = if is_active then stop c else c

-- A note off for another note that plays on the track.
unfoldable pub other_off : ℕ → ℕ → Option ℕ → SequencerController → SequencerController
other_off track note none c = c
other_off track note (some n) c = if n == note then c else notify track n 0 c

unfoldable pub trigger_note_on : ℕ → ℕ → ℕ → SequencerController → SequencerController
unfolding other_off set_track
trigger_note_on track note velocity c =
    set_track track (record (c.track_states track) { last_played_note = some note })
      (notify track note velocity (other_off track note (c.track_states track).last_played_note c))

unfoldable pub plays : Option ℕ → ℕ → Bool
plays none note = false
plays (some n) note = n == note

unfoldable pub trigger_note_off : ℕ → ℕ → SequencerController → SequencerController
unfolding plays forget_note
trigger_note_off track note c =
    if plays (c.track_states track).last_played_note note
    then forget_note track (notify track note 0 c)
    else c

unfoldable pub set_active_note_for_track : ℕ → ℕ → SequencerController → SequencerController
unfolding set_track
set_active_note_for_track track note c =
    if ltb track num_tracks
    then record (set_track track (record (c.track_states track) { active_note = note }) c) {
      is_dirty = true;
    }
    else c
