-- ===== src/Sequencer/Controller/Update.antt =====
-- drum/sequencer_controller.cpp: `update` after its periodic save and what it is made of, and the
-- operations of the effects. What `rand` gives in an update is a function of the track, one for the
-- offset and one for the flip of its step.
use drum_firmware.Sequencer.Repeat.{get_length, set_length, activate}
use drum_firmware.Sequencer.Retrigger.{substeps, off, step, get_mode, take_due_mask, RetriggerMode}
use drum_firmware.Sequencer.Random.{
  offset_active, offset_with_flip, advance_offset_indices, regenerate_offsets,
  calculate_randomized_step,
}
use drum_firmware.Base.{
  ◌^◌, ◌-◌, false, ◌==◌, ◌/◌, ◌*◌, ◌&&◌, true, some, not, none, ltb, ◌+◌, ◌%◌, u32, if◌then◌else◌,
  Option, Bool, ℕ,
}
use drum_firmware.Sequencer.Swing.{late, middle, classify_hit_phase, early, HitZone}
use drum_firmware.Sequencer.Controller.{
  notify, calculate_base_step_index, set_track, num_tracks, num_steps, each_track, trigger_note_on,
  silence_track, show_cursor, request_state, deactivate, SequencerController,
}

abbrev pub default_step_velocity : ℕ
default_step_velocity = 100

abbrev pub retrigger_velocity : ℕ
retrigger_velocity = 100

abbrev pub trace_initial_velocity : ℕ
trace_initial_velocity = 96

abbrev pub trace_decrement_per_tick : ℕ
trace_decrement_per_tick = 2

-- `value_or`
unfoldable pub value_or : Option ℕ → ℕ → ℕ
value_or none d = d
value_or (some n) d = n

unfoldable pub fade_traces : ℕ → SequencerController → SequencerController
fade_traces elapsed_ticks c =
    let decrement = u32 (trace_decrement_per_tick * elapsed_ticks) in
    record c {
      trace_velocities = λ t s.
          let velocity = c.trace_velocities t s in
          if ltb decrement velocity then velocity - decrement else 0;
    }

-- The ticks that have elapsed since the last time.
unfoldable pub drain_fade : SequencerController → SequencerController
unfolding fade_traces
drain_fade c =
    let d = record c { pending_trace_fade_ticks = 0 } in
    if ltb 0 c.pending_trace_fade_ticks then fade_traces c.pending_trace_fade_ticks d else d

unfoldable pub get_current_step : SequencerController → ℕ
get_current_step c = c.scheduled_step_counter % num_steps

unfoldable pub set_trace : ℕ → ℕ → SequencerController → SequencerController
set_trace track step_idx c = record c {
  trace_velocities =
      λ t s. if t == track && s == step_idx then trace_initial_velocity else c.trace_velocities t s;
}

unfoldable pub trace_hit : HitZone → ℕ → ℕ → SequencerController → SequencerController
unfolding set_trace
trace_hit early track trace_step c = set_trace track trace_step c
trace_hit middle track trace_step c = c
trace_hit late track trace_step c = set_trace track ((trace_step + 1) % num_steps) c

unfoldable pub record_pad_hit_trace : ℕ → SequencerController → SequencerController
unfolding drain_fade trace_hit value_or get_current_step
record_pad_hit_trace track c =
    let d = drain_fade c in
    if c.running && ltb track num_tracks
    then trace_hit (classify_hit_phase d.last_phase_12 d.swing_effect) track
        (value_or (d.track_states track).just_played_step (get_current_step d)) d
    else c

unfoldable pub record_velocity_hit : ℕ → SequencerController → SequencerController
unfolding record_pad_hit_trace
record_velocity_hit track c =
    if ltb track num_tracks
    then record_pad_hit_trace track
        (set_track track (record (c.track_states track) { has_velocity_hit = true }) c)
    else c

-- The note on of a step that is enabled and has a velocity.
unfoldable pub play_step : ℕ → Bool → Option ℕ → ℕ → SequencerController → SequencerController
play_step track enabled none velocity c = c
play_step track enabled (some note) velocity c =
    if enabled && ltb 0 velocity
    then set_track track (record (c.track_states track) { last_played_note = some note })
        (notify track note velocity c)
    else c

unfoldable pub process_track_step : ℕ → ℕ → ℕ → SequencerController → SequencerController
unfolding play_step value_or
process_track_step value track step_index_to_play c =
    let quiet = silence_track track c in
    let s = quiet.main_sequencer track (step_index_to_play % num_steps) in
    let flipped = quiet.random_effect.random_probability_active && value % 2 == 1 in
    let enabled = if flipped then not s.enabled else s.enabled in
    let velocity = value_or s.velocity 0 in
    let effective =
      if flipped && enabled && velocity == 0 then default_step_velocity else velocity in
    play_step track enabled s.note effective quiet

unfoldable pub retrigger_note : ℕ → SequencerController → SequencerController
retrigger_note track c =
    record_pad_hit_trace track
      (trigger_note_on track (c.track_states track).active_note retrigger_velocity c)

unfoldable pub is_step_mode : RetriggerMode → Bool
is_step_mode step = true
is_step_mode off = false
is_step_mode substeps = false

-- The step of one track, with the values of `rand` for its offset and for its flip.
unfoldable pub update_track : (ℕ → ℕ) → (ℕ → ℕ) → ℕ → ℕ → SequencerController → SequencerController
unfolding process_track_step retrigger_note is_step_mode
update_track offsets flips base track c =
    let effective_step =
      calculate_randomized_step (offsets track) base track num_steps c.repeat_effect.active
        c.random_effect in
    let shown =
      set_track track (record (c.track_states track) { just_played_step = some effective_step })
        c in
    let played = process_track_step (flips track) track effective_step shown in
    if is_step_mode (get_mode track played.retrigger_effect)
    then retrigger_note track played
    else played

unfoldable pub advance_offsets : SequencerController → SequencerController
advance_offsets c =
    if c.repeat_effect.active
    then record c {
      random_effect =
          advance_offset_indices num_tracks (get_length c.repeat_effect) c.random_effect;
    }
    else c

unfoldable pub play_due_step : (ℕ → ℕ) → (ℕ → ℕ) → SequencerController → SequencerController
unfolding update_track advance_offsets
play_due_step offsets flips c =
    let taken = show_cursor none (record c { step_is_due = false }) in
    let played =
      advance_offsets
        (each_track (update_track offsets flips (calculate_base_step_index c)) taken) in
    record played { scheduled_step_counter = u32 (played.scheduled_step_counter + 1) }

unfoldable pub retrigger_due : ℕ → ℕ → SequencerController → SequencerController
unfolding retrigger_note
retrigger_due mask track c = if mask / 2 ^ track % 2 == 1 then retrigger_note track c else c

-- The part after the periodic save.
unfoldable pub update : (ℕ → ℕ) → (ℕ → ℕ) → SequencerController → SequencerController
unfolding retrigger_due drain_fade play_due_step
update offsets flips c =
    let mask = take_due_mask c.retrigger_effect in
    let retriggered =
      drain_fade (each_track (retrigger_due mask.0) (record c { retrigger_effect = mask.1 })) in
    if retriggered.step_is_due then play_due_step offsets flips retriggered else retriggered

unfoldable pub activate_repeat : ℕ → SequencerController → SequencerController
activate_repeat length c =
    if c.running
    then record c {
      repeat_effect = activate length c.scheduled_step_counter num_steps c.repeat_effect;
    }
    else c

-- What `REPEAT` allows of the random effect's state.
unfoldable pub reassert_random : SequencerController → SequencerController
reassert_random c = record c {
  random_effect = request_state c.random_effect.current_state true c.random_effect;
}

unfoldable pub release_repeat : SequencerController → SequencerController
release_repeat c =
    let released = record c { repeat_effect = deactivate c.repeat_effect } in
    if released.random_effect.random_offset_mode_active && released.random_intends_flip
    then record released {
      random_effect = request_state offset_with_flip false released.random_effect;
    }
    else released

unfoldable pub set_intended_repeat_state : Option ℕ → SequencerController → SequencerController
unfolding activate_repeat reassert_random release_repeat
set_intended_repeat_state none c = if c.repeat_effect.active then release_repeat c else c
set_intended_repeat_state (some length) c = reassert_random (
    if c.repeat_effect.active
    then record c { repeat_effect = set_length length c.repeat_effect }
    else activate_repeat length c)

unfoldable pub enable_random_offset_mode : (ℕ → ℕ → ℕ) → SequencerController → SequencerController
enable_random_offset_mode rand c = record c {
  random_effect =
      regenerate_offsets rand num_steps num_tracks
        (request_state offset_active c.repeat_effect.active c.random_effect);
}

unfoldable pub trigger_random_hard_press_behavior :
    (ℕ → ℕ → ℕ) → SequencerController → SequencerController
unfolding enable_random_offset_mode
trigger_random_hard_press_behavior rand c =
    let offsets =
      if not c.random_effect.random_offset_mode_active
      then enable_random_offset_mode rand c
      else record c {
        random_effect = regenerate_offsets rand num_steps num_tracks c.random_effect;
      } in
    record offsets {
      random_effect =
          request_state offset_with_flip offsets.repeat_effect.active offsets.random_effect;
      random_intends_flip = true;
    }
