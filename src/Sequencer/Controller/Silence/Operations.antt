-- ===== src/Sequencer/Controller/Silence/Operations.antt =====
-- The operations of drum/sequencer_controller.cpp keep track of the notes that are on.
use drum_firmware.Sequencer.Retrigger.{take_due_mask}
use drum_firmware.Base.{
  false, not, if◌then◌else◌, ◌%◌, none, ◌^◌, some, ==→eq, ◌==◌, ◌/◌, ◌&&◌, refl, ltb, Option, ◌≡◌,
  ◌∙◌, if_cases, Bool, ℕ,
}
use drum_firmware.Sequencer.Swing.{late, middle, early, HitZone}
use drum_firmware.Sequencer.Controller.{
  num_steps, num_tracks, each_track, SequencerController, TrackState, silence_track, set_track,
  show_cursor, calculate_base_step_index,
}
use drum_firmware.Sequencer.Controller.Update.{
  default_step_velocity, value_or, update, drain_fade, fade_traces, trace_hit, set_trace,
  record_pad_hit_trace, play_step, process_track_step, retrigger_note, update_track,
  advance_offsets, play_due_step, retrigger_due,
}
use drum_firmware.Sequencer.Controller.Silence.{
  Tracked, Quiet, QuietBut, played-Tracked, silence_track-Quiet, silence_track-Tracked,
  trigger_note_on-Tracked,
}

-- The notes on and the notes that are tracked are the same.
pub record Same (c d : SequencerController) : Type 0 where
  pub events : d.notified ≡ c.notified
  pub notes : (t : ℕ) → (d.track_states t).last_played_note ≡ (c.track_states t).last_played_note

pub same : {c d : SequencerController} → Same c d → Tracked c → Tracked d
unfolding Tracked
same s v t n h = s.notes t ∙ v t n (rw⁻¹ s.events h)

pub Same-refl : (c : SequencerController) → Same c c
Same-refl c = record { events = refl; notes = λ t. refl }

-- A change of a track's state that keeps its note.
pub set_track-Same :
    (track : ℕ) (s : TrackState) (c : SequencerController)
    → s.last_played_note ≡ (c.track_states track).last_played_note
    → Same c (set_track track s c)
unfolding set_track
set_track-Same track s c e = record {
  events = refl;
  notes = λ t.
      if_cases {A = TrackState}
        (λ (r : TrackState). r.last_played_note ≡ (c.track_states t).last_played_note) (t == track)
        (λ b. rw (==→eq _ _ b) e) (λ b. refl);
}

drain_fade-Same : (c : SequencerController) → Same c (drain_fade c)
unfolding drain_fade fade_traces
drain_fade-Same c =
    if_cases {A = SequencerController} (Same c) (ltb 0 c.pending_trace_fade_ticks)
      (λ e. record { events = refl; notes = λ t. refl })
      (λ e. record { events = refl; notes = λ t. refl })

trace_hit-Same :
    (z : HitZone) (track trace_step : ℕ) (c d : SequencerController)
    → Same c d
    → Same c (trace_hit z track trace_step d)
unfolding trace_hit set_trace
trace_hit-Same early track trace_step c d s = record { events = s.events; notes = s.notes }
trace_hit-Same middle track trace_step c d s = s
trace_hit-Same late track trace_step c d s = record { events = s.events; notes = s.notes }

pub record_pad_hit_trace-Same :
    (track : ℕ) (c : SequencerController) → Same c (record_pad_hit_trace track c)
unfolding record_pad_hit_trace
record_pad_hit_trace-Same track c =
    if_cases {A = SequencerController} (Same c) (c.running && ltb track num_tracks)
      (λ e. trace_hit-Same _ track _ c _ (drain_fade-Same c)) (λ e. Same-refl c)

retrigger_note-Tracked :
    (track : ℕ) (c : SequencerController) → Tracked c → Tracked (retrigger_note track c)
unfolding retrigger_note
retrigger_note-Tracked track c v =
    same (record_pad_hit_trace-Same track _) (trigger_note_on-Tracked track _ _ c v)

play_step-Tracked :
    (track : ℕ) (enabled : Bool) (note : Option ℕ) (velocity : ℕ) (c : SequencerController)
    → Tracked c
    → Quiet track c
    → Tracked (play_step track enabled note velocity c)
unfolding play_step Quiet QuietBut
play_step-Tracked track enabled none velocity c v q = v
play_step-Tracked track enabled (some note) velocity c v q =
    if_cases {A = SequencerController} Tracked (enabled && ltb 0 velocity)
      (λ e. played-Tracked track note velocity _ c v (λ n d. q n) refl) (λ e. v)

process_track_step-Tracked :
    (value track step_index : ℕ) (c : SequencerController)
    → Tracked c
    → Tracked (process_track_step value track step_index c)
unfolding process_track_step
process_track_step-Tracked value track step_index c v =
    let s = (silence_track track c).main_sequencer track (step_index % num_steps) in
    let flipped =
      (silence_track track c).random_effect.random_probability_active && value % 2 == 1 in
    let enabled = if flipped then not s.enabled else s.enabled in
    let velocity = value_or s.velocity 0 in
    play_step-Tracked track enabled s.note
      (if flipped && enabled && velocity == 0 then default_step_velocity else velocity)
      (silence_track track c) (silence_track-Tracked track c v) (silence_track-Quiet track c v)

update_track-Tracked :
    (offsets flips : ℕ → ℕ) (base track : ℕ) (c : SequencerController)
    → Tracked c
    → Tracked (update_track offsets flips base track c)
unfolding update_track
update_track-Tracked offsets flips base track c v =
    let p =
      process_track_step-Tracked (flips track) track _ _ (same (set_track-Same track _ c refl) v) in
    if_cases {A = SequencerController} Tracked _ (λ e. retrigger_note-Tracked track _ p) (λ e. p)

advance_offsets-Same : (c : SequencerController) → Same c (advance_offsets c)
unfolding advance_offsets
advance_offsets-Same c =
    if_cases {A = SequencerController} (Same c) c.repeat_effect.active
      (λ e. record { events = refl; notes = λ t. refl }) (λ e. Same-refl c)

pub each_track-Tracked :
    (f : ℕ → SequencerController → SequencerController) (c : SequencerController)
    → ((t : ℕ) (d : SequencerController) → Tracked d → Tracked (f t d))
    → Tracked c
    → Tracked (each_track f c)
each_track-Tracked f c h v = h 3 _ (h 2 _ (h 1 _ (h 0 c v)))

play_due_step-Tracked :
    (offsets flips : ℕ → ℕ) (c : SequencerController)
    → Tracked c
    → Tracked (play_due_step offsets flips c)
unfolding play_due_step show_cursor
play_due_step-Tracked offsets flips c v =
    same (record { events = refl; notes = λ t. refl })
      (same (advance_offsets-Same _) (
        each_track-Tracked (update_track offsets flips (calculate_base_step_index c)) _
          (λ t d w. update_track-Tracked offsets flips _ t d w)
          (same {c = c} {d = show_cursor none (record c { step_is_due = false })}
            (record { events = refl; notes = λ t. refl }) v)))

pub update-Tracked :
    (offsets flips : ℕ → ℕ) (c : SequencerController) → Tracked c → Tracked (update offsets flips c)
unfolding update retrigger_due
update-Tracked offsets flips c v =
    let mask = (take_due_mask c.retrigger_effect).0 in
    let r = same (drain_fade-Same _) (
      each_track-Tracked (retrigger_due mask) _
        (λ t d w.
          if_cases {A = SequencerController} Tracked (mask / 2 ^ t % 2 == 1)
            (λ e. retrigger_note-Tracked t d w) (λ e. w))
        (same {c = c} {d = record c { retrigger_effect = (take_due_mask c.retrigger_effect).1 }}
          (record { events = refl; notes = λ t. refl }) v)) in
    if_cases {A = SequencerController} Tracked _ (λ e. play_due_step-Tracked offsets flips _ r)
      (λ e. r)
