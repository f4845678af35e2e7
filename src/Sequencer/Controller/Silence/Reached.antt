-- ===== src/Sequencer/Controller/Silence/Reached.antt =====
-- No operation of drum/sequencer_controller.cpp leaves a note on that it has forgotten.
use drum_firmware.Sequencer.Controller.Silence.Asked.{Asked-Same, Asked}
use drum_firmware.Sequencer.Swing.{ppqn, set_swing_enabled}
use drum_firmware.Sequencer.Repeat.{activate, set_length}
use drum_firmware.Sequencer.Random.{offset_with_flip, regenerate_offsets}
use mathlib.Core.Bool.{false≢true}
use drum_firmware.Base.{
  Bool, ◌∙◌, sym, ◌&&◌, ◌%◌, ◌-◌, ◌+◌, if◌then◌else◌, ==→eq, ap, arith, ◌==◌, true, ◌∷◌, none,
  false, some, refl, not, ltb, [], ◌≡◌, if_cases, Option, ℕ,
}
use drum_firmware.Sequencer.Controller.{
  transfer_changed, toggle, request_state, deactivate, num_steps, set_stopped, remove_observer,
  num_tracks, each_track, SequencerController, TempoEvent, reset, start, stop, stop_note, note_off,
  trigger_note_off, forget_note, trigger_note_on, set_active_note_for_track, silence_track,
  clear_traces, disable_random, show_cursor, deactivate_play_on_every_step, plays,
}
use drum_firmware.Sequencer.Controller.Window.{notification, apply_swing, look_behind}
use drum_firmware.Sequencer.Controller.Update.{
  update, set_intended_repeat_state, trigger_random_hard_press_behavior, record_velocity_hit,
  activate_repeat, reassert_random, release_repeat, enable_random_offset_mode,
}
use drum_firmware.Sequencer.Controller.Silence.{
  is_on, Tracked, note_off-Tracked, note_off-Quiet, set_track-Tracked, silence_track-Tracked,
  trigger_note_on-Tracked,
}
use drum_firmware.Sequencer.Controller.Silence.Operations.{
  Same, same, Same-refl, update-Tracked, each_track-Tracked, set_track-Same,
  record_pad_hit_trace-Same,
}

-- All operations but one, with what `rand` gives in them. The one is the preview of random steps while
-- stopped, which turns notes on and none off.
pub data Step (c : SequencerController) : SequencerController → Type 0 where
  resetted : Step c (reset c)
  started : Step c (start c)
  stopped : Step c (stop c)
  toggled : Step c (toggle c)
  transferred : (is_active : Bool) → Step c (transfer_changed is_active c)
  asked : {d : SequencerController} → Asked c d → Step c d
  ticked : (e : TempoEvent) → Step c (notification e c)
  updated : (offsets flips : ℕ → ℕ) → Step c (update offsets flips c)
  pad_on : (track note velocity : ℕ) → Step c (trigger_note_on track note velocity c)
  pad_off : (track note : ℕ) → Step c (trigger_note_off track note c)
  assigned : (track note : ℕ) → Step c (set_active_note_for_track track note c)
  hit : (track : ℕ) → Step c (record_velocity_hit track c)
  intended : (length : Option ℕ) → Step c (set_intended_repeat_state length c)
  pressed : (rand : ℕ → ℕ → ℕ) → Step c (trigger_random_hard_press_behavior rand c)

-- From a controller that has sent no note yet.
pub data Reach : SequencerController → Type 0 where
  initial : {c : SequencerController} → c.notified ≡ [] → Reach c
  stepped : {c d : SequencerController} → Reach c → Step c d → Reach d

reset-Tracked : (c : SequencerController) → Tracked c → Tracked (reset c)
unfolding reset disable_random clear_traces deactivate_play_on_every_step show_cursor
reset-Tracked c v =
    same {c = each_track silence_track c} {d = reset c}
      (record { events = refl; notes = λ t. refl })
      (each_track-Tracked silence_track c (λ t d w. silence_track-Tracked t d w) v)

start-Tracked : (c : SequencerController) → Tracked c → Tracked (start c)
unfolding start show_cursor
start-Tracked c v =
    same {c = c}
      (if_cases {A = SequencerController} (Same c) c.running (λ e. Same-refl c)
        (λ e. record { events = refl; notes = λ t. refl }))
      v

stopping-Tracked : (c : SequencerController) → Tracked c → Tracked (each_track stop_note c)
unfolding stop_note
stopping-Tracked c v = each_track-Tracked stop_note c (λ t d w. note_off-Tracked t _ d w) v

stop-Tracked : (c : SequencerController) → Tracked c → Tracked (stop c)
unfolding stop clear_traces deactivate_play_on_every_step Tracked
stop-Tracked c v =
    if_cases {A = SequencerController} Tracked (not c.running) (λ e. v)
      (λ e.
        stopping-Tracked
          (record c {
            running = false;
            tempo_calls = remove_observer ∷ set_stopped ∷ c.tempo_calls;
          })
          v)

toggle-Tracked : (c : SequencerController) → Tracked c → Tracked (toggle c)
unfolding toggle
toggle-Tracked c v =
    if_cases {A = SequencerController} Tracked c.running (λ e. stop-Tracked c v)
      (λ e. start-Tracked c v)

transfer_changed-Tracked :
    (is_active : Bool) (c : SequencerController)
    → Tracked c
    → Tracked (transfer_changed is_active c)
unfolding transfer_changed
transfer_changed-Tracked true c v = stop-Tracked c v
transfer_changed-Tracked false c v = v

apply_swing-Same : (c : SequencerController) → Same c (apply_swing c)
unfolding apply_swing
apply_swing-Same c =
    let s =
      if_cases {A = SequencerController} (Same c) c.swing_enabled_update_pending
        {x = record c {
          swing_effect = set_swing_enabled c.pending_swing_enabled c.swing_effect;
          swing_enabled_update_pending = false;
        }}
        {y = c} (λ e. record { events = refl; notes = λ t. refl }) (λ e. Same-refl c) in
    if_cases {A = SequencerController} (Same c)
      (if c.swing_enabled_update_pending
        then record c {
          swing_effect = set_swing_enabled c.pending_swing_enabled c.swing_effect;
          swing_enabled_update_pending = false;
        }
        else c).swing_target_update_pending
      (λ e. record { events = s.events; notes = s.notes }) (λ e. s)

notification-Same : (e : TempoEvent) (c : SequencerController) → Same c (notification e c)
unfolding notification look_behind
notification-Same e c =
    let swung = if e.phase_12 == 0 then apply_swing c else c in
    let s : Same c swung =
      if_cases {A = SequencerController} (Same c) (e.phase_12 == 0) (λ f. apply_swing-Same c)
        (λ f. Same-refl c) in
    let synced =
      if e.is_resync
      then record swung { last_phase_12 = (e.phase_12 + ppqn - 1) % ppqn }
      else swung in
    let r : Same c synced =
      if_cases {A = SequencerController} (Same c) e.is_resync
        {x = record swung { last_phase_12 = (e.phase_12 + ppqn - 1) % ppqn }} {y = swung}
        (λ f. record { events = s.events; notes = s.notes }) (λ f. s) in
    if_cases {A = SequencerController} (Same c) (not c.running) (λ f. Same-refl c)
      (λ f.
        if_cases {A = SequencerController} (Same c) (e.phase_12 == synced.last_phase_12)
          {x = synced} {y = look_behind e.phase_12 synced} (λ g. r)
          (λ g. record { events = r.events; notes = r.notes }))

plays→eq : (last : Option ℕ) (note : ℕ) → plays last note ≡ true → last ≡ some note
unfolding plays
plays→eq none note e = grind arith
plays→eq (some n) note e = ap some (==→eq n note e)

trigger_note_off-Tracked :
    (track note : ℕ) (c : SequencerController) → Tracked c → Tracked (trigger_note_off track note c)
unfolding trigger_note_off forget_note note_off
trigger_note_off-Tracked track note c v =
    if_cases {A = SequencerController} Tracked (plays (c.track_states track).last_played_note note)
      (λ e.
        set_track-Tracked track _ _ (note_off-Tracked track (some note) c v)
          (note_off-Quiet track (some note) c v (plays→eq _ note e)))
      (λ e. v)

set_active_note-Same :
    (track note : ℕ) (c : SequencerController) → Same c (set_active_note_for_track track note c)
unfolding set_active_note_for_track
set_active_note-Same track note c =
    if_cases {A = SequencerController} (Same c) (ltb track num_tracks)
      (λ e. record {
        events = refl;
        notes =
            (set_track-Same track (record (c.track_states track) { active_note = note }) c
              refl).notes;
      })
      (λ e. Same-refl c)

record_velocity_hit-Tracked :
    (track : ℕ) (c : SequencerController) → Tracked c → Tracked (record_velocity_hit track c)
unfolding record_velocity_hit
record_velocity_hit-Tracked track c v =
    if_cases {A = SequencerController} Tracked (ltb track num_tracks)
      (λ e. same (record_pad_hit_trace-Same track _) (same (set_track-Same track _ c refl) v))
      (λ e. v)

release_repeat-Same : (c : SequencerController) → Same c (release_repeat c)
unfolding release_repeat
release_repeat-Same c =
    let released = record c { repeat_effect = deactivate c.repeat_effect } in
    if_cases {A = SequencerController} (Same c)
      (c.random_effect.random_offset_mode_active && c.random_intends_flip)
      {x = record released { random_effect = request_state offset_with_flip false c.random_effect }}
      {y = released} (λ f. record { events = refl; notes = λ t. refl })
      (λ f. record { events = refl; notes = λ t. refl })

intended-Same :
    (length : Option ℕ) (c : SequencerController) → Same c (set_intended_repeat_state length c)
unfolding set_intended_repeat_state release_repeat reassert_random activate_repeat
intended-Same none c =
    if_cases {A = SequencerController} (Same c) c.repeat_effect.active (λ e. release_repeat-Same c)
      (λ e. Same-refl c)
intended-Same (some length) c =
    let s =
      if_cases {A = SequencerController} (Same c) c.repeat_effect.active
        {x = record c { repeat_effect = set_length length c.repeat_effect }}
        {y = activate_repeat length c} (λ e. record { events = refl; notes = λ t. refl })
        (λ e.
          if_cases {A = SequencerController} (Same c) c.running
            {x = record c {
              repeat_effect = activate length c.scheduled_step_counter num_steps c.repeat_effect;
            }}
            {y = c} (λ f. record { events = refl; notes = λ t. refl }) (λ f. Same-refl c)) in
    record { events = s.events; notes = s.notes }

pressed-Same :
    (rand : ℕ → ℕ → ℕ) (c : SequencerController)
    → Same c (trigger_random_hard_press_behavior rand c)
unfolding trigger_random_hard_press_behavior enable_random_offset_mode
pressed-Same rand c =
    let s =
      if_cases {A = SequencerController} (Same c) (not c.random_effect.random_offset_mode_active)
        {x = enable_random_offset_mode rand c}
        {y = record c {
          random_effect = regenerate_offsets rand num_steps num_tracks c.random_effect;
        }}
        (λ e. record { events = refl; notes = λ t. refl })
        (λ e. record { events = refl; notes = λ t. refl }) in
    record { events = s.events; notes = s.notes }

step-Tracked : {c d : SequencerController} → Step c d → Tracked c → Tracked d
step-Tracked resetted v = reset-Tracked _ v
step-Tracked started v = start-Tracked _ v
step-Tracked stopped v = stop-Tracked _ v
step-Tracked toggled v = toggle-Tracked _ v
step-Tracked (transferred is_active) v = transfer_changed-Tracked is_active _ v
step-Tracked (asked a) v = same (Asked-Same a) v
step-Tracked (ticked e) v = same (notification-Same e _) v
step-Tracked (updated offsets flips) v = update-Tracked offsets flips _ v
step-Tracked (pad_on track note velocity) v = trigger_note_on-Tracked track note velocity _ v
step-Tracked (pad_off track note) v = trigger_note_off-Tracked track note _ v
step-Tracked (assigned track note) v = same (set_active_note-Same track note _) v
step-Tracked (hit track) v = record_velocity_hit-Tracked track _ v
step-Tracked (intended length) v = same (intended-Same length _) v
step-Tracked (pressed rand) v = same (pressed-Same rand _) v

initial-Tracked : (c : SequencerController) → c.notified ≡ [] → Tracked c
unfolding Tracked is_on
initial-Tracked c e t n h = absurd (false≢true (sym (ap (is_on t n) e) ∙ h))

-- Whatever these operations, from a controller that has sent no note, a note that is on is the last
-- one that its track has played.
pub Reach-Tracked : {c : SequencerController} → Reach c → Tracked c
Reach-Tracked (initial e) = initial-Tracked _ e
Reach-Tracked (stepped r s) = step-Tracked s (Reach-Tracked r)
