-- ===== src/Sequencer/Controller/Pattern.antt =====
-- The pattern that is saved: `create_persistent_state`, `apply_persistent_state` and `apply_state` of
-- drum/sequencer_controller.cpp, `SequencerPersistentState` of drum/sequencer_persistence.h, and its
-- payload in a system exclusive message, drum/sysex/sequencer_state_codec.h.
use drum_firmware.Base.{
  ◌+◌, ◌++◌, ◌*◌, ◌%◌, get_or, true, none, ◌∷◌, ◌/◌, ◌&&◌, some, length, false, ◌==◌, zero, not,
  ltb, [], Option, suc, if◌then◌else◌, List, Bool, ℕ,
}
use drum_firmware.Sequencer.Controller.{
  num_steps, num_tracks, SequencerController, PatternStep, TrackState,
}
pub mod RoundTrip

pub record SequencerPersistentState : Type 0 where
  pub magic : ℕ
  pub version : ℕ
  pub velocities : ℕ → ℕ → ℕ
  pub active_notes : ℕ → ℕ

abbrev pub magic_number : ℕ
magic_number = 1397047619

abbrev pub format_version : ℕ
format_version = 2

-- The notes of `SequencerPersistentState()`.
unfoldable pub default_note : ℕ → ℕ
default_note zero = 37
default_note (suc zero) = 38
default_note (suc (suc zero)) = 46
default_note (suc (suc (suc t))) = 54

unfoldable pub default_state : SequencerPersistentState
unfolding default_note
default_state = record {
  magic = magic_number;
  version = format_version;
  velocities = λ t s. 0;
  active_notes = default_note;
}

unfoldable pub is_valid : SequencerPersistentState → Bool
is_valid p = p.magic == magic_number && p.version == format_version

-- 0 means that the step is disabled.
unfoldable pub stored_velocity : Bool → Option ℕ → ℕ
stored_velocity enabled none = 0
stored_velocity enabled (some v) = if enabled && ltb 0 v then v else 0

unfoldable pub create_persistent_state : SequencerController → SequencerPersistentState
unfolding default_state stored_velocity
create_persistent_state c = record default_state {
  velocities = λ t s.
      if ltb t num_tracks && ltb s num_steps
      then stored_velocity (c.main_sequencer t s).enabled (c.main_sequencer t s).velocity
      else default_state.velocities t s;
  active_notes = λ t.
      if ltb t num_tracks then (c.track_states t).active_note else default_state.active_notes t;
}

unfoldable pub applied_step : ℕ → ℕ → PatternStep
applied_step note velocity =
    if ltb 0 velocity
    then record { note = some note; velocity = some velocity; enabled = true }
    else record { note = none; velocity = none; enabled = false }

unfoldable pub apply_persistent_state :
    SequencerPersistentState → SequencerController → SequencerController
unfolding applied_step
apply_persistent_state p c = record c {
  track_states = λ t.
      if ltb t num_tracks
      then record (c.track_states t) { active_note = p.active_notes t }
      else c.track_states t;
  main_sequencer = λ t s.
      if ltb t num_tracks && ltb s num_steps
      then applied_step (p.active_notes t) (p.velocities t s)
      else c.main_sequencer t s;
}

-- Whether the state was applied.
unfoldable pub apply_state :
    SequencerPersistentState → SequencerController → Bool × SequencerController
unfolding is_valid apply_persistent_state
apply_state p c =
    if not (is_valid p)
    then (false, c)
    else (true, record (apply_persistent_state p c) { is_dirty = true })

abbrev pub payload_size : ℕ
payload_size = 36

-- The values of a function below a number, in order.
unfoldable pub values : ℕ → (ℕ → ℕ) → List ℕ
values zero f = []
values (suc n) f = f 0 ∷ values n (λ i. f (suc i))

-- The bytes that are written, and none where the output is too small.
unfoldable pub encode_sequencer_state : ℕ → SequencerPersistentState → List ℕ
unfolding values
encode_sequencer_state output_size p =
    if ltb output_size payload_size
    then []
    else values 32 (λ i. p.velocities (i / num_steps) (i % num_steps) % 128)
      ++ values num_tracks (λ t. p.active_notes t % 128)

-- The state of a payload that is long enough.
unfoldable pub decoded : List ℕ → SequencerPersistentState
unfolding default_state
decoded input = record default_state {
  velocities = λ t s.
      if ltb t num_tracks && ltb s num_steps
      then get_or input (t * num_steps + s) 0
      else default_state.velocities t s;
  active_notes =
      λ t. if ltb t num_tracks then get_or input (32 + t) 0 else default_state.active_notes t;
}

unfoldable pub decode_sequencer_state : List ℕ → Option SequencerPersistentState
unfolding decoded
decode_sequencer_state input =
    if ltb (length input) payload_size then none else some (decoded input)
