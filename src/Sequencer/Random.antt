-- ===== src/Sequencer/Random.antt =====
-- drum/sequencer_effect_random.cpp: `SequencerEffectRandom`. What `rand` gives in an operation is an
-- argument of it, the value of each call or, for several calls, a function of the track and of the
-- offset that is drawn. Of the floating-point
-- intensity only its comparison with 0.2 is read.
use drum_firmware.Base.{
  ◌||◌, ◌+◌, ◌%◌, u32, some, ◌==◌, ◌&&◌, not, ltb, leb, true, min, if◌then◌else◌, false, Option,
  Bool, ℕ,
}
pub mod States
pub mod Flips

pub data RandomEffectState : Type 0 where
  inactive offset_active offset_with_flip step_preview : RandomEffectState

pub record SequencerEffectRandom : Type 0 where
  pub current_state : RandomEffectState
  pub random_offset_mode_active : Bool
  pub random_probability_active : Bool
  pub random_offsets_per_track : ℕ → ℕ → ℕ
  pub current_offset_index_per_track : ℕ → ℕ
  pub offset_generation_counter : ℕ
  pub highlighted_random_steps : ℕ → ℕ
  pub random_steps_highlighted : Bool
  pub saved_current_step : ℕ

abbrev pub max_tracks : ℕ
max_tracks = 4

abbrev pub max_offsets_per_track : ℕ
max_offsets_per_track = 3

abbrev pub repeat_length_mode_1 : ℕ
repeat_length_mode_1 = 3

abbrev pub create : SequencerEffectRandom
create = record {
  current_state = inactive;
  random_offset_mode_active = false;
  random_probability_active = false;
  random_offsets_per_track = λ t i. 0;
  current_offset_index_per_track = λ t. 0;
  offset_generation_counter = 0;
  highlighted_random_steps = λ t. 0;
  random_steps_highlighted = false;
  saved_current_step = 0;
}

-- `rand() % num_steps`, or 0 where there are no steps.
unfoldable pub calculate_offset : ℕ → ℕ → ℕ
calculate_offset value num_steps = if num_steps == 0 then 0 else value % num_steps

-- The effective step.
unfoldable pub calculate_randomized_step : ℕ → ℕ → ℕ → ℕ → Bool → SequencerEffectRandom → ℕ
unfolding calculate_offset
calculate_randomized_step value base_step_index track_idx num_steps repeat_active r =
    let offset =
      if repeat_active
      then r.random_offsets_per_track track_idx (r.current_offset_index_per_track track_idx)
      else calculate_offset value num_steps in
    if leb max_tracks track_idx || num_steps == 0
    then base_step_index
    else if r.random_offset_mode_active
    then (base_step_index + offset) % num_steps
    else base_step_index

unfoldable pub enable_probability_mode : Bool → SequencerEffectRandom → SequencerEffectRandom
enable_probability_mode enabled r = record r { random_probability_active = enabled }

unfoldable pub enable_offset_mode : Bool → SequencerEffectRandom → SequencerEffectRandom
enable_offset_mode true r = record r { random_offset_mode_active = true }
enable_offset_mode false r = record r {
  random_offset_mode_active = false;
  random_probability_active = false;
  current_offset_index_per_track = λ t. 0;
}

-- Whether the clamped intensity is below 0.2 is the argument.
unfoldable pub set_random_intensity : Bool → SequencerEffectRandom → SequencerEffectRandom
unfolding enable_offset_mode
set_random_intensity is_low r =
    if is_low
    then enable_offset_mode false r
    else if not r.random_offset_mode_active
    then enable_offset_mode true r
    else r

unfoldable pub regenerate_offsets :
    (ℕ → ℕ → ℕ) → ℕ → ℕ → SequencerEffectRandom → SequencerEffectRandom
unfolding calculate_offset
regenerate_offsets rand num_steps num_tracks r =
    let tracks_to_generate = min num_tracks max_tracks in
    if not r.random_offset_mode_active then r else record r {
      offset_generation_counter = u32 (r.offset_generation_counter + 1);
      random_offsets_per_track = λ t i.
          if ltb t tracks_to_generate
          then calculate_offset (rand t i) num_steps
          else r.random_offsets_per_track t i;
      current_offset_index_per_track =
          λ t. if ltb t tracks_to_generate then 0 else r.current_offset_index_per_track t;
    }

unfoldable pub advance_offset_indices : ℕ → ℕ → SequencerEffectRandom → SequencerEffectRandom
advance_offset_indices num_tracks repeat_length r =
    let tracks_to_advance = min num_tracks max_tracks in
    if r.random_offset_mode_active && repeat_length == repeat_length_mode_1
    then record r {
      current_offset_index_per_track = λ t.
          if ltb t tracks_to_advance
          then (r.current_offset_index_per_track t + 1) % 3
          else r.current_offset_index_per_track t;
    }
    else r

unfoldable pub get_highlighted_step_for_track : ℕ → SequencerEffectRandom → Option ℕ
get_highlighted_step_for_track track_idx r =
    if ltb track_idx max_tracks && r.random_steps_highlighted
    then some (r.highlighted_random_steps track_idx)
    else some r.saved_current_step

unfoldable pub trigger_step_highlighting :
    (ℕ → ℕ) → ℕ → ℕ → SequencerEffectRandom → SequencerEffectRandom
trigger_step_highlighting rand num_steps num_tracks r =
    let tracks_to_highlight = min num_tracks max_tracks in
    record r {
      highlighted_random_steps = λ t.
          if ltb t tracks_to_highlight
          then u32 (rand t) % num_steps
          else r.highlighted_random_steps t;
    }

unfoldable pub same_state : RandomEffectState → RandomEffectState → Bool
same_state inactive inactive = true
same_state offset_active offset_active = true
same_state offset_with_flip offset_with_flip = true
same_state step_preview step_preview = true
same_state _ _ = false

unfoldable pub exit_state : RandomEffectState → SequencerEffectRandom → SequencerEffectRandom
unfolding enable_probability_mode enable_offset_mode
exit_state offset_active r = enable_offset_mode false (enable_probability_mode false r)
exit_state offset_with_flip r = enable_offset_mode false (enable_probability_mode false r)
exit_state step_preview r = record r { random_steps_highlighted = false }
exit_state inactive r = r

unfoldable pub enter_state : RandomEffectState → SequencerEffectRandom → SequencerEffectRandom
unfolding enable_probability_mode enable_offset_mode
enter_state offset_active r = enable_offset_mode true r
enter_state offset_with_flip r = enable_probability_mode true (enable_offset_mode true r)
enter_state step_preview r = r
enter_state inactive r = r

-- No flips while repeating.
unfoldable pub allowed : Bool → RandomEffectState → RandomEffectState
allowed true offset_with_flip = offset_active
allowed true inactive = inactive
allowed true offset_active = offset_active
allowed true step_preview = step_preview
allowed false s = s

-- `transition_to`, which `request_state` calls.
unfoldable pub request_state :
    RandomEffectState → Bool → SequencerEffectRandom → SequencerEffectRandom
unfolding allowed same_state exit_state enter_state
request_state new_state repeat_active r =
    let state = allowed repeat_active new_state in
    if same_state r.current_state state
    then r
    else record (enter_state state (exit_state r.current_state r)) { current_state = state }

unfoldable pub reset_to_inactive : SequencerEffectRandom → SequencerEffectRandom
reset_to_inactive r = request_state inactive false r

unfoldable pub start_step_highlighting : SequencerEffectRandom → SequencerEffectRandom
start_step_highlighting r =
    request_state step_preview false (record r { random_steps_highlighted = true })

unfoldable pub stop_step_highlighting : SequencerEffectRandom → SequencerEffectRandom
unfolding same_state
stop_step_highlighting r =
    let s = record r { random_steps_highlighted = false } in
    if same_state r.current_state step_preview then request_state inactive false s else s
