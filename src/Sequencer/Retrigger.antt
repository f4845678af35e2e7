-- ===== src/Sequencer/Retrigger.antt =====
-- drum/sequencer_effect_retrigger.cpp: `SequencerEffectRetrigger`. The mask is taken and marked by
-- calls that do not interleave.
use drum_firmware.Base.{zero, ◌^◌, bit_or, ◌==◌, suc, ltb, false, if◌then◌else◌, Bool, ℕ}

pub data RetriggerMode : Type 0 where
  off step substeps : RetriggerMode

pub record SequencerEffectRetrigger : Type 0 where
  pub mode_per_track : ℕ → RetriggerMode
  pub due_mask : ℕ

abbrev pub max_tracks : ℕ
max_tracks = 4

unfoldable pub set_mode : ℕ → RetriggerMode → SequencerEffectRetrigger → SequencerEffectRetrigger
set_mode track_index mode r =
    if ltb track_index max_tracks
    then record r { mode_per_track = λ t. if t == track_index then mode else r.mode_per_track t }
    else r

unfoldable pub get_mode : ℕ → SequencerEffectRetrigger → RetriggerMode
get_mode track_index r = if ltb track_index max_tracks then r.mode_per_track track_index else off

unfoldable pub is_due : Bool → Bool → RetriggerMode → Bool
is_due step_is_due substep_is_due off = false
is_due step_is_due substep_is_due step = step_is_due
is_due step_is_due substep_is_due substeps = substep_is_due

-- The mask of the tracks below a number that are due.
unfoldable pub due_tracks : Bool → Bool → (ℕ → RetriggerMode) → ℕ → ℕ
unfolding is_due
due_tracks step_is_due substep_is_due modes zero = 0
due_tracks step_is_due substep_is_due modes (suc t) =
    let mask = due_tracks step_is_due substep_is_due modes t in
    if is_due step_is_due substep_is_due (modes t) then bit_or mask (2 ^ t) else mask

unfoldable pub mark_due_tracks : Bool → Bool → SequencerEffectRetrigger → SequencerEffectRetrigger
unfolding due_tracks
mark_due_tracks step_is_due substep_is_due r =
    let mask = due_tracks step_is_due substep_is_due r.mode_per_track max_tracks in
    if mask == 0 then r else record r { due_mask = bit_or r.due_mask mask }

-- The mask, and the effect with no track due.
unfoldable pub take_due_mask : SequencerEffectRetrigger → ℕ × SequencerEffectRetrigger
take_due_mask r = (r.due_mask, record r { due_mask = 0 })
