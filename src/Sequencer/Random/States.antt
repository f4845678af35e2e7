-- ===== src/Sequencer/Random/States.antt =====
-- The modes of drum/sequencer_effect_random.cpp are those of its state.
use drum_firmware.Base.{
  min, ◌==◌, ltb, ◌&&◌, refl, not, ap, ◌∙◌, if_cases, arith, false, ◌<◌, true, ◌≡◌, Bool, ℕ,
}
use mathlib.Core.Bool.{false≢true}
use drum_firmware.Sequencer.Random.{
  set_random_intensity, max_tracks, repeat_length_mode_1, step_preview, inactive, offset_with_flip,
  offset_active, max_offsets_per_track, SequencerEffectRandom, RandomEffectState, create,
  regenerate_offsets, advance_offset_indices, trigger_step_highlighting, request_state,
  reset_to_inactive, start_step_highlighting, stop_step_highlighting, allowed, same_state,
  exit_state, enter_state, enable_probability_mode, enable_offset_mode,
}

unfoldable pub has_offsets : RandomEffectState → Bool
has_offsets offset_active = true
has_offsets offset_with_flip = true
has_offsets _ = false

unfoldable pub has_flips : RandomEffectState → Bool
has_flips offset_with_flip = true
has_flips _ = false

-- The two modes are on exactly in the states that have them, and there is an offset of the three to
-- play.
pub record IsValid (r : SequencerEffectRandom) : Type 0 where
  pub offsets : r.random_offset_mode_active ≡ has_offsets r.current_state
  pub flips : r.random_probability_active ≡ has_flips r.current_state
  pub index : (t : ℕ) → r.current_offset_index_per_track t < max_offsets_per_track

-- The public operations. `set_random_intensity`, which turns the offset mode on and off and keeps the
-- state, is one of them if the index is true.
pub data Step (with_intensity : Bool) (r : SequencerEffectRandom)
    : SequencerEffectRandom → Type 0 where
  intensified :
      with_intensity ≡ true
      → (is_low : Bool) → Step with_intensity r (set_random_intensity is_low r)
  requested :
      (s : RandomEffectState) (repeat_active : Bool)
      → Step with_intensity r (request_state s repeat_active r)
  resetted : Step with_intensity r (reset_to_inactive r)
  regenerated :
      (rand : ℕ → ℕ → ℕ) (num_steps num_tracks : ℕ)
      → Step with_intensity r (regenerate_offsets rand num_steps num_tracks r)
  advanced :
      (num_tracks length : ℕ) → Step with_intensity r (advance_offset_indices num_tracks length r)
  triggered :
      (rand : ℕ → ℕ) (num_steps num_tracks : ℕ)
      → Step with_intensity r (trigger_step_highlighting rand num_steps num_tracks r)
  started : Step with_intensity r (start_step_highlighting r)
  stopped : Step with_intensity r (stop_step_highlighting r)

pub data Reach (with_intensity : Bool) : SequencerEffectRandom → Type 0 where
  created : Reach with_intensity create
  stepped :
      {r s : SequencerEffectRandom}
      → Reach with_intensity r
      → Step with_intensity r s
      → Reach with_intensity s

highlighted :
    (b : Bool) (r : SequencerEffectRandom)
    → IsValid r
    → IsValid (record r { random_steps_highlighted = b })
highlighted b r v = record { offsets = v.offsets; flips = v.flips; index = v.index }

-- Both modes are off.
record IsOff (r : SequencerEffectRandom) : Type 0 where
  offsets : r.random_offset_mode_active ≡ false
  flips : r.random_probability_active ≡ false
  index : (t : ℕ) → r.current_offset_index_per_track t < max_offsets_per_track

exited :
    (s : RandomEffectState) (r : SequencerEffectRandom)
    → r.current_state ≡ s
    → IsValid r
    → IsOff (exit_state s r)
unfolding exit_state enable_offset_mode enable_probability_mode has_offsets has_flips
exited inactive r e v = record {
  offsets = v.offsets ∙ ap has_offsets e;
  flips = v.flips ∙ ap has_flips e;
  index = v.index;
}
exited offset_active r e v = record { offsets = refl; flips = refl; index = λ t. omega arith }
exited offset_with_flip r e v = record { offsets = refl; flips = refl; index = λ t. omega arith }
exited step_preview r e v = record {
  offsets = v.offsets ∙ ap has_offsets e;
  flips = v.flips ∙ ap has_flips e;
  index = v.index;
}

entered :
    (t : RandomEffectState) (r : SequencerEffectRandom)
    → IsOff r
    → IsValid (record (enter_state t r) { current_state = t })
unfolding enter_state enable_offset_mode enable_probability_mode has_offsets has_flips
entered inactive r o = record { offsets = o.offsets; flips = o.flips; index = o.index }
entered offset_active r o = record { offsets = refl; flips = o.flips; index = o.index }
entered offset_with_flip r o = record { offsets = refl; flips = refl; index = o.index }
entered step_preview r o = record { offsets = o.offsets; flips = o.flips; index = o.index }

request_state-IsValid :
    (s : RandomEffectState) (repeat_active : Bool) (r : SequencerEffectRandom)
    → IsValid r
    → IsValid (request_state s repeat_active r)
unfolding request_state
request_state-IsValid s repeat_active r v =
    if_cases {A = SequencerEffectRandom} IsValid
      (same_state r.current_state (allowed repeat_active s)) (λ e. v)
      (λ e. entered (allowed repeat_active s) _ (exited r.current_state r refl v))

regenerate_offsets-IsValid :
    (rand : ℕ → ℕ → ℕ) (num_steps num_tracks : ℕ) (r : SequencerEffectRandom)
    → IsValid r
    → IsValid (regenerate_offsets rand num_steps num_tracks r)
unfolding regenerate_offsets
regenerate_offsets-IsValid rand num_steps num_tracks r v =
    if_cases {A = SequencerEffectRandom} IsValid (not r.random_offset_mode_active) (λ e. v)
      (λ e. record {
        offsets = v.offsets;
        flips = v.flips;
        index = λ t.
            if_cases {A = ℕ} (λ (i : ℕ). i < max_offsets_per_track)
              (ltb t (min num_tracks max_tracks)) (λ b. omega arith) (λ b. v.index t);
      })

advance_offset_indices-IsValid :
    (num_tracks length : ℕ) (r : SequencerEffectRandom)
    → IsValid r
    → IsValid (advance_offset_indices num_tracks length r)
unfolding advance_offset_indices
advance_offset_indices-IsValid num_tracks length r v =
    if_cases {A = SequencerEffectRandom} IsValid
      (r.random_offset_mode_active && length == repeat_length_mode_1)
      (λ e. record {
        offsets = v.offsets;
        flips = v.flips;
        index = λ t.
            if_cases {A = ℕ} (λ (i : ℕ). i < max_offsets_per_track)
              (ltb t (min num_tracks max_tracks)) (λ b. omega arith) (λ b. v.index t);
      })
      (λ e. v)

stop_step_highlighting-IsValid :
    (r : SequencerEffectRandom) → IsValid r → IsValid (stop_step_highlighting r)
unfolding stop_step_highlighting
stop_step_highlighting-IsValid r v =
    if_cases {A = SequencerEffectRandom} IsValid (same_state r.current_state step_preview)
      (λ e. request_state-IsValid inactive false _ (highlighted false r v))
      (λ e. highlighted false r v)

step-IsValid : {r s : SequencerEffectRandom} → Step false r s → IsValid r → IsValid s
unfolding reset_to_inactive start_step_highlighting trigger_step_highlighting
step-IsValid (intensified e is_low) v = absurd (false≢true e)
step-IsValid (requested s repeat_active) v = request_state-IsValid s repeat_active _ v
step-IsValid resetted v = request_state-IsValid inactive false _ v
step-IsValid (regenerated rand num_steps num_tracks) v =
    regenerate_offsets-IsValid rand num_steps num_tracks _ v
step-IsValid (advanced num_tracks length) v = advance_offset_indices-IsValid num_tracks length _ v
step-IsValid (triggered rand num_steps num_tracks) v = record {
  offsets = v.offsets;
  flips = v.flips;
  index = v.index;
}
step-IsValid started v = request_state-IsValid step_preview false _ (highlighted true _ v)
step-IsValid stopped v = stop_step_highlighting-IsValid _ v

create-IsValid : IsValid create
unfolding has_offsets has_flips
create-IsValid = record { offsets = refl; flips = refl; index = λ t. omega arith }

-- In every state that is reached without `set_random_intensity`, from any values of `rand`, steps are
-- played at random offsets exactly in the two states that are for it, their enabling is flipped exactly
-- in the one that is for it, and the offset that is played next is one of the three that were drawn.
pub modes_match_state : {r : SequencerEffectRandom} → Reach false r → IsValid r
modes_match_state created = create-IsValid
modes_match_state (stepped h s) = step-IsValid s (modes_match_state h)
