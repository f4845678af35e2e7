-- ===== src/Sequencer/Random/Flips.antt =====
-- The flips of drum/sequencer_effect_random.cpp, with `set_random_intensity` among the operations.
use drum_firmware.Sequencer.Random.{
  offset_with_flip, offset_active, max_tracks, repeat_length_mode_1, inactive,
  trigger_step_highlighting, step_preview, enable_probability_mode, allowed,
  start_step_highlighting, same_state, max_offsets_per_track, enable_offset_mode,
  stop_step_highlighting, set_random_intensity, reset_to_inactive, request_state,
  regenerate_offsets, exit_state, enter_state, create, advance_offset_indices,
  SequencerEffectRandom, RandomEffectState,
}
use drum_firmware.Sequencer.Random.States.{
  resetted, started, stopped, triggered, advanced, regenerated, requested, intensified, created,
  stepped, Step, Reach, has_flips,
}
use drum_firmware.Base.{
  min, ap, ◌==◌, ltb, ◌∙◌, ◌&&◌, not, ◌<◌, sym, false, refl, if_cases, Bool, ℕ, ◌≡◌, true, arith,
}
use mathlib.Core.Bool.{false≢true}

-- Where steps are flipped, the state is the one for it and the offset mode is on; and there is an offset
-- of the three to play.
pub record FlipsAreOwn (r : SequencerEffectRandom) : Type 0 where
  pub own : r.random_probability_active ≡ true → has_flips r.current_state ≡ true
  pub offsets : r.random_probability_active ≡ true → r.random_offset_mode_active ≡ true
  pub index : (t : ℕ) → r.current_offset_index_per_track t < max_offsets_per_track

highlighted :
    (b : Bool) (r : SequencerEffectRandom)
    → FlipsAreOwn r
    → FlipsAreOwn (record r { random_steps_highlighted = b })
highlighted b r v = record { own = v.own; offsets = v.offsets; index = v.index }

set_random_intensity-FlipsAreOwn :
    (is_low : Bool) (r : SequencerEffectRandom)
    → FlipsAreOwn r
    → FlipsAreOwn (set_random_intensity is_low r)
unfolding set_random_intensity enable_offset_mode
set_random_intensity-FlipsAreOwn true r v = record {
  own = λ e. absurd (false≢true e);
  offsets = λ e. absurd (false≢true e);
  index = λ t. omega arith;
}
set_random_intensity-FlipsAreOwn false r v =
    if_cases {A = SequencerEffectRandom} FlipsAreOwn (not r.random_offset_mode_active)
      (λ e. record { own = v.own; offsets = λ f. refl; index = v.index }) (λ e. v)

-- The flips are off.
record NoFlips (r : SequencerEffectRandom) : Type 0 where
  flips : r.random_probability_active ≡ false
  index : (t : ℕ) → r.current_offset_index_per_track t < max_offsets_per_track

not_flipped : (b c : Bool) → (b ≡ true → c ≡ true) → c ≡ false → b ≡ false
not_flipped true c f e = absurd (false≢true (sym e ∙ f refl))
not_flipped false c f e = refl

exited :
    (s : RandomEffectState) (r : SequencerEffectRandom)
    → r.current_state ≡ s
    → FlipsAreOwn r
    → NoFlips (exit_state s r)
unfolding exit_state enable_offset_mode enable_probability_mode has_flips
exited inactive r e v = record { flips = not_flipped _ _ v.own (ap has_flips e); index = v.index }
exited offset_active r e v = record { flips = refl; index = λ t. omega arith }
exited offset_with_flip r e v = record { flips = refl; index = λ t. omega arith }
exited step_preview r e v = record {
  flips = not_flipped _ _ v.own (ap has_flips e);
  index = v.index;
}

off-FlipsAreOwn : (r : SequencerEffectRandom) → NoFlips r → FlipsAreOwn r
off-FlipsAreOwn r o = record {
  own = λ e. absurd (false≢true (sym o.flips ∙ e));
  offsets = λ e. absurd (false≢true (sym o.flips ∙ e));
  index = o.index;
}

entered :
    (t : RandomEffectState) (r : SequencerEffectRandom)
    → NoFlips r
    → FlipsAreOwn (record (enter_state t r) { current_state = t })
unfolding enter_state enable_offset_mode enable_probability_mode has_flips
entered inactive r o =
    off-FlipsAreOwn (record r { current_state = inactive })
      (record { flips = o.flips; index = o.index })
entered offset_active r o =
    off-FlipsAreOwn (record r { random_offset_mode_active = true; current_state = offset_active })
      (record { flips = o.flips; index = o.index })
entered offset_with_flip r o = record { own = λ e. refl; offsets = λ e. refl; index = o.index }
entered step_preview r o =
    off-FlipsAreOwn (record r { current_state = step_preview })
      (record { flips = o.flips; index = o.index })

request_state-FlipsAreOwn :
    (s : RandomEffectState) (repeat_active : Bool) (r : SequencerEffectRandom)
    → FlipsAreOwn r
    → FlipsAreOwn (request_state s repeat_active r)
unfolding request_state
request_state-FlipsAreOwn s repeat_active r v =
    if_cases {A = SequencerEffectRandom} FlipsAreOwn
      (same_state r.current_state (allowed repeat_active s)) (λ e. v)
      (λ e. entered (allowed repeat_active s) _ (exited r.current_state r refl v))

regenerate_offsets-FlipsAreOwn :
    (rand : ℕ → ℕ → ℕ) (num_steps num_tracks : ℕ) (r : SequencerEffectRandom)
    → FlipsAreOwn r
    → FlipsAreOwn (regenerate_offsets rand num_steps num_tracks r)
unfolding regenerate_offsets
regenerate_offsets-FlipsAreOwn rand num_steps num_tracks r v =
    if_cases {A = SequencerEffectRandom} FlipsAreOwn (not r.random_offset_mode_active) (λ e. v)
      (λ e. record {
        own = v.own;
        offsets = v.offsets;
        index = λ t.
            if_cases {A = ℕ} (λ (i : ℕ). i < max_offsets_per_track)
              (ltb t (min num_tracks max_tracks)) (λ b. omega arith) (λ b. v.index t);
      })

advance_offset_indices-FlipsAreOwn :
    (num_tracks length : ℕ) (r : SequencerEffectRandom)
    → FlipsAreOwn r
    → FlipsAreOwn (advance_offset_indices num_tracks length r)
unfolding advance_offset_indices
advance_offset_indices-FlipsAreOwn num_tracks length r v =
    if_cases {A = SequencerEffectRandom} FlipsAreOwn
      (r.random_offset_mode_active && length == repeat_length_mode_1)
      (λ e. record {
        own = v.own;
        offsets = v.offsets;
        index = λ t.
            if_cases {A = ℕ} (λ (i : ℕ). i < max_offsets_per_track)
              (ltb t (min num_tracks max_tracks)) (λ b. omega arith) (λ b. v.index t);
      })
      (λ e. v)

stop_step_highlighting-FlipsAreOwn :
    (r : SequencerEffectRandom) → FlipsAreOwn r → FlipsAreOwn (stop_step_highlighting r)
unfolding stop_step_highlighting
stop_step_highlighting-FlipsAreOwn r v =
    if_cases {A = SequencerEffectRandom} FlipsAreOwn (same_state r.current_state step_preview)
      (λ e. request_state-FlipsAreOwn inactive false _ (highlighted false r v))
      (λ e. highlighted false r v)

step-FlipsAreOwn : {r s : SequencerEffectRandom} → Step true r s → FlipsAreOwn r → FlipsAreOwn s
unfolding reset_to_inactive start_step_highlighting trigger_step_highlighting
step-FlipsAreOwn (intensified e is_low) v = set_random_intensity-FlipsAreOwn is_low _ v
step-FlipsAreOwn (requested s repeat_active) v = request_state-FlipsAreOwn s repeat_active _ v
step-FlipsAreOwn resetted v = request_state-FlipsAreOwn inactive false _ v
step-FlipsAreOwn (regenerated rand num_steps num_tracks) v =
    regenerate_offsets-FlipsAreOwn rand num_steps num_tracks _ v
step-FlipsAreOwn (advanced num_tracks length) v =
    advance_offset_indices-FlipsAreOwn num_tracks length _ v
step-FlipsAreOwn (triggered rand num_steps num_tracks) v = record {
  own = v.own;
  offsets = v.offsets;
  index = v.index;
}
step-FlipsAreOwn started v = request_state-FlipsAreOwn step_preview false _ (highlighted true _ v)
step-FlipsAreOwn stopped v = stop_step_highlighting-FlipsAreOwn _ v

create-FlipsAreOwn : FlipsAreOwn create
create-FlipsAreOwn = record {
  own = λ e. absurd (false≢true e);
  offsets = λ e. absurd (false≢true e);
  index = λ t. omega arith;
}

-- In every state that the public operations reach, `set_random_intensity` among them, from any values of
-- `rand`: steps are flipped only in the state that is for it and only with the offset mode on, and the
-- offset that is played next is one of the three that were drawn.
pub Reach-FlipsAreOwn : {r : SequencerEffectRandom} → Reach true r → FlipsAreOwn r
Reach-FlipsAreOwn created = create-FlipsAreOwn
Reach-FlipsAreOwn (stepped h s) = step-FlipsAreOwn s (Reach-FlipsAreOwn h)
