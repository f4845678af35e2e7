-- ===== src/Sequencer/Controller/Pattern/RoundTrip.antt =====
-- What is saved of a pattern comes back.
use native.Mathlib.Nat.{mod-eq_of_lt}
use drum_firmware.Base.{
  [], append-nil, sym, some, ltb, le→not-ltb, ◌≤◌, ◌∷◌, ◌∙◌, ◌/◌, ◌+◌, ◌*◌, ◌%◌, if_cases, zero,
  refl, arith, ◌++◌, ap, suc, get_or, ◌≡◌, ◌<◌, lt→ltb, length, List, ℕ,
}
use drum_firmware.Sequencer.Controller.{PatternStep, num_steps, num_tracks, SequencerController}
use drum_firmware.Sequencer.Controller.Pattern.{
  payload_size, SequencerPersistentState, create_persistent_state, apply_persistent_state,
  applied_step, stored_velocity, values, encode_sequencer_state, decode_sequencer_state, decoded,
}

-- The states agree on every step of every track and on the notes of the tracks.
pub record Same (p q : SequencerPersistentState) : Type 0 where
  pub velocities : (t s : ℕ) → t < num_tracks → s < num_steps → q.velocities t s ≡ p.velocities t s
  pub active_notes : (t : ℕ) → t < num_tracks → q.active_notes t ≡ p.active_notes t

applied-stored :
    (note velocity : ℕ)
    → let s = applied_step note velocity in stored_velocity s.enabled s.velocity ≡ velocity
unfolding applied_step stored_velocity
applied-stored note velocity =
    if_cases {A = PatternStep}
      (λ (s : PatternStep). stored_velocity s.enabled s.velocity ≡ velocity) (ltb 0 velocity)
      (λ e. rw e refl) (λ e. grind arith)

-- A pattern that is applied to a controller is the one that the controller saves.
pub apply-create :
    (p : SequencerPersistentState) (c : SequencerController)
    → Same p (create_persistent_state (apply_persistent_state p c))
unfolding create_persistent_state apply_persistent_state
apply-create p c = record {
  velocities = λ t s a b.
      rw (lt→ltb _ _ a) (rw (lt→ltb _ _ b) (applied-stored (p.active_notes t) (p.velocities t s)));
  active_notes = λ t a. rw (lt→ltb _ _ a) refl;
}

length-values : (n : ℕ) (f : ℕ → ℕ) → length (values n f) ≡ n
unfolding values
length-values zero f = refl
length-values (suc n) f = ap suc (length-values n (λ i. f (suc i)))

get_or-values :
    (n i : ℕ) (f : ℕ → ℕ) (rest : List ℕ) → i < n → get_or (values n f ++ rest) i 0 ≡ f i
unfolding values
get_or-values zero i f rest h = absurd (omega arith)
get_or-values (suc n) zero f rest h = refl
get_or-values (suc n) (suc i) f rest h = get_or-values n i (λ i. f (suc i)) rest (omega arith)

at_suc : (n i : ℕ) → suc n + i ≡ suc (n + i)
at_suc n i = omega arith

the_track : (t s : ℕ) → s < num_steps → (t * num_steps + s) / num_steps ≡ t
the_track t s b = omega arith

the_step : (t s : ℕ) → s < num_steps → (t * num_steps + s) % num_steps ≡ s
the_step t s b = omega arith

get_or-past :
    (n i : ℕ) (f : ℕ → ℕ) (rest : List ℕ) → get_or (values n f ++ rest) (n + i) 0 ≡ get_or rest i 0
unfolding values
get_or-past zero i f rest = ap (λ j. get_or rest j 0) (omega arith)
get_or-past (suc n) i f rest =
    ap (λ j. get_or (f 0 ∷ (values n (λ i. f (suc i)) ++ rest)) j 0) (at_suc n i)
    ∙ get_or-past n i (λ i. f (suc i)) rest

-- The velocities and the notes are MIDI values.
pub record IsMidi (p : SequencerPersistentState) : Type 0 where
  pub velocities : (t s : ℕ) → t < num_tracks → s < num_steps → p.velocities t s < 128
  pub active_notes : (t : ℕ) → t < num_tracks → p.active_notes t < 128

encoded_velocity :
    (p : SequencerPersistentState) (rest : List ℕ) (t s : ℕ)
    → IsMidi p
    → t < num_tracks
    → s < num_steps
    → get_or
        (values 32 (λ i. p.velocities (i / num_steps) (i % num_steps) % 128) ++ rest)
        (t * num_steps + s)
        0
      ≡ p.velocities t s
encoded_velocity p rest t s m a b =
    get_or-values 32 (t * num_steps + s) _ rest (omega arith)
    ∙ rw (the_track t s b) (rw (the_step t s b) (mod-eq_of_lt (m.velocities t s a b)))

encoded_note :
    (p : SequencerPersistentState) (f : ℕ → ℕ) (t : ℕ)
    → IsMidi p
    → t < num_tracks
    → get_or (values 32 f ++ values num_tracks (λ t. p.active_notes t % 128)) (32 + t) 0
      ≡ p.active_notes t
encoded_note p f t m a =
    get_or-past 32 t f _
    ∙ ap (λ xs. get_or xs t 0) (sym (append-nil _))
    ∙ (get_or-values num_tracks t _ [] a ∙ mod-eq_of_lt (m.active_notes t a))

encode-length :
    (output_size : ℕ) (p : SequencerPersistentState)
    → payload_size ≤ output_size
    → length (encode_sequencer_state output_size p) ≡ payload_size
unfolding encode_sequencer_state values
encode-length output_size p h = rw (le→not-ltb _ _ h) refl

encode-full :
    (output_size : ℕ) (p : SequencerPersistentState)
    → payload_size ≤ output_size
    → encode_sequencer_state output_size p ≡ (
        values 32 (λ i. p.velocities (i / num_steps) (i % num_steps) % 128)
        ++ values num_tracks (λ t. p.active_notes t % 128))
unfolding encode_sequencer_state
encode-full output_size p h = rw (le→not-ltb _ _ h) refl

decoded-encode :
    (output_size : ℕ) (p : SequencerPersistentState)
    → payload_size ≤ output_size
    → IsMidi p
    → Same p (decoded (encode_sequencer_state output_size p))
unfolding decoded
decoded-encode output_size p h m = rw (encode-full output_size p h) (record {
  velocities = λ t s a b. rw (lt→ltb _ _ a) (rw (lt→ltb _ _ b) (encoded_velocity p _ t s m a b));
  active_notes = λ t a. rw (lt→ltb _ _ a) (encoded_note p _ t m a);
})

-- A state of MIDI values that is encoded into an output of at least 36 bytes takes 36 bytes and is
-- decoded as the same pattern with the same notes.
pub decode-encode :
    (output_size : ℕ) (p : SequencerPersistentState)
    → payload_size ≤ output_size
    → IsMidi p
    → (q : SequencerPersistentState) × ((decode_sequencer_state
            (encode_sequencer_state output_size p)
          ≡ some q)
        × Same p q)
unfolding decode_sequencer_state
decode-encode output_size p h m = (
  decoded (encode_sequencer_state output_size p),
  (rw (encode-length output_size p h) refl, decoded-encode output_size p h m),
)
