-- ===== src/Sequencer/Controller/Silence.antt =====
-- The notes that drum/sequencer_controller.cpp leaves on.
use mathlib.Core.Option.{some-injective}
use drum_firmware.Base.{
  ap, ◌∙◌, eq_self, sym, inr, inl, and-true, ◌⊎◌, ==→eq, refl, arith, [], ltb, ◌&&◌, ◌==◌, none,
  if◌then◌else◌, ◌∷◌, true, some, false, Bool, ◌≢◌, ◌≡◌, if_cases, Option, List, ℕ,
}
use drum_firmware.Sequencer.Controller.{
  notify, SequencerController, TrackState, NoteEvent, TempoEvent, set_track, note_off, forget_note,
  silence_track, other_off, trigger_note_on, trigger_note_off, stop, stop_note,
}
pub mod Operations
pub mod Asked
pub mod Reached
pub mod Stopped

-- Whether the newest event for a note of a track turned it on.
unfoldable pub is_on : ℕ → ℕ → List NoteEvent → Bool
is_on t n [] = false
is_on t n (e ∷ es) = if e.track_index == t && e.note == n then ltb 0 e.velocity else is_on t n es

-- A note that is on is the last one that its track has played.
unfoldable pub Tracked : SequencerController → Type 0
Tracked c = (t n : ℕ) → is_on t n c.notified ≡ true → (c.track_states t).last_played_note ≡ some n

-- No note of the track is on, but perhaps one.
unfoldable pub QuietBut : ℕ → ℕ → SequencerController → Type 0
QuietBut track note c = (n : ℕ) → n ≢ note → is_on track n c.notified ≡ false

unfoldable pub Quiet : ℕ → SequencerController → Type 0
Quiet track c = (n : ℕ) → is_on track n c.notified ≡ false

pub unheard : (b : Bool) → (b ≡ true → b ≡ false) → b ≡ false
unheard true h = h refl
unheard false h = refl

pub off_is_off :
    (track note t n : ℕ) (es : List NoteEvent)
    → is_on t n (record { track_index = track; note = note; velocity = 0 } ∷ es) ≡ true
    → is_on t n es ≡ true
unfolding is_on
off_is_off track note t n es h =
    if_cases {A = Bool} (λ (b : Bool). b ≡ true → is_on t n es ≡ true) (track == t && note == n)
      (λ e k. grind arith) (λ e k. k) h

pub note_off-Tracked :
    (track : ℕ) (last : Option ℕ) (c : SequencerController)
    → Tracked c
    → Tracked (note_off track last c)
unfolding note_off Tracked
note_off-Tracked track none c v t n h = v t n h
note_off-Tracked track (some note) c v t n h = v t n (off_is_off track note t n c.notified h)

pub note_off-Quiet :
    (track : ℕ) (last : Option ℕ) (c : SequencerController)
    → Tracked c
    → (c.track_states track).last_played_note ≡ last
    → Quiet track (note_off track last c)
unfolding note_off Tracked Quiet is_on
note_off-Quiet track none c v e n = unheard _ (λ h. grind (arith, v track n h))
note_off-Quiet track (some note) c v e n =
    if_cases {A = Bool} (λ (b : Bool). b ≡ false) (track == track && note == n) (λ k. refl)
      (λ k. unheard _ (λ h. grind (arith, v track n h)))

pub set_track-Tracked :
    (track : ℕ) (s : TrackState) (c : SequencerController)
    → Tracked c
    → Quiet track c
    → Tracked (set_track track s c)
unfolding Tracked Quiet set_track
set_track-Tracked track s c v q t n h =
    if_cases {A = TrackState} (λ (s : TrackState). s.last_played_note ≡ some n) (t == track)
      (λ e. grind (arith, q n, ==→eq _ _ e)) (λ e. v t n h)

-- A note that is on is that of the newest event, or was on before it.
newest :
    (track note velocity t n : ℕ) (es : List NoteEvent)
    → is_on t n (record { track_index = track; note = note; velocity = velocity } ∷ es) ≡ true
    → ((track ≡ t) × (note ≡ n)) ⊎ (is_on t n es ≡ true)
unfolding is_on
newest track note velocity t n es h =
    if_cases {A = Bool}
      (λ (b : Bool). b ≡ true → ((track ≡ t) × (note ≡ n)) ⊎ (is_on t n es ≡ true))
      (track == t && note == n)
      (λ e k. let b = and-true _ _ e in inl (==→eq _ _ b.0, ==→eq _ _ b.1)) (λ e k. inr k) h

only_note :
    (track note n : ℕ) (c : SequencerController)
    → QuietBut track note c
    → is_on track n c.notified ≡ true
    → n ≡ note
unfolding QuietBut
only_note track note n c q h = grind (arith, q n)

played_note :
    (track note t n : ℕ) (s : TrackState) (c : SequencerController)
    → Tracked c
    → QuietBut track note c
    → s.last_played_note ≡ some note
    → ((track ≡ t) × (note ≡ n)) ⊎ (is_on t n c.notified ≡ true)
    → ((set_track track s c).track_states t).last_played_note ≡ some n
unfolding Tracked QuietBut set_track
played_note track note t n s c v q l (inl p) = rw (sym p.0) (rw (eq_self track) (l ∙ ap some p.1))
played_note track note t n s c v q l (inr h) =
    if_cases {A = TrackState} (λ (s : TrackState). s.last_played_note ≡ some n) (t == track)
      (λ e. l ∙ ap some (sym (only_note track note n c q (rw⁻¹ (==→eq _ _ e) h)))) (λ e. v t n h)

pub played-Tracked :
    (track note velocity : ℕ) (s : TrackState) (c : SequencerController)
    → Tracked c
    → QuietBut track note c
    → s.last_played_note ≡ some note
    → Tracked (set_track track s (notify track note velocity c))
unfolding Tracked set_track
played-Tracked track note velocity s c v q l t n h =
    played_note track note t n s c v q l (newest track note velocity t n c.notified h)

pub silence_track-Quiet :
    (track : ℕ) (c : SequencerController) → Tracked c → Quiet track (silence_track track c)
unfolding silence_track forget_note set_track Quiet
silence_track-Quiet track c v n = note_off-Quiet track _ c v refl n

pub silence_track-Tracked :
    (track : ℕ) (c : SequencerController) → Tracked c → Tracked (silence_track track c)
unfolding silence_track forget_note
silence_track-Tracked track c v =
    set_track-Tracked track _ _ (note_off-Tracked track _ c v) (note_off-Quiet track _ c v refl)

other_off-Tracked :
    (track note : ℕ) (last : Option ℕ) (c : SequencerController)
    → Tracked c
    → (c.track_states track).last_played_note ≡ last
    → Tracked (other_off track note last c) × QuietBut track note (other_off track note last c)
unfolding other_off note_off QuietBut Quiet Tracked
other_off-Tracked track note none c v e = (v, λ n d. unheard _ (λ h. grind (arith, v track n h)))
other_off-Tracked track note (some m) c v e =
    if_cases {A = SequencerController}
      (λ (d : SequencerController). Tracked d × QuietBut track note d) (m == note)
      (λ b. (
        v,
        λ n d.
            unheard _
              (λ h. absurd (d (some-injective _ _ (sym (v track n h) ∙ e) ∙ ==→eq m note b))),
      ))
      (λ b. (note_off-Tracked track (some m) c v, λ n d. note_off-Quiet track (some m) c v e n))

pub trigger_note_on-Tracked :
    (track note velocity : ℕ) (c : SequencerController)
    → Tracked c
    → Tracked (trigger_note_on track note velocity c)
unfolding trigger_note_on
trigger_note_on-Tracked track note velocity c v =
    let o = other_off-Tracked track note _ c v refl in
    played-Tracked track note velocity _ _ o.0 o.1 refl
