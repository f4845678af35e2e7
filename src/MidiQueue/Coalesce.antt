-- ===== src/MidiQueue/Coalesce.antt =====
-- The loop of musin/midi/midi_output_queue.cpp that looks for a value of the same controller.
use drum_firmware.MidiQueue.Invariant.{markers}
use drum_firmware.MidiQueue.{
  system_exclusive, system_realtime, pitch_bend, note_off, note_on, sysex, control_change, behind,
  plain, coalesce, Sent, Message,
}
use drum_firmware.MidiQueue.History.{pending, IsOther}
use drum_firmware.Base.{
  ==→eq, none, and-true, some, if_cases, true, false, All, ◌&&◌, Option, ◌==◌, refl, ap, arith,
  length, [], ◌≡◌, ◌∷◌, ◌++◌, List, ℕ, ◌∙◌,
}

-- Where the first value of a controller stands.
module _ (c k w : ℕ) where
  abbrev pub Place : List Sent → List Sent → Type 0
  Place before behind =
      (xs ys : List Sent) × (v : ℕ) × (before ≡ xs ++ plain (control_change c k v) ∷ ys)
      × (behind ≡ xs ++ plain (control_change c k w) ∷ ys)
      × All (IsOther c k) xs

  abbrev pub PlaceTo : List Message → List (List ℕ) → Option (List Message) → Type 0
  PlaceTo ms ps none = All (IsOther c k) (pending ms ps)
  PlaceTo ms ps (some ns) = Place (pending ms ps) (pending ns ps)

  behind-PlaceTo :
      (m : Message) (s : Sent) (ms : List Message) (ps qs : List (List ℕ))
      → ((ns : List Message) → pending (m ∷ ns) ps ≡ s ∷ pending ns qs)
      → IsOther c k s
      → (o : Option (List Message)) → PlaceTo ms qs o
      → PlaceTo (m ∷ ms) ps (behind m o)
  behind-PlaceTo m s ms ps qs e i none u = rw (e ms) (i, u)
  behind-PlaceTo m s ms ps qs e i (some ns) (xs, ys, v, f, g, a) =
      (s ∷ xs, ys, v, e ms ∙ ap (λ l. s ∷ l) f, e ns ∙ ap (λ l. s ∷ l) g, (i, a))

  here-Place :
      (d l v : ℕ) (ms : List Message) (ps : List (List ℕ))
      → (d == c && l == k) ≡ true
      → PlaceTo (control_change d l v ∷ ms) ps (some (control_change d l w ∷ ms))
  unfolding pending
  here-Place d l v ms ps e =
      let both = and-true (d == c) (l == k) e in
      rw (==→eq d c both.0, ==→eq l k both.1) ([], pending ms ps, v, refl, refl, tt)

  other : (d l : ℕ) → (d == c && l == k) ≡ false → ¬ ((d ≡ c) × (l ≡ k))
  other d l e h = ground (arith, h)

  pub coalesce-PlaceTo :
      (ms : List Message) (ps : List (List ℕ))
      → markers ms ≡ length ps
      → PlaceTo ms ps (coalesce c k w ms)
  unfolding coalesce pending
  coalesce-PlaceTo [] ps e = tt
  coalesce-PlaceTo (control_change d l v ∷ ms) ps e =
      let rest = coalesce-PlaceTo ms ps (omega arith) in
      if_cases (PlaceTo (control_change d l v ∷ ms) ps) (d == c && l == k)
        (λ f. here-Place d l v ms ps f)
        (λ f.
          behind-PlaceTo _ (plain (control_change d l v)) ms ps ps (λ ns. refl) (other d l f) _
            rest)
  coalesce-PlaceTo (system_exclusive ∷ ms) [] e = absurd (omega arith)
  coalesce-PlaceTo (system_exclusive ∷ ms) (p ∷ ps) e =
      behind-PlaceTo _ (sysex p) ms (p ∷ ps) ps (λ ns. refl) tt _
        (coalesce-PlaceTo ms ps (omega arith))
  coalesce-PlaceTo (note_on a b d ∷ ms) ps e =
      behind-PlaceTo _ (plain (note_on a b d)) ms ps ps (λ ns. refl) tt _
        (coalesce-PlaceTo ms ps (omega arith))
  coalesce-PlaceTo (note_off a b d ∷ ms) ps e =
      behind-PlaceTo _ (plain (note_off a b d)) ms ps ps (λ ns. refl) tt _
        (coalesce-PlaceTo ms ps (omega arith))
  coalesce-PlaceTo (pitch_bend a b ∷ ms) ps e =
      behind-PlaceTo _ (plain (pitch_bend a b)) ms ps ps (λ ns. refl) tt _
        (coalesce-PlaceTo ms ps (omega arith))
  coalesce-PlaceTo (system_realtime a ∷ ms) ps e =
      behind-PlaceTo _ (plain (system_realtime a)) ms ps ps (λ ns. refl) tt _
        (coalesce-PlaceTo ms ps (omega arith))
