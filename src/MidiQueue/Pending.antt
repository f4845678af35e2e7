-- ===== src/MidiQueue/Pending.antt =====
-- What is still to be sent, as the queues of musin/midi/midi_output_queue.cpp grow.
use drum_firmware.MidiQueue.Invariant.{markers, marker}
use drum_firmware.MidiQueue.{
  system_realtime, pitch_bend, control_change, note_off, sysex, note_on, system_exclusive, plain,
  Message,
}
use drum_firmware.MidiQueue.History.{payload_count, pending}
use drum_firmware.Base.{refl, ap, arith, length, [], ◌≡◌, ◌∷◌, ◌++◌, List, ℕ}

pub pending-push :
    (m : Message) (ms : List Message) (ps : List (List ℕ))
    → marker m ≡ 0
    → markers ms ≡ length ps
    → pending (ms ++ m ∷ []) ps ≡ pending ms ps ++ plain m ∷ []
unfolding pending
pending-push (note_on a b c) [] ps z e = refl
pending-push (note_off a b c) [] ps z e = refl
pending-push (control_change a b c) [] ps z e = refl
pending-push (pitch_bend a b) [] ps z e = refl
pending-push (system_realtime a) [] ps z e = refl
pending-push system_exclusive [] ps z e = absurd (omega arith)
pending-push m (system_exclusive ∷ ms) [] z e = absurd (omega arith)
pending-push m (system_exclusive ∷ ms) (p ∷ ps) z e =
    ap (λ l. sysex p ∷ l) (pending-push m ms ps z (omega arith))
pending-push m (note_on a b c ∷ ms) ps z e =
    ap (λ l. plain (note_on a b c) ∷ l) (pending-push m ms ps z (omega arith))
pending-push m (note_off a b c ∷ ms) ps z e =
    ap (λ l. plain (note_off a b c) ∷ l) (pending-push m ms ps z (omega arith))
pending-push m (control_change a b c ∷ ms) ps z e =
    ap (λ l. plain (control_change a b c) ∷ l) (pending-push m ms ps z (omega arith))
pending-push m (pitch_bend a b ∷ ms) ps z e =
    ap (λ l. plain (pitch_bend a b) ∷ l) (pending-push m ms ps z (omega arith))
pending-push m (system_realtime a ∷ ms) ps z e =
    ap (λ l. plain (system_realtime a) ∷ l) (pending-push m ms ps z (omega arith))

pub pending-push_sysex :
    (p : List ℕ) (ms : List Message) (ps : List (List ℕ))
    → markers ms ≡ length ps
    → pending (ms ++ system_exclusive ∷ []) (ps ++ p ∷ []) ≡ pending ms ps ++ sysex p ∷ []
unfolding pending
pending-push_sysex p [] [] e = refl
pending-push_sysex p [] (_ ∷ _) e = absurd (omega arith)
pending-push_sysex p (system_exclusive ∷ ms) [] e = absurd (omega arith)
pending-push_sysex p (system_exclusive ∷ ms) (s ∷ ps) e =
    ap (λ l. sysex s ∷ l) (pending-push_sysex p ms ps (omega arith))
pending-push_sysex p (note_on a b c ∷ ms) ps e =
    ap (λ l. plain (note_on a b c) ∷ l) (pending-push_sysex p ms ps (omega arith))
pending-push_sysex p (note_off a b c ∷ ms) ps e =
    ap (λ l. plain (note_off a b c) ∷ l) (pending-push_sysex p ms ps (omega arith))
pending-push_sysex p (control_change a b c ∷ ms) ps e =
    ap (λ l. plain (control_change a b c) ∷ l) (pending-push_sysex p ms ps (omega arith))
pending-push_sysex p (pitch_bend a b ∷ ms) ps e =
    ap (λ l. plain (pitch_bend a b) ∷ l) (pending-push_sysex p ms ps (omega arith))
pending-push_sysex p (system_realtime a ∷ ms) ps e =
    ap (λ l. plain (system_realtime a) ∷ l) (pending-push_sysex p ms ps (omega arith))

-- The entry that a message becomes, in front of the rest.
pub pending-plain :
    (m : Message) (ms : List Message) (ps : List (List ℕ))
    → marker m ≡ 0
    → pending (m ∷ ms) ps ≡ plain m ∷ pending ms ps
unfolding pending
pending-plain (note_on a b c) ms ps z = refl
pending-plain (note_off a b c) ms ps z = refl
pending-plain (control_change a b c) ms ps z = refl
pending-plain (pitch_bend a b) ms ps z = refl
pending-plain (system_realtime a) ms ps z = refl
pending-plain system_exclusive ms ps z = absurd (omega arith)

-- The view has as many entries as the queue, and as many payloads.
pub pending-shape :
    (ms : List Message) (ps : List (List ℕ))
    → markers ms ≡ length ps
    → (length (pending ms ps) ≡ length ms) × (payload_count (pending ms ps) ≡ length ps)
unfolding pending
pending-shape [] ps e = omega (arith, e)
pending-shape (system_exclusive ∷ ms) [] e = absurd (omega arith)
pending-shape (system_exclusive ∷ ms) (p ∷ ps) e = omega (arith, pending-shape ms ps (omega arith))
pending-shape (note_on a b c ∷ ms) ps e = omega (arith, pending-shape ms ps (omega arith))
pending-shape (note_off a b c ∷ ms) ps e = omega (arith, pending-shape ms ps (omega arith))
pending-shape (control_change a b c ∷ ms) ps e = omega (arith, pending-shape ms ps (omega arith))
pending-shape (pitch_bend a b ∷ ms) ps e = omega (arith, pending-shape ms ps (omega arith))
pending-shape (system_realtime a ∷ ms) ps e = omega (arith, pending-shape ms ps (omega arith))
