-- ===== src/MidiQueue/Refinement.antt =====
-- The two queues of musin/midi/midi_output_queue.cpp implement the queue that their clients see.
use drum_firmware.MidiQueue.Pending.{pending-push_sysex, pending-push, pending-shape, pending-plain}
use drum_firmware.MidiQueue.Coalesce.{coalesce-PlaceTo, PlaceTo}
use drum_firmware.MidiQueue.{
  slot_of, system_realtime, pitch_bend, note_off, sysex, note_on, is_due, sysex_queue_size, plain,
  is_paced, control_change, system_exclusive, midi_queue_size, Sent, send_front, push_back,
  process_midi_output_queue, process_from, enqueue_sysex_message, enqueue_or, enqueue_midi_message,
  Queues, Message,
}
use drum_firmware.MidiQueue.History.{
  refuse, append_sysex, append, refuse_sysex, wait, replace, next_send, idle, deliver, processed,
  enqueue_sysex, process, may_send, enqueue, Spec, NoneWaits, IsSound, Operation, Deliveries,
  pending, view, run,
}
use drum_firmware.MidiQueue.Invariant.{markers, marker, IsValid}
use drum_firmware.Base.{
  ltb, leb→le, inr, inl, if_cases, ◌⊎◌, ◌≤◌, none, false, true, some, ◌||◌, not, Option, leb, Bool,
  refl, ap, arith, length, [], ◌≡◌, ◌∷◌, ◌++◌, List, ℕ, ◌∙◌,
}

-- A view with other entries to send.
with_todo :
    (v : Deliveries) {xs ys : List Sent} → xs ≡ ys → record v { todo = xs } ≡ record v { todo = ys }
with_todo v e = ap (λ (l : List Sent). record v { todo = l }) e

abbrev Answered : Queues → Operation → Bool × Queues → Type 0
Answered q op r = Spec (view q) (view r.1) (some r.0) op

push_back-Answered :
    (m : Message) (q : Queues)
    → marker m ≡ 0
    → IsValid q
    → NoneWaits m (pending q.messages q.payloads)
    → Answered q (enqueue m) (push_back m q)
unfolding push_back
push_back-Answered m q z v n =
    let shape = pending-shape q.messages q.payloads v.matched in
    if_cases (Answered q (enqueue m)) (ltb (length q.messages) midi_queue_size)
      (λ room.
        append m refl (with_todo (view q) (pending-push m q.messages q.payloads z v.matched))
          (ground (arith, shape)) n)
      (λ full. refuse m refl refl (ground (arith, shape)) n)

module _ (c k w : ℕ) where
  updated-Answered :
      (q : Queues) (o : Option (List Message))
      → PlaceTo c k w q.messages q.payloads o
      → IsValid q
      → Answered q (enqueue (control_change c k w)) (enqueue_or (control_change c k w) o q)
  unfolding enqueue_or
  updated-Answered q none u v = push_back-Answered (control_change c k w) q refl v u
  updated-Answered q (some ms) (xs, ys, old, f, g, a) v =
      replace xs ys c k old w refl f (with_todo (view q) g) a

enqueue-Answered :
    (m : Message) (q : Queues)
    → marker m ≡ 0
    → IsValid q
    → Answered q (enqueue m) (enqueue_midi_message m q)
unfolding enqueue_midi_message
enqueue-Answered (control_change c k w) q e v =
    updated-Answered c k w q _ (coalesce-PlaceTo c k w q.messages q.payloads v.matched) v
enqueue-Answered (note_on a b c) q e v = push_back-Answered (note_on a b c) q e v tt
enqueue-Answered (note_off a b c) q e v = push_back-Answered (note_off a b c) q e v tt
enqueue-Answered (pitch_bend a b) q e v = push_back-Answered (pitch_bend a b) q e v tt
enqueue-Answered (system_realtime a) q e v = push_back-Answered (system_realtime a) q e v tt
enqueue-Answered system_exclusive q e v = absurd (omega arith)

or-true : (a b : Bool) → (a || b) ≡ true → (a ≡ true) ⊎ (b ≡ true)
or-true true b e = inl refl
or-true false b e = inr e

full_cases :
    (x y : ℕ)
    → (leb midi_queue_size x || leb sysex_queue_size y) ≡ true
    → (midi_queue_size ≤ x) ⊎ (sysex_queue_size ≤ y)
full_cases x y e = elim (or-true (leb midi_queue_size x) (leb sysex_queue_size y) e) [
  | inl h ↦ inl (leb→le midi_queue_size x h)
  | inr h ↦ inr (leb→le sysex_queue_size y h)
]

enqueue_sysex-Answered :
    (payload : Option (List ℕ)) (q : Queues)
    → IsValid q
    → Answered q (enqueue_sysex payload) (enqueue_sysex_message payload q)
unfolding enqueue_sysex_message
enqueue_sysex-Answered payload q v =
    let shape = pending-shape q.messages q.payloads v.matched in
    if_cases (Answered q (enqueue_sysex payload))
      (leb midi_queue_size (length q.messages) || leb sysex_queue_size (length q.payloads))
      (λ full. refuse_sysex payload refl refl (rw (shape.0, shape.1) (full_cases _ _ full)))
      (λ room.
        append_sysex payload refl
          (with_todo (view q)
            (pending-push_sysex (slot_of payload) q.messages q.payloads v.matched))
          (ground (arith, shape)) (ground (arith, shape)))

-- A run that returns: a fault does not.
abbrev Returned : Operation → Queues → Option (Option Bool × Queues) → Type 0
Returned op q none = ⊥
Returned op q (some (a, r)) = Spec (view q) (view r) a op

plain-Returned :
    (m : Message) (ms : List Message) (now sent_at : ℕ) (q : Queues)
    → marker m ≡ 0
    → may_send (plain m) q.last_send now ≡ true
    → q.messages ≡ m ∷ ms
    → Spec
        (view q)
        (record {
          sent = q.sent ++ plain m ∷ [];
          todo = pending ms q.payloads;
          last_send = next_send (plain m) q.last_send sent_at;
        })
        none
        (process now sent_at)
plain-Returned m ms now sent_at q z due e =
    deliver now sent_at (plain m) (pending ms q.payloads) refl
      (ap (λ l. pending l q.payloads) e ∙ pending-plain m ms q.payloads z) due refl

marked-Returned :
    (ms : List Message) (ps : List (List ℕ)) (now sent_at : ℕ) (q : Queues)
    → q.messages ≡ system_exclusive ∷ ms
    → q.payloads ≡ ps
    → IsValid q
    → Returned (process now sent_at) q (processed (send_front system_exclusive ms ps sent_at q))
unfolding send_front pending
marked-Returned ms [] now sent_at q e p v = omega (arith, ap markers e, ap length p, v.matched)
marked-Returned ms (slot ∷ ps) now sent_at q e p v =
    deliver now sent_at (sysex slot) (pending ms ps) refl
      (ap (λ l. pending l q.payloads) e ∙ ap (λ l. pending (system_exclusive ∷ ms) l) p) refl refl

send_front-Returned :
    (m : Message) (ms : List Message) (now sent_at : ℕ) (q : Queues)
    → (not (is_paced m) || is_due q.last_send now) ≡ true
    → q.messages ≡ m ∷ ms
    → IsValid q
    → Returned (process now sent_at) q (processed (send_front m ms q.payloads sent_at q))
unfolding send_front
send_front-Returned (note_on a b c) ms now t q d e v = plain-Returned _ ms now t q refl d e
send_front-Returned (note_off a b c) ms now t q d e v = plain-Returned _ ms now t q refl d e
send_front-Returned (control_change a b c) ms now t q d e v = plain-Returned _ ms now t q refl d e
send_front-Returned (pitch_bend a b) ms now t q d e v = plain-Returned _ ms now t q refl d e
send_front-Returned (system_realtime a) ms now t q d e v = plain-Returned _ ms now t q refl d e
send_front-Returned system_exclusive ms now t q d e v =
    marked-Returned ms q.payloads now t q e refl v

early-plain : (m : Message) (due : Bool) → (not (is_paced m) || due) ≡ false → marker m ≡ 0
early-plain (note_on a b c) due e = refl
early-plain (note_off a b c) due e = refl
early-plain (control_change a b c) due e = refl
early-plain (pitch_bend a b) due e = refl
early-plain (system_realtime a) due e = refl
early-plain system_exclusive due e = cc

process_from-Returned :
    (ms : List Message) (now sent_at : ℕ) (q : Queues)
    → q.messages ≡ ms
    → IsValid q
    → Returned (process now sent_at) q (processed (process_from ms now sent_at q))
unfolding process_from pending
process_from-Returned [] now sent_at q e v =
    idle now sent_at refl refl (ap (λ l. pending l q.payloads) e)
process_from-Returned (m ∷ ms) now sent_at q e v =
    if_cases (λ (o : Option Queues). Returned (process now sent_at) q (processed o))
      (not (is_paced m) || is_due q.last_send now)
      (λ due. send_front-Returned m ms now sent_at q due e v)
      (λ early.
        wait now sent_at (plain m) (pending ms q.payloads) refl refl
          (ap (λ l. pending l q.payloads) e
            ∙ pending-plain m ms q.payloads (early-plain m (is_due q.last_send now) early))
          early)

run-Returned : (op : Operation) (q : Queues) → IsSound op → IsValid q → Returned op q (run op q)
unfolding run process_midi_output_queue
run-Returned (enqueue m) q e v = enqueue-Answered m q e v
run-Returned (enqueue_sysex payload) q e v = enqueue_sysex-Answered payload q v
run-Returned (process now sent_at) q e v = process_from-Returned q.messages now sent_at q refl v

outcome :
    (op : Operation) (q : Queues) (o : Option (Option Bool × Queues))
    → Returned op q o
    → (answer : Option Bool) × (r : Queues) × (o ≡ some (answer, r))
      × Spec (view q) (view r) answer op
outcome op q none s = absurd s
outcome op q (some (answer, r)) s = (answer, r, refl, s)

-- From a valid state every operation returns, and does to what is still to be sent what it is for. A
-- message that is no SysEx marker goes to the end; but where a value of its controller waits, the
-- first such value is replaced where it stands, and otherwise it is refused where there are 64 entries.
-- A SysEx payload goes to the end, cut to the size of a slot, and is refused where there are 64 entries
-- or two payloads. Processing delivers the first entry, if its pacing allows, with the time of the last
-- paced message set anew after a paced one. What was enqueued is answered true, what was refused false.
pub run-Spec :
    (op : Operation) (q : Queues)
    → IsSound op
    → IsValid q
    → (answer : Option Bool) × (r : Queues) × (run op q ≡ some (answer, r))
      × Spec (view q) (view r) answer op
run-Spec op q e v = outcome op q (run op q) (run-Returned op q e v)
