-- ===== src/MidiQueue/Safety.antt =====
-- The invariant holds in every state that producers and the sender reach, and the sender never reads
-- the front of an empty payload queue.
use drum_firmware.MidiQueue.Invariant.{
  process, enqueue_sysex-IsValid, enqueue_sysex, markers, start, marker, enqueue-IsValid, next,
  enqueue, Step, Reach, IsValid,
}
use drum_firmware.MidiQueue.{
  system_realtime, is_due, pitch_bend, is_paced, control_change, note_off, note_on,
  system_exclusive, Sent, send_front, process_midi_output_queue, process_from, Queues, Message,
}
use drum_firmware.Base.{
  ◌||◌, length, not, if_cases, ap, ◌∷◌, refl, none, ◌≡◌, some, arith, [], List, Option, ℕ,
}

-- A valid outcome: a state in which the invariant holds.
abbrev pub Sends : Option Queues → Type 0
Sends none = ⊥
Sends (some r) = IsValid r

-- A message that is no marker leaves the payloads alone.
popped-IsValid :
    (m : Message) (ms : List Message) (last : Option ℕ) (log : List Sent) (q : Queues)
    → marker m ≡ 0
    → q.messages ≡ m ∷ ms
    → IsValid q
    → IsValid (record q { messages = ms; last_send = last; sent = log })
popped-IsValid m ms last log q z e v = record {
  matched = omega (arith, ap markers e, v.matched, z);
  messages_fit = omega (arith, ap length e, v.messages_fit);
  payloads_fit = v.payloads_fit;
  slots_fit = v.slots_fit;
}

marked-IsValid :
    (ms : List Message) (ps : List (List ℕ)) (sent_at : ℕ) (q : Queues)
    → q.messages ≡ system_exclusive ∷ ms
    → q.payloads ≡ ps
    → IsValid q
    → Sends (send_front system_exclusive ms ps sent_at q)
unfolding send_front
marked-IsValid ms [] sent_at q e p v = omega (arith, ap markers e, ap length p, v.matched)
marked-IsValid ms (slot ∷ ps) sent_at q e p v = record {
  matched = omega (arith, ap markers e, ap length p, v.matched);
  messages_fit = omega (arith, ap length e, v.messages_fit);
  payloads_fit = omega (arith, ap length p, v.payloads_fit);
  slots_fit = (rw p at v.slots_fit).1;
}

pub send_front-Sends :
    (m : Message) (ms : List Message) (sent_at : ℕ) (q : Queues)
    → q.messages ≡ m ∷ ms
    → IsValid q
    → Sends (send_front m ms q.payloads sent_at q)
unfolding send_front
send_front-Sends (note_on a b c) ms sent_at q e v = popped-IsValid _ ms _ _ q refl e v
send_front-Sends (note_off a b c) ms sent_at q e v = popped-IsValid _ ms _ _ q refl e v
send_front-Sends (control_change a b c) ms sent_at q e v = popped-IsValid _ ms _ _ q refl e v
send_front-Sends (pitch_bend a b) ms sent_at q e v = popped-IsValid _ ms _ _ q refl e v
send_front-Sends (system_realtime a) ms sent_at q e v = popped-IsValid _ ms _ _ q refl e v
send_front-Sends system_exclusive ms sent_at q e v = marked-IsValid ms q.payloads sent_at q e refl v

process_from-Sends :
    (ms : List Message) (now sent_at : ℕ) (q : Queues)
    → q.messages ≡ ms
    → IsValid q
    → Sends (process_from ms now sent_at q)
unfolding process_from
process_from-Sends [] now sent_at q e v = v
process_from-Sends (m ∷ ms) now sent_at q e v =
    if_cases Sends (not (is_paced m) || is_due q.last_send now)
      (λ due. send_front-Sends m ms sent_at q e v) (λ early. v)

process-Sends :
    (now sent_at : ℕ) (q : Queues) → IsValid q → Sends (process_midi_output_queue now sent_at q)
unfolding process_midi_output_queue
process-Sends now sent_at q v = process_from-Sends q.messages now sent_at q refl v

pub Step-IsValid : {q r : Queues} → Step q r → IsValid q → IsValid r
Step-IsValid (enqueue m q e) v = enqueue-IsValid m q e v
Step-IsValid (enqueue_sysex payload q) v = enqueue_sysex-IsValid payload q v
Step-IsValid (process now sent_at {q} {r} e) v = rw e at (process-Sends now sent_at q v)

pub Reach-IsValid : {q r : Queues} → IsValid q → Reach q r → IsValid r
Reach-IsValid v start = v
Reach-IsValid v (next r s) = Step-IsValid s (Reach-IsValid v r)

abbrev pub empty_queues : Queues
empty_queues = record { messages = []; payloads = []; last_send = none; sent = [] }

pub empty-IsValid : IsValid empty_queues
empty-IsValid = record {
  matched = refl;
  messages_fit = omega arith;
  payloads_fit = omega arith;
  slots_fit = tt;
}

returned : (o : Option Queues) → Sends o → (r : Queues) × (o ≡ some r) × IsValid r
returned none v = absurd v
returned (some r) v = (r, refl, v)

-- In whatever order messages and SysEx payloads were enqueued and processed before: processing
-- returns, so there is a payload for each marker that it takes, and both queues and all payloads
-- stay within their sizes.
pub process_never_faults :
    (now sent_at : ℕ) (q : Queues)
    → Reach empty_queues q
    → (r : Queues) × (process_midi_output_queue now sent_at q ≡ some r) × IsValid r
process_never_faults now sent_at q reach =
    returned (process_midi_output_queue now sent_at q)
      (process-Sends now sent_at q (Reach-IsValid empty-IsValid reach))
