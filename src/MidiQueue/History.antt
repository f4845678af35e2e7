-- ===== src/MidiQueue/History.antt =====
-- The queue as its clients see it: what was sent, and what is still to be sent, each SysEx payload where
-- its marker stands; and what an operation may do to it.
use drum_firmware.MidiQueue.{
  slot_of, sysex_queue_size, is_due, is_paced, midi_queue_size, enqueue_sysex_message,
  enqueue_midi_message, process_midi_output_queue, control_change, system_exclusive, plain, sysex,
  Sent, Queues, Message,
}
use drum_firmware.MidiQueue.Invariant.{marker}
use drum_firmware.Base.{
  ◌⊎◌, ◌≤◌, false, ◌<◌, ◌+◌, true, if◌then◌else◌, ◌||◌, none, some, not, Option, Bool, length, [],
  ◌≡◌, ◌∷◌, ◌++◌, List, ℕ, All,
}

-- The messages of the queue with the payloads that their markers stand for.
unfoldable pub pending : List Message → List (List ℕ) → List Sent
pending [] ps = []
pending (system_exclusive ∷ ms) [] = pending ms []
pending (system_exclusive ∷ ms) (p ∷ ps) = sysex p ∷ pending ms ps
pending (m ∷ ms) ps = plain m ∷ pending ms ps

pub record Deliveries : Type 0 where
  pub sent : List Sent
  pub todo : List Sent
  pub last_send : Option ℕ

abbrev pub view : Queues → Deliveries
view q = record { sent = q.sent; todo = pending q.messages q.payloads; last_send = q.last_send }

pub data Operation : Type 0 where
  enqueue : (m : Message) → Operation
  enqueue_sysex : (payload : Option (List ℕ)) → Operation
  process : (now sent_at : ℕ) → Operation

abbrev pub processed : Option Queues → Option (Option Bool × Queues)
processed none = none
processed (some r) = some (none, r)

-- The answer of an operation, where it has one, and the queues after it.
unfoldable pub run : Operation → Queues → Option (Option Bool × Queues)
unfolding enqueue_midi_message enqueue_sysex_message process_midi_output_queue
run (enqueue m) q = let r = enqueue_midi_message m q in some (some r.0, r.1)
run (enqueue_sysex payload) q = let r = enqueue_sysex_message payload q in some (some r.0, r.1)
run (process now sent_at) q = processed (process_midi_output_queue now sent_at q)

-- A marker is enqueued with its payload only.
abbrev pub IsSound : Operation → Type 0
IsSound (enqueue m) = marker m ≡ 0
IsSound _ = Unit

-- An entry that is no value of the controller.
abbrev pub IsOther : ℕ → ℕ → Sent → Type 0
IsOther channel controller (plain (control_change c k v)) = ¬ ((c ≡ channel) × (k ≡ controller))
IsOther channel controller _ = Unit

abbrev pub NoneWaits : Message → List Sent → Type 0
NoneWaits (control_change channel controller v) todo = All (IsOther channel controller) todo
NoneWaits _ todo = Unit

abbrev pub payload_count : List Sent → ℕ
payload_count [] = 0
payload_count (plain m ∷ ss) = payload_count ss
payload_count (sysex p ∷ ss) = 1 + payload_count ss

-- Whether an entry may be sent, and the time of the last paced message after it.
abbrev pub may_send : Sent → Option ℕ → ℕ → Bool
may_send (plain m) last now = not (is_paced m) || is_due last now
may_send (sysex p) last now = true

abbrev pub next_send : Sent → Option ℕ → ℕ → Option ℕ
next_send (plain m) last sent_at = if is_paced m then some sent_at else last
next_send (sysex p) last sent_at = last

-- The specification of each operation, from one view to the next, with its answer.
pub data Spec (v w : Deliveries) (answer : Option Bool) : Operation → Type 0 where
  append :
      (m : Message)
      → answer ≡ some true
      → w ≡ record v { todo = v.todo ++ plain m ∷ [] }
      → length v.todo < midi_queue_size
      → NoneWaits m v.todo
      → Spec v w answer (enqueue m)
  refuse :
      (m : Message)
      → answer ≡ some false
      → w ≡ v
      → midi_queue_size ≤ length v.todo
      → NoneWaits m v.todo
      → Spec v w answer (enqueue m)
  replace :
      (xs ys : List Sent) (channel controller old new : ℕ)
      → answer ≡ some true
      → v.todo ≡ xs ++ plain (control_change channel controller old) ∷ ys
      → w ≡ record v { todo = xs ++ plain (control_change channel controller new) ∷ ys }
      → All (IsOther channel controller) xs
      → Spec v w answer (enqueue (control_change channel controller new))
  append_sysex :
      (payload : Option (List ℕ))
      → answer ≡ some true
      → w ≡ record v { todo = v.todo ++ sysex (slot_of payload) ∷ [] }
      → length v.todo < midi_queue_size
      → payload_count v.todo < sysex_queue_size
      → Spec v w answer (enqueue_sysex payload)
  refuse_sysex :
      (payload : Option (List ℕ))
      → answer ≡ some false
      → w ≡ v
      → (midi_queue_size ≤ length v.todo) ⊎ (sysex_queue_size ≤ payload_count v.todo)
      → Spec v w answer (enqueue_sysex payload)
  idle :
      (now sent_at : ℕ)
      → answer ≡ none
      → w ≡ v
      → v.todo ≡ []
      → Spec v w answer (process now sent_at)
  wait :
      (now sent_at : ℕ) (s : Sent) (rest : List Sent)
      → answer ≡ none
      → w ≡ v
      → v.todo ≡ s ∷ rest
      → may_send s v.last_send now ≡ false
      → Spec v w answer (process now sent_at)
  deliver :
      (now sent_at : ℕ) (s : Sent) (rest : List Sent)
      → answer ≡ none
      → v.todo ≡ s ∷ rest
      → may_send s v.last_send now ≡ true
      → w ≡ record {
        sent = v.sent ++ s ∷ [];
        todo = rest;
        last_send = next_send s v.last_send sent_at;
      }
      → Spec v w answer (process now sent_at)
