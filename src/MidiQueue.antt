-- ===== src/MidiQueue.antt =====
-- musin/midi/midi_output_queue.cpp and .h: the queue of outgoing MIDI messages, and beside it the
-- queue of the SysEx payloads that its markers stand for. The spin lock makes each operation a step
-- of its own. `sent` is what went to the MIDI library, the oldest first.
pub mod Invariant
pub mod Safety
pub mod History
pub mod Pending
pub mod Coalesce
pub mod Refinement
pub mod Drain
mod Tests
use drum_firmware.Base.{
  ◌||◌, ◌+◌, ◌++◌, ◌&&◌, not, length, ◌∷◌, ◌==◌, take, ltb, leb, true, some, none, if◌then◌else◌,
  false, [], Option, List, Bool, ℕ,
}

abbrev pub midi_queue_size : ℕ
midi_queue_size = 64

abbrev pub sysex_queue_size : ℕ
sysex_queue_size = 2

abbrev pub sysex_max_size : ℕ
sysex_max_size = 2048

abbrev pub min_interval_us : ℕ
min_interval_us = 960

-- `OutgoingMidiMessage`. A SysEx message in the queue is only a marker.
pub data Message : Type 0 where
  note_on : ℕ → ℕ → ℕ → Message
  note_off : ℕ → ℕ → ℕ → Message
  control_change : ℕ → ℕ → ℕ → Message
  pitch_bend : ℕ → ℕ → Message
  system_realtime : ℕ → Message
  system_exclusive : Message

-- What is handed to the MIDI library.
pub data Sent : Type 0 where
  plain : Message → Sent
  sysex : List ℕ → Sent

pub record Queues : Type 0 where
  pub messages : List Message
  pub payloads : List (List ℕ)
  pub last_send : Option ℕ
  pub sent : List Sent

abbrev pub behind : Message → Option (List Message) → Option (List Message)
behind m none = none
behind m (some ms) = some (m ∷ ms)

-- The loop over the queue: the first message for the same controller takes the new value.
unfoldable pub coalesce : ℕ → ℕ → ℕ → List Message → Option (List Message)
coalesce channel controller value [] = none
coalesce channel controller value (control_change c k v ∷ ms) =
    if c == channel && k == controller
    then some (control_change c k value ∷ ms)
    else behind (control_change c k v) (coalesce channel controller value ms)
coalesce channel controller value (m ∷ ms) = behind m (coalesce channel controller value ms)

unfoldable pub coalesced : Message → List Message → Option (List Message)
coalesced (control_change channel controller value) ms = coalesce channel controller value ms
coalesced _ ms = none

unfoldable pub push_back : Message → Queues → Bool × Queues
push_back m q =
    if ltb (length q.messages) midi_queue_size
    then (true, record q { messages = q.messages ++ m ∷ [] })
    else (false, q)

unfoldable pub enqueue_or : Message → Option (List Message) → Queues → Bool × Queues
enqueue_or m (some ms) q = (true, record q { messages = ms })
enqueue_or m none q = push_back m q

unfoldable pub enqueue_midi_message : Message → Queues → Bool × Queues
unfolding coalesced enqueue_or push_back
enqueue_midi_message m q = enqueue_or m (coalesced m q.messages) q

-- A null pointer is `none`.
unfoldable pub slot_of : Option (List ℕ) → List ℕ
slot_of none = []
slot_of (some payload) = take sysex_max_size payload

unfoldable pub enqueue_sysex_message : Option (List ℕ) → Queues → Bool × Queues
unfolding slot_of
enqueue_sysex_message payload q =
    if leb midi_queue_size (length q.messages) || leb sysex_queue_size (length q.payloads)
    then (false, q)
    else (
      true,
      record q {
        messages = q.messages ++ system_exclusive ∷ [];
        payloads = q.payloads ++ slot_of payload ∷ [];
      },
    )

abbrev pub is_paced : Message → Bool
is_paced (system_realtime _) = false
is_paced system_exclusive = false
is_paced _ = true

-- Whether the interval to the last paced message has passed.
abbrev pub is_due : Option ℕ → ℕ → Bool
is_due none now = true
is_due (some last) now = leb (last + min_interval_us) now

-- The message is out of the queue. `none` is a read of the front of an empty payload queue.
unfoldable pub send_front : Message → List Message → List (List ℕ) → ℕ → Queues → Option Queues
send_front system_exclusive ms [] sent_at q = none
send_front system_exclusive ms (p ∷ ps) sent_at q =
    some (record q { messages = ms; payloads = ps; sent = q.sent ++ sysex p ∷ [] })
send_front m ms ps sent_at q = some (record q {
  messages = ms;
  last_send = if is_paced m then some sent_at else q.last_send;
  sent = q.sent ++ plain m ∷ [];
})

unfoldable pub process_from : List Message → ℕ → ℕ → Queues → Option Queues
process_from [] now sent_at q = some q
process_from (m ∷ ms) now sent_at q =
    if not (is_paced m) || is_due q.last_send now
    then send_front m ms q.payloads sent_at q
    else some q

-- The clock is read for the test, and again after a paced message was sent.
unfoldable pub process_midi_output_queue : ℕ → ℕ → Queues → Option Queues
unfolding process_from send_front
process_midi_output_queue now sent_at q = process_from q.messages now sent_at q
