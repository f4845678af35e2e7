-- ===== src/MidiQueue/Drain.antt =====
-- Calls that are far enough apart empty the queue.
use drum_firmware.MidiQueue.Safety
use drum_firmware.MidiQueue.Invariant.{IsValid}
use drum_firmware.MidiQueue.{is_due, Queues, Message, process_midi_output_queue}
use drum_firmware.Base.{◌≤◌, [], true, none, ◌≡◌, some, ◌∷◌, Option, List, ℕ}

-- The two readings of the clock in a round, for the test and after the send.
pub record Round : Type 0 where
  pub now : ℕ
  pub sent_at : ℕ

-- The rounds of the main loop.
unfoldable pub rounds : List Round → Queues → Option Queues
unfolding process_midi_output_queue
rounds [] q = some q
rounds (t ∷ ts) q = elim (process_midi_output_queue t.now t.sent_at q) [
  | none ↦ none
  | some r ↦ rounds ts r
]

-- The clock does not go back in a round, and each round begins late enough for a paced message after
-- the last reading of the one before.
abbrev pub IsSpaced : Option ℕ → List Round → Type 0
IsSpaced last [] = Unit
IsSpaced last (t ∷ ts) =
    (is_due last t.now ≡ true) × (t.now ≤ t.sent_at) × IsSpaced (some t.sent_at) ts

-- One message is sent, and the next is due at all the times that are left.
abbrev Sends : List Message → List Round → Option Queues → Type 0
Sends ms ts none = ⊥
Sends ms ts (some r) = (r.messages ≡ ms) × IsSpaced r.last_send ts × IsValid r

abbrev Stays : List Message → List Round → Option Queues → Type 0
Stays ms ts none = Unit
Stays ms ts (some r) = (r.messages ≡ ms) × IsSpaced r.last_send ts

abbrev Drained : Option Queues → Type 0
Drained o = (r : Queues) × (o ≡ some r) × (r.messages ≡ [])
