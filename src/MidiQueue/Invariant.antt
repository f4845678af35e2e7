-- ===== src/MidiQueue/Invariant.antt =====
-- The markers in the queue and the payloads beside it belong together.
use drum_firmware.MidiQueue.{
  system_realtime, sysex_queue_size, pitch_bend, sysex_max_size, note_off, midi_queue_size,
  process_midi_output_queue, note_on, behind, system_exclusive, control_change, slot_of, push_back,
  enqueue_sysex_message, enqueue_or, enqueue_midi_message, coalesce, Queues, Message,
}
use drum_firmware.Base.{
  ltb→lt, All-append, ◌||◌, length-append, All, ==→eq, ltb, length-take, leb, and-true, true, refl,
  none, [], Bool, ◌≤◌, ◌+◌, ◌&&◌, some, if_cases, arith, ◌≡◌, ◌∷◌, ◌==◌, ◌++◌, length, Option, List,
  ℕ,
}

abbrev pub marker : Message → ℕ
marker system_exclusive = 1
marker _ = 0

abbrev pub markers : List Message → ℕ
markers [] = 0
markers (m ∷ ms) = marker m + markers ms

pub record IsValid (q : Queues) : Type 0 where
  pub matched : markers q.messages ≡ length q.payloads
  pub messages_fit : length q.messages ≤ midi_queue_size
  pub payloads_fit : length q.payloads ≤ sysex_queue_size
  pub slots_fit : All (λ p. length p ≤ sysex_max_size) q.payloads

pub markers-append : (xs ys : List Message) → markers (xs ++ ys) ≡ markers xs + markers ys
markers-append [] ys = omega arith
markers-append (x ∷ xs) ys = omega (arith, markers-append xs ys)

-- One message for the controller takes the new value where it stands.
pub data Updates (channel controller value : ℕ) : List Message → List Message → Type 0 where
  here :
      (v : ℕ) (ms : List Message)
      → Updates channel controller value
          (control_change channel controller v ∷ ms)
          (control_change channel controller value ∷ ms)
  there :
      (m : Message) {ms ns : List Message}
      → Updates channel controller value ms ns
      → Updates channel controller value (m ∷ ms) (m ∷ ns)

module _ (channel controller value : ℕ) where
  abbrev pub UpdatesTo : List Message → Option (List Message) → Type 0
  UpdatesTo ms none = Unit
  UpdatesTo ms (some ns) = Updates channel controller value ms ns

  behind-UpdatesTo :
      (m : Message) (ms : List Message) (o : Option (List Message))
      → UpdatesTo ms o
      → UpdatesTo (m ∷ ms) (behind m o)
  behind-UpdatesTo m ms none u = tt
  behind-UpdatesTo m ms (some ns) u = there m u

  here_at :
      (c k v : ℕ) (ms : List Message)
      → (c == channel && k == controller) ≡ true
      → Updates channel controller value (control_change c k v ∷ ms) (control_change c k value ∷ ms)
  here_at c k v ms e =
      let both = and-true (c == channel) (k == controller) e in
      rw (==→eq c channel both.0, ==→eq k controller both.1) (here v ms)

  pub coalesce-UpdatesTo : (ms : List Message) → UpdatesTo ms (coalesce channel controller value ms)
  unfolding coalesce
  coalesce-UpdatesTo [] = tt
  coalesce-UpdatesTo (control_change c k v ∷ ms) =
      if_cases (UpdatesTo (control_change c k v ∷ ms)) (c == channel && k == controller)
        (λ e. here_at c k v ms e)
        (λ e. behind-UpdatesTo (control_change c k v) ms _ (coalesce-UpdatesTo ms))
  coalesce-UpdatesTo (note_on a b c ∷ ms) = behind-UpdatesTo _ ms _ (coalesce-UpdatesTo ms)
  coalesce-UpdatesTo (note_off a b c ∷ ms) = behind-UpdatesTo _ ms _ (coalesce-UpdatesTo ms)
  coalesce-UpdatesTo (pitch_bend a b ∷ ms) = behind-UpdatesTo _ ms _ (coalesce-UpdatesTo ms)
  coalesce-UpdatesTo (system_realtime a ∷ ms) = behind-UpdatesTo _ ms _ (coalesce-UpdatesTo ms)
  coalesce-UpdatesTo (system_exclusive ∷ ms) = behind-UpdatesTo _ ms _ (coalesce-UpdatesTo ms)

  pub Updates-shape :
      {ms ns : List Message}
      → Updates channel controller value ms ns
      → (length ns ≡ length ms) × (markers ns ≡ markers ms)
  Updates-shape (here v ms) = (refl, refl)
  Updates-shape (there m u) = omega (arith, Updates-shape u)

-- What a producer or the sender does to the queues.
pub data Step : Queues → Queues → Type 0 where
  enqueue : (m : Message) (q : Queues) → marker m ≡ 0 → Step q (enqueue_midi_message m q).1
  enqueue_sysex :
      (payload : Option (List ℕ)) (q : Queues) → Step q (enqueue_sysex_message payload q).1
  process :
      (now sent_at : ℕ) {q r : Queues} → process_midi_output_queue now sent_at q ≡ some r → Step q r

pub data Reach (q : Queues) : Queues → Type 0 where
  start : Reach q q
  next : {r s : Queues} → Reach q r → Step r s → Reach q s

push_back-IsValid :
    (m : Message) (q : Queues) → marker m ≡ 0 → IsValid q → IsValid (push_back m q).1
unfolding push_back
push_back-IsValid m q e v =
    if_cases (λ (r : Bool × Queues). IsValid r.1) (ltb (length q.messages) midi_queue_size)
      (λ room. record {
        matched = omega (arith, v.matched, markers-append q.messages (m ∷ []), e);
        messages_fit = omega (
          arith,
          length-append q.messages (m ∷ []),
          ltb→lt (length q.messages) midi_queue_size room,
        );
        payloads_fit = v.payloads_fit;
        slots_fit = v.slots_fit;
      })
      (λ full. v)

updated-IsValid :
    (channel controller value : ℕ) (q : Queues) (o : Option (List Message))
    → UpdatesTo channel controller value q.messages o
    → IsValid q
    → IsValid (enqueue_or (control_change channel controller value) o q).1
unfolding enqueue_or
updated-IsValid ch co w q none u v = push_back-IsValid (control_change ch co w) q refl v
updated-IsValid ch co w q (some ms) u v =
    let shape = Updates-shape ch co w u in
    record {
      matched = omega (arith, shape.1, v.matched);
      messages_fit = omega (arith, shape.0, v.messages_fit);
      payloads_fit = v.payloads_fit;
      slots_fit = v.slots_fit;
    }

pub enqueue-IsValid :
    (m : Message) (q : Queues) → marker m ≡ 0 → IsValid q → IsValid (enqueue_midi_message m q).1
unfolding enqueue_midi_message
enqueue-IsValid (control_change c k w) q e v =
    updated-IsValid c k w q _ (coalesce-UpdatesTo c k w q.messages) v
enqueue-IsValid (note_on a b c) q e v = push_back-IsValid (note_on a b c) q e v
enqueue-IsValid (note_off a b c) q e v = push_back-IsValid (note_off a b c) q e v
enqueue-IsValid (pitch_bend a b) q e v = push_back-IsValid (pitch_bend a b) q e v
enqueue-IsValid (system_realtime a) q e v = push_back-IsValid (system_realtime a) q e v
enqueue-IsValid system_exclusive q e v = absurd (omega arith)

slot_fits : (payload : Option (List ℕ)) → length (slot_of payload) ≤ sysex_max_size
unfolding slot_of
slot_fits none = omega arith
slot_fits (some p) = omega (arith, length-take sysex_max_size p)

pub enqueue_sysex-IsValid :
    (payload : Option (List ℕ)) (q : Queues)
    → IsValid q
    → IsValid (enqueue_sysex_message payload q).1
unfolding enqueue_sysex_message
enqueue_sysex-IsValid payload q v =
    if_cases (λ (r : Bool × Queues). IsValid r.1)
      (leb midi_queue_size (length q.messages) || leb sysex_queue_size (length q.payloads))
      (λ full. v)
      (λ room. record {
        matched = omega (
          arith,
          v.matched,
          markers-append q.messages (system_exclusive ∷ []),
          length-append q.payloads (slot_of payload ∷ []),
        );
        messages_fit = ground (arith, length-append q.messages (system_exclusive ∷ []));
        payloads_fit = ground (arith, length-append q.payloads (slot_of payload ∷ []));
        slots_fit =
            All-append _ q.payloads (slot_of payload ∷ []) v.slots_fit (slot_fits payload, tt);
      })
