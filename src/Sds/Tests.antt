-- ===== src/Sds/Tests.antt =====
-- Runs of the Sample Dump Standard.
use drum_firmware.Codec.Grouped.{IsByte}
use drum_firmware.Sds.Transfer.{dump_received, receive_packets}
use drum_firmware.Sds.Received.{IsReceiving}
use drum_firmware.Sds.Requested.{handle_dump_request-IsValid}
use drum_firmware.Sds.Sent.{IsValid, handle_response-IsValid}
use drum_firmware.Sds.Format.{MessageType, sample_complete}
use drum_firmware.Sds.Send.{
  handle_dump_request, SenderState, Sender, ReadOps, handle_response, make_packet,
}
use drum_firmware.Sds.Receive.{handle_data_packet, get_byte_length, Receiver, idle, receiving_data}
use drum_firmware.Protocol.Storage.{FileOps, IsReliable}
use drum_firmware.Base.{
  flatten, ◌%◌, ◌+◌, zero, drop, take, suc, length-replicate, false, true, some, replicate, none,
  length, inl, All, arith, ◌++◌, ℕ, List, [], ◌∷◌, ◌≡◌, refl,
}

abbrev two_samples : List ℕ
two_samples = 0x34 ∷ 0x12 ∷ 0xff ∷ 0x80 ∷ []

-- A store of one file that keeps the bytes it was given.
abbrev keeping : FileOps (List ℕ)
keeping = record {
  open_file = λ path w. (true, []);
  write_file = λ bytes w. (length bytes, w ++ bytes);
  close_file = λ w. w;
  format = λ w. (true, []);
}

keeping-IsReliable : IsReliable keeping (λ w. w)
keeping-IsReliable = record { writes_all = λ bytes w. refl; appends = λ bytes w. refl }

abbrev name_of : ℕ → List ℕ
name_of n = n ∷ []

-- A transfer of 50 samples, of which `received` bytes have arrived.
abbrev receiver_of : ℕ → ℕ → Receiver (List ℕ)
receiver_of n received = record {
  state = receiving_data;
  expected_packet_num = n;
  bytes_received = received;
  current_sample = record {
    sample_number = 1;
    bit_depth = 16;
    sample_period_ns = 22675;
    length_words = 50;
    loop_start = 0;
    loop_end = 0;
    loop_type = 127;
  };
  last_activity = 0;
  opened = some true;
  world = [];
  replies = [];
}

abbrev block : ℕ → List ℕ
block byte = replicate 80 byte

start-IsReceiving : IsReceiving 127 (receiver_of 127 0)
unfolding get_byte_length
start-IsReceiving = record {
  receiving = refl;
  open_now = refl;
  expected = refl;
  unfinished = omega arith;
}

All-replicate : (P : ℕ → Type 0) (n byte : ℕ) → P byte → All P (replicate n byte)
All-replicate P zero byte h = tt
All-replicate P (suc n) byte h = (h, All-replicate P n byte h)

length-block : (byte : ℕ) → length (block byte) ≡ 80
length-block byte = length-replicate {A = ℕ} 80 byte

dump_received_example :
    (q : Receiver (List ℕ)) × (w : List ℕ) × (handle_data_packet keeping name_of
        (make_packet ((127 + 1) % 128) (block 3))
        5
        (receive_packets keeping name_of (block 200 ∷ []) 127 5 (receiver_of 127 0))
      ≡ (sample_complete, q))
    × (q.state ≡ idle)
    × (q.opened ≡ none)
    × (q.world ≡ w)
    × (w ≡ [] ++ take 100 (flatten (block 200 ∷ []) ++ block 3))
unfolding get_byte_length
dump_received_example =
    dump_received keeping name_of (λ w. w) keeping-IsReliable (block 200 ∷ []) (block 3) 127 5
      (receiver_of 127 0) (omega arith) start-IsReceiving
      ((length-block 200, All-replicate IsByte 80 200 (omega arith)), tt)
      (length-block 3, All-replicate IsByte 80 3 (omega arith)) (omega arith) (omega arith)

late-IsReceiving : IsReceiving 1 (receiver_of 1 80)
unfolding get_byte_length
late-IsReceiving = record {
  receiving = refl;
  open_now = refl;
  expected = refl;
  unfinished = omega arith;
}

-- A header of 24 bits and one word.
abbrev bad_header : List ℕ
bad_header = 1 ∷ 2 ∷ 0 ∷ 24 ∷ 0 ∷ 0 ∷ 0 ∷ 1 ∷ replicate 9 0

-- Files that are the bytes not yet read.
abbrev reading : ReadOps (List ℕ)
reading = record {
  open_read = λ path. some (block 4);
  size = λ f. length f;
  read = λ n f. (take n f, drop n f);
}

abbrev new_sender : Sender (List ℕ)
new_sender = record {
  state = SenderState.idle;
  file = none;
  sample_number = 0;
  total_bytes = 0;
  bytes_sent = 0;
  packet_num = 0;
  wait_pending = false;
  last_activity = 0;
  last_send = 0;
  last_packet = [];
  header_is_last_sent = true;
  header = [];
  messages = [];
}

new_sender-IsValid : IsValid new_sender
new_sender-IsValid = record {
  within = omega arith;
  blocks = inl refl;
  numbered = refl;
  file_open = λ h. absurd (h refl);
  header_first = λ e. cc;
}

abbrev requested : Sender (List ℕ)
requested = (handle_dump_request reading name_of (3 ∷ 1 ∷ 0 ∷ []) 5 new_sender).1

handle_response-IsValid_example :
    IsValid (handle_response reading name_of MessageType.ack 6 requested).1
handle_response-IsValid_example =
    handle_response-IsValid reading name_of MessageType.ack 6 requested
      (handle_dump_request-IsValid reading name_of (3 ∷ 1 ∷ 0 ∷ []) 5 new_sender new_sender-IsValid)
