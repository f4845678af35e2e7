-- ===== src/Sds/Send.antt =====
-- The sender of drum/sysex/sds_dump_sender.h, `sds::DumpSender`. Messages are kept newest first.
use drum_firmware.Sds.Format.{
  unknown, cancelled, wait, nak, ack, invalid_message, encode_21bit, transfer_cancelled,
  calculate_data_checksum, state_error, sample_complete, parse_14bit, pack_samples, ok, file_error,
  dump_header, data_packet, Result, MessageType, cancel,
}
use drum_firmware.Base.{
  ◌==◌, not, ◌+◌, ◌*◌, length, ◌^◌, ◌-◌, ltb, get_or, ◌%◌, replicate, min, [], ◌∷◌, ◌++◌, true,
  some, leb, false, ◌/◌, none, if◌then◌else◌, Option, List, Bool, ℕ,
}

-- What the sender asks of a file opened for reading.
pub record ReadOps (R : Type 0) : Type 0 where
  pub open_read : List ℕ → Option R
  pub size : R → ℕ
  -- the bytes that were read, as many as asked for if there are so many
  pub read : ℕ → R → List ℕ × R

abbrev pub header_response_timeout_us : ℕ
header_response_timeout_us = 2000000

abbrev pub retransmit_interval_us : ℕ
retransmit_interval_us = 100000

abbrev pub open_loop_interval_us : ℕ
open_loop_interval_us = 10000

abbrev pub stall_timeout_us : ℕ
stall_timeout_us = 30000000

abbrev pub bytes_per_packet : ℕ
bytes_per_packet = 80

pub data SenderState : Type 0 where
  idle awaiting_header_response awaiting_packet_response open_loop : SenderState

pub record Sender (R : Type 0) : Type 0 where
  pub state : SenderState
  pub file : Option R
  pub sample_number : ℕ
  pub total_bytes : ℕ
  pub bytes_sent : ℕ
  pub packet_num : ℕ
  pub wait_pending : Bool
  pub last_activity : ℕ
  pub last_send : ℕ
  pub last_packet : List ℕ
  pub header_is_last_sent : Bool
  pub header : List ℕ
  pub messages : List (List ℕ)

abbrev pub is_idle : SenderState → Bool
is_idle idle = true
is_idle _ = false

abbrev pub is_open_loop : SenderState → Bool
is_open_loop open_loop = true
is_open_loop _ = false

-- The 17 bytes of a dump header: 16 bits, 44100 Hz, no loop.
unfoldable pub make_header : ℕ → ℕ → List ℕ
make_header sample_number length_words =
    dump_header
    ∷ (sample_number % 128)
    ∷ (sample_number / 2 ^ 7 % 128)
    ∷ 16
    ∷ (encode_21bit (1000000000 / 44100)
        ++ encode_21bit length_words
        ++ encode_21bit length_words
        ++ encode_21bit length_words
        ++ (0x7f ∷ []))

-- The 123 bytes of a data packet.
unfoldable pub make_packet : ℕ → List ℕ → List ℕ
make_packet n raw =
    data_packet ∷ n ∷ (pack_samples raw ++ (calculate_data_checksum n (pack_samples raw) ∷ []))

module _ {R : Type 0} where
  abbrev pub post : List ℕ → Sender R → Sender R
  post m s = record s { messages = m ∷ s.messages }

  abbrev pub send_cancel : Sender R → Sender R
  send_cancel s = post (cancel ∷ 0 ∷ []) s

  abbrev pub finish : Sender R → Sender R
  finish s = record s { file = none; state = idle; wait_pending = false }

  unfoldable pub transfer_complete : Sender R → Bool
  transfer_complete s = leb s.total_bytes s.bytes_sent

  unfoldable pub send_dump_header : Sender R → Sender R
  send_dump_header s =
      let h = make_header s.sample_number (s.total_bytes / 2) in
      post h (record s { header = h; header_is_last_sent = true })

  unfoldable pub resend_last : ℕ → Sender R → Sender R
  resend_last now s = record (post (if s.header_is_last_sent then s.header else s.last_packet) s) {
    last_send = now;
  }

module _ {R : Type 0} (ops : ReadOps R) (file_name : ℕ → List ℕ) where
  unfoldable pub start_dump : Option R → ℕ → Sender R → Result × Sender R
  start_dump none now s = (file_error, send_cancel (record s { file = none }))
  start_dump (some f) now s =
      if ltb (ops.size f) 2 then (file_error, send_cancel (record s { file = none })) else (
        ok,
        record (send_dump_header (record s {
          file = some f;
          total_bytes = ops.size f / 2 * 2;
          bytes_sent = 0;
          packet_num = 0;
          wait_pending = false;
        })) { state = awaiting_header_response; last_activity = now; last_send = now },
      )

  unfoldable pub handle_dump_request : List ℕ → ℕ → Sender R → Result × Sender R
  unfolding start_dump
  handle_dump_request message now s =
      let n = parse_14bit (get_or message 1 0) (get_or message 2 0) in
      if ltb (length message) 3
      then (invalid_message, send_cancel s)
      else if not (is_idle s.state)
      then (state_error, send_cancel s)
      else start_dump (ops.open_read (file_name n)) now (record s { sample_number = n })

  -- The packet of the bytes that were read, zero-padded, and the state after it was sent.
  unfoldable pub packet_sent : List ℕ → ℕ → Sender R → Sender R
  packet_sent bytes now s =
      let m = make_packet s.packet_num (bytes ++ replicate (bytes_per_packet - length bytes) 0) in
      record (post m s) {
        last_packet = m;
        header_is_last_sent = false;
        bytes_sent = s.bytes_sent + length bytes;
        packet_num = (s.packet_num + 1) % 128;
        state = if is_open_loop s.state then open_loop else awaiting_packet_response;
        last_activity = if is_open_loop s.state then now else s.last_activity;
        last_send = now;
      }

  unfoldable pub send_from : Option R → ℕ → Sender R → Sender R
  send_from none now s = s
  send_from (some f) now s =
      let to_read = min (s.total_bytes - s.bytes_sent) bytes_per_packet in
      let (bytes, f') = ops.read to_read f in
      let t = record s { file = some f' } in
      if length bytes == to_read then packet_sent bytes now t else finish (send_cancel t)

  unfoldable pub send_next_packet : ℕ → Sender R → Sender R
  unfolding send_from packet_sent
  send_next_packet now s = send_from s.file now s

  unfoldable pub on_response : MessageType → ℕ → Sender R → Result × Sender R
  on_response ack now s =
      let t = record s { wait_pending = false } in
      if transfer_complete t then (sample_complete, finish t) else (ok, send_next_packet now t)
  on_response nak now s = (ok, resend_last now (record s { wait_pending = false }))
  on_response wait now s = (ok, record s { wait_pending = true })
  on_response cancelled now s = (transfer_cancelled, finish s)
  on_response unknown now s = (invalid_message, s)

  unfoldable pub handle_response : MessageType → ℕ → Sender R → Result × Sender R
  unfolding on_response
  handle_response t now s =
      if is_idle s.state
      then (state_error, s)
      else on_response t now (record s { last_activity = now })

  unfoldable pub advance_open_loop : ℕ → Sender R → Result × Sender R
  advance_open_loop now s =
      if transfer_complete s then (sample_complete, finish s) else (ok, send_next_packet now s)

  unfoldable pub update_in : SenderState → ℕ → Sender R → Result × Sender R
  update_in idle now s = (ok, s)
  update_in awaiting_header_response now s =
      if ltb (s.last_activity + header_response_timeout_us) now
      then (ok, send_next_packet now (record s { state = open_loop }))
      else (ok, s)
  update_in awaiting_packet_response now s =
      if ltb (s.last_send + retransmit_interval_us) now then (ok, resend_last now s) else (ok, s)
  update_in open_loop now s =
      if ltb (s.last_send + open_loop_interval_us) now then advance_open_loop now s else (ok, s)

  unfoldable pub update : ℕ → Sender R → Result × Sender R
  unfolding update_in
  update now s =
      if is_idle s.state
      then (ok, s)
      else if ltb (s.last_activity + stall_timeout_us) now
      then (transfer_cancelled, finish s)
      else if s.wait_pending
      then (ok, s)
      else update_in s.state now s
