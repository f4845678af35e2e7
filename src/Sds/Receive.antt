-- ===== src/Sds/Receive.antt =====
-- The receiver of drum/sysex/sds_protocol.h, `sds::Protocol`. Replies are kept newest first. The
-- file's name, which `snprintf` makes from the sample number, is a parameter.
use drum_firmware.Sds.Format.{
  checksum_error, cancel, calculate_data_checksum, state_error, sample_complete, data_packet,
  dump_header, invalid_message, nak, ack, unpack_samples, transfer_cancelled, ok, file_error,
  parse_21bit, Result, parse_14bit, MessageType,
}
use drum_firmware.Base.{
  not, leb, ◌%◌, min, drop, ◌+◌, take, sub_u32, length, ◌==◌, ◌&&◌, none, ltb, get_or, ◌∷◌, ◌*◌,
  true, some, if◌then◌else◌, false, u32, Option, List, Bool, ℕ,
}
use drum_firmware.Protocol.Storage.{FileOps}

abbrev pub receive_timeout_us : ℕ
receive_timeout_us = 30000000

-- `State::ReceivingHeader` is declared in the source and never entered.
pub data ReceiverState : Type 0 where
  idle receiving_header receiving_data : ReceiverState

pub record SampleInfo : Type 0 where
  pub sample_number : ℕ
  pub bit_depth : ℕ
  pub sample_period_ns : ℕ
  pub length_words : ℕ
  pub loop_start : ℕ
  pub loop_end : ℕ
  pub loop_type : ℕ

unfoldable pub get_byte_length : SampleInfo → ℕ
get_byte_length info = u32 (info.length_words * 2)

pub record Receiver (W : Type 0) : Type 0 where
  pub state : ReceiverState
  pub expected_packet_num : ℕ
  pub bytes_received : ℕ
  pub current_sample : SampleInfo
  pub last_activity : ℕ
  pub opened : Option Bool
  pub world : W
  pub replies : List (MessageType × ℕ)

-- The fields of a header of at least 17 bytes.
unfoldable pub parse_header : List ℕ → SampleInfo
unfolding parse_14bit parse_21bit
parse_header m = record {
  sample_number = parse_14bit (get_or m 1 0) (get_or m 2 0);
  bit_depth = get_or m 3 0;
  sample_period_ns = parse_21bit (get_or m 4 0) (get_or m 5 0) (get_or m 6 0);
  length_words = parse_21bit (get_or m 7 0) (get_or m 8 0) (get_or m 9 0);
  loop_start = parse_21bit (get_or m 10 0) (get_or m 11 0) (get_or m 12 0);
  loop_end = parse_21bit (get_or m 13 0) (get_or m 14 0) (get_or m 15 0);
  loop_type = get_or m 16 0;
}

module _ {W : Type 0} where
  abbrev pub reply : MessageType → ℕ → Receiver W → Receiver W
  reply t n r = record r { replies = (t, n) ∷ r.replies }

abbrev pub is_receiving : ReceiverState → Bool
is_receiving receiving_data = true
is_receiving _ = false

abbrev pub is_busy : ReceiverState → Bool
is_busy idle = false
is_busy _ = true

module _ {W : Type 0} (ops : FileOps W) (file_name : ℕ → List ℕ) where
  unfoldable pub close_from : Option Bool → Receiver W → Receiver W
  close_from (some true) r = record r { opened = none; world = ops.close_file r.world }
  close_from _ r = record r { opened = none }

  -- `opened_file_.reset()`
  unfoldable pub reset_file : Receiver W → Receiver W
  unfolding close_from
  reset_file r = close_from r.opened r

  abbrev pub to_idle : Receiver W → Receiver W
  to_idle r = record (reset_file r) { state = idle }

  unfoldable pub handle_cancel_message : Receiver W → Result × Receiver W
  handle_cancel_message r = (transfer_cancelled, if is_busy r.state then to_idle r else r)

  -- `emplace` destroys the file that was open before.
  unfoldable pub start_receiving : ℕ → Receiver W → Result × Receiver W
  start_receiving now r =
      let q = reset_file r in
      let (valid, w) = ops.open_file (file_name r.current_sample.sample_number) q.world in
      let p = record q { opened = some valid; world = w } in
      if valid
      then (
        ok,
        reply ack 0 (record p {
          state = receiving_data;
          expected_packet_num = 0;
          bytes_received = 0;
          last_activity = now;
        }),
      )
      else (file_error, reply nak 0 p)

  -- The header's fields are stored before they are checked.
  unfoldable pub handle_dump_header : List ℕ → ℕ → Receiver W → Result × Receiver W
  handle_dump_header message now r =
      let p = record r { current_sample = parse_header message } in
      if ltb (length message) 17
      then (invalid_message, reply nak 0 r)
      else if not (p.current_sample.bit_depth == 16)
      then (invalid_message, reply nak 0 p)
      else if get_byte_length p.current_sample == 0
      then (invalid_message, reply nak 0 p)
      else start_receiving now p

  -- What the write to the file leaves: none if it was not taken in full.
  unfoldable pub write_from : Option Bool → List ℕ → Receiver W → Option (Receiver W) × Receiver W
  write_from (some true) bytes r =
      let (written, w) = ops.write_file bytes r.world in
      let p = record r { world = w } in
      if written == length bytes
      then (some (record p { bytes_received = u32 (r.bytes_received + written) }), p)
      else (none, p)
  write_from _ bytes r = (some r, r)

  -- After the write: the next packet is expected, or the sample is complete.
  unfoldable pub packet_taken : ℕ → Option (Receiver W) × Receiver W → Result × Receiver W
  packet_taken n (none, r) = (file_error, reply nak n (to_idle r))
  packet_taken n (some p, r) =
      let q = record p { expected_packet_num = (n + 1) % 128 } in
      if leb (get_byte_length q.current_sample) q.bytes_received
      then (sample_complete, reply ack n (to_idle q))
      else (ok, reply ack n q)

  unfoldable pub take_packet : ℕ → List ℕ → Receiver W → Result × Receiver W
  unfolding write_from packet_taken
  take_packet n samples r =
      let unpacked = unpack_samples samples in
      let remaining = sub_u32 (get_byte_length r.current_sample) r.bytes_received in
      packet_taken n (write_from r.opened (take (min remaining (length unpacked)) unpacked) r)

  unfoldable pub handle_data_packet : List ℕ → ℕ → Receiver W → Result × Receiver W
  handle_data_packet message now r =
      let n = get_or message 1 0 in
      let samples = take 120 (drop 2 message) in
      if not (is_receiving r.state)
      then (state_error, reply nak 0 r)
      else if not (length message == 123)
      then (invalid_message, reply nak r.expected_packet_num r)
      else if not (get_or message 122 0 == calculate_data_checksum n samples)
      then (checksum_error, reply nak n r)
      else if n == r.expected_packet_num
      then take_packet n samples (record r { last_activity = now })
      else if n == (r.expected_packet_num + 127) % 128 && ltb 0 r.bytes_received
      then (ok, reply ack n (record r { last_activity = now }))
      else (invalid_message, reply nak r.expected_packet_num r)

  unfoldable pub process_message : List ℕ → ℕ → Receiver W → Result × Receiver W
  process_message message now r =
      let message_type = get_or message 0 0 in
      if ltb (length message) 3
      then (invalid_message, r)
      else if message_type == dump_header
      then handle_dump_header message now r
      else if message_type == data_packet
      then handle_data_packet message now r
      else if message_type == cancel
      then handle_cancel_message r
      else (invalid_message, reply nak 0 r)

  unfoldable pub check_timeout : ℕ → Receiver W → Bool × Receiver W
  check_timeout now r =
      if is_busy r.state && ltb (r.last_activity + receive_timeout_us) now
      then (true, to_idle r)
      else (false, r)

  unfoldable pub current_sample_number_opt : Receiver W → Option ℕ
  current_sample_number_opt r =
      if is_receiving r.state then some r.current_sample.sample_number else none
