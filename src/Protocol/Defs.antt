-- ===== src/Protocol/Defs.antt =====
-- The handlers of `sysex::Protocol`: a chunk is dispatched on its tag.
use drum_firmware.Base.{
  ℕ, zero, suc, ◌+◌, ◌-◌, ◌*◌, ◌/◌, ◌%◌, Bool, true, false, not, ◌&&◌, Option, none, some, List, [],
  ◌∷◌, ◌++◌, length, drop, ltb, leb, ◌==◌, if◌then◌else◌,
}
use drum_firmware.Codec.{decode_3_to_16bit, decode_8_to_7}
use drum_firmware.Protocol.Tag
use drum_firmware.Protocol.Storage.{FileOps}
use drum_firmware.Protocol.Path.{
  Sanitized, success, path_too_long, invalid_character, sanitize_path,
}
use drum_firmware.Protocol.State.{
  timeout_us, block_size, sysex_max_size, ack, nack, State, idle, file_transfer, Result, ok,
  file_written, reboot, print_firmware_version, print_serial_number, print_storage_info,
  print_sequencer_state, set_sequencer_state, get_setting, set_setting, file_error, short_message,
  invalid_manufacturer, invalid_content, Protocol, Outcome, returned, overrun, still_running,
  is_idle, send, reset_file, to_idle, emplace_file, flush_write_buffer,
}

-- `std::bit_cast` of each value on the little-endian target.
unfoldable pub value_bytes : List ℕ → List ℕ
value_bytes [] = []
value_bytes (v ∷ vs) = (v % 256) ∷ (v / 256) ∷ value_bytes vs

module _ {W : Type 0} (ops : FileOps W) where
  -- The `while` loop of `handle_file_bytes_fast`: `none` when the fuel is spent, and otherwise
  -- whether the loop ended by its test, or by a flush that failed.
  unfoldable pub receive_bytes : ℕ → List ℕ → Protocol W → Option (Bool × Protocol W)
  receive_bytes zero body p = none
  receive_bytes (suc fuel) [] p = some (true, p)
  receive_bytes (suc fuel) (x ∷ xs) p =
      let r = decode_8_to_7 (x ∷ xs) (block_size - length p.buffer) in
      let q = record p { buffer = p.buffer ++ r.1 } in
      let f = flush_write_buffer ops q in
      let full = leb block_size (length q.buffer) in
      let next = receive_bytes fuel (drop r.0 (x ∷ xs)) (if full then f.1 else q) in
      if full && not f.0 then some (false, f.1) else next

  unfoldable pub received : ℕ → Option (Bool × Protocol W) → Outcome W
  received now none = still_running
  received now (some (true, p)) = returned ok (send ack (record p { last_activity = now }))
  received now (some (false, p)) = returned file_error (send nack (to_idle ops p))

  unfoldable pub file_bytes_in : State → Option Bool → ℕ → List ℕ → ℕ → Protocol W → Outcome W
  file_bytes_in idle o fuel body now p = returned file_error (send nack p)
  file_bytes_in file_transfer none fuel body now p =
      returned file_error (record (send nack p) { state = idle })
  file_bytes_in file_transfer (some _) fuel body now p = received now (receive_bytes fuel body p)

  unfoldable pub handle_file_bytes_fast : ℕ → List ℕ → ℕ → Protocol W → Outcome W
  unfolding file_bytes_in received
  handle_file_bytes_fast fuel body now p = file_bytes_in p.state p.opened fuel body now p

  -- A transfer that is already active is cancelled first.
  unfoldable pub cancel_previous : Protocol W → Protocol W
  cancel_previous p = if is_idle p.state then p else reset_file ops (flush_write_buffer ops p).1

  unfoldable pub open_for_writing : Sanitized → ℕ → Protocol W → Outcome W
  open_for_writing (success path) now p =
      let (valid, q) = emplace_file ops path p in
      if valid
      then returned ok
          (send ack (record q { state = file_transfer; buffer = []; last_activity = now }))
      else returned file_error (send nack (to_idle ops q))
  open_for_writing path_too_long now p = returned file_error (send nack p)
  open_for_writing invalid_character now p = returned file_error (send nack p)

  unfoldable pub handle_begin_file_write : List ℕ → ℕ → Protocol W → Outcome W
  unfolding cancel_previous open_for_writing
  handle_begin_file_write bytes now p =
      open_for_writing (sanitize_path bytes) now (cancel_previous p)

  -- The state is given up on a message that is not understood.
  give_up : Protocol W → Protocol W
  give_up p = if is_idle p.state then p else to_idle ops p

  -- `byte_array` has `block_size` cells, and the loop that fills it does not test for its end.
  unfoldable pub handle_packet : ℕ → List ℕ → ℕ → Protocol W → Outcome W
  unfolding give_up
  handle_packet tag values now p =
      if ltb block_size (2 * length values)
      then overrun
      else if tag == Tag.begin_file_write
      then handle_begin_file_write (value_bytes values) now p
      else returned invalid_content (send nack (give_up p))

  format_from : State → Protocol W → Result × Protocol W
  format_from file_transfer p = (file_error, send nack p)
  format_from idle p =
      let r = ops.format p.world in
      (ok, send (if r.0 then ack else nack) (record p { world = r.1 }))

  unfoldable pub handle_no_body : ℕ → Protocol W → Option (Result × Protocol W)
  unfolding format_from
  handle_no_body tag p =
      if tag == Tag.reboot_bootloader
      then some (reboot, p)
      else if tag == Tag.request_firmware_version
      then some (print_firmware_version, p)
      else if tag == Tag.request_serial_number
      then some (print_serial_number, p)
      else if tag == Tag.request_storage_info
      then some (print_storage_info, p)
      else if tag == Tag.request_sequencer_state
      then some (print_sequencer_state, p)
      else if tag == Tag.format_filesystem
      then some (format_from p.state p)
      else none

  unfoldable pub end_transfer : Protocol W → Outcome W
  end_transfer p = returned file_written (send ack (to_idle ops (flush_write_buffer ops p).1))

  unfoldable pub no_body_result : Option (Result × Protocol W) → Protocol W → Outcome W
  unfolding give_up
  no_body_result (some (r, q)) p = returned r q
  no_body_result none p = returned invalid_content (send nack (give_up p))

  -- A message with no decoded values.
  unfoldable pub handle_empty : ℕ → Protocol W → Outcome W
  handle_empty tag p =
      if not (is_idle p.state) && tag == Tag.end_file_transfer
      then end_transfer p
      else no_body_result (handle_no_body tag p) p

  unfoldable pub with_values : ℕ → List ℕ → List ℕ → ℕ → Protocol W → Outcome W
  with_values tag [] [] now p = handle_empty tag p
  with_values tag [] (_ ∷ _) now p = returned invalid_content (send nack p)
  with_values tag (v ∷ vs) body now p = handle_packet tag (v ∷ vs) now p

  -- What follows the check of the manufacturer and device.
  unfoldable pub dispatch : ℕ → ℕ → List ℕ → ℕ → Protocol W → Outcome W
  unfolding with_values handle_empty no_body_result give_up
  dispatch fuel tag body now p =
      if tag == Tag.file_bytes
      then handle_file_bytes_fast fuel body now p
      else if tag == Tag.set_sequencer_state
      then returned set_sequencer_state p
      else if tag == Tag.get_setting
      then returned get_setting p
      else if tag == Tag.set_setting
      then returned set_setting p
      else with_values tag (decode_3_to_16bit body sysex_max_size) body now p

  -- The chunk is the message without its 0xF0 and 0xF7.
  unfoldable pub handle_chunk : ℕ → List ℕ → ℕ → Protocol W → Outcome W
  handle_chunk fuel (m0 ∷ m1 ∷ m2 ∷ device ∷ tag ∷ body) now p =
      if m0 == 0x00 && m1 == 0x22 && m2 == 0x01 && device == 0x65
      then dispatch fuel tag body now p
      else returned invalid_manufacturer p
  handle_chunk fuel _ now p = returned short_message p

  timeout_in : State → ℕ → Protocol W → Bool × Protocol W
  timeout_in idle now p = (false, p)
  timeout_in file_transfer now p =
      if ltb (p.last_activity + timeout_us) now
      then (true, to_idle ops (flush_write_buffer ops p).1)
      else (false, p)

  unfoldable pub check_timeout : ℕ → Protocol W → Bool × Protocol W
  unfolding timeout_in
  check_timeout now p = timeout_in p.state now p
