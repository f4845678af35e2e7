-- ===== src/FirmwareUpdate/Defs.antt =====
-- The state and the handlers of `FirmwareUpdate`. Replies are kept newest first.
use drum_firmware.Codec.{decode_8_to_7, decode_3_to_16bit}
use drum_firmware.Base.{
  zero, [], u32, ◌-◌, leb, ◌^◌, take, drop, ◌*◌, length, ◌/◌, ◌+◌, ◌&&◌, true, suc, min, ltb, ◌==◌,
  ◌%◌, sub_u32, some, not, none, get_or, false, ◌∷◌, if◌then◌else◌, Option, List, Bool, ℕ,
}

-- The template parameter `Writer`.
pub record WriterOps (U : Type 0) : Type 0 where
  pub begin : ℕ → List ℕ → U → Bool × U
  pub write : List ℕ → U → Bool × U
  pub finalize : U → Bool × U
  pub abort : U → U

pub data Reply : Type 0 where
  ack nack : Reply

pub data State : Type 0 where
  idle receiving : State

pub data Result : Type 0 where
  ok update_ready not_firmware_update invalid_content write_error aborted : Result

abbrev pub timeout_us : ℕ
timeout_us = 5000000

abbrev pub sha256_size : ℕ
sha256_size = 32

-- Total size, SHA-256 and version.
abbrev pub begin_payload_size : ℕ
begin_payload_size = 39

abbrev pub decode_buffer_size : ℕ
decode_buffer_size = 1792

pub record Update (U : Type 0) : Type 0 where
  pub writer : U
  pub state : State
  pub last_activity : ℕ
  pub total_size : ℕ
  pub bytes_received : ℕ
  pub replies : List Reply

module _ {U : Type 0} where
  abbrev pub send : Reply → Update U → Update U
  send r u = record u { replies = r ∷ u.replies }

-- Each value carries two bytes, low byte first.
unfoldable pub payload_bytes : List ℕ → List ℕ
payload_bytes [] = []
payload_bytes (v ∷ vs) = (v % 256) ∷ (v / 256) ∷ payload_bytes vs

unfoldable pub announced_size : List ℕ → ℕ
announced_size bytes = u32 (
    get_or bytes 0 0
    + get_or bytes 1 0 * 2 ^ 8
    + get_or bytes 2 0 * 2 ^ 16
    + get_or bytes 3 0 * 2 ^ 24)

module _ {U : Type 0} (ops : WriterOps U) where
  -- `writer_.abort()` and the return to idle.
  abbrev pub drop_update : Update U → Update U
  drop_update u = record u { writer = ops.abort u.writer; state = idle }

  unfoldable pub begin_with : ℕ → List ℕ → ℕ → Update U → Result × Update U
  begin_with total_size sha256 now u =
      let r = ops.begin total_size sha256 u.writer in
      if total_size == 0
      then (write_error, send nack u)
      else if r.0
      then (
        ok,
        send ack (record u {
          writer = r.1;
          total_size = total_size;
          bytes_received = 0;
          state = receiving;
          last_activity = now;
        }),
      )
      else (write_error, send nack (record u { writer = r.1 }))

  unfoldable pub restarted : State → Update U → Update U
  restarted idle u = u
  restarted receiving u = drop_update u

  unfoldable pub handle_begin : List ℕ → ℕ → Update U → Result × Update U
  unfolding begin_with restarted
  handle_begin body now u =
      let bytes = payload_bytes (decode_3_to_16bit body (begin_payload_size / 2 + 1)) in
      let v = restarted u.state u in
      if ltb (length bytes) begin_payload_size
      then (invalid_content, send nack v)
      else begin_with (announced_size bytes) (take sha256_size (drop 4 bytes)) now v

  -- One decoded buffer of the loop below: whether the loop goes on.
  unfoldable pub write_decoded : List ℕ → Update U → Bool × Update U
  write_decoded decoded u =
      let remaining = sub_u32 u.total_size u.bytes_received in
      let to_write = min (length decoded) remaining in
      let r = ops.write (take to_write decoded) u.writer in
      if leb 7 (length decoded - to_write)
      then (false, send nack (drop_update u))
      else if to_write == 0
      then (true, u)
      else if r.0
      then (true, record u { writer = r.1; bytes_received = u32 (u.bytes_received + to_write) })
      else (false, send nack (drop_update (record u { writer = r.1 })))

  -- The loop of `decode_and_write`: `none` when the fuel is spent, and otherwise whether all was
  -- written.
  unfoldable pub decode_and_write : ℕ → List ℕ → Update U → Option (Bool × Update U)
  decode_and_write zero body u = none
  decode_and_write (suc fuel) [] u = some (true, u)
  decode_and_write (suc fuel) (x ∷ xs) u =
      let r = decode_8_to_7 (x ∷ xs) decode_buffer_size in
      let w = write_decoded r.1 u in
      let next = decode_and_write fuel (drop r.0 (x ∷ xs)) w.1 in
      if length r.1 == 0 then some (true, u) else if w.0 then next else some w

  unfoldable pub bytes_written : ℕ → Option (Bool × Update U) → Option (Result × Update U)
  bytes_written now none = none
  bytes_written now (some (true, u)) = some (ok, send ack (record u { last_activity = now }))
  bytes_written now (some (false, u)) = some (write_error, u)

  unfoldable pub bytes_in : State → ℕ → List ℕ → ℕ → Update U → Option (Result × Update U)
  bytes_in idle fuel body now u = some (invalid_content, send nack u)
  bytes_in receiving fuel body now u = bytes_written now (decode_and_write fuel body u)

  unfoldable pub handle_bytes : ℕ → List ℕ → ℕ → Update U → Option (Result × Update U)
  unfolding bytes_in bytes_written
  handle_bytes fuel body now u = bytes_in u.state fuel body now u

  unfoldable pub end_in : State → Update U → Result × Update U
  end_in idle u = (invalid_content, send nack u)
  end_in receiving u =
      let r = ops.finalize u.writer in
      if not (u.bytes_received == u.total_size)
      then (write_error, send nack (drop_update u))
      else if r.0
      then (update_ready, send ack (record u { writer = r.1; state = idle }))
      else (write_error, send nack (drop_update (record u { writer = r.1 })))

  unfoldable pub handle_end : Update U → Result × Update U
  unfolding end_in
  handle_end u = end_in u.state u

  unfoldable pub handle_abort : Update U → Result × Update U
  unfolding restarted
  handle_abort u = (aborted, send ack (restarted u.state u))

  unfoldable pub dispatch : ℕ → ℕ → List ℕ → ℕ → Update U → Option (Result × Update U)
  dispatch fuel tag body now u =
      if tag == 0x20
      then some (handle_begin body now u)
      else if tag == 0x21
      then handle_bytes fuel body now u
      else if tag == 0x22
      then some (handle_end u)
      else if tag == 0x23
      then some (handle_abort u)
      else some (not_firmware_update, u)

  -- `claims` and the dispatch on the tag; `none` when the fuel of the byte loop is spent.
  unfoldable pub handle_chunk : ℕ → List ℕ → ℕ → Update U → Option (Result × Update U)
  unfolding dispatch
  handle_chunk fuel (m0 ∷ m1 ∷ m2 ∷ device ∷ tag ∷ body) now u =
      if m0 == 0x00 && m1 == 0x22 && m2 == 0x01 && device == 0x65
      then dispatch fuel tag body now u
      else some (not_firmware_update, u)
  handle_chunk fuel _ now u = some (not_firmware_update, u)

  timeout_in : State → ℕ → Update U → Bool × Update U
  timeout_in idle now u = (false, u)
  timeout_in receiving now u =
      if ltb (u.last_activity + timeout_us) now then (true, drop_update u) else (false, u)

  unfoldable pub check_timeout : ℕ → Update U → Bool × Update U
  unfolding timeout_in
  check_timeout now u = timeout_in u.state now u
