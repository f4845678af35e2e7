-- ===== src/Protocol/Faults.antt =====
-- Where the handlers of drum/sysex/protocol.h go wrong, for every input that shows it.
use drum_firmware.Protocol.Invariant.{reset_file_lem, flush_lem}
use drum_firmware.Codec.ThreeByte.{length-decode_3}
use drum_firmware.Protocol.FileBytes.{IsReceiving}
use drum_firmware.Protocol.Path.{
  success, invalid_character, path_too_long, sanitize_path, Sanitized,
}
use drum_firmware.Codec.{decode_3_to_16bit}
use drum_firmware.Protocol.Defs.{
  handle_no_body, value_bytes, end_transfer, handle_empty, dispatch, cancel_previous, with_values,
  open_for_writing, no_body_result, handle_packet, handle_chunk, handle_begin_file_write,
}
use drum_firmware.Protocol.Storage.{FileOps}
use drum_firmware.Protocol.State.{
  still_running, reset_file, flush_write_buffer, to_idle, file_transfer, nack, idle, file_error,
  ack, send, is_idle, file_written, returned, sysex_max_size, Result, block_size, overrun, Protocol,
  Outcome,
}
use drum_firmware.Protocol.Tag
use native.Mathlib.Decide.{dec_lt}
use drum_firmware.Base.{
  refl, eq_nil_of_length, some, none, ◌&&◌, ◌⊎◌, ◌∙◌, ◌==◌, sym, not, ltb, [], if_cases, arith, ◌≤◌,
  Option, length, ◌*◌, ◌<◌, ◌↔◌, ◌≡◌, ◌∷◌, ◌≢◌, List, ℕ,
}

-- A body that is decoded as 16-bit values, under a tag that is not handled before that.
abbrev pub IsDecodedTag : ℕ → Type 0
IsDecodedTag tag =
    (tag ≢ Tag.file_bytes)
    × (tag ≢ Tag.set_sequencer_state)
    × (tag ≢ Tag.get_setting)
    × (tag ≢ Tag.set_setting)

-- A message of the device with this tag and body.
abbrev pub message : ℕ → List ℕ → List ℕ
message tag body = 0x00 ∷ 0x22 ∷ 0x01 ∷ 0x65 ∷ tag ∷ body

-- A call that does not write past the end of `byte_array`.
abbrev InBounds : {W : Type 0} → Outcome W → Type 0
InBounds (returned r p) = Unit
InBounds overrun = ⊥
InBounds still_running = Unit

module _ {W : Type 0} (ops : FileOps W) where
  open-InBounds :
      (path : Sanitized) (now : ℕ) (p : Protocol W) → InBounds (open_for_writing ops path now p)
  unfolding open_for_writing
  open-InBounds (success path) now p = ground arith
  open-InBounds path_too_long now p = tt
  open-InBounds invalid_character now p = tt

  packet-InBounds :
      (tag : ℕ) (values : List ℕ) (now : ℕ) (p : Protocol W)
      → 2 * length values ≤ block_size
      → InBounds (handle_packet ops tag values now p)
  unfolding handle_packet handle_begin_file_write
  packet-InBounds tag values now p h =
      if_cases InBounds (ltb block_size (2 * length values)) (λ long. absurd (ground arith))
        λ _.
          if_cases InBounds (tag == Tag.begin_file_write)
            (λ _. open-InBounds (sanitize_path (value_bytes values)) now (cancel_previous ops p))
            (λ _. tt)

  no_body-InBounds :
      (o : Option (Result × Protocol W)) (p : Protocol W) → InBounds (no_body_result ops o p)
  unfolding no_body_result
  no_body-InBounds none p = tt
  no_body-InBounds (some r) p = tt

  values-InBounds :
      (tag : ℕ) (values body : List ℕ) (now : ℕ) (p : Protocol W)
      → 2 * length values ≤ block_size
      → InBounds (with_values ops tag values body now p)
  unfolding with_values handle_empty end_transfer
  values-InBounds tag [] [] now p h =
      if_cases InBounds (not (is_idle p.state) && tag == Tag.end_file_transfer) (λ _. tt)
        (λ _. no_body-InBounds (handle_no_body ops tag p) p)
  values-InBounds tag [] (_ ∷ _) now p h = tt
  values-InBounds tag (v ∷ vs) body now p h = packet-InBounds tag (v ∷ vs) now p h

  values_overrun :
      (tag : ℕ) (values body : List ℕ) (now : ℕ) (p : Protocol W)
      → block_size < 2 * length values
      → with_values ops tag values body now p ≡ overrun
  unfolding with_values handle_packet
  values_overrun tag [] body now p h = absurd (omega arith)
  values_overrun tag (v ∷ vs) body now p h = ground arith

  dispatch_decoded :
      (fuel tag : ℕ) (body : List ℕ) (now : ℕ) (p : Protocol W)
      → IsDecodedTag tag
      → handle_chunk ops fuel (message tag body) now p
        ≡ with_values ops tag (decode_3_to_16bit body sysex_max_size) body now p
  unfolding handle_chunk dispatch
  dispatch_decoded fuel tag body now p h = ground arith

  not_overrun : (o : Outcome W) → InBounds o → o ≢ overrun
  not_overrun (returned r p) h e = cc
  not_overrun overrun h e = h
  not_overrun still_running h e = cc

  -- A message whose body is decoded as 16-bit values writes past the end of the 256-byte stack
  -- array of `handle_packet` exactly when its body has 387 bytes or more, whatever the state is.
  pub chunk_overrun_iff :
      (fuel tag : ℕ) (body : List ℕ) (now : ℕ) (p : Protocol W)
      → IsDecodedTag tag
      → (handle_chunk ops fuel (message tag body) now p ≡ overrun) ↔ (386 < length body)
  chunk_overrun_iff fuel tag body now p h = (
    λ e. elim (dec_lt 386 (length body)) [
      | yes long ↦ long
      | no short ↦ absurd (
          not_overrun (with_values ops tag (decode_3_to_16bit body sysex_max_size) body now p)
            (values-InBounds tag (decode_3_to_16bit body sysex_max_size) body now p
              (omega (arith, length-decode_3 body sysex_max_size)))
            (sym (dispatch_decoded fuel tag body now p h) ∙ e))
    ],
    λ long.
        dispatch_decoded fuel tag body now p h
        ∙ values_overrun tag (decode_3_to_16bit body sysex_max_size) body now p
            (omega (arith, length-decode_3 body sysex_max_size)),
  )

  end_values :
      (now : ℕ) (p : Protocol W)
      → p.state ≡ file_transfer
      → with_values ops Tag.end_file_transfer (decode_3_to_16bit [] sysex_max_size) [] now p
        ≡ returned file_written (send ack (to_idle ops (flush_write_buffer ops p).1))
  unfolding with_values handle_empty end_transfer decode_3_to_16bit
  end_values now p s = rw s

  cancelled :
      (p : Protocol W)
      → p.state ≡ file_transfer
      → cancel_previous ops p ≡ reset_file ops (flush_write_buffer ops p).1
  unfolding cancel_previous
  cancelled p s = rw s

  rejects :
      (path : Sanitized) (now : ℕ) (p : Protocol W)
      → (path ≡ path_too_long) ⊎ (path ≡ invalid_character)
      → open_for_writing ops path now p ≡ returned file_error (send nack p)
  unfolding open_for_writing
  rejects path now p bad = ground arith

  -- EndFileTransfer is acknowledged, and reported as a file written, also when the last write was
  -- not taken in full: the transfer is over, and what the failing write left is all there is.
  pub end_transfer_hides_failure :
      (fuel now : ℕ) (p : Protocol W)
      → IsReceiving p
      → p.buffer ≢ []
      → (ops.write_file p.buffer p.world).0 ≢ length p.buffer
      → (q : Protocol W) × (handle_chunk ops fuel (message Tag.end_file_transfer []) now p
          ≡ returned file_written (send ack q))
        × (q.state ≡ idle)
        × (q.opened ≡ none)
        × (q.world ≡ ops.close_file (ops.write_file p.buffer p.world).1)
  unfolding flush_write_buffer reset_file
  end_transfer_hides_failure fuel now p v some_left failed = (
    to_idle ops (flush_write_buffer ops p).1,
    dispatch_decoded fuel Tag.end_file_transfer [] now p (omega arith)
        ∙ end_values now p v.transferring,
    refl,
    ground arith,
    ground (arith, eq_nil_of_length p.buffer),
  )

  -- A BeginFileWrite with a rejected path during a transfer closes the file and answers Nack, but
  -- the protocol stays in the transfer state with no file open.
  pub rejected_path_stays_busy :
      (bytes : List ℕ) (now : ℕ) (p : Protocol W)
      → IsReceiving p
      → (sanitize_path bytes ≡ path_too_long) ⊎ (sanitize_path bytes ≡ invalid_character)
      → (q : Protocol W) × (handle_begin_file_write ops bytes now p
          ≡ returned file_error (send nack q))
        × (q.state ≡ file_transfer)
        × (q.opened ≡ none)
  unfolding handle_begin_file_write
  rejected_path_stays_busy bytes now p v bad = (
    reset_file ops (flush_write_buffer ops p).1,
    rw (cancelled p v.transferring)
        (rejects (sanitize_path bytes) now (reset_file ops (flush_write_buffer ops p).1) bad),
    (reset_file_lem ops (flush_write_buffer ops p).1).1 ∙ (flush_lem ops p).1 ∙ v.transferring,
    (reset_file_lem ops (flush_write_buffer ops p).1).0,
  )
