-- ===== src/FirmwareUpdate/Bytes.antt =====
-- The byte loop of drum/sysex/firmware_update.h: it ends on every message, and takes exactly the
-- announced bytes.
use drum_firmware.Codec.Grouped.{
  decode_8-encode, length-encode_groups, encode_groups, decode_8_count, IsByte,
}
use drum_firmware.Codec.{decode_8_to_7}
use drum_firmware.FirmwareUpdate.Invariant.{IsValid, IsWriter}
use drum_firmware.FirmwareUpdate.Defs.{
  ack, send, ok, write_decoded, handle_bytes, decode_buffer_size, dispatch, receiving, handle_chunk,
  idle, Result, Update, State, decode_and_write, bytes_written, bytes_in, WriterOps,
}
use drum_firmware.Base.{
  sym, ap, ◌∙◌, take-min, sub_u32, ◌++◌, zero, [], take, refl, drop, ◌+◌, ◌&&◌, ◌==◌, ◌-◌, ◌≤◌,
  if_cases, ◌*◌, ◌∷◌, All, suc, ◌≡◌, false, arith, ◌<◌, true, none, length, some, Bool, Option,
  List, ℕ, length-drop, length-take, drop_all,
}

module _ {U : Type 0} (ops : WriterOps U) where
  abbrev Ends : {A : Type 0} → Option A → Type 0
  Ends none = ⊥
  Ends (some r) = Unit

  loop-Ends :
      (fuel : ℕ) (body : List ℕ) (u : Update U)
      → length body < fuel
      → Ends (decode_and_write ops fuel body u)
  unfolding decode_and_write
  loop-Ends zero body u h = absurd (omega arith)
  loop-Ends (suc fuel) [] u h = tt
  loop-Ends (suc fuel) (x ∷ xs) u h =
      let r = decode_8_to_7 (x ∷ xs) decode_buffer_size in
      if_cases Ends (length r.1 == 0) (λ _. tt)
        λ some_read.
          if_cases Ends (write_decoded ops r.1 u).0
            (λ on. loop-Ends fuel (drop r.0 (x ∷ xs)) (write_decoded ops r.1 u).1 (
              ground (arith, length-drop r.0 (x ∷ xs), decode_8_count (x ∷ xs) decode_buffer_size)))
            (λ off. tt)

  written-Ends : (now : ℕ) (o : Option (Bool × Update U)) → Ends o → Ends (bytes_written ops now o)
  unfolding bytes_written
  written-Ends now none h = h
  written-Ends now (some (true, u)) h = tt
  written-Ends now (some (false, u)) h = tt

  bytes-Ends :
      (s : State) (fuel : ℕ) (body : List ℕ) (now : ℕ) (u : Update U)
      → length body < fuel
      → Ends (bytes_in ops s fuel body now u)
  unfolding bytes_in
  bytes-Ends idle fuel body now u h = tt
  bytes-Ends receiving fuel body now u h =
      written-Ends now (decode_and_write ops fuel body u) (loop-Ends fuel body u h)

  -- Every chunk is answered or ignored: with fuel beyond the chunk's length the handler returns,
  -- also on a body that is no whole number of groups.
  pub handle_chunk_returns :
      (fuel : ℕ) (chunk : List ℕ) (now : ℕ) (u : Update U)
      → length chunk < fuel
      → (r : Result × Update U) × (handle_chunk ops fuel chunk now u ≡ some r)
  handle_chunk_returns fuel chunk now u h = value (handle_chunk ops fuel chunk now u) (ends chunk h)
    where
      value : (o : Option (Result × Update U)) → Ends o → (r : Result × Update U) × (o ≡ some r)
      value none e = absurd e
      value (some r) e = (r, refl)

      ends : (c : List ℕ) → length c < fuel → Ends (handle_chunk ops fuel c now u)
      ends [] k = unfold handle_chunk in tt
      ends (_ ∷ []) k = unfold handle_chunk in tt
      ends (_ ∷ _ ∷ []) k = unfold handle_chunk in tt
      ends (_ ∷ _ ∷ _ ∷ []) k = unfold handle_chunk in tt
      ends (_ ∷ _ ∷ _ ∷ _ ∷ []) k = unfold handle_chunk in tt
      ends (m0 ∷ m1 ∷ m2 ∷ device ∷ tag ∷ body) k =
          unfold handle_chunk dispatch handle_bytes in
          if_cases Ends (m0 == 0x00 && m1 == 0x22 && m2 == 0x01 && device == 0x65)
            (λ _.
              if_cases Ends (tag == 0x20) (λ _. tt)
                λ _.
                  if_cases Ends (tag == 0x21)
                    (λ _. bytes-Ends u.state fuel body now u (omega arith))
                    λ _.
                      if_cases Ends (tag == 0x22) (λ _. tt)
                        λ _. if_cases Ends (tag == 0x23) (λ _. tt) (λ _. tt))
            (λ _. tt)

  taken_write :
      (bytes : List ℕ) (u : Update U)
      → u.bytes_received ≤ u.total_size
      → u.total_size < 4294967296
      → 7 ≤ length bytes
      → length bytes < u.total_size - u.bytes_received + 7
      → (ops.write (take (u.total_size - u.bytes_received) bytes) u.writer).0 ≡ true
      → write_decoded ops bytes u ≡ (
        true,
        record u {
          writer = (ops.write (take (u.total_size - u.bytes_received) bytes) u.writer).1;
          bytes_received = u.bytes_received + length (take (u.total_size - u.bytes_received) bytes);
        },
      )
  unfolding write_decoded
  taken_write bytes u within small some_bytes near went =
      rw (exact, take-min (u.total_size - u.bytes_received) bytes, went)
        (ground (arith, length-take (u.total_size - u.bytes_received) bytes))
    where
      exact : sub_u32 u.total_size u.bytes_received ≡ u.total_size - u.bytes_received
      exact = omega arith

  loop_once :
      (fuel : ℕ) (body decoded : List ℕ) (u v : Update U)
      → decode_8_to_7 body decode_buffer_size ≡ (length body, decoded)
      → 0 < length body
      → 0 < length decoded
      → write_decoded ops decoded u ≡ (true, v)
      → decode_and_write ops (suc (suc fuel)) body u ≡ some (true, v)
  unfolding decode_and_write
  loop_once fuel [] decoded u v e some_body some_bytes w = absurd (omega arith)
  loop_once fuel (x ∷ xs) decoded u v e some_body some_bytes w =
      rw (e, w, drop_all (length (x ∷ xs)) (x ∷ xs) (omega arith)) (ground arith)

  while_receiving :
      (fuel : ℕ) (body : List ℕ) (now : ℕ) (u : Update U)
      → u.state ≡ receiving
      → handle_bytes ops fuel body now u ≡ bytes_written ops now (decode_and_write ops fuel body u)
  unfolding handle_bytes bytes_in
  while_receiving fuel body now u s = ap (λ (t : State). bytes_in ops t fuel body now u) s

  -- Whole groups of bytes that run at most six past the announced size, with a writer that takes
  -- them: the writer is given exactly the bytes up to the announced size, in order, and the message
  -- is acknowledged.
  pub handle_bytes_exact :
      (written : U → List ℕ) (fuel n : ℕ) (bytes : List ℕ) (now : ℕ) (u : Update U)
      → IsWriter ops written
      → IsValid written u
      → u.state ≡ receiving
      → All IsByte bytes
      → length bytes ≡ 7 * suc n
      → suc n ≤ 256
      → length bytes < u.total_size - u.bytes_received + 7
      → (ops.write (take (u.total_size - u.bytes_received) bytes) u.writer).0 ≡ true
      → let to_write = take (u.total_size - u.bytes_received) bytes in
        (v : Update U) × (handle_bytes ops (suc (suc fuel)) (encode_groups bytes) now u
          ≡ some (ok, send ack (record v { last_activity = now })))
        × (written v.writer ≡ written u.writer ++ to_write)
        × (v.bytes_received ≡ u.bytes_received + length to_write)
  handle_bytes_exact written fuel n bytes now u law v s h e small near went = (
    record u {
      writer = (ops.write (take (u.total_size - u.bytes_received) bytes) u.writer).1;
      bytes_received = u.bytes_received + length (take (u.total_size - u.bytes_received) bytes);
    },
    while_receiving (suc (suc fuel)) (encode_groups bytes) now u s
        ∙ ap (bytes_written ops now) (
            loop_once fuel (encode_groups bytes) bytes u _ whole (omega (arith, size)) (omega arith)
              (taken_write bytes u v.within v.announced (omega arith) near went))
        ∙ unfold bytes_written in refl,
    law.write_adds (take (u.total_size - u.bytes_received) bytes) u.writer went,
    refl,
  )
    where
      size : length (encode_groups bytes) ≡ 8 * suc n
      size = length-encode_groups (suc n) bytes e

      whole :
          decode_8_to_7 (encode_groups bytes) decode_buffer_size
          ≡ (length (encode_groups bytes), bytes)
      whole =
          decode_8-encode (suc n) decode_buffer_size bytes e h (omega arith)
          ∙ ap (λ (k : ℕ). (k, bytes)) (sym size)
