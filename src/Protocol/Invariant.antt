-- ===== src/Protocol/Invariant.antt =====
-- What holds of the protocol between two calls.
use drum_firmware.Base.{
  ◌==◌, if_cases, ℕ, zero, suc, ◌-◌, ◌≤◌, ◌<◌, ◌≡◌, ◌≢◌, refl, Bool, true, false, not, ◌&&◌, Option,
  none, some, List, [], ◌∷◌, ◌++◌, length, length-append, eq_nil_of_length, drop, leb,
  if◌then◌else◌, arith,
}
use drum_firmware.Codec.{decode_8_to_7, decode_3_to_16bit}
use drum_firmware.Protocol.Tag
use drum_firmware.Codec.Grouped.{decode_8_count}
use drum_firmware.Protocol.Storage.{FileOps}
use drum_firmware.Protocol.Path.{
  Sanitized, success, path_too_long, invalid_character, sanitize_path,
}
use drum_firmware.Protocol.State.{
  block_size, sysex_max_size, is_idle, State, idle, file_transfer, Result, Protocol, Outcome,
  returned, overrun, still_running, reset_file, to_idle, emplace_file, flush_write_buffer,
}
use drum_firmware.Protocol.Defs.{
  value_bytes, receive_bytes, handle_file_bytes_fast, handle_begin_file_write, handle_packet,
  handle_no_body, end_transfer, cancel_previous, open_for_writing, received, dispatch,
  file_bytes_in, handle_empty, no_body_result, with_values, handle_chunk, check_timeout,
}

-- No file is open while idle, an open file has a valid handle, and the buffer has room for a byte
-- whenever a file is open.
pub record IsValid {W : Type 0} (p : Protocol W) : Type 0 where
  pub closed_when_idle : p.state ≡ idle → p.opened ≡ none
  pub handle_valid : p.opened ≢ some false
  pub in_buffer : length p.buffer ≤ block_size
  pub room_when_open : p.opened ≡ some true → length p.buffer < block_size

-- A property of what a call leaves, if it returns.
abbrev pub Leaves : {W : Type 0} → (Protocol W → Type 0) → Outcome W → Type 0
Leaves P (returned r p) = P p
Leaves P overrun = Unit
Leaves P still_running = Unit

module _ {W : Type 0} (ops : FileOps W) where
  pub to_idle-IsValid : (p : Protocol W) → length p.buffer ≤ block_size → IsValid (to_idle ops p)
  unfolding reset_file
  to_idle-IsValid p h = ground arith

  pub reset_file_lem :
      (p : Protocol W)
      → ((reset_file ops p).opened ≡ none)
        × ((reset_file ops p).state ≡ p.state)
        × ((reset_file ops p).buffer ≡ p.buffer)
  unfolding reset_file
  reset_file_lem p = ground arith

  pub flush_lem :
      (p : Protocol W)
      → ((flush_write_buffer ops p).1.opened ≡ p.opened)
        × ((flush_write_buffer ops p).1.state ≡ p.state)
        × (length (flush_write_buffer ops p).1.buffer ≤ length p.buffer)
        × ((flush_write_buffer ops p).0 ≡ true
            → p.opened ≢ none
            → (flush_write_buffer ops p).1.buffer ≡ [])
  unfolding flush_write_buffer
  flush_lem p = ground (arith, eq_nil_of_length p.buffer)

  -- The loop: with a file open it keeps the invariant, and a failed flush leaves the buffer in bounds.
  abbrev LoopResult : State → Option (Bool × Protocol W) → Type 0
  LoopResult s none = Unit
  LoopResult s (some (true, q)) = IsValid q × (q.state ≡ s)
  LoopResult s (some (false, q)) = length q.buffer ≤ block_size

  receive-LoopResult :
      (fuel : ℕ) (body : List ℕ) (p : Protocol W)
      → p.state ≡ file_transfer
      → p.opened ≡ some true
      → length p.buffer < block_size
      → LoopResult file_transfer (receive_bytes ops fuel body p)
  unfolding receive_bytes
  receive-LoopResult zero body p s o h = tt
  receive-LoopResult (suc fuel) [] p s o h = ground arith
  receive-LoopResult (suc fuel) (x ∷ xs) p s o h =
      if_cases (LoopResult file_transfer) (full && not f.0)
        (λ _. omega (arith, counts, flush_lem q))
        λ go_on.
          receive-LoopResult fuel (drop r.0 (x ∷ xs)) (if full then f.1 else q)
            (ground (arith, flush_lem q)) (ground (arith, flush_lem q))
            (ground (arith, flush_lem q))
    where
      r : ℕ × List ℕ
      r = decode_8_to_7 (x ∷ xs) (block_size - length p.buffer)

      q : Protocol W
      q = record p { buffer = p.buffer ++ r.1 }

      f : Bool × Protocol W
      f = flush_write_buffer ops q

      full : Bool
      full = leb block_size (length q.buffer)

      counts : length q.buffer ≤ block_size
      counts = omega (
        arith,
        length-append p.buffer r.1,
        decode_8_count (x ∷ xs) (block_size - length p.buffer),
      )

  cancel_previous_lem :
      (p : Protocol W)
      → IsValid p
      → ((cancel_previous ops p).opened ≡ none)
        × (length (cancel_previous ops p).buffer ≤ block_size)
  unfolding cancel_previous
  cancel_previous_lem p v =
      ground (arith, flush_lem p, reset_file_lem p, reset_file_lem (flush_write_buffer ops p).1)

  open-IsValid :
      (path : Sanitized) (now : ℕ) (p : Protocol W)
      → p.opened ≡ none
      → length p.buffer ≤ block_size
      → Leaves IsValid (open_for_writing ops path now p)
  unfolding open_for_writing emplace_file reset_file
  open-IsValid (success path) now p o h = ground arith
  open-IsValid path_too_long now p o h = ground arith
  open-IsValid invalid_character now p o h = ground arith

  begin-IsValid :
      (bytes : List ℕ) (now : ℕ) (p : Protocol W)
      → IsValid p
      → Leaves IsValid (handle_begin_file_write ops bytes now p)
  unfolding handle_begin_file_write
  begin-IsValid bytes now p v =
      let (o, h) = cancel_previous_lem p v in
      open-IsValid (sanitize_path bytes) now (cancel_previous ops p) o h

  received-IsValid :
      (now : ℕ) (r : Option (Bool × Protocol W))
      → LoopResult file_transfer r
      → Leaves IsValid (received ops now r)
  unfolding received
  received-IsValid now none h = tt
  received-IsValid now (some (true, p)) h = ground arith
  received-IsValid now (some (false, p)) h = ground (arith, to_idle-IsValid p h)

  file_bytes-IsValid :
      (s : State) (o : Option Bool) (fuel : ℕ) (body : List ℕ) (now : ℕ) (p : Protocol W)
      → p.state ≡ s
      → p.opened ≡ o
      → IsValid p
      → Leaves IsValid (file_bytes_in ops s o fuel body now p)
  unfolding file_bytes_in
  file_bytes-IsValid idle o fuel body now p es eo v = ground arith
  file_bytes-IsValid file_transfer none fuel body now p es eo v = ground arith
  file_bytes-IsValid file_transfer (some false) fuel body now p es eo v = absurd (v.handle_valid eo)
  file_bytes-IsValid file_transfer (some true) fuel body now p es eo v =
      received-IsValid now (receive_bytes ops fuel body p)
        (receive-LoopResult fuel body p es eo (v.room_when_open eo))

  end_transfer-IsValid : (p : Protocol W) → IsValid p → Leaves IsValid (end_transfer ops p)
  unfolding end_transfer
  end_transfer-IsValid p v =
      ground (arith, flush_lem p, to_idle-IsValid (flush_write_buffer ops p).1)

  packet-IsValid :
      (tag : ℕ) (values : List ℕ) (now : ℕ) (p : Protocol W)
      → IsValid p
      → Leaves IsValid (handle_packet ops tag values now p)
  unfolding handle_packet
  packet-IsValid tag values now p v =
      ground (arith, begin-IsValid (value_bytes values) now p, to_idle-IsValid p)

  no_body-IsValid :
      (tag : ℕ) (p : Protocol W) (r : Result) (q : Protocol W)
      → IsValid p
      → handle_no_body ops tag p ≡ some (r, q)
      → IsValid q
  unfolding handle_no_body
  no_body-IsValid tag p r q v e = ground arith

  empty-IsValid : (tag : ℕ) (p : Protocol W) → IsValid p → Leaves IsValid (handle_empty ops tag p)
  unfolding handle_empty
  empty-IsValid tag p v =
      if_cases (Leaves IsValid) (not (is_idle p.state) && tag == Tag.end_file_transfer)
        (λ _. end_transfer-IsValid p v) (λ _. result (handle_no_body ops tag p) refl)
    where
      result :
          (o : Option (Result × Protocol W))
          → handle_no_body ops tag p ≡ o
          → Leaves IsValid (no_body_result ops o p)
      result none e = unfold no_body_result in ground (arith, to_idle-IsValid p)
      result (some (r, q)) e = unfold no_body_result in no_body-IsValid tag p r q v e

  values-IsValid :
      (tag : ℕ) (values body : List ℕ) (now : ℕ) (p : Protocol W)
      → IsValid p
      → Leaves IsValid (with_values ops tag values body now p)
  unfolding with_values
  values-IsValid tag [] [] now p v = empty-IsValid tag p v
  values-IsValid tag [] (_ ∷ _) now p v = ground arith
  values-IsValid tag (x ∷ xs) body now p v = packet-IsValid tag (x ∷ xs) now p v

  dispatch-IsValid :
      (fuel tag : ℕ) (body : List ℕ) (now : ℕ) (p : Protocol W)
      → IsValid p
      → Leaves IsValid (dispatch ops fuel tag body now p)
  unfolding dispatch handle_file_bytes_fast
  dispatch-IsValid fuel tag body now p v =
      if_cases (Leaves IsValid) (tag == Tag.file_bytes)
        (λ _. file_bytes-IsValid p.state p.opened fuel body now p refl refl v)
        λ _.
          if_cases (Leaves IsValid) (tag == Tag.set_sequencer_state) (λ _. v)
            λ _.
              if_cases (Leaves IsValid) (tag == Tag.get_setting) (λ _. v)
                λ _.
                  if_cases (Leaves IsValid) (tag == Tag.set_setting) (λ _. v)
                    λ _. values-IsValid tag (decode_3_to_16bit body sysex_max_size) body now p v

  -- Whatever chunk arrives, in whatever state, and however the file operations answer: if the
  -- handler returns, the invariant holds again.
  pub handle_chunk-IsValid :
      (fuel : ℕ) (chunk : List ℕ) (now : ℕ) (p : Protocol W)
      → IsValid p
      → Leaves IsValid (handle_chunk ops fuel chunk now p)
  unfolding handle_chunk
  handle_chunk-IsValid fuel [] now p v = v
  handle_chunk-IsValid fuel (_ ∷ []) now p v = v
  handle_chunk-IsValid fuel (_ ∷ _ ∷ []) now p v = v
  handle_chunk-IsValid fuel (_ ∷ _ ∷ _ ∷ []) now p v = v
  handle_chunk-IsValid fuel (_ ∷ _ ∷ _ ∷ _ ∷ []) now p v = v
  handle_chunk-IsValid fuel (m0 ∷ m1 ∷ m2 ∷ device ∷ tag ∷ body) now p v =
      if_cases (Leaves IsValid) (m0 == 0x00 && m1 == 0x22 && m2 == 0x01 && device == 0x65)
        (λ _. dispatch-IsValid fuel tag body now p v) (λ _. v)

  -- A timeout keeps the invariant.
  pub check_timeout-IsValid :
      (now : ℕ) (p : Protocol W) → IsValid p → IsValid (check_timeout ops now p).1
  unfolding check_timeout
  check_timeout-IsValid now p v =
      ground (arith, flush_lem p, to_idle-IsValid (flush_write_buffer ops p).1)
