-- ===== src/FirmwareUpdate/Invariant.antt =====
-- What holds of a firmware update between two messages.
use drum_firmware.Codec.{decode_8_to_7, decode_3_to_16bit}
use drum_firmware.FirmwareUpdate.Defs.{
  idle, sha256_size, decode_buffer_size, begin_payload_size, payload_bytes, bytes_written,
  handle_bytes, end_in, announced_size, State, Result, restarted, handle_end, handle_chunk,
  handle_begin, handle_abort, dispatch, decode_and_write, bytes_in, begin_with, receiving,
  write_decoded, Update, WriterOps,
}
use drum_firmware.Base.{
  zero, drop, ltb, ◌+◌, ◌/◌, ◌&&◌, refl, ◌==◌, none, false, ◌∷◌, take, some, if_cases, suc, sub_u32,
  arith, Bool, min, Option, ◌++◌, length, ◌<◌, [], ◌≤◌, true, ◌≡◌, List, ℕ, length-take,
  length-append,
}

-- What the code relies on of the writer: a `begin` that succeeds starts with nothing written, and
-- a `write` that succeeds adds the bytes that it is given.
pub record IsWriter {U : Type 0} (ops : WriterOps U) (written : U → List ℕ) : Type 0 where
  pub begins_empty :
      (total_size : ℕ) (sha : List ℕ) (w : U)
      → (ops.begin total_size sha w).0 ≡ true
      → written (ops.begin total_size sha w).1 ≡ []
  pub write_adds :
      (bytes : List ℕ) (w : U)
      → (ops.write bytes w).0 ≡ true
      → written (ops.write bytes w).1 ≡ written w ++ bytes

-- No more is received than was announced, and while receiving the writer has been given exactly
-- the bytes that are counted.
pub record IsValid {U : Type 0} (written : U → List ℕ) (u : Update U) : Type 0 where
  pub within : u.bytes_received ≤ u.total_size
  pub announced : u.total_size < 4294967296
  pub counted : u.state ≡ receiving → length (written u.writer) ≡ u.bytes_received
  pub nonempty : u.state ≡ receiving → 0 < u.total_size

module _ {U : Type 0} (ops : WriterOps U) (written : U → List ℕ) (law : IsWriter ops written) where
  begin_with-IsValid :
      (total_size : ℕ) (sha : List ℕ) (now : ℕ) (u : Update U)
      → total_size < 4294967296
      → u.state ≡ idle
      → IsValid written u
      → IsValid written (begin_with ops total_size sha now u).1
  unfolding begin_with
  begin_with-IsValid total_size sha now u small i v =
      ground (arith, law.begins_empty total_size sha u.writer)

  write_decoded-IsValid :
      (decoded : List ℕ) (u : Update U)
      → u.state ≡ receiving
      → IsValid written u
      → IsValid written (write_decoded ops decoded u).1
        × ((write_decoded ops decoded u).0 ≡ true
            → (write_decoded ops decoded u).1.state ≡ receiving)
  unfolding write_decoded
  write_decoded-IsValid decoded u s v =
      let to_write : ℕ = min (length decoded) (sub_u32 u.total_size u.bytes_received) in
      ground (
        arith,
        law.write_adds (take to_write decoded) u.writer,
        length-append (written u.writer) (take to_write decoded),
        length-take to_write decoded,
      )

  abbrev LoopResult : Option (Bool × Update U) → Type 0
  LoopResult none = Unit
  LoopResult (some (true, u)) = IsValid written u × (u.state ≡ receiving)
  LoopResult (some (false, u)) = IsValid written u

  decode_and_write-LoopResult :
      (fuel : ℕ) (body : List ℕ) (u : Update U)
      → u.state ≡ receiving
      → IsValid written u
      → LoopResult (decode_and_write ops fuel body u)
  unfolding decode_and_write
  decode_and_write-LoopResult zero body u s v = tt
  decode_and_write-LoopResult (suc fuel) [] u s v = (v, s)
  decode_and_write-LoopResult (suc fuel) (x ∷ xs) u s v =
      let r = decode_8_to_7 (x ∷ xs) decode_buffer_size in
      let kept = write_decoded-IsValid r.1 u s v in
      if_cases LoopResult (length r.1 == 0) (λ _. (v, s))
        λ _.
          if_cases LoopResult (write_decoded ops r.1 u).0
            (λ on.
              decode_and_write-LoopResult fuel (drop r.0 (x ∷ xs)) (write_decoded ops r.1 u).1
                (kept.1 on) kept.0)
            (λ off. stopped (write_decoded ops r.1 u) off kept.0)
    where
      stopped : (w : Bool × Update U) → w.0 ≡ false → IsValid written w.1 → LoopResult (some w)
      stopped (false, w) e k = k
      stopped (true, w) e k = cc

  -- What a call leaves, where it returns.
  abbrev pub Leaves : Option (Result × Update U) → Type 0
  Leaves none = Unit
  Leaves (some (r, u)) = IsValid written u

  restarted-IsValid :
      (s : State) (u : Update U)
      → u.state ≡ s
      → IsValid written u
      → IsValid written (restarted ops s u) × ((restarted ops s u).state ≡ idle)
  unfolding restarted
  restarted-IsValid idle u s v = (v, s)
  restarted-IsValid receiving u s v = ground arith

  begin-IsValid :
      (body : List ℕ) (now : ℕ) (u : Update U)
      → IsValid written u
      → IsValid written (handle_begin ops body now u).1
  unfolding handle_begin announced_size
  begin-IsValid body now u v =
      let bytes = payload_bytes (decode_3_to_16bit body (begin_payload_size / 2 + 1)) in
      let w = restarted-IsValid u.state u refl v in
      if_cases (λ (r : Result × Update U). IsValid written r.1)
        (ltb (length bytes) begin_payload_size) (λ _. ground (arith, w.0))
        (λ _.
          begin_with-IsValid (announced_size bytes) (take sha256_size (drop 4 bytes)) now
            (restarted ops u.state u) (omega arith) w.1 w.0)

  bytes-Leaves :
      (s : State) (fuel : ℕ) (body : List ℕ) (now : ℕ) (u : Update U)
      → u.state ≡ s
      → IsValid written u
      → Leaves (bytes_in ops s fuel body now u)
  unfolding bytes_in
  bytes-Leaves idle fuel body now u s v = ground arith
  bytes-Leaves receiving fuel body now u s v =
      done (decode_and_write ops fuel body u) (decode_and_write-LoopResult fuel body u s v)
    where
      done : (o : Option (Bool × Update U)) → LoopResult o → Leaves (bytes_written ops now o)
      done none h = unfold bytes_written in tt
      done (some (true, w)) h = unfold bytes_written in ground (arith, h.0)
      done (some (false, w)) h = unfold bytes_written in h

  end-IsValid : (u : Update U) → IsValid written u → IsValid written (handle_end ops u).1
  unfolding handle_end end_in
  end-IsValid u v = ground arith

  abort-IsValid : (u : Update U) → IsValid written u → IsValid written (handle_abort ops u).1
  unfolding handle_abort
  abort-IsValid u v = ground (arith, restarted-IsValid u.state u refl v)

  dispatch-Leaves :
      (fuel tag : ℕ) (body : List ℕ) (now : ℕ) (u : Update U)
      → IsValid written u
      → Leaves (dispatch ops fuel tag body now u)
  unfolding dispatch handle_bytes
  dispatch-Leaves fuel tag body now u v =
      if_cases Leaves (tag == 0x20) (λ _. begin-IsValid body now u v)
        λ _.
          if_cases Leaves (tag == 0x21) (λ _. bytes-Leaves u.state fuel body now u refl v)
            λ _.
              if_cases Leaves (tag == 0x22) (λ _. end-IsValid u v)
                λ _. if_cases Leaves (tag == 0x23) (λ _. abort-IsValid u v) (λ _. v)

  -- Every message, in every state, with any answer of the writer that the law allows, keeps the
  -- invariant: the writer holds exactly the bytes that are counted, and no more than announced.
  pub update_chunk-IsValid :
      (fuel : ℕ) (chunk : List ℕ) (now : ℕ) (u : Update U)
      → IsValid written u
      → Leaves (handle_chunk ops fuel chunk now u)
  unfolding handle_chunk
  update_chunk-IsValid fuel [] now u v = v
  update_chunk-IsValid fuel (_ ∷ []) now u v = v
  update_chunk-IsValid fuel (_ ∷ _ ∷ []) now u v = v
  update_chunk-IsValid fuel (_ ∷ _ ∷ _ ∷ []) now u v = v
  update_chunk-IsValid fuel (_ ∷ _ ∷ _ ∷ _ ∷ []) now u v = v
  update_chunk-IsValid fuel (m0 ∷ m1 ∷ m2 ∷ device ∷ tag ∷ body) now u v =
      if_cases Leaves (m0 == 0x00 && m1 == 0x22 && m2 == 0x01 && device == 0x65)
        (λ _. dispatch-Leaves fuel tag body now u v) (λ _. v)
