-- ===== src/Protocol/FileBytes.antt =====
-- `handle_file_bytes_fast` of drum/sysex/protocol.h: when a FileBytes message is answered, and
-- which bytes of the file it stands for are taken.
use drum_firmware.Codec.Grouped.{encode_groups, IsByte}
use drum_firmware.Protocol.Defs.{receive_bytes, received, handle_file_bytes_fast}
use drum_firmware.Base.{
  false, length-append, length-take, ap, [], ◌-◌, none, refl, take, append_assoc, sym, ◌∙◌, ◌++◌,
  ◌≤◌, suc, Bool, ◌%◌, Option, All, true, ◌<◌, some, length, ◌≡◌, List, ℕ, ◌+◌, ◌*◌, arith,
}
use drum_firmware.Protocol.Storage.{FileOps, IsReliable}
use drum_firmware.Protocol.State.{
  to_idle, nack, file_error, ack, send, ok, still_running, returned, block_size, Result,
  file_transfer, Protocol,
}
use drum_firmware.Protocol.Loop.{
  after_full, receive_cut, taken-after, receive_fitting, after, receive_hangs, Ends, receive-Ends,
  taken,
}

-- A transfer that waits for bytes.
pub record IsReceiving {W : Type 0} (p : Protocol W) : Type 0 where
  pub transferring : p.state ≡ file_transfer
  pub open_now : p.opened ≡ some true
  pub has_room : length p.buffer < block_size

module _ {W : Type 0} (ops : FileOps W) where
  received_returns :
      (now : ℕ) (r : Option (Bool × Protocol W))
      → Ends ops r
      → (s : Result) × (q : Protocol W) × (received ops now r ≡ returned s q)
  unfolding received
  received_returns now none h = absurd h
  received_returns now (some (true, p)) h = (ok, send ack (record p { last_activity = now }), refl)
  received_returns now (some (false, p)) h = (file_error, send nack (to_idle ops p), refl)

  in_transfer :
      (fuel : ℕ) (body : List ℕ) (now : ℕ) (p : Protocol W)
      → IsReceiving p
      → handle_file_bytes_fast ops fuel body now p
        ≡ received ops now (receive_bytes ops fuel body p)
  unfolding handle_file_bytes_fast
  in_transfer fuel body now p v = rw (v.transferring, v.open_now)

  -- A FileBytes message of whole eight-byte groups is answered, however the writes go: two rounds
  -- of the loop for each group and two more are enough.
  pub file_bytes_returns :
      (fuel n : ℕ) (body : List ℕ) (now : ℕ) (p : Protocol W)
      → IsReceiving p
      → length body ≡ 8 * n
      → 2 * n + 1 < fuel
      → (r : Result) × (q : Protocol W) × (handle_file_bytes_fast ops fuel body now p
          ≡ returned r q)
  file_bytes_returns fuel n body now p v e enough = rw (in_transfer fuel body now p v) (
      received_returns now (receive_bytes ops fuel body p)
        (receive-Ends ops fuel n body p e v.open_now v.has_room (omega arith)))

  -- In an active transfer, with writes that go through, a FileBytes message whose body is not a whole
  -- number of groups is never answered: the loop is still running after any number of rounds.
  pub file_bytes_hangs :
      (contents : W → List ℕ) (fuel : ℕ) (body : List ℕ) (now : ℕ) (p : Protocol W)
      → IsReliable ops contents
      → IsReceiving p
      → 0 < length body % 8
      → handle_file_bytes_fast ops fuel body now p ≡ still_running
  unfolding received
  file_bytes_hangs contents fuel body now p rel v partial = rw (
    in_transfer fuel body now p v,
    receive_hangs ops contents fuel body p rel partial v.open_now v.has_room,
  )

  -- Bytes that fit what is left of the block are taken exactly: the file and the buffer together
  -- hold what they held, then these bytes; the message is acknowledged.
  pub file_bytes_exact :
      (contents : W → List ℕ) (fuel n : ℕ) (bytes : List ℕ) (now : ℕ) (p : Protocol W)
      → IsReliable ops contents
      → IsReceiving p
      → All IsByte bytes
      → length bytes ≡ 7 * suc n
      → length p.buffer + 7 * suc n ≤ block_size
      → (q : Protocol W) × (handle_file_bytes_fast ops (suc (suc fuel)) (encode_groups bytes) now p
          ≡ returned ok (send ack (record q { last_activity = now })))
        × (taken contents q ≡ taken contents p ++ bytes)
  unfolding received
  file_bytes_exact contents fuel n bytes now p rel v h e fits = (
    after ops (record p { buffer = p.buffer ++ bytes }),
    rw (
      in_transfer (suc (suc fuel)) (encode_groups bytes) now p v,
      receive_fitting ops contents fuel n bytes p rel e h v.open_now fits,
    ),
    taken-after ops contents (record p { buffer = p.buffer ++ bytes }) rel v.open_now
        ∙ sym (append_assoc (contents p.world) p.buffer bytes),
  )

  -- A message that arrives when fewer than seven bytes are free in the block: the bytes that fill
  -- the block are taken, and then the whole message again, so they stand in the file twice.
  pub file_bytes_repeats :
      (contents : W → List ℕ) (fuel n : ℕ) (bytes : List ℕ) (now : ℕ) (p : Protocol W)
      → IsReliable ops contents
      → IsReceiving p
      → All IsByte bytes
      → length bytes ≡ 7 * suc n
      → length bytes ≤ block_size
      → block_size < length p.buffer + 7
      → (q : Protocol W) × (handle_file_bytes_fast ops
            (suc (suc (suc fuel)))
            (encode_groups bytes)
            now
            p
          ≡ returned ok (send ack (record q { last_activity = now })))
        × (taken contents q
            ≡ taken contents p ++ take (block_size - length p.buffer) bytes ++ bytes)
  unfolding received
  file_bytes_repeats contents fuel n bytes now p rel v h e small cut = (
    after ops (record f { buffer = f.buffer ++ bytes }),
    rw (
      in_transfer (suc (suc (suc fuel))) (encode_groups bytes) now p v,
      receive_cut ops contents (suc (suc fuel)) n bytes p rel e h v.open_now v.has_room cut,
      receive_fitting ops contents fuel n bytes f rel e h flushed.1
          (omega (arith, ap length flushed.0)),
    ),
    taken-after ops contents (record f { buffer = f.buffer ++ bytes }) rel flushed.1
        ∙ sym (append_assoc (contents f.world) f.buffer bytes)
        ∙ ap (λ l. l ++ bytes)
            (taken-after ops contents q rel v.open_now
              ∙ sym (
                  append_assoc (contents p.world) p.buffer
                    (take (block_size - length p.buffer) bytes))),
  )
    where
      q : Protocol W
      q = record p { buffer = p.buffer ++ take (block_size - length p.buffer) bytes }

      f : Protocol W
      f = after ops q

      flushed : (f.buffer ≡ []) × (f.opened ≡ some true)
      flushed = after_full ops contents q rel v.open_now (
          omega (
            arith,
            v.has_room,
            length-append p.buffer (take (block_size - length p.buffer) bytes),
            length-take (block_size - length p.buffer) bytes,
          ))
