-- ===== src/Protocol/Loop.antt =====
-- The loop of `handle_file_bytes_fast`: when it ends, and what it leaves in the file and the buffer.
use drum_firmware.Base.{
  refl, ◌∙◌, take, drop_all, All, ◌≤◌, ◌%◌, append-nil, ℕ, zero, suc, ◌+◌, ◌-◌, ◌*◌, ◌/◌, ◌<◌, ◌≡◌,
  Bool, true, not, ◌&&◌, Option, none, some, List, [], ◌∷◌, ◌++◌, length, length-append,
  length-drop, eq_nil_of_length, drop, leb, if◌then◌else◌, arith, Bool-cases, if_cases, inl, inr,
  min,
}
use drum_firmware.Codec.{decode_8_to_7}
use drum_firmware.Codec.Grouped.{
  decode_8-encode, decode_8-encode_cut, length-encode_groups, encode_groups, IsByte, decode_8_count,
}
use drum_firmware.Protocol.Storage.{IsReliable, FileOps}
use drum_firmware.Protocol.State.{block_size, Protocol, flush_write_buffer}
use drum_firmware.Protocol.Defs.{receive_bytes}

-- The bytes of the transfer that the protocol has taken: those in the file, then those buffered.
abbrev pub taken : {W : Type 0} → (W → List ℕ) → Protocol W → List ℕ
taken contents p = contents p.world ++ p.buffer

module _ {W : Type 0} (ops : FileOps W) where
  abbrev pub Ends : Option (Bool × Protocol W) → Type 0
  Ends none = ⊥
  Ends (some r) = Unit

  pub flush_open :
      (p : Protocol W)
      → p.opened ≡ some true
      → (flush_write_buffer ops p).0 ≡ true
      → ((flush_write_buffer ops p).1.buffer ≡ [])
        × ((flush_write_buffer ops p).1.opened ≡ some true)
  unfolding flush_write_buffer
  flush_open p o f = ground (arith, eq_nil_of_length p.buffer)

  -- Two rounds for each group at most: a round that reads nothing fills the buffer.
  pub receive-Ends :
      (fuel n : ℕ) (body : List ℕ) (p : Protocol W)
      → length body ≡ 8 * n
      → p.opened ≡ some true
      → length p.buffer < block_size
      → 2 * n + (length p.buffer + 6) / block_size < fuel
      → Ends (receive_bytes ops fuel body p)
  unfolding receive_bytes
  receive-Ends zero n body p e o h enough = absurd (omega arith)
  receive-Ends (suc fuel) n [] p e o h enough = tt
  receive-Ends (suc fuel) n (x ∷ xs) p e o h enough =
      if_cases Ends (full && not f.0) (λ _. tt)
        λ go_on.
          receive-Ends fuel (n - min n (room / 7)) rest (if full then f.1 else q)
            (omega (arith, counts, length-drop r.0 (x ∷ xs))) (ground (arith, flush_open q o))
            (ground (arith, flush_open q o))
            (elim (Bool-cases full) [
              | inl is_full ↦ rw is_full (ground (arith, flush_open q o, counts, buffered))
              | inr not_full ↦ rw not_full (ground (arith, counts, buffered))
            ])
    where
      room : ℕ
      room = block_size - length p.buffer

      r : ℕ × List ℕ
      r = decode_8_to_7 (x ∷ xs) room

      rest : List ℕ
      rest = drop r.0 (x ∷ xs)

      q : Protocol W
      q = record p { buffer = p.buffer ++ r.1 }

      f : Bool × Protocol W
      f = flush_write_buffer ops q

      full : Bool
      full = leb block_size (length q.buffer)

      counts : (r.0 ≡ 8 * min n (room / 7)) × (length r.1 ≡ min (7 * n) room)
      counts = omega (arith, decode_8_count (x ∷ xs) room)

      buffered : length q.buffer ≡ length p.buffer + min (7 * n) room
      buffered = omega (arith, length-append p.buffer r.1, counts)

  pub flush_ok :
      (contents : W → List ℕ) (p : Protocol W)
      → IsReliable ops contents
      → p.opened ≡ some true
      → ((flush_write_buffer ops p).0 ≡ true)
        × (taken contents (flush_write_buffer ops p).1 ≡ taken contents p)
  unfolding flush_write_buffer
  flush_ok contents p rel o = ground (
    arith,
    rel.writes_all p.buffer p.world,
    rel.appends p.buffer p.world,
    append-nil (contents p.world ++ p.buffer),
  )

  pub receive_hangs :
      (contents : W → List ℕ) (fuel : ℕ) (body : List ℕ) (p : Protocol W)
      → IsReliable ops contents
      → 0 < length body % 8
      → p.opened ≡ some true
      → length p.buffer < block_size
      → receive_bytes ops fuel body p ≡ none
  unfolding receive_bytes
  receive_hangs contents zero body p rel partial o h = refl
  receive_hangs contents (suc fuel) [] p rel partial o h = absurd (omega arith)
  receive_hangs contents (suc fuel) (x ∷ xs) p rel partial o h =
      if_cases (λ o. o ≡ none) (full && not f.0) (λ bad. ground (arith, flush_ok contents q rel o))
        λ go_on.
          receive_hangs contents fuel (drop r.0 (x ∷ xs)) (if full then f.1 else q) rel
            (omega (arith, counts, length-drop r.0 (x ∷ xs))) (ground (arith, flush_open q o))
            (ground (arith, flush_open q o))
    where
      room : ℕ
      room = block_size - length p.buffer

      r : ℕ × List ℕ
      r = decode_8_to_7 (x ∷ xs) room

      q : Protocol W
      q = record p { buffer = p.buffer ++ r.1 }

      f : Bool × Protocol W
      f = flush_write_buffer ops q

      full : Bool
      full = leb block_size (length q.buffer)

      counts : (r.0 ≡ 8 * min (length (x ∷ xs) / 8) (room / 7)) × (length r.1 ≤ room)
      counts = omega (arith, decode_8_count (x ∷ xs) room)

  -- A message that is taken in one round, and perhaps one flush.
  unfoldable pub after : Protocol W → Protocol W
  after q = if leb block_size (length q.buffer) then (flush_write_buffer ops q).1 else q

  pub taken-after :
      (contents : W → List ℕ) (q : Protocol W)
      → IsReliable ops contents
      → q.opened ≡ some true
      → taken contents (after q) ≡ taken contents q
  unfolding after
  taken-after contents q rel o = ground (arith, flush_ok contents q rel o)

  pub after_full :
      (contents : W → List ℕ) (q : Protocol W)
      → IsReliable ops contents
      → q.opened ≡ some true
      → block_size ≤ length q.buffer
      → ((after q).buffer ≡ []) × ((after q).opened ≡ some true)
  unfolding after
  after_full contents q rel o h = ground (arith, flush_open q o, flush_ok contents q rel o)

  -- One round of the loop, where the write goes through.
  receive_round :
      (contents : W → List ℕ) (fuel : ℕ) (body : List ℕ) (p : Protocol W) (r : ℕ × List ℕ)
      → IsReliable ops contents
      → p.opened ≡ some true
      → 0 < length body
      → decode_8_to_7 body (block_size - length p.buffer) ≡ r
      → receive_bytes ops (suc fuel) body p
        ≡ receive_bytes ops fuel (drop r.0 body) (after (record p { buffer = p.buffer ++ r.1 }))
  unfolding receive_bytes after
  receive_round contents fuel [] p r rel o some_left e = absurd (omega arith)
  receive_round contents fuel (x ∷ xs) p r rel o some_left e =
      rw e (ground (arith, flush_ok contents (record p { buffer = p.buffer ++ r.1 }) rel o))

  pub receive_done :
      (fuel : ℕ) (body : List ℕ) (p : Protocol W)
      → body ≡ []
      → receive_bytes ops (suc fuel) body p ≡ some (true, p)
  unfolding receive_bytes
  receive_done fuel body p e = rw e

  pub receive_fitting :
      (contents : W → List ℕ) (fuel n : ℕ) (bytes : List ℕ) (p : Protocol W)
      → IsReliable ops contents
      → length bytes ≡ 7 * suc n
      → All IsByte bytes
      → p.opened ≡ some true
      → length p.buffer + 7 * suc n ≤ block_size
      → receive_bytes ops (suc (suc fuel)) (encode_groups bytes) p
        ≡ some (true, after (record p { buffer = p.buffer ++ bytes }))
  receive_fitting contents fuel n bytes p rel e h o fits =
      receive_round contents (suc fuel) (encode_groups bytes) p (8 * suc n, bytes) rel o
        (omega (arith, length-encode_groups (suc n) bytes e))
        (decode_8-encode (suc n) (block_size - length p.buffer) bytes e h (omega arith))
      ∙ receive_done fuel (drop (8 * suc n) (encode_groups bytes))
          (after (record p { buffer = p.buffer ++ bytes }))
          (drop_all (8 * suc n) (encode_groups bytes)
            (omega (arith, length-encode_groups (suc n) bytes e)))

  pub receive_cut :
      (contents : W → List ℕ) (fuel n : ℕ) (bytes : List ℕ) (p : Protocol W)
      → IsReliable ops contents
      → length bytes ≡ 7 * suc n
      → All IsByte bytes
      → p.opened ≡ some true
      → length p.buffer < block_size
      → block_size < length p.buffer + 7
      → receive_bytes ops (suc fuel) (encode_groups bytes) p
        ≡ receive_bytes ops fuel
            (encode_groups bytes)
            (after (record p { buffer = p.buffer ++ take (block_size - length p.buffer) bytes }))
  receive_cut contents fuel n bytes p rel e h o room cut =
      receive_round contents fuel (encode_groups bytes) p
        (0, take (block_size - length p.buffer) bytes) rel o
        (omega (arith, length-encode_groups (suc n) bytes e))
        (decode_8-encode_cut n (block_size - length p.buffer) bytes e h (omega arith) (omega arith))
