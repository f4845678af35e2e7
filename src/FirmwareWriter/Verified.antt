-- ===== src/FirmwareWriter/Verified.antt =====
-- An image is reported ready only when the hash of the whole stream is the announced one.
use drum_firmware.FirmwareWriter.Sector.{FlashOps}
use drum_firmware.FirmwareWriter.Defs.{
  sha256_size, begin_at, abort, resolve_target_partition, Writer, write, finalize, begin,
  equal_bytes, Platform,
}
use drum_firmware.Base.{
  ◌∙◌, sym, append_assoc, append-nil, ap, flatten, inr, inl, ◌==◌, none, some, Bool-cases, false,
  Option, All, length-append, ◌++◌, refl, if◌then◌else◌, ◌≤◌, ◌∷◌, ◌<◌, arith, [], ◌+◌, true,
  length, Bool, ◌≡◌, List, ℕ,
}

pub equal_bytes-eq : (xs ys : List ℕ) → equal_bytes xs ys ≡ true → xs ≡ ys
unfolding equal_bytes
equal_bytes-eq [] [] e = refl
equal_bytes-eq [] (y ∷ ys) e = cc
equal_bytes-eq (x ∷ xs) [] e = cc
equal_bytes-eq (x ∷ xs) (y ∷ ys) e = ground (arith, equal_bytes-eq xs ys)

-- What the SHA-256 hardware documents: started anew it has been fed nothing, an update feeds it
-- the bytes, and the result is the digest of all that it was fed.
pub record IsHash {H : Type 0} (platform : Platform H) (fed : H → List ℕ) (digest : List ℕ → List ℕ)
    : Type 0 where
  pub starts_empty : (h : H) → (platform.sha_start h).0 ≡ true → fed (platform.sha_start h).1 ≡ []
  pub update_feeds : (bytes : List ℕ) (h : H) → fed (platform.sha_update bytes h) ≡ fed h ++ bytes
  pub finish_digests : (h : H) → platform.sha_finish h ≡ digest (fed h)

module _ {F H : Type 0} (ops : FlashOps F) (platform : Platform H) where
  -- `begin`, then `write` for each chunk, each of them with success.
  unfoldable pub write_all : List (List ℕ) → Writer F H → Bool × Writer F H
  write_all [] w = (true, w)
  write_all (chunk ∷ chunks) w =
      let r = write ops platform chunk w in
      let rest = write_all chunks r.1 in if r.0 then rest else r

  -- While a stream comes in.
  record IsStream (fed : H → List ℕ) (total : ℕ) (sha stream : List ℕ) (w : Writer F H)
      : Type 0 where
    all_fed : fed w.sha ≡ stream
    seen : w.stream_bytes_seen ≡ length stream
    total_kept : w.total_stream_size ≡ total
    sha_kept : w.expected_sha ≡ sha
    within : length stream ≤ total

  begin_at-IsStream :
      (fed : H → List ℕ) (digest : List ℕ → List ℕ) (total : ℕ) (sha : List ℕ)
      (target : Option (ℕ × ℕ)) (w : Writer F H)
      → IsHash platform fed digest
      → (begin_at ops platform total sha target w).0 ≡ true
      → IsStream fed total sha [] (begin_at ops platform total sha target w).1
  unfolding begin_at
  begin_at-IsStream fed digest total sha none w hash e = cc
  begin_at-IsStream fed digest total sha (some t) w hash e = ground (arith, hash.starts_empty w.sha)

  begin-IsStream :
      (fed : H → List ℕ) (digest : List ℕ → List ℕ) (total : ℕ) (sha : List ℕ) (w : Writer F H)
      → IsHash platform fed digest
      → (begin ops platform total sha w).0 ≡ true
      → IsStream fed total sha [] (begin ops platform total sha w).1
  unfolding begin
  begin-IsStream fed digest total sha w hash e = elim (Bool-cases (length sha == sha256_size)) [
    | inl right ↦ rw right (
        begin_at-IsStream fed digest total sha (resolve_target_partition platform) v hash
          (rw right at e))
    | inr wrong ↦ cc (rw wrong at e)
  ]
    where
      v : Writer F H
      v = record (if w.receiving then abort ops platform w else w) { image_ready = false }

  write-IsStream :
      (fed : H → List ℕ) (digest : List ℕ → List ℕ) (total : ℕ) (sha stream chunk : List ℕ)
      (w : Writer F H)
      → IsHash platform fed digest
      → total + length chunk < 4294967296
      → IsStream fed total sha stream w
      → (write ops platform chunk w).0 ≡ true
      → IsStream fed total sha (stream ++ chunk) (write ops platform chunk w).1
  unfolding write
  write-IsStream fed digest total sha stream chunk w hash small v e =
      ground (arith, hash.update_feeds chunk w.sha, length-append stream chunk)

  finalize_checks :
      (w : Writer F H)
      → (finalize ops platform w).0 ≡ true
      → (w.stream_bytes_seen ≡ w.total_stream_size)
        × (w.parser.completed ≡ true)
        × (equal_bytes w.expected_sha (platform.sha_finish w.sha) ≡ true)
        × ((finalize ops platform w).1.image_ready ≡ true)
  unfolding finalize
  finalize_checks w e = ground arith

  write_all-IsStream :
      (fed : H → List ℕ) (digest : List ℕ → List ℕ) (total : ℕ) (sha stream : List ℕ)
      (chunks : List (List ℕ)) (w : Writer F H)
      → IsHash platform fed digest
      → All (λ c. total + length c < 4294967296) chunks
      → IsStream fed total sha stream w
      → (write_all chunks w).0 ≡ true
      → IsStream fed total sha (stream ++ flatten chunks) (write_all chunks w).1
  unfolding write_all flatten
  write_all-IsStream fed digest total sha stream [] w hash small v e = rw (append-nil stream) v
  write_all-IsStream fed digest total sha stream (c ∷ cs) w hash small v e =
      elim (Bool-cases (write ops platform c w).0) [
        | inl went ↦
            rw (went, ← append_assoc stream c (flatten cs))
              (write_all-IsStream fed digest total sha (stream ++ c) cs (write ops platform c w).1
                hash small.1 (write-IsStream fed digest total sha stream c w hash small.0 v went)
                (rw went at e))
        | inr failed ↦ cc (rw failed at e)
      ]

  -- If an update runs through with success from `begin` over the chunks to `finalize`, then the
  -- chunks together have the announced length and the announced SHA-256 digest, the UF2 stream was
  -- complete, and the image is ready.
  pub finalize_verified :
      (fed : H → List ℕ) (digest : List ℕ → List ℕ) (total : ℕ) (sha : List ℕ)
      (chunks : List (List ℕ)) (w : Writer F H)
      → IsHash platform fed digest
      → All (λ c. total + length c < 4294967296) chunks
      → (begin ops platform total sha w).0 ≡ true
      → (write_all chunks (begin ops platform total sha w).1).0 ≡ true
      → (finalize ops platform (write_all chunks (begin ops platform total sha w).1).1).0 ≡ true
      → let written = (write_all chunks (begin ops platform total sha w).1).1 in
        (length (flatten chunks) ≡ total)
        × (digest (flatten chunks) ≡ sha)
        × (written.parser.completed ≡ true)
        × ((finalize ops platform written).1.image_ready ≡ true)
  finalize_verified fed digest total sha chunks w hash small b g e =
      let written = (write_all chunks (begin ops platform total sha w).1).1 in
      let v =
        write_all-IsStream fed digest total sha [] chunks (begin ops platform total sha w).1 hash
          small (begin-IsStream fed digest total sha w hash b) g in
      let c = finalize_checks written e in
      (
        omega (arith, v, c.0),
        ap digest (sym v.all_fed)
            ∙ sym (hash.finish_digests written.sha)
            ∙ sym (equal_bytes-eq written.expected_sha (platform.sha_finish written.sha) c.2)
            ∙ v.sha_kept,
        c.1,
        c.3,
      )
