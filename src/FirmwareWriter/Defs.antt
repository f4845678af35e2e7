-- ===== src/FirmwareWriter/Defs.antt =====
-- The operations of `FirmwareWriter`. The boot ROM, the partition table and the SHA-256 hardware
-- are a record of what the code asks of them.
use drum_firmware.Uf2.{uf2_block_size, complete, ok, new_parser, push, Result, Block, Uf2Parser}
use drum_firmware.FirmwareWriter.Sector.{stage_payload, no_sector, flush_sector, Sector, FlashOps}
use drum_firmware.Base.{
  ◌&&◌, ◌∷◌, [], ◌%◌, ◌+◌, ◌||◌, ◌*◌, u32, not, ◌==◌, true, none, ltb, length, some, if◌then◌else◌,
  false, Bool, Option, List, ℕ,
}

pub record Platform (H : Type 0) : Type 0 where
  -- `rom_get_boot_info`: the partition that is running
  pub booted_partition : Option ℕ
  -- offset and size
  pub find_partition : ℕ → Option (ℕ × ℕ)
  pub sha_start : H → Bool × H
  pub sha_update : List ℕ → H → H
  pub sha_finish : H → List ℕ
  pub sha_cleanup : H → H

abbrev pub sha256_size : ℕ
sha256_size = 32

pub record Writer (F H : Type 0) : Type 0 where
  pub parser : Uf2Parser
  pub sha : H
  pub sha_active : Bool
  pub receiving : Bool
  pub image_ready : Bool
  pub sector : Sector F
  pub total_stream_size : ℕ
  pub stream_bytes_seen : ℕ
  pub expected_sha : List ℕ

-- The other one of the partitions A (0) and B (1).
unfoldable pub other_partition : ℕ → Option ℕ
other_partition booted = if booted == 0 then some 1 else if booted == 1 then some 0 else none

-- `etl::equal`
unfoldable pub equal_bytes : List ℕ → List ℕ → Bool
equal_bytes [] [] = true
equal_bytes [] (y ∷ ys) = false
equal_bytes (x ∷ xs) [] = false
equal_bytes (x ∷ xs) (y ∷ ys) = x == y && equal_bytes xs ys

-- The target's offset and size, from the entries of the target and the booted partition.
unfoldable pub distinct_target : Option (ℕ × ℕ) → Option (ℕ × ℕ) → Option (ℕ × ℕ)
distinct_target (some target) (some booted) = if target.0 == booted.0 then none else some target
distinct_target _ _ = none

module _ {H : Type 0} (platform : Platform H) where
  unfoldable pub target_for : ℕ → Option ℕ → Option (ℕ × ℕ)
  target_for booted (some target) =
      distinct_target (platform.find_partition target) (platform.find_partition booted)
  target_for booted none = none

  unfoldable pub target_of : Option ℕ → Option (ℕ × ℕ)
  target_of none = none
  target_of (some booted) = target_for booted (other_partition booted)

  unfoldable pub resolve_target_partition : Option (ℕ × ℕ)
  unfolding target_of target_for distinct_target other_partition
  resolve_target_partition = target_of platform.booted_partition

module _ {F H : Type 0} (ops : FlashOps F) (platform : Platform H) where
  unfoldable pub release_sha : Writer F H → Writer F H
  release_sha w =
      if w.sha_active then record w { sha = platform.sha_cleanup w.sha; sha_active = false } else w

  unfoldable pub abort : Writer F H → Writer F H
  abort w = release_sha (record w {
    receiving = false;
    image_ready = false;
    sector = record w.sector { current_base = no_sector };
  })

  begin_hashing : ℕ → List ℕ → Writer F H → Bool × Writer F H
  begin_hashing total_size sha256 w =
      let r = platform.sha_start w.sha in
      if r.0
      then (
        true,
        record w {
          parser = new_parser w.sector.target_offset w.sector.target_size;
          sha = r.1;
          sha_active = true;
          receiving = true;
          sector = record w.sector { current_base = no_sector };
          total_stream_size = total_size;
          stream_bytes_seen = 0;
          expected_sha = sha256;
        },
      )
      else (false, record w { sha = r.1 })

  unfoldable pub begin_at : ℕ → List ℕ → Option (ℕ × ℕ) → Writer F H → Bool × Writer F H
  unfolding begin_hashing
  begin_at total_size sha256 none w = (false, w)
  begin_at total_size sha256 (some (offset, size)) w =
      let v = record w {
        sector = record w.sector { target_offset = offset; target_size = size };
      } in
      if ltb (u32 (2 * size + 2 * uf2_block_size)) total_size
        || not (total_size % uf2_block_size == 0)
      then (false, v)
      else begin_hashing total_size sha256 v

  unfoldable pub begin : ℕ → List ℕ → Writer F H → Bool × Writer F H
  unfolding begin_at begin_hashing
  begin total_size sha256 w =
      let v = record (if w.receiving then abort w else w) { image_ready = false } in
      if length sha256 == sha256_size
      then begin_at total_size sha256 (resolve_target_partition platform) v
      else (false, v)

  -- The callback of the parser.
  abbrev pub stage_block : Block → Sector F → Bool × Sector F
  stage_block b s = stage_payload ops b.flash_offset b.payload s

  abbrev accepted : Result → Bool
  accepted ok = true
  accepted complete = true
  accepted _ = false

  unfoldable pub write : List ℕ → Writer F H → Bool × Writer F H
  write bytes w =
      let r = push stage_block bytes w.parser w.sector in
      if not w.receiving || ltb w.total_stream_size (u32 (w.stream_bytes_seen + length bytes))
      then (false, w)
      else (
        accepted r.0,
        record w {
          sha = platform.sha_update bytes w.sha;
          stream_bytes_seen = u32 (w.stream_bytes_seen + length bytes);
          parser = r.1;
          sector = r.2;
        },
      )

  finish_hash : Writer F H → Bool × Writer F H
  finish_hash w =
      if equal_bytes w.expected_sha (platform.sha_finish w.sha)
      then (true, record w { sha_active = false; image_ready = true })
      else (false, record w { sha_active = false })

  finalize_received : Writer F H → Bool × Writer F H
  finalize_received w =
      let r = flush_sector ops w.sector in
      let v = record w { sector = r.1 } in
      if not (w.stream_bytes_seen == w.total_stream_size) || not w.parser.completed
      then (false, release_sha w)
      else if r.0
      then finish_hash v
      else (false, release_sha v)

  unfoldable pub finalize : Writer F H → Bool × Writer F H
  unfolding finalize_received finish_hash
  finalize w =
      if w.receiving then finalize_received (record w { receiving = false }) else (false, w)

  unfoldable pub target_flash_offset : Writer F H → Option ℕ
  target_flash_offset w = if w.image_ready then some w.sector.target_offset else none
