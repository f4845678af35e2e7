-- ===== src/FirmwareWriter/Tests.antt =====
-- Runs of the firmware writer on a flash that records the sectors that were programmed, with the
-- identity on the first 32 bytes for a digest.
use drum_firmware.Uf2.{
  read_u32, read_header, is_foreign, is_framed, emitted, process_numbered, process_header,
  process_block, push_byte, push, family_rp2350_arm_s, payload_size, flash_base, new_parser,
}
use drum_firmware.FirmwareWriter.Verified.{finalize_verified, write_all, IsHash}
use drum_firmware.FirmwareWriter.Sector.{
  sector_base, flash_sector_size, flush_sector, no_sector, enter_sector, stage_payload, Sector,
  FlashOps,
}
use drum_firmware.FirmwareWriter.Defs.{
  equal_bytes, other_partition, distinct_target, target_for, write, target_of, finalize, begin_at,
  resolve_target_partition, begin, Writer, Platform,
}
use drum_firmware.FirmwareWriter.Containment.{write-IsContained, IsContained}
use drum_firmware.Base.{
  arith, zero, flatten, suc, length, ◌^◌, ◌≤◌, ◌/◌, replicate, false, ◌++◌, ◌%◌, true, take, some,
  Option, All, ℕ, List, [], ◌∷◌, ◌≡◌, refl,
}

abbrev log_ops : FlashOps (List ℕ)
log_ops = record { erase = λ offset size f. f; program = λ offset sector f. offset ∷ f }

-- Partition A is running; B is the target.
abbrev partition_entry : ℕ → Option (ℕ × ℕ)
partition_entry zero = some (4096, 8192)
partition_entry (suc n) = some (12288, 8192)

abbrev board : Platform (List ℕ)
board = record {
  booted_partition = some 0;
  find_partition = partition_entry;
  sha_start = λ h. (true, []);
  sha_update = λ bytes h. h ++ bytes;
  sha_finish = λ h. take 32 h;
  sha_cleanup = λ h. h;
}

abbrev idle_sector : Sector (List ℕ)
idle_sector = record {
  target_offset = 12288;
  target_size = 8192;
  current_base = no_sector;
  contents = replicate flash_sector_size 0xff;
  flash = [];
}

abbrev idle_writer : Writer (List ℕ) (List ℕ)
idle_writer = record {
  parser = new_parser 12288 8192;
  sha = [];
  sha_active = false;
  receiving = false;
  image_ready = false;
  sector = idle_sector;
  total_stream_size = 0;
  stream_bytes_seen = 0;
  expected_sha = [];
}

board_digest : IsHash board (λ h. h) (λ h. take 32 h)
board_digest = record {
  starts_empty = λ h e. refl;
  update_feeds = λ bytes h. refl;
  finish_digests = λ h. refl;
}

abbrev InTarget : List ℕ → Type 0
InTarget f = All (λ base. 12288 ≤ base) f

abbrev word : ℕ → List ℕ
word n = (n % 256) ∷ (n / 2 ^ 8 % 256) ∷ (n / 2 ^ 16 % 256) ∷ (n / 2 ^ 24 % 256) ∷ []

-- A UF2 stream of one block.
abbrev image : List ℕ
image =
    word 0x0a324655
    ++ word 0x9e5d5157
    ++ word 0x2000
    ++ word flash_base
    ++ word payload_size
    ++ word 0
    ++ word 1
    ++ word family_rp2350_arm_s
    ++ replicate 476 0xaa
    ++ word 0x0ab16f30

abbrev receiving_writer : Writer (List ℕ) (List ℕ)
receiving_writer = record idle_writer { receiving = true; total_stream_size = 512 }

finalize_verified_example :
    let started = begin log_ops board 512 (take 32 image) idle_writer in
    let written = write_all log_ops board (image ∷ []) started.1 in
    let finished = finalize log_ops board written.1 in
    (length (flatten (image ∷ [])) ≡ 512)
    × (take 32 (flatten (image ∷ [])) ≡ take 32 image)
    × (written.1.parser.completed ≡ true)
    × (finished.1.image_ready ≡ true)
unfolding begin begin_at resolve_target_partition target_of target_for distinct_target
    other_partition write write_all push push_byte process_block process_header process_numbered
    emitted is_framed is_foreign read_header read_u32 new_parser finalize stage_payload enter_sector
    flush_sector sector_base equal_bytes
finalize_verified_example =
    finalize_verified log_ops board (λ h. h) (λ h. take 32 h) 512 (take 32 image) (image ∷ [])
      idle_writer board_digest (omega arith, tt) refl refl refl

write-IsContained_example :
    IsContained 12288 8192 InTarget (write log_ops board image receiving_writer).1.sector
write-IsContained_example =
    write-IsContained log_ops board 12288 8192 InTarget (λ base sector f i j k. (i, k)) image
      receiving_writer (record { offset_kept = refl; size_kept = refl; flash_kept = tt })
