-- ===== src/FirmwareWriter/Containment.antt =====
-- The writer touches no flash outside the target partition.
use drum_firmware.Uf2.Stream.{push_keeps}
use drum_firmware.Uf2.{Block}
use drum_firmware.FirmwareWriter.Defs.{stage_block, release_sha, Writer, write, finalize, Platform}
use drum_firmware.FirmwareWriter.Sector.{
  no_sector, enter_sector, stage_payload, flush_sector, flash_sector_size, Sector, FlashOps,
}
use drum_firmware.Base.{◌-◌, ◌||◌, ltb, ◌==◌, arith, Bool, if_cases, ◌+◌, ◌≤◌, List, ◌≡◌, ℕ}

-- The target that the writer works on, and a property of the flash.
pub record IsContained {F : Type 0} (lo size : ℕ) (P : F → Type 0) (s : Sector F) : Type 0 where
  pub offset_kept : s.target_offset ≡ lo
  pub size_kept : s.target_size ≡ size
  pub flash_kept : P s.flash

module _ {F H : Type 0} (ops : FlashOps F) (platform : Platform H) (lo size : ℕ) (P : F → Type 0)
    (keep : (base : ℕ) (sector : List ℕ) (f : F)
      → lo ≤ base
      → base + flash_sector_size ≤ lo + size
      → P f
      → P (ops.program base sector (ops.erase base flash_sector_size f))) where
  flush-IsContained :
      (s : Sector F) → IsContained lo size P s → IsContained lo size P (flush_sector ops s).1
  unfolding flush_sector
  flush-IsContained s v =
      if_cases (λ (r : Bool × Sector F). IsContained lo size P r.1) (s.current_base == no_sector)
        (λ _. v)
        λ _.
          if_cases (λ (r : Bool × Sector F). IsContained lo size P r.1)
            (ltb s.current_base s.target_offset
              || ltb s.target_size flash_sector_size
              || ltb (s.target_size - flash_sector_size) (s.current_base - s.target_offset))
            (λ _. v)
            λ inside. record {
              offset_kept = v.offset_kept;
              size_kept = v.size_kept;
              flash_kept =
                  keep s.current_base s.contents s.flash (ground arith) (ground arith) v.flash_kept;
            }

  stage-IsContained :
      (b : Block) (s : Sector F)
      → IsContained lo size P s
      → IsContained lo size P (stage_block ops platform b s).1
  unfolding stage_payload enter_sector
  stage-IsContained b s v = ground (arith, flush-IsContained s v)

  -- Whatever stream is written, with whatever result: a property of the flash that is kept by
  -- erasing and programming whole sectors of the target partition still holds.
  pub write-IsContained :
      (bytes : List ℕ) (w : Writer F H)
      → IsContained lo size P w.sector
      → IsContained lo size P (write ops platform bytes w).1.sector
  unfolding write
  write-IsContained bytes w v = ground (
    arith,
    push_keeps (stage_block ops platform) (IsContained lo size P) stage-IsContained bytes w.parser
        w.sector v,
  )

  -- The last sector, too: finalizing keeps every such property of the flash.
  pub finalize-IsContained :
      (w : Writer F H)
      → IsContained lo size P w.sector
      → IsContained lo size P (finalize ops platform w).1.sector
  unfolding finalize release_sha
  finalize-IsContained w v = ground (arith, flush-IsContained w.sector v)
