-- ===== src/FirmwareWriter/Sector.antt =====
-- The sector buffer of `FirmwareWriter`, `stage_payload` and `flush_sector`. The flash is what
-- `flash_range_erase` and `flash_range_program` of the SDK act on.
use drum_firmware.Base.{
  length, false, ◌||◌, ◌+◌, ◌-◌, replicate, ltb, drop, ◌==◌, ◌++◌, true, ◌*◌, take, if◌then◌else◌,
  ◌/◌, List, Bool, ℕ,
}

pub record FlashOps (F : Type 0) : Type 0 where
  -- offset and size
  pub erase : ℕ → ℕ → F → F
  pub program : ℕ → List ℕ → F → F

abbrev pub flash_sector_size : ℕ
flash_sector_size = 4096

abbrev pub no_sector : ℕ
no_sector = 0xffffffff

pub record Sector (F : Type 0) : Type 0 where
  pub target_offset : ℕ
  pub target_size : ℕ
  pub current_base : ℕ
  pub contents : List ℕ
  pub flash : F

unfoldable pub sector_base : ℕ → ℕ
sector_base flash_offset = flash_offset / flash_sector_size * flash_sector_size

-- `etl::copy` of the payload to an offset of the buffer. Where it runs past the end of the array
-- the list grows: more than `flash_sector_size` cells are a write out of bounds.
unfoldable pub copy_at : ℕ → List ℕ → List ℕ → List ℕ
copy_at i payload buffer = take i buffer ++ payload ++ drop (i + length payload) buffer

module _ {F : Type 0} (ops : FlashOps F) where
  unfoldable pub flush_sector : Sector F → Bool × Sector F
  flush_sector s =
      if s.current_base == no_sector
      then (true, s)
      else if ltb s.current_base s.target_offset
          || ltb s.target_size flash_sector_size
          || ltb (s.target_size - flash_sector_size) (s.current_base - s.target_offset)
      then (false, s)
      else (
        true,
        record s {
          current_base = no_sector;
          flash =
              ops.program s.current_base s.contents
                (ops.erase s.current_base flash_sector_size s.flash);
        },
      )

  -- The buffer holds the sector of `base`, after the sector before it is written out.
  unfoldable pub enter_sector : ℕ → Sector F → Bool × Sector F
  enter_sector base s =
      let r = flush_sector s in
      if s.current_base == base
      then (true, s)
      else if r.0
      then (true, record r.1 { current_base = base; contents = replicate flash_sector_size 0xff })
      else r

  unfoldable pub stage_payload : ℕ → List ℕ → Sector F → Bool × Sector F
  stage_payload flash_offset payload s =
      let base = sector_base flash_offset in
      let r = enter_sector base s in
      if r.0
      then (true, record r.1 { contents = copy_at (flash_offset - base) payload r.1.contents })
      else r
