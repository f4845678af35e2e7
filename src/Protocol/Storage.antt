-- ===== src/Protocol/Storage.antt =====
-- The file operations that drum/sysex/protocol.h and drum/sysex/sds_protocol.h take as a template
-- parameter. `W` is whatever they act on, the file that is open included.
use drum_firmware.Base.{ℕ, Bool, List, ◌++◌, ◌≡◌, length}

pub record FileOps (W : Type 0) : Type 0 where
  -- whether the file could be opened
  pub open_file : List ℕ → W → Bool × W
  -- how many bytes were written
  pub write_file : List ℕ → W → ℕ × W
  pub close_file : W → W
  pub format : W → Bool × W

-- A store whose writes go through: what the open file holds grows by exactly the bytes written.
pub record IsReliable {W : Type 0} (ops : FileOps W) (contents : W → List ℕ) : Type 0 where
  pub writes_all : (bytes : List ℕ) (w : W) → (ops.write_file bytes w).0 ≡ length bytes
  pub appends : (bytes : List ℕ) (w : W) → contents (ops.write_file bytes w).1 ≡ contents w ++ bytes
