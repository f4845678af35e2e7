-- ===== src/FirmwareUpdate.antt =====
-- drum/sysex/firmware_update.h: `sysex::FirmwareUpdate`, the transfer of a firmware image.
pub mod Defs
pub mod Invariant
pub mod Bytes
mod Tests
