-- ===== src/FirmwareWriter.antt =====
-- musin/flash/firmware_writer.cpp and .h: streaming a UF2 image into the inactive partition.
pub mod Sector
pub mod Defs
pub mod Containment
pub mod Verified
pub mod Staging
mod Tests
