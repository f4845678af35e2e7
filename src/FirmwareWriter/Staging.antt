-- ===== src/FirmwareWriter/Staging.antt =====
-- Where a payload of musin/flash/firmware_writer.cpp lands in the sector buffer.
use drum_firmware.FirmwareWriter.Sector.{Sector}
