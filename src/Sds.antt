-- ===== src/Sds.antt =====
-- drum/sysex/sds_protocol.h and drum/sysex/sds_dump_sender.h: the MIDI Sample Dump Standard, as a
-- receiver of samples and as a sender of dumps.
pub mod Format
pub mod Samples
pub mod Checksum
pub mod Receive
pub mod Send
pub mod Received
pub mod Transfer
pub mod Sent
pub mod Requested
pub mod Faults
mod Tests
