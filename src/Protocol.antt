-- ===== src/Protocol.antt =====
-- drum/sysex/protocol.h: the receiving side of the custom SysEx protocol, `sysex::Protocol`, with
-- StandardFileOps::BlockSize = 256 (drum/standard_file_ops.h).
pub mod Storage
pub mod Tag
pub mod Path
pub mod State
pub mod Defs
pub mod Invariant
pub mod Loop
pub mod FileBytes
pub mod Faults
mod Tests
