-- ===== src/Clock.antt =====
-- The sources of the clock: musin/timing/internal_clock.cpp, midi_clock_processor.cpp and sync_in.cpp
-- of the same folder, and musin/timing/sync_out.cpp, which turns ticks into pulses.
pub mod Internal
pub mod NoDrift
pub mod Midi
pub mod SyncIn
pub mod SyncOut
mod Tests
