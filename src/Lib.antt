-- ===== src/Lib.antt =====
-- The firmware of the Dato DRUM: the parts that receive data over MIDI System Exclusive and write
-- it to the file system or to the flash, the clock and its sources, the sequencer, the drum pads,
-- the queue of outgoing MIDI messages, and the states of the system.
--
-- A SysEx chunk (the message without 0xF0 and 0xF7) comes from the MIDI driver. Three handlers share
-- it: the file protocol, the firmware update and the Sample Dump Standard. The first two decode
-- their bodies with one codec. The firmware update gives the decoded bytes to a writer, which
-- hashes them, feeds them to an incremental UF2 parser, and stages the payloads sector by sector.
--
-- Codec: drum/sysex/codec.h. `decode_3_to_16bit` and `decode_8_to_7`, with the encoders of a host.
-- Protocol: drum/sysex/protocol.h, `sysex::Protocol`. State is its data members, Path is
--   `sanitize_path`, Defs has `handle_chunk` and every handler below it, and `check_timeout`.
-- Uf2: musin/flash/uf2_parser.h, `Uf2Parser::push` over `process_block`, with the callback as a
--   parameter that acts on a state of its own.
-- FirmwareWriter: musin/flash/firmware_writer.cpp. Sector has `flush_sector` and `stage_payload`,
--   Defs has `begin`, `write`, `finalize`, `abort` and `resolve_target_partition`.
-- FirmwareUpdate: drum/sysex/firmware_update.h, with its template parameter `Writer` as a record of
--   operations (`WriterOps`) and what is assumed of them (`IsWriter`).
-- Sds: drum/sysex/sds_protocol.h in Receive, drum/sysex/sds_dump_sender.h in Send, and the wire
--   format of both in Format.
-- SaveTiming: drum/save_timing_manager.cpp, when changed sequencer state is saved.
-- Speed: musin/timing/speed_adapter.cpp, which ticks of the clock are passed on.
-- Clock: the sources of the clock, musin/timing/internal_clock.cpp in Internal,
--   midi_clock_processor.cpp in Midi and sync_in.cpp in SyncIn, and in SyncOut sync_out.cpp.
-- Tempo: musin/timing/clock_router.cpp and tempo_handler.cpp, which choose a source and count its
--   ticks. An event goes from a source through the router and the speed adapter to the handler,
--   whose phases the sequencer receives.
-- Sequencer: drum/sequencer_controller.cpp in Controller: its transport and notes there, the tempo
--   event in Window, `update` in Update, the rest of the panel's calls in Panel, and the saved pattern
--   with drum/sequencer_persistence.h and drum/sysex/sequencer_state_codec.h in Pattern. Swing,
--   Repeat, Retrigger and Random are the effects drum/sequencer_effect_*.cpp.
-- MidiQueue: musin/midi/midi_output_queue.cpp.
-- SystemState: drum/system_state_machine.cpp and drum/state_implementations.cpp.
-- Drumpad: musin/ui/drumpad.cpp, from the pressure on a pad to its events.
-- Base: Boolean tests, machine words, arrays as lists, and bitwise operations.
--
-- An object is a record, a method a function that returns the record anew; replies and messages
-- are collected in the record, the newest first. A number of w bits is a natural number below
-- 2 ^ w, with the wrap-around written out. A fixed array with a fill count is the list of its filled
-- cells. Times are microseconds as natural numbers. The file system, the flash, the SHA-256 unit, the
-- boot ROM and the partition table are parameters: records of operations, with laws where a
-- theorem relies on them.
--
-- Two loops consume a body by a decoder and are written on fuel: the one of FileBytes, which needs
-- at most two rounds for each group and two more, and the one of FirmwareBytes, which needs no more
-- rounds than the body has bytes.
--
-- Floating-point tempos and knob positions are a type parameter with the operations that the code
-- uses, and the values of `rand` are arguments. Code that runs in an interrupt is a step of its own
-- between the others.
--
-- Not modelled: logging, which has no effect on the state; the persistence manager and the files
-- of the saved pattern; the audio engine, the drivers and the rest of the
-- user interface; the routing of SysEx
-- chunks to their handlers; the vendored libraries and the SDK.
pub mod Base
pub mod Codec
pub mod Protocol
pub mod Uf2
pub mod FirmwareWriter
pub mod Drumpad
pub mod FirmwareUpdate
pub mod Sds
pub mod Speed
pub mod SaveTiming
pub mod MidiQueue
pub mod Sequencer
pub mod SystemState
pub mod Tempo
pub mod Clock
