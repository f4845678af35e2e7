-- ===== src/Protocol/State.antt =====
-- The state of `sysex::Protocol`, its file and its write buffer. `write_buffer[0..write_buffer_pos)` is the list
-- `buffer`; replies are kept newest first. Times are microseconds; `absolute_time_diff_us` is exact
-- below 2 ^ 63, so its comparison is written as one of sums.
use drum_firmware.Base.{
  ℕ, Bool, true, false, Option, none, some, List, [], ◌∷◌, length, ◌==◌, if◌then◌else◌,
}
use drum_firmware.Protocol.Storage.{FileOps}

abbrev pub timeout_us : ℕ
timeout_us = 5000000

abbrev pub block_size : ℕ
block_size = 256

abbrev pub sysex_max_size : ℕ
sysex_max_size = 2048

-- The two tags that the protocol sends.
pub data Reply : Type 0 where
  ack nack : Reply

pub data State : Type 0 where
  idle file_transfer : State

pub data Result : Type 0 where
  ok file_written reboot print_firmware_version print_serial_number print_storage_info : Result
  print_sequencer_state set_sequencer_state get_setting set_setting : Result
  file_error short_message invalid_manufacturer invalid_content : Result

-- `opened` is the optional file, and in it whether its handle is valid.
pub record Protocol (W : Type 0) : Type 0 where
  pub state : State
  pub opened : Option Bool
  pub buffer : List ℕ
  pub last_activity : ℕ
  pub world : W
  pub replies : List Reply

-- How a call ends: it returns, it writes past the end of a stack array, or it is still in its loop
-- when the fuel is spent.
pub data Outcome (W : Type 0) : Type 0 where
  returned : Result → Protocol W → Outcome W
  overrun still_running : Outcome W

abbrev pub is_idle : State → Bool
is_idle idle = true
is_idle file_transfer = false

module _ {W : Type 0} where
  abbrev pub send : Reply → Protocol W → Protocol W
  send r p = record p { replies = r ∷ p.replies }

module _ {W : Type 0} (ops : FileOps W) where
  reset_from : Option Bool → Protocol W → Protocol W
  reset_from (some true) p = record p { opened = none; world = ops.close_file p.world }
  reset_from _ p = record p { opened = none }

  -- `opened_file.reset()`: the destructor closes a valid handle.
  unfoldable pub reset_file : Protocol W → Protocol W
  unfolding reset_from
  reset_file p = reset_from p.opened p

  abbrev pub to_idle : Protocol W → Protocol W
  to_idle p = record (reset_file p) { state = idle }

  -- `opened_file.emplace(file_ops, path)`, and whether the handle is valid.
  unfoldable pub emplace_file : List ℕ → Protocol W → Bool × Protocol W
  emplace_file path p =
      let q = reset_file p in
      let r = ops.open_file path q.world in (r.0, record q { opened = some r.0; world = r.1 })

  -- `File::write`
  write_from : Bool → List ℕ → W → ℕ × W
  write_from true bytes w = ops.write_file bytes w
  write_from false bytes w = (0, w)

  flush_from : Option Bool → Protocol W → Bool × Protocol W
  flush_from none p = (true, p)
  flush_from (some valid) p =
      let r = write_from valid p.buffer p.world in
      if length p.buffer == 0
      then (true, p)
      else if r.0 == length p.buffer
      then (true, record p { buffer = []; world = r.1 })
      else (false, record p { world = r.1 })

  unfoldable pub flush_write_buffer : Protocol W → Bool × Protocol W
  unfolding flush_from write_from
  flush_write_buffer p = flush_from p.opened p
