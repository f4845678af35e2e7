-- ===== src/Clock/SyncOut.antt =====
-- musin/timing/sync_out.cpp: `SyncOut`. A pending alarm is the identifier the alarm pool gave for it,
-- and `none` stands for an identifier that is not positive. The pool itself is not modelled: what
-- `add_alarm_in_us` gives is an argument, and the alarm's callback is an operation.
use drum_firmware.Base.{◌==◌, ◌-◌, true, some, not, none, if◌then◌else◌, false, Option, Bool, ℕ}
use drum_firmware.Speed.{ClockEvent, ClockSource}
pub mod Pulse

pub record SyncOut : Type 0 where
  pub ticks_per_pulse : ℕ
  pub is_enabled : Bool
  pub pulse_active : Bool
  pub pulse_alarm_id : Option ℕ
  pub ticks_until_pulse : ℕ
  pub gpio : Bool

unfoldable pub create : ℕ → SyncOut
create ticks_per_pulse =
    let ticks = if ticks_per_pulse == 0 then 1 else ticks_per_pulse in
    record {
      ticks_per_pulse = ticks;
      is_enabled = false;
      pulse_active = false;
      pulse_alarm_id = none;
      ticks_until_pulse = ticks;
      gpio = false;
    }

unfoldable pub trigger_pulse_off : SyncOut → SyncOut
trigger_pulse_off s = record s { gpio = false; pulse_active = false; pulse_alarm_id = none }

-- `add_alarm_in_us` failed, or the alarm was due at once.
unfoldable pub set_alarm : Option ℕ → SyncOut → SyncOut
unfolding trigger_pulse_off
set_alarm none s = trigger_pulse_off s
set_alarm (some id) s = record s { pulse_alarm_id = some id }

unfoldable pub pulse : Option ℕ → SyncOut → SyncOut
unfolding set_alarm
pulse alarm s =
    let on =
      if s.pulse_active
      then s
      else set_alarm alarm (record s { gpio = true; pulse_active = true }) in
    record on { ticks_until_pulse = s.ticks_per_pulse }

unfoldable pub count_down : Option ℕ → SyncOut → SyncOut
unfolding pulse
count_down alarm s =
    let t = record s { ticks_until_pulse = s.ticks_until_pulse - 1 } in
    if t.ticks_until_pulse == 0 then pulse alarm t else t

unfoldable pub resync_pulse : SyncOut → SyncOut
unfolding trigger_pulse_off
resync_pulse s = record (if s.pulse_active then trigger_pulse_off s else s) {
  ticks_until_pulse = 0;
}

unfoldable pub notification : Option ℕ → ClockEvent → SyncOut → SyncOut
unfolding resync_pulse count_down
notification alarm e s =
    let r = if e.is_resync then resync_pulse s else s in
    let b = if e.is_beat then record r { ticks_until_pulse = 0 } else r in
    if s.is_enabled then count_down alarm b else s

unfoldable pub enable : SyncOut → SyncOut
enable s = if s.is_enabled then s else record s { is_enabled = true }

unfoldable pub disable : SyncOut → SyncOut
unfolding trigger_pulse_off
disable s =
    let d = record s { is_enabled = false } in
    if not s.is_enabled then s else if s.pulse_active then trigger_pulse_off d else d

-- `reset_counters`
unfoldable pub resync : SyncOut → SyncOut
resync s = record s { ticks_until_pulse = s.ticks_per_pulse }
