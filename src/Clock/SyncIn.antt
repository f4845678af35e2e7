-- ===== src/Clock/SyncIn.antt =====
-- musin/timing/sync_in.cpp: `SyncIn`, which turns the pulses of a cable, two a quarter note, into
-- twenty-four ticks. The levels of the two pins are arguments of `update`, and so is the time that
-- `time_reached` reads, since it is later than the one `update` is given. A time that is not set is
-- `none`, and times do not go back.
use drum_firmware.Base.{
  xor, ◌&&◌, false, ◌==◌, ◌/◌, leb, [], ◌∷◌, ◌-◌, ◌+◌, not, none, ltb, List, true, some,
  if◌then◌else◌, Option, Bool, ℕ,
}
pub mod Debounce

pub data PulseDebounceState : Type 0 where
  waiting_for_rising_edge waiting_for_stable_low : PulseDebounceState

-- The arguments of `emit_clock_event`, whose event is from `EXTERNAL_SYNC` and a beat when it is physical.
pub record Emitted : Type 0 where
  pub timestamp : ℕ
  pub is_physical : Bool

-- The emitted events are kept newest first.
pub record SyncIn : Type 0 where
  pub pulse_state : PulseDebounceState
  pub falling_edge_time : Option ℕ
  pub last_detect_state : Bool
  pub last_detect_change_time : Option ℕ
  pub current_detect_state : Bool
  pub last_physical_pulse_time : Option ℕ
  pub tick_interval_us : ℕ
  pub interpolated_tick_counter : ℕ
  pub next_tick_time : Option ℕ
  pub emitted : List Emitted

abbrev pub pulse_debounce_us : ℕ
pulse_debounce_us = 5000

abbrev pub detect_debounce_us : ℕ
detect_debounce_us = 50000

abbrev pub ppqn_multiplier : ℕ
ppqn_multiplier = 12

abbrev pub max_interpolated_ticks : ℕ
max_interpolated_ticks = 11

unfoldable pub create : Bool → Bool → SyncIn
create sync_pin detect_pin = record {
  pulse_state = if sync_pin then waiting_for_stable_low else waiting_for_rising_edge;
  falling_edge_time = none;
  last_detect_state = detect_pin;
  last_detect_change_time = none;
  current_detect_state = detect_pin;
  last_physical_pulse_time = none;
  tick_interval_us = 0;
  interpolated_tick_counter = 0;
  next_tick_time = none;
  emitted = [];
}

unfoldable pub emit_clock_event : ℕ → Bool → SyncIn → SyncIn
emit_clock_event timestamp is_physical s = record s {
  emitted = record { timestamp = timestamp; is_physical = is_physical } ∷ s.emitted;
}

unfoldable pub interval_since : Option ℕ → ℕ → ℕ → ℕ
interval_since none now interval = interval
interval_since (some last) now interval = (now - last) / ppqn_multiplier

unfoldable pub schedule_interpolated_ticks : ℕ → SyncIn → SyncIn
schedule_interpolated_ticks now s = record s {
  next_tick_time = if ltb 0 s.tick_interval_us then some (now + s.tick_interval_us) else none;
}

unfoldable pub rising_edge : ℕ → SyncIn → SyncIn
unfolding emit_clock_event schedule_interpolated_ticks
rising_edge now s =
    let timed = emit_clock_event now true (record s {
      tick_interval_us = interval_since s.last_physical_pulse_time now s.tick_interval_us;
      last_physical_pulse_time = some now;
    }) in
    let scheduled =
      if ltb 0 timed.tick_interval_us
      then schedule_interpolated_ticks now (record timed { interpolated_tick_counter = 0 })
      else timed in
    record scheduled { pulse_state = waiting_for_stable_low; falling_edge_time = none }

-- The time from which the pin has been low.
unfoldable pub low_since : Option ℕ → ℕ → ℕ
low_since none now = now
low_since (some t) now = t

unfoldable pub pin_low : ℕ → SyncIn → SyncIn
unfolding low_since
pin_low now s =
    let t = low_since s.falling_edge_time now in
    record s {
      falling_edge_time = some t;
      pulse_state =
          if ltb pulse_debounce_us (now - t) then waiting_for_rising_edge else s.pulse_state;
    }

-- The pulse debouncing of `update`.
unfoldable pub debounce_pulse : PulseDebounceState → Bool → ℕ → SyncIn → SyncIn
unfolding rising_edge pin_low
debounce_pulse waiting_for_rising_edge pin now s = if pin then rising_edge now s else s
debounce_pulse waiting_for_stable_low pin now s =
    if not pin then pin_low now s else record s { falling_edge_time = none }

unfoldable pub emit_due : Option ℕ → ℕ → SyncIn → SyncIn
unfolding emit_clock_event
emit_due none clock s = s
emit_due (some next) clock s =
    let counter = s.interpolated_tick_counter + 1 in
    if leb max_interpolated_ticks s.interpolated_tick_counter
    then s
    else if leb next clock
    then record (emit_clock_event next false s) {
      interpolated_tick_counter = counter;
      next_tick_time =
          if ltb counter max_interpolated_ticks && ltb 0 s.tick_interval_us
          then some (next + s.tick_interval_us)
          else none;
    }
    else s

unfoldable pub emit_scheduled_ticks : ℕ → SyncIn → SyncIn
unfolding emit_due
emit_scheduled_ticks clock s = emit_due s.next_tick_time clock s

unfoldable pub changed_since : Option ℕ → ℕ → ℕ
changed_since none now = now
changed_since (some t) now = t

-- The cable detection of `update`.
unfoldable pub detect_cable : Bool → ℕ → SyncIn → SyncIn
unfolding changed_since
detect_cable pin now s =
    let t =
      if xor pin s.last_detect_state then now else changed_since s.last_detect_change_time now in
    record s {
      last_detect_change_time = some t;
      last_detect_state = pin;
      current_detect_state =
          if ltb detect_debounce_us (now - t) then pin else s.current_detect_state;
    }

unfoldable pub update : Bool → Bool → ℕ → ℕ → SyncIn → SyncIn
unfolding debounce_pulse emit_scheduled_ticks detect_cable
update pulse_pin detect_pin now clock s =
    detect_cable detect_pin now
      (emit_scheduled_ticks clock (debounce_pulse s.pulse_state pulse_pin now s))

unfoldable pub is_cable_connected : SyncIn → Bool
is_cable_connected s = not s.current_detect_state
