-- ===== src/Drumpad.antt =====
-- musin/ui/drumpad.cpp: `Drumpad`, which makes presses, holds and releases of the pressure on a pad. A
-- time that is not set is 0, times do not go back, a reading is at most the greatest of the converter,
-- and the events are kept newest first.
use drum_firmware.Base.{
  ◌^◌, ◌%◌, ◌/◌, ◌*◌, [], ◌+◌, true, none, ◌∷◌, ltb, leb, false, List, ◌-◌, some, if◌then◌else◌,
  Option, Bool, ℕ,
}
pub mod Gesture
pub mod Velocity
mod Tests

pub record DrumpadConfig : Type 0 where
  pub noise_threshold : ℕ
  pub trigger_threshold : ℕ
  pub high_pressure_threshold : ℕ
  pub active_low : Bool
  pub debounce_time_us : ℕ
  pub hold_time_us : ℕ
  pub max_velocity_time_us : ℕ
  pub min_velocity_time_us : ℕ

pub data EventType : Type 0 where
  press release hold : EventType

pub record DrumpadEvent : Type 0 where
  pub type : EventType
  pub velocity : Option ℕ
  pub raw_value : ℕ

pub data DrumpadState : Type 0 where
  idle rising peaking falling holding debouncing_release : DrumpadState

pub data RetriggerMode : Type 0 where
  off single double : RetriggerMode

pub record Drumpad : Type 0 where
  pub current_state : DrumpadState
  pub current_retrigger_mode : RetriggerMode
  pub last_adc_value : ℕ
  pub state_transition_time : ℕ
  pub velocity_low_time : ℕ
  pub velocity_high_time : ℕ
  pub just_pressed : Bool
  pub just_released : Bool
  pub last_velocity : Option ℕ
  pub notified : List DrumpadEvent

abbrev pub adc_max_value : ℕ
adc_max_value = 4095

-- The product is one of 64 bits.
unfoldable pub calculate_velocity : DrumpadConfig → ℕ → ℕ
calculate_velocity config time_diff_us =
    let time_range = config.max_velocity_time_us - config.min_velocity_time_us in
    let adjusted_time = time_diff_us - config.min_velocity_time_us in
    if leb time_diff_us config.min_velocity_time_us
    then 127
    else if leb config.max_velocity_time_us time_diff_us
    then 1
    else (1 + 126 * (time_range - adjusted_time) % 2 ^ 64 / time_range % 256) % 256

abbrev pub notify_event : EventType → Option ℕ → ℕ → Drumpad → Drumpad
notify_event t velocity value d = record d {
  notified = record { type = t; velocity = velocity; raw_value = value } ∷ d.notified;
}

-- A change of the state, at a time.
abbrev pub enter : DrumpadState → ℕ → Drumpad → Drumpad
enter s now d = record d { current_state = s; state_transition_time = now }

unfoldable pub idle_update : DrumpadConfig → ℕ → ℕ → Drumpad → Drumpad
idle_update config value now d =
    if leb config.noise_threshold value
    then record (enter rising now d) {
      current_retrigger_mode = off;
      velocity_low_time = now;
      velocity_high_time = 0;
    }
    else d

unfoldable pub rising_update : DrumpadConfig → ℕ → ℕ → Drumpad → Drumpad
unfolding calculate_velocity
rising_update config value now d =
    let velocity = some (calculate_velocity config (now - d.velocity_low_time)) in
    if leb config.trigger_threshold value
    then notify_event press velocity value (record (enter peaking now d) {
      velocity_high_time = now;
      last_velocity = velocity;
      just_pressed = true;
    })
    else if ltb value config.noise_threshold
    then enter idle now d
    else d

unfoldable pub peaking_update : DrumpadConfig → ℕ → ℕ → Drumpad → Drumpad
peaking_update config value now d =
    if leb config.hold_time_us (now - d.state_transition_time)
    then notify_event hold none value (record d { current_state = holding })
    else if ltb value config.noise_threshold
    then enter debouncing_release now d
    else d

unfoldable pub falling_update : DrumpadConfig → ℕ → ℕ → Drumpad → Drumpad
falling_update config value now d =
    if ltb value config.noise_threshold then enter debouncing_release now d else d

unfoldable pub single_if_off : RetriggerMode → RetriggerMode
single_if_off off = single
single_if_off single = single
single_if_off double = double

unfoldable pub holding_update : DrumpadConfig → ℕ → ℕ → Drumpad → Drumpad
unfolding single_if_off
holding_update config value now d =
    let armed = record d {
      current_retrigger_mode =
          if leb config.high_pressure_threshold value
          then double
          else single_if_off d.current_retrigger_mode;
    } in
    if ltb value config.trigger_threshold then record armed { current_state = falling } else armed

unfoldable pub debouncing_update : DrumpadConfig → ℕ → ℕ → Drumpad → Drumpad
debouncing_update config value now d =
    if leb config.noise_threshold value
    then enter falling now d
    else if leb config.debounce_time_us (now - d.state_transition_time)
    then record (enter idle now (notify_event release none value d)) {
      current_retrigger_mode = off;
      just_released = true;
      last_adc_value = 0;
      velocity_low_time = 0;
      velocity_high_time = 0;
    }
    else d

unfoldable pub update_state_machine : DrumpadState → DrumpadConfig → ℕ → ℕ → Drumpad → Drumpad
unfolding idle_update rising_update peaking_update falling_update holding_update debouncing_update
update_state_machine idle = idle_update
update_state_machine rising = rising_update
update_state_machine peaking = peaking_update
update_state_machine falling = falling_update
update_state_machine holding = holding_update
update_state_machine debouncing_release = debouncing_update

unfoldable pub update : DrumpadConfig → ℕ → ℕ → Drumpad → Drumpad
unfolding update_state_machine
update config now raw_adc_value d =
    let value = if config.active_low then adc_max_value - raw_adc_value else raw_adc_value in
    update_state_machine d.current_state config value now (record d {
      just_pressed = false;
      just_released = false;
      last_velocity = none;
      last_adc_value = value;
    })

-- `init`, before any event.
unfoldable pub initial : DrumpadConfig → Drumpad
initial config = record {
  current_state = idle;
  current_retrigger_mode = off;
  last_adc_value = if config.active_low then adc_max_value else 0;
  state_transition_time = 0;
  velocity_low_time = 0;
  velocity_high_time = 0;
  just_pressed = false;
  just_released = false;
  last_velocity = none;
  notified = [];
}
