-- ===== src/SystemState.antt =====
-- drum/system_state_machine.cpp and drum/state_implementations.cpp: the states of the whole system,
-- from boot to sleep. A state object is its data; `clock` is what `get_absolute_time` returns during
-- a call. The display, the multiplexer and the watchdog are not modelled.
pub mod Graph
pub mod Transfer
pub mod Wake
mod Tests
use drum_firmware.Base.{
  not, leb, ◌&&◌, ◌%◌, ◌-◌, ◌^◌, ◌+◌, true, ltb, if◌then◌else◌, false, Bool, ℕ,
}

pub data SystemStateId : Type 0 where
  boot sequencer file_transfer falling_asleep sleep : SystemStateId

abbrev pub debounce_us : ℕ
debounce_us = 500000

-- The data of the state objects: when the boot began; when a transfer was completed, and whether it
-- was; when the display is dark; and whether the button is still held.
pub data SystemState : Type 0 where
  boot_state : ℕ → SystemState
  sequencer_state : SystemState
  file_transfer_state : ℕ → Bool → SystemState
  falling_asleep_state : ℕ → SystemState
  sleep_state : Bool → SystemState

abbrev pub get_id : SystemState → SystemStateId
get_id (boot_state _) = boot
get_id sequencer_state = sequencer
get_id (file_transfer_state _ _) = file_transfer
get_id (falling_asleep_state _) = falling_asleep
get_id (sleep_state _) = sleep

unfoldable pub is_valid_transition : SystemStateId → SystemStateId → Bool
is_valid_transition boot sequencer = true
is_valid_transition sequencer file_transfer = true
is_valid_transition sequencer falling_asleep = true
is_valid_transition file_transfer sequencer = true
is_valid_transition falling_asleep sleep = true
is_valid_transition _ _ = false

-- `create_state`, and `enter` of the new state. A completion time is not read before it is set.
unfoldable pub create_state : SystemStateId → ℕ → SystemState
create_state boot clock = boot_state clock
create_state sequencer clock = sequencer_state
create_state file_transfer clock = file_transfer_state 0 false
create_state falling_asleep clock = falling_asleep_state (clock + 500000)
create_state sleep clock = sleep_state true

unfoldable pub transition_to : SystemStateId → ℕ → SystemState → Bool × SystemState
unfolding create_state is_valid_transition
transition_to new_state clock s =
    if is_valid_transition (get_id s) new_state
    then (true, create_state new_state clock)
    else (false, s)

-- Whether the system goes on, or resets itself in a loop that the watchdog ends.
pub data Updated : Type 0 where
  running : SystemState → Updated
  reset : Updated

abbrev pub boot_update : ℕ → ℕ → ℕ → Updated
boot_update now clock start =
    if ltb 2000000 ((now + 2 ^ 64 - start) % 2 ^ 64)
    then running (transition_to sequencer clock (boot_state start)).1
    else running (boot_state start)

abbrev pub file_transfer_update : ℕ → ℕ → ℕ → Bool → Updated
file_transfer_update now clock completed in_debounce =
    if in_debounce && ltb (completed + debounce_us) now
    then running (transition_to sequencer clock (file_transfer_state completed in_debounce)).1
    else running (file_transfer_state completed in_debounce)

abbrev pub falling_asleep_update : ℕ → ℕ → ℕ → Updated
falling_asleep_update now clock timeout =
    if leb timeout now
    then running (transition_to sleep clock (falling_asleep_state timeout)).1
    else running (falling_asleep_state timeout)

-- The pin is high when the play button is released.
abbrev pub sleep_update : Bool → Bool → Updated
sleep_update pin true = running (sleep_state (not pin))
sleep_update pin false = if pin then running (sleep_state false) else reset

unfoldable pub update : ℕ → ℕ → Bool → SystemState → Updated
update now clock pin (boot_state start) = boot_update now clock start
update now clock pin sequencer_state = running sequencer_state
update now clock pin (file_transfer_state completed in_debounce) =
    file_transfer_update now clock completed in_debounce
update now clock pin (falling_asleep_state timeout) = falling_asleep_update now clock timeout
update now clock pin (sleep_state waiting) = sleep_update pin waiting

-- One update after another.
abbrev pub and_then : Updated → (SystemState → Updated) → Updated
and_then (running t) f = f t
and_then reset f = reset

-- `SysExTransferStateChangeEvent`
pub record TransferEvent : Type 0 where
  pub is_active : Bool
  pub skip_debounce : Bool

-- A transfer that starts; in a transfer the debounce is cancelled.
unfoldable pub transfer_started : ℕ → SystemState → SystemState
transfer_started clock (file_transfer_state completed _) = file_transfer_state completed false
transfer_started clock s = (transition_to file_transfer clock s).1

unfoldable pub transfer_ended : Bool → ℕ → SystemState → SystemState
transfer_ended skip clock (file_transfer_state completed d) =
    if skip
    then (transition_to sequencer clock (file_transfer_state completed d)).1
    else file_transfer_state clock true
transfer_ended skip clock s = s

unfoldable pub notification : TransferEvent → ℕ → SystemState → SystemState
unfolding transfer_started transfer_ended transition_to
notification e clock s =
    if e.is_active then transfer_started clock s else transfer_ended e.skip_debounce clock s
