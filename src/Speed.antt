-- ===== src/Speed.antt =====
-- musin/timing/speed_adapter.cpp and .h: `SpeedAdapter`, which divides the clock's 24 ticks a quarter
-- note. The events that are passed on to the observers are kept newest first.
pub mod Rate
pub mod Deferred
mod Tests
use drum_firmware.Base.{
  ◌==◌, ◌%◌, not, false, ◌+◌, ◌&&◌, true, none, List, ◌∷◌, u32, some, if◌then◌else◌, Option, Bool,
  ℕ,
}

pub data SpeedModifier : Type 0 where
  half_speed normal_speed double_speed : SpeedModifier

pub data ClockSource : Type 0 where
  internal midi external_sync : ClockSource

pub record ClockEvent : Type 0 where
  pub source : ClockSource
  pub is_resync : Bool
  pub is_beat : Bool

pub record SpeedAdapter : Type 0 where
  pub modifier : SpeedModifier
  pub tick_counter : ℕ
  pub current_source : ClockSource
  pub pending_modifier : Option SpeedModifier
  pub notified : List ClockEvent

-- `modifier_ == m`
unfoldable pub same_modifier : SpeedModifier → SpeedModifier → Bool
same_modifier half_speed half_speed = true
same_modifier normal_speed normal_speed = true
same_modifier double_speed double_speed = true
same_modifier _ _ = false

abbrev pub has_pending : Option SpeedModifier → Bool
has_pending (some m) = true
has_pending none = false

-- A change under external sync waits for the next beat.
unfoldable pub set_for : ClockSource → SpeedModifier → SpeedAdapter → SpeedAdapter
set_for external_sync m a = record a { pending_modifier = some m }
set_for _ m a = record a { modifier = m; tick_counter = 0; pending_modifier = none }

unfoldable pub set_modifier : SpeedModifier → SpeedAdapter → SpeedAdapter
unfolding set_for same_modifier
set_modifier m a =
    if same_modifier a.modifier m && not (has_pending a.pending_modifier)
    then a
    else set_for a.current_source m a

abbrev pub notify_observers : ClockEvent → SpeedAdapter → SpeedAdapter
notify_observers e a = record a { notified = e ∷ a.notified }

-- Every how many ticks an event is passed on.
unfoldable pub divisor : SpeedModifier → ℕ
divisor half_speed = 4
divisor normal_speed = 2
divisor double_speed = 1

unfoldable pub apply_pending : Option SpeedModifier → SpeedAdapter → SpeedAdapter
apply_pending (some m) a = record a { modifier = m; pending_modifier = none }
apply_pending none a = a

unfoldable pub plain_tick : ClockEvent → SpeedAdapter → SpeedAdapter
unfolding divisor
plain_tick e a =
    let b = record a { tick_counter = u32 (a.tick_counter + 1) } in
    if b.tick_counter % divisor b.modifier == 0 then notify_observers e b else b

unfoldable pub notification : ClockEvent → SpeedAdapter → SpeedAdapter
unfolding plain_tick apply_pending
notification e a =
    let b = record a { current_source = e.source } in
    if e.is_resync
    then record (notify_observers e b) { tick_counter = 0 }
    else if e.is_beat
    then record (notify_observers e (apply_pending b.pending_modifier b)) { tick_counter = 0 }
    else plain_tick e b
