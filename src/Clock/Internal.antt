-- ===== src/Clock/Internal.antt =====
-- musin/timing/internal_clock.cpp: `InternalClock`. Tempos are floating-point numbers, so their type
-- and what the code computes with them are parameters. An instant that is not set is `none`.
use drum_firmware.Base.{
  ◌+◌, true, ◌==◌, ◌-◌, none, ltb, leb, ◌||◌, ◌&&◌, some, false, if◌then◌else◌, Option, Bool, ℕ,
}

-- `bpm <= 0.0f`, `bpm == _current_bpm` and `calculate_tick_interval`, in microseconds.
pub record BpmOps (F : Type 0) : Type 0 where
  pub not_positive : F → Bool
  pub same : F → F → Bool
  pub tick_interval : F → ℕ

pub record InternalClock (F : Type 0) : Type 0 where
  pub current_bpm : F
  pub tick_interval_us : ℕ
  pub is_running : Bool
  pub next_tick_time : Option ℕ

-- The last tick is one old interval before the next one, which is never earlier than that.
unfoldable pub rescheduled : ℕ → ℕ → Option ℕ → Option ℕ
rescheduled old_interval new_interval none = none
rescheduled old_interval new_interval (some next) = some (next - old_interval + new_interval)

module _ {F : Type 0} where
  unfoldable pub set_bpm : BpmOps F → F → InternalClock F → InternalClock F
  unfolding rescheduled
  set_bpm ops bpm c =
      let interval = ops.tick_interval bpm in
      if ops.not_positive bpm || ops.same bpm c.current_bpm then c else record c {
        current_bpm = bpm;
        tick_interval_us = interval;
        next_tick_time =
            if c.is_running
            then rescheduled c.tick_interval_us interval c.next_tick_time
            else c.next_tick_time;
      }

  unfoldable pub start : ℕ → InternalClock F → InternalClock F
  start clock c =
      if c.is_running || c.tick_interval_us == 0
      then c
      else record c { is_running = true; next_tick_time = some (clock + c.tick_interval_us) }

  unfoldable pub stop : InternalClock F → InternalClock F
  stop c = if c.is_running then record c { is_running = false; next_tick_time = none } else c

  -- Whether a tick is emitted.
  unfoldable pub update_from : Option ℕ → ℕ → InternalClock F → Bool × InternalClock F
  update_from none clock c = (false, c)
  update_from (some next) clock c =
      if c.is_running && leb next clock
      then (true, record c { next_tick_time = some (next + c.tick_interval_us) })
      else (false, c)

  unfoldable pub update : ℕ → InternalClock F → Bool × InternalClock F
  unfolding update_from
  update clock c = update_from c.next_tick_time clock c

  unfoldable pub reset : ℕ → InternalClock F → InternalClock F
  reset clock c =
      if c.is_running && ltb 0 c.tick_interval_us
      then record c { next_tick_time = some (clock + c.tick_interval_us) }
      else c
