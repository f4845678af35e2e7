-- ===== src/Tempo.antt =====
-- musin/timing/clock_router.cpp and tempo_handler.cpp of the same folder: `ClockRouter`, which forwards the
-- clock source that is chosen, and `TempoHandler`, which counts its ticks as phases. Between them stands
-- the speed adapter. Floating-point numbers are a parameter.
use drum_firmware.Base.{
  ◌||◌, not, ◌%◌, ◌∷◌, ◌+◌, ◌&&◌, [], true, if◌then◌else◌, get_or, false, List, Bool, ℕ,
}
use drum_firmware.Speed.{
  normal_speed, midi, double_speed, internal, half_speed, set_modifier, notification, external_sync,
  SpeedAdapter, SpeedModifier, ClockSource, ClockEvent,
}
use drum_firmware.Clock.Internal.{set_bpm, stop, start, InternalClock, BpmOps}
use drum_firmware.Clock.Midi.{reset, is_active, MidiClockProcessor}
pub mod Sources
pub mod Exclusive
pub mod Switched
pub mod Reached
pub mod Auto
mod Tests

-- What is computed with the knob's value: the tempo in the range, `knob_value < 0.1f` and `knob_value > 0.9f`.
pub record KnobOps (F : Type 0) : Type 0 where
  pub bpm_ops : BpmOps F
  pub bpm : F → F
  pub is_low : F → Bool
  pub is_high : F → Bool

pub data SyncState : Type 0 where
  running waiting_for_beat : SyncState

pub record TempoEvent : Type 0 where
  pub phase_12 : ℕ
  pub is_resync : Bool

-- The members of `TempoHandler`, with its events for the observers, newest first.
pub record TempoHandler : Type 0 where
  pub current_speed_modifier : SpeedModifier
  pub phase_12 : ℕ
  pub tick_count : ℕ
  pub sync_state : SyncState
  pub notified : List TempoEvent

-- The router with its sources, and what it notifies. The sources it observes are those that would
-- notify it, and `sync_resyncs` counts the calls of `SyncOut::resync`.
pub record Timing (F : Type 0) : Type 0 where
  pub current_source : ClockSource
  pub auto_switching_enabled : Bool
  pub awaiting_first_tick : Bool
  pub observes : ClockSource → Bool
  pub internal_clock : InternalClock F
  pub midi_clock : MidiClockProcessor
  pub sync_resyncs : ℕ
  pub adapter : SpeedAdapter
  pub handler : TempoHandler
  pub last_tempo_knob_value : F

unfoldable pub same_source : ClockSource → ClockSource → Bool
same_source internal internal = true
same_source midi midi = true
same_source external_sync external_sync = true
same_source _ _ = false

abbrev half_speed_lut : List ℕ
half_speed_lut = 0 ∷ 0 ∷ 3 ∷ 3 ∷ 3 ∷ 6 ∷ 6 ∷ 6 ∷ 9 ∷ 9 ∷ 9 ∷ 0 ∷ []

abbrev normal_speed_lut : List ℕ
normal_speed_lut = 0 ∷ 0 ∷ 0 ∷ 6 ∷ 6 ∷ 6 ∷ 6 ∷ 6 ∷ 6 ∷ 0 ∷ 0 ∷ 0 ∷ []

unfoldable pub aligned_phase : SpeedModifier → ℕ → ℕ
aligned_phase half_speed phase = get_or half_speed_lut phase 0
aligned_phase normal_speed phase = get_or normal_speed_lut phase 0
aligned_phase double_speed phase = 0

abbrev pub default_ppqn : ℕ
default_ppqn = 12

unfoldable pub is_waiting : SyncState → Bool
is_waiting running = false
is_waiting waiting_for_beat = true

unfoldable pub emit : ℕ → Bool → TempoHandler → TempoHandler
emit phase is_resync h = record h {
  phase_12 = phase;
  tick_count = h.tick_count + 1;
  notified = record { phase_12 = phase; is_resync = is_resync } ∷ h.notified;
}

-- `TempoHandler::notification`
unfoldable pub tick : ClockEvent → TempoHandler → TempoHandler
unfolding same_source aligned_phase is_waiting emit
tick e h =
    let anchored = same_source e.source external_sync && e.is_beat in
    let anchor = aligned_phase h.current_speed_modifier h.phase_12 in
    let synced = if anchored then record h { sync_state = running } else h in
    if is_waiting synced.sync_state
    then synced
    else if e.is_resync
    then emit (if anchored then anchor else 0) true synced
    else emit (if anchored then anchor else (h.phase_12 + 1) % default_ppqn) false synced

-- The events of the adapter, newest first.
unfoldable pub deliver : List ClockEvent → TempoHandler → TempoHandler
deliver [] h = h
deliver (e ∷ es) h = tick e (deliver es h)

module _ {F : Type 0} where
  -- `ClockRouter::notify_observers`, through the speed adapter to the tempo handler.
  unfoldable pub notify_observers : ClockEvent → Timing F → Timing F
  unfolding deliver
  notify_observers e t =
      let a = notification e (record t.adapter { notified = [] }) in
      record t { adapter = a; handler = deliver a.notified t.handler }

  -- `ClockRouter::notification`
  unfoldable pub source_event : ClockEvent → Timing F → Timing F
  unfolding notify_observers same_source
  source_event e t =
      let n = notify_observers e t in
      if n.awaiting_first_tick && same_source e.source n.current_source
      then record n { awaiting_first_tick = false }
      else n

  abbrev observe : ClockSource → Bool → Timing F → Timing F
  observe s b t = record t { observes = λ r. if same_source r s then b else t.observes r }

  unfoldable pub detach : ClockSource → Timing F → Timing F
  unfolding same_source
  detach internal t = record (observe internal false t) { internal_clock = stop t.internal_clock }
  detach midi t = record (observe midi false t) {
    midi_clock = record t.midi_clock { forward_echo_enabled = false };
  }
  detach external_sync t = observe external_sync false t

  unfoldable pub attach : ℕ → ClockSource → Timing F → Timing F
  unfolding same_source
  attach now internal t = record (observe internal true t) {
    internal_clock = start now t.internal_clock;
    awaiting_first_tick = false;
  }
  attach now midi t = record (observe midi true t) {
    midi_clock = record (reset t.midi_clock) { forward_echo_enabled = true };
    awaiting_first_tick = true;
  }
  attach now external_sync t = record (observe external_sync true t) { awaiting_first_tick = true }

  unfoldable pub set_speed_modifier : SpeedModifier → Timing F → Timing F
  set_speed_modifier m t = record t {
    handler = record t.handler { current_speed_modifier = m };
    adapter = set_modifier m t.adapter;
  }

  -- `ClockRouter::set_bpm`
  unfoldable pub set_router_bpm : KnobOps F → F → Timing F → Timing F
  unfolding same_source
  set_router_bpm ops bpm t =
      if same_source t.current_source internal
      then record t { internal_clock = set_bpm ops.bpm_ops bpm t.internal_clock }
      else t

  unfoldable pub set_tempo_control_value : KnobOps F → F → Timing F → Timing F
  unfolding same_source set_router_bpm set_speed_modifier
  set_tempo_control_value ops knob_value t =
      let k = record t { last_tempo_knob_value = knob_value } in
      let modifier =
        if ops.is_low knob_value
        then half_speed
        else if ops.is_high knob_value
        then double_speed
        else normal_speed in
      if same_source t.current_source internal
      then set_speed_modifier normal_speed (set_router_bpm ops (ops.bpm knob_value) k)
      else set_speed_modifier modifier k

  unfoldable pub on_clock_source_changed : KnobOps F → ClockSource → Timing F → Timing F
  unfolding same_source set_speed_modifier set_tempo_control_value
  on_clock_source_changed ops new_source t =
      let s =
        if same_source new_source external_sync
        then t
        else record t { handler = record t.handler { sync_state = running } } in
      let m = if same_source new_source internal then set_speed_modifier normal_speed s else s in
      set_tempo_control_value ops m.last_tempo_knob_value m

  -- `ClockRouter::set_clock_source`, once it is initialized.
  unfoldable pub set_router_source : KnobOps F → ℕ → ClockSource → Timing F → Timing F
  unfolding same_source detach attach on_clock_source_changed notify_observers
  set_router_source ops now source t =
      let attached =
        attach now source (record (detach t.current_source t) { current_source = source }) in
      let changed = on_clock_source_changed ops source attached in
      if same_source source t.current_source
      then t
      else if same_source source external_sync
      then changed
      else notify_observers (record { source = source; is_resync = true; is_beat = false }) changed

  -- `TempoHandler::set_clock_source`, once it is initialized.
  unfoldable pub set_clock_source : KnobOps F → ℕ → ClockSource → Timing F → Timing F
  unfolding same_source set_router_source
  set_clock_source ops now source t =
      if same_source source t.current_source
      then t
      else set_router_source ops now source
          (record t { handler = record t.handler { phase_12 = 0 } })

  -- `TempoHandler::trigger_manual_sync`
  unfoldable pub trigger_manual_sync : ℕ → Timing F → Timing F
  unfolding same_source emit
  trigger_manual_sync target_phase t =
      if same_source t.current_source external_sync
      then record t { handler = record t.handler { sync_state = waiting_for_beat } }
      else record t {
        sync_resyncs = t.sync_resyncs + 1;
        handler = emit target_phase true t.handler;
      }

  -- `ClockRouter::trigger_resync`
  unfoldable pub trigger_resync : Timing F → Timing F
  unfolding notify_observers
  trigger_resync t =
      let n =
        notify_observers (record { source = t.current_source; is_resync = true; is_beat = false })
          t in
      record n { sync_resyncs = n.sync_resyncs + 1 }

  -- Whether the cable is connected is an argument.
  unfoldable pub update_auto_source_switching : KnobOps F → ℕ → Bool → Timing F → Timing F
  unfolding same_source set_router_source
  update_auto_source_switching ops now is_cable_connected t =
      let awaiting_midi_tick = t.awaiting_first_tick && same_source t.current_source midi in
      if not t.auto_switching_enabled
      then t
      else if is_cable_connected
      then set_router_source ops now external_sync t
      else if same_source t.current_source midi
      then t
      else if is_active now t.midi_clock || awaiting_midi_tick
      then set_router_source ops now midi t
      else set_router_source ops now internal t
