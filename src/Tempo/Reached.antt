-- ===== src/Tempo/Reached.antt =====
-- What the operations of musin/timing/clock_router.cpp and tempo_handler.cpp of the same folder reach.
use drum_firmware.Base.{
  ◌∙◌, sym, false, ◌||◌, refl, none, true, leb, some, ◌≡◌, ◌&&◌, not, arith, ◌<◌, if_cases, Option,
  Bool, ℕ,
}
use drum_firmware.Speed.{internal, midi, external_sync, ClockSource, ClockEvent}
use drum_firmware.Clock.Internal.{InternalClock, update, update_from}
use drum_firmware.Clock.Midi.{
  is_paused, is_active, MidiClockProcessor, on_midi_clock_tick_received, time_tick, resynced, reset,
}
use drum_firmware.Tempo.{
  default_ppqn, Timing, KnobOps, notify_observers, source_event, set_tempo_control_value,
  set_clock_source, trigger_manual_sync, trigger_resync, update_auto_source_switching, same_source,
}
use drum_firmware.Tempo.Sources.{same_source→eq, emit-IsCounting}
use drum_firmware.Tempo.Exclusive.{IsValid}
use drum_firmware.Tempo.Switched.{
  knob-IsAttached, knob-IsCounting, notify-IsAttached, notify-IsCounting, settled,
  set_router_source-IsValid,
}

time_tick-echo :
    (o : Option ℕ) (now : ℕ) (p : MidiClockProcessor)
    → (time_tick o now p).forward_echo_enabled ≡ p.forward_echo_enabled
unfolding time_tick resynced reset
time_tick-echo none now p = refl
time_tick-echo (some last) now p =
    if_cases {A = MidiClockProcessor}
      (λ (q : MidiClockProcessor). q.forward_echo_enabled ≡ p.forward_echo_enabled)
      (is_paused last now) (λ e. refl) (λ e. refl)

module _ {F : Type 0} where
  -- The operations, and the ticks of the internal clock and of MIDI, with the times at which they
  -- happen. A manual sync aims at a phase of the cycle.
  pub data Step (ops : KnobOps F) (t : Timing F) : Timing F → Type 0 where
    event : (e : ClockEvent) → Step ops t (source_event e t)
    chosen : (now : ℕ) (source : ClockSource) → Step ops t (set_clock_source ops now source t)
    switched : (now : ℕ) (cable : Bool) → Step ops t (update_auto_source_switching ops now cable t)
    turned : (knob : F) → Step ops t (set_tempo_control_value ops knob t)
    synced : (phase : ℕ) → phase < default_ppqn → Step ops t (trigger_manual_sync phase t)
    restarted : Step ops t (trigger_resync t)
    ticked : (now : ℕ) → Step ops t (record t { internal_clock = (update now t.internal_clock).1 })
    midi_ticked :
        (now : ℕ)
        → Step ops t (record t { midi_clock = on_midi_clock_tick_received now t.midi_clock })

  -- From a valid state, as the constructors leave it.
  pub data Reach (ops : KnobOps F) : Timing F → Type 0 where
    initial : {t : Timing F} → IsValid t → Reach ops t
    stepped : {t u : Timing F} → Reach ops t → Step ops t u → Reach ops u

  update-running :
      (now : ℕ) (o : Option ℕ) (c : InternalClock F)
      → (update_from o now c).1.is_running ≡ c.is_running
  unfolding update_from
  update-running now none c = refl
  update-running now (some next) c =
      if_cases {A = Bool × InternalClock F}
        (λ (r : Bool × InternalClock F). r.1.is_running ≡ c.is_running)
        (c.is_running && leb next now) (λ e. refl) (λ e. refl)

  event-IsValid : (e : ClockEvent) (t : Timing F) → IsValid t → IsValid (source_event e t)
  unfolding source_event
  event-IsValid e t v =
      let a = notify-IsAttached e t.current_source t v.attached in
      let c = notify-IsCounting e t.current_source t v.counting in
      if_cases {A = Timing F} IsValid
        ((notify_observers e t).awaiting_first_tick
          && same_source e.source (notify_observers e t).current_source)
        (λ h.
          settled t.current_source _
            (record {
              current = a.current;
              one = a.one;
              internal_only = a.internal_only;
              echo = a.echo;
            })
            c)
        (λ h. settled t.current_source _ a c)

  sync-IsValid :
      (phase : ℕ) (t : Timing F)
      → phase < default_ppqn
      → IsValid t
      → IsValid (trigger_manual_sync phase t)
  unfolding trigger_manual_sync
  sync-IsValid phase t b v =
      if_cases {A = Timing F} IsValid (same_source t.current_source external_sync)
        (λ e. record {
          attached = record {
            current = refl;
            one = v.attached.one;
            internal_only = v.attached.internal_only;
            echo = v.attached.echo;
          };
          counting = record {
            phase = v.counting.phase;
            waits = λ w. same_source→eq t.current_source external_sync e;
          };
        })
        (λ e. record {
          attached = record {
            current = refl;
            one = v.attached.one;
            internal_only = v.attached.internal_only;
            echo = v.attached.echo;
          };
          counting = emit-IsCounting t.current_source phase true t.handler b v.counting;
        })

  chosen-IsValid :
      (ops : KnobOps F) (now : ℕ) (source : ClockSource) (t : Timing F)
      → IsValid t
      → IsValid (set_clock_source ops now source t)
  unfolding set_clock_source
  chosen-IsValid ops now source t v =
      if_cases {A = Timing F} IsValid (same_source source t.current_source) (λ e. v)
        (λ e. set_router_source-IsValid ops now source _ (record {
          attached = record {
            current = refl;
            one = v.attached.one;
            internal_only = v.attached.internal_only;
            echo = v.attached.echo;
          };
          counting = record { phase = omega arith; waits = v.counting.waits };
        }))

  switched-IsValid :
      (ops : KnobOps F) (now : ℕ) (cable : Bool) (t : Timing F)
      → IsValid t
      → IsValid (update_auto_source_switching ops now cable t)
  unfolding update_auto_source_switching
  switched-IsValid ops now cable t v =
      if_cases {A = Timing F} IsValid (not t.auto_switching_enabled) (λ e. v)
        (λ e.
          if_cases {A = Timing F} IsValid cable
            (λ f. set_router_source-IsValid ops now external_sync t v)
            (λ f.
              if_cases {A = Timing F} IsValid (same_source t.current_source midi) (λ g. v)
                (λ g.
                  if_cases {A = Timing F} IsValid
                    (is_active now t.midi_clock
                      || (t.awaiting_first_tick && same_source t.current_source midi))
                    (λ h. set_router_source-IsValid ops now midi t v)
                    (λ h. set_router_source-IsValid ops now internal t v))))

  restarted-IsValid : (t : Timing F) → IsValid t → IsValid (trigger_resync t)
  unfolding trigger_resync
  restarted-IsValid t v =
      let e : ClockEvent = record {
        source = t.current_source;
        is_resync = true;
        is_beat = false;
      } in
      let a = notify-IsAttached e t.current_source t v.attached in
      settled t.current_source _
        (record {
          current = a.current;
          one = a.one;
          internal_only = a.internal_only;
          echo = a.echo;
        })
        (notify-IsCounting e t.current_source t v.counting)

  ticked-IsValid :
      (now : ℕ) (t : Timing F)
      → IsValid t
      → IsValid (record t { internal_clock = (update now t.internal_clock).1 })
  unfolding update
  ticked-IsValid now t v = record {
    attached = record {
      current = refl;
      one = v.attached.one;
      internal_only = λ r.
          v.attached.internal_only
            (sym (update-running now t.internal_clock.next_tick_time t.internal_clock) ∙ r);
      echo = v.attached.echo;
    };
    counting = v.counting;
  }

  midi_ticked-IsValid :
      (now : ℕ) (t : Timing F)
      → IsValid t
      → IsValid (record t { midi_clock = on_midi_clock_tick_received now t.midi_clock })
  unfolding on_midi_clock_tick_received
  midi_ticked-IsValid now t v = record {
    attached = record {
      current = refl;
      one = v.attached.one;
      internal_only = v.attached.internal_only;
      echo = time_tick-echo t.midi_clock.last_raw_tick_time now t.midi_clock ∙ v.attached.echo;
    };
    counting = v.counting;
  }

  step-IsValid : {ops : KnobOps F} {t u : Timing F} → Step ops t u → IsValid t → IsValid u
  step-IsValid (event e) v = event-IsValid e _ v
  step-IsValid (chosen now source) v = chosen-IsValid _ now source _ v
  step-IsValid (switched now cable) v = switched-IsValid _ now cable _ v
  step-IsValid (turned knob) v =
      settled _ _ (knob-IsAttached _ knob _ _ v.attached) (knob-IsCounting _ knob _ _ v.counting)
  step-IsValid (synced phase b) v = sync-IsValid phase _ b v
  step-IsValid restarted v = restarted-IsValid _ v
  step-IsValid (ticked now) v = ticked-IsValid now _ v
  step-IsValid (midi_ticked now) v = midi_ticked-IsValid now _ v

  -- In every state that the operations reach, the router observes the current source and no other,
  -- the internal clock runs only if it is the source and the MIDI clock is echoed exactly if MIDI is,
  -- the phase is one of twelve, and the tempo handler waits for a beat only under external sync.
  pub one_source_counts : {ops : KnobOps F} {t : Timing F} → Reach ops t → IsValid t
  one_source_counts (initial v) = v
  one_source_counts (stepped r s) = step-IsValid s (one_source_counts r)
