-- ===== src/Tempo/Switched.antt =====
-- A change of the source in musin/timing/clock_router.cpp, with what the tempo handler does on it.
use drum_firmware.Base.{◌<◌, refl, ◌∙◌, ◌||◌, true, if◌then◌else◌, false, ◌≡◌, sym, if_cases, ℕ}
use drum_firmware.Speed.{
  normal_speed, internal, midi, external_sync, SpeedModifier, ClockSource, ClockEvent,
}
use drum_firmware.Clock.Internal.{InternalClock, BpmOps, set_bpm}
use drum_firmware.Tempo.{
  default_ppqn, running, Timing, KnobOps, notify_observers, detach, attach, set_speed_modifier,
  set_router_bpm, set_tempo_control_value, on_clock_source_changed, set_router_source, same_source,
}
use drum_firmware.Tempo.Sources.{IsCounting, same_source→eq, running≢waiting, deliver-IsCounting}
use drum_firmware.Tempo.Exclusive.{IsAttached, IsValid, detach-IsDetached, attach-IsAttached}

module _ {F : Type 0} where
  pub set_bpm-running :
      (ops : BpmOps F) (bpm : F) (c : InternalClock F)
      → (set_bpm ops bpm c).is_running ≡ c.is_running
  unfolding set_bpm
  set_bpm-running ops bpm c =
      if_cases {A = InternalClock F} (λ (d : InternalClock F). d.is_running ≡ c.is_running)
        (ops.not_positive bpm || ops.same bpm c.current_bpm) (λ e. refl) (λ e. refl)

  pub set_router_bpm-IsAttached :
      (ops : KnobOps F) (bpm : F) (source : ClockSource) (t : Timing F)
      → IsAttached source t
      → IsAttached source (set_router_bpm ops bpm t)
  unfolding set_router_bpm
  set_router_bpm-IsAttached ops bpm source t a =
      if_cases {A = Timing F} (IsAttached source) (same_source t.current_source internal)
        (λ e. record {
          current = a.current;
          one = a.one;
          internal_only =
              λ r. a.internal_only (sym (set_bpm-running ops.bpm_ops bpm t.internal_clock) ∙ r);
          echo = a.echo;
        })
        (λ e. a)

  pub speed-IsAttached :
      (m : SpeedModifier) (source : ClockSource) (t : Timing F)
      → IsAttached source t
      → IsAttached source (set_speed_modifier m t)
  unfolding set_speed_modifier
  speed-IsAttached m source t a = record {
    current = a.current;
    one = a.one;
    internal_only = a.internal_only;
    echo = a.echo;
  }

  pub knob-IsAttached :
      (ops : KnobOps F) (knob : F) (source : ClockSource) (t : Timing F)
      → IsAttached source t
      → IsAttached source (set_tempo_control_value ops knob t)
  unfolding set_tempo_control_value
  knob-IsAttached ops knob source t a =
      let b : IsAttached source (record t { last_tempo_knob_value = knob }) = record {
        current = a.current;
        one = a.one;
        internal_only = a.internal_only;
        echo = a.echo;
      } in
      if_cases {A = Timing F} (IsAttached source) (same_source t.current_source internal)
        (λ e. speed-IsAttached normal_speed source _ (set_router_bpm-IsAttached ops _ source _ b))
        (λ e. speed-IsAttached _ source _ b)

  pub bpm-handler :
      (ops : KnobOps F) (bpm : F) (t : Timing F) → (set_router_bpm ops bpm t).handler ≡ t.handler
  unfolding set_router_bpm
  bpm-handler ops bpm t =
      if_cases {A = Timing F} (λ (u : Timing F). u.handler ≡ t.handler)
        (same_source t.current_source internal) (λ e. refl) (λ e. refl)

  pub speed-IsCounting :
      (m : SpeedModifier) (source : ClockSource) (t : Timing F)
      → IsCounting source t.handler
      → IsCounting source (set_speed_modifier m t).handler
  unfolding set_speed_modifier
  speed-IsCounting m source t c = record { phase = c.phase; waits = c.waits }

  pub knob-IsCounting :
      (ops : KnobOps F) (knob : F) (source : ClockSource) (t : Timing F)
      → IsCounting source t.handler
      → IsCounting source (set_tempo_control_value ops knob t).handler
  unfolding set_tempo_control_value
  knob-IsCounting ops knob source t c =
      let k = record t { last_tempo_knob_value = knob } in
      if_cases {A = Timing F} (λ (u : Timing F). IsCounting source u.handler)
        (same_source t.current_source internal)
        (λ e.
          speed-IsCounting normal_speed source (set_router_bpm ops (ops.bpm knob) k)
            (rw (bpm-handler ops (ops.bpm knob) k) c))
        (λ e. speed-IsCounting _ source k c)

  pub notify-IsAttached :
      (e : ClockEvent) (source : ClockSource) (t : Timing F)
      → IsAttached source t
      → IsAttached source (notify_observers e t)
  unfolding notify_observers
  notify-IsAttached e source t a = record {
    current = a.current;
    one = a.one;
    internal_only = a.internal_only;
    echo = a.echo;
  }

  pub notify-IsCounting :
      (e : ClockEvent) (source : ClockSource) (t : Timing F)
      → IsCounting source t.handler
      → IsCounting source (notify_observers e t).handler
  unfolding notify_observers
  notify-IsCounting e source t c = deliver-IsCounting source _ t.handler c

  -- The handler when the source has changed.
  changed-IsCounting :
      (ops : KnobOps F) (source : ClockSource) (t : Timing F)
      → t.handler.phase_12 < default_ppqn
      → IsCounting source (on_clock_source_changed ops source t).handler
  unfolding on_clock_source_changed
  changed-IsCounting ops source t p =
      let s =
        if same_source source external_sync
        then t
        else record t { handler = record t.handler { sync_state = running } } in
      let c : IsCounting source s.handler =
        if_cases {A = Timing F} (λ (u : Timing F). IsCounting source u.handler)
          (same_source source external_sync)
          (λ e. record { phase = p; waits = λ w. same_source→eq source external_sync e })
          (λ e. record { phase = p; waits = λ w. absurd (running≢waiting w) }) in
      let m = if same_source source internal then set_speed_modifier normal_speed s else s in
      knob-IsCounting ops m.last_tempo_knob_value source m (
        if_cases {A = Timing F} (λ (u : Timing F). IsCounting source u.handler)
          (same_source source internal) (λ e. speed-IsCounting normal_speed source s c) (λ e. c))

  changed-IsAttached :
      (ops : KnobOps F) (source : ClockSource) (t : Timing F)
      → IsAttached source t
      → IsAttached source (on_clock_source_changed ops source t)
  unfolding on_clock_source_changed
  changed-IsAttached ops source t a =
      let s =
        if same_source source external_sync
        then t
        else record t { handler = record t.handler { sync_state = running } } in
      let b : IsAttached source s =
        if_cases {A = Timing F} (IsAttached source) (same_source source external_sync) (λ e. a)
          (λ e. record {
            current = a.current;
            one = a.one;
            internal_only = a.internal_only;
            echo = a.echo;
          }) in
      knob-IsAttached ops _ source _ (
        if_cases {A = Timing F} (IsAttached source) (same_source source internal)
          (λ e. speed-IsAttached normal_speed source s b) (λ e. b))

  pub settled :
      (source : ClockSource) (t : Timing F)
      → IsAttached source t
      → IsCounting source t.handler
      → IsValid t
  settled source t a c = record { attached = simp a.current a; counting = simp a.current c }

  attach-handler :
      (now : ℕ) (new : ClockSource) (t : Timing F) → (attach now new t).handler ≡ t.handler
  unfolding attach
  attach-handler now internal t = refl
  attach-handler now midi t = refl
  attach-handler now external_sync t = refl

  detach-handler : (old : ClockSource) (t : Timing F) → (detach old t).handler ≡ t.handler
  unfolding detach
  detach-handler internal t = refl
  detach-handler midi t = refl
  detach-handler external_sync t = refl

  kept-phase :
      (now : ℕ) (old new : ClockSource) (t : Timing F)
      → t.handler.phase_12 < default_ppqn
      → (attach now new (record (detach old t) { current_source = new })).handler.phase_12
        < default_ppqn
  kept-phase now old new t h =
      rw (attach-handler now new (record (detach old t) { current_source = new }))
        (rw (detach-handler old t) h)

  pub set_router_source-IsValid :
      (ops : KnobOps F) (now : ℕ) (source : ClockSource) (t : Timing F)
      → IsValid t
      → IsValid (set_router_source ops now source t)
  unfolding set_router_source
  set_router_source-IsValid ops now source t v =
      let changed =
        on_clock_source_changed ops source
          (attach now source (record (detach t.current_source t) { current_source = source })) in
      let a = attach-IsAttached now source _ (detach-IsDetached t.current_source t v.attached) in
      let b = changed-IsAttached ops source _ a in
      let c =
        changed-IsCounting ops source _
          (kept-phase now t.current_source source t v.counting.phase) in
      if_cases {A = Timing F} IsValid (same_source source t.current_source) (λ e. v)
        (λ e.
          if_cases {A = Timing F} IsValid (same_source source external_sync)
            (λ f. settled source _ b c)
            (λ f.
              let e : ClockEvent = record { source = source; is_resync = true; is_beat = false } in
              settled source _ (notify-IsAttached e source changed b)
                (notify-IsCounting e source changed c)))

  pub set_router_source-current :
      (ops : KnobOps F) (now : ℕ) (source : ClockSource) (t : Timing F)
      → IsValid t
      → (set_router_source ops now source t).current_source ≡ source
  unfolding set_router_source notify_observers
  set_router_source-current ops now source t v =
      let b =
        changed-IsAttached ops source _
          (attach-IsAttached now source _ (detach-IsDetached t.current_source t v.attached)) in
      if_cases {A = Timing F} (λ (u : Timing F). u.current_source ≡ source)
        (same_source source t.current_source) (λ e. sym (same_source→eq source t.current_source e))
        (λ e.
          if_cases {A = Timing F} (λ (u : Timing F). u.current_source ≡ source)
            (same_source source external_sync) (λ f. b.current) (λ f. b.current))
