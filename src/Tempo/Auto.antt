-- ===== src/Tempo/Auto.antt =====
-- Which source `update_auto_source_switching` of musin/timing/clock_router.cpp chooses.
use drum_firmware.Base.{if◌then◌else◌, ◌∙◌, false, ◌||◌, refl, true, ◌≡◌, ◌&&◌, if_cases, Bool, ℕ}
use drum_firmware.Speed.{internal, midi, external_sync, ClockSource}
use drum_firmware.Clock.Midi.{is_active}
use drum_firmware.Tempo.{Timing, KnobOps, update_auto_source_switching, same_source}
use drum_firmware.Tempo.Sources.{same_source→eq}
use drum_firmware.Tempo.Exclusive.{IsValid}
use drum_firmware.Tempo.Switched.{set_router_source-current}

-- Where MIDI is not the source, no tick of it is awaited.
active_source : (a m w : Bool) → m ≡ false → (a || (w && m)) ≡ true → (m || a) ≡ true
active_source true true w g h = refl
active_source true false w g h = refl
active_source false true w g h = refl
active_source false false true g h = h
active_source false false false g h = h

inactive_source : (a m w : Bool) → m ≡ false → (a || (w && m)) ≡ false → (m || a) ≡ false
inactive_source true true w g h = h
inactive_source true false w g h = h
inactive_source false true w g h = g
inactive_source false false w g h = refl

module _ {F : Type 0} where
  -- External sync while the cable is connected, else MIDI while it is the source or active, and else
  -- the internal clock.
  unfoldable pub wanted_source : ℕ → Bool → Timing F → ClockSource
  wanted_source now cable t =
      if cable
      then external_sync
      else if same_source t.current_source midi || is_active now t.midi_clock
      then midi
      else internal

  wanted_cable :
      (now : ℕ) (cable : Bool) (t : Timing F)
      → cable ≡ true
      → external_sync ≡ wanted_source now cable t
  unfolding wanted_source
  wanted_cable now cable t f = rw f refl

  wanted_midi :
      (now : ℕ) (cable : Bool) (t : Timing F)
      → cable ≡ false
      → (same_source t.current_source midi || is_active now t.midi_clock) ≡ true
      → midi ≡ wanted_source now cable t
  unfolding wanted_source
  wanted_midi now cable t f g = rw f (rw g refl)

  wanted_internal :
      (now : ℕ) (cable : Bool) (t : Timing F)
      → cable ≡ false
      → (same_source t.current_source midi || is_active now t.midi_clock) ≡ false
      → internal ≡ wanted_source now cable t
  unfolding wanted_source
  wanted_internal now cable t f g = rw f (rw g refl)

  -- With automatic switching on, an update in a valid state makes the source external sync while the
  -- cable is connected, else MIDI if it was the source already, active or not, or if it is active,
  -- and else the internal clock.
  pub auto_source :
      (ops : KnobOps F) (now : ℕ) (cable : Bool) (t : Timing F)
      → IsValid t
      → t.auto_switching_enabled ≡ true
      → (update_auto_source_switching ops now cable t).current_source ≡ wanted_source now cable t
  unfolding update_auto_source_switching
  auto_source ops now cable t v e = simp e (
      if_cases {A = Timing F} (λ (u : Timing F). u.current_source ≡ wanted_source now cable t) cable
        (λ f. set_router_source-current ops now external_sync t v ∙ wanted_cable now cable t f)
        (λ f.
          if_cases {A = Timing F} (λ (u : Timing F). u.current_source ≡ wanted_source now cable t)
            (same_source t.current_source midi)
            (λ g. same_source→eq t.current_source midi g ∙ wanted_midi now cable t f (rw g refl))
            (λ g.
              if_cases {A = Timing F}
                (λ (u : Timing F). u.current_source ≡ wanted_source now cable t)
                (is_active now t.midi_clock
                  || (t.awaiting_first_tick && same_source t.current_source midi))
                (λ h.
                  set_router_source-current ops now midi t v
                  ∙ wanted_midi now cable t f (active_source _ _ t.awaiting_first_tick g h))
                (λ h.
                  set_router_source-current ops now internal t v
                  ∙ wanted_internal now cable t f
                      (inactive_source _ _ t.awaiting_first_tick g h)))))
