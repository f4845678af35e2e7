-- ===== src/Drumpad/Gesture.antt =====
-- The events of musin/ui/drumpad.cpp are whole gestures.
use drum_firmware.Base.{◌-◌, ltb, leb, refl, if_cases, [], ◌∷◌, ◌≡◌, List, ℕ}
use drum_firmware.Drumpad.{
  rising, peaking, idle, holding, falling, debouncing_release, release, press, hold, idle_update,
  rising_update, peaking_update, falling_update, holding_update, debouncing_update,
  update_state_machine, Drumpad, DrumpadConfig, DrumpadEvent, DrumpadState, EventType, update,
  initial,
}

-- What the newest event leaves open.
pub data Phase : Type 0 where
  released pressed held : Phase

abbrev pub phase_after : EventType → Phase
phase_after press = pressed
phase_after hold = held
phase_after release = released

unfoldable pub phase : List DrumpadEvent → Phase
phase [] = released
phase (e ∷ es) = phase_after e.type

-- An event of a type may come in a phase: a press when the pad is released, a hold after a press, and
-- a release after either.
unfoldable pub May : EventType → Phase → Type 0
May press released = Unit
May hold pressed = Unit
May release pressed = Unit
May release held = Unit
May _ _ = ⊥

unfoldable pub IsOrdered : List DrumpadEvent → Type 0
IsOrdered [] = Unit
IsOrdered (e ∷ es) = May e.type (phase es) × IsOrdered es

-- What may come in a state.
unfoldable pub Fits : DrumpadState → Phase → Type 0
Fits idle p = p ≡ released
Fits rising p = p ≡ released
Fits peaking p = p ≡ pressed
Fits holding p = p ≡ held
Fits falling p = May release p
Fits debouncing_release p = May release p

record IsValid (d : Drumpad) : Type 0 where
  ordered : IsOrdered d.notified
  fits : Fits d.current_state (phase d.notified)

-- The readings, each with its time.
pub data Reach (config : DrumpadConfig) : Drumpad → Type 0 where
  started : Reach config (initial config)
  updated :
      {d : Drumpad} (now raw_adc_value : ℕ)
      → Reach config d
      → Reach config (update config now raw_adc_value d)

after_pressed : (p : Phase) → p ≡ pressed → May release p
unfolding May
after_pressed p e = rw e tt

after_held : (p : Phase) → p ≡ held → May release p
unfolding May
after_held p e = rw e tt

module _ (config : DrumpadConfig) (value now : ℕ) where
  idle-IsValid :
      (d : Drumpad)
      → IsOrdered d.notified
      → phase d.notified ≡ released
      → d.current_state ≡ idle
      → IsValid (idle_update config value now d)
  unfolding idle_update Fits
  idle-IsValid d o f s =
      if_cases {A = Drumpad} IsValid (leb config.noise_threshold value)
        (λ e. record { ordered = o; fits = f }) (λ e. record { ordered = o; fits = rw s f })

  rising-IsValid :
      (d : Drumpad)
      → IsOrdered d.notified
      → phase d.notified ≡ released
      → d.current_state ≡ rising
      → IsValid (rising_update config value now d)
  unfolding rising_update Fits IsOrdered phase May
  rising-IsValid d o f s =
      if_cases {A = Drumpad} IsValid (leb config.trigger_threshold value)
        (λ e. record { ordered = (rw f tt, o); fits = refl })
        (λ e.
          if_cases {A = Drumpad} IsValid (ltb value config.noise_threshold)
            (λ g. record { ordered = o; fits = f }) (λ g. record { ordered = o; fits = rw s f }))

  peaking-IsValid :
      (d : Drumpad)
      → IsOrdered d.notified
      → phase d.notified ≡ pressed
      → d.current_state ≡ peaking
      → IsValid (peaking_update config value now d)
  unfolding peaking_update Fits IsOrdered phase May
  peaking-IsValid d o f s =
      if_cases {A = Drumpad} IsValid (leb config.hold_time_us (now - d.state_transition_time))
        (λ e. record { ordered = (rw f tt, o); fits = refl })
        (λ e.
          if_cases {A = Drumpad} IsValid (ltb value config.noise_threshold)
            (λ g. record { ordered = o; fits = after_pressed _ f })
            (λ g. record { ordered = o; fits = rw s f }))

  falling-IsValid :
      (d : Drumpad)
      → IsOrdered d.notified
      → May release (phase d.notified)
      → d.current_state ≡ falling
      → IsValid (falling_update config value now d)
  unfolding falling_update Fits
  falling-IsValid d o f s =
      if_cases {A = Drumpad} IsValid (ltb value config.noise_threshold)
        (λ g. record { ordered = o; fits = f }) (λ g. record { ordered = o; fits = rw s f })

  holding-IsValid :
      (d : Drumpad)
      → IsOrdered d.notified
      → phase d.notified ≡ held
      → d.current_state ≡ holding
      → IsValid (holding_update config value now d)
  unfolding holding_update Fits
  holding-IsValid d o f s =
      if_cases {A = Drumpad} IsValid (ltb value config.trigger_threshold)
        (λ g. record { ordered = o; fits = after_held _ f })
        (λ g. record { ordered = o; fits = rw s f })

  debouncing-IsValid :
      (d : Drumpad)
      → IsOrdered d.notified
      → May release (phase d.notified)
      → d.current_state ≡ debouncing_release
      → IsValid (debouncing_update config value now d)
  unfolding debouncing_update Fits IsOrdered phase
  debouncing-IsValid d o f s =
      if_cases {A = Drumpad} IsValid (leb config.noise_threshold value)
        (λ e. record { ordered = o; fits = f })
        (λ e.
          if_cases {A = Drumpad} IsValid
            (leb config.debounce_time_us (now - d.state_transition_time))
            (λ g. record { ordered = (f, o); fits = refl })
            (λ g. record { ordered = o; fits = rw s f }))

  machine-IsValid :
      (s : DrumpadState) (d : Drumpad)
      → IsOrdered d.notified
      → Fits s (phase d.notified)
      → d.current_state ≡ s
      → IsValid (update_state_machine s config value now d)
  unfolding update_state_machine Fits
  machine-IsValid idle d o f s = idle-IsValid d o f s
  machine-IsValid rising d o f s = rising-IsValid d o f s
  machine-IsValid peaking d o f s = peaking-IsValid d o f s
  machine-IsValid falling d o f s = falling-IsValid d o f s
  machine-IsValid holding d o f s = holding-IsValid d o f s
  machine-IsValid debouncing_release d o f s = debouncing-IsValid d o f s

reached : {config : DrumpadConfig} {d : Drumpad} → Reach config d → IsValid d
unfolding initial update Fits IsOrdered phase
reached started = record { ordered = tt; fits = refl }
reached {config} (updated now raw_adc_value r) =
    machine-IsValid config _ now _ _ (reached r).ordered (reached r).fits refl

-- Whatever the readings, their times and the thresholds, the events of a pad are whole gestures: a
-- press comes only when the pad is released, a hold only right after a press, and a release only
-- after a press or a hold.
pub events-IsOrdered :
    {config : DrumpadConfig} {d : Drumpad} → Reach config d → IsOrdered d.notified
events-IsOrdered r = (reached r).ordered
