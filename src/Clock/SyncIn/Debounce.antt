-- ===== src/Clock/SyncIn/Debounce.antt =====
-- The beats and the ticks that musin/timing/sync_in.cpp makes of the pulses of a cable.
use drum_firmware.Base.{
  ltb→lt, ◌-◌, not, leb, refl, ltb, if_cases, ◌<◌, ◌+◌, true, if◌then◌else◌, arith, [], ◌≡◌, ◌∷◌,
  some, none, ◌≤◌, Option, List, Bool, ℕ,
}
use drum_firmware.Clock.SyncIn.{
  waiting_for_stable_low, waiting_for_rising_edge, SyncIn, Emitted, PulseDebounceState, create,
  update, emit_clock_event, interval_since, schedule_interpolated_ticks, rising_edge, low_since,
  pin_low, debounce_pulse, emit_due, emit_scheduled_ticks, detect_cable, pulse_debounce_us,
  max_interpolated_ticks,
}

-- The states that updates reach, with the time of the last of them.
pub data Reach : ℕ → SyncIn → Type 0 where
  created : (sync_pin detect_pin : Bool) (now : ℕ) → Reach now (create sync_pin detect_pin)
  updated :
      {before : ℕ} {s : SyncIn} (pulse_pin detect_pin : Bool) (now clock : ℕ)
      → Reach before s
      → before ≤ now
      → Reach now (update pulse_pin detect_pin now clock s)

-- The ticks that follow the newest beat.
unfoldable pub ticks_since_beat : List Emitted → ℕ
ticks_since_beat [] = 0
ticks_since_beat (e ∷ es) = if e.is_physical then 0 else ticks_since_beat es + 1

unfoldable pub last_beat : List Emitted → Option ℕ
last_beat [] = none
last_beat (e ∷ es) = if e.is_physical then some e.timestamp else last_beat es

-- More than the debounce time after the earlier one, if there is one.
unfoldable pub Follows : Option ℕ → ℕ → Type 0
Follows none t = Unit
Follows (some u) t = u + pulse_debounce_us < t

-- Each beat comes more than the debounce time after the one before.
unfoldable pub Debounced : List Emitted → Type 0
Debounced [] = Unit
Debounced (e ∷ es) = (e.is_physical ≡ true → Follows (last_beat es) e.timestamp) × Debounced es

-- At most eleven ticks follow each beat.
unfoldable pub Bounded : List Emitted → Type 0
Bounded [] = Unit
Bounded (e ∷ es) = (ticks_since_beat (e ∷ es) ≤ max_interpolated_ticks) × Bounded es

-- A beat at a time is possible, or the pin has been low since some time after the newest one.
unfoldable Ready : PulseDebounceState → Option ℕ → Option ℕ → ℕ → Type 0
Ready waiting_for_rising_edge falling none now = Unit
Ready waiting_for_rising_edge falling (some u) now = u + pulse_debounce_us < now
Ready waiting_for_stable_low none none now = Unit
Ready waiting_for_stable_low none (some u) now = u ≤ now
Ready waiting_for_stable_low (some f) none now = f ≤ now
Ready waiting_for_stable_low (some f) (some u) now = (u ≤ f) × (f ≤ now)

record IsValid (now : ℕ) (s : SyncIn) : Type 0 where
  debounced : Debounced s.emitted
  bounded : Bounded s.emitted
  counted : ticks_since_beat s.emitted ≤ s.interpolated_tick_counter
  few : s.interpolated_tick_counter ≤ max_interpolated_ticks
  last : last_beat s.emitted ≡ s.last_physical_pulse_time
  ready : Ready s.pulse_state s.falling_edge_time s.last_physical_pulse_time now

later :
    (p : PulseDebounceState) (falling last : Option ℕ) (before now : ℕ)
    → before ≤ now
    → Ready p falling last before
    → Ready p falling last now
unfolding Ready
later waiting_for_rising_edge falling none before now m r = r
later waiting_for_rising_edge falling (some u) before now m r = omega arith
later waiting_for_stable_low none none before now m r = r
later waiting_for_stable_low none (some u) before now m r = omega arith
later waiting_for_stable_low (some f) none before now m r = omega arith
later waiting_for_stable_low (some f) (some u) before now m r = (r.0, omega arith)

beat-IsValid :
    (now interval counter : ℕ) (next : Option ℕ) (s : SyncIn)
    → IsValid now s
    → Follows s.last_physical_pulse_time now
    → counter ≤ max_interpolated_ticks
    → IsValid now (record s {
      pulse_state = waiting_for_stable_low;
      falling_edge_time = none;
      last_physical_pulse_time = some now;
      tick_interval_us = interval;
      interpolated_tick_counter = counter;
      next_tick_time = next;
      emitted = record { timestamp = now; is_physical = true } ∷ s.emitted;
    })
unfolding Ready Debounced Bounded ticks_since_beat last_beat
beat-IsValid now interval counter next s v f c = record {
  debounced = (λ e. rw v.last f, v.debounced);
  bounded = (omega arith, v.bounded);
  counted = omega arith;
  few = c;
  last = refl;
  ready = omega arith;
}

rising_edge-IsValid :
    (now : ℕ) (s : SyncIn)
    → IsValid now s
    → Follows s.last_physical_pulse_time now
    → IsValid now (rising_edge now s)
unfolding rising_edge emit_clock_event schedule_interpolated_ticks
rising_edge-IsValid now s v f =
    if_cases {A = SyncIn}
      (λ (r : SyncIn).
        IsValid now (record r { pulse_state = waiting_for_stable_low; falling_edge_time = none }))
      (ltb 0 (interval_since s.last_physical_pulse_time now s.tick_interval_us))
      (λ e. beat-IsValid now _ 0 _ s v f (omega arith)) (λ e. beat-IsValid now _ _ _ s v f v.few)

no_time : (now : ℕ) → pulse_debounce_us < now - now → ⊥
no_time now h = omega arith

-- A low pin: when it has been low for longer than the debounce time, a beat may follow.
low-Ready :
    (now : ℕ) (falling last : Option ℕ)
    → Ready waiting_for_stable_low falling last now
    → let t = low_since falling now in
      Ready waiting_for_stable_low (some t) last now
      × (ltb pulse_debounce_us (now - t) ≡ true → Ready waiting_for_rising_edge (some t) last now)
unfolding Ready low_since
low-Ready now none none r = (omega arith, λ e. r)
low-Ready now none (some u) r = ((r, omega arith), λ e. absurd (no_time now (ltb→lt _ _ e)))
low-Ready now (some f) none r = (r, λ e. tt)
low-Ready now (some f) (some u) r = (r, λ e. grind (arith, ltb→lt _ _ e))

falling-Ready :
    (now : ℕ) (falling last : Option ℕ)
    → Ready waiting_for_stable_low falling last now
    → Ready waiting_for_stable_low none last now
unfolding Ready
falling-Ready now none last r = r
falling-Ready now (some f) none r = tt
falling-Ready now (some f) (some u) r = omega arith

rising-Follows :
    (now : ℕ) (falling last : Option ℕ)
    → Ready waiting_for_rising_edge falling last now
    → Follows last now
unfolding Ready Follows
rising-Follows now falling none r = r
rising-Follows now falling (some u) r = r

waiting :
    (now : ℕ) (p : PulseDebounceState) (falling : Option ℕ) (s : SyncIn)
    → IsValid now s
    → Ready p falling s.last_physical_pulse_time now
    → IsValid now (record s { pulse_state = p; falling_edge_time = falling })
waiting now p falling s v r = record {
  debounced = v.debounced;
  bounded = v.bounded;
  counted = v.counted;
  few = v.few;
  last = v.last;
  ready = r;
}

debounce_pulse-IsValid :
    (p : PulseDebounceState) (pin : Bool) (now : ℕ) (s : SyncIn)
    → IsValid now s
    → s.pulse_state ≡ p
    → IsValid now (debounce_pulse p pin now s)
unfolding debounce_pulse pin_low
debounce_pulse-IsValid waiting_for_rising_edge pin now s v e =
    if_cases {A = SyncIn} (IsValid now) pin
      (λ h.
        rising_edge-IsValid now s v
          (rising-Follows now s.falling_edge_time s.last_physical_pulse_time (rw⁻¹ e v.ready)))
      (λ h. v)
debounce_pulse-IsValid waiting_for_stable_low pin now s v e =
    let r = low-Ready now s.falling_edge_time s.last_physical_pulse_time (rw⁻¹ e v.ready) in
    if_cases {A = SyncIn} (IsValid now) (not pin)
      (λ h. waiting now _ _ s v (
        if_cases {A = PulseDebounceState}
          (λ (p : PulseDebounceState).
            Ready p (some (low_since s.falling_edge_time now)) s.last_physical_pulse_time now)
          (ltb pulse_debounce_us (now - low_since s.falling_edge_time now)) (λ d. r.1 d)
          (λ d. rw e r.0)))
      (λ h.
        waiting now s.pulse_state none s v (
          rw e (falling-Ready now s.falling_edge_time s.last_physical_pulse_time (rw⁻¹ e v.ready))))

emit_due-IsValid :
    (next : Option ℕ) (now clock : ℕ) (s : SyncIn)
    → IsValid now s
    → IsValid now (emit_due next clock s)
unfolding emit_due emit_clock_event Debounced Bounded ticks_since_beat last_beat
emit_due-IsValid none now clock s v = v
emit_due-IsValid (some next) now clock s v =
    if_cases {A = SyncIn} (IsValid now) (leb max_interpolated_ticks s.interpolated_tick_counter)
      (λ e. v)
      (λ e.
        if_cases {A = SyncIn} (IsValid now) (leb next clock)
          (λ d. record {
            debounced = (λ f. grind arith, v.debounced);
            bounded = (grind arith, v.bounded);
            counted = grind arith;
            few = grind arith;
            last = v.last;
            ready = v.ready;
          })
          (λ d. v))

detect_cable-IsValid :
    (pin : Bool) (now : ℕ) (s : SyncIn) → IsValid now s → IsValid now (detect_cable pin now s)
unfolding detect_cable
detect_cable-IsValid pin now s v = record {
  debounced = v.debounced;
  bounded = v.bounded;
  counted = v.counted;
  few = v.few;
  last = v.last;
  ready = v.ready;
}

create-IsValid : (sync_pin detect_pin : Bool) (now : ℕ) → IsValid now (create sync_pin detect_pin)
unfolding create Debounced Bounded ticks_since_beat last_beat Ready
create-IsValid sync_pin detect_pin now = record {
  debounced = tt;
  bounded = tt;
  counted = omega arith;
  few = omega arith;
  last = refl;
  ready =
      if_cases {A = PulseDebounceState} (λ (p : PulseDebounceState). Ready p none none now) sync_pin
        (λ e. tt) (λ e. tt);
}

grown : {before now : ℕ} {s : SyncIn} → before ≤ now → IsValid before s → IsValid now s
grown m v = record {
  debounced = v.debounced;
  bounded = v.bounded;
  counted = v.counted;
  few = v.few;
  last = v.last;
  ready = later _ _ _ _ _ m v.ready;
}

Reach-IsValid : {now : ℕ} {s : SyncIn} → Reach now s → IsValid now s
unfolding update emit_scheduled_ticks
Reach-IsValid (created sync_pin detect_pin now) = create-IsValid sync_pin detect_pin now
Reach-IsValid (updated pulse_pin detect_pin now clock r m) = detect_cable-IsValid detect_pin now _ (
    emit_due-IsValid _ now clock _
      (debounce_pulse-IsValid _ pulse_pin now _ (grown m (Reach-IsValid r)) refl))

-- After any updates whose times do not go back, each beat came more than the debounce time after the
-- one before it, and at most eleven ticks followed each beat.
pub beats_and_ticks : {now : ℕ} {s : SyncIn} → Reach now s → Debounced s.emitted × Bounded s.emitted
beats_and_ticks r = ((Reach-IsValid r).debounced, (Reach-IsValid r).bounded)
