-- ===== src/Tempo/Sources.antt =====
-- One clock source at a time: the router of musin/timing/clock_router.cpp and the tempo handler that
-- counts its ticks.
use mathlib.Core.Bool.{false≢true}
use drum_firmware.Base.{
  refl, ltb, if_cases, [], ◌∷◌, if◌then◌else◌, ap, all_below_at, ◌≢◌, ◌&&◌, true, ltb→lt, false,
  List, all_below, Bool, ◌≡◌, arith, ◌<◌, ℕ,
}
use drum_firmware.Speed.{
  midi, internal, double_speed, normal_speed, external_sync, half_speed, SpeedModifier, ClockSource,
  ClockEvent,
}
use drum_firmware.Tempo.{
  is_waiting, tick, same_source, running, emit, deliver, waiting_for_beat, default_ppqn,
  aligned_phase, TempoHandler,
}

-- Where the handler stands in the cycle, and that it waits for a beat only if the source has beats.
pub record IsCounting (source : ClockSource) (h : TempoHandler) : Type 0 where
  pub phase : h.phase_12 < default_ppqn
  pub waits : h.sync_state ≡ waiting_for_beat → source ≡ external_sync

aligned : (m : SpeedModifier) (p : ℕ) → p < default_ppqn → aligned_phase m p < default_ppqn
unfolding aligned_phase all_below
aligned half_speed p h =
    ltb→lt _ _ (all_below_at 12 (λ p. ltb (aligned_phase half_speed p) 12) p refl h)
aligned normal_speed p h =
    ltb→lt _ _ (all_below_at 12 (λ p. ltb (aligned_phase normal_speed p) 12) p refl h)
aligned double_speed p h = omega arith

pub same_source→eq : (a b : ClockSource) → same_source a b ≡ true → a ≡ b
unfolding same_source
same_source→eq internal internal e = refl
same_source→eq midi midi e = refl
same_source→eq external_sync external_sync e = refl
same_source→eq internal midi e = absurd (false≢true e)
same_source→eq internal external_sync e = absurd (false≢true e)
same_source→eq midi internal e = absurd (false≢true e)
same_source→eq midi external_sync e = absurd (false≢true e)
same_source→eq external_sync internal e = absurd (false≢true e)
same_source→eq external_sync midi e = absurd (false≢true e)

pub same_source_self : (a : ClockSource) → same_source a a ≡ true
unfolding same_source
same_source_self internal = refl
same_source_self midi = refl
same_source_self external_sync = refl

pub running≢waiting : running ≢ waiting_for_beat
unfolding is_waiting
running≢waiting e = false≢true (ap is_waiting e)

pub emit-IsCounting :
    (source : ClockSource) (phase : ℕ) (is_resync : Bool) (h : TempoHandler)
    → phase < default_ppqn
    → IsCounting source h
    → IsCounting source (emit phase is_resync h)
unfolding emit
emit-IsCounting source phase is_resync h b c = record { phase = b; waits = c.waits }

pub tick-IsCounting :
    (source : ClockSource) (e : ClockEvent) (h : TempoHandler)
    → IsCounting source h
    → IsCounting source (tick e h)
unfolding tick
tick-IsCounting source e h c =
    let anchored = same_source e.source external_sync && e.is_beat in
    let synced = if anchored then record h { sync_state = running } else h in
    let s : IsCounting source synced =
      if_cases {A = TempoHandler} (IsCounting source) anchored
        (λ a. record { phase = c.phase; waits = λ w. absurd (running≢waiting w) }) (λ a. c) in
    if_cases {A = TempoHandler} (IsCounting source) (is_waiting synced.sync_state) (λ w. s)
      (λ w.
        if_cases {A = TempoHandler} (IsCounting source) e.is_resync
          (λ r.
            emit-IsCounting source _ true synced
              (if_cases {A = ℕ} (λ (p : ℕ). p < default_ppqn) anchored
                (λ a. aligned h.current_speed_modifier h.phase_12 c.phase) (λ a. omega arith))
              s)
          (λ r.
            emit-IsCounting source _ false synced
              (if_cases {A = ℕ} (λ (p : ℕ). p < default_ppqn) anchored
                (λ a. aligned h.current_speed_modifier h.phase_12 c.phase) (λ a. omega arith))
              s))

pub deliver-IsCounting :
    (source : ClockSource) (es : List ClockEvent) (h : TempoHandler)
    → IsCounting source h
    → IsCounting source (deliver es h)
unfolding deliver
deliver-IsCounting source [] h c = c
deliver-IsCounting source (e ∷ es) h c =
    tick-IsCounting source e _ (deliver-IsCounting source es h c)
