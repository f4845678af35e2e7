-- ===== src/Sequencer/Swing/Zones.antt =====
-- Where the masks of drum/sequencer_effect_swing.cpp lie.
use drum_firmware.Base.{
  all_below_at, refl, arith, ◌%◌, false, ◌||◌, ◌+◌, ◌==◌, true, ◌≡◌, ◌<◌, if◌then◌else◌, all_below,
  Bool, ℕ,
}
use drum_firmware.Sequencer.Swing.{
  middle, late, early, SequencerEffectSwing, HitZone, ppqn, onset_phase_for_parity,
  classify_hit_phase, rotl12,
}

unfoldable pub is_onset : ℕ → SequencerEffectSwing → Bool
is_onset p w = p == onset_phase_for_parity true w || p == onset_phase_for_parity false w

-- The zone of a phase: a step's phase is early, the phase before a step's is late.
unfoldable pub zone : ℕ → SequencerEffectSwing → HitZone
zone p w = if is_onset p w then early else if is_onset ((p + 1) % ppqn) w then late else middle

same_zone : HitZone → HitZone → Bool
same_zone early early = true
same_zone middle middle = true
same_zone late late = true
same_zone _ _ = false

same_zone→eq : (a b : HitZone) → same_zone a b ≡ true → a ≡ b
unfolding same_zone
same_zone→eq early early e = refl
same_zone→eq middle middle e = refl
same_zone→eq late late e = refl
same_zone→eq early middle e = grind arith
same_zone→eq early late e = grind arith
same_zone→eq middle early e = grind arith
same_zone→eq middle late e = grind arith
same_zone→eq late early e = grind arith
same_zone→eq late middle e = grind arith

agrees : Bool → Bool → ℕ → Bool
agrees e d p =
    let w : SequencerEffectSwing = record { swing_enabled = e; swing_delays_odd_steps = d } in
    same_zone (classify_hit_phase p w) (zone p w)

agrees_everywhere : (e d : Bool) → all_below 12 (agrees e d) ≡ true
unfolding agrees same_zone classify_hit_phase zone is_onset onset_phase_for_parity rotl12 all_below
agrees_everywhere true true = refl
agrees_everywhere true false = refl
agrees_everywhere false true = refl
agrees_everywhere false false = refl

-- In every direction of the swing, for a phase below twelve, a hit is early at the phase of a step, late one phase before a
-- step, and in the middle everywhere else.
pub classify_hit_phase_zones :
    (p : ℕ) (w : SequencerEffectSwing) → p < ppqn → classify_hit_phase p w ≡ zone p w
unfolding agrees
classify_hit_phase_zones p w h = same_zone→eq _ _ (
    all_below_at 12 (agrees w.swing_enabled w.swing_delays_odd_steps) p
      (agrees_everywhere w.swing_enabled w.swing_delays_odd_steps) h)
