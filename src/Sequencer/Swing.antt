-- ===== src/Sequencer/Swing.antt =====
-- drum/sequencer_effect_swing.cpp: `SequencerEffectSwing`, when in a beat of twelve phases the steps are
-- due. A mask has one bit for each phase.
use drum_firmware.Base.{
  ◌-◌, ◌/◌, ◌+◌, ◌==◌, ◌*◌, not, ◌^◌, ◌&&◌, ◌%◌, u32, if◌then◌else◌, false, bit_or, true, bit_and,
  Bool, ℕ,
}
pub mod Zones

pub record SequencerEffectSwing : Type 0 where
  pub swing_enabled : Bool
  pub swing_delays_odd_steps : Bool

pub record StepTiming : Type 0 where
  pub expected_phase : ℕ
  pub substep_mask : ℕ
  pub is_delay_applied : Bool

pub data HitZone : Type 0 where
  early middle late : HitZone

abbrev pub ppqn : ℕ
ppqn = 12

abbrev pub straight_offbeat : ℕ
straight_offbeat = 6

abbrev pub swing_offset_phases : ℕ
swing_offset_phases = 2

-- Phases 0, 3, 6 and 9.
abbrev pub sixteenth_mask : ℕ
sixteenth_mask = 585

-- Phases 0, 4 and 8.
abbrev pub triplet_mask : ℕ
triplet_mask = 273

unfoldable pub rotl12 : ℕ → ℕ → ℕ
rotl12 mask rotation =
    bit_and (bit_or (u32 (mask * 2 ^ rotation)) (mask / 2 ^ (12 - rotation))) (2 ^ 12 - 1)

unfoldable pub onset_phase_for_parity : Bool → SequencerEffectSwing → ℕ
onset_phase_for_parity is_even w =
    let straight_phase = if is_even then 0 else straight_offbeat in
    let is_delayed =
      w.swing_enabled && (if w.swing_delays_odd_steps then not is_even else is_even) in
    if is_delayed then (straight_phase + swing_offset_phases) % ppqn else straight_phase

unfoldable pub calculate_step_timing : ℕ → Bool → ℕ → SequencerEffectSwing → StepTiming
unfolding rotl12 onset_phase_for_parity
calculate_step_timing next_index repeat_active transport_step w =
    let next_is_even = if repeat_active then transport_step % 2 == 0 else next_index % 2 == 0 in
    let expected_phase = onset_phase_for_parity next_is_even w in
    let straight_phase = if next_is_even then 0 else straight_offbeat in
    record {
      expected_phase = expected_phase;
      substep_mask =
          rotl12 (if w.swing_enabled then triplet_mask else sixteenth_mask) expected_phase;
      is_delay_applied = not (expected_phase == straight_phase);
    }

-- Both zones are one tick wide.
unfoldable pub classify_hit_phase : ℕ → SequencerEffectSwing → HitZone
unfolding rotl12 onset_phase_for_parity
classify_hit_phase phase_12 w =
    let even_onset = onset_phase_for_parity true w in
    let odd_onset = onset_phase_for_parity false w in
    let early_mask = bit_or (rotl12 1 even_onset) (rotl12 1 odd_onset) in
    let late_mask = bit_or (rotl12 (2 ^ 11) even_onset) (rotl12 (2 ^ 11) odd_onset) in
    let phase_bit = 2 ^ (phase_12 % ppqn) in
    if not (bit_and early_mask phase_bit == 0)
    then early
    else if not (bit_and late_mask phase_bit == 0)
    then late
    else middle

unfoldable pub set_swing_enabled : Bool → SequencerEffectSwing → SequencerEffectSwing
set_swing_enabled enabled w = record w { swing_enabled = enabled }

unfoldable pub set_swing_target : Bool → SequencerEffectSwing → SequencerEffectSwing
set_swing_target delay_odd w = record w { swing_delays_odd_steps = delay_odd }
