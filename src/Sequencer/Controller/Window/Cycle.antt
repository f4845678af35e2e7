-- ===== src/Sequencer/Controller/Window/Cycle.antt =====
-- The look-behind window of drum/sequencer_controller.cpp is the stretch of the cycle since the last
-- event.
use drum_firmware.Sequencer.Swing.{
  swing_offset_phases, sixteenth_mask, triplet_mask, rotl12, onset_phase_for_parity,
}
use drum_firmware.Base.{
  ◌∙◌, sym, not, refl, if◌then◌else◌, if_cases, beq, all_below_at, ◌<◌, ◌≡◌, true, all_below, ◌||◌,
  ◌&&◌, ◌==◌, ◌%◌, ◌-◌, ◌+◌, leb, false, Bool, ℕ,
}
use drum_firmware.Sequencer.Swing.{SequencerEffectSwing, StepTiming, calculate_step_timing}
use drum_firmware.Sequencer.Controller.{
  straight_offbeat, calculate_base_step_index, SequencerController,
}
use drum_firmware.Sequencer.Controller.Window.{
  calculate_step_timing, look_behind, SequencerEffectSwing, ppqn, is_step_due, range_mask,
  is_substep_due,
}

-- A phase comes after the last one, going round the cycle, and not after this one.
unfoldable pub has_passed : ℕ → ℕ → ℕ → Bool
has_passed expected last phase =
    leb ((expected + 11 - last) % ppqn + 1) ((phase + ppqn - last) % ppqn)

-- A phase of the substep grid has passed: the grid is a third of the cycle wide with swing and a quarter
-- of it without, from the phase of the step.
unfoldable pub grid_passed : Bool → ℕ → ℕ → ℕ → Bool
grid_passed true e last phase =
    has_passed e last phase
    || has_passed ((e + 4) % ppqn) last phase
    || has_passed ((e + 8) % ppqn) last phase
grid_passed false e last phase =
    has_passed e last phase
    || has_passed ((e + 3) % ppqn) last phase
    || has_passed ((e + 6) % ppqn) last phase
    || has_passed ((e + 9) % ppqn) last phase

all_cycle : (ℕ → ℕ → Bool) → Bool
all_cycle p = all_below 12 (λ a. all_below 12 (p a))

all_cycle_at :
    (p : ℕ → ℕ → Bool) (a b : ℕ) → all_cycle p ≡ true → a < ppqn → b < ppqn → p a b ≡ true
unfolding all_cycle
all_cycle_at p a b h m n =
    all_below_at 12 (p a) b (all_below_at 12 (λ x. all_below 12 (p x)) a h m) n

window_agrees : ℕ → ℕ → ℕ → Bool
window_agrees e last phase = beq (is_step_due e last phase) (has_passed e last phase)

grid_agrees : Bool → ℕ → ℕ → ℕ → Bool
grid_agrees swung e last phase =
    beq (is_substep_due (rotl12 (if swung then triplet_mask else sixteenth_mask) e) last phase)
      (grid_passed swung e last phase)

-- The phases at which steps are due.
data Onset : ℕ → Type 0 where
  at_0 : Onset 0
  at_2 : Onset 2
  at_6 : Onset 6
  at_8 : Onset 8

-- The timing that `look_behind` computes.
unfoldable pub next_timing : SequencerController → StepTiming
next_timing c =
    calculate_step_timing (calculate_base_step_index c) c.repeat_effect.active
      c.scheduled_step_counter c.swing_effect

straight : (even : Bool) → Onset (if even then 0 else straight_offbeat)
straight true = at_0
straight false = at_6

delayed :
    (even : Bool) → Onset (((if even then 0 else straight_offbeat) + swing_offset_phases) % ppqn)
delayed true = at_2
delayed false = at_8

onset : (even : Bool) (w : SequencerEffectSwing) → Onset (onset_phase_for_parity even w)
unfolding onset_phase_for_parity
onset even w =
    if_cases {A = ℕ} Onset
      (w.swing_enabled && (if w.swing_delays_odd_steps then not even else even)) (λ h. delayed even)
      (λ h. straight even)

windows : {e : ℕ} → Onset e → all_cycle (window_agrees e) ≡ true
unfolding all_cycle all_below window_agrees is_step_due has_passed
windows at_0 = refl
windows at_2 = refl
windows at_6 = refl
windows at_8 = refl

grids : {e : ℕ} (swung : Bool) → Onset e → all_cycle (grid_agrees swung e) ≡ true
unfolding all_cycle all_below grid_agrees is_substep_due range_mask grid_passed has_passed rotl12
grids true at_0 = refl
grids true at_2 = refl
grids true at_6 = refl
grids true at_8 = refl
grids false at_0 = refl
grids false at_2 = refl
grids false at_6 = refl
grids false at_8 = refl

beq→eq : (a b : Bool) → beq a b ≡ true → a ≡ b
beq→eq true true e = refl
beq→eq false false e = refl
beq→eq true false e = sym e
beq→eq false true e = e

or_keeps : (a b : Bool) → (if a then true else b) ≡ (a || b)
or_keeps true b = refl
or_keeps false b = refl

-- On a tempo event, with phases below twelve, a step becomes due exactly if the phase that the swing
-- has for the next step is one of those since the last event, going round the cycle, and a step that
-- is due stays so.
pub look_behind_steps :
    (phase : ℕ) (c : SequencerController)
    → phase < ppqn
    → c.last_phase_12 < ppqn
    → (look_behind phase c).step_is_due
      ≡ (has_passed (next_timing c).expected_phase c.last_phase_12 phase || c.step_is_due)
unfolding look_behind next_timing calculate_step_timing window_agrees
look_behind_steps phase c p l =
    let o =
      onset
        (if c.repeat_effect.active
          then c.scheduled_step_counter % 2 == 0
          else calculate_base_step_index c % 2 == 0)
        c.swing_effect in
    or_keeps _ c.step_is_due
    ∙ rw (beq→eq _ _ (all_cycle_at _ c.last_phase_12 phase (windows o) l p)) refl

-- With phases below twelve, the masks find a substep due exactly if one of the phases of the grid that
-- the swing has from the next step is one of those since the last event.
pub look_behind_substeps :
    (phase : ℕ) (c : SequencerController)
    → phase < ppqn
    → c.last_phase_12 < ppqn
    → let t = next_timing c in
      is_substep_due t.substep_mask c.last_phase_12 phase
      ≡ grid_passed c.swing_effect.swing_enabled t.expected_phase c.last_phase_12 phase
unfolding next_timing calculate_step_timing grid_agrees
look_behind_substeps phase c p l =
    let o =
      onset
        (if c.repeat_effect.active
          then c.scheduled_step_counter % 2 == 0
          else calculate_base_step_index c % 2 == 0)
        c.swing_effect in
    beq→eq _ _ (all_cycle_at _ c.last_phase_12 phase (grids c.swing_effect.swing_enabled o) l p)
