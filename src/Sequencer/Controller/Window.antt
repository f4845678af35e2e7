-- ===== src/Sequencer/Controller/Window.antt =====
-- drum/sequencer_controller.cpp: `notification(TempoEvent)`, which looks back at the phases since the
-- last event for a step or a substep that is due.
use drum_firmware.Sequencer.Retrigger.{mark_due_tracks}
use drum_firmware.Base.{
  true, ◌&&◌, bit_or, ◌*◌, ◌%◌, leb, ◌||◌, ◌-◌, false, bit_and, ◌^◌, ◌==◌, not, ltb, ◌+◌, u32,
  if◌then◌else◌, Bool, ℕ,
}
use drum_firmware.Sequencer.Swing.{
  calculate_step_timing, set_swing_target, set_swing_enabled, ppqn, SequencerEffectSwing,
  StepTiming,
}
use drum_firmware.Sequencer.Controller.{calculate_base_step_index, SequencerController, TempoEvent}
pub mod Cycle

-- The look-behind check of the main step.
unfoldable pub is_step_due : ℕ → ℕ → ℕ → Bool
is_step_due expected_phase last phase =
    if ltb phase last
    then ltb last expected_phase || leb expected_phase phase
    else ltb last expected_phase && leb expected_phase phase

-- The bits of the phases since the last event.
unfoldable pub range_mask : ℕ → ℕ → ℕ
range_mask last phase =
    let mask1 = u32 ((2 ^ (11 - last) - 1) * 2 ^ (last + 1)) in
    let mask2 = 2 ^ (phase + 1) - 1 in
    if ltb phase last then bit_or mask1 mask2 else u32 ((2 ^ (phase - last) - 1) * 2 ^ (last + 1))

unfoldable pub is_substep_due : ℕ → ℕ → ℕ → Bool
unfolding range_mask
is_substep_due substep_mask last phase = not (bit_and substep_mask (range_mask last phase) == 0)

-- The pending changes of the swing, which wait for a downbeat.
unfoldable pub apply_swing : SequencerController → SequencerController
apply_swing c =
    let enabled =
      if c.swing_enabled_update_pending
      then record c {
        swing_effect = set_swing_enabled c.pending_swing_enabled c.swing_effect;
        swing_enabled_update_pending = false;
      }
      else c in
    if enabled.swing_target_update_pending
    then record enabled {
      swing_effect = set_swing_target enabled.pending_swing_target_delays_odd enabled.swing_effect;
      swing_target_update_pending = false;
    }
    else enabled

unfoldable pub look_behind : ℕ → SequencerController → SequencerController
unfolding is_step_due is_substep_due
look_behind phase c =
    let elapsed_ticks = (phase + ppqn - c.last_phase_12) % ppqn in
    let timing =
      calculate_step_timing (calculate_base_step_index c) c.repeat_effect.active
        c.scheduled_step_counter c.swing_effect in
    let step_due = is_step_due timing.expected_phase c.last_phase_12 phase in
    let substep_due = is_substep_due timing.substep_mask c.last_phase_12 phase in
    record c {
      pending_trace_fade_ticks = u32 (c.pending_trace_fade_ticks + elapsed_ticks);
      step_is_due = if step_due then true else c.step_is_due;
      retrigger_effect = mark_due_tracks step_due substep_due c.retrigger_effect;
      last_phase_12 = phase;
    }

unfoldable pub notification : TempoEvent → SequencerController → SequencerController
unfolding apply_swing look_behind
notification event c =
    let swung = if event.phase_12 == 0 then apply_swing c else c in
    let synced =
      if event.is_resync
      then record swung { last_phase_12 = (event.phase_12 + ppqn - 1) % ppqn }
      else swung in
    if not c.running
    then c
    else if event.phase_12 == synced.last_phase_12
    then synced
    else look_behind event.phase_12 synced
