-- ===== src/Sequencer/Repeat.antt =====
-- drum/sequencer_effect_repeat.cpp: `SequencerEffectRepeat`, which loops over the steps from the one that
-- was due when it was activated. Counters have 32 bits and wrap around.
use drum_firmware.Base.{
  ◌-◌, ◌^◌, u32, ◌+◌, ◌%◌, ◌&&◌, ltb, ◌==◌, zero, true, suc, if◌then◌else◌, false, Bool, ℕ,
}
pub mod Loop

pub record SequencerEffectRepeat : Type 0 where
  pub active : Bool
  pub length : ℕ
  pub activation_step_index : ℕ
  pub activation_step_counter : ℕ

-- `std::max(1, length)`
unfoldable pub at_least_one : ℕ → ℕ
at_least_one zero = 1
at_least_one (suc n) = suc n

unfoldable pub activate : ℕ → ℕ → ℕ → SequencerEffectRepeat → SequencerEffectRepeat
unfolding at_least_one
activate length current_step_counter num_steps r = if r.active then r else record {
  active = true;
  length = at_least_one length;
  activation_step_index = if ltb 0 num_steps then current_step_counter % num_steps else 0;
  activation_step_counter = current_step_counter;
}

unfoldable pub deactivate : SequencerEffectRepeat → SequencerEffectRepeat
deactivate r = record r { active = false; length = 0 }

unfoldable pub set_length : ℕ → SequencerEffectRepeat → SequencerEffectRepeat
unfolding at_least_one
set_length length r = if r.active then record r { length = at_least_one length } else r

unfoldable pub get_length : SequencerEffectRepeat → ℕ
get_length r = if r.active then r.length else 0

unfoldable pub calculate_step_index : ℕ → ℕ → SequencerEffectRepeat → ℕ
calculate_step_index step_counter num_steps r =
    if num_steps == 0
    then 0
    else if r.active && ltb 0 r.length
    then (r.activation_step_index
        + u32 (step_counter + 2 ^ 32 - r.activation_step_counter) % r.length)
      % num_steps
    else step_counter % num_steps
