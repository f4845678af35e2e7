-- ===== src/Sequencer/Repeat/Loop.antt =====
-- The loop of drum/sequencer_effect_repeat.cpp.
use native.Mathlib.Nat.{mod-add-mod}
use drum_firmware.Base.{
  refl, zero, suc, lt→ltb, ◌-◌, eq_false, arith, ◌%◌, ◌+◌, u32, ◌^◌, ◌<◌, false, ◌≡◌, ℕ,
}
use drum_firmware.Sequencer.Repeat.{
  SequencerEffectRepeat, activate, calculate_step_index, at_least_one,
}

wrapped :
    (counter n : ℕ) → counter < 2 ^ 32 → n < 2 ^ 32 → u32 (u32 (counter + n) + 2 ^ 32 - counter) ≡ n
wrapped counter n c b = omega arith

at_least_one-pos : (length : ℕ) → 0 < length → at_least_one length ≡ length
unfolding at_least_one
at_least_one-pos zero h = omega arith
at_least_one-pos (suc n) h = refl

-- Activated while inactive at a 32-bit counter with a positive length, on a pattern that has steps,
-- the effect plays after any number of steps below 2 ^ 32 the step that the pattern would play that
-- many steps on, taken modulo the length, also when the counter has wrapped around meanwhile.
pub repeat_loops :
    (length counter num_steps n : ℕ) (r : SequencerEffectRepeat)
    → r.active ≡ false
    → 0 < length
    → 0 < num_steps
    → counter < 2 ^ 32
    → n < 2 ^ 32
    → calculate_step_index (u32 (counter + n)) num_steps (activate length counter num_steps r)
      ≡ (counter + n % length) % num_steps
unfolding calculate_step_index activate at_least_one
repeat_loops length counter num_steps n r a l s c b =
    rw
      (
        a,
        at_least_one-pos length l,
        eq_false _ _ (λ (e : num_steps ≡ 0). omega arith),
        lt→ltb _ _ l,
        lt→ltb _ _ s,
        wrapped counter n c b,
      )
      (mod-add-mod counter num_steps (n % length))
