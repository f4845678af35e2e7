-- ===== src/Drumpad/Velocity.antt =====
-- The velocities of musin/ui/drumpad.cpp.
use native.Mathlib.Nat.{div-le_of_le-mul, mod-le}
use drum_firmware.Base.{◌^◌, ◌%◌, leb, arith, ◌/◌, if_cases, ◌-◌, ◌≤◌, ◌*◌, ℕ}
use drum_firmware.Drumpad.{DrumpadConfig, calculate_velocity}

scaled : (range adjusted : ℕ) → 126 * (range - adjusted) % 2 ^ 64 / range ≤ 126
scaled range adjusted =
    div-le_of_le-mul range (omega (arith, mod-le (126 * (range - adjusted)) (2 ^ 64)))

-- Whatever the rise time and the configured times, also where the product wraps around at 64 bits, a
-- velocity is at least 1 and at most 127.
pub calculate_velocity_bounds :
    (config : DrumpadConfig) (time_diff_us : ℕ)
    → (1 ≤ calculate_velocity config time_diff_us) × (calculate_velocity config time_diff_us ≤ 127)
unfolding calculate_velocity
calculate_velocity_bounds config time_diff_us =
    let s =
      scaled (config.max_velocity_time_us - config.min_velocity_time_us)
        (time_diff_us - config.min_velocity_time_us) in
    if_cases {A = ℕ} (λ (v : ℕ). (1 ≤ v) × (v ≤ 127)) (leb time_diff_us config.min_velocity_time_us)
      (λ e. (omega arith, omega arith))
      (λ e.
        if_cases {A = ℕ} (λ (v : ℕ). (1 ≤ v) × (v ≤ 127))
          (leb config.max_velocity_time_us time_diff_us) (λ f. (omega arith, omega arith))
          (λ f. (omega arith, omega arith)))
