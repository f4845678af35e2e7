-- ===== src/Speed/Rate.antt =====
-- How many ticks are passed on.
use drum_firmware.Speed.{
  notify_observers, double_speed, normal_speed, half_speed, plain_tick, SpeedModifier, SpeedAdapter,
  notification, divisor, ClockEvent,
}
use drum_firmware.Base.{
  ◌∙◌, ap, inr, inl, Bool-cases, refl, true, ==→ne, ==→eq, arith, suc, if◌then◌else◌, ◌==◌, ◌/◌,
  ◌%◌, ◌+◌, u32, length, [], ◌∷◌, false, Bool, All, ◌≡◌, List, ℕ,
}

-- A tick that is neither a beat nor a resync.
abbrev pub IsPlain : ClockEvent → Type 0
IsPlain e = (e.is_beat ≡ false) × (e.is_resync ≡ false)

-- The events, one after the other.
unfoldable pub run : List ClockEvent → SpeedAdapter → SpeedAdapter
run [] a = a
run (e ∷ es) a = run es (notification e a)

pub plain_lem :
    (e : ClockEvent) (a : SpeedAdapter)
    → IsPlain e
    → notification e a ≡ plain_tick e (record a { current_source = e.source })
unfolding notification
plain_lem e a h = rw (h.1, h.0) refl

tick_count :
    (m : SpeedModifier) (c n : ℕ) (b : Bool)
    → (u32 (c + 1) % divisor m == 0) ≡ b
    → (if b then 1 else 0) + (u32 (c + 1) % divisor m + n) / divisor m
      ≡ (c % divisor m + suc n) / divisor m
unfolding divisor
tick_count half_speed c n true h = omega (arith, ==→eq (u32 (c + 1) % 4) 0 h)
tick_count half_speed c n false h = omega (arith, ==→ne (u32 (c + 1) % 4) 0 h)
tick_count normal_speed c n true h = omega (arith, ==→eq (u32 (c + 1) % 2) 0 h)
tick_count normal_speed c n false h = omega (arith, ==→ne (u32 (c + 1) % 2) 0 h)
tick_count double_speed c n true h = omega arith
tick_count double_speed c n false h = omega (arith, ==→ne (u32 (c + 1) % 1) 0 h)

none_left : (m : SpeedModifier) (c : ℕ) → (c % divisor m + 0) / divisor m ≡ 0
unfolding divisor
none_left half_speed c = omega arith
none_left normal_speed c = omega arith
none_left double_speed c = omega arith

-- What a plain tick does, passed on or not.
module _ (e : ClockEvent) (a : SpeedAdapter) (plain : IsPlain e) where
  abbrev ticked : SpeedAdapter
  ticked = record a { current_source = e.source; tick_counter = u32 (a.tick_counter + 1) }

  passed_lem :
      (u32 (a.tick_counter + 1) % divisor a.modifier == 0) ≡ true
      → notification e a ≡ notify_observers e ticked
  unfolding plain_tick
  passed_lem t = plain_lem e a plain ∙ rw t refl

  dropped_lem :
      (u32 (a.tick_counter + 1) % divisor a.modifier == 0) ≡ false → notification e a ≡ ticked
  unfolding plain_tick
  dropped_lem t = plain_lem e a plain ∙ rw t refl

-- Plain ticks are divided by the modifier: one in four, one in two, or all of them are passed on,
-- counted from the last event that reset the counter, and also where the counter wraps around.
pub ticks_notified :
    (es : List ClockEvent) (a : SpeedAdapter)
    → All IsPlain es
    → length (run es a).notified
      ≡ length a.notified + (a.tick_counter % divisor a.modifier + length es) / divisor a.modifier
unfolding run
ticks_notified [] a h = omega (arith, none_left a.modifier a.tick_counter)
ticks_notified (e ∷ es) a h =
    elim (Bool-cases (u32 (a.tick_counter + 1) % divisor a.modifier == 0)) [
      | inl t ↦
          ap (λ b. length (run es b).notified) (passed_lem e a h.0 t)
          ∙ omega (
            arith,
            ticks_notified es (notify_observers e (ticked e a h.0)) h.1,
            tick_count a.modifier a.tick_counter (length es) true t,
          )
      | inr t ↦
          ap (λ b. length (run es b).notified) (dropped_lem e a h.0 t)
          ∙ omega (
            arith,
            ticks_notified es (ticked e a h.0) h.1,
            tick_count a.modifier a.tick_counter (length es) false t,
          )
    ]
