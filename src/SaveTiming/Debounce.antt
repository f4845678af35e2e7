-- ===== src/SaveTiming/Debounce.antt =====
-- When a change is due to be saved.
use drum_firmware.SaveTiming.{
  SaveTimingManager, mark_clean, get_time_ms, mark_dirty, should_save_now,
}
use drum_firmware.Base.{
  false, leb→le, inr, inl, ◌⊎◌, refl, ◌↔◌, ◌/◌, arith, true, sub_u32, ◌≡◌, ◌<◌, ◌||◌, ◌-◌, leb, ◌≤◌,
  Bool, ℕ,
}

either : (a b : Bool) → ((a || b) ≡ true) ↔ ((a ≡ true) ⊎ (b ≡ true))
either true b = (λ e. inl refl, λ e. refl)
either false b = (λ e. inr e, λ s. elim s [ inl e ↦ cc | inr e ↦ e ])

le→leb : (a b : ℕ) → a ≤ b → leb a b ≡ true
le→leb a b h = ground arith

elapsed :
    (start now : ℕ)
    → start ≤ now
    → now < 4294967296
    → sub_u32 (now / 1000) (start / 1000) ≡ now / 1000 - start / 1000
elapsed start now h k = omega arith

-- With readings of the microsecond timer between which it did not wrap around: a change made at
-- `changed_us`, after the last save at `saved_us`, is due at `now_us` exactly when it is as old as the
-- debounce time, or the last save as old as the longest interval, in milliseconds of the clock.
pub saves_when_due :
    (saved_us changed_us now_us : ℕ) (s : SaveTimingManager)
    → saved_us ≤ changed_us
    → changed_us ≤ now_us
    → now_us < 4294967296
    → (should_save_now
          (get_time_ms now_us)
          (mark_dirty (get_time_ms changed_us) (mark_clean (get_time_ms saved_us) s))
        ≡ true)
      ↔ ((s.save_debounce_ms ≤ get_time_ms now_us - get_time_ms changed_us)
          ⊎ (s.max_save_interval_ms ≤ get_time_ms now_us - get_time_ms saved_us))
unfolding should_save_now mark_dirty mark_clean get_time_ms
saves_when_due saved_us changed_us now_us s h k bound =
    let since_change = now_us / 1000 - changed_us / 1000 in
    let since_save = now_us / 1000 - saved_us / 1000 in
    let tests =
      either (leb s.save_debounce_ms since_change) (leb s.max_save_interval_ms since_save) in
    rw (elapsed saved_us now_us (omega arith) bound, elapsed changed_us now_us k bound)
      (
        λ e. elim (tests.0 e) [
          | inl d ↦ inl (leb→le s.save_debounce_ms since_change d)
          | inr d ↦ inr (leb→le s.max_save_interval_ms since_save d)
        ],
        λ d. tests.1 (elim d [
          | inl d ↦ inl (le→leb s.save_debounce_ms since_change d)
          | inr d ↦ inr (le→leb s.max_save_interval_ms since_save d)
        ]),
      )

-- The clock of the board counts milliseconds as a 32-bit count of microseconds over 1000, so it
-- falls back to 0 after 4294967 of them, and the difference of two readings does not wrap with it:
-- after the fall, a change made before it is due at once, with any debounce time up to 4290672329.
pub clock_fall_saves :
    (changed_us now_us : ℕ) (s : SaveTimingManager)
    → changed_us < 4294967296
    → get_time_ms now_us < get_time_ms changed_us
    → s.save_debounce_ms ≤ 4290672329
    → should_save_now (get_time_ms now_us) (mark_dirty (get_time_ms changed_us) s) ≡ true
unfolding should_save_now mark_dirty get_time_ms
clock_fall_saves changed_us now_us s h k d =
    rw (le→leb s.save_debounce_ms (sub_u32 (now_us / 1000) (changed_us / 1000)) (omega arith)) refl
