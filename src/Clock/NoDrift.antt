-- ===== src/Clock/NoDrift.antt =====
-- The internal clock does not drift.
use drum_firmware.Clock.Internal.{update_from, rescheduled, set_bpm, update, InternalClock, BpmOps}
use drum_firmware.Base.{
  refl, some, leb, ap, [], ◌∙◌, ◌&&◌, true, if◌then◌else◌, false, arith, ◌≡◌, ◌∷◌, ◌*◌, if_cases,
  Bool, ◌+◌, List, ℕ,
}

-- A clock that runs, with its next tick at an instant.
pub record IsTicking {F : Type 0} (next : ℕ) (c : InternalClock F) : Type 0 where
  pub running : c.is_running ≡ true
  pub scheduled : c.next_tick_time ≡ some next

one_more : (next n interval : ℕ) → next + interval + n * interval ≡ next + (1 + n) * interval
one_more next n interval = grind arith

continued :
    (next interval i m n : ℕ)
    → i ≡ interval
    → next + m * interval + n * i ≡ next + (m + n) * interval
continued next interval i m n e = rw e (grind arith)

module _ {F : Type 0} where
  -- The updates at the times of the list: the ticks that were emitted, and the clock.
  unfoldable pub run : List ℕ → InternalClock F → ℕ × InternalClock F
  run [] c = (0, c)
  run (now ∷ nows) c =
      let u = update now c in let r = run nows u.1 in ((if u.0 then 1 else 0) + r.0, r.1)

  abbrev Ticked : ℕ → InternalClock F → Bool × InternalClock F → Type 0
  Ticked next c u =
      IsTicking (next + (if u.0 then 1 else 0) * c.tick_interval_us) u.1
      × (u.1.tick_interval_us ≡ c.tick_interval_us)

  update_from-Ticked :
      (now next : ℕ) (c : InternalClock F)
      → IsTicking next c
      → Ticked next c (update_from (some next) now c)
  unfolding update_from
  update_from-Ticked now next c t =
      if_cases (Ticked next c) (c.is_running && leb next now)
        (λ e. (record { running = t.running; scheduled = ap some (grind arith) }, refl))
        (λ e.
          (record { running = t.running; scheduled = t.scheduled ∙ ap some (grind arith) }, refl))

  update-Ticked :
      (now next : ℕ) (c : InternalClock F) → IsTicking next c → Ticked next c (update now c)
  unfolding update
  update-Ticked now next c t = simp t.scheduled (update_from-Ticked now next c t)

  -- However late the updates come, each tick is scheduled one interval after the one before: after
  -- any updates the next tick is due where the first one was, later by one interval for each tick
  -- that was emitted.
  pub run_scheduled :
      (nows : List ℕ) (next : ℕ) (c : InternalClock F)
      → IsTicking next c
      → let r = run nows c in
        IsTicking (next + r.0 * c.tick_interval_us) r.1
        × (r.1.tick_interval_us ≡ c.tick_interval_us)
  unfolding run
  run_scheduled [] next c t =
      (record { running = t.running; scheduled = t.scheduled ∙ ap some (omega arith) }, refl)
  run_scheduled (now ∷ nows) next c t =
      let u = update now c in
      let v = update-Ticked now next c t in
      let m = if u.0 then 1 else 0 in
      let h = run_scheduled nows (next + m * c.tick_interval_us) u.1 v.0 in
      (
        record {
          running = h.0.running;
          scheduled =
              h.0.scheduled
              ∙ ap some
                  (continued next c.tick_interval_us u.1.tick_interval_us m (run nows u.1).0 v.1);
        },
        h.1 ∙ v.1,
      )

  set_bpm-interval :
      (ops : BpmOps F) (bpm : F) (c : InternalClock F)
      → ops.not_positive bpm ≡ false
      → ops.same bpm c.current_bpm ≡ false
      → (set_bpm ops bpm c).tick_interval_us ≡ ops.tick_interval bpm
  unfolding set_bpm
  set_bpm-interval ops bpm c p s = rw p (rw s refl)

  set_bpm-IsTicking :
      (ops : BpmOps F) (bpm : F) (last : ℕ) (c : InternalClock F)
      → ops.not_positive bpm ≡ false
      → ops.same bpm c.current_bpm ≡ false
      → IsTicking (last + c.tick_interval_us) c
      → IsTicking (last + ops.tick_interval bpm) (set_bpm ops bpm c)
  unfolding set_bpm rescheduled
  set_bpm-IsTicking ops bpm last c p s t = rw p (
      rw s (record {
        running = t.running;
        scheduled = rw t.running (rw t.scheduled (ap some (omega arith)));
      }))

  -- A change to another positive tempo of a running clock keeps its last tick: after any updates, the
  -- next tick is due whole new intervals after that one, one for each tick since and one more.
  pub set_bpm_rephases :
      (ops : BpmOps F) (bpm : F) (last : ℕ) (nows : List ℕ) (c : InternalClock F)
      → ops.not_positive bpm ≡ false
      → ops.same bpm c.current_bpm ≡ false
      → IsTicking (last + c.tick_interval_us) c
      → let r = run nows (set_bpm ops bpm c) in
        IsTicking (last + (r.0 + 1) * ops.tick_interval bpm) r.1
  set_bpm_rephases ops bpm last nows c p s t =
      let d = set_bpm ops bpm c in
      let h =
        run_scheduled nows (last + ops.tick_interval bpm) d
          (set_bpm-IsTicking ops bpm last c p s t) in
      record {
        running = h.0.running;
        scheduled = h.0.scheduled ∙ ap some (rw (set_bpm-interval ops bpm c p s) (grind arith));
      }
