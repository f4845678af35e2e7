-- ===== src/Speed/Deferred.antt =====
-- A modifier that is set under external sync.
use drum_firmware.Speed.Rate.{plain_lem, IsPlain, run}
use drum_firmware.Speed.{
  has_pending, set_for, apply_pending, half_speed, normal_speed, double_speed, divisor,
  notification, set_modifier, external_sync, SpeedAdapter, same_modifier, plain_tick, SpeedModifier,
  ClockEvent,
}
use drum_firmware.Base.{
  and-true, ◌&&◌, not, inr, inl, Option, Bool-cases, some, ◌⊎◌, none, ap, ◌==◌, [], ◌∙◌, ◌%◌, ◌+◌,
  ◌∷◌, u32, false, true, if_cases, All, ◌≡◌, List, refl,
}

-- A tick of the external clock.
abbrev pub IsExternalTick : ClockEvent → Type 0
IsExternalTick e = IsPlain e × (e.source ≡ external_sync)

plain_tick_lem :
    (e : ClockEvent) (a : SpeedAdapter)
    → ((plain_tick e a).modifier ≡ a.modifier)
      × ((plain_tick e a).pending_modifier ≡ a.pending_modifier)
      × ((plain_tick e a).current_source ≡ a.current_source)
unfolding plain_tick
plain_tick_lem e a =
    if_cases
      (λ (b : SpeedAdapter).
        (b.modifier ≡ a.modifier)
        × (b.pending_modifier ≡ a.pending_modifier)
        × (b.current_source ≡ a.current_source))
      (u32 (a.tick_counter + 1) % divisor a.modifier == 0) (λ t. (refl, refl, refl))
      (λ t. (refl, refl, refl))

run_keeps :
    (es : List ClockEvent) (a : SpeedAdapter)
    → All IsExternalTick es
    → ((run es a).modifier ≡ a.modifier) × ((run es a).pending_modifier ≡ a.pending_modifier)
unfolding run
run_keeps [] a h = (refl, refl)
run_keeps (e ∷ es) a h =
    let k = plain_tick_lem e (record a { current_source = e.source }) in
    let r = run_keeps es (plain_tick e (record a { current_source = e.source })) h.1 in
    (
      ap (λ b. (run es b).modifier) (plain_lem e a h.0.0) ∙ r.0 ∙ k.0,
      ap (λ b. (run es b).pending_modifier) (plain_lem e a h.0.0) ∙ r.1 ∙ k.1,
    )

same_lem : (m n : SpeedModifier) → same_modifier m n ≡ true → m ≡ n
unfolding same_modifier
same_lem half_speed half_speed e = refl
same_lem normal_speed normal_speed e = refl
same_lem double_speed double_speed e = refl
same_lem half_speed normal_speed e = cc
same_lem half_speed double_speed e = cc
same_lem normal_speed half_speed e = cc
same_lem normal_speed double_speed e = cc
same_lem double_speed half_speed e = cc
same_lem double_speed normal_speed e = cc

no_pending : (o : Option SpeedModifier) → not (has_pending o) ≡ true → o ≡ none
no_pending none e = refl
no_pending (some m) e = cc

set_cases :
    (m : SpeedModifier) (a : SpeedAdapter)
    → a.current_source ≡ external_sync
    → ((set_modifier m a ≡ a) × (a.modifier ≡ m) × (a.pending_modifier ≡ none))
      ⊎ (set_modifier m a ≡ record a { pending_modifier = some m })
unfolding set_modifier set_for
set_cases m a external =
    elim (Bool-cases (same_modifier a.modifier m && not (has_pending a.pending_modifier))) [
      | inl e ↦ inl (
        rw e refl,
        same_lem a.modifier m
            (and-true (same_modifier a.modifier m) (not (has_pending a.pending_modifier)) e).0,
        no_pending a.pending_modifier
            (and-true (same_modifier a.modifier m) (not (has_pending a.pending_modifier)) e).1,
      )
      | inr e ↦ inr (rw (e, external) refl)
    ]

beat_applies :
    (o : Option SpeedModifier) (beat : ClockEvent) (a : SpeedAdapter)
    → beat.is_beat ≡ true
    → beat.is_resync ≡ false
    → a.pending_modifier ≡ o
    → ((notification beat a).modifier ≡ (apply_pending o a).modifier)
      × ((notification beat a).tick_counter ≡ 0)
unfolding notification apply_pending
beat_applies none beat a b r p = rw (r, b, p) (refl, refl)
beat_applies (some m) beat a b r p = rw (r, b, p) (refl, refl)

-- Under external sync a new modifier does not touch the division of the ticks before the next beat,
-- however many they are, and holds from that beat on, where the counter starts anew.
pub modifier_deferred :
    (m : SpeedModifier) (es : List ClockEvent) (beat : ClockEvent) (a : SpeedAdapter)
    → a.current_source ≡ external_sync
    → All IsExternalTick es
    → beat.is_beat ≡ true
    → beat.is_resync ≡ false
    → let ticked = run es (set_modifier m a) in
      (ticked.modifier ≡ a.modifier)
      × ((notification beat ticked).modifier ≡ m)
      × ((notification beat ticked).tick_counter ≡ 0)
unfolding apply_pending
modifier_deferred m es beat a external h b r = elim (set_cases m a external) [
  | inl same ↦
      let k = run_keeps es a h in
      let q = beat_applies none beat (run es a) b r (k.1 ∙ same.2) in
      rw same.0 (k.0, q.0 ∙ k.0 ∙ same.1, q.1)
  | inr pending ↦
      let k = run_keeps es (record a { pending_modifier = some m }) h in
      let q =
        beat_applies (some m) beat (run es (record a { pending_modifier = some m })) b r k.1 in
      rw pending (k.0, q.0, q.1)
]
