-- ===== src/Clock/SyncOut/Pulse.antt =====
-- The output of musin/timing/sync_out.cpp is never left high.
use drum_firmware.Base.{
  ◌==◌, ◌-◌, not, if_cases, arith, refl, none, ◌≤◌, some, true, false, Bool, ◌≡◌, Option, ℕ,
}
use drum_firmware.Clock.SyncOut.{
  ClockEvent, SyncOut, create, notification, trigger_pulse_off, enable, disable, resync, pulse,
  count_down, resync_pulse, set_alarm,
}

unfoldable pub is_pending : Option ℕ → Bool
is_pending none = false
is_pending (some id) = true

-- The output is high exactly in a pulse, a pulse has a pending alarm that ends it, only an enabled
-- output has one, and the countdown to the next is in its window.
pub record IsValid (s : SyncOut) : Type 0 where
  pub level : s.gpio ≡ s.pulse_active
  pub alarm : s.pulse_active ≡ is_pending s.pulse_alarm_id
  pub off : s.is_enabled ≡ false → s.pulse_active ≡ false
  pub waits : 1 ≤ s.ticks_until_pulse
  pub window : s.ticks_until_pulse ≤ s.ticks_per_pulse

-- The operations, the alarm's callback among them.
pub data Step (s : SyncOut) : SyncOut → Type 0 where
  notified : (alarm : Option ℕ) (e : ClockEvent) → Step s (notification alarm e s)
  alarmed : Step s (trigger_pulse_off s)
  enabled : Step s (enable s)
  disabled : Step s (disable s)
  resynced : Step s (resync s)

pub data Reach (ticks_per_pulse : ℕ) : SyncOut → Type 0 where
  created : Reach ticks_per_pulse (create ticks_per_pulse)
  stepped : {s t : SyncOut} → Reach ticks_per_pulse s → Step s t → Reach ticks_per_pulse t

-- What holds in the middle of `notification`, when the countdown may have ended.
record IsOpen (s : SyncOut) : Type 0 where
  level : s.gpio ≡ s.pulse_active
  alarm : s.pulse_active ≡ is_pending s.pulse_alarm_id
  on : s.is_enabled ≡ true
  window : s.ticks_until_pulse ≤ s.ticks_per_pulse
  some_ticks : 1 ≤ s.ticks_per_pulse

to_open : (s : SyncOut) → s.is_enabled ≡ true → IsValid s → IsOpen s
to_open s on v = record {
  level = v.level;
  alarm = v.alarm;
  on = on;
  window = v.window;
  some_ticks = grind arith;
}

set_alarm-IsOpen :
    (alarm : Option ℕ) (s : SyncOut)
    → s.is_enabled ≡ true
    → s.ticks_until_pulse ≤ s.ticks_per_pulse
    → 1 ≤ s.ticks_per_pulse
    → IsOpen (set_alarm alarm (record s { gpio = true; pulse_active = true }))
unfolding set_alarm is_pending trigger_pulse_off
set_alarm-IsOpen none s on w t = record {
  level = refl;
  alarm = refl;
  on = on;
  window = w;
  some_ticks = t;
}
set_alarm-IsOpen (some id) s on w t = record {
  level = refl;
  alarm = refl;
  on = on;
  window = w;
  some_ticks = t;
}

set_alarm_ticks :
    (alarm : Option ℕ) (s : SyncOut) → (set_alarm alarm s).ticks_per_pulse ≡ s.ticks_per_pulse
unfolding set_alarm trigger_pulse_off
set_alarm_ticks none s = refl
set_alarm_ticks (some id) s = refl

restarted :
    (s : SyncOut) (ticks : ℕ)
    → IsOpen s
    → s.ticks_per_pulse ≡ ticks
    → IsValid (record s { ticks_until_pulse = ticks })
restarted s ticks h e = record {
  level = h.level;
  alarm = h.alarm;
  off = grind arith;
  waits = grind arith;
  window = grind arith;
}

pulse-IsValid : (alarm : Option ℕ) (s : SyncOut) → IsOpen s → IsValid (pulse alarm s)
unfolding pulse
pulse-IsValid alarm s h =
    if_cases {A = SyncOut}
      (λ (r : SyncOut). IsValid (record r { ticks_until_pulse = s.ticks_per_pulse })) s.pulse_active
      (λ e. restarted s s.ticks_per_pulse h refl)
      (λ e.
        restarted _ s.ticks_per_pulse (set_alarm-IsOpen alarm s h.on h.window h.some_ticks)
          (set_alarm_ticks alarm _))

count_down-IsValid : (alarm : Option ℕ) (s : SyncOut) → IsOpen s → IsValid (count_down alarm s)
unfolding count_down
count_down-IsValid alarm s h =
    if_cases {A = SyncOut} IsValid (s.ticks_until_pulse - 1 == 0)
      (λ e. pulse-IsValid alarm _ (record {
        level = h.level;
        alarm = h.alarm;
        on = h.on;
        window = omega arith;
        some_ticks = h.some_ticks;
      }))
      (λ e. record {
        level = h.level;
        alarm = h.alarm;
        off = grind arith;
        waits = grind arith;
        window = grind arith;
      })

downbeat-IsOpen : (s : SyncOut) → IsOpen s → IsOpen (record s { ticks_until_pulse = 0 })
downbeat-IsOpen s h = record {
  level = h.level;
  alarm = h.alarm;
  on = h.on;
  window = omega arith;
  some_ticks = h.some_ticks;
}

off-IsOpen : (s : SyncOut) → IsOpen s → IsOpen (trigger_pulse_off s)
unfolding trigger_pulse_off is_pending
off-IsOpen s h = record {
  level = refl;
  alarm = refl;
  on = h.on;
  window = h.window;
  some_ticks = h.some_ticks;
}

resync_pulse-IsOpen : (s : SyncOut) → IsOpen s → IsOpen (resync_pulse s)
unfolding resync_pulse
resync_pulse-IsOpen s h =
    downbeat-IsOpen _ (if_cases {A = SyncOut} IsOpen s.pulse_active (λ e. off-IsOpen s h) (λ e. h))

notification-IsValid :
    (alarm : Option ℕ) (e : ClockEvent) (s : SyncOut) → IsValid s → IsValid (notification alarm e s)
unfolding notification
notification-IsValid alarm e s v =
    if_cases {A = SyncOut} IsValid s.is_enabled
      (λ on.
        let h = to_open s on v in
        let r = if_cases {A = SyncOut} IsOpen e.is_resync (λ y. resync_pulse-IsOpen s h) (λ n. h) in
        count_down-IsValid alarm _
          (if_cases {A = SyncOut} IsOpen e.is_beat (λ y. downbeat-IsOpen _ r) (λ n. r)))
      (λ n. v)

trigger_pulse_off-IsValid : (s : SyncOut) → IsValid s → IsValid (trigger_pulse_off s)
unfolding trigger_pulse_off is_pending
trigger_pulse_off-IsValid s v = record {
  level = refl;
  alarm = refl;
  off = λ e. refl;
  waits = v.waits;
  window = v.window;
}

enable-IsValid : (s : SyncOut) → IsValid s → IsValid (enable s)
unfolding enable
enable-IsValid s v =
    if_cases {A = SyncOut} IsValid s.is_enabled (λ e. v)
      (λ e. record {
        level = v.level;
        alarm = v.alarm;
        off = λ f. v.off e;
        waits = v.waits;
        window = v.window;
      })

disable-IsValid : (s : SyncOut) → IsValid s → IsValid (disable s)
unfolding disable trigger_pulse_off is_pending
disable-IsValid s v =
    let d = record s { is_enabled = false } in
    if_cases {A = SyncOut} IsValid (not s.is_enabled) (λ e. v)
      (λ e.
        if_cases {A = SyncOut} IsValid s.pulse_active {x = trigger_pulse_off d} {y = d}
          (λ a. record {
            level = refl;
            alarm = refl;
            off = λ f. refl;
            waits = v.waits;
            window = v.window;
          })
          (λ a. record {
            level = v.level;
            alarm = v.alarm;
            off = λ f. a;
            waits = v.waits;
            window = v.window;
          }))

resync-IsValid : (s : SyncOut) → IsValid s → IsValid (resync s)
unfolding resync
resync-IsValid s v = record {
  level = v.level;
  alarm = v.alarm;
  off = v.off;
  waits = grind arith;
  window = omega arith;
}

step-IsValid : {s t : SyncOut} → Step s t → IsValid s → IsValid t
step-IsValid (notified alarm e) v = notification-IsValid alarm e _ v
step-IsValid alarmed v = trigger_pulse_off-IsValid _ v
step-IsValid enabled v = enable-IsValid _ v
step-IsValid disabled v = disable-IsValid _ v
step-IsValid resynced v = resync-IsValid _ v

create-IsValid : (ticks_per_pulse : ℕ) → IsValid (create ticks_per_pulse)
unfolding create is_pending
create-IsValid ticks_per_pulse = record {
  level = refl;
  alarm = refl;
  off = λ e. refl;
  waits = ground arith;
  window = omega arith;
}

-- In every state the operations reach, the alarm's callback among them, the output is high only in
-- a pulse that has a pending alarm to end it, a disabled output is low, and the countdown to the
-- next pulse is at least one tick and at most a whole window.
pub pulse_ends : {ticks_per_pulse : ℕ} {s : SyncOut} → Reach ticks_per_pulse s → IsValid s
pulse_ends created = create-IsValid _
pulse_ends (stepped r t) = step-IsValid t (pulse_ends r)
