-- ===== src/Tempo/Exclusive.antt =====
-- The router of musin/timing/clock_router.cpp observes one source at a time.
use mathlib.Core.Bool.{false≢true}
use drum_firmware.Base.{refl, ap, ◌≢◌, ◌∙◌, true, if◌then◌else◌, false, ◌≡◌, sym, if_cases, Bool, ℕ}
use drum_firmware.Speed.{internal, midi, external_sync, ClockSource}
use drum_firmware.Clock.Internal.{InternalClock, stop}
use drum_firmware.Tempo.{Timing, detach, attach, same_source}
use drum_firmware.Tempo.Sources.{IsCounting}

-- With the source: only it is observed, only for the internal clock does the internal clock run, and
-- only for MIDI is the MIDI clock echoed.
pub record IsAttached {F : Type 0} (source : ClockSource) (t : Timing F) : Type 0 where
  pub current : t.current_source ≡ source
  pub one : (s : ClockSource) → t.observes s ≡ same_source s source
  pub internal_only : t.internal_clock.is_running ≡ true → source ≡ internal
  pub echo : t.midi_clock.forward_echo_enabled ≡ same_source midi source

pub record IsValid {F : Type 0} (t : Timing F) : Type 0 where
  pub attached : IsAttached t.current_source t
  pub counting : IsCounting t.current_source t.handler

pub record IsDetached {F : Type 0} (t : Timing F) : Type 0 where
  none : (s : ClockSource) → t.observes s ≡ false
  stopped : t.internal_clock.is_running ≡ false
  silent : t.midi_clock.forward_echo_enabled ≡ false

not_running : (b : Bool) → (b ≡ true → b ≡ false) → b ≡ false
not_running true h = h refl
not_running false h = refl

unobserved : (b o : Bool) → o ≡ b → (if b then false else o) ≡ false
unobserved true o e = refl
unobserved false o e = e

observed : (b o : Bool) → o ≡ false → (if b then true else o) ≡ b
observed true o e = refl
observed false o e = e

midi≢internal : midi ≢ internal
unfolding same_source
midi≢internal e = false≢true (ap (λ s. same_source internal s) e)

external≢internal : external_sync ≢ internal
unfolding same_source
external≢internal e = false≢true (ap (λ s. same_source internal s) e)

module _ {F : Type 0} where
  stop-stopped : (c : InternalClock F) → (stop c).is_running ≡ false
  unfolding stop
  stop-stopped c =
      if_cases {A = InternalClock F} (λ (d : InternalClock F). d.is_running ≡ false) c.is_running
        (λ e. refl) (λ e. e)

  pub detach-IsDetached :
      (old : ClockSource) (t : Timing F) → IsAttached old t → IsDetached (detach old t)
  unfolding detach same_source
  detach-IsDetached internal t a = record {
    none = λ s. unobserved (same_source s internal) (t.observes s) (a.one s);
    stopped = stop-stopped t.internal_clock;
    silent = a.echo;
  }
  detach-IsDetached midi t a = record {
    none = λ s. unobserved (same_source s midi) (t.observes s) (a.one s);
    stopped = not_running _ (λ r. absurd (midi≢internal (a.internal_only r)));
    silent = refl;
  }
  detach-IsDetached external_sync t a = record {
    none = λ s. unobserved (same_source s external_sync) (t.observes s) (a.one s);
    stopped = not_running _ (λ r. absurd (external≢internal (a.internal_only r)));
    silent = a.echo;
  }

  pub attach-IsAttached :
      (now : ℕ) (new : ClockSource) (t : Timing F)
      → IsDetached t
      → IsAttached new (attach now new (record t { current_source = new }))
  unfolding attach same_source
  attach-IsAttached now internal t d = record {
    current = refl;
    one = λ s. observed (same_source s internal) (t.observes s) (d.none s);
    internal_only = λ r. refl;
    echo = d.silent;
  }
  attach-IsAttached now midi t d = record {
    current = refl;
    one = λ s. observed (same_source s midi) (t.observes s) (d.none s);
    internal_only = λ r. absurd (false≢true (sym d.stopped ∙ r));
    echo = refl;
  }
  attach-IsAttached now external_sync t d = record {
    current = refl;
    one = λ s. observed (same_source s external_sync) (t.observes s) (d.none s);
    internal_only = λ r. absurd (false≢true (sym d.stopped ∙ r));
    echo = d.silent;
  }
