-- ===== src/MidiQueue/Tests.antt =====
-- Runs of the output queue.
use drum_firmware.MidiQueue.Drain.{Round}
use drum_firmware.MidiQueue.Refinement.{run-Spec}
use drum_firmware.MidiQueue.History.{enqueue, run, view, Spec}
use drum_firmware.MidiQueue.Safety.{
  process_never_faults, empty-IsValid, empty_queues, Reach-IsValid,
}
use drum_firmware.MidiQueue.Invariant
use drum_firmware.MidiQueue.Invariant.{start, next, Reach, IsValid}
use drum_firmware.MidiQueue.{
  system_exclusive, note_on, coalesce, process_midi_output_queue, enqueue_sysex_message,
  control_change, enqueue_midi_message, Queues,
}
use drum_firmware.Base.{◌+◌, Bool, Option, refl, ◌≡◌, some, [], ◌∷◌, List, ℕ}

abbrev payload : List ℕ
payload = 0xf0 ∷ 0x7e ∷ []

-- A note, a SysEx payload, and two values for one controller.
abbrev filled : Queues
filled =
    (enqueue_midi_message (control_change 1 7 90)
      (enqueue_midi_message (control_change 1 7 80)
        (enqueue_sysex_message (some payload)
          (enqueue_midi_message (note_on 1 60 100) empty_queues).1).1).1).1

filled_messages : filled.messages ≡ note_on 1 60 100 ∷ system_exclusive ∷ control_change 1 7 90 ∷ []
unfolding enqueue_midi_message enqueue_sysex_message coalesce
filled_messages = refl

filled_Reach : Reach empty_queues filled
filled_Reach =
    next
      (next
        (next (next start (Invariant.enqueue (note_on 1 60 100) empty_queues refl))
          (Invariant.enqueue_sysex (some payload) _))
        (Invariant.enqueue (control_change 1 7 80) _ refl))
      (Invariant.enqueue (control_change 1 7 90) _ refl)

filled-IsValid : IsValid filled
filled-IsValid = Reach-IsValid empty-IsValid filled_Reach

process_never_faults_example :
    (r : Queues) × (process_midi_output_queue 5 6 filled ≡ some r) × IsValid r
process_never_faults_example = process_never_faults 5 6 filled filled_Reach

run-Spec_example :
    (answer : Option Bool) × (r : Queues) × (run (enqueue (control_change 1 7 70)) filled
      ≡ some (answer, r))
    × Spec (view filled) (view r) answer (enqueue (control_change 1 7 70))
run-Spec_example = run-Spec (enqueue (control_change 1 7 70)) filled refl filled-IsValid

-- A round whose two readings of the clock are five microseconds apart.
abbrev round_at : ℕ → Round
round_at t = record { now = t; sent_at = t + 5 }

abbrev three_rounds : List Round
three_rounds = round_at 1000 ∷ round_at 2000 ∷ round_at 3000 ∷ []
