-- ===== src/Sequencer/Controller/Silence/Stopped.antt =====
-- The end of the notes in `stop` of drum/sequencer_controller.cpp.
use drum_firmware.Base.{◌∷◌, zero, suc, none, false, arith, true, some, ◌≡◌, ◌<◌, refl, Option, ℕ}
use drum_firmware.Sequencer.Controller.{
  set_stopped, remove_observer, each_track, num_tracks, SequencerController, stop, stop_note,
  note_off, clear_traces, deactivate_play_on_every_step,
}
use drum_firmware.Sequencer.Controller.Silence.{
  is_on, Tracked, Quiet, note_off-Tracked, note_off-Quiet, off_is_off, unheard,
}
use drum_firmware.Sequencer.Controller.Silence.Reached.{Reach, Reach-Tracked}

note_off-keeps :
    (track t : ℕ) (last : Option ℕ) (c : SequencerController)
    → Quiet t c
    → Quiet t (note_off track last c)
unfolding Quiet note_off
note_off-keeps track t none c q n = q n
note_off-keeps track t (some note) c q n =
    unheard _ (λ h. grind (arith, q n, off_is_off track note t n c.notified h))

stop_note-keeps : (track t : ℕ) (c : SequencerController) → Quiet t c → Quiet t (stop_note track c)
unfolding stop_note
stop_note-keeps track t c q = note_off-keeps track t _ c q

stop_note-Quiet : (t : ℕ) (c : SequencerController) → Tracked c → Quiet t (stop_note t c)
unfolding stop_note
stop_note-Quiet t c v = note_off-Quiet t _ c v refl

stop_note-Tracked : (t : ℕ) (c : SequencerController) → Tracked c → Tracked (stop_note t c)
unfolding stop_note
stop_note-Tracked t c v = note_off-Tracked t _ c v

all_stopped :
    (t : ℕ) (c : SequencerController)
    → Tracked c
    → t < num_tracks
    → Quiet t (each_track stop_note c)
all_stopped zero c v b =
    stop_note-keeps 3 0 _ (stop_note-keeps 2 0 _ (stop_note-keeps 1 0 _ (stop_note-Quiet 0 c v)))
all_stopped (suc zero) c v b =
    stop_note-keeps 3 1 _ (stop_note-keeps 2 1 _ (stop_note-Quiet 1 _ (stop_note-Tracked 0 c v)))
all_stopped (suc (suc zero)) c v b =
    stop_note-keeps 3 2 _ (stop_note-Quiet 2 _ (stop_note-Tracked 1 _ (stop_note-Tracked 0 c v)))
all_stopped (suc (suc (suc zero))) c v b =
    stop_note-Quiet 3 _ (stop_note-Tracked 2 _ (stop_note-Tracked 1 _ (stop_note-Tracked 0 c v)))
all_stopped (suc (suc (suc (suc t)))) c v b = absurd (omega arith)

-- From a controller that has sent no note, after any run of the operations other than the preview of
-- random steps while stopped, stopping a controller that runs leaves no note of a track on.
pub stop_silences :
    {c : SequencerController} (t n : ℕ)
    → Reach c
    → c.running ≡ true
    → t < num_tracks
    → is_on t n (stop c).notified ≡ false
unfolding stop clear_traces deactivate_play_on_every_step Quiet Tracked
stop_silences {c} t n r e b = rw e (
    all_stopped t
      (record c { running = false; tempo_calls = remove_observer ∷ set_stopped ∷ c.tempo_calls })
      (Reach-Tracked r) b n)
