-- ===== src/Sequencer.antt =====
-- drum/sequencer_controller.cpp and .h: `SequencerController`, for the four tracks of eight steps it is
-- made for, with the effects it is made of, drum/sequencer_effect_swing.cpp,
-- drum/sequencer_effect_repeat.cpp, drum/sequencer_effect_retrigger.cpp and
-- drum/sequencer_effect_random.cpp, and the pattern of musin/timing/step_sequencer.h.
pub mod Swing
pub mod Repeat
pub mod Retrigger
pub mod Random
pub mod Controller
mod Tests
