-- ===== src/SystemState/Wake.antt =====
-- Sleep, and waking up by the play button.
use drum_firmware.SystemState.{and_then, reset, sleep_state, running, Updated, SystemState, update}
use drum_firmware.Base.{
  ◌∙◌, append-nil, sym, refl, zero, ap, suc, [], ◌≡◌, ◌∷◌, ◌++◌, true, false, replicate, Bool, List,
  ℕ,
}

-- The updates in sleep, one for each reading of the pin.
unfoldable pub readings : List Bool → ℕ → ℕ → SystemState → Updated
readings [] now clock s = running s
readings (pin ∷ pins) now clock s =
    and_then (update now clock pin s) (λ t. readings pins now clock t)

held :
    (k : ℕ) (rest : List Bool) (now clock : ℕ)
    → readings (replicate k false ++ rest) now clock (sleep_state true)
      ≡ readings rest now clock (sleep_state true)
unfolding readings update
held zero rest now clock = refl
held (suc k) rest now clock = held k rest now clock

let_go :
    (k : ℕ) (rest : List Bool) (now clock : ℕ)
    → readings (replicate k true ++ rest) now clock (sleep_state false)
      ≡ readings rest now clock (sleep_state false)
unfolding readings update
let_go zero rest now clock = refl
let_go (suc k) rest now clock = let_go k rest now clock

-- Sleep is left only by a press of the play button after it was released: while it is held from
-- before, however long, and while it is released, the system sleeps; the first reading of a press
-- after that resets it.
pub sleep_wakes :
    (k j now clock : ℕ) (rest : List Bool)
    → (readings (replicate k false) now clock (sleep_state true) ≡ running (sleep_state true))
      × (readings (replicate k false ++ true ∷ replicate j true) now clock (sleep_state true)
          ≡ running (sleep_state false))
      × (readings
            (replicate k false ++ true ∷ (replicate j true ++ false ∷ rest))
            now
            clock
            (sleep_state true)
          ≡ reset)
unfolding readings update
sleep_wakes k j now clock rest = (
  ap (λ l. readings l now clock (sleep_state true)) (sym (append-nil (replicate k false)))
      ∙ held k [] now clock,
  held k (true ∷ replicate j true) now clock
      ∙ ap (λ l. readings l now clock (sleep_state false)) (sym (append-nil (replicate j true)))
      ∙ let_go j [] now clock,
  held k (true ∷ (replicate j true ++ false ∷ rest)) now clock ∙ let_go j (false ∷ rest) now clock,
)
