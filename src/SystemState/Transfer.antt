-- ===== src/SystemState/Transfer.antt =====
-- The debounce at the end of a transfer.
use drum_firmware.SystemState.{
  and_then, sequencer_state, running, Updated, is_valid_transition, file_transfer_state,
  debounce_us, SystemState, create_state, update, notification, TransferEvent,
}
use drum_firmware.Base.{
  ◌∙◌, le→not-ltb, ap, refl, lt→ltb, [], ◌∷◌, ◌≡◌, ◌<◌, All, ◌+◌, true, false, Bool, ◌≤◌, List, ℕ,
}

-- The updates of the main loop at the times of the list, with no event between them.
unfoldable pub updates : List ℕ → ℕ → Bool → SystemState → Updated
updates [] clock pin s = running s
updates (now ∷ nows) clock pin s = and_then (update now clock pin s) (λ t. updates nows clock pin t)

abbrev pub IsWithin : ℕ → ℕ → Type 0
IsWithin ended now = now ≤ ended + debounce_us

unchanged :
    (ended now clock : ℕ) (pin : Bool)
    → now ≤ ended + debounce_us
    → update now clock pin (file_transfer_state ended true)
      ≡ running (file_transfer_state ended true)
unfolding update
unchanged ended now clock pin h = rw (le→not-ltb (ended + debounce_us) now h) refl

waiting :
    (ended : ℕ) (nows : List ℕ) (clock : ℕ) (pin : Bool)
    → All (IsWithin ended) nows
    → updates nows clock pin (file_transfer_state ended true)
      ≡ running (file_transfer_state ended true)
unfolding updates update
waiting ended [] clock pin h = refl
waiting ended (now ∷ nows) clock pin h =
    ap (λ o. and_then o (λ t. updates nows clock pin t)) (unchanged ended now clock pin h.0)
    ∙ waiting ended nows clock pin h.1

unfinished :
    (completed : ℕ) (nows : List ℕ) (clock : ℕ) (pin : Bool)
    → updates nows clock pin (file_transfer_state completed false)
      ≡ running (file_transfer_state completed false)
unfolding updates update
unfinished c [] clock pin = refl
unfinished c (now ∷ nows) clock pin = unfinished c nows clock pin

abbrev pub start_event : TransferEvent
start_event = record { is_active = true; skip_debounce = false }

abbrev pub end_event : TransferEvent
end_event = record { is_active = false; skip_debounce = false }

-- The end of a transfer is debounced: in the half second after it the machine stays in the transfer
-- state, and the first update after that leaves it for the sequencer; but a transfer that starts in
-- the meantime keeps the state at all later updates.
pub transfer_debounced :
    (completed ended late clock : ℕ) (d pin : Bool) (nows : List ℕ)
    → All (IsWithin ended) nows
    → ended + debounce_us < late
    → let waits = notification end_event ended (file_transfer_state completed d) in
      (updates nows clock pin waits ≡ running waits)
      × (update late clock pin waits ≡ running sequencer_state)
      × ((us : List ℕ)
          → updates us clock pin (notification start_event clock waits)
            ≡ running (notification start_event clock waits))
unfolding notification update create_state is_valid_transition
transfer_debounced c ended late clock d pin nows h l = (
  waiting ended nows clock pin h,
  rw (lt→ltb (ended + debounce_us) late l) refl,
  λ us. unfinished ended us clock pin,
)
