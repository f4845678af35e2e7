-- ===== src/SystemState/Tests.antt =====
-- Histories of the machine.
use drum_firmware.SystemState.Transfer.{transfer_debounced, start_event, updates, end_event}
use drum_firmware.SystemState.Graph.{request, FollowsBy, machine_follows_diagram}
use drum_firmware.SystemState.Wake.{sleep_wakes, readings}
use drum_firmware.SystemState.{
  file_transfer, sequencer_state, reset, running, sleep_state, file_transfer_state, update,
  notification,
}
use drum_firmware.Base.{arith, List, ◌++◌, [], ◌∷◌, ◌≡◌, true, replicate, false, ℕ}

machine_follows_diagram_example : FollowsBy (request file_transfer 7) sequencer_state
machine_follows_diagram_example = machine_follows_diagram (request file_transfer 7) sequencer_state

transfer_debounced_example :
    let waits = notification end_event 1000 (file_transfer_state 0 false) in
    (updates (2000 ∷ 501000 ∷ []) 0 true waits ≡ running waits)
    × (update 501001 0 true waits ≡ running sequencer_state)
    × ((us : List ℕ)
        → updates us 0 true (notification start_event 0 waits)
          ≡ running (notification start_event 0 waits))
transfer_debounced_example =
    transfer_debounced 0 1000 501001 0 false true (2000 ∷ 501000 ∷ [])
      (omega arith, (omega arith, tt)) (omega arith)

sleep_wakes_example :
    (readings (replicate 2 false) 0 0 (sleep_state true) ≡ running (sleep_state true))
    × (readings (replicate 2 false ++ true ∷ replicate 1 true) 0 0 (sleep_state true)
        ≡ running (sleep_state false))
    × (readings
          (replicate 2 false ++ true ∷ (replicate 1 true ++ false ∷ []))
          0
          0
          (sleep_state true)
        ≡ reset)
sleep_wakes_example = sleep_wakes 2 1 0 0 []
