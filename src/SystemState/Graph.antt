-- ===== src/SystemState/Graph.antt =====
-- The diagram of the states of drum/system_state_machine.cpp, beside the operations of the machine.
use mathlib.Core.Bool.{false≢true}
use drum_firmware.SystemState.{
  debounce_us, sequencer_state, sleep_state, reset, falling_asleep_state, falling_asleep,
  file_transfer, boot_state, sleep, sequencer, running, file_transfer_state, TransferEvent, update,
  transition_to, transfer_started, transfer_ended, notification, get_id, create_state, boot,
  Updated, is_valid_transition, SystemStateId, SystemState,
}
use drum_firmware.Base.{
  ◌∙◌, sym, false, leb, ◌&&◌, ◌%◌, ◌-◌, ◌^◌, ◌+◌, refl, ltb, inr, inl, ◌⊎◌, true, if_cases, Bool,
  ◌≡◌, ℕ,
}

-- The edges.
infix 40 ◌⟶◌
pub data ◌⟶◌ : SystemStateId → SystemStateId → Type 0 where
  ready : boot ⟶ sequencer
  begin_transfer : sequencer ⟶ file_transfer
  end_transfer : file_transfer ⟶ sequencer
  doze : sequencer ⟶ falling_asleep
  drop_off : falling_asleep ⟶ sleep

valid-edge : (s t : SystemStateId) → is_valid_transition s t ≡ true → s ⟶ t
unfolding is_valid_transition
valid-edge boot sequencer e = ready
valid-edge sequencer file_transfer e = begin_transfer
valid-edge sequencer falling_asleep e = doze
valid-edge file_transfer sequencer e = end_transfer
valid-edge falling_asleep sleep e = drop_off
valid-edge _ _ e = cc

-- The machine stays where it is or follows an edge.
abbrev pub Follows : SystemState → SystemState → Type 0
Follows s t = (get_id t ≡ get_id s) ⊎ (get_id s ⟶ get_id t)

id-create_state : (i : SystemStateId) (clock : ℕ) → get_id (create_state i clock) ≡ i
unfolding create_state
id-create_state boot clock = refl
id-create_state sequencer clock = refl
id-create_state file_transfer clock = refl
id-create_state falling_asleep clock = refl
id-create_state sleep clock = refl

transition_to-Follows :
    (i : SystemStateId) (clock : ℕ) (s : SystemState) → Follows s (transition_to i clock s).1
unfolding transition_to
transition_to-Follows i clock s =
    if_cases (λ (r : Bool × SystemState). Follows s r.1) (is_valid_transition (get_id s) i)
      (λ e. inr (rw (id-create_state i clock) (valid-edge (get_id s) i e))) (λ e. inl refl)

transfer_ended-Follows :
    (skip : Bool) (clock : ℕ) (s : SystemState) → Follows s (transfer_ended skip clock s)
unfolding transfer_ended
transfer_ended-Follows skip clock (file_transfer_state c d) =
    if_cases (Follows (file_transfer_state c d)) skip
      (λ e. transition_to-Follows sequencer clock (file_transfer_state c d)) (λ e. inl refl)
transfer_ended-Follows skip clock (boot_state c) = inl refl
transfer_ended-Follows skip clock sequencer_state = inl refl
transfer_ended-Follows skip clock (falling_asleep_state c) = inl refl
transfer_ended-Follows skip clock (sleep_state c) = inl refl

transfer_started-Follows : (clock : ℕ) (s : SystemState) → Follows s (transfer_started clock s)
unfolding transfer_started
transfer_started-Follows clock (file_transfer_state c d) = inl refl
transfer_started-Follows clock (boot_state c) =
    transition_to-Follows file_transfer clock (boot_state c)
transfer_started-Follows clock sequencer_state =
    transition_to-Follows file_transfer clock sequencer_state
transfer_started-Follows clock (falling_asleep_state c) =
    transition_to-Follows file_transfer clock (falling_asleep_state c)
transfer_started-Follows clock (sleep_state c) =
    transition_to-Follows file_transfer clock (sleep_state c)

abbrev pub FollowsTo : SystemState → Updated → Type 0
FollowsTo s (running t) = Follows s t
FollowsTo s reset = get_id s ≡ sleep

update-FollowsTo :
    (now clock : ℕ) (pin : Bool) (s : SystemState) → FollowsTo s (update now clock pin s)
unfolding update
update-FollowsTo now clock pin (boot_state began) =
    if_cases (FollowsTo (boot_state began)) (ltb 2000000 ((now + 2 ^ 64 - began) % 2 ^ 64))
      (λ e. transition_to-Follows sequencer clock (boot_state began)) (λ e. inl refl)
update-FollowsTo now clock pin sequencer_state = inl refl
update-FollowsTo now clock pin (file_transfer_state c d) =
    if_cases (FollowsTo (file_transfer_state c d)) (d && ltb (c + debounce_us) now)
      (λ e. transition_to-Follows sequencer clock (file_transfer_state c d)) (λ e. inl refl)
update-FollowsTo now clock pin (falling_asleep_state t) =
    if_cases (FollowsTo (falling_asleep_state t)) (leb t now)
      (λ e. transition_to-Follows sleep clock (falling_asleep_state t)) (λ e. inl refl)
update-FollowsTo now clock pin (sleep_state true) = inl refl
update-FollowsTo now clock true (sleep_state false) = inl refl
update-FollowsTo now clock false (sleep_state false) = refl

-- What happens to the machine: a request of the main program, a transfer event, or an update.
pub data Operation : Type 0 where
  request : (new_state : SystemStateId) (clock : ℕ) → Operation
  transfer : (e : TransferEvent) (clock : ℕ) → Operation
  updated : (now clock : ℕ) (pin : Bool) → Operation

-- A request that is granted leads to the state along an edge; the others change nothing.
abbrev pub Answers : SystemStateId → SystemState → Bool × SystemState → Type 0
Answers i s r =
    ((r.0 ≡ true) × (get_id s ⟶ i) × (get_id r.1 ≡ i))
    ⊎ ((r.0 ≡ false) × ¬ (get_id s ⟶ i) × (r.1 ≡ s))

edge-valid : (s t : SystemStateId) → s ⟶ t → is_valid_transition s t ≡ true
unfolding is_valid_transition
edge-valid _ _ ready = refl
edge-valid _ _ begin_transfer = refl
edge-valid _ _ end_transfer = refl
edge-valid _ _ doze = refl
edge-valid _ _ drop_off = refl

transition_to-Answers :
    (i : SystemStateId) (clock : ℕ) (s : SystemState) → Answers i s (transition_to i clock s)
unfolding transition_to
transition_to-Answers i clock s =
    if_cases (λ (r : Bool × SystemState). Answers i s r) (is_valid_transition (get_id s) i)
      (λ e. inl (refl, valid-edge (get_id s) i e, id-create_state i clock))
      (λ e. inr (refl, (λ edge. false≢true (sym e ∙ edge-valid (get_id s) i edge)), refl))

notification-Follows :
    (e : TransferEvent) (clock : ℕ) (s : SystemState) → Follows s (notification e clock s)
unfolding notification
notification-Follows e clock s =
    if_cases (Follows s) e.is_active (λ a. transfer_started-Follows clock s)
      (λ a. transfer_ended-Follows e.skip_debounce clock s)

abbrev pub FollowsBy : Operation → SystemState → Type 0
FollowsBy (request i clock) s = Answers i s (transition_to i clock s)
FollowsBy (transfer e clock) s = Follows s (notification e clock s)
FollowsBy (updated now clock pin) s = FollowsTo s (update now clock pin s)

-- In every state: a requested state is entered exactly if an edge of the diagram leads to it, and
-- otherwise nothing changes; a transfer event or an update leaves the machine in its state or takes it
-- along an edge, or the update resets it, which happens only asleep.
pub machine_follows_diagram : (op : Operation) (s : SystemState) → FollowsBy op s
machine_follows_diagram (request i clock) s = transition_to-Answers i clock s
machine_follows_diagram (transfer e clock) s = notification-Follows e clock s
machine_follows_diagram (updated now clock pin) s = update-FollowsTo now clock pin s
