-- ===== src/NatMachine/Runs.antt =====
-- Runs of the NAT state machine, and the theorems at concrete inputs.
use pnos_sdk.Base.{◌≤◌, ◌≡◌, refl, List, [], ◌∷◌, length, All, arith}
use pnos_sdk.NatMachine.{
  NatStateMachine, initializing, mapping, active, released, gateway_lost, can_transition_to,
  new_machine, commit, transition, force_transition,
}
use pnos_sdk.NatMachine.History.{
  Leads, oldest, IsProper, Call, try, force, run_calls, run_calls_history, commit_race,
}

abbrev calls : List Call
calls =
    try initializing [] 5 1
    ∷ try active [] 9 1
    ∷ try mapping [] 12 2
    ∷ force gateway_lost [] 20 2
    ∷ []

abbrev machine : NatStateMachine
machine = run_calls calls (new_machine 0)

forced : machine.state ≡ gateway_lost
unfolding run_calls transition force_transition commit can_transition_to new_machine
forced = refl

run_calls_history_example :
    Leads (oldest machine.state machine.transition_history) machine.transition_history machine.state
    × All IsProper machine.transition_history
    × (length machine.transition_history ≤ 100)
run_calls_history_example = run_calls_history calls 0

abbrev running : NatStateMachine
running = record { state = active; last_transition = 0; transition_history = []; max_history = 100 }

-- Both transitions are allowed, and the machine is left in a state to which `released` has no
-- transition.
commit_race_example :
    ¬ Leads active
      (commit active gateway_lost [] 5 1 (commit active released [] 5 1 running)).transition_history
      (commit active gateway_lost [] 5 1 (commit active released [] 5 1 running)).state
commit_race_example =
    commit_race running released gateway_lost active [] 5 1 (λ e. absurd cc) (omega arith)
