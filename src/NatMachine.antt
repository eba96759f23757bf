-- ===== src/NatMachine.antt =====
-- crates/pnos-net/src/nat/state.rs: the state machine of the NAT module. A state stands for its name.
-- An operation takes the reading of its monotonic clock in milliseconds and that of the wall clock in
-- seconds. `transition` and `force_transition` read the state under one lock and write it under
-- another, so each is the read followed by `commit`.
pub mod History
mod Runs
use pnos_sdk.Base.{
  ℕ, suc, ◌+◌, ◌-◌, ◌≡◌, refl, sym, ap, ◌∙◌, ◌↔◌, Bool, true, false, List, [], ◌∷◌, ◌++◌, Option,
  none, some, ltb, ◌==◌, if◌then◌else◌, length, take, drop, Eq, arith,
}
use pnos_sdk.Base.Dict.{lookup}
use pnos_sdk.Base.Dict
use pnos_sdk.Stats.{add64}

pub data NatState : Type 0 where
  uninitialized initializing mapping active degraded gateway_lost recovering released error :
      NatState

-- The number of a state, for its equality.
abbrev pub ordinal : NatState → ℕ
ordinal uninitialized = 0
ordinal initializing = 1
ordinal mapping = 2
ordinal active = 3
ordinal degraded = 4
ordinal gateway_lost = 5
ordinal recovering = 6
ordinal released = 7
ordinal error = 8

abbrev of_ordinal : ℕ → NatState
of_ordinal n =
    if n == 0
    then uninitialized
    else if n == 1
    then initializing
    else if n == 2
    then mapping
    else if n == 3
    then active
    else if n == 4
    then degraded
    else if n == 5
    then gateway_lost
    else if n == 6
    then recovering
    else if n == 7
    then released
    else error

of_ordinal-ordinal : (s : NatState) → of_ordinal (ordinal s) ≡ s
of_ordinal-ordinal uninitialized = refl
of_ordinal-ordinal initializing = refl
of_ordinal-ordinal mapping = refl
of_ordinal-ordinal active = refl
of_ordinal-ordinal degraded = refl
of_ordinal-ordinal gateway_lost = refl
of_ordinal-ordinal recovering = refl
of_ordinal-ordinal released = refl
of_ordinal-ordinal error = refl

pub ordinal_inj : (s t : NatState) → ordinal s ≡ ordinal t → s ≡ t
ordinal_inj s t e = sym (of_ordinal-ordinal s) ∙ ap of_ordinal e ∙ of_ordinal-ordinal t

abbrev pub state_test : NatState → NatState → Bool
state_test s t = ordinal s == ordinal t

pub state_test_iff : (s t : NatState) → (state_test s t ≡ true) ↔ (s ≡ t)
state_test_iff s t = ground (arith, ordinal_inj s t)

instance abbrev pub state_eq : Eq NatState
state_eq = record { test = state_test; test_iff = state_test_iff }

unfoldable pub is_stable : NatState → Bool
is_stable s = elim s [ active ↦ true | degraded ↦ true | _ ↦ false ]

unfoldable pub is_error : NatState → Bool
is_error s = elim s [ error ↦ true | released ↦ true | _ ↦ false ]

unfoldable pub can_transition_to : NatState → NatState → Bool
can_transition_to s released = true
can_transition_to s error = true
can_transition_to s uninitialized = false
can_transition_to s initializing = elim s [
  | uninitialized ↦ true
  | released ↦ true
  | error ↦ true
  | _ ↦ false
]
can_transition_to s mapping = elim s [ initializing ↦ true | _ ↦ false ]
can_transition_to s active = elim s [
  | mapping ↦ true
  | recovering ↦ true
  | degraded ↦ true
  | _ ↦ false
]
can_transition_to s degraded = elim s [
  | mapping ↦ true
  | recovering ↦ true
  | active ↦ true
  | _ ↦ false
]
can_transition_to s gateway_lost = elim s [
  | active ↦ true
  | degraded ↦ true
  | recovering ↦ true
  | _ ↦ false
]
can_transition_to s recovering = elim s [ gateway_lost ↦ true | _ ↦ false ]

pub record StateTransition : Type 0 where
  pub from : NatState
  pub to : NatState
  pub timestamp : ℕ
  pub reason : List ℕ
  pub duration_ms : ℕ

pub record NatStateMachine : Type 0 where
  pub state : NatState
  pub last_transition : ℕ
  pub transition_history : List StateTransition
  pub max_history : ℕ

unfoldable pub new_machine : ℕ → NatStateMachine
new_machine now = record {
  state = uninitialized;
  last_transition = now;
  transition_history = [];
  max_history = 100;
}

-- `push`, and `remove(0)` if there are too many.
unfoldable pub push_history : ℕ → StateTransition → List StateTransition → List StateTransition
push_history bound t history =
    let longer = history ++ t ∷ [] in if ltb bound (length longer) then drop 1 longer else longer

-- The part of `transition` and of `force_transition` behind the read of the current state.
unfoldable pub commit : NatState → NatState → List ℕ → ℕ → ℕ → NatStateMachine → NatStateMachine
unfolding push_history
commit current target reason now secs m =
    let t : StateTransition = record {
      from = current;
      to = target;
      timestamp = secs;
      reason = reason;
      duration_ms = now - m.last_transition;
    } in
    record m {
      state = target;
      last_transition = now;
      transition_history = push_history m.max_history t m.transition_history;
    }

unfoldable pub transition : NatState → List ℕ → ℕ → ℕ → NatStateMachine → Bool × NatStateMachine
transition target reason now secs m =
    if can_transition_to m.state target
    then (true, commit m.state target reason now secs m)
    else (false, m)

-- "[FORCE] "
abbrev force_prefix : List ℕ
force_prefix = b'[' ∷ b'F' ∷ b'O' ∷ b'R' ∷ b'C' ∷ b'E' ∷ b']' ∷ b' ' ∷ []

unfoldable pub force_transition : NatState → List ℕ → ℕ → ℕ → NatStateMachine → NatStateMachine
force_transition target reason now secs m =
    commit m.state target (force_prefix ++ reason) now secs m

unfoldable pub current_state_duration : ℕ → NatStateMachine → ℕ
current_state_duration now m = now - m.last_transition

abbrev reversed_onto {ℓ} : {A : Type ℓ} → List A → List A → List A
reversed_onto [] acc = acc
reversed_onto (x ∷ xs) acc = reversed_onto xs (x ∷ acc)

unfoldable pub recent_transitions : ℕ → NatStateMachine → List StateTransition
recent_transitions n m = take n (reversed_onto m.transition_history [])

abbrev or_zero : Option ℕ → ℕ
or_zero none = 0
or_zero (some n) = n

-- `*stats.entry(state).or_insert(0) += duration`.
unfoldable pub add_duration : NatState → ℕ → List (NatState × ℕ) → List (NatState × ℕ)
add_duration s d table = Dict.insert s (add64 (or_zero (lookup s table)) d) table

abbrev pub add_durations : List StateTransition → List (NatState × ℕ) → List (NatState × ℕ)
add_durations [] table = table
add_durations (t ∷ more) table = add_durations more (add_duration t.from t.duration_ms table)

unfoldable pub state_statistics : ℕ → NatStateMachine → List (NatState × ℕ)
unfolding add_duration current_state_duration
state_statistics now m =
    add_duration m.state (current_state_duration now m) (add_durations m.transition_history [])
