-- ===== src/NatMachine/History.antt =====
-- The history of the NAT state machine, state.rs: what it says of the states, and how long it gets.
use pnos_sdk.Base.{
  ℕ, ◌+◌, ◌≤◌, ◌<◌, ◌≡◌, ◌≢◌, refl, sym, ap, ◌∙◌, Bool, true, false, List, [], ◌∷◌, ◌++◌, ltb,
  le→ltb, if◌then◌else◌, length, length-append, length-drop, take, drop, arith, Bool-cases, inl,
  inr, ◌⊎◌, All, All-append,
}
use mathlib.Core.Path.{subst}
use mathlib.Core.List.{append_assoc}
use pnos_sdk.NatMachine.{
  NatState, StateTransition, NatStateMachine, can_transition_to, new_machine, push_history, commit,
  transition, force_transition, force_prefix,
}

-- The entries lead from one state to another, each from where the one before it led.
abbrev pub Leads : NatState → List StateTransition → NatState → Type 0
Leads s [] u = s ≡ u
Leads s (t ∷ more) u = (t.from ≡ s) × Leads t.to more u

abbrev pub oldest : NatState → List StateTransition → NatState
oldest s [] = s
oldest s (t ∷ more) = t.from

-- The transition is allowed, or its reason has the mark of a forced one.
abbrev pub IsProper : StateTransition → Type 0
IsProper t = (can_transition_to t.from t.to ≡ true) ⊎ (take 8 t.reason ≡ force_prefix)

-- The history leads to the current state, and it is no longer than its bound.
pub record IsHistory (m : NatStateMachine) : Type 0 where
  pub leads : Leads (oldest m.state m.transition_history) m.transition_history m.state
  pub bounded : length m.transition_history ≤ m.max_history
  pub hundred : m.max_history ≡ 100
  pub proper : All IsProper m.transition_history

Leads-append :
    (s u : NatState) (history : List StateTransition) (t : StateTransition)
    → Leads s history u
    → t.from ≡ u
    → Leads s (history ++ t ∷ []) t.to
Leads-append s u [] t h e = (e ∙ sym h, refl)
Leads-append s u (x ∷ more) t h e = (h.0, Leads-append x.to u more t h.1 e)

-- Without its first entry a history still leads to the state.
Leads-drop :
    (s u : NatState) (history : List StateTransition)
    → Leads s history u
    → Leads (oldest u (drop 1 history)) (drop 1 history) u
Leads-drop s u [] h = refl
Leads-drop s u (x ∷ []) h = refl
Leads-drop s u (x ∷ y ∷ more) h = (refl, h.1.1)

Leads-longer :
    (u : NatState) (history : List StateTransition) (t : StateTransition)
    → Leads (oldest u history) history u
    → t.from ≡ u
    → Leads (oldest t.to (history ++ t ∷ [])) (history ++ t ∷ []) t.to
Leads-longer u [] t h e = (refl, refl)
Leads-longer u (x ∷ more) t h e = (refl, Leads-append x.to u more t h.1 e)

push_history-Leads :
    (bound : ℕ) (u : NatState) (history : List StateTransition) (t : StateTransition)
    → Leads (oldest u history) history u
    → t.from ≡ u
    → Leads (oldest t.to (push_history bound t history)) (push_history bound t history) t.to
unfolding push_history
push_history-Leads bound u history t h e =
    elim (Bool-cases (ltb bound (length (history ++ t ∷ [])))) [
      | inl full ↦ rw full (
          Leads-drop (oldest t.to (history ++ t ∷ [])) t.to (history ++ t ∷ [])
            (Leads-longer u history t h e))
      | inr room ↦ rw room (Leads-longer u history t h e)
    ]

length-push_history :
    (bound : ℕ) (t : StateTransition) (history : List StateTransition)
    → length history ≤ bound
    → 0 < bound
    → length (push_history bound t history) ≤ bound
unfolding push_history
length-push_history bound t history h p =
    ground (arith, length-append history (t ∷ []), length-drop 1 (history ++ t ∷ []))

All-drop_one :
    (P : StateTransition → Type 0) (history : List StateTransition)
    → All P history
    → All P (drop 1 history)
All-drop_one P [] h = tt
All-drop_one P (t ∷ more) h = h.1

push_history-All :
    (P : StateTransition → Type 0) (bound : ℕ) (t : StateTransition)
    (history : List StateTransition)
    → P t
    → All P history
    → All P (push_history bound t history)
unfolding push_history
push_history-All P bound t history p h =
    let longer = All-append P history (t ∷ []) h (p, tt) in
    elim (Bool-cases (ltb bound (length (history ++ t ∷ [])))) [
      | inl full ↦ rw full (All-drop_one P (history ++ t ∷ []) longer)
      | inr room ↦ rw room longer
    ]

commit-IsHistory :
    (target : NatState) (reason : List ℕ) (now secs : ℕ) (m : NatStateMachine)
    → (can_transition_to m.state target ≡ true) ⊎ (take 8 reason ≡ force_prefix)
    → IsHistory m
    → IsHistory (commit m.state target reason now secs m)
unfolding commit
commit-IsHistory target reason now secs m p h = record {
  leads = push_history-Leads m.max_history m.state m.transition_history _ h.leads refl;
  bounded =
      length-push_history m.max_history _ m.transition_history h.bounded (omega (arith, h.hundred));
  hundred = h.hundred;
  proper = push_history-All IsProper m.max_history _ m.transition_history p h.proper;
}

-- A call on the machine, with its reason and the two clock readings.
pub data Call : Type 0 where
  try force : NatState → List ℕ → ℕ → ℕ → Call

unfoldable pub run_calls : List Call → NatStateMachine → NatStateMachine
run_calls [] m = m
run_calls (try target reason now secs ∷ more) m =
    run_calls more (transition target reason now secs m).1
run_calls (force target reason now secs ∷ more) m =
    run_calls more (force_transition target reason now secs m)

if-IsHistory :
    (b : Bool) (x y : Bool × NatStateMachine)
    → (b ≡ true → IsHistory x.1)
    → IsHistory y.1
    → IsHistory (if b then x else y).1
if-IsHistory true x y p q = p refl
if-IsHistory false x y p q = q

transition-IsHistory :
    (target : NatState) (reason : List ℕ) (now secs : ℕ) (m : NatStateMachine)
    → IsHistory m
    → IsHistory (transition target reason now secs m).1
unfolding transition
transition-IsHistory target reason now secs m h =
    if-IsHistory (can_transition_to m.state target) _ _
      (λ allowed. commit-IsHistory target reason now secs m (inl allowed) h) h

run_calls-IsHistory :
    (calls : List Call) (m : NatStateMachine) → IsHistory m → IsHistory (run_calls calls m)
unfolding run_calls force_transition
run_calls-IsHistory [] m h = h
run_calls-IsHistory (try target reason now secs ∷ more) m h =
    run_calls-IsHistory more _ (transition-IsHistory target reason now secs m h)
run_calls-IsHistory (force target reason now secs ∷ more) m h =
    run_calls-IsHistory more _
      (commit-IsHistory target (force_prefix ++ reason) now secs m (inr refl) h)

new_machine-IsHistory : (now : ℕ) → IsHistory (new_machine now)
unfolding new_machine
new_machine-IsHistory now = record {
  leads = refl;
  bounded = omega arith;
  hundred = refl;
  proper = tt;
}

-- After any calls, one at a time, every entry of the history starts where the one before it led, the
-- last one led to the current state, every entry is an allowed transition or is marked as forced, and
-- there are a hundred entries at most.
pub run_calls_history :
    (calls : List Call) (now : ℕ)
    → let m = run_calls calls (new_machine now) in
      Leads (oldest m.state m.transition_history) m.transition_history m.state
      × All IsProper m.transition_history
      × (length m.transition_history ≤ 100)
run_calls_history calls now =
    let h = run_calls-IsHistory calls (new_machine now) (new_machine-IsHistory now) in
    (h.leads, h.proper, rw (← h.hundred) h.bounded)

push_history-room :
    (bound : ℕ) (t : StateTransition) (history : List StateTransition)
    → length history + 1 ≤ bound
    → push_history bound t history ≡ history ++ t ∷ []
unfolding push_history
push_history-room bound t history h =
    let below : ltb bound (length (history ++ t ∷ [])) ≡ false =
      le→ltb _ _ (omega (arith, length-append history (t ∷ []))) in
    rw below refl

push_history-two :
    (bound : ℕ) (t t' : StateTransition) (history : List StateTransition)
    → length history + 2 ≤ bound
    → push_history bound t' (push_history bound t history) ≡ history ++ t ∷ t' ∷ []
push_history-two bound t t' history h =
    ap (push_history bound t') (push_history-room bound t history (omega (arith, h)))
    ∙ push_history-room bound t' (history ++ t ∷ [])
        (omega (arith, h, length-append history (t ∷ [])))
    ∙ append_assoc history (t ∷ []) (t' ∷ [])

Leads-last :
    (s u : NatState) (history : List StateTransition) (t t' : StateTransition)
    → Leads s (history ++ t ∷ t' ∷ []) u
    → t'.from ≡ t.to
Leads-last s u [] t t' h = h.1.0
Leads-last s u (x ∷ more) t t' h = Leads-last x.to u more t t' h.1

-- When two transitions read the state before either writes, both are checked against that state: if
-- the first one leads elsewhere, then the history no longer leads from any state to the current one.
-- The history must have room for both.
pub commit_race :
    (m : NatStateMachine) (first second s : NatState) (reason : List ℕ) (now secs : ℕ)
    → first ≢ m.state
    → length m.transition_history + 2 ≤ m.max_history
    → let m' = commit m.state second reason now secs (commit m.state first reason now secs m) in
      ¬ Leads s m'.transition_history m'.state
unfolding commit
commit_race m first second s reason now secs differ room leads = differ (
    sym (
      Leads-last s second m.transition_history _ _ (
        subst (λ h. Leads s h second) (push_history-two m.max_history _ _ m.transition_history room)
          leads)))
