-- ===== src/Manager/Tasks.antt =====
-- The operations of the session manager, each as a run of steps.
use pnos_sdk.Base.{
  ℕ, ◌+◌, ◌^◌, ◌<◌, ◌≡◌, refl, ap, Bool, true, false, List, [], ◌∷◌, ◌++◌, length, Option, none,
  some, nat_eq, Option-cases, Bool-cases, inl, inr, if◌then◌else◌,
}
use pnos_sdk.Base.Dict.{lookup}
use mathlib.Core.Path.{subst}
use pnos_sdk.Stats.{add_established, add_closed, record_established, record_closed}
use pnos_sdk.Registry.{Session, SessionRegistry, get_by_peer, put}
use pnos_sdk.Manager.{
  Manager, DisconnectReason, replaced, shutdown, take_down, finish_disconnect, close_transport,
  mark_closed, disconnect, activate, register, new_wins, shut_session, shut_all, start_shutdown,
  shutdown_all, update,
}
use pnos_sdk.Manager.Effects.{
  insert-none, register-none, register-some, take_down-some, take_down-none,
}
use pnos_sdk.Manager.Steps.{
  System, give_up, enter, count, raise, take, close, lower, drain, mark, Reach, here, next,
  Reach_trans,
}

pub disconnect-none :
    (id : ℕ) (reason : DisconnectReason) (m : Manager)
    → lookup id m.registry.by_id ≡ none
    → disconnect id reason m ≡ m
unfolding disconnect
disconnect-none id reason m e =
    rw (ap (λ r. r.0) (take_down-none id m e), disconnect) (ap (λ r. r.1) (take_down-none id m e))

pub disconnect-some :
    (id : ℕ) (reason : DisconnectReason) (m : Manager) (t : Session)
    → lookup id m.registry.by_id ≡ some t
    → disconnect id reason m ≡ finish_disconnect t reason (take_down id m).1
unfolding disconnect
disconnect-some id reason m t e = rw (ap (λ r. r.0) (take_down-some id t m e), disconnect) refl

-- The end of a session that was taken out.
finish-Reach :
    (x : System) (rest : List Session) (t : Session) (reason : DisconnectReason)
    → x.leaving ≡ t ∷ rest
    → Reach x (record x { manager = finish_disconnect t reason x.manager; leaving = rest })
unfolding finish_disconnect close_transport record_closed
finish-Reach x rest t reason e =
    let closed : System = record x {
      manager = close_transport t.id (record x.manager { stats = add_closed x.manager.stats });
      leaving = rest;
      lowering = t ∷ x.lowering;
    } in
    next (next here (close x [] rest t e)) (lower closed [] x.lowering t reason refl)

pub disconnect-Reach :
    (x : System) (id : ℕ) (reason : DisconnectReason)
    → Reach x (record x { manager = disconnect id reason x.manager })
disconnect-Reach x id reason = elim (Option-cases (lookup id x.manager.registry.by_id)) [
  | inl absent ↦ rw (disconnect-none id reason x.manager absent) here
  | inr (t, found) ↦ rw (disconnect-some id reason x.manager t found) (
      Reach_trans (next here (take x id t (ap (λ r. r.0) (take_down-some id t x.manager found)))) (
        finish-Reach (record x { manager = (take_down id x.manager).1; leaving = t ∷ x.leaving })
          x.leaving t reason refl))
]

disconnect-established :
    (id : ℕ) (reason : DisconnectReason) (m : Manager)
    → (disconnect id reason m).stats.established ≡ m.stats.established
unfolding finish_disconnect close_transport mark_closed record_closed
disconnect-established id reason m = elim (Option-cases (lookup id m.registry.by_id)) [
  | inl absent ↦ rw (disconnect-none id reason m absent) refl
  | inr (t, found) ↦ rw (disconnect-some id reason m t found, take_down-some id t m found) refl
]

-- One more session can be counted.
abbrev pub HasCount : System → Manager → Type 0
HasCount x m = m.stats.established + length x.uncounted + 1 < 2 ^ 64

register-Reach :
    (x : System) (s : Session)
    → x.entering s.id ≡ true
    → HasCount x x.manager
    → Reach x
        (record x { manager = (register s x.manager).1; entering = update x.entering s.id false })
unfolding record_established
register-Reach x s e small = elim (Option-cases (get_by_peer s.peer_id x.manager.registry)) [
  | inl unknown ↦ rw (register-none s x.manager unknown) (
      let inside : System = record x {
        manager = record x.manager { registry = put s x.manager.registry };
        entering = update x.entering s.id false;
        uncounted = s ∷ x.uncounted;
      } in
      let counted : System = record inside {
        manager = record inside.manager { stats = add_established x.manager.stats };
        uncounted = x.uncounted;
        raising = s ∷ x.raising;
      } in
      let entered : Reach x inside =
        subst
          (λ (r : SessionRegistry × Option Session).
            Reach x (record inside { manager = record x.manager { registry = r.0 } }))
          (insert-none s x.manager.registry unknown) (next here (enter x s e unknown small)) in
      next (next entered (count inside [] x.uncounted s refl)) (raise counted [] x.raising s refl))
  | inr (t, known) ↦ rw (register-some s t x.manager known) (next here (give_up x s t e))
]

pub activate-Reach :
    (x : System) (s : Session)
    → x.entering s.id ≡ true
    → HasCount x x.manager
    → Reach x
        (record x { manager = (activate s x.manager).1; entering = update x.entering s.id false })
unfolding activate
activate-Reach x s e small = elim (Option-cases (get_by_peer s.peer_id x.manager.registry)) [
  | inl unknown ↦ rw (unknown, activate) (register-Reach x s e small)
  | inr (t, known) ↦ elim (Bool-cases (new_wins x.manager.local_id s t)) [
    | inl wins ↦
        rw (known, activate)
          (rw wins (
            Reach_trans (disconnect-Reach x t.id replaced) (
              register-Reach (record x { manager = disconnect t.id replaced x.manager }) s e
                (rw (disconnect-established t.id replaced x.manager) small))))
    | inr loses ↦ rw (known, activate) (rw loses (next here (give_up x s t e)))
  ]
]

shut_all-Reach :
    (x : System) (ss rest : List Session)
    → x.leaving ≡ ss ++ rest
    → Reach x (record x { manager = shut_all ss x.manager; leaving = rest })
unfolding shut_session
shut_all-Reach x [] rest e = rw (← e) here
shut_all-Reach x (s ∷ ss) rest e =
    Reach_trans
      (Reach_trans (next here (mark x [] (ss ++ rest) s e)) (
        finish-Reach (record x { manager = mark_closed s.id x.manager }) (ss ++ rest) s shutdown e))
      (shut_all-Reach (record x { manager = shut_session s x.manager; leaving = ss ++ rest }) ss
        rest refl)

pub shutdown_all_cases :
    (m : Manager) (b : Bool)
    → m.shutting_down ≡ b
    → shutdown_all m ≡ (if b then m else shut_all (start_shutdown m).0 (start_shutdown m).1)
unfolding shutdown_all
shutdown_all_cases m b e =
    ap (λ c. if c then m else shut_all (start_shutdown m).0 (start_shutdown m).1) e

shutdown_all-Reach : (x : System) → Reach x (record x { manager = shutdown_all x.manager })
shutdown_all-Reach x = elim (Bool-cases x.manager.shutting_down) [
  | inl twice ↦ rw (shutdown_all_cases x.manager true twice) here
  | inr once ↦ rw (shutdown_all_cases x.manager false once) (
      Reach_trans (next here (drain x)) (
        shut_all-Reach
          (record x {
            manager = (start_shutdown x.manager).1;
            leaving = (start_shutdown x.manager).0 ++ x.leaving;
          })
          (start_shutdown x.manager).0 x.leaving refl))
]

-- `disconnect`, `activate` and `shutdown` are runs of the steps, whatever the other tasks hold: for
-- `activate` the session has been created and not yet given up, and one more can be counted.
tasks-Reach :
    (x : System) (id : ℕ) (reason : DisconnectReason) (s : Session)
    → x.entering s.id ≡ true
    → HasCount x x.manager
    → Reach x (record x { manager = disconnect id reason x.manager })
      × Reach x
          (record x { manager = (activate s x.manager).1; entering = update x.entering s.id false })
      × Reach x (record x { manager = shutdown_all x.manager })
tasks-Reach x id reason s e small =
    (disconnect-Reach x id reason, activate-Reach x s e small, shutdown_all-Reach x)
