-- ===== src/Manager/Arbitration.antt =====
-- Two sessions of one peer, one dialed by each side: which of them the activation keeps.
use pnos_sdk.Base.{
  ◌≡◌, ◌≢◌, refl, sym, ap, ◌∙◌, Bool, true, false, some, none, =?_refl, nat_eq, Bool-cases, inl,
  inr, if◌then◌else◌, arith,
}
use pnos_sdk.Base.Dict.{lookup, lookup-remove, lookup-insert_self, lookup-insert_ne}
use pnos_sdk.Base.Dict
use pnos_sdk.NodeId.{NodeId, IsNodeId, node_eq, lt_node}
use pnos_sdk.NodeId.Order.{lt_node-not}
use pnos_sdk.Registry.{Session, SessionRegistry, outbound, inbound, get_by_peer, put, take_out}
use pnos_sdk.Registry
use pnos_sdk.Registry.Invariant.{IsIndexed, IsFresh, put-IsIndexed}
use pnos_sdk.Registry.Removal.{take_out-IsIndexed}
use pnos_sdk.Registry.Lookup.{
  get_by_peer_iff, get_by_peer-none, get_by_peer-put, get_by_peer-remove, unless_id,
}
use pnos_sdk.Manager.{
  Manager, replaced, activate, register, discard, disconnect, finish_disconnect, close_transport,
  mark_closed, new_wins, expected_direction,
}
use pnos_sdk.Manager.Effects.{register-none, take_down-some}
use pnos_sdk.Manager.Tasks.{disconnect-some}

get_by_peer-take_out :
    (s : Session) (r : SessionRegistry)
    → IsIndexed r
    → lookup s.id r.by_id ≡ some s
    → get_by_peer s.peer_id (take_out s.id s r) ≡ none
unfolding Registry.remove
get_by_peer-take_out s r h found =
    ap (λ o. get_by_peer s.peer_id o) (sym (rw (found, Registry.remove) refl))
    ∙ get_by_peer-remove s.id r s.peer_id h
    ∙ ap (unless_id s.id) ((get_by_peer_iff s.peer_id s r h).1 (found, refl))
    ∙ rw (=?_refl s.id) refl

register-registry :
    (s : Session) (m : Manager)
    → get_by_peer s.peer_id m.registry ≡ none
    → ((register s m).1.registry ≡ put s m.registry) × ((register s m).1.local_id ≡ m.local_id)
register-registry s m e = rw (register-none s m e) (refl, refl)

disconnect-registry :
    (s : Session) (m : Manager)
    → lookup s.id m.registry.by_id ≡ some s
    → (disconnect s.id replaced m).registry ≡ take_out s.id s m.registry
unfolding finish_disconnect close_transport mark_closed
disconnect-registry s m e = rw (disconnect-some s.id replaced m s e, take_down-some s.id s m e) refl

activate-first :
    (s : Session) (m : Manager)
    → get_by_peer s.peer_id m.registry ≡ none
    → ((activate s m).1.registry ≡ put s m.registry) × ((activate s m).1.local_id ≡ m.local_id)
unfolding activate
activate-first s m e = rw (e, activate) (register-registry s m e)

activate-kept :
    (s t : Session) (m : Manager)
    → get_by_peer t.peer_id m.registry ≡ some s
    → new_wins m.local_id t s ≡ false
    → (activate t m).1.registry ≡ m.registry
unfolding activate discard close_transport mark_closed
activate-kept s t m e loses = rw (e, activate) (rw loses refl)

activate-replaced :
    (s t : Session) (m : Manager)
    → IsIndexed m.registry
    → lookup s.id m.registry.by_id ≡ some s
    → t.peer_id ≡ s.peer_id
    → new_wins m.local_id t s ≡ true
    → (activate t m).1.registry ≡ put t (take_out s.id s m.registry)
unfolding activate
activate-replaced s t m h found same wins =
    let known : get_by_peer t.peer_id m.registry ≡ some s =
      (get_by_peer_iff t.peer_id s m.registry h).1 (found, sym same) in
    let gone : get_by_peer t.peer_id (disconnect s.id replaced m).registry ≡ none =
      rw (disconnect-registry s m found, same) (get_by_peer-take_out s m.registry h found) in
    rw (known, activate)
      (rw wins (
        (register-registry t (disconnect s.id replaced m) gone).0
        ∙ ap (put t) (disconnect-registry s m found)))

-- A session dialed by this side and one dialed by the peer, both just created, of a peer that has no
-- session yet.
pub record IsCrossing (m : Manager) (peer : NodeId) (dialed accepted : Session) : Type 0 where
  pub indexed : IsIndexed m.registry
  pub dialed_fresh : IsFresh dialed.id m.registry
  pub accepted_fresh : IsFresh accepted.id m.registry
  pub differ : dialed.id ≢ accepted.id
  pub dialed_peer : dialed.peer_id ≡ peer
  pub accepted_peer : accepted.peer_id ≡ peer
  pub dialed_out : dialed.direction ≡ outbound
  pub accepted_in : accepted.direction ≡ inbound
  pub unknown : get_by_peer peer m.registry ≡ none

-- The two activations, in either order.
abbrev pub activate_both : Bool → Session → Session → Manager → Manager
activate_both dialed_first dialed accepted m =
    if dialed_first
    then (activate accepted (activate dialed m).1).1
    else (activate dialed (activate accepted m).1).1

get_by_peer-put_self :
    (s : Session) (r : SessionRegistry)
    → IsIndexed r
    → IsFresh s.id r
    → get_by_peer s.peer_id r ≡ none
    → get_by_peer s.peer_id (put s r) ≡ some s
get_by_peer-put_self s r h fresh e =
    get_by_peer-put s r s.peer_id h fresh (get_by_peer-none s.peer_id r h e)
    ∙ rw (=?_refl s.peer_id) refl

activate-second :
    (s t : Session) (m : Manager)
    → IsIndexed m.registry
    → IsFresh s.id m.registry
    → IsFresh t.id m.registry
    → s.id ≢ t.id
    → t.peer_id ≡ s.peer_id
    → get_by_peer s.peer_id m.registry ≡ none
    → get_by_peer s.peer_id (activate t (activate s m).1).1.registry
      ≡ some (if new_wins m.local_id t s then t else s)
activate-second s t m h fresh fresh' differ same e =
    let (now, local) = activate-first s m e in
    let m1 : Manager = (activate s m).1 in
    let h1 : IsIndexed (put s m.registry) =
      put-IsIndexed s m.registry h fresh (get_by_peer-none s.peer_id m.registry h e) in
    let found : lookup s.id m1.registry.by_id ≡ some s =
      rw now (unfold put in lookup-insert_self s.id s m.registry.by_id) in
    let indexed : IsIndexed m1.registry = rw now h1 in
    elim (Bool-cases (new_wins m.local_id t s)) [
      | inl wins ↦
          let wins' : new_wins m1.local_id t s ≡ true = rw local wins in
          let gone = get_by_peer-take_out s m1.registry indexed found in
          let new : IsFresh t.id (take_out s.id s m1.registry) = rw now (
            unfold put take_out in
            ground (
              arith,
              lookup-remove s.id t.id (Dict.insert s.id s m.registry.by_id),
              lookup-insert_ne s.id t.id s m.registry.by_id,
            )) in
          rw (wins, activate-replaced s t m1 indexed found same wins')
            (ap (λ p. get_by_peer p (put t (take_out s.id s m1.registry))) (sym same)
              ∙ get_by_peer-put_self t (take_out s.id s m1.registry)
                  (take_out-IsIndexed s.id s m1.registry indexed found) new (rw same gone))
      | inr loses ↦
          let loses' : new_wins m1.local_id t s ≡ false = rw local loses in
          let known : get_by_peer t.peer_id m1.registry ≡ some s =
            (get_by_peer_iff t.peer_id s m1.registry indexed).1 (found, sym same) in
          rw (loses, activate-kept s t m1 known loses')
            (ap (λ p. get_by_peer p m1.registry) (sym same) ∙ known)
    ]

-- What survives on one side, with the direction that its identifier calls for.
survivor :
    (first : Bool) (m : Manager) (peer : NodeId) (dialed accepted : Session)
    → IsCrossing m peer dialed accepted
    → get_by_peer peer (activate_both first dialed accepted m).registry
      ≡ some (if lt_node m.local_id peer then dialed else accepted)
unfolding new_wins expected_direction
survivor true m peer dialed accepted c =
    let same : accepted.peer_id ≡ dialed.peer_id = c.accepted_peer ∙ sym c.dialed_peer in
    ap (λ p. get_by_peer p (activate_both true dialed accepted m).registry) (sym c.dialed_peer)
    ∙ activate-second dialed accepted m c.indexed c.dialed_fresh c.accepted_fresh c.differ same
        (rw c.dialed_peer c.unknown)
    ∙ ap some (rw (c.dialed_out, c.accepted_in, c.accepted_peer) (ground arith))
survivor false m peer dialed accepted c =
    let same : dialed.peer_id ≡ accepted.peer_id = c.dialed_peer ∙ sym c.accepted_peer in
    ap (λ p. get_by_peer p (activate_both false dialed accepted m).registry) (sym c.accepted_peer)
    ∙ activate-second accepted dialed m c.indexed c.accepted_fresh c.dialed_fresh
        (λ q. c.differ (sym q)) same (rw c.accepted_peer c.unknown)
    ∙ ap some (rw (c.dialed_out, c.accepted_in, c.dialed_peer) (ground arith))

-- When two different nodes dial each other at once, both keep the session of the same connection, in
-- whatever order each of them activates the two: the one that the node of the smaller identifier
-- dialed, if neither had a session of the other before.
pub survivors_agree :
    (a b : Manager) (dialed_a accepted_a dialed_b accepted_b : Session) (first_a first_b : Bool)
    → IsNodeId a.local_id
    → IsNodeId b.local_id
    → a.local_id ≢ b.local_id
    → IsCrossing a b.local_id dialed_a accepted_a
    → IsCrossing b a.local_id dialed_b accepted_b
    → let dialer_is_a = lt_node a.local_id b.local_id in
      (get_by_peer b.local_id (activate_both first_a dialed_a accepted_a a).registry
        ≡ some (if dialer_is_a then dialed_a else accepted_a))
      × (get_by_peer a.local_id (activate_both first_b dialed_b accepted_b b).registry
          ≡ some (if dialer_is_a then accepted_b else dialed_b))
survivors_agree a b dialed_a accepted_a dialed_b accepted_b first_a first_b ia ib differ ca cb = (
  survivor first_a a b.local_id dialed_a accepted_a ca,
  survivor first_b b a.local_id dialed_b accepted_b cb
      ∙ ap some (ground (arith, lt_node-not a.local_id b.local_id ia ib differ)),
)
