-- ===== src/Manager/Closing.antt =====
-- The end of sessions, session/mod.rs: `disconnect` of one, `shutdown` of all.
use pnos_sdk.Base.{
  ℕ, ◌+◌, ◌-◌, ◌%◌, ◌^◌, ◌≡◌, refl, sym, ap, ◌∙◌, Bool, true, false, ◌||◌, List, [], ◌∷◌, ◌++◌, map,
  none, some, ◌==◌, if◌then◌else◌, length, nat_eq, Bool-cases, ◌⊎◌, inl, inr, arith,
}
use mathlib.Core.Path.{subst}
use pnos_sdk.Base.Dict.{lookup, lookup-remove_self}
use pnos_sdk.Stats.{add64, record_closed, add_closed, sub_active}
use pnos_sdk.NodeId.{NodeId, node_eq}
use pnos_sdk.Registry
use pnos_sdk.Registry.{Session, SessionRegistry, new_registry, get_by_peer, take_out, all, drain}
use pnos_sdk.Registry.Invariant.{IsIndexed}
use pnos_sdk.Registry.Lookup.{unless_id, get_by_peer-remove}
use pnos_sdk.Manager.{
  Manager, SessionEvent, disconnected, DisconnectReason, shutdown, disconnect, finish_disconnect,
  close_transport, mark_closed, shut_session, shut_all, start_shutdown, shutdown_all,
}
use pnos_sdk.Manager.Effects.{take_down-some}
use pnos_sdk.Manager.Tasks.{disconnect-some, shutdown_all_cases}

-- The session is closed, and no other one: its peer finds no session any more, its flag is set and its
-- stream is shut, it is counted, and one event tells the reason.
pub record IsClosed (s : Session) (reason : DisconnectReason) (m m' : Manager) : Type 0 where
  pub absent : lookup s.id m'.registry.by_id ≡ none
  pub peers : (p : NodeId) → get_by_peer p m'.registry ≡ unless_id s.id (get_by_peer p m.registry)
  pub flags : (i : ℕ) → (m'.vars i).closed ≡ (if s.id == i then true else (m.vars i).closed)
  pub streams : (i : ℕ) → (m'.vars i).shut ≡ (if s.id == i then true else (m.vars i).shut)
  pub told : m'.events ≡ m.events ++ disconnected s.id s.peer_id reason ∷ []
  pub counted : m'.stats.closed ≡ add64 m.stats.closed 1
  pub fewer : m'.stats.active ≡ m.stats.active - 1

remove-take_out :
    (s : Session) (r : SessionRegistry)
    → lookup s.id r.by_id ≡ some s
    → (Registry.remove s.id r).0 ≡ take_out s.id s r
unfolding Registry.remove
remove-take_out s r e = rw (e, Registry.remove) refl

taken_out-IsClosed :
    (s : Session) (reason : DisconnectReason) (m : Manager)
    → IsIndexed m.registry
    → lookup s.id m.registry.by_id ≡ some s
    → IsClosed s reason m (
        finish_disconnect s reason
          (mark_closed s.id (record m { registry = take_out s.id s m.registry })))
unfolding finish_disconnect close_transport mark_closed record_closed add_closed sub_active take_out
taken_out-IsClosed s reason m h e = record {
  absent = lookup-remove_self s.id m.registry.by_id;
  peers = λ p.
      ap (get_by_peer p) (sym (remove-take_out s m.registry e))
      ∙ get_by_peer-remove s.id m.registry p h;
  flags = λ i. ground arith;
  streams = λ i. ground arith;
  told = refl;
  counted = refl;
  fewer = refl;
}

pub disconnect-IsClosed :
    (s : Session) (reason : DisconnectReason) (m : Manager)
    → IsIndexed m.registry
    → lookup s.id m.registry.by_id ≡ some s
    → IsClosed s reason m (disconnect s.id reason m)
disconnect-IsClosed s reason m h e =
    subst (IsClosed s reason m)
      (sym (
        disconnect-some s.id reason m s e
        ∙ ap (λ x. finish_disconnect s reason x.1) (take_down-some s.id s m e)))
      (taken_out-IsClosed s reason m h e)

-- The event for a session that a shutdown closes.
abbrev pub farewell : Session → SessionEvent
farewell s = disconnected s.id s.peer_id shutdown

abbrev pub has_id : ℕ → List Session → Bool
has_id i [] = false
has_id i (s ∷ ss) = s.id == i || has_id i ss

-- The sessions are closed, in the order of the list.
pub record AreShut (ss : List Session) (m m' : Manager) : Type 0 where
  pub same_registry : m'.registry ≡ m.registry
  pub same_state : m'.shutting_down ≡ m.shutting_down
  pub same_established : m'.stats.established ≡ m.stats.established
  pub told : m'.events ≡ m.events ++ map farewell ss
  pub flags : (i : ℕ) → (m'.vars i).closed ≡ (has_id i ss || (m.vars i).closed)
  pub streams : (i : ℕ) → (m'.vars i).shut ≡ (has_id i ss || (m.vars i).shut)
  pub counted : m'.stats.closed % 2 ^ 64 ≡ (m.stats.closed + length ss) % 2 ^ 64
  pub fewer : m'.stats.active ≡ m.stats.active - length ss

append_nil : (l : List SessionEvent) → l ≡ l ++ []
append_nil [] = refl
append_nil (x ∷ l) = ap (λ t. x ∷ t) (append_nil l)

append_step :
    (l : List SessionEvent) (x : SessionEvent) (r : List SessionEvent)
    → (l ++ x ∷ []) ++ r ≡ l ++ x ∷ r
append_step [] x r = refl
append_step (y ∷ l) x r = ap (λ t. y ∷ t) (append_step l x r)

shut_all-AreShut : (ss : List Session) (m : Manager) → AreShut ss m (shut_all ss m)
unfolding shut_session finish_disconnect close_transport mark_closed record_closed add_closed
    sub_active
shut_all-AreShut [] m = record {
  same_registry = refl;
  same_state = refl;
  same_established = refl;
  told = append_nil m.events;
  flags = λ i. refl;
  streams = λ i. refl;
  counted = omega arith;
  fewer = omega arith;
}
shut_all-AreShut (s ∷ ss) m =
    let h = shut_all-AreShut ss (shut_session s m) in
    record {
      same_registry = h.same_registry;
      same_state = h.same_state;
      same_established = h.same_established;
      told = h.told ∙ append_step m.events (farewell s) (map farewell ss);
      flags = λ i. h.flags i ∙ ground arith;
      streams = λ i. h.streams i ∙ ground arith;
      counted = omega (arith, h.counted);
      fewer = omega (arith, h.fewer);
    }

-- A first `shutdown` empties the registry and turns later openings away; it closes exactly the sessions
-- that were registered: each is marked closed and its stream is shut, each is counted as closed (modulo
-- 2^64) and no longer as active, and for each an event is sent, in the order of the registry. A later
-- `shutdown` does nothing.
pub shutdown_all-AreShut :
    (m : Manager)
    → ((m.shutting_down ≡ true) × (shutdown_all m ≡ m))
      ⊎ ((m.shutting_down ≡ false)
          × ((shutdown_all m).registry ≡ new_registry)
          × ((shutdown_all m).shutting_down ≡ true)
          × AreShut
              (all m.registry)
              (record m { registry = new_registry; shutting_down = true })
              (shutdown_all m))
unfolding start_shutdown drain
shutdown_all-AreShut m = elim (Bool-cases m.shutting_down) [
  | inl twice ↦ inl (twice, shutdown_all_cases m true twice)
  | inr once ↦
      let start : Manager = record m { registry = new_registry; shutting_down = true } in
      let shut = shut_all-AreShut (all m.registry) start in
      let whole = sym (shutdown_all_cases m false once) in
      inr (
        once,
        subst (λ x. x.registry ≡ new_registry) whole shut.same_registry,
        subst (λ x. x.shutting_down ≡ true) whole shut.same_state,
        subst (AreShut (all m.registry) start) whole shut,
      )
]
