-- ===== src/Registry/History.antt =====
-- The registry of session/registry.rs behind any operations, from the empty one on.
use pnos_sdk.Base.{
  ℕ, ◌≡◌, ◌↔◌, sym, ap, ◌∙◌, List, [], ◌∷◌, some, nat_eq, Bool-cases, Option-cases, inl, inr,
  some_eq,
}
use pnos_sdk.Base.Dict.{lookup, is_some}
use pnos_sdk.NodeId.{NodeId, node_eq}
use pnos_sdk.Address.{SocketAddr, addr_eq}
use pnos_sdk.Registry.{
  Session, SessionRegistry, new_registry, get_by_peer, session_of_addr, contains_peer,
  is_addr_connected, same_session, insert, remove, remove_if, drain,
}
use pnos_sdk.Registry.Invariant.{IsIndexed, IsFresh, new_registry-IsIndexed}
use pnos_sdk.Registry.Lookup.{
  IsSessionOf, get_by_peer_iff, insert-IsIndexed, remove-IsIndexed, contains_peer_iff,
}

pub data Change : Type 0 where
  inserting : Session → Change
  removing : ℕ → Change
  removing_if : ℕ → Session → Change
  draining : Change

abbrev pub change : Change → SessionRegistry → SessionRegistry
change (inserting s) r = (insert s r).0
change (removing id) r = (remove id r).0
change (removing_if id expect) r = (remove_if id expect r).0
change draining r = (drain r).0

abbrev pub changes : List Change → SessionRegistry → SessionRegistry
changes [] r = r
changes (c ∷ more) r = changes more (change c r)

-- No session is inserted under an identifier in use.
abbrev pub AreFresh : List Change → SessionRegistry → Type 0
AreFresh [] r = Unit
AreFresh (inserting s ∷ more) r = IsFresh s.id r × AreFresh more (insert s r).0
AreFresh (removing id ∷ more) r = AreFresh more (remove id r).0
AreFresh (removing_if id expect ∷ more) r = AreFresh more (remove_if id expect r).0
AreFresh (draining ∷ more) r = AreFresh more (drain r).0

remove_if-IsIndexed :
    (id : ℕ) (expect : Session) (r : SessionRegistry)
    → IsIndexed r
    → IsIndexed (remove_if id expect r).0
unfolding remove_if
remove_if-IsIndexed id expect r h = elim (Option-cases (lookup id r.by_id)) [
  | inl absent ↦ rw (absent, remove_if) h
  | inr (cur, registered) ↦ elim (Bool-cases (same_session cur expect)) [
    | inl same ↦ rw (registered, remove_if) (rw same (remove-IsIndexed id r h))
    | inr other ↦ rw (registered, remove_if) (rw other h)
  ]
]

changes-IsIndexed :
    (l : List Change) (r : SessionRegistry) → IsIndexed r → AreFresh l r → IsIndexed (changes l r)
unfolding drain
changes-IsIndexed [] r h fresh = h
changes-IsIndexed (inserting s ∷ more) r h (new, fresh) =
    changes-IsIndexed more _ (insert-IsIndexed s r h new) fresh
changes-IsIndexed (removing id ∷ more) r h fresh =
    changes-IsIndexed more _ (remove-IsIndexed id r h) fresh
changes-IsIndexed (removing_if id expect ∷ more) r h fresh =
    changes-IsIndexed more _ (remove_if-IsIndexed id expect r h) fresh
changes-IsIndexed (draining ∷ more) r h fresh =
    changes-IsIndexed more _ new_registry-IsIndexed fresh

-- After any insertions, removals and drains of an empty registry, where no session is inserted under
-- an identifier in use, the registered session of a peer is the one that is found by the peer, a peer
-- has one session at most, and the tests for a peer and for an address, which look at one table only,
-- answer as the full lookups.
pub get_by_peer-changes :
    (l : List Change) (p : NodeId) (a : SocketAddr)
    → AreFresh l new_registry
    → let r = changes l new_registry in
      ((t : Session) → (get_by_peer p r ≡ some t) ↔ IsSessionOf p t r)
      × ((i j : ℕ) (s t : Session)
          → lookup i r.by_id ≡ some s
          → lookup j r.by_id ≡ some t
          → s.peer_id ≡ t.peer_id
          → i ≡ j)
      × (contains_peer p r ≡ is_some (get_by_peer p r))
      × (is_addr_connected a r ≡ is_some (session_of_addr a r))
get_by_peer-changes l p a fresh =
    let r = changes l new_registry in
    let h = changes-IsIndexed l new_registry new_registry-IsIndexed fresh in
    let (by_peer, by_addr) = contains_peer_iff r p a h in
    (
      λ t. get_by_peer_iff p t r h,
      λ i j s t e e' same. some_eq (
          sym (h.peer_complete i s e) ∙ ap (λ q. lookup q r.by_peer) same ∙ h.peer_complete j t e'),
      by_peer,
      by_addr,
    )
