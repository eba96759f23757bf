-- ===== src/Registry/Runs.antt =====
-- Runs of the registry, and the theorems at concrete inputs.
use pnos_sdk.Registry.History.{Change, inserting, removing_if, changes, get_by_peer-changes}
use pnos_sdk.Base.{nat_eq, ℕ, List, ◌≡◌, ◌↔◌, refl, [], ◌∷◌, none, some}
use pnos_sdk.Base.Dict.{lookup, is_some}
use pnos_sdk.Base.Dict
use pnos_sdk.NodeId.{NodeId, node_eq}
use pnos_sdk.Address.{SocketAddr, v4}
use pnos_sdk.Registry.{
  Session, SessionRegistry, outbound, inbound, new_registry, insert, put, remove, get_by_peer,
  remove_if, take_out, contains_peer, is_addr_connected, session_of_addr,
}
use pnos_sdk.Registry.Invariant.{IsIndexed, new_registry-IsIndexed}
use pnos_sdk.Registry.Lookup.{
  IsSessionOf, insert-IsIndexed, insert_view, get_by_peer-insert, unless_id, get_by_peer-remove,
}

abbrev peer_one : NodeId
peer_one = record { octets = 1 ∷ [] }

abbrev address : SocketAddr
address = record { ip = v4 10 0 0 1; port = 6885 }

abbrev first : Session
first = record { id = 1; peer_id = peer_one; addr = address; direction = outbound; metadata = none }

abbrev second : Session
second = record first { id = 2; direction = inbound }

abbrev one_session : SessionRegistry
one_session = (insert first new_registry).0

one_session-IsIndexed : IsIndexed one_session
one_session-IsIndexed =
    insert-IsIndexed first new_registry new_registry-IsIndexed (unfold lookup in refl)

second_refused : (insert second one_session).1 ≡ some first
unfolding insert put get_by_peer lookup Dict.insert
second_refused = refl

get_by_peer-insert_example :
    (get_by_peer peer_one one_session
      ≡ insert_view first
          (get_by_peer peer_one new_registry)
          peer_one
          (get_by_peer peer_one new_registry))
    × ((insert first new_registry).1 ≡ get_by_peer peer_one new_registry)
get_by_peer-insert_example =
    get_by_peer-insert first new_registry peer_one new_registry-IsIndexed (unfold lookup in refl)

get_by_peer-remove_example :
    get_by_peer peer_one (remove 2 one_session).0 ≡ unless_id 2 (get_by_peer peer_one one_session)
get_by_peer-remove_example = get_by_peer-remove 2 one_session peer_one one_session-IsIndexed

-- The second session of the peer is refused; after the removal of the first one it is taken in.
abbrev story : List Change
story = inserting first ∷ inserting second ∷ removing_if 1 first ∷ inserting second ∷ []

get_by_peer-changes_example :
    let r = changes story new_registry in
    ((t : Session) → (get_by_peer peer_one r ≡ some t) ↔ IsSessionOf peer_one t r)
    × ((i j : ℕ) (s t : Session)
        → lookup i r.by_id ≡ some s
        → lookup j r.by_id ≡ some t
        → s.peer_id ≡ t.peer_id
        → i ≡ j)
    × (contains_peer peer_one r ≡ is_some (get_by_peer peer_one r))
    × (is_addr_connected address r ≡ is_some (session_of_addr address r))
unfolding insert put get_by_peer lookup Dict.insert remove_if remove take_out Dict.remove
get_by_peer-changes_example = get_by_peer-changes story peer_one address (refl, (refl, (refl, tt)))
