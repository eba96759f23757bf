-- ===== src/Registry.antt =====
-- crates/pnos-net/src/session/registry.rs, and the fixed part of a session of session/session.rs. The
-- lock is held for a whole operation, so an operation is one function on the three tables; `remove_if`
-- takes it twice, and what may happen in between is only that the same session is removed. An
-- `Arc<Session>` is named by the session's identifier: no two sessions are created with one.
pub mod Invariant
pub mod Removal
pub mod Lookup
pub mod History
mod Runs
use pnos_sdk.Base.{
  ℕ, ◌≡◌, Bool, true, false, List, [], ◌∷◌, Option, none, some, ◌==◌, if◌then◌else◌, length, Eq,
  nat_eq,
}
use pnos_sdk.Base.Dict.{lookup, contains_key}
use pnos_sdk.Base.Dict
use pnos_sdk.NodeId.{NodeId, node_eq}
use pnos_sdk.Address.{SocketAddr, addr_eq}

pub data Direction : Type 0 where
  outbound inbound : Direction

pub record Session : Type 0 where
  pub id : ℕ
  pub peer_id : NodeId
  pub addr : SocketAddr
  pub direction : Direction
  pub metadata : Option (List ℕ)

pub record SessionRegistry : Type 0 where
  pub by_peer : List (NodeId × ℕ)
  pub by_addr : List (SocketAddr × ℕ)
  pub by_id : List (ℕ × Session)

abbrev pub new_registry : SessionRegistry
new_registry = record { by_peer = []; by_addr = []; by_id = [] }

-- `map.get(key).and_then(...)`.
abbrev pub and_then {ℓ κ} : {A : Type ℓ} {B : Type κ} → Option A → (A → Option B) → Option B
and_then none f = none
and_then (some a) f = f a

unfoldable pub get_by_id : ℕ → SessionRegistry → Option Session
get_by_id id r = lookup id r.by_id

unfoldable pub get_by_peer : NodeId → SessionRegistry → Option Session
get_by_peer peer r = and_then (lookup peer r.by_peer) λ id. lookup id r.by_id

unfoldable pub session_of_addr : SocketAddr → SessionRegistry → Option Session
session_of_addr addr r = and_then (lookup addr r.by_addr) λ id. lookup id r.by_id

unfoldable pub is_addr_connected : SocketAddr → SessionRegistry → Bool
is_addr_connected addr r = contains_key addr r.by_addr

unfoldable pub contains_peer : NodeId → SessionRegistry → Bool
contains_peer peer r = contains_key peer r.by_peer

unfoldable pub peer_of_addr : SocketAddr → SessionRegistry → Option NodeId
peer_of_addr addr r =
    and_then (lookup addr r.by_addr) λ id. and_then (lookup id r.by_id) λ s. some s.peer_id

unfoldable pub addr_of_peer : NodeId → SessionRegistry → Option SocketAddr
addr_of_peer peer r =
    and_then (lookup peer r.by_peer) λ id. and_then (lookup id r.by_id) λ s. some s.addr

abbrev pub values {ℓ κ} : {K : Type ℓ} {V : Type κ} → List (K × V) → List V
values [] = []
values ((k, v) ∷ m) = v ∷ values m

unfoldable pub all : SessionRegistry → List Session
all r = values r.by_id

unfoldable pub len : SessionRegistry → ℕ
len r = length r.by_id

-- The three writes of a successful `insert`.
unfoldable pub put : Session → SessionRegistry → SessionRegistry
put s r = record {
  by_peer = Dict.insert s.peer_id s.id r.by_peer;
  by_addr = Dict.insert s.addr s.id r.by_addr;
  by_id = Dict.insert s.id s r.by_id;
}

-- The result is the session that is there already, if the new one was not taken in.
unfoldable pub insert : Session → SessionRegistry → SessionRegistry × Option Session
insert s r = elim (get_by_peer s.peer_id r) [
  | some existing ↦ (r, some existing)
  | none ↦ (put s r, none)
]

abbrev points_to : ℕ → Option ℕ → Bool
points_to id none = false
points_to id (some i) = i == id

-- The entry is taken out if it still points to the session.
abbrev unlink {ℓ} : {K : Type ℓ} ⦃e : Eq K⦄ → K → ℕ → List (K × ℕ) → List (K × ℕ)
unlink k id m = if points_to id (lookup k m) then Dict.remove k m else m

unfoldable pub take_out : ℕ → Session → SessionRegistry → SessionRegistry
take_out id removed r = record {
  by_peer = unlink removed.peer_id id r.by_peer;
  by_addr = unlink removed.addr id r.by_addr;
  by_id = Dict.remove id r.by_id;
}

unfoldable pub remove : ℕ → SessionRegistry → SessionRegistry × Option Session
unfolding take_out
remove id r = elim (lookup id r.by_id) [
  | none ↦ (r, none)
  | some removed ↦ (take_out id removed r, some removed)
]

-- `Arc::ptr_eq`.
abbrev pub same_session : Session → Session → Bool
same_session s t = s.id == t.id

unfoldable pub remove_if : ℕ → Session → SessionRegistry → SessionRegistry × Option Session
unfolding remove
remove_if id expect r = elim (lookup id r.by_id) [
  | none ↦ (r, none)
  | some cur ↦ if same_session cur expect then remove id r else (r, none)
]

unfoldable pub drain : SessionRegistry → SessionRegistry × List Session
unfolding all
drain r = (new_registry, all r)
