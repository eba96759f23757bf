-- ===== src/Manager/Policy.antt =====
-- crates/pnos-net/src/session/policy.rs: the candidates that a user of the library names, and its scores.
use pnos_sdk.Base.{ℕ, ◌^◌, List, [], Option, none}
use pnos_sdk.NodeId.{NodeId}
use pnos_sdk.Address.{SocketAddr}
use pnos_sdk.Registry.{Session}
use pnos_sdk.Manager.{SessionVars}

-- `Reachability` of types.rs.
pub data Reachability : Type 0 where
  public_ipv6 mapped hole_punchable outbound_only unknown : Reachability

-- An i64, as here and for the scores, is given by its distance from the least one.
pub record PeerCandidate : Type 0 where
  pub peer_id : NodeId
  pub addrs : List SocketAddr
  pub reachability : Reachability
  pub nat_type : Option (List ℕ)
  pub weight : ℕ

abbrev pub i64_zero : ℕ
i64_zero = 2 ^ 63

unfoldable pub new_candidate : NodeId → List SocketAddr → PeerCandidate
new_candidate peer_id addrs = record {
  peer_id = peer_id;
  addrs = addrs;
  reachability = unknown;
  nat_type = none;
  weight = i64_zero;
}

-- The session of a candidate, with its changing part.
abbrev pub SessionInfo : Type 0
SessionInfo = Session × SessionVars

-- What the user gives; the candidates are those at the time of the call.
pub record PeerPolicy : Type 0 where
  pub candidates : List PeerCandidate
  pub score : PeerCandidate → Option SessionInfo → ℕ
  pub target_sessions : ℕ

unfoldable pub no_policy : PeerPolicy
no_policy = record { candidates = []; score = λ candidate live. i64_zero; target_sessions = 0 }
