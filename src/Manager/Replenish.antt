-- ===== src/Manager/Replenish.antt =====
-- crates/pnos-net/src/session/heartbeat.rs, `replenish`: which candidates are dialed to keep the number
-- of sessions up. Each of them is then given to `connect` in a task of its own.
mod Runs
pub mod Order
pub mod Choice
use pnos_sdk.Base.{
  ℕ, ◌-◌, min, Bool, true, false, ◌&&◌, ◌||◌, not, List, [], ◌∷◌, Option, none, some, ltb, leb,
  ◌==◌, if◌then◌else◌, take,
}
use pnos_sdk.Base.Sort.{sort_by}
use pnos_sdk.NodeId.{lt_octets}
use pnos_sdk.Address.{is_empty}
use pnos_sdk.Registry.{Session, contains_peer, get_by_peer, len}
use pnos_sdk.Manager.{Manager}
use pnos_sdk.Manager.Policy.{PeerCandidate, SessionInfo, PeerPolicy}

-- A candidate with its score.
abbrev pub Scored : Type 0
Scored = ℕ × PeerCandidate

unfoldable pub info : Manager → Option Session → Option SessionInfo
info m none = none
info m (some s) = some (s, m.vars s.id)

unfoldable pub is_eligible : Manager → PeerCandidate → Bool
is_eligible m c = not (is_empty c.addrs) && not (contains_peer c.peer_id m.registry)

-- The two filters and the scores.
abbrev pub scored : PeerPolicy → Manager → List PeerCandidate → List Scored
scored policy m [] = []
scored policy m (c ∷ more) =
    let rest = scored policy m more in
    if is_eligible m c
    then (policy.score c (info m (get_by_peer c.peer_id m.registry)), c) ∷ rest
    else rest

-- By score downwards, and then by the identifier.
unfoldable pub comes_first : Scored → Scored → Bool
comes_first (s, c) (t, d) = ltb t s || (s == t && lt_octets c.peer_id.octets d.peer_id.octets)

-- `target.min(max_sessions)`.
abbrev pub target : PeerPolicy → Manager → ℕ
target policy m = min policy.target_sessions m.cfg.max_sessions

-- The candidates that are dialed, each with its score.
unfoldable pub replenish : PeerPolicy → ℕ → Manager → List Scored
replenish policy max_per_tick m =
    if m.shutting_down
    then []
    else if target policy m == 0
    then []
    else if leb (target policy m) (len m.registry)
    then []
    else take (min (target policy m - len m.registry) max_per_tick)
        (sort_by comes_first (scored policy m policy.candidates))
