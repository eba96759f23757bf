-- ===== src/Manager/Replenish/Runs.antt =====
-- A choice of `replenish`, and its theorem at a concrete input.
use pnos_sdk.Base.{ℕ, ◌≡◌, refl, [], ◌∷◌, map}
use pnos_sdk.Base.Dict.{lookup}
use pnos_sdk.NodeId.{NodeId, lt_octets}
use pnos_sdk.Address.{v4, SocketAddr}
use pnos_sdk.Registry.{contains_peer, get_by_peer, len}
use pnos_sdk.Manager.{Manager, default_config, bind}
use pnos_sdk.Manager.Policy.{PeerPolicy, new_candidate}
use pnos_sdk.Manager.Replenish.{Scored, info, is_eligible, comes_first, replenish}
use pnos_sdk.Manager.Replenish.Choice.{IsChoice, replenish-best}

abbrev server : SocketAddr
server = record { ip = v4 203 0 113 7; port = 6885 }

abbrev node : ℕ → NodeId
node n = record { octets = n ∷ [] }

-- The score is the weight.
abbrev policy : PeerPolicy
policy = record {
  candidates =
      record (new_candidate (node 9) (server ∷ [])) { weight = 5 }
      ∷ new_candidate (node 4) []
      ∷ record (new_candidate (node 3) (server ∷ [])) { weight = 5 }
      ∷ record (new_candidate (node 7) (server ∷ [])) { weight = 8 }
      ∷ [];
  score = λ c live. c.weight;
  target_sessions = 8;
}

abbrev idle : Manager
idle = bind (node 1) default_config

two_chosen : map (λ (x : Scored). x.1.peer_id) (replenish policy 2 idle) ≡ node 7 ∷ node 3 ∷ []
unfolding replenish bind info is_eligible comes_first new_candidate contains_peer get_by_peer len
    lookup lt_octets
two_chosen = refl

replenish-best_example : IsChoice policy 2 idle (replenish policy 2 idle)
replenish-best_example = replenish-best policy 2 idle
