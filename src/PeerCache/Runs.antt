-- ===== src/PeerCache/Runs.antt =====
-- Runs of the cache of peer_cache.rs, and the theorems at concrete inputs.
use pnos_sdk.Base.{
  ℕ, ◌≡◌, refl, true, false, ◌&&◌, List, [], ◌∷◌, map, Option, none, some, if◌then◌else◌, list_beq,
}
use pnos_sdk.NodeId.{NodeId, node_beq}
use pnos_sdk.Address.{v4, SocketAddr, classify}
use pnos_sdk.PeerCache.{
  PeerCache, fresh, used, upsert_endpoint, upsert_node, upsert_nodes, upsert, classify_addr_string,
  trim, is_kept, prune, kind_weight, better_addr, best_cached, best_addr, top_addrs, load,
}
use pnos_sdk.PeerCache.Upsert.{endpoint_of, changed, counted, endpoint_of-upsert}
use pnos_sdk.PeerCache.Pruning.{IsPruned, prune-best}

abbrev peer : NodeId
peer = record { octets = 7 ∷ [] }

abbrev friend : NodeId
friend = record { octets = 8 ∷ [] }

-- Two texts that are read, and no other one.
abbrev parse : List ℕ → Option SocketAddr
parse text =
    if list_beq text (b'p' ∷ [])
    then some (record { ip = v4 203 0 113 5; port = 6885 })
    else if list_beq text (b'l' ∷ [])
    then some (record { ip = v4 192 168 1 7; port = 6885 })
    else none

abbrev one_peer : PeerCache
one_peer = upsert parse peer (b'p' ∷ []) true 1000 (load parse none)

abbrev cache : PeerCache
cache = upsert parse friend (b'p' ∷ []) true 3000 (upsert parse peer (b'l' ∷ []) true 2000 one_peer)

endpoint_of-upsert_example :
    endpoint_of peer (b'p' ∷ []) (upsert parse peer (b'p' ∷ []) false 5000 one_peer) ≡ (
      if node_beq peer peer && list_beq (b'p' ∷ []) (b'p' ∷ [])
      then some (
          changed
            (counted false 5000)
            (fresh (b'p' ∷ []) (classify_addr_string parse (b'p' ∷ [])) false 5000)
            (endpoint_of peer (b'p' ∷ []) one_peer))
      else endpoint_of peer (b'p' ∷ []) one_peer)
endpoint_of-upsert_example =
    endpoint_of-upsert parse peer peer (b'p' ∷ []) (b'p' ∷ []) false 5000 one_peer

prune-best_example : IsPruned 4000 1 cache.nodes (prune 4000 1 cache).nodes
prune-best_example = prune-best 4000 1 cache

-- The node with two successes stays; its best address is the local one.
best_of_two : map (λ n. best_addr n) (prune 4000 1 cache).nodes ≡ some (b'l' ∷ []) ∷ []
unfolding prune load upsert upsert_nodes upsert_node upsert_endpoint classify_addr_string classify
    trim is_kept best_addr best_cached better_addr kind_weight used
best_of_two = refl

two_addresses : top_addrs 2 cache ≡ (b'l' ∷ []) ∷ (b'p' ∷ []) ∷ []
unfolding top_addrs load upsert upsert_nodes upsert_node upsert_endpoint classify_addr_string
    classify best_addr best_cached better_addr kind_weight used
two_addresses = refl
