-- ===== src/PeerCache.antt =====
-- crates/pnos-net/src/discovery/peer_cache.rs: the cache of known nodes. Addresses are texts, as in the
-- file; reading one as a socket address is an argument. The file itself, with its JSON, is left out:
-- `load` starts from what was read of it.
pub mod Upsert
pub mod Pruning
mod Runs
use pnos_sdk.Base.{
  ℕ, zero, suc, ◌+◌, ◌-◌, ◌*◌, ◌%◌, ◌^◌, max, Bool, true, false, ◌&&◌, ◌||◌, not, List, [], ◌∷◌,
  ◌++◌, map, Option, none, some, ltb, ◌==◌, if◌then◌else◌, take, list_beq,
}
use pnos_sdk.Base.Sort.{sort_by}
use pnos_sdk.NodeId.{NodeId, node_beq}
use pnos_sdk.Address.{
  EndpointKind, lan, public, ipv6, loopback, classify, SocketAddr, lt_latency, eq_latency,
}

-- The kind as a text: none stands for any other text than the four names.
abbrev pub Kind : Type 0
Kind = Option EndpointKind

-- Without the source, which is always this cache.
pub record CachedEndpoint : Type 0 where
  pub addr : List ℕ
  pub kind : Kind
  pub last_success : ℕ
  pub success_count : ℕ
  pub fail_count : ℕ
  pub latency_ms : Option ℕ

pub record CachedNode : Type 0 where
  pub node_id : NodeId
  pub endpoints : List CachedEndpoint
  pub addr : List ℕ
  pub last_seen : ℕ
  pub success_count : ℕ

pub record PeerCache : Type 0 where
  pub last_updated : ℕ
  pub nodes : List CachedNode

abbrev pub u32_max : ℕ
u32_max = 2 ^ 32 - 1

-- `saturating_add(1)`.
abbrev pub inc32 : ℕ → ℕ
inc32 n = if ltb n u32_max then suc n else u32_max

-- The sum of u32; in a build without overflow checks it wraps.
abbrev pub total_success : List CachedEndpoint → ℕ
total_success [] = 0
total_success (e ∷ more) = (e.success_count + total_success more) % 2 ^ 32

abbrev pub most_success : List CachedEndpoint → ℕ
most_success [] = 0
most_success (e ∷ more) = max e.success_count (most_success more)

-- An endpoint at its first use.
abbrev pub fresh : List ℕ → Kind → Bool → ℕ → CachedEndpoint
fresh addr kind success now = record {
  addr = addr;
  kind = kind;
  last_success = if success then now else 0;
  success_count = if success then 1 else 0;
  fail_count = if success then 0 else 1;
  latency_ms = none;
}

-- An endpoint at a further use.
unfoldable pub used : Bool → ℕ → CachedEndpoint → CachedEndpoint
used success now e = record e {
  last_success = now;
  success_count = if success then inc32 e.success_count else e.success_count;
  fail_count = if success then 0 else inc32 e.fail_count;
}

-- The first element that passes the test is changed, or else a new one is appended.
abbrev pub update_first {ℓ} : {A : Type ℓ} → (A → Bool) → (A → A) → A → List A → List A
update_first test change new [] = new ∷ []
update_first test change new (x ∷ xs) =
    let rest = update_first test change new xs in if test x then change x ∷ xs else x ∷ rest

unfoldable pub upsert_endpoint :
    List ℕ → Kind → Bool → ℕ → List CachedEndpoint → List CachedEndpoint
upsert_endpoint addr kind success now =
    update_first (λ e. list_beq e.addr addr) (used success now) (fresh addr kind success now)

unfoldable pub upsert_node : List ℕ → Kind → Bool → ℕ → CachedNode → CachedNode
upsert_node addr kind success now n =
    let endpoints = upsert_endpoint addr kind success now n.endpoints in
    record {
      node_id = n.node_id;
      endpoints = endpoints;
      addr = addr;
      last_seen = now;
      success_count = most_success endpoints;
    }

abbrev pub new_node : NodeId → List ℕ → Kind → Bool → ℕ → CachedNode
new_node id addr kind success now = record {
  node_id = id;
  endpoints = fresh addr kind success now ∷ [];
  addr = addr;
  last_seen = now;
  success_count = if success then 1 else 0;
}

unfoldable pub upsert_nodes : NodeId → List ℕ → Kind → Bool → ℕ → List CachedNode → List CachedNode
upsert_nodes id addr kind success now =
    update_first (λ n. node_beq n.node_id id) (upsert_node addr kind success now)
      (new_node id addr kind success now)

-- `retain` on the endpoints of a node: those that did not fail too often.
abbrev pub few_failures : List CachedEndpoint → List CachedEndpoint
few_failures [] = []
few_failures (e ∷ more) =
    let rest = few_failures more in if ltb e.fail_count 20 then e ∷ rest else rest

unfoldable pub trim : CachedNode → CachedNode
trim n = record n { endpoints = few_failures n.endpoints }

abbrev pub any_success : List CachedEndpoint → Bool
any_success [] = false
any_success (e ∷ more) = ltb 0 e.success_count || any_success more

abbrev pub seven_days : ℕ
seven_days = 7 * 24 * 3600

unfoldable pub is_kept : ℕ → CachedNode → Bool
is_kept now n = any_success n.endpoints && ltb (now - n.last_seen) seven_days

abbrev pub kept : ℕ → List CachedNode → List CachedNode
kept now [] = []
kept now (n ∷ more) = let rest = kept now more in if is_kept now n then n ∷ rest else rest

-- More successes come first.
abbrev pub more_success : CachedNode → CachedNode → Bool
more_success a b = ltb (total_success b.endpoints) (total_success a.endpoints)

unfoldable pub prune : ℕ → ℕ → PeerCache → PeerCache
prune now max_nodes c = record c {
  nodes = take max_nodes (sort_by more_success (kept now (map trim c.nodes)));
}

unfoldable pub kind_weight : Kind → ℕ
kind_weight k = elim k [
  | none ↦ 4
  | some e ↦ elim e [ lan ↦ 0 | loopback ↦ 1 | public ↦ 2 | ipv6 ↦ 3 ]
]

-- The comparison of `best_addr` gives `Less`.
unfoldable pub better_addr : CachedEndpoint → CachedEndpoint → Bool
better_addr a b =
    ltb (kind_weight a.kind) (kind_weight b.kind)
    || (kind_weight a.kind == kind_weight b.kind
        && (lt_latency a.latency_ms b.latency_ms
            || (eq_latency a.latency_ms b.latency_ms && ltb b.success_count a.success_count)))

abbrev pub pick_addr : CachedEndpoint → Option CachedEndpoint → Option CachedEndpoint
pick_addr e none = some e
pick_addr e (some b) = if better_addr b e then some b else some e

-- `min_by` over the endpoints that did not fail too often.
unfoldable pub best_cached : List CachedEndpoint → Option CachedEndpoint
best_cached [] = none
best_cached (e ∷ more) =
    let rest = best_cached more in if ltb e.fail_count 20 then pick_addr e rest else rest

unfoldable pub best_addr : CachedNode → Option (List ℕ)
best_addr n = elim (best_cached n.endpoints) [ none ↦ none | some e ↦ some e.addr ]

abbrev pub scored : List CachedNode → List (ℕ × List ℕ)
scored [] = []
scored (n ∷ more) =
    let rest = scored more in
    elim (best_addr n) [ none ↦ rest | some addr ↦ (total_success n.endpoints, addr) ∷ rest ]

unfoldable pub top_addrs : ℕ → PeerCache → List (List ℕ)
top_addrs n c =
    map (λ (x : ℕ × List ℕ). x.1) (take n (sort_by (λ x y. ltb y.0 x.0) (scored c.nodes)))

unfoldable pub all_endpoints : List CachedNode → List (NodeId × (List ℕ × Kind))
all_endpoints [] = []
all_endpoints (n ∷ more) =
    map (λ (e : CachedEndpoint). (n.node_id, (e.addr, e.kind))) n.endpoints ++ all_endpoints more

module _ (parse_addr : List ℕ → Option SocketAddr) where
  -- A text that is no socket address counts as public.
  unfoldable pub classify_addr_string : List ℕ → Kind
  classify_addr_string addr = elim (parse_addr addr) [
    | none ↦ some public
    | some a ↦ some (classify a)
  ]

  unfoldable pub upsert : NodeId → List ℕ → Bool → ℕ → PeerCache → PeerCache
  upsert id addr success now c = record {
    last_updated = now;
    nodes = upsert_nodes id addr (classify_addr_string addr) success now c.nodes;
  }

  -- A node of the old format gets its one address as an endpoint.
  abbrev migrated : CachedNode → List CachedEndpoint → List ℕ → CachedNode
  migrated n (e ∷ more) addr = n
  migrated n [] [] = n
  migrated n [] (c ∷ text) = record n {
    endpoints =
        record {
          addr = n.addr;
          kind = classify_addr_string n.addr;
          last_success = n.last_seen;
          success_count = n.success_count;
          fail_count = 0;
          latency_ms = none;
        }
        ∷ [];
  }

  unfoldable pub migrate : CachedNode → CachedNode
  migrate n = migrated n n.endpoints n.addr

  -- What was read of the file; none if there is no file or it cannot be read.
  unfoldable pub load : Option PeerCache → PeerCache
  load none = record { last_updated = 0; nodes = [] }
  load (some c) = record c { nodes = map migrate c.nodes }
