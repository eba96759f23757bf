-- ===== src/Address.antt =====
-- crates/pnos-net/src/types.rs: socket addresses, their classes, the choice between known endpoints and
-- the three-tier choice of addresses to dial. An IPv6 address is the list of its eight 16-bit
-- segments; the flow label and the scope of `SocketAddrV6` are left out.
pub mod Classes
pub mod Routes
pub mod Members
pub mod Endpoints
mod Runs
use Prim.Native.Nat.{bit_and}
use pnos_sdk.Base.{
  ℕ, ◌≡◌, ◌↔◌, Bool, true, false, ◌&&◌, ◌||◌, List, [], ◌∷◌, ◌++◌, Option, none, some, ltb, leb,
  ◌==◌, if◌then◌else◌, get_or, Eq, list_beq, list_beq_iff, arith,
}

pub data IpAddr : Type 0 where
  v4 : ℕ → ℕ → ℕ → ℕ → IpAddr
  v6 : List ℕ → IpAddr

pub record SocketAddr : Type 0 where
  pub ip : IpAddr
  pub port : ℕ

abbrev pub ip_beq : IpAddr → IpAddr → Bool
ip_beq (v4 a b c d) (v4 a' b' c' d') = a == a' && b == b' && c == c' && d == d'
ip_beq (v4 a b c d) (v6 s') = false
ip_beq (v6 s) (v4 a' b' c' d') = false
ip_beq (v6 s) (v6 s') = list_beq s s'

pub ip_beq_iff : (x y : IpAddr) → (ip_beq x y ≡ true) ↔ (x ≡ y)
ip_beq_iff (v4 a b c d) (v4 a' b' c' d') = (λ h. ground arith, λ h. ground arith)
ip_beq_iff (v4 a b c d) (v6 s') = (λ h. cc, λ h. cc)
ip_beq_iff (v6 s) (v4 a' b' c' d') = (λ h. cc, λ h. cc)
ip_beq_iff (v6 s) (v6 s') =
    (λ h. ground (arith, list_beq_iff s s'), λ h. ground (arith, list_beq_iff s s'))

abbrev pub addr_beq : SocketAddr → SocketAddr → Bool
addr_beq x y = ip_beq x.ip y.ip && x.port == y.port

pub addr_beq_iff : (x y : SocketAddr) → (addr_beq x y ≡ true) ↔ (x ≡ y)
addr_beq_iff x y =
    (λ h. ground (arith, ip_beq_iff x.ip y.ip), λ h. ground (arith, ip_beq_iff x.ip y.ip))

instance abbrev pub addr_eq : Eq SocketAddr
addr_eq = record { test = addr_beq; test_iff = addr_beq_iff }

pub data EndpointKind : Type 0 where
  lan public ipv6 loopback : EndpointKind

-- `Ipv4Addr::is_loopback` and `is_private`.
abbrev v4_is_loopback : ℕ → Bool
v4_is_loopback a = a == 127

abbrev v4_is_private : ℕ → ℕ → Bool
v4_is_private a b = a == 10 || (a == 172 && leb 16 b && leb b 31) || (a == 192 && b == 168)

-- `Ipv6Addr::is_loopback` and `is_unicast_link_local`.
abbrev v6_is_loopback : List ℕ → Bool
v6_is_loopback s = list_beq s (0 ∷ 0 ∷ 0 ∷ 0 ∷ 0 ∷ 0 ∷ 0 ∷ 1 ∷ [])

abbrev v6_is_unicast_link_local : List ℕ → Bool
v6_is_unicast_link_local s = bit_and (get_or s 0 0) 0xffc0 == 0xfe80

unfoldable pub classify_ip : IpAddr → EndpointKind
classify_ip (v4 a b c d) =
    if v4_is_loopback a then loopback else if v4_is_private a b then lan else public
classify_ip (v6 s) =
    if v6_is_loopback s
    then loopback
    else if v6_is_unicast_link_local s || bit_and (get_or s 0 0) 0xffc0 == 0xfc00
    then lan
    else ipv6

unfoldable pub classify : SocketAddr → EndpointKind
unfolding classify_ip
classify a = classify_ip a.ip

pub data DiscoverySource : Type 0 where
  dht lpd peer_cache seed pex mqtt : DiscoverySource

pub record NodeEndpoint : Type 0 where
  pub addr : SocketAddr
  pub kind : EndpointKind
  pub source : DiscoverySource
  pub last_success : ℕ
  pub success_count : ℕ
  pub fail_count : ℕ
  pub latency_ms : Option ℕ

abbrev pub kind_weight : EndpointKind → ℕ
kind_weight loopback = 0
kind_weight lan = 1
kind_weight public = 2
kind_weight ipv6 = 3

unfoldable pub priority_weight : NodeEndpoint → ℕ
priority_weight e = kind_weight e.kind

-- `<` on `Option<u32>`: `None` comes first.
abbrev pub lt_latency : Option ℕ → Option ℕ → Bool
lt_latency none none = false
lt_latency none (some y) = true
lt_latency (some x) none = false
lt_latency (some x) (some y) = ltb x y

abbrev pub eq_latency : Option ℕ → Option ℕ → Bool
eq_latency none none = true
eq_latency none (some y) = false
eq_latency (some x) none = false
eq_latency (some x) (some y) = x == y

-- The comparison of `best_endpoint` gives `Less`: by weight, by latency, by successes downwards.
unfoldable pub better : NodeEndpoint → NodeEndpoint → Bool
unfolding priority_weight
better a b =
    ltb (priority_weight a) (priority_weight b)
    || (priority_weight a == priority_weight b
        && (lt_latency a.latency_ms b.latency_ms
            || (eq_latency a.latency_ms b.latency_ms && ltb b.success_count a.success_count)))

-- `min_by`: the first of the least elements.
abbrev pub pick : NodeEndpoint → Option NodeEndpoint → Option NodeEndpoint
pick e none = some e
pick e (some b) = if better b e then some b else some e

unfoldable pub best_endpoint : List NodeEndpoint → Option NodeEndpoint
best_endpoint [] = none
best_endpoint (e ∷ es) =
    let rest = best_endpoint es in if ltb e.fail_count 20 then pick e rest else rest

pub record Groups : Type 0 where
  pub loopbacks : List SocketAddr
  pub lans : List SocketAddr
  pub publics : List SocketAddr

abbrev push_group : EndpointKind → SocketAddr → Groups → Groups
push_group loopback a g = record g { loopbacks = a ∷ g.loopbacks }
push_group lan a g = record g { lans = a ∷ g.lans }
push_group public a g = record g { publics = a ∷ g.publics }
push_group ipv6 a g = record g { publics = a ∷ g.publics }

-- Each address goes to the group of its class; within a group the order is kept.
unfoldable pub group_endpoints : List SocketAddr → Groups
group_endpoints [] = record { loopbacks = []; lans = []; publics = [] }
group_endpoints (a ∷ more) = push_group (classify a) a (group_endpoints more)

abbrev pub is_empty {ℓ} : {A : Type ℓ} → List A → Bool
is_empty [] = true
is_empty (x ∷ xs) = false

unfoldable pub select_preferred_addrs : List SocketAddr → List SocketAddr
unfolding group_endpoints
select_preferred_addrs addrs =
    let g = group_endpoints addrs in
    if is_empty g.loopbacks then (if is_empty g.lans then addrs else g.lans) else g.loopbacks

unfoldable pub fallback_addrs : List SocketAddr → List SocketAddr
unfolding group_endpoints
fallback_addrs addrs =
    let g = group_endpoints addrs in
    if is_empty g.loopbacks
    then (if is_empty g.lans then [] else g.publics)
    else g.lans ++ g.publics
