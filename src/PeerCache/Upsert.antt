-- ===== src/PeerCache/Upsert.antt =====
-- What `upsert` of peer_cache.rs does to the endpoint of each node and address.
use pnos_sdk.Base.{
  ℕ, suc, min, ◌≡◌, refl, sym, ap, ◌∙◌, Bool, true, false, ◌&&◌, List, [], ◌∷◌, Option, none, some,
  if◌then◌else◌, Bool-cases, inl, inr, arith, list_beq, Eq, list_eq,
}
use pnos_sdk.NodeId.{NodeId, node_beq, node_beq_iff, node_eq}
use pnos_sdk.Address.{SocketAddr}
use pnos_sdk.PeerCache.{
  Kind, CachedEndpoint, CachedNode, PeerCache, fresh, inc32, used, update_first, upsert_endpoint,
  upsert_node, new_node, upsert_nodes, upsert, classify_addr_string,
}

abbrev pub find_first {ℓ} : {A : Type ℓ} → (A → Bool) → List A → Option A
find_first test [] = none
find_first test (x ∷ xs) = if test x then some x else find_first test xs

abbrev pub changed {ℓ} : {A : Type ℓ} → (A → A) → A → Option A → A
changed change new none = new
changed change new (some x) = change x

module _ {A K : Type 0} (eq : Eq K) (key : A → K) (change : A → A)
    (keeps : (x : A) → key (change x) ≡ key x) where
  with_key : K → A → Bool
  with_key k x = eq.test (key x) k

  -- The element of a key, behind an update of the element of a key.
  find_first-update_first :
      (k q : K) (new : A) (xs : List A)
      → key new ≡ k
      → find_first (λ x. eq.test (key x) q) (update_first (λ x. eq.test (key x) k) change new xs)
        ≡ (if eq.test k q
            then some (changed change new (find_first (λ x. eq.test (key x) k) xs))
            else find_first (λ x. eq.test (key x) q) xs)
  find_first-update_first k q new [] e = rw e refl
  find_first-update_first k q new (x ∷ xs) e = elim (Bool-cases (eq.test (key x) k)) [
    | inl here ↦
        let agree : eq.test (key x) q ≡ eq.test k q =
          ap (λ z. eq.test z q) ((eq.test_iff (key x) k).0 here) in
        rw (here, keeps x, agree)
          (both (eq.test k q) (some (change x)) (some x) (find_first (λ x. eq.test (key x) q) xs))
    | inr other ↦
        rw (other, find_first-update_first k q new xs e)
          (elim (Bool-cases (eq.test k q)) [
            | inl is_q ↦
                let apart : eq.test (key x) q ≡ false =
                  ap (eq.test (key x)) (sym ((eq.test_iff k q).0 is_q)) ∙ other in
                rw (is_q, apart) refl
            | inr not_q ↦ rw not_q refl
          ])
  ]
    where
      both :
          (b : Bool) (u v w : Option A)
          → (if b then u else w) ≡ (if b then u else (if b then v else w))
      both true u v w = refl
      both false u v w = refl

abbrev pub find_node : NodeId → List CachedNode → Option CachedNode
find_node id = find_first (λ n. node_beq n.node_id id)

abbrev pub find_endpoint : List ℕ → List CachedEndpoint → Option CachedEndpoint
find_endpoint addr = find_first (λ e. list_beq e.addr addr)

abbrev in_node : List ℕ → Option CachedNode → Option CachedEndpoint
in_node addr none = none
in_node addr (some n) = find_endpoint addr n.endpoints

-- The endpoint that the cache has for a node and an address.
abbrev pub endpoint_of : NodeId → List ℕ → PeerCache → Option CachedEndpoint
endpoint_of id addr c = in_node addr (find_node id c.nodes)

find_endpoint-upsert_endpoint :
    (addr b : List ℕ) (kind : Kind) (success : Bool) (now : ℕ) (es : List CachedEndpoint)
    → find_endpoint b (upsert_endpoint addr kind success now es) ≡ (
        if list_beq addr b
        then some (changed (used success now) (fresh addr kind success now) (find_endpoint addr es))
        else find_endpoint b es)
unfolding upsert_endpoint used
find_endpoint-upsert_endpoint addr b kind success now es =
    find_first-update_first list_eq (λ e. e.addr) (used success now) (λ e. refl) addr b _ es refl

find_node-upsert_nodes :
    (id q : NodeId) (addr : List ℕ) (kind : Kind) (success : Bool) (now : ℕ) (ns : List CachedNode)
    → find_node q (upsert_nodes id addr kind success now ns) ≡ (
        if node_beq id q
        then some (
            changed
              (upsert_node addr kind success now)
              (new_node id addr kind success now)
              (find_node id ns))
        else find_node q ns)
unfolding upsert_nodes upsert_node
find_node-upsert_nodes id q addr kind success now ns =
    find_first-update_first node_eq (λ n. n.node_id) (upsert_node addr kind success now) (λ n. refl)
      id q _ ns refl

in_node-changed :
    (id : NodeId) (addr b : List ℕ) (kind : Kind) (success : Bool) (now : ℕ) (o : Option CachedNode)
    → in_node b
        (some (changed (upsert_node addr kind success now) (new_node id addr kind success now) o))
      ≡ (if list_beq addr b
          then some (changed (used success now) (fresh addr kind success now) (in_node addr o))
          else in_node b o)
unfolding upsert_node
in_node-changed id addr b kind success now none = refl
in_node-changed id addr b kind success now (some n) =
    find_endpoint-upsert_endpoint addr b kind success now n.endpoints

-- A further use, as a change of the fields.
abbrev pub counted : Bool → ℕ → CachedEndpoint → CachedEndpoint
counted success now e = record {
  addr = e.addr;
  kind = e.kind;
  last_success = now;
  success_count = if success then min (suc e.success_count) 4294967295 else e.success_count;
  fail_count = if success then 0 else min (suc e.fail_count) 4294967295;
  latency_ms = e.latency_ms;
}

inc32-min : (n : ℕ) → inc32 n ≡ min (suc n) 4294967295
inc32-min n = ground arith

used-counted :
    (success : Bool) (now : ℕ) (e : CachedEndpoint) → used success now e ≡ counted success now e
unfolding used
used-counted true now e =
    ap (λ n. record e { last_success = now; success_count = n; fail_count = 0 })
      (inc32-min e.success_count)
used-counted false now e =
    ap (λ n. record e { last_success = now; fail_count = n }) (inc32-min e.fail_count)

changed-counted :
    (success : Bool) (now : ℕ) (new : CachedEndpoint) (o : Option CachedEndpoint)
    → changed (used success now) new o ≡ changed (counted success now) new o
changed-counted success now new none = refl
changed-counted success now new (some e) = used-counted success now e

in_node-if :
    (b : Bool) (addr : List ℕ) (u v : Option CachedNode)
    → in_node addr (if b then u else v) ≡ (if b then in_node addr u else in_node addr v)
in_node-if true addr u v = refl
in_node-if false addr u v = refl

-- Where the node is the one that is used, the lookup before is the same.
narrow :
    (id q : NodeId) (b : List ℕ) (t : Bool) (u : Option CachedEndpoint) (ns : List CachedNode)
    → (if node_beq id q
        then (if t then u else in_node b (find_node id ns))
        else in_node b (find_node q ns))
      ≡ (if node_beq id q && t then u else in_node b (find_node q ns))
narrow id q b t u ns = elim (Bool-cases (node_beq id q)) [
  | inl same ↦
      rw same (ap (λ k. if t then u else in_node b (find_node k ns)) ((node_beq_iff id q).0 same))
  | inr other ↦ rw other refl
]

-- Recording a use of an address of a node changes the endpoint of that node and address, and no other
-- one: a new endpoint is made if there was none, and otherwise the successes or the consecutive failures
-- are counted up, and the time of the last success is set, also if the use was a failure.
pub endpoint_of-upsert :
    (parse : List ℕ → Option SocketAddr) (id q : NodeId) (addr b : List ℕ) (success : Bool)
    (now : ℕ) (c : PeerCache)
    → endpoint_of q b (upsert parse id addr success now c) ≡ (
        if node_beq id q && list_beq addr b
        then some (
            changed
              (counted success now)
              (fresh addr (classify_addr_string parse addr) success now)
              (endpoint_of id addr c))
        else endpoint_of q b c)
unfolding upsert
endpoint_of-upsert parse id q addr b success now c =
    let kind : Kind = classify_addr_string parse addr in
    let new : CachedEndpoint = fresh addr kind success now in
    ap (in_node b) (find_node-upsert_nodes id q addr kind success now c.nodes)
    ∙ in_node-if (node_beq id q) b _ _
    ∙ ap (λ o. if node_beq id q then o else endpoint_of q b c)
        (in_node-changed id addr b kind success now (find_node id c.nodes)
          ∙ ap (λ e. if list_beq addr b then some e else endpoint_of id b c)
              (changed-counted success now new (endpoint_of id addr c)))
    ∙ narrow id q b (list_beq addr b)
        (some (changed (counted success now) new (endpoint_of id addr c))) c.nodes
