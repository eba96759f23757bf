-- ===== src/PeerCache/Pruning.antt =====
-- What `prune` of peer_cache.rs keeps.
use pnos_sdk.Base.{
  ℕ, ◌+◌, ◌*◌, ◌-◌, ◌%◌, ◌^◌, ◌≤◌, ◌<◌, ltb→lt, ◌≡◌, refl, sym, ap, ◌⊎◌, inl, inr, Bool, true,
  false, not, List, [], ◌∷◌, ◌++◌, map, ltb, if◌then◌else◌, length, length-take, min, take, drop,
  take-append-drop, All, arith,
}
use pnos_sdk.Base.Sort.{sort_by, sort_by-sorted, All-sort_by, InFrontOf, take-InFrontOf-drop}
use pnos_sdk.Base.Partition.{keep, keep-perm, All-keep, take-sort-keep-perm}
use mathlib.Core.Path.{subst}
use mathlib.Core.List.{Perm}
use pnos_sdk.PeerCache.{
  CachedEndpoint, CachedNode, PeerCache, few_failures, trim, any_success, total_success, is_kept,
  kept, more_success, prune,
}

-- The node is as before, less its endpoints that failed twenty times in a row or more.
abbrev pub IsTrimOf : CachedNode → CachedNode → Type 0
IsTrimOf n t =
    (t ≡ record n { endpoints = t.endpoints })
    × All (λ e. e.fail_count < 20) t.endpoints
    × ((gone : List CachedEndpoint) × Perm (t.endpoints ++ gone) n.endpoints
        × All (λ e. 20 ≤ e.fail_count) gone)

abbrev pub AreTrimsOf : List CachedNode → List CachedNode → Type 0
AreTrimsOf [] [] = Unit
AreTrimsOf [] (t ∷ ts) = ⊥
AreTrimsOf (n ∷ ns) [] = ⊥
AreTrimsOf (n ∷ ns) (t ∷ ts) = IsTrimOf n t × AreTrimsOf ns ts

abbrev pub HasSuccess : List CachedEndpoint → Type 0
HasSuccess [] = ⊥
HasSuccess (e ∷ more) = (0 < e.success_count) ⊎ HasSuccess more

-- An endpoint was successful once, and the node was seen within seven days.
abbrev pub IsAlive : ℕ → CachedNode → Type 0
IsAlive now n = HasSuccess n.endpoints × (now - n.last_seen < 7 * 24 * 3600)

abbrev pub successes : List CachedEndpoint → ℕ
successes [] = 0
successes (e ∷ more) = e.success_count + successes more

-- What a pruning makes of the nodes: they are trimmed, and those that are dead then are left out; of
-- the others as many are kept as there is room for, and the rest have no more successes than these.
pub record IsPruned (now max_nodes : ℕ) (before after : List CachedNode) : Type 0 where
  pub trimmed : List CachedNode
  pub trims : AreTrimsOf before trimmed
  pub rest : List CachedNode
  pub dead : List CachedNode
  pub parts : Perm ((after ++ rest) ++ dead) trimmed
  pub all_alive : All (IsAlive now) (after ++ rest)
  pub all_dead : All (λ n. ¬ IsAlive now n) dead
  pub full : length after ≡ min max_nodes (length (after ++ rest))
  pub best :
      All
        (λ n. All (λ x. successes x.endpoints % 2 ^ 32 ≤ successes n.endpoints % 2 ^ 32) rest)
        after

few_failures-keep :
    (es : List CachedEndpoint) → few_failures es ≡ keep (λ e. ltb e.fail_count 20) es
few_failures-keep [] = refl
few_failures-keep (e ∷ more) =
    ap (λ l. if ltb e.fail_count 20 then e ∷ l else l) (few_failures-keep more)

kept-keep : (now : ℕ) (ns : List CachedNode) → kept now ns ≡ keep (is_kept now) ns
kept-keep now [] = refl
kept-keep now (n ∷ more) = ap (λ l. if is_kept now n then n ∷ l else l) (kept-keep now more)

total_success-successes : (es : List CachedEndpoint) → total_success es ≡ successes es % 2 ^ 32
total_success-successes [] = omega arith
total_success-successes (e ∷ more) = omega (arith, total_success-successes more)

trim-IsTrimOf : (n : CachedNode) → IsTrimOf n (trim n)
unfolding trim
trim-IsTrimOf n =
    let few : CachedEndpoint → Bool = λ e. ltb e.fail_count 20 in
    let same = few_failures-keep n.endpoints in
    (
      refl,
      subst (All (λ e. e.fail_count < 20)) (sym same)
          (All-keep (λ e. e.fail_count < 20) few (λ e h. ltb→lt _ _ h) n.endpoints),
      (
        keep (λ e. not (few e)) n.endpoints,
        subst (λ l. Perm (l ++ keep (λ e. not (few e)) n.endpoints) n.endpoints) (sym same)
            (keep-perm few n.endpoints),
        All-keep (λ e. 20 ≤ e.fail_count) (λ e. not (few e)) (λ e h. ground (arith, h)) n.endpoints,
      ),
    )

map-trim-AreTrimsOf : (ns : List CachedNode) → AreTrimsOf ns (map trim ns)
map-trim-AreTrimsOf [] = tt
map-trim-AreTrimsOf (n ∷ ns) = (trim-IsTrimOf n, map-trim-AreTrimsOf ns)

any_success-HasSuccess :
    (es : List CachedEndpoint)
    → (any_success es ≡ true → HasSuccess es) × (any_success es ≡ false → ¬ HasSuccess es)
any_success-HasSuccess [] = (λ h. absurd (ground (arith, h)), λ h x. x)
any_success-HasSuccess (e ∷ more) =
    let (yes_, no_) = any_success-HasSuccess more in
    (
      λ h. ground (arith, h, yes_),
      λ h x. elim x [
        | inl first ↦ ground (arith, h, first)
        | inr later ↦ no_ (ground (arith, h)) later
      ],
    )

is_kept-IsAlive :
    (now : ℕ) (n : CachedNode)
    → (is_kept now n ≡ true → IsAlive now n) × (not (is_kept now n) ≡ true → ¬ IsAlive now n)
unfolding is_kept
is_kept-IsAlive now n =
    let (yes_, no_) = any_success-HasSuccess n.endpoints in
    (
      λ h. (yes_ (ground (arith, h)), ground (arith, h)),
      λ h alive. no_ (ground (arith, h, alive.1)) alive.0,
    )

more_success_trans :
    (a b c : CachedNode)
    → more_success b a ≡ false
    → more_success c b ≡ false
    → more_success c a ≡ false
more_success_trans a b c h k = ground (arith, h, k)

more_success_asym : (a b : CachedNode) → more_success a b ≡ true → more_success b a ≡ false
more_success_asym a b h = ground (arith, h)

All-no_more :
    (n : CachedNode) (rest : List CachedNode)
    → All (λ x. more_success x n ≡ false) rest
    → All (λ x. successes x.endpoints % 2 ^ 32 ≤ successes n.endpoints % 2 ^ 32) rest
All-no_more n [] h = tt
All-no_more n (x ∷ rest) h = (
  omega (
    arith,
    total_success-successes x.endpoints,
    total_success-successes n.endpoints,
    ltb-not _ _ h.0,
  ),
  All-no_more n rest h.1,
)
  where
    ltb-not : (a b : ℕ) → ltb a b ≡ false → b ≤ a
    ltb-not a b h = ground (arith, h)

InFrontOf-no_more :
    (after rest : List CachedNode)
    → InFrontOf more_success after rest
    → All
        (λ n. All (λ x. successes x.endpoints % 2 ^ 32 ≤ successes n.endpoints % 2 ^ 32) rest)
        after
InFrontOf-no_more [] rest h = tt
InFrontOf-no_more (n ∷ after) rest h = (All-no_more n rest h.0, InFrontOf-no_more after rest h.1)

take-full :
    (n : ℕ) (xs : List CachedNode) → length (take n xs) ≡ min n (length (take n xs ++ drop n xs))
take-full n xs = omega (arith, length-take n xs, ap length (take-append-drop n xs))

module _ (now max_nodes : ℕ) (ns : List CachedNode) where
  sorted : List CachedNode
  sorted = sort_by more_success (keep (is_kept now) ns)

  sorted-IsAlive : All (IsAlive now) sorted
  unfolding sorted
  sorted-IsAlive =
      All-sort_by more_success (IsAlive now) (keep (is_kept now) ns)
        (All-keep (IsAlive now) (is_kept now) (λ n h. (is_kept-IsAlive now n).0 h) ns)

  take-IsPruned :
      (before : List CachedNode)
      → AreTrimsOf before ns
      → IsPruned now max_nodes before (take max_nodes sorted)
  unfolding sorted
  take-IsPruned before trims = record {
    trimmed = ns;
    trims = trims;
    rest = drop max_nodes sorted;
    dead = keep (λ n. not (is_kept now n)) ns;
    parts = take-sort-keep-perm more_success (is_kept now) max_nodes ns;
    all_alive = subst (All (IsAlive now)) (sym (take-append-drop max_nodes sorted)) sorted-IsAlive;
    all_dead =
        All-keep (λ n. ¬ IsAlive now n) (λ n. not (is_kept now n))
          (λ n h. (is_kept-IsAlive now n).1 h) ns;
    full = take-full max_nodes sorted;
    best = InFrontOf-no_more _ _ (
        take-InFrontOf-drop more_success max_nodes sorted (
          sort_by-sorted more_success more_success_trans more_success_asym
            (keep (is_kept now) ns)));
  }

-- A pruning takes the endpoints that failed twenty times in a row or more out of every node, and
-- changes nothing else of a node. Of the nodes that then have an endpoint with a success and were
-- seen within seven days, as many are kept as asked for, or all if there are no more than that; all
-- other nodes are left out. A node that is left out for lack of room has in total no more successes
-- than any that is kept. The total is taken modulo 2^32.
pub prune-best :
    (now max_nodes : ℕ) (c : PeerCache)
    → IsPruned now max_nodes c.nodes (prune now max_nodes c).nodes
unfolding prune sorted
prune-best now max_nodes c =
    rw (kept-keep now (map trim c.nodes))
      (take-IsPruned now max_nodes (map trim c.nodes) c.nodes (map-trim-AreTrimsOf c.nodes))
