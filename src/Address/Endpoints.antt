-- ===== src/Address/Endpoints.antt =====
-- The choice of the best endpoint of a node, types.rs.
use pnos_sdk.Base.{
  ℕ, suc, ◌≤◌, ◌==◌, ◌<◌, ◌≡◌, ◌⊎◌, refl, true, false, List, [], ◌∷◌, Option, none, some, ltb,
  arith, All, Bool-cases, inl, inr,
}
use pnos_sdk.Address.{
  EndpointKind, loopback, lan, public, ipv6, NodeEndpoint, kind_weight, priority_weight, lt_latency,
  eq_latency, better, pick, best_endpoint,
}

abbrev pub IsUsable : NodeEndpoint → Type 0
IsUsable e = e.fail_count < 20

-- `best` is usable, and no usable endpoint of the list is better.
abbrev Beats : NodeEndpoint → List NodeEndpoint → Type 0
Beats best es = All (λ e. IsUsable e → better e best ≡ false) es

abbrev pub OneOf : NodeEndpoint → List NodeEndpoint → Type 0
OneOf e [] = ⊥
OneOf e (x ∷ xs) = (e ≡ x) ⊎ OneOf e xs

better_trans : (a b c : NodeEndpoint) → better a b ≡ false → better b c ≡ false → better a c ≡ false
unfolding better
better_trans a b c h k = ground arith

better_irrefl : (a : NodeEndpoint) → better a a ≡ false
unfolding better
better_irrefl a = ground arith

better_asym : (a b : NodeEndpoint) → better a b ≡ true → better b a ≡ false
unfolding better
better_asym a b h = ground arith

-- What is said of the chosen endpoint.
record IsBest (best : NodeEndpoint) (es : List NodeEndpoint) : Type 0 where
  usable : IsUsable best
  listed : OneOf best es
  unbeaten : Beats best es

abbrev BestOf : Option NodeEndpoint → List NodeEndpoint → Type 0
BestOf none es = All (λ e. ¬ IsUsable e) es
BestOf (some best) es = IsBest best es

Beats-trans :
    (a b : NodeEndpoint) (es : List NodeEndpoint) → better b a ≡ false → Beats b es → Beats a es
Beats-trans a b [] h k = tt
Beats-trans a b (e ∷ es) h k = (λ u. better_trans e b a (k.0 u) h, Beats-trans a b es h k.1)

Beats-unusable :
    (a : NodeEndpoint) (es : List NodeEndpoint) → All (λ e. ¬ IsUsable e) es → Beats a es
Beats-unusable a [] h = tt
Beats-unusable a (e ∷ es) h = (λ u. absurd (h.0 u), Beats-unusable a es h.1)

pick-BestOf :
    (e : NodeEndpoint) (es : List NodeEndpoint) (o : Option NodeEndpoint)
    → IsUsable e
    → BestOf o es
    → BestOf (pick e o) (e ∷ es)
pick-BestOf e es none u h = record {
  usable = u;
  listed = inl refl;
  unbeaten = (λ _. better_irrefl e, Beats-unusable e es h);
}
pick-BestOf e es (some b) u h = elim (Bool-cases (better b e)) [
  | inl wins ↦ rw wins (record {
    usable = h.usable;
    listed = inr h.listed;
    unbeaten = (λ _. better_asym b e wins, h.unbeaten);
  })
  | inr loses ↦ rw loses (record {
    usable = u;
    listed = inl refl;
    unbeaten = (λ _. better_irrefl e, Beats-trans e b es loses h.unbeaten);
  })
]

skip-BestOf :
    (e : NodeEndpoint) (es : List NodeEndpoint) (o : Option NodeEndpoint)
    → ¬ IsUsable e
    → BestOf o es
    → BestOf o (e ∷ es)
skip-BestOf e es none u h = (u, h)
skip-BestOf e es (some b) u h = record {
  usable = h.usable;
  listed = inr h.listed;
  unbeaten = (λ v. absurd (u v), h.unbeaten);
}

-- The places of the kinds: the own host, the local network, then the public addresses.
abbrev pub place : EndpointKind → ℕ
place loopback = 0
place lan = 1
place public = 2
place ipv6 = 3

-- No latency counts as least.
abbrev pub delay : Option ℕ → ℕ
delay none = 0
delay (some x) = suc x

-- One endpoint may stand in front of another: by the place of its kind; of the same kind, by the
-- latency, where none measured is least; and of the same latency, by the successes downwards.
abbrev pub InOrder : NodeEndpoint → NodeEndpoint → Type 0
InOrder a b =
    (place a.kind < place b.kind)
    ⊎ ((place a.kind ≡ place b.kind)
        × ((delay a.latency_ms < delay b.latency_ms)
            ⊎ ((delay a.latency_ms ≡ delay b.latency_ms) × (b.success_count ≤ a.success_count))))

-- What is said of the chosen endpoint, if there is one.
abbrev pub IsFirst : Option NodeEndpoint → List NodeEndpoint → Type 0
IsFirst none es = All (λ e. ¬ IsUsable e) es
IsFirst (some best) es = IsUsable best × OneOf best es × All (λ e. IsUsable e → InOrder best e) es

kind_weight-place : (k : EndpointKind) → kind_weight k ≡ place k
kind_weight-place loopback = refl
kind_weight-place lan = refl
kind_weight-place public = refl
kind_weight-place ipv6 = refl

lt_latency-delay : (x y : Option ℕ) → lt_latency x y ≡ ltb (delay x) (delay y)
lt_latency-delay none none = refl
lt_latency-delay none (some y) = ground arith
lt_latency-delay (some x) none = ground arith
lt_latency-delay (some x) (some y) = ground arith

eq_latency-delay : (x y : Option ℕ) → eq_latency x y ≡ (delay x == delay y)
eq_latency-delay none none = refl
eq_latency-delay none (some y) = ground arith
eq_latency-delay (some x) none = ground arith
eq_latency-delay (some x) (some y) = ground arith

better-InOrder : (e best : NodeEndpoint) → better e best ≡ false → InOrder best e
unfolding better priority_weight
better-InOrder e best h = ground (
  arith,
  h,
  kind_weight-place e.kind,
  kind_weight-place best.kind,
  lt_latency-delay e.latency_ms best.latency_ms,
  eq_latency-delay e.latency_ms best.latency_ms,
)

Beats-InOrder :
    (best : NodeEndpoint) (es : List NodeEndpoint)
    → Beats best es
    → All (λ e. IsUsable e → InOrder best e) es
Beats-InOrder best [] h = tt
Beats-InOrder best (e ∷ es) h = (λ u. better-InOrder e best (h.0 u), Beats-InOrder best es h.1)

BestOf-IsFirst : (o : Option NodeEndpoint) (es : List NodeEndpoint) → BestOf o es → IsFirst o es
BestOf-IsFirst none es h = h
BestOf-IsFirst (some best) es h = (h.usable, h.listed, Beats-InOrder best es h.unbeaten)

best_endpoint-BestOf : (es : List NodeEndpoint) → BestOf (best_endpoint es) es
unfolding best_endpoint
best_endpoint-BestOf [] = tt
best_endpoint-BestOf (e ∷ es) = elim (Bool-cases (ltb e.fail_count 20)) [
  | inl few ↦ rw few (pick-BestOf e es (best_endpoint es) (ground arith) (best_endpoint-BestOf es))
  | inr many ↦
      rw many (skip-BestOf e es (best_endpoint es) (λ u. ground arith) (best_endpoint-BestOf es))
]

-- The best endpoint is one of the list with fewer than twenty failures in a row, and every such
-- endpoint of the list comes after it or is as good: its kind is not before it in the order of the own
-- host, the local network, public IPv4 and public IPv6; of the same kind, its latency is not less,
-- where none measured counts as least; of the same latency, it has no more successes. There is no best
-- endpoint only if every endpoint of the list has failed twenty times or more.
pub best_endpoint-IsFirst : (es : List NodeEndpoint) → IsFirst (best_endpoint es) es
best_endpoint-IsFirst es = BestOf-IsFirst (best_endpoint es) es (best_endpoint-BestOf es)
