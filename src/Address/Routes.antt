-- ===== src/Address/Routes.antt =====
-- The three-tier choice of addresses, types.rs: what is preferred, and what is left to fall back on.
use pnos_sdk.Base.{
  ℕ, ◌<◌, ◌≡◌, ◌≢◌, ◌⊎◌, inl, inr, refl, ap, if◌then◌else◌, All-append, List, [], ◌∷◌, ◌++◌, arith,
  All,
}
use pnos_sdk.Address.{
  SocketAddr, EndpointKind, lan, public, ipv6, loopback, classify, Groups, push_group, is_empty,
  group_endpoints, select_preferred_addrs, fallback_addrs,
}
use mathlib.Core.List.{Perm, perm_middle, append-nil, append_assoc}
use mathlib.Core.List.Perm

-- The tier of an address: this machine, the local network, all else.
abbrev pub tier_of : EndpointKind → ℕ
tier_of loopback = 0
tier_of lan = 1
tier_of public = 2
tier_of ipv6 = 2

abbrev pub tier : SocketAddr → ℕ
tier a = tier_of (classify a)

abbrev pub joined : Groups → List SocketAddr
joined g = g.loopbacks ++ (g.lans ++ g.publics)

-- Each group holds the addresses of its tier.
record IsSorted (g : Groups) : Type 0 where
  zero_tier : All (λ a. tier a ≡ 0) g.loopbacks
  one_tier : All (λ a. tier a ≡ 1) g.lans
  two_tier : All (λ a. tier a ≡ 2) g.publics

push_group-IsSorted :
    (k : EndpointKind) (a : SocketAddr) (g : Groups)
    → classify a ≡ k
    → IsSorted g
    → IsSorted (push_group k a g)
push_group-IsSorted loopback a g e h = record {
  zero_tier = (ap tier_of e, h.zero_tier);
  one_tier = h.one_tier;
  two_tier = h.two_tier;
}
push_group-IsSorted lan a g e h = record {
  zero_tier = h.zero_tier;
  one_tier = (ap tier_of e, h.one_tier);
  two_tier = h.two_tier;
}
push_group-IsSorted public a g e h = record {
  zero_tier = h.zero_tier;
  one_tier = h.one_tier;
  two_tier = (ap tier_of e, h.two_tier);
}
push_group-IsSorted ipv6 a g e h = record {
  zero_tier = h.zero_tier;
  one_tier = h.one_tier;
  two_tier = (ap tier_of e, h.two_tier);
}

group_endpoints-IsSorted : (addrs : List SocketAddr) → IsSorted (group_endpoints addrs)
unfolding group_endpoints
group_endpoints-IsSorted [] = record { zero_tier = tt; one_tier = tt; two_tier = tt }
group_endpoints-IsSorted (a ∷ more) =
    push_group-IsSorted (classify a) a (group_endpoints more) refl (group_endpoints-IsSorted more)

middle_of_three :
    (a : SocketAddr) (l m r : List SocketAddr) → Perm (l ++ (m ++ a ∷ r)) (a ∷ (l ++ (m ++ r)))
middle_of_three a l m r = simp append_assoc at (perm_middle {a = a} (l ++ m) r)

push_group-perm :
    (k : EndpointKind) (a : SocketAddr) (g : Groups)
    → Perm (joined (push_group k a g)) (a ∷ joined g)
push_group-perm loopback a g = Perm.refl _
push_group-perm lan a g = perm_middle g.loopbacks (g.lans ++ g.publics)
push_group-perm public a g = middle_of_three a g.loopbacks g.lans g.publics
push_group-perm ipv6 a g = middle_of_three a g.loopbacks g.lans g.publics

group_endpoints-perm : (addrs : List SocketAddr) → Perm (joined (group_endpoints addrs)) addrs
unfolding group_endpoints
group_endpoints-perm [] = Perm.refl _
group_endpoints-perm (a ∷ more) =
    Perm.trans (push_group-perm (classify a) a (group_endpoints more))
      (Perm.cons a (group_endpoints-perm more))

-- The choice over the three groups.
abbrev preferred_of : (l m p addrs : List SocketAddr) → List SocketAddr
preferred_of l m p addrs = if is_empty l then (if is_empty m then addrs else m) else l

abbrev fallback_of : (l m p : List SocketAddr) → List SocketAddr
fallback_of l m p = if is_empty l then (if is_empty m then [] else p) else m ++ p

choice-perm :
    (l m p addrs : List SocketAddr)
    → Perm (l ++ (m ++ p)) addrs
    → Perm (preferred_of l m p addrs ++ fallback_of l m p) addrs
choice-perm (x ∷ l) m p addrs h = h
choice-perm [] (x ∷ m) p addrs h = h
choice-perm [] [] p addrs h = rw append-nil (Perm.refl addrs)

select_preferred_addrs-fallback_addrs-perm :
    (addrs : List SocketAddr) → Perm (select_preferred_addrs addrs ++ fallback_addrs addrs) addrs
unfolding select_preferred_addrs fallback_addrs
select_preferred_addrs-fallback_addrs-perm addrs =
    let g = group_endpoints addrs in
    choice-perm g.loopbacks g.lans g.publics addrs (group_endpoints-perm addrs)

-- All addresses of the first list are of one tier, and those of the second of later tiers.
pub record IsTiered (first second : List SocketAddr) : Type 0 where
  pub best : ℕ
  pub first_best : All (λ a. tier a ≡ best) first
  pub second_later : All (λ b. best < tier b) second

push_group_public :
    (k : EndpointKind) (a : SocketAddr) (g : Groups)
    → (push_group k a g).loopbacks ≡ []
    → (push_group k a g).lans ≡ []
    → (tier_of k ≡ 2) × (g.loopbacks ≡ []) × (g.lans ≡ [])
push_group_public loopback a g p q = cc
push_group_public lan a g p q = cc
push_group_public public a g p q = (refl, p, q)
push_group_public ipv6 a g p q = (refl, p, q)

only_public :
    (addrs : List SocketAddr)
    → (group_endpoints addrs).loopbacks ≡ []
    → (group_endpoints addrs).lans ≡ []
    → All (λ a. tier a ≡ 2) addrs
unfolding group_endpoints
only_public [] p q = tt
only_public (a ∷ more) p q =
    let (t, p', q') = push_group_public (classify a) a (group_endpoints more) p q in
    (t, only_public more p' q')

-- A tier below another, on all of a list.
All-later :
    (s t : ℕ) (xs : List SocketAddr) → s < t → All (λ a. tier a ≡ t) xs → All (λ a. s < tier a) xs
All-later s t [] h k = tt
All-later s t (x ∷ xs) h k = (rw k.0 h, All-later s t xs h k.1)

choice-IsTiered :
    (l m p addrs : List SocketAddr)
    → IsSorted (record { loopbacks = l; lans = m; publics = p })
    → (l ≡ [] → m ≡ [] → All (λ a. tier a ≡ 2) addrs)
    → IsTiered (preferred_of l m p addrs) (fallback_of l m p)
choice-IsTiered (x ∷ l) m p addrs h k = record {
  best = 0;
  first_best = h.zero_tier;
  second_later =
      All-append _ m p (All-later 0 1 m (omega arith) h.one_tier)
        (All-later 0 2 p (omega arith) h.two_tier);
}
choice-IsTiered [] (x ∷ m) p addrs h k = record {
  best = 1;
  first_best = h.one_tier;
  second_later = All-later 1 2 p (omega arith) h.two_tier;
}
choice-IsTiered [] [] p addrs h k = record { best = 2; first_best = k refl refl; second_later = tt }

select_preferred_addrs-IsTiered :
    (addrs : List SocketAddr) → IsTiered (select_preferred_addrs addrs) (fallback_addrs addrs)
unfolding select_preferred_addrs fallback_addrs
select_preferred_addrs-IsTiered addrs =
    let g = group_endpoints addrs in
    choice-IsTiered g.loopbacks g.lans g.publics addrs (group_endpoints-IsSorted addrs)
      (only_public addrs)

choice-ne-nil : (l m p addrs : List SocketAddr) → addrs ≢ [] → preferred_of l m p addrs ≢ []
choice-ne-nil (x ∷ l) m p addrs h = λ e. cc
choice-ne-nil [] (x ∷ m) p addrs h = λ e. cc
choice-ne-nil [] [] p addrs h = h

select_preferred_addrs-ne-nil :
    (addrs : List SocketAddr) → addrs ≢ [] → select_preferred_addrs addrs ≢ []
unfolding select_preferred_addrs
select_preferred_addrs-ne-nil addrs h =
    let g = group_endpoints addrs in choice-ne-nil g.loopbacks g.lans g.publics addrs h

-- The preferred addresses followed by those to fall back on are the given ones in some order, each as
-- often; all preferred ones are of one tier (this machine, the local network, or all else), and all
-- others are of later tiers; and where there is an address, there is a preferred one.
pub preferred_and_fallback :
    (addrs : List SocketAddr)
    → Perm (select_preferred_addrs addrs ++ fallback_addrs addrs) addrs
      × IsTiered (select_preferred_addrs addrs) (fallback_addrs addrs)
      × ((addrs ≡ []) ⊎ (select_preferred_addrs addrs ≢ []))
preferred_and_fallback addrs = (
  select_preferred_addrs-fallback_addrs-perm addrs,
  select_preferred_addrs-IsTiered addrs,
  some_preferred addrs,
)
  where
    some_preferred : (l : List SocketAddr) → (l ≡ []) ⊎ (select_preferred_addrs l ≢ [])
    some_preferred [] = inl refl
    some_preferred (a ∷ more) = inr (select_preferred_addrs-ne-nil (a ∷ more) (λ e. cc))
