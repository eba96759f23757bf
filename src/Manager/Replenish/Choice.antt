-- ===== src/Manager/Replenish/Choice.antt =====
-- Which candidates `replenish` of session/heartbeat.rs dials.
use mathlib.Core.Path.{subst}
use mathlib.Core.List.{Perm}
use mathlib.Core.List.Perm
use pnos_sdk.Base.{
  ℕ, ap, ◌-◌, ◌≡◌, ◌≢◌, refl, sym, ◌∙◌, min, Bool, true, false, not, List, [], ◌∷◌, ◌++◌, map,
  Option, none, some, leb, ◌==◌, if◌then◌else◌, length, length-take, take, drop, take-append-drop,
  All, arith,
}
use pnos_sdk.Base.Dict.{lookup}
use pnos_sdk.Base.Sort.{
  sort_by, sort_by-perm, sort_by-sorted, All-sort_by, InFrontOf, take-InFrontOf-drop,
}
use pnos_sdk.Base.Partition.{keep, keep-perm, All-keep}
use pnos_sdk.NodeId.{node_eq}
use pnos_sdk.Address.{SocketAddr, is_empty}
use pnos_sdk.Registry.{contains_peer, get_by_peer, len}
use pnos_sdk.Manager.{Manager}
use pnos_sdk.Manager.Policy.{PeerCandidate, PeerPolicy}
use pnos_sdk.Manager.Replenish.{Scored, info, is_eligible, scored, comes_first, target, replenish}
use pnos_sdk.Manager.Replenish.Order.{
  IsRanked, comes_first_trans, comes_first_asym, comes_first-IsRanked,
}

-- A candidate with an address and without a session.
abbrev pub IsEligible : Manager → PeerCandidate → Type 0
IsEligible m c = (c.addrs ≢ []) × (contains_peer c.peer_id m.registry ≡ false)

-- With the score that the policy gives, which is told of no session.
abbrev pub IsRated : PeerPolicy → Manager → Scored → Type 0
IsRated policy m x = IsEligible m x.1 × (x.0 ≡ policy.score x.1 none)

-- How many may be dialed.
abbrev pub room : PeerPolicy → ℕ → Manager → ℕ
room policy max_per_tick m =
    if m.shutting_down
    then 0
    else min (min policy.target_sessions m.cfg.max_sessions - len m.registry) max_per_tick

-- The choice among the candidates: of the eligible ones as many as there is room for, in the order of
-- their ranks.
pub record IsChoice (policy : PeerPolicy) (max_per_tick : ℕ) (m : Manager) (chosen : List Scored)
    : Type 0 where
  pub rest : List Scored
  pub others : List PeerCandidate
  pub parts : Perm (map (λ x. x.1) (chosen ++ rest) ++ others) policy.candidates
  pub rated : All (IsRated policy m) (chosen ++ rest)
  pub unfit : All (λ c. ¬ IsEligible m c) others
  pub full : length chosen ≡ min (room policy max_per_tick m) (length (chosen ++ rest))
  pub best : All (λ x. All (IsRanked x) rest) chosen

is_eligible_lem :
    (m : Manager) (c : PeerCandidate)
    → (is_eligible m c ≡ true → IsEligible m c) × (not (is_eligible m c) ≡ true → ¬ IsEligible m c)
unfolding is_eligible
is_eligible_lem m c = (
  λ h. (
    λ e. let none_there : is_empty c.addrs ≡ true = ap is_empty e in ground (arith, h, none_there),
    ground (arith, h),
  ),
  λ h e. e.0 (is_empty-nil c.addrs (ground (arith, h, e.1))),
)
  where
    is_empty-nil : (addrs : List SocketAddr) → is_empty addrs ≡ true → addrs ≡ []
    is_empty-nil [] h = refl
    is_empty-nil (a ∷ more) h = absurd (ground (arith, h))

module _ (policy : PeerPolicy) (m : Manager) where
  rate : PeerCandidate → Scored
  rate c = (policy.score c (info m (get_by_peer c.peer_id m.registry)), c)

  scored-map : (l : List PeerCandidate) → scored policy m l ≡ map rate (keep (is_eligible m) l)
  unfolding rate
  scored-map [] = refl
  scored-map (c ∷ more) = step (is_eligible m c) (scored-map more)
    where
      step :
          (b : Bool)
          → scored policy m more ≡ map rate (keep (is_eligible m) more)
          → (if b then rate c ∷ scored policy m more else scored policy m more)
            ≡ map rate (if b then c ∷ keep (is_eligible m) more else keep (is_eligible m) more)
      step true h = ap (λ l. rate c ∷ l) h
      step false h = h

  no_session :
      (c : PeerCandidate)
      → contains_peer c.peer_id m.registry ≡ false
      → info m (get_by_peer c.peer_id m.registry) ≡ none
  unfolding contains_peer get_by_peer info
  no_session c h = unknown (lookup c.peer_id m.registry.by_peer) refl
    where
      unknown :
          (o : Option ℕ)
          → lookup c.peer_id m.registry.by_peer ≡ o
          → info m (get_by_peer c.peer_id m.registry) ≡ none
      unknown none e = rw e refl
      unknown (some i) e = let found : true ≡ false = rw e at h in absurd (ground (arith, found))

  rate-IsRated : (c : PeerCandidate) → IsEligible m c → IsRated policy m (rate c)
  unfolding rate
  rate-IsRated c h = (h, ap (policy.score c) (no_session c h.1))

  All-rate : (l : List PeerCandidate) → All (IsEligible m) l → All (IsRated policy m) (map rate l)
  unfolding rate
  All-rate [] h = tt
  All-rate (c ∷ l) h = (rate-IsRated c h.0, All-rate l h.1)

  map-rate : (l : List PeerCandidate) → map (λ (x : Scored). x.1) (map rate l) ≡ l
  unfolding rate
  map-rate [] = refl
  map-rate (c ∷ l) = ap (λ t. c ∷ t) (map-rate l)

  ranks : List Scored
  ranks = sort_by comes_first (map rate (keep (is_eligible m) policy.candidates))

  ranks-IsRated : All (IsRated policy m) ranks
  unfolding ranks
  ranks-IsRated = All-sort_by comes_first (IsRated policy m) _ (
      All-rate _ (
        All-keep (IsEligible m) (is_eligible m) (λ c h. (is_eligible_lem m c).0 h)
          policy.candidates))

  unfit_ones : List PeerCandidate
  unfit_ones = keep (λ c. not (is_eligible m c)) policy.candidates

  ranks-perm : Perm (map (λ (x : Scored). x.1) ranks ++ unfit_ones) policy.candidates
  unfolding ranks unfit_ones
  ranks-perm =
      let eligible : List PeerCandidate = keep (is_eligible m) policy.candidates in
      Perm.trans
        (Perm.append_right _ (
          subst (Perm (map (λ (x : Scored). x.1) ranks)) (map-rate eligible)
            (Perm.map (λ (x : Scored). x.1) (sort_by-perm comes_first (map rate eligible)))))
        (keep-perm (is_eligible m) policy.candidates)

  All-IsRanked :
      (chosen rest : List Scored)
      → InFrontOf comes_first chosen rest
      → All (λ x. All (IsRanked x) rest) chosen
  All-IsRanked [] rest h = tt
  All-IsRanked (x ∷ chosen) rest h = (each rest h.0, All-IsRanked chosen rest h.1)
    where
      each : (ys : List Scored) → All (λ y. comes_first y x ≡ false) ys → All (IsRanked x) ys
      each [] h = tt
      each (y ∷ ys) h = (comes_first-IsRanked x y h.0, each ys h.1)

  take-IsChoice :
      (max_per_tick : ℕ) → IsChoice policy max_per_tick m (take (room policy max_per_tick m) ranks)
  unfolding ranks unfit_ones
  take-IsChoice max_per_tick =
      let n : ℕ = room policy max_per_tick m in
      let whole = take-append-drop n ranks in
      record {
        rest = drop n ranks;
        others = unfit_ones;
        parts =
            subst (λ l. Perm (map (λ (x : Scored). x.1) l ++ unfit_ones) policy.candidates)
              (sym whole) ranks-perm;
        rated = subst (All (IsRated policy m)) (sym whole) ranks-IsRated;
        unfit =
            All-keep (λ c. ¬ IsEligible m c) (λ c. not (is_eligible m c))
              (λ c h. (is_eligible_lem m c).1 h) policy.candidates;
        full = length-take n ranks ∙ ap (λ l. min n (length l)) (sym whole);
        best = All-IsRanked _ _ (
            take-InFrontOf-drop comes_first n ranks (
              sort_by-sorted comes_first comes_first_trans comes_first_asym
                (map rate (keep (is_eligible m) policy.candidates))));
      }

  abbrev free : ℕ → ℕ
  free max_per_tick = min (target policy m - len m.registry) max_per_tick

  replenish-take :
      (max_per_tick : ℕ) → replenish policy max_per_tick m ≡ take (room policy max_per_tick m) ranks
  unfolding replenish ranks
  replenish-take max_per_tick = rw (scored-map policy.candidates) (
      closing m.shutting_down (
        no_target (target policy m == 0) refl
          (enough (leb (target policy m) (len m.registry)) refl)))
    where
      none_free : free max_per_tick ≡ 0 → [] ≡ take (free max_per_tick) ranks
      none_free e = ap (λ n. take n ranks) (sym e)

      enough :
          (b : Bool)
          → leb (target policy m) (len m.registry) ≡ b
          → (if b then [] else take (free max_per_tick) ranks) ≡ take (free max_per_tick) ranks
      enough true e = none_free (ground (arith, e))
      enough false e = refl

      no_target :
          (b : Bool)
          → (target policy m == 0) ≡ b
          → {chosen : List Scored} → chosen ≡ take (free max_per_tick) ranks
          → (if b then [] else chosen) ≡ take (free max_per_tick) ranks
      no_target true e h = none_free (ground (arith, e))
      no_target false e h = h

      closing :
          (b : Bool) {chosen : List Scored}
          → chosen ≡ take (free max_per_tick) ranks
          → (if b then [] else chosen) ≡ take (if b then 0 else free max_per_tick) ranks
      closing true h = refl
      closing false h = h

-- The candidates with an address and without a session are ranked by the scores that the policy gives
-- them, downwards, and by their identifiers where the scores agree; the policy is never told of a
-- session. Of the ranked ones the first are dialed: as many as the sessions are short of the number
-- aimed for and of the limit of sessions, as are allowed for one call, and as there are; none during
-- a shutdown.
pub replenish-best :
    (policy : PeerPolicy) (max_per_tick : ℕ) (m : Manager)
    → IsChoice policy max_per_tick m (replenish policy max_per_tick m)
replenish-best policy max_per_tick m =
    subst (IsChoice policy max_per_tick m) (sym (replenish-take policy m max_per_tick))
      (take-IsChoice policy m max_per_tick)
