-- ===== src/Manager/Connect/Guards.antt =====
-- What `connect` decides before it dials, and what a failed `connect` leaves behind.
use pnos_sdk.Base.{
  ℕ, ◌≡◌, refl, ◌∙◌, Bool, true, false, List, [], ◌∷◌, Option, none, some, leb, if◌then◌else◌,
  Bool-cases, inl, inr,
}
use pnos_sdk.Base.Dict.{lookup}
use pnos_sdk.Stats.{record_duplicate_discarded}
use pnos_sdk.NodeId.{NodeId, node_eq}
use pnos_sdk.Address.{SocketAddr, fallback_addrs}
use pnos_sdk.Registry.{Session, get_by_peer, len}
use pnos_sdk.Manager.{Manager}
use pnos_sdk.Manager.Cooldown.{key_eq, in_cooldown, cooled, mark_cooldown, mark_cooldown_all}
use pnos_sdk.Manager.Steps.{IsQuiet}
use pnos_sdk.Manager.Connect.{
  ConnectResult, err, Dialer, Authenticator, Dialed, stream, dial_failed, Authenticated, identified,
  auth_failed, timed_out, Plan, Decision, decided, dialing, session_of_any, filter_usable, planned,
  limited, reuse, decide, or_reuse, ConnectError, conclude, after_second, fall_back, after_first,
  carry_out, connect,
}

-- Nothing happens to any session, and no event is sent.
pub record IsUneventful (m m' : Manager) : Type 0 where
  pub quiet : IsQuiet m m'
  pub same_events : m'.events ≡ m.events
  pub same_vars : m'.vars ≡ m.vars
  pub same_shutting_down : m'.shutting_down ≡ m.shutting_down
  pub same_cfg : m'.cfg ≡ m.cfg

-- The cooldown table and the counter of discarded duplicates are no part of this.
IsUneventful-write :
    (m : Manager) (table : List ((NodeId × SocketAddr) × ℕ)) (count : ℕ)
    → IsUneventful m
        (record m { cooldown = table; stats = record m.stats { duplicate_discarded = count } })
IsUneventful-write m table count = record {
  quiet = record {
    same_registry = refl;
    same_established = refl;
    same_closed = refl;
    same_active = refl;
    same_next_id = refl;
    same_flags = λ i. refl;
  };
  same_events = refl;
  same_vars = refl;
  same_shutting_down = refl;
  same_cfg = refl;
}

pub IsUneventful-refl : (m : Manager) → IsUneventful m m
IsUneventful-refl m = IsUneventful-write m m.cooldown m.stats.duplicate_discarded

pub IsUneventful-trans :
    (m m' m'' : Manager) → IsUneventful m m' → IsUneventful m' m'' → IsUneventful m m''
IsUneventful-trans m m' m'' p q = record {
  quiet = record {
    same_registry = q.quiet.same_registry ∙ p.quiet.same_registry;
    same_established = q.quiet.same_established ∙ p.quiet.same_established;
    same_closed = q.quiet.same_closed ∙ p.quiet.same_closed;
    same_active = q.quiet.same_active ∙ p.quiet.same_active;
    same_next_id = q.quiet.same_next_id ∙ p.quiet.same_next_id;
    same_flags = λ i. q.quiet.same_flags i ∙ p.quiet.same_flags i;
  };
  same_events = q.same_events ∙ p.same_events;
  same_vars = q.same_vars ∙ p.same_vars;
  same_shutting_down = q.same_shutting_down ∙ p.same_shutting_down;
  same_cfg = q.same_cfg ∙ p.same_cfg;
}

cooled-IsUneventful :
    (peer : NodeId) (a : SocketAddr) (now : ℕ) (m : Manager) (o : Option ℕ)
    → IsUneventful m (cooled peer a now m o).1
cooled-IsUneventful peer a now m none = IsUneventful-refl m
cooled-IsUneventful peer a now m (some until) = elim (Bool-cases (leb until now)) [
  | inl over ↦ rw over (IsUneventful-write m _ m.stats.duplicate_discarded)
  | inr still ↦ rw still (IsUneventful-refl m)
]

in_cooldown-IsUneventful :
    (peer : NodeId) (a : SocketAddr) (now : ℕ) (m : Manager)
    → IsUneventful m (in_cooldown peer a now m).1
unfolding in_cooldown
in_cooldown-IsUneventful peer a now m =
    cooled-IsUneventful peer a now m (lookup (peer, a) m.cooldown)

pub filter_usable-IsUneventful :
    (peer : NodeId) (addrs : List SocketAddr) (now : ℕ) (m : Manager)
    → IsUneventful m (filter_usable peer addrs now m).1
unfolding filter_usable
filter_usable-IsUneventful peer [] now m = IsUneventful-refl m
filter_usable-IsUneventful peer (a ∷ more) now m =
    IsUneventful-trans m (in_cooldown peer a now m).1 _ (in_cooldown-IsUneventful peer a now m)
      (filter_usable-IsUneventful peer more now (in_cooldown peer a now m).1)

pub mark_cooldown-IsUneventful :
    (peer : NodeId) (a : SocketAddr) (now : ℕ) (m : Manager)
    → IsUneventful m (mark_cooldown peer a now m)
unfolding mark_cooldown
mark_cooldown-IsUneventful peer a now m = IsUneventful-write m _ m.stats.duplicate_discarded

pub mark_cooldown_all-IsUneventful :
    (peer : NodeId) (addrs : List SocketAddr) (now : ℕ) (m : Manager)
    → IsUneventful m (mark_cooldown_all peer addrs now m)
unfolding mark_cooldown_all
mark_cooldown_all-IsUneventful peer [] now m = IsUneventful-refl m
mark_cooldown_all-IsUneventful peer (a ∷ more) now m =
    IsUneventful-trans m (mark_cooldown peer a now m) _ (mark_cooldown-IsUneventful peer a now m)
      (mark_cooldown_all-IsUneventful peer more now (mark_cooldown peer a now m))

reuse-IsUneventful : (s : Session) (m : Manager) → IsUneventful m (reuse s m).1
unfolding record_duplicate_discarded
reuse-IsUneventful s m = IsUneventful-write m m.cooldown _

planned-IsUneventful :
    (peer : NodeId) (now : ℕ) (usable : List SocketAddr) (m : Manager)
    → IsUneventful m (planned peer now (usable, m)).1
planned-IsUneventful peer now [] m = IsUneventful-refl m
planned-IsUneventful peer now (a ∷ more) m =
    filter_usable-IsUneventful peer (fallback_addrs (a ∷ more)) now m

limited-IsUneventful :
    (peer : NodeId) (addrs : List SocketAddr) (now : ℕ) (m : Manager)
    → IsUneventful m (limited peer addrs now m).1
limited-IsUneventful peer addrs now m =
    elim (Bool-cases (leb m.cfg.max_sessions (len m.registry))) [
      | inl reached ↦ rw reached (IsUneventful-refl m)
      | inr below ↦ rw below (
          IsUneventful-trans m (filter_usable peer addrs now m).1 _
            (filter_usable-IsUneventful peer addrs now m)
            (planned-IsUneventful peer now (filter_usable peer addrs now m).0
              (filter_usable peer addrs now m).1))
    ]

if-IsUneventful :
    {A : Type 0} (m : Manager) (b : Bool) (x y : A × Manager)
    → IsUneventful m x.1
    → IsUneventful m y.1
    → IsUneventful m (if b then x else y).1
if-IsUneventful m true x y p q = p
if-IsUneventful m false x y p q = q

or_reuse-IsUneventful :
    (m : Manager) (o : Option Session) (x : Decision × Manager)
    → IsUneventful m x.1
    → IsUneventful m (or_reuse o m x).1
or_reuse-IsUneventful m none x p = p
or_reuse-IsUneventful m (some s) x p = reuse-IsUneventful s m

pub decide-IsUneventful :
    (peer : NodeId) (addrs : List SocketAddr) (now : ℕ) (m : Manager)
    → IsUneventful m (decide peer addrs now m).1
unfolding decide
decide-IsUneventful peer addrs now m = if-IsUneventful m m.shutting_down _ _ (IsUneventful-refl m) (
    or_reuse-IsUneventful m (get_by_peer peer m.registry) _ (
      or_reuse-IsUneventful m (session_of_any addrs m.registry) _
        (limited-IsUneventful peer addrs now m)))

-- A result of `connect` that is an error has changed no session.
abbrev IsSafe : Manager → ConnectResult × Manager → Type 0
IsSafe m x = (e : ConnectError) → x.0 ≡ err e → IsUneventful m x.1

if-IsSafe :
    (m : Manager) (b : Bool) (x y : ConnectResult × Manager)
    → IsSafe m x
    → IsSafe m y
    → IsSafe m (if b then x else y)
if-IsSafe m true x y p q = p
if-IsSafe m false x y p q = q

conclude-IsSafe :
    (peer : NodeId) (addr : SocketAddr) (r : Authenticated × ℕ) (m : Manager)
    → IsSafe m (conclude peer addr r m)
unfolding conclude
conclude-IsSafe peer addr (auth_failed, now) m = λ e h. mark_cooldown-IsUneventful peer addr now m
conclude-IsSafe peer addr (timed_out, now) m = λ e h. mark_cooldown-IsUneventful peer addr now m
conclude-IsSafe peer addr (identified i, now) m =
    if-IsSafe m i.verified _ _ (λ e h. absurd cc)
      (λ e h. mark_cooldown-IsUneventful i.peer_id addr now m)

-- What is safe after an uneventful part is safe before it.
IsSafe-later :
    (m m' : Manager) (x : ConnectResult × Manager) → IsUneventful m m' → IsSafe m' x → IsSafe m x
IsSafe-later m m' x p q = λ e h. IsUneventful-trans m m' x.1 p (q e h)

module _ (dial : Dialer) (auth : Authenticator) (peer : NodeId) (plan : Plan) where
  after_second-IsSafe : (r : Dialed × ℕ) (m : Manager) → IsSafe m (after_second auth peer plan r m)
  unfolding after_second
  after_second-IsSafe (stream o, now) m = conclude-IsSafe peer _ (auth _ now) m
  after_second-IsSafe (dial_failed, now) m =
      λ e h. mark_cooldown_all-IsUneventful peer plan.fallback now m

  fall_back-IsSafe :
      (addrs : List SocketAddr) (now : ℕ) (m : Manager)
      → IsSafe m (fall_back dial auth peer plan addrs now m)
  fall_back-IsSafe [] now m = λ e h. IsUneventful-refl m
  fall_back-IsSafe (a ∷ more) now m = after_second-IsSafe (dial peer (a ∷ more) now) m

  after_first-IsSafe :
      (r : Dialed × ℕ) (m : Manager) → IsSafe m (after_first dial auth peer plan r m)
  unfolding after_first
  after_first-IsSafe (stream o, now) m = conclude-IsSafe peer _ (auth _ now) m
  after_first-IsSafe (dial_failed, now) m =
      IsSafe-later m (mark_cooldown_all peer plan.preferred now m) _
        (mark_cooldown_all-IsUneventful peer plan.preferred now m)
        (fall_back-IsSafe plan.fallback now (mark_cooldown_all peer plan.preferred now m))

carry_out-IsSafe :
    (dial : Dialer) (auth : Authenticator) (peer : NodeId) (now : ℕ) (d : Decision) (m : Manager)
    → IsSafe m (carry_out dial auth peer now (d, m))
carry_out-IsSafe dial auth peer now (decided r) m = λ e h. IsUneventful-refl m
carry_out-IsSafe dial auth peer now (dialing plan) m =
    after_first-IsSafe dial auth peer plan (dial peer plan.preferred now) m

-- A `connect` that fails, for whatever reason, leaves the registry, the lifecycle counters, all
-- sessions and the identifiers as they were, and sends no event.
pub connect-IsUneventful :
    (dial : Dialer) (auth : Authenticator) (peer : NodeId) (addrs : List SocketAddr) (now : ℕ)
    (m : Manager) (e : ConnectError)
    → (connect dial auth peer addrs now m).0 ≡ err e
    → IsUneventful m (connect dial auth peer addrs now m).1
unfolding connect
connect-IsUneventful dial auth peer addrs now m e h =
    IsSafe-later m (decide peer addrs now m).1 _ (decide-IsUneventful peer addrs now m)
      (carry_out-IsSafe dial auth peer now (decide peer addrs now m).0 (decide peer addrs now m).1)
      e h
