-- ===== src/Manager/Connect/Dials.antt =====
-- Which addresses `connect` dials.
use pnos_sdk.Base.{
  ℕ, ◌<◌, ◌≡◌, refl, sym, ap, ◌∙◌, Bool, true, false, List, [], ◌∷◌, ◌++◌, Option, none, some, leb,
  if◌then◌else◌, arith, Option-cases, Bool-cases, inl, inr, All, All-append,
}
use pnos_sdk.Stats.{record_duplicate_discarded}
use pnos_sdk.NodeId.{NodeId}
use pnos_sdk.Address.{SocketAddr, fallback_addrs}
use pnos_sdk.Address.Members.{select_preferred_addrs-All}
use pnos_sdk.Registry.{Session, SessionRegistry, get_by_peer, session_of_addr, len}
use pnos_sdk.Manager.{Manager}
use pnos_sdk.Manager.Cooldown.{in_cooldown, is_cooling}
use pnos_sdk.Manager.Cooling.{in_cooldown-later}
use pnos_sdk.Manager.Connect.{
  ConnectResult, ok, err, closing, Dialer, Authenticator, carry_out, connect, Plan, Decision,
  decided, dialing, session_of_any, filter_usable, planned, limited, or_reuse, decide,
}

-- A dialed address has no session yet and is not cooling down for the peer.
pub record IsDialable (m : Manager) (peer : NodeId) (now : ℕ) (a : SocketAddr) : Type 0 where
  pub no_session : session_of_addr a m.registry ≡ none
  pub not_cooling : is_cooling peer a now m ≡ false

-- When `connect` dials.
pub record IsAllowed (m : Manager) (peer : NodeId) (now : ℕ) (plan : Plan) : Type 0 where
  pub running : m.shutting_down ≡ false
  pub no_session : get_by_peer peer m.registry ≡ none
  pub capacity : len m.registry < m.cfg.max_sessions
  pub first_dialable : IsDialable m peer now plan.first
  pub dialable : All (IsDialable m peer now) (plan.preferred ++ plan.fallback)

session_of_any-none :
    (addrs : List SocketAddr) (r : SessionRegistry)
    → session_of_any addrs r ≡ none
    → All (λ a. session_of_addr a r ≡ none) addrs
session_of_any-none [] r h = tt
session_of_any-none (a ∷ more) r h = elim (Option-cases (session_of_addr a r)) [
  | inl absent ↦ (absent, session_of_any-none more r (rw (absent, session_of_any) at h))
  | inr (s, found) ↦ absurd (ground (arith, found))
]

-- Asking about one address at a time gives the answers that the table has at the beginning.
filter_usable-All :
    (P : SocketAddr → Type 0) (peer : NodeId) (addrs : List SocketAddr) (now : ℕ) (m m0 : Manager)
    → ((b : SocketAddr) → is_cooling peer b now m ≡ is_cooling peer b now m0)
    → All P addrs
    → All (λ a. P a × (is_cooling peer a now m0 ≡ false)) (filter_usable peer addrs now m).0
unfolding filter_usable
filter_usable-All P peer [] now m m0 same h = tt
filter_usable-All P peer (a ∷ more) now m m0 same h =
    let rest =
      filter_usable-All P peer more now (in_cooldown peer a now m).1 m0
        (λ b. in_cooldown-later peer peer a b now now m (omega arith) ∙ same b) h.1 in
    elim (Bool-cases (is_cooling peer a now m)) [
      | inl cooling ↦ rw cooling rest
      | inr ready ↦ rw ready ((h.0, sym (same a) ∙ ready), rest)
    ]

filter_usable-later :
    (peer : NodeId) (addrs : List SocketAddr) (now : ℕ) (m : Manager) (b : SocketAddr)
    → is_cooling peer b now (filter_usable peer addrs now m).1 ≡ is_cooling peer b now m
unfolding filter_usable
filter_usable-later peer [] now m b = refl
filter_usable-later peer (a ∷ more) now m b =
    filter_usable-later peer more now (in_cooldown peer a now m).1 b
    ∙ in_cooldown-later peer peer a b now now m (omega arith)

All-first_two :
    (P Q : SocketAddr → Type 0) (addrs : List SocketAddr)
    → All (λ a. (P a × Q a) × Q a) addrs
    → All (λ a. P a × Q a) addrs
All-first_two P Q [] h = tt
All-first_two P Q (a ∷ more) h = (h.0.0, All-first_two P Q more h.1)

module _ (m : Manager) (peer : NodeId) (now : ℕ) where
  abbrev Free : SocketAddr → Type 0
  Free a = session_of_addr a m.registry ≡ none

  abbrev Ready : SocketAddr → Type 0
  Ready a = is_cooling peer a now m ≡ false

  All-IsDialable :
      (addrs : List SocketAddr)
      → All (λ a. Free a × Ready a) addrs
      → All (IsDialable m peer now) addrs
  All-IsDialable [] h = tt
  All-IsDialable (a ∷ more) h =
      (record { no_session = h.0.0; not_cooling = h.0.1 }, All-IsDialable more h.1)

  -- A decision to dial is allowed.
  abbrev IsSound : Decision → Type 0
  IsSound d = (plan : Plan) → d ≡ dialing plan → IsAllowed m peer now plan

  if-IsSound :
      (b : Bool) (x y : Decision × Manager)
      → (b ≡ true → IsSound x.0)
      → (b ≡ false → IsSound y.0)
      → IsSound (if b then x else y).0
  if-IsSound true x y p q = p refl
  if-IsSound false x y p q = q refl

  or_reuse-IsSound :
      (o : Option Session) (x : Decision × Manager)
      → (o ≡ none → IsSound x.0)
      → IsSound (or_reuse o m x).0
  or_reuse-IsSound none x p = p refl
  or_reuse-IsSound (some s) x p = λ plan e. absurd cc

  decided-IsSound : {r : ConnectResult} → IsSound (decided r)
  decided-IsSound = λ plan e. absurd cc

  planned-IsSound :
      (usable : List SocketAddr) (m' : Manager)
      → m.shutting_down ≡ false
      → get_by_peer peer m.registry ≡ none
      → len m.registry < m.cfg.max_sessions
      → ((b : SocketAddr) → is_cooling peer b now m' ≡ is_cooling peer b now m)
      → All (λ a. Free a × Ready a) usable
      → IsSound (planned peer now (usable, m')).0
  planned-IsSound [] m' running unknown room same h = decided-IsSound
  planned-IsSound (a ∷ more) m' running unknown room same h = λ plan e.
      let (preferred, fallback) = select_preferred_addrs-All (λ b. Free b × Ready b) (a ∷ more) h in
      let later =
        filter_usable-All (λ b. Free b × Ready b) peer (fallback_addrs (a ∷ more)) now m' m same
          fallback in
      let q = dialing_eq _ plan e in
      record {
        running = running;
        no_session = unknown;
        capacity = room;
        first_dialable = rw (← q) (record { no_session = h.0.0; not_cooling = h.0.1 });
        dialable = rw (← q) (
            All-append _ _ _ (All-IsDialable _ preferred)
              (All-IsDialable _ (All-first_two Free Ready _ later)));
      }
    where
      dialing_eq : (p q : Plan) → dialing p ≡ dialing q → p ≡ q
      dialing_eq p q e = cc

  decide-IsSound : (addrs : List SocketAddr) → IsSound (decide peer addrs now m).0
  unfolding decide
  decide-IsSound addrs =
      if-IsSound m.shutting_down _ _ (λ closing. decided-IsSound)
        λ running. or_reuse-IsSound (get_by_peer peer m.registry) _ λ unknown.
          or_reuse-IsSound (session_of_any addrs m.registry) _ λ free.
            if-IsSound (leb m.cfg.max_sessions (len m.registry)) _ _ (λ full. decided-IsSound)
              λ room.
                planned-IsSound (filter_usable peer addrs now m).0
                  (filter_usable peer addrs now m).1 running unknown (ground (arith, room))
                  (λ b. filter_usable-later peer addrs now m b)
                  (filter_usable-All Free peer addrs now m m (λ b. refl)
                    (session_of_any-none addrs m.registry free))

-- `connect` dials only while the manager runs, has no session of the peer and has room for one more
-- session; then no address that it dials, first or as a fallback, has a session or is cooling down for
-- the peer at the time of the call.
pub decide-IsAllowed :
    (m : Manager) (peer : NodeId) (addrs : List SocketAddr) (now : ℕ) (plan : Plan)
    → (decide peer addrs now m).0 ≡ dialing plan
    → IsAllowed m peer now plan
decide-IsAllowed m peer addrs now plan e = decide-IsSound m peer now addrs plan e

-- With a session of the peer, `connect` gives that session, whatever the dialer and the authenticator
-- would do, and it only counts a discarded duplicate.
connect_reuse :
    (dial : Dialer) (auth : Authenticator) (peer : NodeId) (addrs : List SocketAddr) (now : ℕ)
    (m : Manager) (s : Session)
    → m.shutting_down ≡ false
    → get_by_peer peer m.registry ≡ some s
    → connect dial auth peer addrs now m
      ≡ (ok s.id, record m { stats = record_duplicate_discarded m.stats })
unfolding connect decide
connect_reuse dial auth peer addrs now m s running known =
    ap
      (λ b. carry_out dial auth peer now (
        if b
        then (decided (err closing), m)
        else or_reuse (get_by_peer peer m.registry) m
            (or_reuse (session_of_any addrs m.registry) m (limited peer addrs now m))))
      running
    ∙ ap
        (λ o.
          carry_out dial auth peer now (
            or_reuse o m (or_reuse (session_of_any addrs m.registry) m (limited peer addrs now m))))
        known
