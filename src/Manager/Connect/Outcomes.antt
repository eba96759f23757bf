-- ===== src/Manager/Connect/Outcomes.antt =====
-- When `connect` of session/mod.rs opens a session, and what it does where it opens none.
use pnos_sdk.Base.{
  ℕ, ◌≡◌, refl, ◌∙◌, Bool, true, false, List, [], ◌∷◌, Option, none, some, leb, if◌then◌else◌,
  Option-cases, ◌⊎◌, inl, inr, arith,
}
use pnos_sdk.NodeId.{NodeId}
use pnos_sdk.Address.{SocketAddr}
use pnos_sdk.Registry.{
  Session, SessionRegistry, Direction, outbound, get_by_peer, session_of_addr, len,
}
use pnos_sdk.Manager.{Manager, new_session, activate}
use pnos_sdk.Manager.Cooldown.{mark_cooldown, mark_cooldown_all}
use pnos_sdk.Manager.Connect.{
  ConnectResult, ok, err, not_verified, Dialer, Authenticator, Dialed, stream, dial_failed,
  PeerIdentity, Authenticated, identified, auth_failed, timed_out, Plan, Decision, decided, dialing,
  session_of_any, planned, or_reuse, decide, filter_usable, conclude, after_second, fall_back,
  after_first, carry_out, connect,
}
use pnos_sdk.Manager.Connect.Guards.{
  IsUneventful, IsUneventful-refl, IsUneventful-trans, mark_cooldown-IsUneventful,
  mark_cooldown_all-IsUneventful, decide-IsUneventful,
}

abbrev pub IsAmong : SocketAddr → List SocketAddr → Type 0
IsAmong a [] = ⊥
IsAmong a (b ∷ more) = (a ≡ b) ⊎ IsAmong a more

-- The authenticator identified a peer and verified it; a session of that peer, with the next
-- identifier, is created and activated, and nothing else happened to any session before.
pub record IsOpened (auth : Authenticator) (d : Direction) (m : Manager) (opened : ℕ × Manager)
    : Type 0 where
  pub identity : PeerIdentity
  pub addr : SocketAddr
  pub start : ℕ
  pub done : ℕ
  pub told : auth addr start ≡ (identified identity, done)
  pub verified : identity.verified ≡ true
  pub before : Manager
  pub uneventful : IsUneventful m before
  pub activated :
      let (s, m1) = new_session identity.peer_id addr d identity.metadata done before in
      opened ≡ activate s m1

-- There is a session of the peer, or of one of the addresses, and it is the result.
abbrev pub IsReused : NodeId → List SocketAddr → Manager → ℕ → Type 0
IsReused peer addrs m id =
    (s : Session) × (s.id ≡ id)
    × ((get_by_peer peer m.registry ≡ some s)
        ⊎ ((a : SocketAddr) × IsAmong a addrs × (session_of_addr a m.registry ≡ some s)))

-- What a `connect` does, by its result.
abbrev pub ConnectOutcome :
    Authenticator → NodeId → List SocketAddr → Manager → ConnectResult × Manager → Type 0
ConnectOutcome auth peer addrs m (err e, m') = IsUneventful m m'
ConnectOutcome auth peer addrs m (ok id, m') =
    (IsReused peer addrs m id × IsUneventful m m') ⊎ IsOpened auth outbound m (id, m')

-- What follows after an uneventful part is the same from before it.
IsOpened-later :
    (auth : Authenticator) (d : Direction) (m m' : Manager) (x : ℕ × Manager)
    → IsUneventful m m'
    → IsOpened auth d m' x
    → IsOpened auth d m x
IsOpened-later auth d m m' x p h = record {
  identity = h.identity;
  addr = h.addr;
  start = h.start;
  done = h.done;
  told = h.told;
  verified = h.verified;
  before = h.before;
  uneventful = IsUneventful-trans m m' h.before p h.uneventful;
  activated = h.activated;
}

-- A result behind the guards: an error without an effect, or an opened session.
abbrev Dialled : Authenticator → Manager → ConnectResult × Manager → Type 0
Dialled auth m (err e, m') = IsUneventful m m'
Dialled auth m (ok id, m') = IsOpened auth outbound m (id, m')

Dialled-later :
    (auth : Authenticator) (m m' : Manager) (x : ConnectResult × Manager)
    → IsUneventful m m'
    → Dialled auth m' x
    → Dialled auth m x
Dialled-later auth m m' (err e, m'') p h = IsUneventful-trans m m' m'' p h
Dialled-later auth m m' (ok id, m'') p h = IsOpened-later auth outbound m m' (id, m'') p h

module _ (dial : Dialer) (auth : Authenticator) (peer : NodeId) where
  concluded-Dialled :
      (addr : SocketAddr) (start : ℕ) (r : Authenticated × ℕ) (m : Manager)
      → auth addr start ≡ r
      → Dialled auth m (conclude peer addr r m)
  unfolding conclude
  concluded-Dialled addr start (auth_failed, now) m e = mark_cooldown-IsUneventful peer addr now m
  concluded-Dialled addr start (timed_out, now) m e = mark_cooldown-IsUneventful peer addr now m
  concluded-Dialled addr start (identified i, now) m e = step i.verified refl
    where
      step :
          (b : Bool)
          → i.verified ≡ b
          → Dialled auth m (
              if b
              then (let (s, m1) = new_session i.peer_id addr outbound i.metadata now m in
                  let (id, m2) = activate s m1 in (ok id, m2))
              else (err (not_verified i.peer_id), mark_cooldown i.peer_id addr now m))
      step true yes_ = record {
        identity = i;
        addr = addr;
        start = start;
        done = now;
        told = e;
        verified = yes_;
        before = m;
        uneventful = IsUneventful-refl m;
        activated = refl;
      }
      step false no_ = mark_cooldown-IsUneventful i.peer_id addr now m

  module _ (plan : Plan) where
    after_second-Dialled :
        (r : Dialed × ℕ) (m : Manager) → Dialled auth m (after_second auth peer plan r m)
    unfolding after_second
    after_second-Dialled (stream o, now) m = concluded-Dialled _ now _ m refl
    after_second-Dialled (dial_failed, now) m =
        mark_cooldown_all-IsUneventful peer plan.fallback now m

    fall_back-Dialled :
        (addrs : List SocketAddr) (now : ℕ) (m : Manager)
        → Dialled auth m (fall_back dial auth peer plan addrs now m)
    fall_back-Dialled [] now m = IsUneventful-refl m
    fall_back-Dialled (a ∷ more) now m = after_second-Dialled (dial peer (a ∷ more) now) m

    after_first-Dialled :
        (r : Dialed × ℕ) (m : Manager) → Dialled auth m (after_first dial auth peer plan r m)
    unfolding after_first
    after_first-Dialled (stream o, now) m = concluded-Dialled _ now _ m refl
    after_first-Dialled (dial_failed, now) m =
        Dialled-later auth m (mark_cooldown_all peer plan.preferred now m) _
          (mark_cooldown_all-IsUneventful peer plan.preferred now m)
          (fall_back-Dialled plan.fallback now (mark_cooldown_all peer plan.preferred now m))

  Dialled-ConnectOutcome :
      (addrs : List SocketAddr) (m : Manager) (x : ConnectResult × Manager)
      → Dialled auth m x
      → ConnectOutcome auth peer addrs m x
  Dialled-ConnectOutcome addrs m (err e, m') h = h
  Dialled-ConnectOutcome addrs m (ok id, m') h = inr h

  -- What is decided without a dial is a session that is there, or an error.
  IsFounded : List SocketAddr → Manager → Decision → Type 0
  IsFounded addrs m (dialing plan) = Unit
  IsFounded addrs m (decided (err e)) = Unit
  IsFounded addrs m (decided (ok id)) = IsReused peer addrs m id

  carry_out-ConnectOutcome :
      (addrs : List SocketAddr) (now : ℕ) (m : Manager) (x : Decision × Manager)
      → IsFounded addrs m x.0
      → IsUneventful m x.1
      → ConnectOutcome auth peer addrs m (carry_out dial auth peer now x)
  unfolding IsFounded
  carry_out-ConnectOutcome addrs now m (decided (err e), m') f p = p
  carry_out-ConnectOutcome addrs now m (decided (ok id), m') f p = inl (f, p)
  carry_out-ConnectOutcome addrs now m (dialing plan, m') f p =
      Dialled-ConnectOutcome addrs m _
        (Dialled-later auth m m' _ p (after_first-Dialled plan (dial peer plan.preferred now) m'))

  session_of_any-IsAmong :
      (addrs : List SocketAddr) (r : SessionRegistry) (s : Session)
      → session_of_any addrs r ≡ some s
      → (a : SocketAddr) × IsAmong a addrs × (session_of_addr a r ≡ some s)
  session_of_any-IsAmong [] r s e = absurd (ground (arith, e))
  session_of_any-IsAmong (a ∷ more) r s e = elim (Option-cases (session_of_addr a r)) [
    | inl absent ↦
        let (b, among, found) =
          session_of_any-IsAmong more r s (rw (absent, session_of_any) at e) in
        (b, inr among, found)
    | inr (t, here) ↦ (a, inl refl, here ∙ (rw (here, session_of_any) at e))
  ]

  or_reuse-IsFounded :
      (addrs : List SocketAddr) (m : Manager) (o : Option Session) (x : Decision × Manager)
      → ((s : Session) → o ≡ some s → IsReused peer addrs m s.id)
      → IsFounded addrs m x.0
      → IsFounded addrs m (or_reuse o m x).0
  unfolding IsFounded
  or_reuse-IsFounded addrs m none x f h = h
  or_reuse-IsFounded addrs m (some s) x f h = f s refl

  planned-IsFounded :
      (addrs : List SocketAddr) (now : ℕ) (m : Manager) (x : List SocketAddr × Manager)
      → IsFounded addrs m (planned peer now x).0
  unfolding IsFounded
  planned-IsFounded addrs now m ([], m') = tt
  planned-IsFounded addrs now m (a ∷ more, m') = tt

  if-IsFounded :
      (addrs : List SocketAddr) (m : Manager) (b : Bool) (x y : Decision × Manager)
      → IsFounded addrs m x.0
      → IsFounded addrs m y.0
      → IsFounded addrs m (if b then x else y).0
  if-IsFounded addrs m true x y p q = p
  if-IsFounded addrs m false x y p q = q

  decide-IsFounded :
      (addrs : List SocketAddr) (now : ℕ) (m : Manager)
      → IsFounded addrs m (decide peer addrs now m).0
  unfolding decide IsFounded
  decide-IsFounded addrs now m = if-IsFounded addrs m m.shutting_down _ _ tt (
      or_reuse-IsFounded addrs m (get_by_peer peer m.registry) _ (λ s e. (s, refl, inl e))
        (or_reuse-IsFounded addrs m (session_of_any addrs m.registry) _
          (λ s e. (s, refl, inr (session_of_any-IsAmong addrs m.registry s e)))
          (if-IsFounded addrs m (leb m.cfg.max_sessions (len m.registry)) _ _ tt
            (planned-IsFounded addrs now m (filter_usable peer addrs now m)))))

pub connect-ConnectOutcome :
    (dial : Dialer) (auth : Authenticator) (peer : NodeId) (addrs : List SocketAddr) (now : ℕ)
    (m : Manager)
    → ConnectOutcome auth peer addrs m (connect dial auth peer addrs now m)
unfolding connect
connect-ConnectOutcome dial auth peer addrs now m =
    carry_out-ConnectOutcome dial auth peer addrs now m (decide peer addrs now m)
      (decide-IsFounded dial auth peer addrs now m) (decide-IsUneventful peer addrs now m)
