-- ===== src/Manager/Connect/Admission.antt =====
-- When `spawn_inbound` of session/acceptor.rs opens a session, and with `connect` of session/mod.rs what
-- all openings have in common.
use pnos_sdk.Base.{
  ℕ, ◌≤◌, ◌<◌, ◌≡◌, refl, sym, ap, ◌∙◌, Bool, true, false, List, [], ◌∷◌, ◌++◌, leb, if◌then◌else◌,
  Bool-cases, ◌⊎◌, inl, inr, arith,
}
use mathlib.Core.Path.{subst}
use pnos_sdk.Stats.{add64, record_inbound_rejected}
use pnos_sdk.NodeId.{NodeId}
use pnos_sdk.Address.{SocketAddr}
use pnos_sdk.Registry.{inbound, len}
use pnos_sdk.Manager.{
  Manager, RejectReason, max_sessions_reached, unauthenticated, handshake_failed,
  handshake_timed_out, rejected, new_session, activate,
}
use pnos_sdk.Manager.Steps.{IsQuiet}
use pnos_sdk.Manager.Connect.{
  Dialer, Authenticator, Authenticated, identified, auth_failed, timed_out, connect, reject_inbound,
  admit, spawn_inbound,
}
use pnos_sdk.Manager.Connect.Outcomes.{ConnectOutcome, connect-ConnectOutcome}

-- An inbound connection is turned away: no session changes, it is counted, and one event tells why.
pub record IsRejected (addr : SocketAddr) (reason : RejectReason) (m m' : Manager) : Type 0 where
  pub quiet : IsQuiet m m'
  pub same_vars : m'.vars ≡ m.vars
  pub told : m'.events ≡ m.events ++ rejected addr reason ∷ []
  pub counted : m'.stats.inbound_rejected ≡ add64 m.stats.inbound_rejected 1

-- What becomes of an inbound connection, by what the authenticator says of it.
abbrev pub InboundOutcome : SocketAddr → Manager → Manager → Authenticated × ℕ → Type 0
InboundOutcome addr m m' (auth_failed, done) = IsRejected addr handshake_failed m m'
InboundOutcome addr m m' (timed_out, done) = IsRejected addr handshake_timed_out m m'
InboundOutcome addr m m' (identified i, done) =
    ((i.verified ≡ false) × IsRejected addr unauthenticated m m')
    ⊎ ((i.verified ≡ true)
        × (let (s, m1) = new_session i.peer_id addr inbound i.metadata done m in
            m' ≡ (activate s m1).1))

reject_inbound-IsRejected :
    (addr : SocketAddr) (reason : RejectReason) (m : Manager)
    → IsRejected addr reason m (reject_inbound addr reason m)
unfolding reject_inbound record_inbound_rejected
reject_inbound-IsRejected addr reason m = record {
  quiet = record {
    same_registry = refl;
    same_established = refl;
    same_closed = refl;
    same_active = refl;
    same_next_id = refl;
    same_flags = λ i. refl;
  };
  same_vars = refl;
  told = refl;
  counted = refl;
}

admit-InboundOutcome :
    (addr : SocketAddr) (r : Authenticated × ℕ) (m : Manager)
    → InboundOutcome addr m (admit addr r m) r
unfolding admit
admit-InboundOutcome addr (auth_failed, done) m = reject_inbound-IsRejected addr handshake_failed m
admit-InboundOutcome addr (timed_out, done) m = reject_inbound-IsRejected addr handshake_timed_out m
admit-InboundOutcome addr (identified i, done) m = elim (Bool-cases i.verified) [
  | inl yes_ ↦ inr (yes_, ap (λ b. if b then opened else turned_away) yes_)
  | inr no_ ↦ inl (
    no_,
    subst (IsRejected addr unauthenticated m)
        (sym (ap (λ b. if b then opened else turned_away) no_))
        (reject_inbound-IsRejected addr unauthenticated m),
  )
]
  where
    opened : Manager
    opened = let (s, m1) = new_session i.peer_id addr inbound i.metadata done m in (activate s m1).1

    turned_away : Manager
    turned_away = reject_inbound addr unauthenticated m

spawn_inbound-cases :
    (auth : Authenticator) (addr : SocketAddr) (now : ℕ) (m : Manager) (closing full : Bool)
    → m.shutting_down ≡ closing
    → leb m.cfg.max_sessions (len m.registry) ≡ full
    → spawn_inbound auth addr now m ≡ (
        if closing
        then m
        else if full
        then reject_inbound addr max_sessions_reached m
        else admit addr (auth addr now) m)
unfolding spawn_inbound
spawn_inbound-cases auth addr now m closing full e k =
    let rejecting = reject_inbound addr max_sessions_reached m in
    let admitting = admit addr (auth addr now) m in
    ap
      (λ b.
        if b then m else if leb m.cfg.max_sessions (len m.registry) then rejecting else admitting)
      e
    ∙ ap (λ b. if closing then m else if b then rejecting else admitting) k

-- A `connect` opens a session only for a peer that the authenticator identified and verified, and then
-- one session with the next identifier is created and activated, outbound; or else its result is a
-- session that the peer or one of the addresses has already, or an error, and nothing happens to any
-- session. An inbound connection does nothing during a shutdown; it is turned away, counted and told
-- as an event, with its reason, if the sessions are at their limit, if its handshake fails or times
-- out, or if its peer is not verified; and otherwise one inbound session is created and activated.
pub openings-verified :
    (dial : Dialer) (auth : Authenticator) (peer : NodeId) (addrs : List SocketAddr)
    (addr : SocketAddr) (now : ℕ) (m : Manager)
    → let m' = spawn_inbound auth addr now m in
      ConnectOutcome auth peer addrs m (connect dial auth peer addrs now m)
      × (((m.shutting_down ≡ true) × (m' ≡ m))
          ⊎ ((m.shutting_down ≡ false)
              × (m.cfg.max_sessions ≤ len m.registry)
              × IsRejected addr max_sessions_reached m m')
          ⊎ ((m.shutting_down ≡ false)
              × (len m.registry < m.cfg.max_sessions)
              × InboundOutcome addr m m' (auth addr now)))
openings-verified dial auth peer addrs addr now m = (
  connect-ConnectOutcome dial auth peer addrs now m,
  elim (Bool-cases m.shutting_down) [
    | inl closing ↦ inl (closing, spawn_inbound-cases auth addr now m true _ closing refl)
    | inr running ↦ elim (Bool-cases (leb m.cfg.max_sessions (len m.registry))) [
      | inl full ↦ inr (
          inl (
            running,
            ground (arith, full),
            subst (IsRejected addr max_sessions_reached m)
                (sym (spawn_inbound-cases auth addr now m false true running full))
                (reject_inbound-IsRejected addr max_sessions_reached m),
          ))
      | inr below ↦ inr (
          inr (
            running,
            ground (arith, below),
            subst (λ x. InboundOutcome addr m x (auth addr now))
                (sym (spawn_inbound-cases auth addr now m false false running below))
                (admit-InboundOutcome addr (auth addr now) m),
          ))
    ]
  ],
)
