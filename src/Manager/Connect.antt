-- ===== src/Manager/Connect.antt =====
-- crates/pnos-net/src/session/mod.rs, `connect`, and session/acceptor.rs, `spawn_inbound`: how a
-- connection becomes a session. The dialer and the authenticator are the user's: each is a function
-- that takes the time of its call and gives its outcome with the time at which it is there. The clock
-- is read once for all addresses of one filter.
pub mod Guards
pub mod Dials
pub mod Opening
pub mod Outcomes
pub mod Admission
mod Runs
use pnos_sdk.Base.{
  ℕ, ◌<◌, Bool, true, false, List, [], ◌∷◌, Option, none, some, leb, get_or, if◌then◌else◌,
}
use pnos_sdk.Stats.{record_duplicate_discarded, record_inbound_rejected}
use pnos_sdk.NodeId.{NodeId}
use pnos_sdk.Address.{SocketAddr, select_preferred_addrs, fallback_addrs}
use pnos_sdk.Registry.{
  Session, SessionRegistry, Direction, outbound, inbound, get_by_peer, session_of_addr, len,
}
use pnos_sdk.Manager.{
  Manager, RejectReason, max_sessions_reached, unauthenticated, handshake_failed,
  handshake_timed_out, rejected, new_session, activate, send_event,
}
use pnos_sdk.Manager.Cooldown.{in_cooldown, mark_cooldown, mark_cooldown_all}

pub data ConnectError : Type 0 where
  closing full cooling dial_error auth_error auth_timeout : ConnectError
  not_verified : NodeId → ConnectError

pub data ConnectResult : Type 0 where
  ok : ℕ → ConnectResult
  err : ConnectError → ConnectResult

-- An open stream, with the address of its other end if the transport knows it.
pub data Dialed : Type 0 where
  stream : Option SocketAddr → Dialed
  dial_failed : Dialed

pub record PeerIdentity : Type 0 where
  pub peer_id : NodeId
  pub verified : Bool
  pub metadata : Option (List ℕ)

pub data Authenticated : Type 0 where
  identified : PeerIdentity → Authenticated
  auth_failed timed_out : Authenticated

-- `Dialer::dial` at a time, and `authenticate_outbound` or `authenticate_inbound` on a stream.
abbrev pub Dialer : Type 0
Dialer = NodeId → List SocketAddr → ℕ → Dialed × ℕ

abbrev pub Authenticator : Type 0
Authenticator = SocketAddr → ℕ → Authenticated × ℕ

-- The first of the addresses that has a session.
abbrev pub session_of_any : List SocketAddr → SessionRegistry → Option Session
session_of_any [] r = none
session_of_any (a ∷ more) r = elim (session_of_addr a r) [
  | some existing ↦ some existing
  | none ↦ session_of_any more r
]

-- The addresses that are not cooling down; asking takes entries that have run out of the table.
unfoldable pub filter_usable : NodeId → List SocketAddr → ℕ → Manager → List SocketAddr × Manager
filter_usable peer [] now m = ([], m)
filter_usable peer (a ∷ more) now m =
    let (cooling_down, m1) = in_cooldown peer a now m in
    let (rest, m2) = filter_usable peer more now m1 in (if cooling_down then rest else a ∷ rest, m2)

pub record Plan : Type 0 where
  -- `usable[0]`.
  pub first : SocketAddr
  pub preferred : List SocketAddr
  pub fallback : List SocketAddr

pub data Decision : Type 0 where
  decided : ConnectResult → Decision
  dialing : Plan → Decision

-- `connect` from the filter to the first dial.
abbrev pub planned : NodeId → ℕ → List SocketAddr × Manager → Decision × Manager
planned peer now ([], m) = (decided (err cooling), m)
planned peer now (a ∷ more, m) =
    let (fallback, m') = filter_usable peer (fallback_addrs (a ∷ more)) now m in
    (
      dialing (record {
        first = a;
        preferred = select_preferred_addrs (a ∷ more);
        fallback = fallback;
      }),
      m',
    )

abbrev pub reuse : Session → Manager → Decision × Manager
reuse existing m =
    (decided (ok existing.id), record m { stats = record_duplicate_discarded m.stats })

abbrev pub limited : NodeId → List SocketAddr → ℕ → Manager → Decision × Manager
limited peer addrs now m =
    if leb m.cfg.max_sessions (len m.registry)
    then (decided (err full), m)
    else planned peer now (filter_usable peer addrs now m)

-- A session that is there already is reused.
abbrev pub or_reuse : Option Session → Manager → Decision × Manager → Decision × Manager
or_reuse (some existing) m otherwise = reuse existing m
or_reuse none m otherwise = otherwise

-- `connect` up to its first wait: the guards and the addresses to dial.
unfoldable pub decide : NodeId → List SocketAddr → ℕ → Manager → Decision × Manager
decide peer addrs now m =
    if m.shutting_down
    then (decided (err closing), m)
    else or_reuse (get_by_peer peer m.registry) m
        (or_reuse (session_of_any addrs m.registry) m (limited peer addrs now m))

-- A handshake is done: `connect` to its end.
unfoldable pub conclude :
    NodeId → SocketAddr → Authenticated × ℕ → Manager → ConnectResult × Manager
conclude peer addr (auth_failed, now) m = (err auth_error, mark_cooldown peer addr now m)
conclude peer addr (timed_out, now) m = (err auth_timeout, mark_cooldown peer addr now m)
conclude peer addr (identified identity, now) m =
    if identity.verified
    then (let (s, m1) = new_session identity.peer_id addr outbound identity.metadata now m in
        let (id, m2) = activate s m1 in (ok id, m2))
    else (err (not_verified identity.peer_id), mark_cooldown identity.peer_id addr now m)

-- `peer_addr().unwrap_or(usable[0])`.
abbrev pub addr_of_stream : Option SocketAddr → SocketAddr → SocketAddr
addr_of_stream (some a) first = a
addr_of_stream none first = first

-- A stream is open.
abbrev pub shake : Authenticator → NodeId → SocketAddr → ℕ → Manager → ConnectResult × Manager
shake auth peer addr now m = conclude peer addr (auth addr now) m

unfoldable pub after_second :
    Authenticator → NodeId → Plan → Dialed × ℕ → Manager → ConnectResult × Manager
after_second auth peer plan (stream o, now) m = shake auth peer (addr_of_stream o plan.first) now m
after_second auth peer plan (dial_failed, now) m =
    (err dial_error, mark_cooldown_all peer plan.fallback now m)

abbrev pub fall_back :
    Dialer → Authenticator → NodeId → Plan → List SocketAddr → ℕ → Manager → ConnectResult × Manager
fall_back dial auth peer plan [] now m = (err dial_error, m)
fall_back dial auth peer plan (a ∷ more) now m =
    after_second auth peer plan (dial peer (a ∷ more) now) m

unfoldable pub after_first :
    Dialer → Authenticator → NodeId → Plan → Dialed × ℕ → Manager → ConnectResult × Manager
after_first dial auth peer plan (stream o, now) m =
    shake auth peer (addr_of_stream o plan.first) now m
after_first dial auth peer plan (dial_failed, now) m =
    fall_back dial auth peer plan plan.fallback now (mark_cooldown_all peer plan.preferred now m)

abbrev pub carry_out :
    Dialer → Authenticator → NodeId → ℕ → Decision × Manager → ConnectResult × Manager
carry_out dial auth peer now (decided r, m) = (r, m)
carry_out dial auth peer now (dialing plan, m) =
    after_first dial auth peer plan (dial peer plan.preferred now) m

unfoldable pub connect :
    Dialer → Authenticator → NodeId → List SocketAddr → ℕ → Manager → ConnectResult × Manager
connect dial auth peer addrs now m = carry_out dial auth peer now (decide peer addrs now m)

-- An inbound connection is turned away.
unfoldable pub reject_inbound : SocketAddr → RejectReason → Manager → Manager
reject_inbound addr reason m =
    send_event (rejected addr reason) (record m { stats = record_inbound_rejected m.stats })

unfoldable pub admit : SocketAddr → Authenticated × ℕ → Manager → Manager
admit addr (auth_failed, now) m = reject_inbound addr handshake_failed m
admit addr (timed_out, now) m = reject_inbound addr handshake_timed_out m
admit addr (identified identity, now) m =
    if identity.verified
    then (let (s, m1) = new_session identity.peer_id addr inbound identity.metadata now m in
        (activate s m1).1)
    else reject_inbound addr unauthenticated m

-- The task of an inbound connection, started at a time.
unfoldable pub spawn_inbound : Authenticator → SocketAddr → ℕ → Manager → Manager
spawn_inbound auth addr now m =
    if m.shutting_down
    then m
    else if leb m.cfg.max_sessions (len m.registry)
    then reject_inbound addr max_sessions_reached m
    else admit addr (auth addr now) m
