-- ===== src/Manager.antt =====
-- crates/pnos-net/src/session/mod.rs and session/session.rs: the session manager, its state and the
-- operations that open and close sessions. The atomics of a session stand in a table of the manager
-- by the session's identifier. A clock reading is an argument, in milliseconds; the events are listed
-- in the order in which they are sent; the text of an IO error is its cause.
pub mod Cooldown
pub mod Cooling
pub mod Connect
pub mod Heartbeat
pub mod Policy
pub mod Replenish
pub mod Steps
pub mod Effects
pub mod Tasks
pub mod Closing
pub mod Arbitration
pub mod Links
pub mod Steady
pub mod Invariant
pub mod Races
mod Runs
use pnos_sdk.Base.{
  ℕ, ◌+◌, ◌-◌, ◌*◌, ◌%◌, ◌^◌, Bool, true, false, ◌&&◌, ◌||◌, not, List, [], ◌∷◌, ◌++◌, Option, none,
  some, ltb, leb, ◌==◌, if◌then◌else◌, length, nat_eq, ◌=?◌, Eq,
}
use pnos_sdk.Stats.{
  SessionStats, new_stats, add64, record_established, record_closed, record_duplicate_discarded,
}
use pnos_sdk.Frame.{Frame, FrameError}
use pnos_sdk.NodeId.{NodeId, node_eq, lt_node}
use pnos_sdk.Address.{SocketAddr, addr_eq}
use pnos_sdk.Registry.{
  Session, SessionRegistry, Direction, outbound, inbound, new_registry, get_by_id, get_by_peer,
}
use pnos_sdk.Registry

-- What an IO error of a session says.
pub data IoCause : Type 0 where
  frame_error : FrameError → IoCause
  probe_timeout : IoCause

pub data DisconnectReason : Type 0 where
  local remote idle_timeout replaced shutdown : DisconnectReason
  io : IoCause → DisconnectReason

-- A handshake that timed out is `HandshakeFailed` with a text of its own.
pub data RejectReason : Type 0 where
  max_sessions_reached unauthenticated handshake_failed handshake_timed_out : RejectReason
  duplicate : ℕ → RejectReason

pub data SessionEvent : Type 0 where
  connected : ℕ → NodeId → SocketAddr → Direction → SessionEvent
  disconnected : ℕ → NodeId → DisconnectReason → SessionEvent
  frame_received : ℕ → NodeId → Frame → SessionEvent
  rejected : SocketAddr → RejectReason → SessionEvent

-- Durations are in milliseconds.
pub record SessionConfig : Type 0 where
  pub listen_addr : Option SocketAddr
  pub max_sessions : ℕ
  pub heartbeat_interval : ℕ
  pub idle_timeout_ms : ℕ
  pub addr_cooldown : ℕ
  pub heartbeat_kind : Option ℕ
  pub heartbeat_reply_kind : Option ℕ
  pub write_timeout : ℕ

abbrev pub default_config : SessionConfig
default_config = record {
  listen_addr = none;
  max_sessions = 64;
  heartbeat_interval = 15 * 1000;
  idle_timeout_ms = 60 * 1000;
  addr_cooldown = 30 * 1000;
  heartbeat_kind = none;
  heartbeat_reply_kind = none;
  write_timeout = 30 * 1000;
}

-- The part of a session that changes, and whether its write half was shut down.
pub record SessionVars : Type 0 where
  pub last_recv_ms : ℕ
  pub last_send_ms : ℕ
  pub rtt : ℕ
  pub closed : Bool
  pub shut : Bool

pub record Manager : Type 0 where
  pub local_id : NodeId
  pub cfg : SessionConfig
  pub registry : SessionRegistry
  pub stats : SessionStats
  pub events : List SessionEvent
  pub cooldown : List ((NodeId × SocketAddr) × ℕ)
  pub probe_sent_ms : List (ℕ × ℕ)
  pub vars : ℕ → SessionVars
  pub shutting_down : Bool
  -- `NEXT`, the identifier of the next session.
  pub next_id : ℕ

abbrev pub update {ℓ} : {A : Type ℓ} → (ℕ → A) → ℕ → A → ℕ → A
update f k v j = if k == j then v else f j

abbrev pub set_vars : ℕ → SessionVars → Manager → Manager
set_vars id v m = record m { vars = update m.vars id v }

abbrev pub fresh_vars : ℕ → SessionVars
fresh_vars now = record {
  last_recv_ms = now;
  last_send_ms = now;
  rtt = 0;
  closed = false;
  shut = false;
}

-- `SessionManager::bind`, the state before the listener is set up.
unfoldable pub bind : NodeId → SessionConfig → Manager
unfolding new_stats
bind local_id cfg = record {
  local_id = local_id;
  cfg = cfg;
  registry = new_registry;
  stats = new_stats;
  events = [];
  cooldown = [];
  probe_sent_ms = [];
  vars = λ i. fresh_vars 0;
  shutting_down = false;
  next_id = 1;
}

abbrev pub send_event : SessionEvent → Manager → Manager
send_event e m = record m { events = m.events ++ e ∷ [] }

-- `Session::new`, with `SessionId::next`.
unfoldable pub new_session :
    NodeId → SocketAddr → Direction → Option (List ℕ) → ℕ → Manager → Session × Manager
new_session peer addr direction metadata now m = (
  record {
    id = m.next_id;
    peer_id = peer;
    addr = addr;
    direction = direction;
    metadata = metadata;
  },
  record m { next_id = add64 m.next_id 1; vars = update m.vars m.next_id (fresh_vars now) },
)

unfoldable pub touch_recv : ℕ → ℕ → Manager → Manager
touch_recv id now m = set_vars id (record (m.vars id) { last_recv_ms = now }) m

unfoldable pub touch_send : ℕ → ℕ → Manager → Manager
touch_send id now m = set_vars id (record (m.vars id) { last_send_ms = now }) m

unfoldable pub set_rtt_ms : ℕ → ℕ → Manager → Manager
set_rtt_ms id value m = set_vars id (record (m.vars id) { rtt = value }) m

unfoldable pub rtt_ms : ℕ → Manager → Option ℕ
rtt_ms id m = if (m.vars id).rtt == 0 then none else some (m.vars id).rtt

unfoldable pub idle_ms : ℕ → ℕ → Manager → ℕ
idle_ms id now m = now - (m.vars id).last_recv_ms

unfoldable pub since_send_ms : ℕ → ℕ → Manager → ℕ
since_send_ms id now m = now - (m.vars id).last_send_ms

unfoldable pub mark_closed : ℕ → Manager → Manager
mark_closed id m = set_vars id (record (m.vars id) { closed = true }) m

-- `transport.close()`, whose error is ignored.
unfoldable pub close_transport : ℕ → Manager → Manager
close_transport id m = set_vars id (record (m.vars id) { shut = true }) m

-- `disconnect` up to its wait for the transport: the session that was taken out of the registry.
abbrev pub taken_down : Manager → SessionRegistry × Option Session → Option Session × Manager
taken_down m (r, none) = (none, record m { registry = r })
taken_down m (r, some t) = (some t, mark_closed t.id (record m { registry = r }))

unfoldable pub take_down : ℕ → Manager → Option Session × Manager
take_down id m = elim (get_by_id id m.registry) [
  | none ↦ (none, m)
  | some session ↦ taken_down m (Registry.remove_if id session m.registry)
]

-- `disconnect` from there on.
unfoldable pub finish_disconnect : Session → DisconnectReason → Manager → Manager
finish_disconnect s reason m =
    let m' = close_transport s.id m in
    send_event (disconnected s.id s.peer_id reason) (record m' { stats = record_closed m'.stats })

unfoldable pub disconnect : ℕ → DisconnectReason → Manager → Manager
disconnect id reason m =
    let (taken, m') = take_down id m in
    elim taken [ none ↦ m' | some t ↦ finish_disconnect t reason m' ]

-- A session that gives way to one of the same peer.
unfoldable pub discard : Session → Session → Manager → Manager
discard s existing m =
    let m' = record m { stats = record_duplicate_discarded m.stats } in
    send_event (rejected s.addr (duplicate existing.id))
      (close_transport s.id (mark_closed s.id m'))

-- The end of `activate`: the session is put into the registry.
abbrev pub registered : Session → Manager → SessionRegistry × Option Session → ℕ × Manager
registered s m (r, some existing) = (existing.id, discard s existing (record m { registry = r }))
registered s m (r, none) = (
  s.id,
  send_event (connected s.id s.peer_id s.addr s.direction)
      (record m { registry = r; stats = record_established m.stats }),
)

unfoldable pub register : Session → Manager → ℕ × Manager
register s m = registered s m (Registry.insert s m.registry)

abbrev pub is_outbound : Direction → Bool
is_outbound outbound = true
is_outbound inbound = false

abbrev pub same_direction : Direction → Direction → Bool
same_direction d e = if is_outbound d then is_outbound e else not (is_outbound e)

-- The direction that survives when both sides dial.
unfoldable pub expected_direction : NodeId → NodeId → Direction
expected_direction local_id peer = if lt_node local_id peer then outbound else inbound

unfoldable pub new_wins : NodeId → Session → Session → Bool
unfolding expected_direction
new_wins local_id s existing =
    let expected = expected_direction local_id s.peer_id in
    same_direction s.direction expected && not (same_direction existing.direction expected)

unfoldable pub activate : Session → Manager → ℕ × Manager
activate s m = elim (get_by_peer s.peer_id m.registry) [
  | none ↦ register s m
  | some existing ↦
      if new_wins m.local_id s existing
      then register s (disconnect existing.id replaced m)
      else (existing.id, discard s existing m)
]

-- The body of the loop of `shutdown`.
unfoldable pub shut_session : Session → Manager → Manager
shut_session s m = finish_disconnect s shutdown (mark_closed s.id m)

abbrev shut_all : List Session → Manager → Manager
shut_all [] m = m
shut_all (s ∷ ss) m = shut_all ss (shut_session s m)

-- `shutdown` up to its loop: the sessions to shut.
unfoldable pub start_shutdown : Manager → List Session × Manager
start_shutdown m =
    let (registry', drained) = Registry.drain m.registry in
    (drained, record m { registry = registry'; shutting_down = true })

unfoldable pub shutdown_all : Manager → Manager
shutdown_all m =
    let (drained, m') = start_shutdown m in if m.shutting_down then m else shut_all drained m'
