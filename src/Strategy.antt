-- ===== src/Strategy.antt =====
-- crates/pnos-net/src/connector.rs and strategy.rs: TCP connections to one of several addresses, with
-- retries, and hole punching where they fail. Opening a TCP connection and punching a hole are
-- arguments: functions of the address and the time to their success and the time at which they end.
pub mod Direct
pub mod Outcomes
mod Runs
use pnos_sdk.Base.{
  ℕ, zero, suc, ◌+◌, ◌-◌, ◌*◌, Bool, true, false, ◌&&◌, List, [], ◌∷◌, Option, none, some,
  if◌then◌else◌,
}
use pnos_sdk.Address.{SocketAddr}
use pnos_sdk.Manager.Policy.{
  Reachability, public_ipv6, mapped, hole_punchable, outbound_only, unknown,
}

-- `TcpStream::connect` under a timeout: address, timeout and time.
abbrev pub Tcp : Type 0
Tcp = SocketAddr → ℕ → ℕ → Bool × ℕ

-- `HolePuncher::punch`.
abbrev pub Puncher : Type 0
Puncher = SocketAddr → ℕ → Bool × ℕ

-- Durations are in milliseconds.
pub record TcpConnectConfig : Type 0 where
  pub connect_timeout : ℕ
  pub retry_interval : ℕ
  pub max_retries : ℕ

abbrev pub default_tcp_config : TcpConnectConfig
default_tcp_config = record { connect_timeout = 5 * 1000; retry_interval = 0; max_retries = 2 }

pub record TcpConnection : Type 0 where
  pub connected_addr : SocketAddr
  pub latency : ℕ

-- The tries of one address; as many retries are left.
unfoldable pub tries : Tcp → TcpConnectConfig → SocketAddr → ℕ → ℕ → Option TcpConnection × ℕ
tries tcp config addr zero now =
    let (connected, ended) = tcp addr config.connect_timeout now in
    (
      if connected then some (record { connected_addr = addr; latency = ended - now }) else none,
      ended,
    )
tries tcp config addr (suc left) now =
    let (connected, ended) = tcp addr config.connect_timeout now in
    elim connected [
      | true ↦ (some (record { connected_addr = addr; latency = ended - now }), ended)
      | false ↦ tries tcp config addr left (ended + config.retry_interval)
    ]

-- The first connection; none if no address can be connected to.
unfoldable pub connect_any : Tcp → TcpConnectConfig → List SocketAddr → ℕ → Option TcpConnection × ℕ
connect_any tcp config [] now = (none, now)
connect_any tcp config (addr ∷ more) now =
    let (connection, ended) = tries tcp config addr config.max_retries now in
    elim connection [ some c ↦ (some c, ended) | none ↦ connect_any tcp config more ended ]

unfoldable pub connect_one : Tcp → SocketAddr → ℕ → ℕ → Option TcpConnection × ℕ
connect_one tcp addr timeout now =
    let (connected, ended) = tcp addr timeout now in
    (
      if connected then some (record { connected_addr = addr; latency = ended - now }) else none,
      ended,
    )

abbrev pub hole_punch_tcp_timeout : ℕ
hole_punch_tcp_timeout = 5 * 1000

abbrev pub fallback_tcp_timeout : ℕ
fallback_tcp_timeout = 3 * 1000

pub record ConnectStrategyConfig : Type 0 where
  pub tcp_config : TcpConnectConfig
  pub hole_punch_timeout : ℕ
  pub hole_punch_enabled : Bool
  pub fallback_to_hole_punch : Bool

abbrev pub default_strategy_config : ConnectStrategyConfig
default_strategy_config = record {
  tcp_config = default_tcp_config;
  hole_punch_timeout = 10 * 1000;
  hole_punch_enabled = true;
  fallback_to_hole_punch = true;
}

pub data ConnectMethod : Type 0 where
  tcp_direct udp_hole_punch relay : ConnectMethod

pub record ConnectResult : Type 0 where
  pub connection : TcpConnection
  pub method : ConnectMethod
  pub total_latency : ℕ

-- A TCP connection is tried also behind a punch that failed, with a shorter timeout.
unfoldable pub try_hole_punch : Tcp → Puncher → SocketAddr → ℕ → Option TcpConnection × ℕ
try_hole_punch tcp punch addr now =
    let (success, ended) = punch addr now in
    connect_one tcp addr (if success then hole_punch_tcp_timeout else fallback_tcp_timeout) ended

abbrev pub can_hole_punch : Reachability → Bool
can_hole_punch hole_punchable = true
can_hole_punch outbound_only = false
can_hole_punch unknown = true
can_hole_punch public_ipv6 = false
can_hole_punch mapped = false

-- The loop over the addresses; `start` is the time of the call.
unfoldable pub punch_any : Tcp → Puncher → ℕ → List SocketAddr → ℕ → Option ConnectResult
punch_any tcp punch start [] now = none
punch_any tcp punch start (addr ∷ more) now =
    let (connection, ended) = try_hole_punch tcp punch addr now in
    elim connection [
      | some c ↦
          some (record { connection = c; method = udp_hole_punch; total_latency = ended - start })
      | none ↦ punch_any tcp punch start more ended
    ]

abbrev pub punch_with : Tcp → Option Puncher → ℕ → List SocketAddr → ℕ → Option ConnectResult
punch_with tcp none start addrs now = none
punch_with tcp (some punch) start addrs now = punch_any tcp punch start addrs now

abbrev pub after_direct :
    Tcp
    → ConnectStrategyConfig
    → Option Puncher
    → List SocketAddr
    → Reachability
    → ℕ
    → Option TcpConnection × ℕ
    → Option ConnectResult
after_direct tcp config puncher addrs reach start (some c, ended) =
    some (record { connection = c; method = tcp_direct; total_latency = ended - start })
after_direct tcp config puncher addrs reach start (none, ended) =
    if config.fallback_to_hole_punch && config.hole_punch_enabled
    then (if can_hole_punch reach then punch_with tcp puncher start addrs ended else none)
    else none

-- None after an error; without an address it is one at once.
unfoldable pub connect :
    Tcp
    → ConnectStrategyConfig
    → Option Puncher
    → List SocketAddr
    → Reachability
    → ℕ
    → Option ConnectResult
connect tcp config puncher [] reach now = none
connect tcp config puncher (a ∷ more) reach now =
    after_direct tcp config puncher (a ∷ more) reach now
      (connect_any tcp config.tcp_config (a ∷ more) now)
