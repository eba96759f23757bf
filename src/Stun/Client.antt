-- ===== src/Stun/Client.antt =====
-- crates/pnos-net/src/nat/stun.rs: what the client concludes from replies. Sending a request from the
-- local address and waiting for the reply is an argument: a function from the server, the request and
-- the time to the reply, or to none if the socket or the server failed, and the time at which it ends.
use pnos_sdk.Base.{
  ℕ, ◌-◌, Bool, true, false, List, [], ◌∷◌, Option, none, some, if◌then◌else◌, list_beq, take,
}
use pnos_sdk.Address.{SocketAddr, addr_beq}
use pnos_sdk.Stun.{
  NatType, open_internet, full_cone, symmetric, unknown, random_transaction_id,
  build_binding_request, parse_mapped_address,
}

-- The name of a server.
abbrev pub Server : Type 0
Server = List ℕ

pub record Reply : Type 0 where
  pub bytes : List ℕ
  -- The address of the socket, after the exchange.
  pub local_addr : SocketAddr

abbrev pub Exchange : Type 0
Exchange = Server → List ℕ → ℕ → Option Reply × ℕ

pub record StunResult : Type 0 where
  pub success : Bool
  pub mapped_addr : Option SocketAddr
  pub local_addr : SocketAddr
  pub nat_type : NatType
  pub server : Server
  pub rtt_ms : ℕ

abbrev pub result_of : Server → ℕ → SocketAddr → Option SocketAddr → StunResult
result_of server rtt local (some mapped) = record {
  success = true;
  mapped_addr = some mapped;
  local_addr = local;
  nat_type = if addr_beq mapped local then open_internet else unknown;
  server = server;
  rtt_ms = rtt;
}
result_of server rtt local none = record {
  success = false;
  mapped_addr = none;
  local_addr = local;
  nat_type = unknown;
  server = server;
  rtt_ms = rtt;
}

-- A reply is read into a buffer of 512 bytes; what does not fit is lost.
abbrev pub concluded : Server → ℕ → Option Reply × ℕ → Option StunResult × ℕ
concluded server now (none, ended) = (none, ended)
concluded server now (some reply, ended) = (
  some (
      result_of server (ended - now) reply.local_addr
        (parse_mapped_address (take 512 reply.bytes) (random_transaction_id now))),
  ended,
)

-- No result if there was an error. The time is that of the start, and then of the end.
unfoldable pub stun_binding_request : Exchange → Server → ℕ → Option StunResult × ℕ
stun_binding_request exchange server now =
    concluded server now (exchange server (build_binding_request (random_transaction_id now)) now)

-- The first result that is a success.
unfoldable pub stun_binding_request_multi : Exchange → List Server → ℕ → Option StunResult
stun_binding_request_multi exchange [] now = none
stun_binding_request_multi exchange (server ∷ more) now =
    let (result, ended) = stun_binding_request exchange server now in
    let rest = stun_binding_request_multi exchange more ended in
    elim result [ none ↦ rest | some r ↦ if r.success then some r else rest ]

-- The mapped address, with the local one, of a result that is a success.
abbrev pub mapping : Option StunResult → Option (SocketAddr × SocketAddr)
mapping none = none
mapping (some r) =
    if r.success
    then (elim r.mapped_addr [ none ↦ none | some mapped ↦ some (mapped, r.local_addr) ])
    else none

-- The second test, for the address that the first server saw.
abbrev pub compare_mappings : SocketAddr → Option (SocketAddr × SocketAddr) → NatType
compare_mappings mapped_a none = unknown
compare_mappings mapped_a (some (mapped_b, local_b)) =
    if addr_beq mapped_a mapped_b then full_cone else symmetric

abbrev pub first_test :
    Option (SocketAddr × SocketAddr) → Option (SocketAddr × SocketAddr) → NatType
first_test none second = unknown
first_test (some (mapped_a, local_a)) second =
    if addr_beq mapped_a local_a then open_internet else compare_mappings mapped_a second

unfoldable pub detect_nat_type : Exchange → Server → Server → ℕ → NatType
detect_nat_type exchange server_a server_b now =
    let (result_a, ended) = stun_binding_request exchange server_a now in
    first_test (mapping result_a) (mapping (stun_binding_request exchange server_b ended).0)

-- The first server that differs from the first one, or else the second one.
abbrev pub other_server : Server → Server → List Server → Server
other_server server_a default [] = default
other_server server_a default (s ∷ more) =
    if list_beq s server_a then other_server server_a default more else s

-- With one server: only a direct connection can be told.
abbrev pub one_test : Option (SocketAddr × SocketAddr) → NatType
one_test none = unknown
one_test (some (mapped, local)) = if addr_beq mapped local then open_internet else unknown

unfoldable pub detect_nat_type_multi : Exchange → List Server → ℕ → NatType
detect_nat_type_multi exchange [] now = unknown
detect_nat_type_multi exchange (server ∷ []) now =
    one_test (mapping (stun_binding_request exchange server now).0)
detect_nat_type_multi exchange (server_a ∷ b ∷ more) now =
    detect_nat_type exchange server_a (other_server server_a b (b ∷ more)) now

pub record ReachabilityResult : Type 0 where
  pub reachable : Bool
  pub mapped_addr : Option SocketAddr
  pub local_port : ℕ
  pub rtt_ms : ℕ
  pub server : Server

abbrev reachability_of : ℕ → Option StunResult → ReachabilityResult
reachability_of local_port none = record {
  reachable = false;
  mapped_addr = none;
  local_port = local_port;
  rtt_ms = 0;
  server = [];
}
reachability_of local_port (some r) = record {
  reachable = elim r.mapped_addr [ none ↦ false | some a ↦ true ];
  mapped_addr = r.mapped_addr;
  local_port = local_port;
  rtt_ms = r.rtt_ms;
  server = r.server;
}

-- The exchange is that of a socket bound to the port.
unfoldable pub check_udp_reachability : Exchange → List Server → ℕ → ℕ → ReachabilityResult
check_udp_reachability exchange servers local_port now =
    reachability_of local_port (stun_binding_request_multi exchange servers now)
