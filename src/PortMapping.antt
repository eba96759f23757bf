-- ===== src/PortMapping.antt =====
-- crates/pnos-net/src/nat/mod.rs: `NatManager`, which maps ports on the gateway by UPnP. The gateway is
-- reached by the crate igd, which is a parameter (`Igd`): functions on a state `R` of the network.
-- A task that panics inside igd counts as an error of its call.
mod Texts
pub mod Gateway
pub mod Setup
pub mod Upkeep
pub mod Router
pub mod Retry
pub mod Cleanup
pub mod Lifetime
mod Recording
pub mod Status
mod Success
mod Runs
use pnos_sdk.Base.{
  ℕ, zero, suc, ◌+◌, ◌%◌, Bool, true, false, ◌&&◌, ◌||◌, List, [], ◌∷◌, ◌++◌, map, Option, none,
  some, ltb, ◌==◌, if◌then◌else◌,
}
use pnos_sdk.Address.{IpAddr, v4, SocketAddr}
use pnos_sdk.Stun.{NatType, unknown}

-- `igd::PortMappingProtocol`, also for the texts "TCP" and "UDP" of a mapping.
-- `igd::PortMappingProtocol`, also for the texts "TCP" and "UDP" of a mapping.
pub data PortMappingProtocol : Type 0 where
  tcp udp : PortMappingProtocol

abbrev pub protocol_beq : PortMappingProtocol → PortMappingProtocol → Bool
protocol_beq tcp tcp = true
protocol_beq udp udp = true
protocol_beq _ _ = false

-- What `igd::Gateway::add_port` answers.
pub data AddPort : Type 0 where
  added port_in_use add_failed : AddPort

-- `igd::PortMappingEntry`.
pub record Entry : Type 0 where
  pub protocol : PortMappingProtocol
  pub external_port : ℕ
  pub internal_client : IpAddr
  pub internal_port : ℕ
  pub enabled : Bool
  pub port_mapping_description : List ℕ

-- The crate igd. A gateway is its address; the results of `remove_port` are not used.
pub record Igd (R : Type 0) : Type 0 where
  pub search_gateway : IpAddr → R → Option SocketAddr × R
  pub get_external_ip : SocketAddr → R → Option IpAddr × R
  -- Protocol, external port, local address, lease and description.
  pub add_port : SocketAddr → PortMappingProtocol → ℕ → SocketAddr → ℕ → List ℕ → R → AddPort × R
  pub remove_port : SocketAddr → PortMappingProtocol → ℕ → R → R
  pub get_generic_port_mapping_entry : SocketAddr → ℕ → R → Option Entry

pub data GatewayBackend : Type 0 where
  upnp : SocketAddr → GatewayBackend

pub record NatMapping : Type 0 where
  pub protocol : PortMappingProtocol
  pub internal_port : ℕ
  pub external_port : ℕ
  pub description : List ℕ
  pub verified : Bool
  pub reachable : Bool

-- The last error, without its text.
pub data LastError : Type 0 where
  gateway_not_found : LastError
  mapping_failed : PortMappingProtocol → ℕ → LastError

-- Without the metrics, the state machine and the IPv6 manager, which no operation uses. The number
-- of renewal tasks that were started is part of the state.
pub record NatManager : Type 0 where
  pub enabled : Bool
  pub lease_duration : ℕ
  pub local_ip : IpAddr
  pub mappings : List NatMapping
  pub gateway : Option GatewayBackend
  pub gateway_healthy : Bool
  pub external_ip : Option IpAddr
  pub last_error : Option LastError
  pub nat_type : NatType
  pub renewal_tasks : ℕ

-- `NatManager::new`; the detected address of the host, if there is one.
unfoldable pub new_manager : Bool → ℕ → Option IpAddr → NatManager
new_manager enabled lease_duration detected = record {
  enabled = enabled;
  lease_duration = lease_duration;
  local_ip = elim detected [ none ↦ v4 0 0 0 0 | some ip ↦ ip ];
  mappings = [];
  gateway = none;
  gateway_healthy = false;
  external_ip = none;
  last_error = none;
  nat_type = unknown;
  renewal_tasks = 0;
}

abbrev pub port_map_max_retries : ℕ
port_map_max_retries = 10

abbrev pub host : NatManager → ℕ → SocketAddr
host m port = record { ip = m.local_ip; port = port }

unfoldable pub push_mapping : PortMappingProtocol → ℕ → ℕ → List ℕ → NatManager → NatManager
push_mapping protocol internal_port external_port description m = record m {
  mappings =
      m.mappings
      ++ record {
        protocol = protocol;
        internal_port = internal_port;
        external_port = external_port;
        description = description;
        verified = false;
        reachable = false;
      }
        ∷ [];
}

-- Without the metrics, all of which are zero.
pub record NatStatus : Type 0 where
  pub enabled : Bool
  pub gateway_found : Bool
  pub gateway_healthy : Bool
  pub gateway_addr : Option SocketAddr
  pub external_ip : Option IpAddr
  pub local_ip : IpAddr
  pub nat_type : NatType
  pub reachability_score : ℕ
  pub mappings : List NatMapping
  pub last_error : Option LastError

unfoldable pub status : NatManager → NatStatus
status m = record {
  enabled = m.enabled;
  gateway_found = elim m.gateway [ none ↦ false | some g ↦ true ];
  gateway_healthy = m.gateway_healthy;
  gateway_addr = elim m.gateway [ none ↦ none | some (upnp gw) ↦ some gw ];
  external_ip = m.external_ip;
  local_ip = m.local_ip;
  nat_type = m.nat_type;
  reachability_score = 0;
  mappings = m.mappings;
  last_error = m.last_error;
}
