-- ===== src/Discovery.antt =====
-- crates/pnos-net/src/discovery/lpd.rs: the announcements by which nodes of one local network find each
-- other. The codec of their payload (the crate bincode) is an argument; sockets are left out.
pub mod Window
mod Runs
use pnos_sdk.Base.{
  ℕ, ◌-◌, Bool, true, false, List, [], ◌∷◌, ◌++◌, Option, none, some, ltb, if◌then◌else◌, length,
  take, drop, list_beq,
}
use pnos_sdk.Base.Dict.{lookup}
use pnos_sdk.Base.Dict
use pnos_sdk.NodeId.{NodeId, node_beq}
use pnos_sdk.Address.{IpAddr, v4, v6, SocketAddr, DiscoverySource, lpd}
use pnos_sdk.Manager.Cooldown.{key_eq}
use pnos_sdk.Manager.Policy.{Reachability, unknown}

abbrev pub lpd_magic : List ℕ
lpd_magic = b'P' ∷ b'N' ∷ b'O' ∷ b'S' ∷ []

abbrev pub default_lpd_dedup_window_secs : ℕ
default_lpd_dedup_window_secs = 15

pub record LpdAnnounceMessage : Type 0 where
  pub node_id : NodeId
  pub service_port : ℕ
  pub api_port : ℕ
  pub capabilities : ℕ
  pub data_entry_count : ℕ

-- `bincode::serialize` and `deserialize`.
pub record Codec : Type 0 where
  pub serialize : LpdAnnounceMessage → List ℕ
  pub deserialize : List ℕ → Option LpdAnnounceMessage

pub record DiscoveredNode : Type 0 where
  pub node_id : NodeId
  pub addresses : List SocketAddr
  pub reachability : Reachability
  pub nat_type : Option (List ℕ)
  pub source : DiscoverySource
  pub last_seen : ℕ

abbrev pub Key : Type 0
Key = NodeId × SocketAddr

-- Without the settings of the socket. The nodes that were sent on are listed in their order.
pub record LpdDiscoveryService : Type 0 where
  pub my_node_id : NodeId
  pub service_port : ℕ
  pub api_port : ℕ
  pub recent_announces : List (Key × ℕ)
  pub discovered : List DiscoveredNode

unfoldable pub to_wire : Codec → LpdAnnounceMessage → List ℕ
to_wire codec m = lpd_magic ++ codec.serialize m

unfoldable pub from_wire : Codec → List ℕ → Option LpdAnnounceMessage
from_wire codec wire =
    if ltb (length wire) 4
    then none
    else if list_beq (take 4 wire) lpd_magic
    then codec.deserialize (drop 4 wire)
    else none

-- The message of `broadcast_once`.
unfoldable pub announce : LpdDiscoveryService → LpdAnnounceMessage
announce s = record {
  node_id = s.my_node_id;
  service_port = s.service_port;
  api_port = s.api_port;
  capabilities = 0;
  data_entry_count = 0;
}

abbrev pub retain_recent : ℕ → List (Key × ℕ) → List (Key × ℕ)
retain_recent now [] = []
retain_recent now ((k, ts) ∷ more) =
    let rest = retain_recent now more in
    if ltb (now - ts) default_lpd_dedup_window_secs then (k, ts) ∷ rest else rest

-- An entry is in its window.
abbrev pub suppressed : ℕ → Option ℕ → Bool
suppressed now none = false
suppressed now (some ts) = ltb (now - ts) default_lpd_dedup_window_secs

unfoldable pub should_emit : Key → ℕ → List (Key × ℕ) → Bool × List (Key × ℕ)
should_emit key now recent =
    let recent' = if ltb 4096 (length recent) then retain_recent now recent else recent in
    if suppressed now (lookup key recent')
    then (false, recent')
    else (true, Dict.insert key now recent')

-- The announcement of another node, from an IPv4 address.
abbrev pub emitted :
    LpdAnnounceMessage
    → IpAddr
    → ℕ
    → LpdDiscoveryService
    → Bool × List (Key × ℕ)
    → Bool × LpdDiscoveryService
emitted m ip now s (false, recent) = (false, record s { recent_announces = recent })
emitted m ip now s (true, recent) = (
  true,
  record s {
    recent_announces = recent;
    discovered =
        s.discovered
        ++ record {
          node_id = m.node_id;
          addresses = record { ip = ip; port = m.service_port } ∷ [];
          reachability = unknown;
          nat_type = none;
          source = lpd;
          last_seen = now;
        }
          ∷ [];
  },
)

abbrev pub from_source :
    LpdAnnounceMessage → SocketAddr → IpAddr → ℕ → LpdDiscoveryService → Bool × LpdDiscoveryService
from_source m src (v4 a b c d) now s =
    emitted m (v4 a b c d) now s (should_emit (m.node_id, src) now s.recent_announces)
from_source m src (v6 segments) now s = (false, s)

-- Whether the message was news.
unfoldable pub handle_received_message :
    Codec → List ℕ → SocketAddr → ℕ → LpdDiscoveryService → Bool × LpdDiscoveryService
handle_received_message codec wire src now s = elim (from_wire codec wire) [
  | none ↦ (false, s)
  | some m ↦ if node_beq m.node_id s.my_node_id then (false, s) else from_source m src src.ip now s
]
