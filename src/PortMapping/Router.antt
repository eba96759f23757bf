-- ===== src/PortMapping/Router.antt =====
-- What the crate igd and a gateway document of UPnP port mappings, as laws on the table of the gateway.
use pnos_sdk.Base.{
  ℕ, ◌<◌, ◌≡◌, ◌≢◌, ◌↔◌, refl, Bool, true, false, ◌&&◌, not, List, [], ◌∷◌, Option, none, some,
  ◌==◌, ==_iff, if◌then◌else◌, All, arith,
}
use pnos_sdk.Address.{IpAddr, ip_beq, SocketAddr}
use pnos_sdk.PortMapping.{
  PortMappingProtocol, tcp, udp, protocol_beq, added, port_in_use, add_failed, Entry, Igd,
}

-- The same protocol and external port.
abbrev pub same : PortMappingProtocol → ℕ → PortMappingProtocol → ℕ → Bool
same p n q k = protocol_beq p q && n == k

-- The entry of a table for a protocol and an external port.
abbrev pub held : List Entry → PortMappingProtocol → ℕ → Option Entry
held [] q k = none
held (e ∷ more) q k = if same e.protocol e.external_port q k then some e else held more q k

-- The entry is that of another host.
abbrev pub is_foreign : IpAddr → Option Entry → Bool
is_foreign ip none = false
is_foreign ip (some e) = not (ip_beq e.internal_client ip)

abbrev pub entry : PortMappingProtocol → ℕ → SocketAddr → List ℕ → Entry
entry p n local description = record {
  protocol = p;
  external_port = n;
  internal_client = local.ip;
  internal_port = local.port;
  enabled = true;
  port_mapping_description = description;
}

abbrev pub entry_at : List Entry → ℕ → Option Entry
entry_at [] i = none
entry_at (e ∷ more) i = elim i [ ℕ.zero ↦ some e | ℕ.suc j ↦ entry_at more j ]

-- Each entry of these is the one that the table holds for its protocol and port.
abbrev pub AreHeld : List Entry → List Entry → Type 0
AreHeld table = All (λ e. held table e.protocol e.external_port ≡ some e)

-- A gateway with a table: a call for local port 0 fails before the gateway is asked, with igd's
-- `InternalPortZeroInvalid`; a port is refused if another host has it, and is mapped otherwise; a removal
-- takes out the entry of its port; the entries are listed in some order, without gaps.
pub record IsRouter {R : Type 0} (igd : Igd R) (gw : SocketAddr) (table : R → List Entry)
    : Type 0 where
  pub no_local_port :
      (p : PortMappingProtocol) (n : ℕ) (local : SocketAddr) (lease : ℕ) (d : List ℕ) (r : R)
      → n ≢ 0
      → local.port ≡ 0
      → igd.add_port gw p n local lease d r ≡ (add_failed, r)
  pub refused :
      (p : PortMappingProtocol) (n : ℕ) (local : SocketAddr) (lease : ℕ) (d : List ℕ) (r : R)
      → local.port ≢ 0
      → is_foreign local.ip (held (table r) p n) ≡ true
      → igd.add_port gw p n local lease d r ≡ (port_in_use, r)
  pub granted :
      (p : PortMappingProtocol) (n : ℕ) (local : SocketAddr) (lease : ℕ) (d : List ℕ) (r : R)
      → n ≢ 0
      → local.port ≢ 0
      → n < 65536
      → is_foreign local.ip (held (table r) p n) ≡ false
      → ((igd.add_port gw p n local lease d r).0 ≡ added)
        × ((q : PortMappingProtocol) (k : ℕ)
            → held (table (igd.add_port gw p n local lease d r).1) q k
              ≡ (if same p n q k then some (entry p n local d) else held (table r) q k))
  pub removed :
      (p : PortMappingProtocol) (n : ℕ) (r : R) (q : PortMappingProtocol) (k : ℕ)
      → held (table (igd.remove_port gw p n r)) q k
        ≡ (if same p n q k then none else held (table r) q k)
  pub asked : (r : R) → table (igd.get_external_ip gw r).1 ≡ table r
  pub listed : (i : ℕ) (r : R) → igd.get_generic_port_mapping_entry gw i r ≡ entry_at (table r) i
  pub unique : (r : R) → AreHeld (table r) (table r)

pub protocol_beq_iff : (p q : PortMappingProtocol) → (protocol_beq p q ≡ true) ↔ (p ≡ q)
protocol_beq_iff tcp tcp = (λ _. refl, λ _. refl)
protocol_beq_iff tcp udp = (λ h. ground (arith, h), λ h. ground (arith, h))
protocol_beq_iff udp tcp = (λ h. ground (arith, h), λ h. ground (arith, h))
protocol_beq_iff udp udp = (λ _. refl, λ _. refl)

pub same_iff : (p q : PortMappingProtocol) (n k : ℕ) → (same p n q k ≡ true) ↔ ((p ≡ q) × (n ≡ k))
same_iff p q n k = (
  λ h. ((protocol_beq_iff p q).0 (ground (arith, h)), (==_iff n k).0 (ground (arith, h))),
  λ h. rw ((protocol_beq_iff p q).1 h.0, (==_iff n k).1 h.1) refl,
)
