-- ===== src/PortMapping/Upkeep.antt =====
-- nat/mod.rs, the renewal and the release of mappings.
use pnos_sdk.Base.{List, [], ◌∷◌, none, some}
use pnos_sdk.Address.{SocketAddr}
use pnos_sdk.PortMapping.{Igd, upnp, NatMapping, NatManager, host}
use pnos_sdk.PortMapping.Gateway.{with_external_ip}

module _ {R : Type 0} (igd : Igd R) where
  unfoldable pub renew_entries : SocketAddr → NatManager → List NatMapping → R → R
  renew_entries gw m [] r = r
  renew_entries gw m (x ∷ more) r =
      renew_entries gw m more
        (igd.add_port gw x.protocol x.external_port (host m x.internal_port) m.lease_duration
          x.description r).1

  -- One round of the renewal task, for the mappings that it read at its start.
  unfoldable pub renew : List NatMapping → NatManager × R → NatManager × R
  renew current_mappings (m, r) = elim m.gateway [
    | none ↦ (m, r)
    | some (upnp gw) ↦
        with_external_ip igd m (igd.get_external_ip gw (renew_entries gw m current_mappings r))
  ]

  unfoldable pub release_entries : SocketAddr → List NatMapping → R → R
  release_entries gw [] r = r
  release_entries gw (x ∷ more) r =
      release_entries gw more (igd.remove_port gw x.protocol x.external_port r)

  unfoldable pub release_all : NatManager × R → NatManager × R
  release_all (m, r) = elim m.gateway [
    | none ↦ (m, r)
    | some (upnp gw) ↦ (record m { mappings = [] }, release_entries gw m.mappings r)
  ]
