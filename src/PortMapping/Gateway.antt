-- ===== src/PortMapping/Gateway.antt =====
-- nat/mod.rs, the calls of the gateway: the retry over candidate ports, the verification, the cleanup.
use pnos_sdk.Base.{
  ℕ, zero, suc, ◌+◌, ◌%◌, Bool, false, ◌&&◌, ◌||◌, List, [], ◌∷◌, map, Option, none, some, ◌==◌,
  if◌then◌else◌,
}
use pnos_sdk.Address.{IpAddr, SocketAddr}
use pnos_sdk.PortMapping.{
  PortMappingProtocol, protocol_beq, AddPort, added, port_in_use, add_failed, Entry, Igd,
  NatMapping, NatManager, port_map_max_retries, host,
}
use pnos_sdk.PortMapping.Texts.{contains, pnos_text, pdc_text}

-- The entry is one of a PNOS node, by its description.
abbrev pub is_old : Entry → Bool
is_old e =
    contains e.port_mapping_description pdc_text || contains e.port_mapping_description pnos_text

abbrev pub only_old : List Entry → List Entry
only_old [] = []
only_old (e ∷ more) = if is_old e then e ∷ only_old more else only_old more

abbrev pub matches : NatMapping → Entry → Bool
matches m e =
    e.enabled
    && e.external_port == m.external_port
    && protocol_beq e.protocol m.protocol
    && e.internal_port == m.internal_port

abbrev pub any_matches : NatMapping → List Entry → Bool
any_matches m [] = false
any_matches m (e ∷ more) = matches m e || any_matches m more

unfoldable pub verify : List Entry → NatMapping → NatMapping
verify entries m = record m { verified = any_matches m entries }

module _ {R : Type 0} (igd : Igd R) where
  -- The call for one candidate port; port 0 is passed over like a port in use.
  unfoldable pub try_port :
      NatManager → SocketAddr → PortMappingProtocol → ℕ → ℕ → List ℕ → R → AddPort × R
  try_port m gw protocol preferred_port external_port description r =
      if external_port == 0
      then (port_in_use, r)
      else igd.add_port gw protocol external_port (host m preferred_port) m.lease_duration
          description r

  -- The loop, from an offset on; `left` rounds are left.
  unfoldable pub retry :
      ℕ → ℕ → NatManager → SocketAddr → PortMappingProtocol → ℕ → List ℕ → R → Option ℕ × R
  retry zero offset m gw protocol preferred_port description r = (none, r)
  retry (suc left) offset m gw protocol preferred_port description r =
      let external_port = (preferred_port + offset) % 65536 in
      let (outcome, r') = try_port m gw protocol preferred_port external_port description r in
      elim outcome [
        | added ↦ (some external_port, r')
        | port_in_use ↦ retry left (suc offset) m gw protocol preferred_port description r'
        | add_failed ↦ (none, r')
      ]

  unfoldable pub map_port_with_retry :
      NatManager → SocketAddr → PortMappingProtocol → ℕ → List ℕ → R → Option ℕ × R
  map_port_with_retry = retry port_map_max_retries 0

  -- The entries of the gateway up to the first error, 200 at most.
  unfoldable pub entries_from : ℕ → ℕ → SocketAddr → R → List Entry
  entries_from zero i gw r = []
  entries_from (suc left) i gw r = elim (igd.get_generic_port_mapping_entry gw i r) [
    | none ↦ []
    | some e ↦ e ∷ entries_from left (suc i) gw r
  ]

  unfoldable pub verify_mappings : SocketAddr → NatManager → R → NatManager
  verify_mappings gw m r = record m { mappings = map (verify (entries_from 200 0 gw r)) m.mappings }

  unfoldable pub remove_ports : SocketAddr → List Entry → R → R
  remove_ports gw [] r = r
  remove_ports gw (e ∷ more) r =
      remove_ports gw more (igd.remove_port gw e.protocol e.external_port r)

  unfoldable pub cleanup_old_mappings : SocketAddr → R → R
  cleanup_old_mappings gw r = remove_ports gw (only_old (entries_from 200 0 gw r)) r

  -- The address is kept if the gateway tells none.
  abbrev pub with_external_ip : NatManager → Option IpAddr × R → NatManager × R
  with_external_ip m (none, r) = (m, r)
  with_external_ip m (some ip, r) = (record m { external_ip = some ip }, r)
