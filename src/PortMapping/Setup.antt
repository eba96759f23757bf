-- ===== src/PortMapping/Setup.antt =====
-- nat/mod.rs, `init` and `map_port`: what the manager maps and records.
use pnos_sdk.Base.{
  ℕ, suc, Bool, true, false, List, [], ◌∷◌, ◌++◌, Option, none, some, ltb, ◌==◌, if◌then◌else◌,
}
use pnos_sdk.Address.{IpAddr, SocketAddr}
use pnos_sdk.PortMapping.{
  PortMappingProtocol, tcp, udp, Igd, GatewayBackend, upnp, gateway_not_found, mapping_failed,
  NatManager, push_mapping,
}
use pnos_sdk.PortMapping.Texts.{
  http_tracker, udp_tracker, dht_crawler, relay_tcp, relay_udp, utp_server, tcp_pex_receiver,
  federation_tcp, federation_udp,
}
use pnos_sdk.PortMapping.Gateway.{
  map_port_with_retry, verify_mappings, cleanup_old_mappings, with_external_ip,
}

-- The ports of `init`.
pub record Ports : Type 0 where
  pub http_port : ℕ
  pub udp_port : ℕ
  pub crawler_port : ℕ
  pub relay_port : ℕ
  pub utp_port : ℕ
  pub tcp_pex_port : ℕ
  pub service_port : ℕ

-- A port that `init` maps; a failure of the first two is kept as the last error.
pub record Service : Type 0 where
  pub protocol : PortMappingProtocol
  pub port : ℕ
  pub description : List ℕ
  pub keeps_error : Bool

abbrev service : PortMappingProtocol → ℕ → List ℕ → Service
service protocol port description = record {
  protocol = protocol;
  port = port;
  description = description;
  keeps_error = false;
}

abbrev if_set : ℕ → List Service → List Service
if_set port list = if ltb 0 port then list else []

-- The blocks of `init`, in their order.
unfoldable pub services : Ports → List Service
services p =
    record { protocol = tcp; port = p.http_port; description = http_tracker; keeps_error = true }
    ∷ record { protocol = udp; port = p.udp_port; description = udp_tracker; keeps_error = true }
    ∷ (if_set p.crawler_port (service udp p.crawler_port dht_crawler ∷ [])
        ++ (if_set p.relay_port
              (service tcp p.relay_port relay_tcp ∷ service udp p.relay_port relay_udp ∷ [])
            ++ (if_set p.utp_port (service udp p.utp_port utp_server ∷ [])
                ++ (if_set p.tcp_pex_port (service tcp p.tcp_pex_port tcp_pex_receiver ∷ [])
                    ++ if_set p.service_port (
                        service tcp p.service_port federation_tcp
                        ∷ service udp p.service_port federation_udp
                        ∷ [])))))

module _ {R : Type 0} (igd : Igd R) where
  -- What `init` does with the result for one port, and whether it counts.
  abbrev pub after_service : Service → NatManager → Option ℕ → Bool × NatManager
  after_service s m (some external) =
      (true, push_mapping s.protocol s.port external s.description m)
  after_service s m none = (
    false,
    if s.keeps_error then record m { last_error = some (mapping_failed s.protocol s.port) } else m,
  )

  -- The number of ports that were mapped.
  unfoldable pub map_services :
      List Service → SocketAddr → ℕ → NatManager × R → ℕ × (NatManager × R)
  map_services [] gw count (m, r) = (count, (m, r))
  map_services (s ∷ more) gw count (m, r) =
      let (o, r') = map_port_with_retry igd m gw s.protocol s.port s.description r in
      let (mapped, m') = after_service s m o in
      map_services more gw (if mapped then suc count else count) (m', r')

  abbrev pub start_renewal_task : NatManager → NatManager
  start_renewal_task m = record m { renewal_tasks = suc m.renewal_tasks }

  abbrev pub finish_init : SocketAddr → ℕ × (NatManager × R) → Bool × (NatManager × R)
  finish_init gw (count, (m, r)) =
      let m' = verify_mappings igd gw m r in
      (ltb 0 count, (if ltb 0 m.lease_duration then start_renewal_task m' else m', r))

  abbrev pub set_up : Ports → NatManager → Option SocketAddr × R → Bool × (NatManager × R)
  set_up ports m (none, r) = (false, (record m { last_error = some gateway_not_found }, r))
  set_up ports m (some gw, r) =
      let m' : NatManager = record m { gateway = some (upnp gw) } in
      let (m'', r') = with_external_ip igd m' (igd.get_external_ip gw r) in
      finish_init gw (map_services (services ports) gw 0 (m'', cleanup_old_mappings igd gw r'))

  -- Whether there was no error.
  unfoldable pub init : Ports → NatManager × R → Bool × (NatManager × R)
  init ports (m, r) =
      if m.enabled then set_up ports m (igd.search_gateway m.local_ip r) else (true, (m, r))

  abbrev pub discovered : NatManager → Option SocketAddr × R → Option SocketAddr × (NatManager × R)
  discovered m (none, r) = (none, (m, r))
  discovered m (some gw, r) = (some gw, (record m { gateway = some (upnp gw) }, r))

  -- The gateway that is known, or else one that is searched for.
  abbrev pub known_or_discovered :
      Option GatewayBackend → NatManager → R → Option SocketAddr × (NatManager × R)
  known_or_discovered none m r = discovered m (igd.search_gateway m.local_ip r)
  known_or_discovered (some (upnp gw)) m r = (some gw, (m, r))

  abbrev pub recorded :
      PortMappingProtocol → ℕ → List ℕ → NatManager → Option ℕ × R → Option ℕ × (NatManager × R)
  recorded protocol internal_port description m (none, r) = (none, (m, r))
  recorded protocol internal_port description m (some external, r) =
      (some external, (push_mapping protocol internal_port external description m, r))

  -- The external address is asked for, unless it is known.
  abbrev pub ask_external_ip : Option IpAddr → SocketAddr → NatManager → R → NatManager × R
  ask_external_ip none gw m r = with_external_ip igd m (igd.get_external_ip gw r)
  ask_external_ip (some ip) gw m r = (m, r)

  abbrev pub map_on :
      PortMappingProtocol
      → ℕ
      → List ℕ
      → Option SocketAddr × (NatManager × R)
      → Option ℕ × (NatManager × R)
  map_on protocol internal_port description (none, s) = (none, s)
  map_on protocol internal_port description (some gw, (m, r)) =
      let (m', r') = ask_external_ip m.external_ip gw m r in
      recorded protocol internal_port description m'
        (map_port_with_retry igd m' gw protocol internal_port description r')

  -- The external port, or none after an error.
  unfoldable pub map_port :
      PortMappingProtocol → ℕ → List ℕ → NatManager × R → Option ℕ × (NatManager × R)
  map_port protocol internal_port description (m, r) =
      if m.enabled
      then (if internal_port == 0
          then (none, (m, r))
          else map_on protocol internal_port description (known_or_discovered m.gateway m r))
      else (none, (m, r))
