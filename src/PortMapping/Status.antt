-- ===== src/PortMapping/Status.antt =====
-- What holds of the manager of nat/mod.rs after any calls, on any gateway.
use pnos_sdk.Base.{
  ℕ, ◌≡◌, refl, Bool, true, false, List, [], ◌∷◌, Option, none, some, ltb, ◌==◌, if◌then◌else◌, All,
}
use pnos_sdk.Address.{IpAddr, SocketAddr}
use pnos_sdk.Stun.{unknown}
use pnos_sdk.PortMapping.{
  PortMappingProtocol, Igd, GatewayBackend, upnp, NatMapping, NatManager, new_manager, status,
}
use pnos_sdk.PortMapping.Setup.{
  Ports, services, ask_external_ip, map_services, finish_init, set_up, start_renewal_task, init,
  discovered, known_or_discovered, recorded, map_on, map_port,
}
use pnos_sdk.PortMapping.Gateway.{
  map_port_with_retry, verify_mappings, entries_from, cleanup_old_mappings, with_external_ip,
}
use pnos_sdk.PortMapping.Upkeep.{renew, renew_entries, release_entries, release_all}
use pnos_sdk.PortMapping.Recording.{
  IsMapped, IsUnmonitored, All-verify, push_mapping-IsUnmonitored, IsPort,
  map_port_with_retry-IsPort, map_services-IsUnmonitored,
}

-- A call of the manager; a round of renewal has the mappings that it read.
pub data NatCall : Type 0 where
  call_init : Ports → NatCall
  call_map_port : PortMappingProtocol → ℕ → List ℕ → NatCall
  call_renew : List NatMapping → NatCall
  call_release_all : NatCall

module _ {R : Type 0} (igd : Igd R) where
  unfoldable pub run_nat : List NatCall → NatManager × R → NatManager × R
  run_nat [] s = s
  run_nat (call_init ports ∷ more) s = run_nat more (init igd ports s).1
  run_nat (call_map_port p port d ∷ more) s = run_nat more (map_port igd p port d s).1
  run_nat (call_renew l ∷ more) s = run_nat more (renew igd l s)
  run_nat (call_release_all ∷ more) s = run_nat more (release_all igd s)

  with_external_ip-IsUnmonitored :
      (m : NatManager) (x : Option IpAddr × R)
      → IsUnmonitored m
      → IsUnmonitored (with_external_ip igd m x).0
  with_external_ip-IsUnmonitored m (none, r) h = h
  with_external_ip-IsUnmonitored m (some ip, r) h = record {
    unhealthy = h.unhealthy;
    untyped = h.untyped;
    mapped = h.mapped;
  }

  finish_init-IsUnmonitored :
      (gw : SocketAddr) (count : ℕ) (m : NatManager) (r : R)
      → IsUnmonitored m
      → IsUnmonitored (finish_init igd gw (count, (m, r))).1.0
  unfolding verify_mappings
  finish_init-IsUnmonitored gw count m r h = either (ltb 0 m.lease_duration)
    where
      verified : IsUnmonitored (verify_mappings igd gw m r)
      verified = record {
        unhealthy = h.unhealthy;
        untyped = h.untyped;
        mapped = All-verify (entries_from igd 200 0 gw r) m.mappings h.mapped;
      }

      either :
          (b : Bool)
          → IsUnmonitored (
              if b
              then start_renewal_task igd (verify_mappings igd gw m r)
              else verify_mappings igd gw m r)
      either true = record {
        unhealthy = verified.unhealthy;
        untyped = verified.untyped;
        mapped = verified.mapped;
      }
      either false = verified

  set_up-IsUnmonitored :
      (ports : Ports) (m : NatManager) (x : Option SocketAddr × R)
      → IsUnmonitored m
      → IsUnmonitored (set_up igd ports m x).1.0
  set_up-IsUnmonitored ports m (none, r) h = record {
    unhealthy = h.unhealthy;
    untyped = h.untyped;
    mapped = h.mapped;
  }
  set_up-IsUnmonitored ports m (some gw, r) h =
      let m' : NatManager = record m { gateway = some (upnp gw) } in
      let y = with_external_ip igd m' (igd.get_external_ip gw r) in
      let z = map_services igd (services ports) gw 0 (y.0, cleanup_old_mappings igd gw y.1) in
      finish_init-IsUnmonitored gw z.0 z.1.0 z.1.1 (
        map_services-IsUnmonitored igd (services ports) gw 0 y.0 (cleanup_old_mappings igd gw y.1) (
          with_external_ip-IsUnmonitored (record m { gateway = some (upnp gw) })
            (igd.get_external_ip gw r)
            (record { unhealthy = h.unhealthy; untyped = h.untyped; mapped = h.mapped })))

  if-IsUnmonitored :
      {A : Type 0} (b : Bool) (x y : A × (NatManager × R))
      → IsUnmonitored x.1.0
      → IsUnmonitored y.1.0
      → IsUnmonitored (if b then x else y).1.0
  if-IsUnmonitored true x y h k = h
  if-IsUnmonitored false x y h k = k

  init-IsUnmonitored :
      (ports : Ports) (m : NatManager) (r : R)
      → IsUnmonitored m
      → IsUnmonitored (init igd ports (m, r)).1.0
  unfolding init
  init-IsUnmonitored ports m r h =
      if-IsUnmonitored m.enabled _ _
        (set_up-IsUnmonitored ports m (igd.search_gateway m.local_ip r) h) h

  discovered-IsUnmonitored :
      (m : NatManager) (x : Option SocketAddr × R)
      → IsUnmonitored m
      → IsUnmonitored (discovered igd m x).1.0
  discovered-IsUnmonitored m (none, r) h = h
  discovered-IsUnmonitored m (some gw, r) h = record {
    unhealthy = h.unhealthy;
    untyped = h.untyped;
    mapped = h.mapped;
  }

  known_or_discovered-IsUnmonitored :
      (o : Option GatewayBackend) (m : NatManager) (r : R)
      → IsUnmonitored m
      → IsUnmonitored (known_or_discovered igd o m r).1.0
  known_or_discovered-IsUnmonitored none m r h =
      discovered-IsUnmonitored m (igd.search_gateway m.local_ip r) h
  known_or_discovered-IsUnmonitored (some (upnp gw)) m r h = h

  ask_external_ip-IsUnmonitored :
      (o : Option IpAddr) (gw : SocketAddr) (m : NatManager) (r : R)
      → IsUnmonitored m
      → IsUnmonitored (ask_external_ip igd o gw m r).0
  ask_external_ip-IsUnmonitored none gw m r h =
      with_external_ip-IsUnmonitored m (igd.get_external_ip gw r) h
  ask_external_ip-IsUnmonitored (some ip) gw m r h = h

  recorded-IsUnmonitored :
      (p : PortMappingProtocol) (port : ℕ) (d : List ℕ) (m : NatManager) (x : Option ℕ × R)
      → IsPort igd x.0
      → IsUnmonitored m
      → IsUnmonitored (recorded igd p port d m x).1.0
  unfolding IsPort
  recorded-IsUnmonitored p port d m (none, r) valid h = h
  recorded-IsUnmonitored p port d m (some n, r) (valid, small) h =
      push_mapping-IsUnmonitored p port n d m valid small h

  map_on-IsUnmonitored :
      (p : PortMappingProtocol) (port : ℕ) (d : List ℕ) (x : Option SocketAddr × (NatManager × R))
      → IsUnmonitored x.1.0
      → IsUnmonitored (map_on igd p port d x).1.0
  map_on-IsUnmonitored p port d (none, s) h = h
  map_on-IsUnmonitored p port d (some gw, (m, r)) h =
      let (m', r') = ask_external_ip igd m.external_ip gw m r in
      recorded-IsUnmonitored p port d m' (map_port_with_retry igd m' gw p port d r')
        (map_port_with_retry-IsPort igd m' gw p port d r')
        (ask_external_ip-IsUnmonitored m.external_ip gw m r h)

  map_port-IsUnmonitored :
      (p : PortMappingProtocol) (port : ℕ) (d : List ℕ) (m : NatManager) (r : R)
      → IsUnmonitored m
      → IsUnmonitored (map_port igd p port d (m, r)).1.0
  unfolding map_port
  map_port-IsUnmonitored p port d m r h =
      if-IsUnmonitored m.enabled _ _
        (if-IsUnmonitored (port == 0) _ _ h
          (map_on-IsUnmonitored p port d _ (known_or_discovered-IsUnmonitored m.gateway m r h)))
        h

  renew-IsUnmonitored :
      (l : List NatMapping) (m : NatManager) (r : R)
      → IsUnmonitored m
      → IsUnmonitored (renew igd l (m, r)).0
  unfolding renew
  renew-IsUnmonitored l m r h = behind m.gateway
    where
      behind :
          (o : Option GatewayBackend)
          → IsUnmonitored
              (elim o as (λ g. NatManager × R) [
                | none ↦ (m, r)
                | some (upnp gw) ↦
                    with_external_ip igd m (igd.get_external_ip gw (renew_entries igd gw m l r))
              ]).0
      behind none = h
      behind (some (upnp gw)) =
          with_external_ip-IsUnmonitored m (igd.get_external_ip gw (renew_entries igd gw m l r)) h

  release_all-IsUnmonitored :
      (m : NatManager) (r : R) → IsUnmonitored m → IsUnmonitored (release_all igd (m, r)).0
  unfolding release_all
  release_all-IsUnmonitored m r h = behind m.gateway
    where
      behind :
          (o : Option GatewayBackend)
          → IsUnmonitored
              (elim o as (λ g. NatManager × R) [
                | none ↦ (m, r)
                | some (upnp gw) ↦ (record m { mappings = [] }, release_entries igd gw m.mappings r)
              ]).0
      behind none = h
      behind (some (upnp gw)) = record { unhealthy = h.unhealthy; untyped = h.untyped; mapped = tt }

  run_nat-IsUnmonitored :
      (calls : List NatCall) (m : NatManager) (r : R)
      → IsUnmonitored m
      → IsUnmonitored (run_nat calls (m, r)).0
  unfolding run_nat
  run_nat-IsUnmonitored [] m r h = h
  run_nat-IsUnmonitored (call_init ports ∷ more) m r h =
      run_nat-IsUnmonitored more _ _ (init-IsUnmonitored ports m r h)
  run_nat-IsUnmonitored (call_map_port p port d ∷ more) m r h =
      run_nat-IsUnmonitored more _ _ (map_port-IsUnmonitored p port d m r h)
  run_nat-IsUnmonitored (call_renew l ∷ more) m r h =
      run_nat-IsUnmonitored more _ _ (renew-IsUnmonitored l m r h)
  run_nat-IsUnmonitored (call_release_all ∷ more) m r h =
      run_nat-IsUnmonitored more _ _ (release_all-IsUnmonitored m r h)

-- After any calls of a new manager, whatever the gateway answers, every recorded mapping has an
-- external port from 1 to 65535; but the status never says that the gateway is healthy, nor what the
-- NAT type is, nor that a mapping is reachable.
pub status-run_nat :
    {R : Type 0} (igd : Igd R) (calls : List NatCall) (enabled : Bool) (lease : ℕ)
    (detected : Option IpAddr) (r : R)
    → let s = status (run_nat igd calls (new_manager enabled lease detected, r)).0 in
      All IsMapped s.mappings × (s.gateway_healthy ≡ false) × (s.nat_type ≡ unknown)
unfolding status new_manager
status-run_nat igd calls enabled lease detected r =
    let h =
      run_nat-IsUnmonitored igd calls (new_manager enabled lease detected) r
        (record { unhealthy = refl; untyped = refl; mapped = tt }) in
    (h.mapped, h.unhealthy, h.untyped)
