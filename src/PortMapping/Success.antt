-- ===== src/PortMapping/Success.antt =====
-- When `init` of nat/mod.rs succeeds.
use pnos_sdk.Base.{
  ℕ, ◌+◌, ◌≡◌, refl, sym, ap, ◌∙◌, Bool, true, false, Option, none, some, ltb, if◌then◌else◌,
  length, arith,
}
use pnos_sdk.Address.{IpAddr, SocketAddr}
use pnos_sdk.PortMapping.{Igd, upnp, NatManager}
use pnos_sdk.PortMapping.Setup.{Ports, services, finish_init, set_up, start_renewal_task, init}
use pnos_sdk.PortMapping.Gateway.{
  verify_mappings, entries_from, cleanup_old_mappings, with_external_ip,
}
use pnos_sdk.PortMapping.Recording.{length-verify, ltb-add, map_services-length}

module _ {R : Type 0} (igd : Igd R) where
  with_external_ip-length :
      (m : NatManager) (x : Option IpAddr × R)
      → length (with_external_ip igd m x).0.mappings ≡ length m.mappings
  with_external_ip-length m (none, r) = refl
  with_external_ip-length m (some ip, r) = refl

  finish_init-length :
      (gw : SocketAddr) (count n : ℕ) (m : NatManager) (r : R)
      → count + n ≡ length m.mappings
      → (finish_init igd gw (count, (m, r))).0
        ≡ ltb n (length (finish_init igd gw (count, (m, r))).1.0.mappings)
  unfolding verify_mappings
  finish_init-length gw count n m r h = either (ltb 0 m.lease_duration)
    where
      m' : NatManager
      m' = verify_mappings igd gw m r

      grown : ltb 0 count ≡ ltb n (length m'.mappings)
      grown = rw (length-verify (entries_from igd 200 0 gw r) m.mappings, ← h) (ltb-add count n)

      either :
          (b : Bool)
          → ltb 0 count ≡ ltb n (length (if b then start_renewal_task igd m' else m').mappings)
      either true = grown
      either false = grown

  set_up-length :
      (ports : Ports) (m : NatManager) (x : Option SocketAddr × R)
      → (set_up igd ports m x).0
        ≡ ltb (length m.mappings) (length (set_up igd ports m x).1.0.mappings)
  set_up-length ports m (none, r) = ground arith
  set_up-length ports m (some gw, r) =
      let m' : NatManager = record m { gateway = some (upnp gw) } in
      let y = with_external_ip igd m' (igd.get_external_ip gw r) in
      let r' = cleanup_old_mappings igd gw y.1 in
      finish_init-length gw _ (length m.mappings) _ _ (
        omega (
          arith,
          map_services-length igd (services ports) gw 0 y.0 r',
          with_external_ip-length m' (igd.get_external_ip gw r),
        ))

-- Whatever the gateway answers, `init` of an enabled manager succeeds exactly if it recorded a mapping.
init_iff :
    {R : Type 0} (igd : Igd R) (ports : Ports) (m : NatManager) (r : R)
    → m.enabled ≡ true
    → (init igd ports (m, r)).0
      ≡ ltb (length m.mappings) (length (init igd ports (m, r)).1.0.mappings)
unfolding init
init_iff igd ports m r on =
    ap (λ b. (if b then set_up igd ports m (igd.search_gateway m.local_ip r) else (true, (m, r))).0)
      on
    ∙ set_up-length igd ports m (igd.search_gateway m.local_ip r)
    ∙ ap
        (λ b. ltb (length m.mappings) (
          length
            (if b
              then set_up igd ports m (igd.search_gateway m.local_ip r)
              else (true, (m, r))).1.0.mappings))
        (sym on)
