-- ===== src/PortMapping/Runs.antt =====
-- A gateway whose table is a list, and the theorems of nat/mod.rs at concrete inputs.
use pnos_sdk.Base.{
  ℕ, ◌≡◌, ◌≢◌, ◌==◌, refl, sym, ap, ◌∙◌, Bool, true, false, ◌&&◌, not, List, [], ◌∷◌, map, Option,
  none, some, if◌then◌else◌, All, Bool-cases, inl, inr, arith,
}
use pnos_sdk.Address.{v4, SocketAddr}
use pnos_sdk.Stun.{unknown}
use pnos_sdk.PortMapping.Texts.{http_tracker}
use pnos_sdk.PortMapping.{
  PortMappingProtocol, tcp, udp, added, port_in_use, add_failed, Entry, Igd, upnp, NatManager,
  new_manager, host, push_mapping, status,
}
use pnos_sdk.PortMapping.Setup.{Ports, services, map_services, init}
use pnos_sdk.PortMapping.Gateway.{
  retry, try_port, remove_ports, entries_from, verify, verify_mappings, map_port_with_retry,
  cleanup_old_mappings,
}
use pnos_sdk.PortMapping.Upkeep.{renew, release_all}
use pnos_sdk.PortMapping.Router.{
  same, same_iff, held, is_foreign, entry, entry_at, AreHeld, IsRouter,
}
use pnos_sdk.PortMapping.Retry.{candidates, first_free, with_entry, map_port_with_retry-first_free}
use pnos_sdk.PortMapping.Cleanup.{unless_old, cleanup_old_mappings-held}
use pnos_sdk.PortMapping.Lifetime.{any_mapping, IsOurs, renew-release_all}
use pnos_sdk.PortMapping.Recording.{IsMapped}
use pnos_sdk.PortMapping.Status.{
  call_init, call_map_port, call_release_all, run_nat, status-run_nat,
}

abbrev without : PortMappingProtocol → ℕ → List Entry → List Entry
without p n [] = []
without p n (e ∷ more) =
    if same p n e.protocol e.external_port then without p n more else e ∷ without p n more

-- Of several entries for one port, the first one counts.
abbrev table : List Entry → List Entry
table [] = []
table (e ∷ more) = e ∷ without e.protocol e.external_port (table more)

abbrev router : Igd (List Entry)
router = record {
  search_gateway = λ ip r. (some (record { ip = v4 192 168 1 1; port = 5000 }), r);
  get_external_ip = λ gw r. (some (v4 203 0 113 9), r);
  add_port = λ gw p n local lease d r.
      if local.port == 0
      then (add_failed, r)
      else if is_foreign local.ip (held (table r) p n)
      then (port_in_use, r)
      else (added, entry p n local d ∷ r);
  remove_port = λ gw p n r. without p n r;
  get_generic_port_mapping_entry = λ gw i r. entry_at (table r) i;
}

if-held :
    (b : Bool) (e : Entry) (l : List Entry) (q : PortMappingProtocol) (k : ℕ)
    → held (if b then l else e ∷ l) q k
      ≡ (if not b && same e.protocol e.external_port q k then some e else held l q k)
if-held true e l q k = refl
if-held false e l q k = refl

-- Three keys: the first two are the same one, or not both are the third one.
same-cases :
    (p : PortMappingProtocol) (n : ℕ) (e : Entry) (q : PortMappingProtocol) (k : ℕ)
    (o : Option Entry)
    → (if not (same p n e.protocol e.external_port) && same e.protocol e.external_port q k
        then some e
        else (if same p n q k then none else o))
      ≡ (if same p n q k then none else (if same e.protocol e.external_port q k then some e else o))
same-cases p n e q k o = elim (Bool-cases (same p n e.protocol e.external_port)) [
  | inl here ↦
      let (x, y) = (same_iff p e.protocol n e.external_port).0 here in
      let agree : same p n q k ≡ same e.protocol e.external_port q k =
        ap (λ z. same z n q k) x ∙ ap (λ z. same e.protocol z q k) y in
      rw (here, agree) (both (same e.protocol e.external_port q k) (some e) o)
  | inr other ↦ elim (Bool-cases (same p n q k)) [
    | inl third ↦
        let (x, y) = (same_iff p q n k).0 third in
        let apart : same e.protocol e.external_port q k ≡ false = differ x y other in
        rw (other, third, apart) refl
    | inr apart ↦ rw (other, apart) refl
  ]
]
  where
    both :
        (b : Bool) (u v : Option Entry)
        → (if b then none else v) ≡ (if b then none else (if b then u else v))
    both true u v = refl
    both false u v = refl

    differ :
        p ≡ q
        → n ≡ k
        → same p n e.protocol e.external_port ≡ false
        → same e.protocol e.external_port q k ≡ false
    differ x y other = elim (Bool-cases (same e.protocol e.external_port q k)) [
      | inl same_too ↦
          let (u, v) = (same_iff e.protocol q e.external_port k).0 same_too in
          let yes_ : same p n e.protocol e.external_port ≡ true =
            (same_iff p e.protocol n e.external_port).1 (x ∙ sym u, y ∙ sym v) in
          absurd (ground (arith, yes_, other))
      | inr apart ↦ apart
    ]

held-without :
    (p : PortMappingProtocol) (n : ℕ) (l : List Entry) (q : PortMappingProtocol) (k : ℕ)
    → held (without p n l) q k ≡ (if same p n q k then none else held l q k)
held-without p n [] q k = nothing (same p n q k)
  where
    nothing : (b : Bool) → ◌≡◌ {A = Option Entry} none (if b then none else none)
    nothing true = refl
    nothing false = refl
held-without p n (e ∷ more) q k =
    if-held (same p n e.protocol e.external_port) e (without p n more) q k
    ∙ ap
        (λ o.
          if not (same p n e.protocol e.external_port) && same e.protocol e.external_port q k
          then some e
          else o)
        (held-without p n more q k)
    ∙ same-cases p n e q k (held more q k)

held-table : (l : List Entry) (q : PortMappingProtocol) (k : ℕ) → held (table l) q k ≡ held l q k
held-table [] q k = refl
held-table (e ∷ more) q k = elim (Bool-cases (same e.protocol e.external_port q k)) [
  | inl here ↦ rw here refl
  | inr other ↦
      rw other
        (held-without e.protocol e.external_port (table more) q k ∙ rw other (held-table more q k))
]

AreHeld-without :
    (e : Entry) (t l : List Entry)
    → AreHeld t l
    → AreHeld (e ∷ without e.protocol e.external_port t) (without e.protocol e.external_port l)
AreHeld-without e t [] h = tt
AreHeld-without e t (x ∷ l) (here, h) =
    elim (Bool-cases (same e.protocol e.external_port x.protocol x.external_port)) [
      | inl taken ↦ rw taken (AreHeld-without e t l h)
      | inr kept ↦ rw kept (
          (
            rw kept (
                held-without e.protocol e.external_port t x.protocol x.external_port
                ∙ rw kept here),
            AreHeld-without e t l h,
          ))
    ]

AreHeld-table : (l : List Entry) → AreHeld (table l) (table l)
AreHeld-table [] = tt
AreHeld-table (e ∷ more) = (
  ap
      (λ b.
        if b
        then some e
        else held (without e.protocol e.external_port (table more)) e.protocol e.external_port)
      ((same_iff e.protocol e.protocol e.external_port e.external_port).1 (refl, refl)),
  AreHeld-without e (table more) (table more) (AreHeld-table more),
)

has_port : (n : ℕ) → n ≢ 0 → (n == 0) ≡ false
has_port n h = ground arith

router-IsRouter : (gw : SocketAddr) → IsRouter router gw table
router-IsRouter gw = record {
  no_local_port = λ p n local lease d r port h. rw h refl;
  refused = λ p n local lease d r inner h. rw (has_port local.port inner, h) refl;
  granted = λ p n local lease d r port inner small h.
      rw (has_port local.port inner, h)
        (
          refl,
          λ q k.
              held-table (entry p n local d ∷ r) q k
              ∙ ap (λ o. if same p n q k then some (entry p n local d) else o)
                  (sym (held-table r q k)),
        );
  removed = λ p n r q k.
      held-table (without p n r) q k
      ∙ held-without p n r q k
      ∙ ap (λ o. if same p n q k then none else o) (sym (held-table r q k));
  asked = λ r. refl;
  listed = λ i r. refl;
  unique = AreHeld-table;
}

abbrev gateway : SocketAddr
gateway = record { ip = v4 192 168 1 1; port = 5000 }

-- Another node of the network has port 6881, with a mapping that PNOS made.
abbrev neighbour : Entry
neighbour = entry udp 6881 (record { ip = v4 192 168 1 7; port = 6881 }) http_tracker

abbrev busy : List Entry
busy = neighbour ∷ []

abbrev node : NatManager
node = record (new_manager true 3600 (some (v4 192 168 1 5))) { gateway = some (upnp gateway) }

map_port_with_retry-first_free_example :
    let x = map_port_with_retry router node gateway udp 6881 http_tracker busy in
    (x.0
      ≡ (if 6881 == 0 then none else first_free (v4 192 168 1 5) busy udp (candidates 10 0 6881)))
    × ((q : PortMappingProtocol) (k : ℕ)
        → held (table x.1) q k ≡ with_entry udp x.0 (host node 6881) http_tracker busy q k)
unfolding new_manager
map_port_with_retry-first_free_example =
    map_port_with_retry-first_free router gateway table node udp 6881 http_tracker busy
      (router-IsRouter gateway)

cleanup_old_mappings-held_example :
    held (table (cleanup_old_mappings router gateway busy)) udp 6881 ≡ unless_old (some neighbour)
cleanup_old_mappings-held_example =
    cleanup_old_mappings-held router gateway table busy udp 6881 (router-IsRouter gateway)
      (omega arith)

abbrev mapped : NatManager
mapped = push_mapping tcp 8080 8080 http_tracker node

renew-release_all_example :
    ((release_all router (mapped, busy)).0.mappings ≡ [])
    × ((p : PortMappingProtocol) (n : ℕ)
        → held (table (release_all router (mapped, busy)).1) p n
          ≡ (if any_mapping mapped.mappings p n then none else held busy p n))
    × ((renew router mapped.mappings (release_all router (mapped, busy))).0.mappings ≡ [])
    × IsOurs
        (v4 192 168 1 5)
        (held (table (renew router mapped.mappings (release_all router (mapped, busy))).1) tcp 8080)
unfolding push_mapping new_manager
renew-release_all_example =
    renew-release_all router gateway table mapped busy tcp 8080 (router-IsRouter gateway) refl
      ((λ e. ground (arith, e), λ e. ground (arith, e), omega arith, refl), tt) refl

abbrev ports : Ports
ports = record {
  http_port = 8080;
  udp_port = 6881;
  crawler_port = 0;
  relay_port = 0;
  utp_port = 0;
  tcp_pex_port = 0;
  service_port = 0;
}

status-run_nat_example :
    let s =
      status
        (run_nat router
          (call_init ports ∷ call_map_port tcp 9000 http_tracker ∷ call_release_all ∷ [])
          (new_manager true 3600 (some (v4 192 168 1 5)), busy)).0 in
    All IsMapped s.mappings × (s.gateway_healthy ≡ false) × (s.nat_type ≡ unknown)
status-run_nat_example =
    status-run_nat router
      (call_init ports ∷ call_map_port tcp 9000 http_tracker ∷ call_release_all ∷ []) true 3600
      (some (v4 192 168 1 5)) busy

-- A run of `init` on the busy gateway: the port of the neighbour is taken.
neighbour_loses_port :
    map (λ x. x.external_port) (init router ports (node, busy)).1.0.mappings ≡ 8080 ∷ 6881 ∷ []
unfolding init map_services services map_port_with_retry retry try_port cleanup_old_mappings
    remove_ports entries_from verify_mappings verify push_mapping new_manager
neighbour_loses_port = refl
