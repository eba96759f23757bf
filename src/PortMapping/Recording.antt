-- ===== src/PortMapping/Recording.antt =====
-- What one port of `init`, nat/mod.rs, records, on any gateway.
use pnos_sdk.Base.{
  ℕ, zero, suc, ◌+◌, ◌%◌, ◌<◌, ◌≡◌, ◌≢◌, refl, ap, Bool, true, false, List, [], ◌∷◌, map, Option,
  none, some, ltb, if◌then◌else◌, length, length-append, All, All-append, arith,
}
use pnos_sdk.Address.{SocketAddr}
use pnos_sdk.Stun.{unknown}
use pnos_sdk.PortMapping.{
  PortMappingProtocol, AddPort, added, port_in_use, add_failed, Entry, Igd, mapping_failed,
  NatMapping, NatManager, push_mapping,
}
use pnos_sdk.PortMapping.Setup.{Service, after_service, map_services}
use pnos_sdk.PortMapping.Gateway.{try_port, retry, map_port_with_retry, verify}

-- A mapped port is a port, and is never marked as reachable.
abbrev pub IsMapped : NatMapping → Type 0
IsMapped x = (x.external_port ≢ 0) × (x.external_port < 65536) × (x.reachable ≡ false)

pub record IsUnmonitored (m : NatManager) : Type 0 where
  pub unhealthy : m.gateway_healthy ≡ false
  pub untyped : m.nat_type ≡ unknown
  pub mapped : All IsMapped m.mappings

pub All-verify :
    (entries : List Entry) (l : List NatMapping)
    → All IsMapped l
    → All IsMapped (map (verify entries) l)
unfolding verify
All-verify entries [] h = tt
All-verify entries (x ∷ l) (h, more) = (h, All-verify entries l more)

pub length-verify :
    (entries : List Entry) (l : List NatMapping) → length (map (verify entries) l) ≡ length l
length-verify entries [] = refl
length-verify entries (x ∷ l) = ap suc (length-verify entries l)

pub ltb-add : (c n : ℕ) → ltb 0 c ≡ ltb n (c + n)
ltb-add c n = ground arith

pub push_mapping-IsUnmonitored :
    (p : PortMappingProtocol) (port n : ℕ) (d : List ℕ) (m : NatManager)
    → n ≢ 0
    → n < 65536
    → IsUnmonitored m
    → IsUnmonitored (push_mapping p port n d m)
unfolding push_mapping
push_mapping-IsUnmonitored p port n d m valid small h = record {
  unhealthy = h.unhealthy;
  untyped = h.untyped;
  mapped = All-append IsMapped m.mappings _ h.mapped ((valid, small, refl), tt);
}

module _ {R : Type 0} (igd : Igd R) where
  -- Only a port other than 0 is ever mapped.
  unfoldable pub IsPort : Option ℕ → Type 0
  IsPort none = Unit
  IsPort (some n) = (n ≢ 0) × (n < 65536)

  try_port-zero :
      (m : NatManager) (gw : SocketAddr) (p : PortMappingProtocol) (preferred n : ℕ) (d : List ℕ)
      (r : R)
      → (try_port igd m gw p preferred n d r).0 ≡ added
      → n ≢ 0
  unfolding try_port
  try_port-zero m gw p preferred n d r e z = ground (arith, rw z at e)

  retry-IsPort :
      (left offset : ℕ) (m : NatManager) (gw : SocketAddr) (p : PortMappingProtocol) (preferred : ℕ)
      (d : List ℕ) (r : R)
      → IsPort (retry igd left offset m gw p preferred d r).0
  unfolding retry IsPort
  retry-IsPort zero offset m gw p preferred d r = tt
  retry-IsPort (suc left) offset m gw p preferred d r =
      outcome_of (try_port igd m gw p preferred ((preferred + offset) % 65536) d r) refl
        (λ s. retry-IsPort left (suc offset) m gw p preferred d s)
    where
      outcome_of :
          (x : AddPort × R)
          → try_port igd m gw p preferred ((preferred + offset) % 65536) d r ≡ x
          → ((s : R) → IsPort (retry igd left (suc offset) m gw p preferred d s).0)
          → IsPort
              (elim x.0 as (λ o. Option ℕ × R) [
                | added ↦ (some ((preferred + offset) % 65536), x.1)
                | port_in_use ↦ retry igd left (suc offset) m gw p preferred d x.1
                | add_failed ↦ (none, x.1)
              ]).0
      outcome_of (added, s) e rest =
          (try_port-zero m gw p preferred _ d r (ap (λ y. y.0) e), omega arith)
      outcome_of (port_in_use, s) e rest = rest s
      outcome_of (add_failed, s) e rest = tt

  pub map_port_with_retry-IsPort :
      (m : NatManager) (gw : SocketAddr) (p : PortMappingProtocol) (preferred : ℕ) (d : List ℕ)
      (r : R)
      → IsPort (map_port_with_retry igd m gw p preferred d r).0
  unfolding map_port_with_retry
  map_port_with_retry-IsPort = retry-IsPort 10 0

  after_service-IsUnmonitored :
      (s : Service) (m : NatManager) (o : Option ℕ)
      → IsPort o
      → IsUnmonitored m
      → IsUnmonitored (after_service igd s m o).1
  unfolding IsPort
  after_service-IsUnmonitored s m (some n) (valid, small) h =
      push_mapping-IsUnmonitored s.protocol s.port n s.description m valid small h
  after_service-IsUnmonitored s m none valid h = either s.keeps_error
    where
      either :
          (b : Bool)
          → IsUnmonitored
              (if b then record m { last_error = some (mapping_failed s.protocol s.port) } else m)
      either true = record { unhealthy = h.unhealthy; untyped = h.untyped; mapped = h.mapped }
      either false = h

  after_service-length :
      (s : Service) (m : NatManager) (o : Option ℕ)
      → length (after_service igd s m o).1.mappings
        ≡ (if (after_service igd s m o).0 then suc (length m.mappings) else length m.mappings)
  unfolding push_mapping
  after_service-length s m (some n) = omega (arith, length-append m.mappings _)
  after_service-length s m none = either s.keeps_error
    where
      either :
          (b : Bool)
          → length
              (if b
                then record m { last_error = some (mapping_failed s.protocol s.port) }
                else m).mappings
            ≡ length m.mappings
      either true = refl
      either false = refl

  pub map_services-IsUnmonitored :
      (l : List Service) (gw : SocketAddr) (count : ℕ) (m : NatManager) (r : R)
      → IsUnmonitored m
      → IsUnmonitored (map_services igd l gw count (m, r)).1.0
  unfolding map_services
  map_services-IsUnmonitored [] gw count m r h = h
  map_services-IsUnmonitored (s ∷ more) gw count m r h = map_services-IsUnmonitored more gw _ _ _ (
      after_service-IsUnmonitored s m _
        (map_port_with_retry-IsPort m gw s.protocol s.port s.description r) h)

  -- The count grows as the recorded mappings do.
  pub map_services-length :
      (l : List Service) (gw : SocketAddr) (count : ℕ) (m : NatManager) (r : R)
      → (map_services igd l gw count (m, r)).0 + length m.mappings
        ≡ count + length (map_services igd l gw count (m, r)).1.0.mappings
  unfolding map_services
  map_services-length [] gw count m r = refl
  map_services-length (s ∷ more) gw count m r =
      let x = map_port_with_retry igd m gw s.protocol s.port s.description r in
      let step = after_service-length s m x.0 in
      let rest =
        map_services-length more gw (if (after_service igd s m x.0).0 then suc count else count)
          (after_service igd s m x.0).1 x.1 in
      counted (after_service igd s m x.0).0 count (length m.mappings) _ _ _ step rest
    where
      counted :
          (b : Bool) (c n n' total end : ℕ)
          → n' ≡ (if b then suc n else n)
          → total + n' ≡ (if b then suc c else c) + end
          → total + n ≡ c + end
      counted true c n n' total end e h = omega (arith, e, h)
      counted false c n n' total end e h = omega (arith, e, h)
