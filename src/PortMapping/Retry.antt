-- ===== src/PortMapping/Retry.antt =====
-- The loop of `map_port_with_retry`, nat/mod.rs, against the first free candidate.
use pnos_sdk.Base.{
  ℕ, zero, suc, ◌+◌, ◌%◌, ◌<◌, ◌≡◌, ◌≢◌, refl, sym, ap, ◌∙◌, Bool, true, false, ◌&&◌, not, List, [],
  ◌∷◌, Option, none, some, ◌==◌, if◌then◌else◌, Bool-cases, inl, inr, arith,
}
use pnos_sdk.Address.{IpAddr, SocketAddr}
use pnos_sdk.PortMapping.{
  PortMappingProtocol, AddPort, added, port_in_use, add_failed, Entry, Igd, NatManager, host,
}
use pnos_sdk.PortMapping.Gateway.{try_port, retry, map_port_with_retry}
use pnos_sdk.PortMapping.Router.{same, held, is_foreign, entry, IsRouter}

-- Ten ports from the preferred one on, modulo 65536.
abbrev pub candidates : ℕ → ℕ → ℕ → List ℕ
candidates zero offset preferred = []
candidates (suc left) offset preferred =
    (preferred + offset) % 65536 ∷ candidates left (suc offset) preferred

-- A port other than 0 that no other host has.
abbrev pub is_free : IpAddr → List Entry → PortMappingProtocol → ℕ → Bool
is_free ip table p n = not (n == 0) && not (is_foreign ip (held table p n))

abbrev pub first_free : IpAddr → List Entry → PortMappingProtocol → List ℕ → Option ℕ
first_free ip table p [] = none
first_free ip table p (n ∷ more) =
    if is_free ip table p n then some n else first_free ip table p more

-- The entry behind a mapping of the port.
abbrev pub with_entry :
    PortMappingProtocol
    → Option ℕ
    → SocketAddr
    → List ℕ
    → List Entry
    → PortMappingProtocol
    → ℕ
    → Option Entry
with_entry p none local d table q k = held table q k
with_entry p (some n) local d table q k =
    if same p n q k then some (entry p n local d) else held table q k

module _ {R : Type 0} (igd : Igd R) (gw : SocketAddr) (table : R → List Entry)
    (w : IsRouter igd gw table) where
  -- What a call for a candidate gives.
  try_port-free :
      (m : NatManager) (p : PortMappingProtocol) (preferred n : ℕ) (d : List ℕ) (r : R)
      → preferred ≢ 0
      → n < 65536
      → is_free m.local_ip (table r) p n ≡ true
      → ((try_port igd m gw p preferred n d r).0 ≡ added)
        × ((q : PortMappingProtocol) (k : ℕ)
            → held (table (try_port igd m gw p preferred n d r).1) q k
              ≡ with_entry p (some n) (host m preferred) d (table r) q k)
  unfolding try_port
  try_port-free m p preferred n d r inner small free =
      let (zero_not, ours) : ((n == 0) ≡ false)
          × (is_foreign m.local_ip (held (table r) p n) ≡ false) =
        ground (arith, free) in
      rw zero_not (
        w.granted p n (host m preferred) m.lease_duration d r (λ e. ground (arith, e, zero_not))
          inner small ours)

  try_port-taken :
      (m : NatManager) (p : PortMappingProtocol) (preferred n : ℕ) (d : List ℕ) (r : R)
      → preferred ≢ 0
      → is_free m.local_ip (table r) p n ≡ false
      → try_port igd m gw p preferred n d r ≡ (port_in_use, r)
  unfolding try_port
  try_port-taken m p preferred n d r inner taken = elim (Bool-cases (n == 0)) [
    | inl none_ ↦ rw none_ refl
    | inr port ↦
        let foreign : is_foreign m.local_ip (held (table r) p n) ≡ true =
          ground (arith, taken, port) in
        rw port (w.refused p n (host m preferred) m.lease_duration d r inner foreign)
  ]

  -- The result is this port, and the table is as behind its mapping.
  Gives : NatManager → PortMappingProtocol → ℕ → List ℕ → R → Option ℕ × R → Option ℕ → Type 0
  Gives m p preferred d r x o =
      (x.0 ≡ o)
      × ((q : PortMappingProtocol) (k : ℕ)
          → held (table x.1) q k ≡ with_entry p x.0 (host m preferred) d (table r) q k)

  retry-added :
      (left offset : ℕ) (m : NatManager) (p : PortMappingProtocol) (preferred : ℕ) (d : List ℕ)
      (r : R)
      → let x = try_port igd m gw p preferred ((preferred + offset) % 65536) d r in
        x.0 ≡ added
        → retry igd (suc left) offset m gw p preferred d r
          ≡ (some ((preferred + offset) % 65536), x.1)
  unfolding retry
  retry-added left offset m p preferred d r e =
      let x = try_port igd m gw p preferred ((preferred + offset) % 65536) d r in
      ap
        (λ outcome. elim outcome [
          | added ↦ (some ((preferred + offset) % 65536), x.1)
          | port_in_use ↦ retry igd left (suc offset) m gw p preferred d x.1
          | add_failed ↦ (none, x.1)
        ])
        e

  retry-taken :
      (left offset : ℕ) (m : NatManager) (p : PortMappingProtocol) (preferred : ℕ) (d : List ℕ)
      (r : R)
      → try_port igd m gw p preferred ((preferred + offset) % 65536) d r ≡ (port_in_use, r)
      → retry igd left (suc offset) m gw p preferred d r
        ≡ retry igd (suc left) offset m gw p preferred d r
  unfolding retry
  retry-taken left offset m p preferred d r e = sym (
      ap
        (λ (x : AddPort × R). elim x.0 [
          | added ↦ (some ((preferred + offset) % 65536), x.1)
          | port_in_use ↦ retry igd left (suc offset) m gw p preferred d x.1
          | add_failed ↦ (none, x.1)
        ])
        e)

  retry-first_free :
      (left offset : ℕ) (m : NatManager) (p : PortMappingProtocol) (preferred : ℕ) (d : List ℕ)
      (r : R)
      → preferred ≢ 0
      → Gives m p preferred d r
          (retry igd left offset m gw p preferred d r)
          (first_free m.local_ip (table r) p (candidates left offset preferred))
  unfolding retry Gives
  retry-first_free zero offset m p preferred d r inner = (refl, λ q k. refl)
  retry-first_free (suc left) offset m p preferred d r inner =
      let n : ℕ = (preferred + offset) % 65536 in
      elim (Bool-cases (is_free m.local_ip (table r) p n)) [
        | inl free ↦
            let (ok, after) = try_port-free m p preferred n d r inner (omega arith) free in
            let step = retry-added left offset m p preferred d r ok in
            (
              ap (λ x. x.0) step
                  ∙ ap
                      (λ b.
                        if b
                        then some n
                        else first_free m.local_ip (table r) p
                            (candidates left (suc offset) preferred))
                      (sym free),
              λ q k.
                  ap (λ x. held (table x.1) q k) step
                  ∙ after q k
                  ∙ ap (λ x. with_entry p x.0 (host m preferred) d (table r) q k) (sym step),
            )
        | inr taken ↦
            let (same_port, same_table) =
              retry-first_free left (suc offset) m p preferred d r inner in
            let step =
              retry-taken left offset m p preferred d r
                (try_port-taken m p preferred n d r inner taken) in
            (
              ap (λ x. x.0) (sym step)
                  ∙ same_port
                  ∙ ap
                      (λ b.
                        if b
                        then some n
                        else first_free m.local_ip (table r) p
                            (candidates left (suc offset) preferred))
                      (sym taken),
              λ q k.
                  ap (λ x. held (table x.1) q k) (sym step)
                  ∙ same_table q k
                  ∙ ap (λ x. with_entry p x.0 (host m preferred) d (table r) q k) step,
            )
      ]

  retry-failed :
      (left offset : ℕ) (m : NatManager) (p : PortMappingProtocol) (preferred : ℕ) (d : List ℕ)
      (r : R)
      → try_port igd m gw p preferred ((preferred + offset) % 65536) d r ≡ (add_failed, r)
      → retry igd (suc left) offset m gw p preferred d r ≡ (none, r)
  unfolding retry
  retry-failed left offset m p preferred d r e =
      ap
        (λ (x : AddPort × R). elim x.0 [
          | added ↦ (some ((preferred + offset) % 65536), x.1)
          | port_in_use ↦ retry igd left (suc offset) m gw p preferred d x.1
          | add_failed ↦ (none, x.1)
        ])
        e

  -- The second candidate of port 0 is port 1, for which the call fails.
  retry-zero :
      (left : ℕ) (m : NatManager) (p : PortMappingProtocol) (d : List ℕ) (r : R)
      → retry igd (suc (suc left)) 0 m gw p 0 d r ≡ (none, r)
  unfolding try_port
  retry-zero left m p d r =
      sym (retry-taken (suc left) 0 m p 0 d r refl)
      ∙ retry-failed left 1 m p 0 d r
          (w.no_local_port p 1 (host m 0) m.lease_duration d r (λ e. ground (arith, e)) refl)

-- On a gateway that refuses a port exactly if another host has it, a port other than 0 is mapped to the
-- first of the ten candidates from the preferred port on (modulo 65536) that is not 0 and that no other
-- host has; the gateway then holds the entry for it, and every other entry is as before. If there is no
-- such candidate, or if the preferred port is 0, then no port is mapped, and no entry changes. Calls
-- with local port 0 fail, as the crate igd documents.
pub map_port_with_retry-first_free :
    {R : Type 0} (igd : Igd R) (gw : SocketAddr) (table : R → List Entry) (m : NatManager)
    (p : PortMappingProtocol) (preferred : ℕ) (d : List ℕ) (r : R)
    → IsRouter igd gw table
    → let x = map_port_with_retry igd m gw p preferred d r in
      (x.0 ≡ (
        if preferred == 0
        then none
        else first_free m.local_ip (table r) p (candidates 10 0 preferred)))
      × ((q : PortMappingProtocol) (k : ℕ)
          → held (table x.1) q k ≡ with_entry p x.0 (host m preferred) d (table r) q k)
unfolding map_port_with_retry Gives
map_port_with_retry-first_free igd gw table m p zero d r w =
    let failed = retry-zero igd gw table w 8 m p d r in
    (
      ap (λ x. x.0) failed,
      λ q k.
          ap (λ x. held (table x.1) q k) failed
          ∙ ap (λ x. with_entry p x.0 (host m 0) d (table r) q k) (sym failed),
    )
map_port_with_retry-first_free igd gw table m p (suc port) d r w =
    let inner : suc port ≢ 0 = λ e. ground (arith, e) in
    let other : (suc port == 0) ≡ false = ground arith in
    let (same_port, same_table) = retry-first_free igd gw table w 10 0 m p (suc port) d r inner in
    (
      same_port
          ∙ ap
              (λ b.
                if b then none else first_free m.local_ip (table r) p (candidates 10 0 (suc port)))
              (sym other),
      same_table,
    )
