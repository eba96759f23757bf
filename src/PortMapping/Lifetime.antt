-- ===== src/PortMapping/Lifetime.antt =====
-- The renewal and the release of mappings, nat/mod.rs.
use mathlib.Core.Path.{subst}
use pnos_sdk.Base.{
  ℕ, ◌<◌, ◌≡◌, ◌≢◌, refl, sym, ap, ◌∙◌, Bool, true, false, ◌||◌, not, List, [], ◌∷◌, Option, none,
  some, if◌then◌else◌, All, Bool-cases, inl, inr, arith,
}
use pnos_sdk.Address.{IpAddr, ip_beq_iff, SocketAddr}
use pnos_sdk.PortMapping.{
  PortMappingProtocol, GatewayBackend, upnp, Entry, Igd, NatMapping, NatManager, host,
}
use pnos_sdk.PortMapping.Gateway.{with_external_ip}
use pnos_sdk.PortMapping.Upkeep.{renew_entries, renew, release_entries, release_all}
use pnos_sdk.PortMapping.Router.{same, held, is_foreign, entry, IsRouter}

-- One of the mappings has this protocol and external port.
abbrev pub any_mapping : List NatMapping → PortMappingProtocol → ℕ → Bool
any_mapping [] q k = false
any_mapping (x ∷ more) q k = same x.protocol x.external_port q k || any_mapping more q k

-- The table holds an entry for the host.
abbrev pub IsOurs : IpAddr → Option Entry → Type 0
IsOurs ip o = (e : Entry) × (o ≡ some e) × (e.internal_client ≡ ip)

-- The mapping has its ports, and no other host has the external one.
abbrev pub IsRenewable : IpAddr → List Entry → NatMapping → Type 0
IsRenewable ip table x =
    (x.external_port ≢ 0)
    × (x.internal_port ≢ 0)
    × (x.external_port < 65536)
    × (is_foreign ip (held table x.protocol x.external_port) ≡ false)

-- What an entry for the host in one place of the table changes.
IsOurs-kept :
    (ip : IpAddr) (b : Bool) (e : Entry) (o : Option Entry)
    → e.internal_client ≡ ip
    → IsOurs ip o
    → IsOurs ip (if b then some e else o)
IsOurs-kept ip true e o h ours = (e, refl, h)
IsOurs-kept ip false e o h ours = ours

is_foreign-kept :
    (ip : IpAddr) (b : Bool) (e : Entry) (o : Option Entry)
    → e.internal_client ≡ ip
    → is_foreign ip o ≡ false
    → is_foreign ip (if b then some e else o) ≡ false
is_foreign-kept ip true e o h ours = ap not ((ip_beq_iff _ _).1 h)
is_foreign-kept ip false e o h ours = ours

pub with_external_ip-mappings :
    {R : Type 0} (igd : Igd R) (m : NatManager) (x : Option IpAddr × R)
    → (with_external_ip igd m x).0.mappings ≡ m.mappings
with_external_ip-mappings igd m (none, s) = refl
with_external_ip-mappings igd m (some ip, s) = refl

-- A round of renewal changes no recorded mapping.
pub renew-mappings :
    {R : Type 0} (igd : Igd R) (m : NatManager) (l : List NatMapping) (r : R)
    → (renew igd l (m, r)).0.mappings ≡ m.mappings
unfolding renew
renew-mappings {R = R} igd m l r = behind m.gateway
  where
    behind :
        (o : Option GatewayBackend)
        → (elim o as (λ g. NatManager × R) [
          | none ↦ (m, r)
          | some (upnp gw) ↦
              with_external_ip igd m (igd.get_external_ip gw (renew_entries igd gw m l r))
        ]).0.mappings
          ≡ m.mappings
    behind none = refl
    behind (some (upnp gw)) =
        with_external_ip-mappings igd m (igd.get_external_ip gw (renew_entries igd gw m l r))

module _ {R : Type 0} (igd : Igd R) (gw : SocketAddr) (table : R → List Entry)
    (w : IsRouter igd gw table) where
  module _ (m : NatManager) where
    -- The state behind the renewal of one mapping.
    renewed : NatMapping → R → R
    renewed x r =
        (igd.add_port gw x.protocol x.external_port (host m x.internal_port) m.lease_duration
          x.description r).1

    renewed-held :
        (x : NatMapping) (r : R)
        → IsRenewable m.local_ip (table r) x
        → (q : PortMappingProtocol) (k : ℕ)
        → held (table (renewed x r)) q k ≡ (
            if same x.protocol x.external_port q k
            then some (entry x.protocol x.external_port (host m x.internal_port) x.description)
            else held (table r) q k)
    unfolding renewed
    renewed-held x r (port, inner, small, ours) =
        (w.granted x.protocol x.external_port (host m x.internal_port) m.lease_duration
          x.description r port inner small ours).1

    All-renewed :
        (x : NatMapping) (r : R) (l : List NatMapping)
        → IsRenewable m.local_ip (table r) x
        → All (IsRenewable m.local_ip (table r)) l
        → All (IsRenewable m.local_ip (table (renewed x r))) l
    All-renewed x r [] h all = tt
    All-renewed x r (y ∷ l) h ((port, inner, small, ours), all) = (
      (
        port,
        inner,
        small,
        rw (renewed-held x r h y.protocol y.external_port)
            (is_foreign-kept m.local_ip _ _ _ refl ours),
      ),
      All-renewed x r l h all,
    )

    renew_entries-IsOurs :
        (l : List NatMapping) (r : R) (q : PortMappingProtocol) (k : ℕ)
        → All (IsRenewable m.local_ip (table r)) l
        → (IsOurs m.local_ip (held (table r) q k)
            → IsOurs m.local_ip (held (table (renew_entries igd gw m l r)) q k))
          × (any_mapping l q k ≡ true
              → IsOurs m.local_ip (held (table (renew_entries igd gw m l r)) q k))
    unfolding renew_entries renewed
    renew_entries-IsOurs [] r q k h = (λ ours. ours, λ e. absurd (ground (arith, e)))
    renew_entries-IsOurs (x ∷ more) r q k (first, all) =
        let (keep, gain) =
          renew_entries-IsOurs more (renewed x r) q k (All-renewed x r more first all) in
        let at = renewed-held x r first q k in
        (
          λ ours. keep (rw at (IsOurs-kept m.local_ip _ _ _ refl ours)),
          λ found. elim (Bool-cases (same x.protocol x.external_port q k)) [
            | inl here ↦ keep (
                (
                  entry x.protocol x.external_port (host m x.internal_port) x.description,
                  at
                      ∙ ap
                          (λ b.
                            if b
                            then some (
                                entry x.protocol x.external_port (host m x.internal_port)
                                  x.description)
                            else held (table r) q k)
                          here,
                  refl,
                ))
            | inr there ↦ gain (rw there at found)
          ],
        )

  release_entries-held :
      (l : List NatMapping) (r : R) (q : PortMappingProtocol) (k : ℕ)
      → held (table (release_entries igd gw l r)) q k
        ≡ (if any_mapping l q k then none else held (table r) q k)
  unfolding release_entries
  release_entries-held [] r q k = refl
  release_entries-held (x ∷ more) r q k =
      release_entries-held more _ q k
      ∙ ap (λ o. if any_mapping more q k then none else o)
          (w.removed x.protocol x.external_port r q k)
      ∙ merge (same x.protocol x.external_port q k) (any_mapping more q k) (held (table r) q k)
    where
      merge :
          (b c : Bool) (o : Option Entry)
          → (if c then none else (if b then none else o)) ≡ (if b || c then none else o)
      merge true true o = refl
      merge true false o = refl
      merge false true o = refl
      merge false false o = refl

  with_external_ip-table :
      (m : NatManager) (r : R)
      → table (with_external_ip igd m (igd.get_external_ip gw r)).1 ≡ table r
  with_external_ip-table m r = kept (igd.get_external_ip gw r) ∙ w.asked r
    where
      kept : (x : Option IpAddr × R) → table (with_external_ip igd m x).1 ≡ table x.1
      kept (none, s) = refl
      kept (some ip, s) = refl

  renew-table :
      (m : NatManager) (l : List NatMapping) (r : R)
      → m.gateway ≡ some (upnp gw)
      → table (renew igd l (m, r)).1 ≡ table (renew_entries igd gw m l r)
  unfolding renew
  renew-table m l r known =
      ap
        (λ (g : Option GatewayBackend).
          table
            (elim g as (λ h. NatManager × R) [
              | none ↦ (m, r)
              | some (upnp to) ↦
                  with_external_ip igd m (igd.get_external_ip to (renew_entries igd to m l r))
            ]).1)
        known
      ∙ with_external_ip-table m (renew_entries igd gw m l r)

  release_all-known :
      (m : NatManager) (r : R)
      → m.gateway ≡ some (upnp gw)
      → release_all igd (m, r) ≡ (record m { mappings = [] }, release_entries igd gw m.mappings r)
  unfolding release_all
  release_all-known m r known =
      ap
        (λ (g : Option GatewayBackend). elim g [
          | none ↦ (m, r)
          | some (upnp to) ↦ (record m { mappings = [] }, release_entries igd to m.mappings r)
        ])
        known

  All-released :
      (ip : IpAddr) (l more : List NatMapping) (r : R)
      → All (IsRenewable ip (table r)) l
      → All (IsRenewable ip (table (release_entries igd gw more r))) l
  All-released ip [] more r h = tt
  All-released ip (x ∷ l) more r ((port, inner, small, ours), all) = (
    (
      port,
      inner,
      small,
      rw (release_entries-held more r x.protocol x.external_port)
          (if-is_foreign (any_mapping more x.protocol x.external_port) _ ours),
    ),
    All-released ip l more r all,
  )
    where
      if-is_foreign :
          (b : Bool) (o : Option Entry)
          → is_foreign ip o ≡ false
          → is_foreign ip (if b then none else o) ≡ false
      if-is_foreign true o h = refl
      if-is_foreign false o h = h

-- After a round of renewal the gateway holds, for every recorded mapping, an entry for this host, even
-- where it had lost it before, provided that no other host has a port of the recorded mappings, and
-- none of their ports is 0.
renew-IsOurs :
    {R : Type 0} (igd : Igd R) (gw : SocketAddr) (table : R → List Entry) (m : NatManager) (r : R)
    (q : PortMappingProtocol) (k : ℕ)
    → IsRouter igd gw table
    → m.gateway ≡ some (upnp gw)
    → All (IsRenewable m.local_ip (table r)) m.mappings
    → any_mapping m.mappings q k ≡ true
    → IsOurs m.local_ip (held (table (renew igd m.mappings (m, r)).1) q k)
renew-IsOurs igd gw table m r q k w known free found =
    rw (renew-table igd gw table w m m.mappings r known)
      ((renew_entries-IsOurs igd gw table w m m.mappings r q k free).1 found)

-- A release on a known gateway leaves no recorded mapping, takes every port of the recorded mappings
-- out of the gateway, and no other one. But a round of renewal that read the recorded mappings before,
-- and calls the gateway after the release, maps all of their ports again, although no mapping is
-- recorded any more; no port of the recorded mappings must have been 0 or that of another host.
pub renew-release_all :
    {R : Type 0} (igd : Igd R) (gw : SocketAddr) (table : R → List Entry) (m : NatManager) (r : R)
    (q : PortMappingProtocol) (k : ℕ)
    → IsRouter igd gw table
    → m.gateway ≡ some (upnp gw)
    → All (IsRenewable m.local_ip (table r)) m.mappings
    → any_mapping m.mappings q k ≡ true
    → ((release_all igd (m, r)).0.mappings ≡ [])
      × ((p : PortMappingProtocol) (n : ℕ)
          → held (table (release_all igd (m, r)).1) p n
            ≡ (if any_mapping m.mappings p n then none else held (table r) p n))
      × ((renew igd m.mappings (release_all igd (m, r))).0.mappings ≡ [])
      × IsOurs m.local_ip (held (table (renew igd m.mappings (release_all igd (m, r))).1) q k)
renew-release_all igd gw table m r q k w known free found =
    let m' : NatManager = record m { mappings = [] } in
    let r' = release_entries igd gw m.mappings r in
    let whole = release_all-known igd gw table w m r known in
    let after = ap (λ s. renew igd m.mappings s) whole in
    (
      ap (λ s. s.0.mappings) whole,
      λ p n.
          ap (λ s. held (table s.1) p n) whole
          ∙ release_entries-held igd gw table w m.mappings r p n,
      ap (λ s. s.0.mappings) after ∙ renew-mappings igd m' m.mappings r',
      subst (λ s. IsOurs m.local_ip (held (table s.1) q k)) (sym after)
          (rw (renew-table igd gw table w m' m.mappings r' known) (
            (renew_entries-IsOurs igd gw table w m' m.mappings r' q k
                (All-released igd gw table w m.local_ip m.mappings m.mappings r free)).1
              found)),
    )
