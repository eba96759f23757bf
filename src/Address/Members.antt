-- ===== src/Address/Members.antt =====
-- What holds of all given addresses holds of those that the three-tier choice gives, types.rs.
use pnos_sdk.Base.{if◌then◌else◌, All, All-append, List, [], ◌∷◌, ◌++◌}
use pnos_sdk.Address.{
  SocketAddr, EndpointKind, lan, public, ipv6, loopback, classify, Groups, push_group, is_empty,
  group_endpoints, select_preferred_addrs, fallback_addrs,
}

module _ (P : SocketAddr → Type 0) where
  record Holds (g : Groups) : Type 0 where
    on_loopbacks : All P g.loopbacks
    on_lans : All P g.lans
    on_publics : All P g.publics

  push_group-Holds :
      (k : EndpointKind) (a : SocketAddr) (g : Groups) → P a → Holds g → Holds (push_group k a g)
  push_group-Holds loopback a g p h = record {
    on_loopbacks = (p, h.on_loopbacks);
    on_lans = h.on_lans;
    on_publics = h.on_publics;
  }
  push_group-Holds lan a g p h = record {
    on_loopbacks = h.on_loopbacks;
    on_lans = (p, h.on_lans);
    on_publics = h.on_publics;
  }
  push_group-Holds public a g p h = record {
    on_loopbacks = h.on_loopbacks;
    on_lans = h.on_lans;
    on_publics = (p, h.on_publics);
  }
  push_group-Holds ipv6 a g p h = record {
    on_loopbacks = h.on_loopbacks;
    on_lans = h.on_lans;
    on_publics = (p, h.on_publics);
  }

  group_endpoints-Holds : (addrs : List SocketAddr) → All P addrs → Holds (group_endpoints addrs)
  unfolding group_endpoints
  group_endpoints-Holds [] h = record { on_loopbacks = tt; on_lans = tt; on_publics = tt }
  group_endpoints-Holds (a ∷ more) h =
      push_group-Holds (classify a) a (group_endpoints more) h.0 (group_endpoints-Holds more h.1)

  choice-All :
      (l m p addrs : List SocketAddr)
      → All P l
      → All P m
      → All P p
      → All P addrs
      → All P (if is_empty l then (if is_empty m then addrs else m) else l)
        × All P (if is_empty l then (if is_empty m then [] else p) else m ++ p)
  choice-All (x ∷ l) m p addrs hl hm hp h = (hl, All-append P m p hm hp)
  choice-All [] (x ∷ m) p addrs hl hm hp h = (hm, hp)
  choice-All [] [] p addrs hl hm hp h = (h, tt)

  pub select_preferred_addrs-All :
      (addrs : List SocketAddr)
      → All P addrs
      → All P (select_preferred_addrs addrs) × All P (fallback_addrs addrs)
  unfolding select_preferred_addrs fallback_addrs
  select_preferred_addrs-All addrs h =
      let g = group_endpoints-Holds addrs h in
      choice-All _ _ _ addrs g.on_loopbacks g.on_lans g.on_publics h
