-- ===== src/Manager/Cooldown.antt =====
-- crates/pnos-net/src/session/mod.rs: the table of addresses that are not to be dialed for a while,
-- by the peer they were dialed for. The clock reading is an argument.
use pnos_sdk.Base.{
  ℕ, ◌≡◌, ◌↔◌, Bool, true, false, ◌&&◌, List, [], ◌∷◌, Option, none, some, ltb, leb, Eq,
  if◌then◌else◌, arith,
}
use pnos_sdk.Base.Dict.{lookup, lookup-insert_self, lookup-insert_ne}
use pnos_sdk.Base.Dict
use pnos_sdk.Stats.{add64}
use pnos_sdk.NodeId.{NodeId, node_eq, node_beq, node_beq_iff}
use pnos_sdk.Address.{SocketAddr, addr_eq, addr_beq, addr_beq_iff}
use pnos_sdk.Manager.{Manager}

abbrev pub key_test : NodeId × SocketAddr → NodeId × SocketAddr → Bool
key_test k j = node_beq k.0 j.0 && addr_beq k.1 j.1

pub key_test_iff : (k j : NodeId × SocketAddr) → (key_test k j ≡ true) ↔ (k ≡ j)
key_test_iff k j = ground (arith, node_beq_iff k.0 j.0, addr_beq_iff k.1 j.1)

instance abbrev pub key_eq : Eq (NodeId × SocketAddr)
key_eq = record { test = key_test; test_iff = key_test_iff }

-- The answer for what the table has; an entry that has run out is taken out.
abbrev pub cooled : NodeId → SocketAddr → ℕ → Manager → Option ℕ → Bool × Manager
cooled peer addr now m none = (false, m)
cooled peer addr now m (some until) =
    if leb until now
    then (false, record m { cooldown = Dict.remove (peer, addr) m.cooldown })
    else (true, m)

unfoldable pub in_cooldown : NodeId → SocketAddr → ℕ → Manager → Bool × Manager
in_cooldown peer addr now m = cooled peer addr now m (lookup (peer, addr) m.cooldown)

unfoldable pub mark_cooldown : NodeId → SocketAddr → ℕ → Manager → Manager
mark_cooldown peer addr now m = record m {
  cooldown = Dict.insert (peer, addr) (add64 now m.cfg.addr_cooldown) m.cooldown;
}

unfoldable pub mark_cooldown_all : NodeId → List SocketAddr → ℕ → Manager → Manager
mark_cooldown_all peer [] now m = m
mark_cooldown_all peer (a ∷ more) now m =
    mark_cooldown_all peer more now (mark_cooldown peer a now m)

abbrev pub retain_later : ℕ → List ((NodeId × SocketAddr) × ℕ) → List ((NodeId × SocketAddr) × ℕ)
retain_later now [] = []
retain_later now ((key, until) ∷ more) =
    if ltb now until then (key, until) ∷ retain_later now more else retain_later now more

unfoldable pub prune_cooldown : ℕ → Manager → Manager
prune_cooldown now m = record m { cooldown = retain_later now m.cooldown }

-- The answer of `in_cooldown`.
abbrev pub is_cooling : NodeId → SocketAddr → ℕ → Manager → Bool
is_cooling peer addr now m = (in_cooldown peer addr now m).0
