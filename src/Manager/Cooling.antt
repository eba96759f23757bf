-- ===== src/Manager/Cooling.antt =====
-- Which addresses are cooling down, before and after each operation on the table.
use pnos_sdk.Base.{
  ℕ, ◌+◌, ◌^◌, ◌<◌, ◌≤◌, ◌≡◌, refl, sym, ap, ◌∙◌, Bool, true, false, ◌⊎◌, List, [], ◌∷◌, Option,
  none, some, ltb, leb, leb→le, if◌then◌else◌, arith, Bool-cases, inl, inr,
}
use pnos_sdk.Base.Dict.{lookup, Distinct, lookup-insert, lookup-remove}
use pnos_sdk.Stats.{add64}
use pnos_sdk.NodeId.{NodeId, node_eq}
use pnos_sdk.Address.{SocketAddr, addr_eq}
use pnos_sdk.Manager.{Manager}
use pnos_sdk.Manager.Cooldown.{
  key_eq, key_test, key_test_iff, cooled, in_cooldown, is_cooling, mark_cooldown, prune_cooldown,
  retain_later,
}

-- The answer for an entry.
abbrev later_than : ℕ → Option ℕ → Bool
later_than now none = false
later_than now (some until) = ltb now until

cooled_lem :
    (p : NodeId) (a : SocketAddr) (now : ℕ) (m : Manager) (o : Option ℕ)
    → (cooled p a now m o).0 ≡ later_than now o
cooled_lem p a now m none = refl
cooled_lem p a now m (some until) = ground arith

is_cooling_lem :
    (p : NodeId) (a : SocketAddr) (now : ℕ) (m : Manager)
    → is_cooling p a now m ≡ later_than now (lookup (p, a) m.cooldown)
unfolding in_cooldown
is_cooling_lem p a now m = cooled_lem p a now m (lookup (p, a) m.cooldown)

is_cooling-mark_cooldown :
    (p q : NodeId) (a b : SocketAddr) (now later : ℕ) (m : Manager)
    → now + m.cfg.addr_cooldown < 2 ^ 64
    → is_cooling q b later (mark_cooldown p a now m) ≡ (
        if key_test (p, a) (q, b)
        then ltb later (now + m.cfg.addr_cooldown)
        else is_cooling q b later m)
unfolding mark_cooldown
is_cooling-mark_cooldown p q a b now later m small =
    let exact : add64 now m.cfg.addr_cooldown ≡ now + m.cfg.addr_cooldown = omega arith in
    is_cooling_lem q b later (mark_cooldown p a now m)
    ∙ ap (later_than later) (lookup-insert (p, a) (q, b) _ m.cooldown)
    ∙ ground (arith, exact, is_cooling_lem q b later m)

cooled-later :
    (p q : NodeId) (a b : SocketAddr) (now later : ℕ) (m : Manager) (o : Option ℕ)
    → now ≤ later
    → lookup (p, a) m.cooldown ≡ o
    → later_than later (lookup (q, b) (cooled p a now m o).1.cooldown)
      ≡ later_than later (lookup (q, b) m.cooldown)
cooled-later p q a b now later m none h e = refl
cooled-later p q a b now later m (some until) h e = elim (Bool-cases (leb until now)) [
  | inl over ↦ rw over (
      ap (later_than later) (lookup-remove (p, a) (q, b) m.cooldown)
      ∙ gone (leb→le until now over) (Bool-cases (key_test (p, a) (q, b))))
  | inr still ↦ rw still refl
]
  where
    gone :
        until ≤ now
        → (key_test (p, a) (q, b) ≡ true) ⊎ (key_test (p, a) (q, b) ≡ false)
        → later_than later (if key_test (p, a) (q, b) then none else lookup (q, b) m.cooldown)
          ≡ later_than later (lookup (q, b) m.cooldown)
    gone past (inl same) = rw same (
        sym (
          ap (later_than later)
            (ap (λ k. lookup k m.cooldown) (sym ((key_test_iff (p, a) (q, b)).0 same)) ∙ e)
          ∙ ground (arith, past, h)))
    gone past (inr other) = rw other refl

pub in_cooldown-later :
    (p q : NodeId) (a b : SocketAddr) (now later : ℕ) (m : Manager)
    → now ≤ later
    → is_cooling q b later (in_cooldown p a now m).1 ≡ is_cooling q b later m
unfolding in_cooldown
in_cooldown-later p q a b now later m h =
    is_cooling_lem q b later (in_cooldown p a now m).1
    ∙ cooled-later p q a b now later m _ h refl
    ∙ sym (is_cooling_lem q b later m)

lookup-retain_later :
    (k : NodeId × SocketAddr) (now : ℕ) (table : List ((NodeId × SocketAddr) × ℕ))
    → lookup k table ≡ none
    → lookup k (retain_later now table) ≡ none
unfolding lookup
lookup-retain_later k now [] e = refl
lookup-retain_later k now ((key, until) ∷ more) e = ground (arith, lookup-retain_later k now more)

retain_later-later :
    (k : NodeId × SocketAddr) (now later : ℕ) (table : List ((NodeId × SocketAddr) × ℕ))
    → Distinct table
    → now ≤ later
    → later_than later (lookup k (retain_later now table)) ≡ later_than later (lookup k table)
unfolding lookup
retain_later-later k now later [] d h = refl
retain_later-later k now later ((key, until) ∷ more) d h =
    ground (
      arith,
      retain_later-later k now later more,
      key_test_iff key k,
      lookup-retain_later k now more,
    )

is_cooling-prune_cooldown :
    (p q : NodeId) (a b : SocketAddr) (now later : ℕ) (m : Manager)
    → Distinct m.cooldown
    → now ≤ later
    → (is_cooling q b later (in_cooldown p a now m).1 ≡ is_cooling q b later m)
      × (is_cooling q b later (prune_cooldown now m) ≡ is_cooling q b later m)
unfolding prune_cooldown
is_cooling-prune_cooldown p q a b now later m d h = (
  in_cooldown-later p q a b now later m h,
  is_cooling_lem q b later (prune_cooldown now m)
      ∙ retain_later-later (q, b) now later m.cooldown d h
      ∙ sym (is_cooling_lem q b later m),
)

-- A marked address is cooling down until the time of its marking and the configured pause have passed,
-- if that sum does not wrap; every other pair of a peer and an address is as before. Asking for an
-- address and pruning the table both take entries out, and from then on change no answer for any peer
-- and address, if the table has no key twice.
pub cooldown_answers :
    (p q : NodeId) (a b : SocketAddr) (now later : ℕ) (m : Manager)
    → now + m.cfg.addr_cooldown < 2 ^ 64
    → Distinct m.cooldown
    → now ≤ later
    → (is_cooling q b later (mark_cooldown p a now m) ≡ (
        if key_test (p, a) (q, b)
        then ltb later (now + m.cfg.addr_cooldown)
        else is_cooling q b later m))
      × (is_cooling q b later (in_cooldown p a now m).1 ≡ is_cooling q b later m)
      × (is_cooling q b later (prune_cooldown now m) ≡ is_cooling q b later m)
cooldown_answers p q a b now later m small d h =
    let (asked, pruned) = is_cooling-prune_cooldown p q a b now later m d h in
    (is_cooling-mark_cooldown p q a b now later m small, asked, pruned)
