-- ===== src/PortMapping/Cleanup.antt =====
-- `cleanup_old_mappings` of nat/mod.rs on the table of the gateway.
use pnos_sdk.Base.{
  ℕ, zero, suc, ◌+◌, ◌≤◌, ◌≡◌, refl, sym, ap, ◌∙◌, Bool, true, false, ◌&&◌, ◌||◌, List, [], ◌∷◌,
  Option, none, some, some_eq, if◌then◌else◌, length, Bool-cases, inl, inr, arith,
}
use mathlib.Core.Path.{subst}
use pnos_sdk.Address.{SocketAddr}
use pnos_sdk.PortMapping.{PortMappingProtocol, Entry, Igd}
use pnos_sdk.PortMapping.Gateway.{
  is_old, only_old, entries_from, remove_ports, cleanup_old_mappings,
}
use pnos_sdk.PortMapping.Texts.{contains, pnos_text, pdc_text}
use pnos_sdk.PortMapping.Router.{same, same_iff, held, entry_at, AreHeld, IsRouter}

-- One of these entries has this protocol and port.
abbrev any_at : List Entry → PortMappingProtocol → ℕ → Bool
any_at [] q k = false
any_at (e ∷ more) q k = same e.protocol e.external_port q k || any_at more q k

-- The entry, unless its description contains one of the two names.
abbrev pub unless_old : Option Entry → Option Entry
unless_old none = none
unless_old (some e) =
    if contains e.port_mapping_description pdc_text || contains e.port_mapping_description pnos_text
    then none
    else some e

any_at-cons :
    (e : Entry) (b : Bool) (l : List Entry) (q : PortMappingProtocol) (k : ℕ)
    → any_at (if b then e ∷ l else l) q k
      ≡ ((b && same e.protocol e.external_port q k) || any_at l q k)
any_at-cons e true l q k = refl
any_at-cons e false l q k = refl

-- What the entries for removal say of the entry that is held.
any_at-only_old :
    (table l : List Entry) (q : PortMappingProtocol) (k : ℕ)
    → AreHeld table l
    → any_at (only_old l) q k ≡ true
    → (e : Entry) × (held table q k ≡ some e) × (is_old e ≡ true)
any_at-only_old table [] q k h a = absurd (ground (arith, a))
any_at-only_old table (e ∷ more) q k h a =
    let split : ((is_old e && same e.protocol e.external_port q k) || any_at (only_old more) q k)
        ≡ true =
      sym (any_at-cons e (is_old e) (only_old more) q k) ∙ a in
    elim (Bool-cases (is_old e && same e.protocol e.external_port q k)) [
      | inl here ↦
          let (p, n) = (same_iff e.protocol q e.external_port k).0 (ground (arith, here)) in
          (
            e,
            ap (λ x. held table x k) (sym p) ∙ ap (held table e.protocol) (sym n) ∙ h.0,
            ground (arith, here),
          )
      | inr there ↦ any_at-only_old table more q k h.1 (rw there at split)
    ]

held-any_at :
    (l : List Entry) (q : PortMappingProtocol) (k : ℕ) (e : Entry)
    → held l q k ≡ some e
    → is_old e ≡ true
    → any_at (only_old l) q k ≡ true
held-any_at [] q k e h old = absurd (ground (arith, h))
held-any_at (x ∷ more) q k e h old =
    any_at-cons x (is_old x) (only_old more) q k
    ∙ elim (Bool-cases (same x.protocol x.external_port q k)) [
      | inl here ↦
          let is_e : x ≡ e = some_eq (rw here at h) in
          let x_old : is_old x ≡ true = ap is_old is_e ∙ old in rw (here, x_old) refl
      | inr there ↦
          let rest = held-any_at more q k e (rw there at h) old in
          rw rest (or_true (is_old x && same x.protocol x.external_port q k))
    ]
  where
    or_true : (b : Bool) → (b || true) ≡ true
    or_true true = refl
    or_true false = refl

decide_old :
    (table : List Entry) (q : PortMappingProtocol) (k : ℕ)
    → AreHeld table table
    → (if any_at (only_old table) q k then none else held table q k) ≡ unless_old (held table q k)
decide_old table q k h = elim (Bool-cases (any_at (only_old table) q k)) [
  | inl found ↦
      let (e, is_e, old) = any_at-only_old table table q k h found in rw (found, is_e, old) refl
  | inr other ↦ rw other (stays (held table q k) refl other)
]
  where
    stays :
        (o : Option Entry)
        → held table q k ≡ o
        → any_at (only_old table) q k ≡ false
        → o ≡ unless_old o
    stays none e other = refl
    stays (some x) e other = elim (Bool-cases (is_old x)) [
      | inl old ↦ absurd (ground (arith, held-any_at table q k x e old, other))
      | inr new ↦ rw new refl
    ]

module _ {R : Type 0} (igd : Igd R) (gw : SocketAddr) (table : R → List Entry)
    (w : IsRouter igd gw table) where
  remove_ports-held :
      (l : List Entry) (r : R) (q : PortMappingProtocol) (k : ℕ)
      → held (table (remove_ports igd gw l r)) q k
        ≡ (if any_at l q k then none else held (table r) q k)
  unfolding remove_ports
  remove_ports-held [] r q k = refl
  remove_ports-held (e ∷ more) r q k =
      remove_ports-held more _ q k
      ∙ ap (λ o. if any_at more q k then none else o) (w.removed e.protocol e.external_port r q k)
      ∙ merge (same e.protocol e.external_port q k) (any_at more q k) (held (table r) q k)
    where
      merge :
          (b c : Bool) (o : Option Entry)
          → (if c then none else (if b then none else o)) ≡ (if b || c then none else o)
      merge true true o = refl
      merge true false o = refl
      merge false true o = refl
      merge false false o = refl

  -- The listing from an index on, if enough rounds are left.
  entries_from-table :
      (left i : ℕ) (l : List Entry) (r : R)
      → ((j : ℕ) → igd.get_generic_port_mapping_entry gw (i + j) r ≡ entry_at l j)
      → length l ≤ left
      → entries_from igd left i gw r ≡ l
  unfolding entries_from
  entries_from-table zero i [] r at fits = refl
  entries_from-table zero i (e ∷ l) r at fits = absurd (omega (arith, fits))
  entries_from-table (suc left) i [] r at fits =
      let here : igd.get_generic_port_mapping_entry gw i r ≡ none =
        subst (λ n. igd.get_generic_port_mapping_entry gw n r ≡ none) (omega arith) (at 0) in
      rw (here, entries_from) refl
  entries_from-table (suc left) i (e ∷ l) r at fits =
      let here : igd.get_generic_port_mapping_entry gw i r ≡ some e =
        subst (λ n. igd.get_generic_port_mapping_entry gw n r ≡ some e) (omega arith) (at 0) in
      rw (here, entries_from)
        (ap (λ t. e ∷ t)
          (entries_from-table left (suc i) l r
            (λ j.
              subst (λ n. igd.get_generic_port_mapping_entry gw n r ≡ entry_at l j) (omega arith)
                (at (suc j)))
            (omega (arith, fits))))

-- The cleanup at the start of `init` takes out every entry of the gateway whose description contains
-- PNOS or PDC, whichever host it is for, and no other entry, on a gateway with 200 entries at most.
pub cleanup_old_mappings-held :
    {R : Type 0} (igd : Igd R) (gw : SocketAddr) (table : R → List Entry) (r : R)
    (q : PortMappingProtocol) (k : ℕ)
    → IsRouter igd gw table
    → length (table r) ≤ 200
    → held (table (cleanup_old_mappings igd gw r)) q k ≡ unless_old (held (table r) q k)
unfolding cleanup_old_mappings
cleanup_old_mappings-held igd gw table r q k w fits =
    let whole =
      entries_from-table igd gw table w 200 0 (table r) r
        (λ j.
          subst (λ n. igd.get_generic_port_mapping_entry gw n r ≡ entry_at (table r) j)
            (omega arith) (w.listed j r))
        fits in
    remove_ports-held igd gw table w _ r q k
    ∙ ap (λ l. if any_at (only_old l) q k then none else held (table r) q k) whole
    ∙ decide_old (table r) q k (w.unique r)
