-- ===== src/Registry/Invariant.antt =====
-- The three tables of the registry agree, and every operation keeps it so.
use pnos_sdk.Base.{ℕ, ◌≡◌, sym, ap, ◌∙◌, none, some, nat_eq, arith, inl, inr}
use pnos_sdk.Base.Dict
use pnos_sdk.Base.Dict.{
  lookup, lookup-insert_cases, lookup-insert_ne, lookup-insert_self, lookup-remove_cases,
  lookup-remove_ne, lookup-remove_self, lookup-insert, lookup-remove, Distinct, insert-Distinct,
  remove-Distinct, length-insert_new, length-remove,
}
use pnos_sdk.NodeId.{NodeId, node_eq}
use pnos_sdk.Address.{SocketAddr, addr_eq}
use pnos_sdk.Registry.{Session, SessionRegistry, new_registry, put}
use mathlib.Core.Path.{subst}

-- The entry of a table points to a session of the registry for which `Fits` holds.
pub record Points {ℓ} (Fits : Session → Type ℓ) (r : SessionRegistry) (id : ℕ) : Type ℓ where
  pub target : Session
  pub found : lookup id r.by_id ≡ some target
  pub fits : Fits target

pub record IsIndexed (r : SessionRegistry) : Type 0 where
  -- A session stands under its own identifier.
  pub ids : (i : ℕ) (s : Session) → lookup i r.by_id ≡ some s → s.id ≡ i
  -- An entry of the peer table or of the address table points to a session of that peer or address.
  pub peer_sound :
      (p : NodeId) (i : ℕ) → lookup p r.by_peer ≡ some i → Points (λ s. s.peer_id ≡ p) r i
  pub addr_sound :
      (a : SocketAddr) (i : ℕ) → lookup a r.by_addr ≡ some i → Points (λ s. s.addr ≡ a) r i
  -- Every session is found by its peer.
  pub peer_complete :
      (i : ℕ) (s : Session) → lookup i r.by_id ≡ some s → lookup s.peer_id r.by_peer ≡ some i
  pub distinct : Distinct r.by_id

-- The identifier is not in use.
abbrev pub IsFresh : ℕ → SessionRegistry → Type 0
IsFresh id r = lookup id r.by_id ≡ none

pub new_registry-IsIndexed : IsIndexed new_registry
unfolding lookup
new_registry-IsIndexed = record {
  ids = λ i s e. cc;
  peer_sound = λ p i e. absurd (ground arith);
  addr_sound = λ a i e. absurd (ground arith);
  peer_complete = λ i s e. cc;
  distinct = tt;
}

module _ (s : Session) (r : SessionRegistry) (h : IsIndexed r) (fresh : IsFresh s.id r) where
  -- What pointed to a session before still does.
  Points-put {ℓ} : (Fits : Session → Type ℓ) (i : ℕ) → Points Fits r i → Points Fits (put s r) i
  unfolding put
  Points-put Fits i p = record {
    target = p.target;
    found = lookup-insert_ne s.id i s r.by_id (λ e. cc (fresh, p.found, e)) ∙ p.found;
    fits = p.fits;
  }

  Points-put_self {ℓ} : (Fits : Session → Type ℓ) → Fits s → Points Fits (put s r) s.id
  unfolding put
  Points-put_self Fits f = record {
    target = s;
    found = lookup-insert_self s.id s r.by_id;
    fits = f;
  }

  ids-put : (i : ℕ) (t : Session) → lookup i (put s r).by_id ≡ some t → t.id ≡ i
  unfolding put
  ids-put i t e = elim (lookup-insert_cases s.id i s t r.by_id e) [
    | inl (same, eq) ↦ sym (ap (λ u. u.id) eq) ∙ same
    | inr (other, old) ↦ h.ids i t old
  ]

  peer_sound-put :
      (p : NodeId) (i : ℕ)
      → lookup p (put s r).by_peer ≡ some i
      → Points (λ t. t.peer_id ≡ p) (put s r) i
  peer_sound-put p i e = elim (lookup-insert_cases s.peer_id p s.id i r.by_peer (unfold put in e)) [
    | inl (same, eq) ↦
        subst (Points (λ t. t.peer_id ≡ p) (put s r)) eq (Points-put_self (λ t. t.peer_id ≡ p) same)
    | inr (other, old) ↦ Points-put (λ t. t.peer_id ≡ p) i (h.peer_sound p i old)
  ]

  addr_sound-put :
      (a : SocketAddr) (i : ℕ)
      → lookup a (put s r).by_addr ≡ some i
      → Points (λ t. t.addr ≡ a) (put s r) i
  addr_sound-put a i e = elim (lookup-insert_cases s.addr a s.id i r.by_addr (unfold put in e)) [
    | inl (same, eq) ↦
        subst (Points (λ t. t.addr ≡ a) (put s r)) eq (Points-put_self (λ t. t.addr ≡ a) same)
    | inr (other, old) ↦ Points-put (λ t. t.addr ≡ a) i (h.addr_sound a i old)
  ]

  peer_complete-put :
      lookup s.peer_id r.by_peer ≡ none
      → (i : ℕ) (t : Session) → lookup i (put s r).by_id ≡ some t
      → lookup t.peer_id (put s r).by_peer ≡ some i
  unfolding put
  peer_complete-put unknown i t e = elim (lookup-insert_cases s.id i s t r.by_id e) [
    | inl (same, eq) ↦
        subst (λ u. lookup u.peer_id (Dict.insert s.peer_id s.id r.by_peer) ≡ some i) eq
          (lookup-insert_self s.peer_id s.id r.by_peer ∙ ap some same)
    | inr (other, old) ↦
        let known = h.peer_complete i t old in
        lookup-insert_ne s.peer_id t.peer_id s.id r.by_peer
          (λ q. cc (unknown, ap (λ p. lookup p r.by_peer) q, known))
        ∙ known
  ]

  pub put-IsIndexed : lookup s.peer_id r.by_peer ≡ none → IsIndexed (put s r)
  put-IsIndexed unknown = record {
    ids = ids-put;
    peer_sound = peer_sound-put;
    addr_sound = addr_sound-put;
    peer_complete = peer_complete-put unknown;
    distinct = unfold put in insert-Distinct s.id s r.by_id h.distinct;
  }
