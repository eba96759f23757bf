-- ===== src/Registry/Removal.antt =====
-- Removal keeps the tables of the registry in agreement, and takes away no other session.
use pnos_sdk.Base.{
  ℕ, ◌≡◌, ◌≢◌, sym, ap, ◌∙◌, List, [], ◌∷◌, none, some, All, length, suc, refl, =?_refl, Eq, nat_eq,
  arith, Bool-cases, inl, inr,
}
use pnos_sdk.Base.Dict.{lookup, Distinct, lookup-remove_cases, lookup-remove_ne, remove-Distinct}
use pnos_sdk.NodeId.{NodeId, node_eq}
use pnos_sdk.Address.{SocketAddr, addr_eq}
use pnos_sdk.Registry.{Session, SessionRegistry, take_out, values, unlink, points_to}
use pnos_sdk.Registry.Invariant.{IsIndexed, Points}

module _ {ℓ} {K : Type ℓ} ⦃e : Eq K⦄ (k j : K) (id i : ℕ) (m : List (K × ℕ)) where
  -- What is left after `unlink` was there before, and it is not the entry of `k` for `id`.
  unlink_cases : lookup j (unlink k id m) ≡ some i → (lookup j m ≡ some i) × (k ≡ j → i ≢ id)
  unlink_cases h = elim (Bool-cases (points_to id (lookup k m))) [
    | inl here ↦
        let (other, old) = lookup-remove_cases k j i m (rw here at h) in
        (old, λ q. absurd (other q))
    | inr away ↦
        let old : lookup j m ≡ some i = rw away at h in
        (old, λ q p. ground (arith, ap (λ x. lookup x m) q))
  ]

  -- An entry for another session is kept.
  unlink_keep : lookup j m ≡ some i → i ≢ id → lookup j (unlink k id m) ≡ some i
  unlink_keep h other = elim (Bool-cases (points_to id (lookup k m))) [
    | inl here ↦ rw here (lookup-remove_ne k j m (λ q. ground (arith, ap (λ x. lookup x m) q)) ∙ h)
    | inr away ↦ rw away h
  ]

module _ (id : ℕ) (s : Session) (r : SessionRegistry) (h : IsIndexed r)
    (registered : lookup id r.by_id ≡ some s) where
  Points-away {ℓ} :
      (Fits : Session → Type ℓ) (i : ℕ) → i ≢ id → Points Fits r i → Points Fits (take_out id s r) i
  unfolding take_out
  Points-away Fits i other p = record {
    target = p.target;
    found = lookup-remove_ne id i r.by_id (λ q. other (sym q)) ∙ p.found;
    fits = p.fits;
  }

  peer_sound-take_out :
      (p : NodeId) (i : ℕ)
      → lookup p (take_out id s r).by_peer ≡ some i
      → Points (λ t. t.peer_id ≡ p) (take_out id s r) i
  peer_sound-take_out p i e =
      let (old, other) = unlink_cases s.peer_id p id i r.by_peer (unfold take_out in e) in
      let q = h.peer_sound p i old in
      Points-away (λ t. t.peer_id ≡ p) i
        (λ same. other (cc (q.found, q.fits, registered, same)) same) q

  addr_sound-take_out :
      (a : SocketAddr) (i : ℕ)
      → lookup a (take_out id s r).by_addr ≡ some i
      → Points (λ t. t.addr ≡ a) (take_out id s r) i
  addr_sound-take_out a i e =
      let (old, other) = unlink_cases s.addr a id i r.by_addr (unfold take_out in e) in
      let q = h.addr_sound a i old in
      Points-away (λ t. t.addr ≡ a) i (λ same. other (cc (q.found, q.fits, registered, same)) same)
        q

  pub take_out-IsIndexed : IsIndexed (take_out id s r)
  take_out-IsIndexed = record {
    ids = λ i t e. h.ids i t (lookup-remove_cases id i t r.by_id (unfold take_out in e)).1;
    peer_sound = peer_sound-take_out;
    addr_sound = addr_sound-take_out;
    peer_complete = λ i t e.
        let (other, old) = lookup-remove_cases id i t r.by_id (unfold take_out in e) in
        unfold take_out in
        unlink_keep s.peer_id t.peer_id id i r.by_peer (h.peer_complete i t old)
          (λ q. other (sym q));
    distinct = unfold take_out in remove-Distinct id r.by_id h.distinct;
  }

module _ {ℓ κ} {K : Type ℓ} {V : Type κ} ⦃e : Eq K⦄ where
  lookup_head : (k : K) (v : V) (m : List (K × V)) → lookup k ((k, v) ∷ m) ≡ some v
  unfolding lookup
  lookup_head k v m = rw (=?_refl k)

  lookup_tail :
      (k j : K) (v w : V) (m : List (K × V))
      → lookup k m ≡ none
      → lookup j m ≡ some w
      → lookup j ((k, v) ∷ m) ≡ some w
  unfolding lookup
  lookup_tail k j v w m absent found = ground (arith, e.test_iff k j)

-- What holds of every session that a table gives holds of all its values.
module _ {ℓ κ} {K : Type ℓ} {V : Type κ} ⦃e : Eq K⦄ where
  pub All-values :
      (P : V → Type 0) (m : List (K × V))
      → Distinct m
      → ((k : K) (v : V) → lookup k m ≡ some v → P v)
      → All P (values m)
  All-values P [] d f = tt
  All-values P ((k, v) ∷ m) d f =
      (f k v (lookup_head k v m), All-values P m d.1 (λ j w g. f j w (lookup_tail k j v w m d.0 g)))

  pub length-values : (m : List (K × V)) → length (values m) ≡ length m
  length-values [] = refl
  length-values ((k, v) ∷ m) = ap suc (length-values m)
