-- ===== src/Manager/Replenish/Order.antt =====
-- The order in which `replenish` takes the candidates, by scores and by identifiers.
use pnos_sdk.Base.{
  ℕ, ◌<◌, ◌≡◌, ◌⊎◌, inl, inr, refl, true, false, List, [], ◌∷◌, arith, ltb, ltb→lt, Bool-cases,
}
use pnos_sdk.NodeId.{lt_octets}
use pnos_sdk.Manager.Replenish.{Scored, comes_first}

-- The order of texts of bytes: the first byte in which they differ decides.
pub data IsBelow : List ℕ → List ℕ → Type 0 where
  shorter : (y : ℕ) (ys : List ℕ) → IsBelow [] (y ∷ ys)
  less : (x y : ℕ) (xs ys : List ℕ) → x < y → IsBelow (x ∷ xs) (y ∷ ys)
  after : (x : ℕ) (xs ys : List ℕ) → IsBelow xs ys → IsBelow (x ∷ xs) (x ∷ ys)

-- A greater score, or the same score and an identifier that is not greater.
abbrev pub IsRanked : Scored → Scored → Type 0
IsRanked (s, c) (t, d) =
    (t < s)
    ⊎ ((s ≡ t)
        × ((c.peer_id.octets ≡ d.peer_id.octets) ⊎ IsBelow c.peer_id.octets d.peer_id.octets))

lt_octets_trans :
    (xs ys zs : List ℕ)
    → lt_octets ys xs ≡ false
    → lt_octets zs ys ≡ false
    → lt_octets zs xs ≡ false
unfolding lt_octets
lt_octets_trans [] [] [] h k = refl
lt_octets_trans [] [] (z ∷ zs) h k = k
lt_octets_trans [] (y ∷ ys) [] h k = refl
lt_octets_trans [] (y ∷ ys) (z ∷ zs) h k = refl
lt_octets_trans (x ∷ xs) [] zs h k = absurd (ground (arith, h))
lt_octets_trans (x ∷ xs) (y ∷ ys) [] h k = absurd (ground (arith, k))
lt_octets_trans (x ∷ xs) (y ∷ ys) (z ∷ zs) h k = ground (arith, lt_octets_trans xs ys zs)

lt_octets_asym : (xs ys : List ℕ) → lt_octets xs ys ≡ true → lt_octets ys xs ≡ false
unfolding lt_octets
lt_octets_asym [] [] h = refl
lt_octets_asym [] (y ∷ ys) h = refl
lt_octets_asym (x ∷ xs) [] h = absurd (ground (arith, h))
lt_octets_asym (x ∷ xs) (y ∷ ys) h = ground (arith, lt_octets_asym xs ys)

pub comes_first_trans :
    (a b c : Scored) → comes_first b a ≡ false → comes_first c b ≡ false → comes_first c a ≡ false
unfolding comes_first
comes_first_trans (s, a) (t, b) (u, c) h k =
    ground (arith, lt_octets_trans a.peer_id.octets b.peer_id.octets c.peer_id.octets)

pub comes_first_asym : (a b : Scored) → comes_first a b ≡ true → comes_first b a ≡ false
unfolding comes_first
comes_first_asym (s, a) (t, b) h = ground (arith, lt_octets_asym a.peer_id.octets b.peer_id.octets)

lt_octets-IsBelow : (xs ys : List ℕ) → lt_octets ys xs ≡ false → (xs ≡ ys) ⊎ IsBelow xs ys
unfolding lt_octets
lt_octets-IsBelow [] [] h = inl refl
lt_octets-IsBelow [] (y ∷ ys) h = inr (shorter y ys)
lt_octets-IsBelow (x ∷ xs) [] h = absurd (ground (arith, h))
lt_octets-IsBelow (x ∷ xs) (y ∷ ys) h = elim (Bool-cases (ltb x y)) [
  | inl lower ↦ inr (less x y xs ys (ltb→lt _ _ lower))
  | inr no_lower ↦
      let same : x ≡ y = ground (arith, h, no_lower) in
      let later : lt_octets ys xs ≡ false = ground (arith, h, same) in
      elim (lt_octets-IsBelow xs ys later) [
        | inl equal ↦ inl (cc)
        | inr below ↦ inr (rw (← same) (after x xs ys below))
      ]
]

pub comes_first-IsRanked : (x y : Scored) → comes_first y x ≡ false → IsRanked x y
unfolding comes_first
comes_first-IsRanked (s, c) (t, d) h = elim (Bool-cases (ltb t s)) [
  | inl more ↦ inl (ltb→lt _ _ more)
  | inr no_more ↦
      let same : s ≡ t = ground (arith, h, no_more) in
      let ids : lt_octets d.peer_id.octets c.peer_id.octets ≡ false = ground (arith, h, same) in
      inr (same, lt_octets-IsBelow c.peer_id.octets d.peer_id.octets ids)
]
