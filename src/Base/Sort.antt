-- ===== src/Base/Sort.antt =====
-- `sort_by`, which is stable, by a test for "strictly before".
use Prim.Native.Nat.{ℕ, zero, suc}
use mathlib.Core.Path.{◌≡◌}
use mathlib.Core.Logic.{inl, inr}
use mathlib.Core.Bool.{Bool, true, false}
use mathlib.Core.List.{List, [], ◌∷◌, Perm}
use mathlib.Core.List.Perm
use pnos_sdk.Base.Tests.{if◌then◌else◌, Bool-cases}
use pnos_sdk.Base.Lists.{All, take, drop}

module _ {ℓ} {A : Type ℓ} (before : A → A → Bool) where
  abbrev pub insert_by : A → List A → List A
  insert_by x [] = x ∷ []
  insert_by x (y ∷ ys) = let rest = insert_by x ys in if before y x then y ∷ rest else x ∷ y ∷ ys

  abbrev pub sort_by : List A → List A
  sort_by [] = []
  sort_by (x ∷ xs) = insert_by x (sort_by xs)

  -- No element is strictly before one that stands in front of it.
  abbrev pub IsSortedBy : List A → Type 0
  IsSortedBy [] = Unit
  IsSortedBy (x ∷ xs) = All (λ y. before y x ≡ false) xs × IsSortedBy xs

  -- Every element of the first list may stand in front of those of the second.
  abbrev pub InFrontOf : List A → List A → Type 0
  InFrontOf xs ys = All (λ x. All (λ y. before y x ≡ false) ys) xs

  if-perm :
      (b : Bool) (xs ys zs : List A) → Perm xs zs → Perm ys zs → Perm (if b then xs else ys) zs
  if-perm true xs ys zs p q = p
  if-perm false xs ys zs p q = q

  insert_by-perm : (x : A) (ys : List A) → Perm (insert_by x ys) (x ∷ ys)
  insert_by-perm x [] = Perm.refl _
  insert_by-perm x (y ∷ ys) =
      if-perm (before y x) _ _ _ (Perm.trans (Perm.cons y (insert_by-perm x ys)) (Perm.swap _ _ _))
        (Perm.refl _)

  pub sort_by-perm : (xs : List A) → Perm (sort_by xs) xs
  sort_by-perm [] = Perm.refl _
  sort_by-perm (x ∷ xs) = Perm.trans (insert_by-perm x (sort_by xs)) (Perm.cons x (sort_by-perm xs))

  if-All :
      (P : A → Type 0) (b : Bool) (xs ys : List A)
      → All P xs
      → All P ys
      → All P (if b then xs else ys)
  if-All P true xs ys p q = p
  if-All P false xs ys p q = q

  All-insert_by : (P : A → Type 0) (x : A) (ys : List A) → P x → All P ys → All P (insert_by x ys)
  All-insert_by P x [] p h = (p, tt)
  All-insert_by P x (y ∷ ys) p h =
      if-All P (before y x) _ _ (h.0, All-insert_by P x ys p h.1) (p, h)

  pub All-sort_by : (P : A → Type 0) (xs : List A) → All P xs → All P (sort_by xs)
  All-sort_by P [] h = tt
  All-sort_by P (x ∷ xs) h = All-insert_by P x (sort_by xs) h.0 (All-sort_by P xs h.1)

  All-drop : (P : A → Type 0) (m : ℕ) (ys : List A) → All P ys → All P (drop m ys)
  All-drop P zero ys k = k
  All-drop P (suc m) [] k = tt
  All-drop P (suc m) (y ∷ ys) k = All-drop P m ys k.1

  module _ (trans_not : (a b c : A) → before b a ≡ false → before c b ≡ false → before c a ≡ false)
      (asym : (a b : A) → before a b ≡ true → before b a ≡ false) where
    All-trans :
        (x y : A) (ys : List A)
        → before y x ≡ false
        → All (λ z. before z y ≡ false) ys
        → All (λ z. before z x ≡ false) ys
    All-trans x y [] h k = tt
    All-trans x y (z ∷ ys) h k = (trans_not x y z h k.0, All-trans x y ys h k.1)

    insert_by-sorted : (x : A) (ys : List A) → IsSortedBy ys → IsSortedBy (insert_by x ys)
    insert_by-sorted x [] h = (tt, tt)
    insert_by-sorted x (y ∷ ys) (first, more) = elim (Bool-cases (before y x)) [
      | inl less ↦ rw less (
        All-insert_by (λ z. before z y ≡ false) x ys (asym y x less) first,
        insert_by-sorted x ys more,
      )
      | inr other ↦ rw other ((other, All-trans x y ys other first), (first, more))
    ]

    pub sort_by-sorted : (xs : List A) → IsSortedBy (sort_by xs)
    sort_by-sorted [] = tt
    sort_by-sorted (x ∷ xs) = insert_by-sorted x (sort_by xs) (sort_by-sorted xs)

  pub take-InFrontOf-drop :
      (n : ℕ) (xs : List A) → IsSortedBy xs → InFrontOf (take n xs) (drop n xs)
  take-InFrontOf-drop zero xs h = tt
  take-InFrontOf-drop (suc n) [] h = tt
  take-InFrontOf-drop (suc n) (x ∷ xs) h =
      (All-drop (λ y. before y x ≡ false) n xs h.0, take-InFrontOf-drop n xs h.1)
