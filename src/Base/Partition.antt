-- ===== src/Base/Partition.antt =====
-- A list as the elements that pass a test and the others.
use Prim.Native.Nat.{ℕ}
use mathlib.Core.Path.{◌≡◌, refl, sym, subst}
use mathlib.Core.Bool.{Bool, true, false, not}
use mathlib.Core.List.{List, [], ◌∷◌, ◌++◌, Perm, perm_middle}
use mathlib.Core.List.Perm
use pnos_sdk.Base.Tests.{if◌then◌else◌}
use pnos_sdk.Base.Lists.{All, take, drop, take-append-drop}
use pnos_sdk.Base.Sort.{sort_by, sort_by-perm}

module _ {ℓ} {A : Type ℓ} where
  abbrev pub keep : (A → Bool) → List A → List A
  keep p [] = []
  keep p (x ∷ xs) = let rest = keep p xs in if p x then x ∷ rest else rest

  pub keep-perm : (p : A → Bool) (xs : List A) → Perm (keep p xs ++ keep (λ x. not (p x)) xs) xs
  keep-perm p [] = Perm.refl _
  keep-perm p (x ∷ xs) = step (p x) (keep-perm p xs)
    where
      step :
          (b : Bool)
          → Perm (keep p xs ++ keep (λ y. not (p y)) xs) xs
          → Perm
              ((if b then x ∷ keep p xs else keep p xs)
                ++ (if not b then x ∷ keep (λ y. not (p y)) xs else keep (λ y. not (p y)) xs))
              (x ∷ xs)
      step true h = Perm.cons x h
      step false h = Perm.trans (perm_middle _ _) (Perm.cons x h)

  pub All-keep {κ} :
      (Q : A → Type κ) (p : A → Bool)
      → ((x : A) → p x ≡ true → Q x)
      → (xs : List A) → All Q (keep p xs)
  All-keep Q p imp [] = tt
  All-keep Q p imp (x ∷ xs) = step (p x) (imp x) (All-keep Q p imp xs)
    where
      step :
          (b : Bool)
          → (b ≡ true → Q x)
          → All Q (keep p xs)
          → All Q (if b then x ∷ keep p xs else keep p xs)
      step true f h = (f refl, h)
      step false f h = h

  -- The first of the elements that pass, in the order of a sort, with the rest and the others.
  pub take-sort-keep-perm :
      (before : A → A → Bool) (p : A → Bool) (n : ℕ) (xs : List A)
      → Perm
          ((take n (sort_by before (keep p xs)) ++ drop n (sort_by before (keep p xs)))
            ++ keep (λ x. not (p x)) xs)
          xs
  take-sort-keep-perm before p n xs =
      let sorted : List A = sort_by before (keep p xs) in
      Perm.trans
        (subst (λ l. Perm (l ++ keep (λ x. not (p x)) xs) (keep p xs ++ keep (λ x. not (p x)) xs))
          (sym (take-append-drop n sorted)) (Perm.append_right _ (sort_by-perm before (keep p xs))))
        (keep-perm p xs)
