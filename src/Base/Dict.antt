-- ===== src/Base/Dict.antt =====
-- A `HashMap` as an association list: `insert` replaces the value in place or adds an entry at the
-- end, so every key stands once in a map that the operations build. The order of the entries is one
-- of those that the map's iteration may have.
use Prim.Native.Nat.{◌+◌}
use mathlib.Core.Path.{◌≡◌, refl, ◌∙◌, ap}
use mathlib.Core.Bool.{Bool, true, false}
use mathlib.Core.Logic.{◌≢◌, ◌⊎◌, inl, inr}
use mathlib.Core.Option.{Option, none, some}
use mathlib.Core.List.{List, [], ◌∷◌}
use native.Mathlib.Omega.{arith}
use pnos_sdk.Base.Tests.{Eq, ◌=?◌, =?_refl, =?_eq, =?_ne_sym, if◌then◌else◌, Bool-cases}
use pnos_sdk.Base.Lists.{length}

abbrev pub is_some {ℓ} : {A : Type ℓ} → Option A → Bool
is_some none = false
is_some (some a) = true

module _ {ℓ κ} {K : Type ℓ} {V : Type κ} ⦃e : Eq K⦄ where
  unfoldable pub lookup : K → List (K × V) → Option V
  lookup key [] = none
  lookup key ((first, value) ∷ more) = if first =? key then some value else lookup key more

  unfoldable pub insert : K → V → List (K × V) → List (K × V)
  insert key new [] = (key, new) ∷ []
  insert key new ((first, old) ∷ more) =
      if first =? key then (key, new) ∷ more else (first, old) ∷ insert key new more

  unfoldable pub remove : K → List (K × V) → List (K × V)
  remove key [] = []
  remove key ((first, value) ∷ more) =
      if first =? key then remove key more else (first, value) ∷ remove key more

  abbrev pub contains_key : K → List (K × V) → Bool
  contains_key k m = is_some (lookup k m)

  -- Every key stands once.
  abbrev pub Distinct : List (K × V) → Type κ
  Distinct [] = Unit
  Distinct ((k, v) ∷ m) = (lookup k m ≡ none) × Distinct m

  pub lookup-insert :
      (key asked : K) (new : V) (table : List (K × V))
      → lookup asked (insert key new table)
        ≡ (if key =? asked then some new else lookup asked table)
  unfolding insert lookup
  lookup-insert key asked new [] = refl
  lookup-insert key asked new ((first, old) ∷ more) = ground (
    arith,
    lookup-insert key asked new more,
    e.test_iff first asked,
    e.test_iff key asked,
    e.test_iff first key,
  )

  pub lookup-remove :
      (k j : K) (m : List (K × V)) → lookup j (remove k m) ≡ (if k =? j then none else lookup j m)
  unfolding lookup remove
  lookup-remove k j [] = ground arith
  lookup-remove k j ((i, w) ∷ m) =
      ground (arith, e.test_iff k j, e.test_iff i k, e.test_iff i j, lookup-remove k j m)

  pub lookup-insert_self : (k : K) (v : V) (m : List (K × V)) → lookup k (insert k v m) ≡ some v
  lookup-insert_self k v m =
      lookup-insert k k v m ∙ ap (λ b. if b then some v else lookup k m) (=?_refl k)

  pub insert-Distinct : (k : K) (v : V) (m : List (K × V)) → Distinct m → Distinct (insert k v m)
  unfolding lookup insert
  insert-Distinct k v [] d = (refl, tt)
  insert-Distinct k v ((i, w) ∷ m) d = elim (Bool-cases (i =? k)) [
    | inl same ↦ rw (same, ← =?_eq i k same) d
    | inr other ↦
        rw other (lookup-insert k i v m ∙ rw (=?_ne_sym i k other) d.0, insert-Distinct k v m d.1)
  ]

  pub remove-Distinct : (k : K) (m : List (K × V)) → Distinct m → Distinct (remove k m)
  unfolding remove
  remove-Distinct k [] d = tt
  remove-Distinct k ((i, w) ∷ m) d = elim (Bool-cases (i =? k)) [
    | inl same ↦ rw same (remove-Distinct k m d.1)
    | inr other ↦
        rw other (lookup-remove k i m ∙ rw (=?_ne_sym i k other) d.0, remove-Distinct k m d.1)
  ]

  pub length-insert_new :
      (k : K) (v : V) (m : List (K × V)) → lookup k m ≡ none → length (insert k v m) ≡ length m + 1
  unfolding lookup insert
  length-insert_new k v [] h = omega arith
  length-insert_new k v ((i, w) ∷ m) h = ground (arith, length-insert_new k v m)

  pub remove_absent : (k : K) (m : List (K × V)) → lookup k m ≡ none → remove k m ≡ m
  unfolding lookup remove
  remove_absent k [] h = refl
  remove_absent k ((i, w) ∷ m) h = ground (arith, remove_absent k m)

  pub length-remove :
      (k : K) {v : V} (m : List (K × V))
      → Distinct m
      → lookup k m ≡ some v
      → length (remove k m) + 1 ≡ length m
  unfolding lookup remove
  length-remove k [] d h = cc
  length-remove k {v} ((i, w) ∷ m) d h =
      ground (arith, e.test_iff i k, length-remove k {v = v} m, remove_absent k m)

  -- An entry of a map after a write: the written one, or one of another key.
  pub lookup-insert_cases :
      (k j : K) (v w : V) (m : List (K × V))
      → lookup j (insert k v m) ≡ some w
      → ((k ≡ j) × (v ≡ w)) ⊎ ((k ≢ j) × (lookup j m ≡ some w))
  lookup-insert_cases k j v w m h = elim (Bool-cases (k =? j)) [
    | inl same ↦ inl (=?_eq k j same, ground (arith, lookup-insert k j v m))
    | inr other ↦ inr (ground (arith, e.test_iff k j), ground (arith, lookup-insert k j v m))
  ]

  pub lookup-insert_ne :
      (k j : K) (v : V) (m : List (K × V)) → k ≢ j → lookup j (insert k v m) ≡ lookup j m
  lookup-insert_ne k j v m h = ground (arith, lookup-insert k j v m, e.test_iff k j)

  pub lookup-remove_ne : (k j : K) (m : List (K × V)) → k ≢ j → lookup j (remove k m) ≡ lookup j m
  lookup-remove_ne k j m h = ground (arith, lookup-remove k j m, e.test_iff k j)

  pub lookup-remove_self : (k : K) (m : List (K × V)) → lookup k (remove k m) ≡ none
  lookup-remove_self k m =
      lookup-remove k k m ∙ ap (λ b. if b then none else lookup k m) (=?_refl k)

  -- An entry that is left after a removal stands under another key.
  pub lookup-remove_cases :
      (k j : K) (w : V) (m : List (K × V))
      → lookup j (remove k m) ≡ some w
      → (k ≢ j) × (lookup j m ≡ some w)
  lookup-remove_cases k j w m h = elim (Bool-cases (k =? j)) [
    | inl same ↦ absurd (ground (arith, lookup-remove k j m))
    | inr other ↦ (ground (arith, e.test_iff k j), ground (arith, lookup-remove k j m))
  ]
