-- ===== src/Discovery/Window.antt =====
-- How often an announcement is news, lpd.rs.
use pnos_sdk.Base.{
  ℕ, ◌+◌, ◌-◌, ◌<◌, ◌≡◌, refl, ap, ◌∙◌, Bool, true, false, List, [], ◌∷◌, some, ltb, lt→ltb,
  if◌then◌else◌, length, All, Bool-cases, inl, inr, arith,
}
use pnos_sdk.Base.Dict.{lookup, lookup-insert}
use pnos_sdk.Base.Dict
use pnos_sdk.Manager.Cooldown.{key_eq, key_test, key_test_iff}
use pnos_sdk.Discovery.{Key, retain_recent, suppressed, should_emit}

-- The keys that were news, of announcements with their times.
unfoldable pub emissions : List (Key × ℕ) → List (Key × ℕ) → List Key
emissions [] r = []
emissions ((k, t) ∷ more) r =
    let (news, r') = should_emit k t r in
    let rest = emissions more r' in if news then k ∷ rest else rest

lookup-retain_recent :
    (key : Key) (now t : ℕ) (r : List (Key × ℕ))
    → t - now < 15
    → lookup key r ≡ some now
    → lookup key (retain_recent t r) ≡ some now
unfolding lookup
lookup-retain_recent key now t [] h e = e
lookup-retain_recent key now t ((k, ts) ∷ more) h e =
    ground (arith, lookup-retain_recent key now t more h, e)

-- What one announcement does while the entry of a key is in its window.
module _ (key k : Key) (now t : ℕ) (within : t - now < 15) where
  table_of : List (Key × ℕ) → List (Key × ℕ)
  table_of r = if ltb 4096 (length r) then retain_recent t r else r

  lookup-table_of :
      (r : List (Key × ℕ)) → lookup key r ≡ some now → lookup key (table_of r) ≡ some now
  unfolding table_of
  lookup-table_of r e = either (ltb 4096 (length r))
    where
      either : (b : Bool) → lookup key (if b then retain_recent t r else r) ≡ some now
      either true = lookup-retain_recent key now t r within e
      either false = e

  judged : (r : List (Key × ℕ)) → Bool → Bool × List (Key × ℕ)
  judged r b = if b then (false, r) else (true, Dict.insert k t r)

  judged-lookup :
      (r : List (Key × ℕ)) (b : Bool)
      → lookup key r ≡ some now
      → (key_test k key ≡ true → b ≡ true)
      → lookup key (judged r b).1 ≡ some now
  unfolding judged
  judged-lookup r true e h = e
  judged-lookup r false e h = elim (Bool-cases (key_test k key)) [
    | inl same ↦ absurd (ground (arith, h same))
    | inr other ↦ lookup-insert k key t r ∙ rw other e
  ]

  same_suppressed :
      (r : List (Key × ℕ))
      → lookup key r ≡ some now
      → key_test k key ≡ true
      → suppressed t (lookup k r) ≡ true
  same_suppressed r e same =
      ap (λ j. suppressed t (lookup j r)) ((key_test_iff k key).0 same)
      ∙ ap (suppressed t) e
      ∙ lt→ltb (t - now) 15 within

  should_emit-within :
      (r : List (Key × ℕ))
      → lookup key r ≡ some now
      → (lookup key (should_emit k t r).1 ≡ some now)
        × (key_test k key ≡ true → (should_emit k t r).0 ≡ false)
  unfolding should_emit judged table_of
  should_emit-within r e =
      let e' = lookup-table_of r e in
      (
        judged-lookup (table_of r) (suppressed t (lookup k (table_of r))) e'
            (same_suppressed (table_of r) e'),
        λ same. ap (λ b. (judged (table_of r) b).0) (same_suppressed (table_of r) e' same),
      )

none_again :
    (key : Key) (now : ℕ) (calls r : List (Key × ℕ))
    → lookup key r ≡ some now
    → All (λ c. c.1 < now + 15) calls
    → All (λ k. key_test k key ≡ false) (emissions calls r)
unfolding emissions
none_again key now [] r e h = tt
none_again key now ((k, t) ∷ more) r e (within, h) =
    let (kept, silent) = should_emit-within key k now t (omega (arith, within)) r e in
    judge (should_emit k t r) silent (none_again key now more (should_emit k t r).1 kept h)
  where
    judge :
        (x : Bool × List (Key × ℕ))
        → (key_test k key ≡ true → x.0 ≡ false)
        → All (λ j. key_test j key ≡ false) (emissions more x.1)
        → All
            (λ j. key_test j key ≡ false)
            (if x.0 then k ∷ emissions more x.1 else emissions more x.1)
    judge (false, r') silent rest = rest
    judge (true, r') silent rest = (ground (arith, silent), rest)

emitted_entry :
    (key : Key) (now : ℕ) (r : List (Key × ℕ))
    → (should_emit key now r).0 ≡ true
    → lookup key (should_emit key now r).1 ≡ some now
unfolding should_emit
emitted_entry key now r news = by (suppressed now (lookup key r')) news
  where
    r' : List (Key × ℕ)
    r' = if ltb 4096 (length r) then retain_recent now r else r

    outcome : Bool → Bool × List (Key × ℕ)
    outcome b = if b then (false, r') else (true, Dict.insert key now r')

    by : (b : Bool) → (outcome b).0 ≡ true → lookup key (outcome b).1 ≡ some now
    by true h = absurd (ground (arith, h))
    by false h =
        lookup-insert key key now r'
        ∙ ap (λ b. if b then some now else lookup key r') ((key_test_iff key key).1 refl)

-- After an announcement of a node and an address was news, none of them is news again within fifteen
-- seconds, whatever other announcements come in between and however full the table is.
pub emissions-should_emit :
    (key : Key) (now : ℕ) (r calls : List (Key × ℕ))
    → (should_emit key now r).0 ≡ true
    → All (λ c. c.1 < now + 15) calls
    → All (λ k. key_test k key ≡ false) (emissions calls (should_emit key now r).1)
emissions-should_emit key now r calls news h =
    none_again key now calls (should_emit key now r).1 (emitted_entry key now r news) h
