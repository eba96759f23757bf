-- ===== src/Manager/Links.antt =====
-- What relates the registry, the closed flags and the identifiers of the session manager to the
-- sessions that are on their way in or out, and that every step keeps it.
use pnos_sdk.Base.{
  ℕ, ◌+◌, ◌<◌, ◌≡◌, refl, ◌∙◌, Bool, true, false, List, [], ◌∷◌, ◌++◌, none, some, nat_eq,
  Option-cases, inl, inr, All, All-append, arith,
}
use pnos_sdk.Base.Dict.{
  lookup, lookup-insert_cases, lookup-insert_ne, lookup-remove, lookup-remove_cases,
  lookup-remove_self,
}
use mathlib.Core.Path.{subst}
use pnos_sdk.Registry.{Session, SessionRegistry, get_by_peer, put, take_out, len}
use pnos_sdk.Registry
use pnos_sdk.Registry.Invariant.{IsIndexed, new_registry-IsIndexed, put-IsIndexed}
use pnos_sdk.NodeId.{node_eq}
use pnos_sdk.Registry.Removal.{take_out-IsIndexed, All-values}
use pnos_sdk.Manager.{update}

-- A session between its removal from the registry and the record of its closing.
pub record HasLeft (r : SessionRegistry) (entering : ℕ → Bool) (next_id : ℕ) (t : Session)
    : Type 0 where
  pub unregistered : lookup t.id r.by_id ≡ none
  pub not_entering : entering t.id ≡ false
  pub created : t.id < next_id

pub record IsLinked (r : SessionRegistry) (flag : ℕ → Bool) (next_id : ℕ) (entering : ℕ → Bool)
    (leaving : List Session) : Type 0 where
  pub indexed : IsIndexed r
  -- A registered session has an identifier that was given out, is not marked closed and is not still
  -- entering; one that is entering has such an identifier and is not marked closed.
  pub below : (i : ℕ) (s : Session) → lookup i r.by_id ≡ some s → i < next_id
  pub unclosed : (i : ℕ) (s : Session) → lookup i r.by_id ≡ some s → flag i ≡ false
  pub entered : (i : ℕ) (s : Session) → lookup i r.by_id ≡ some s → entering i ≡ false
  pub entering_below : (i : ℕ) → entering i ≡ true → i < next_id
  pub entering_unclosed : (i : ℕ) → entering i ≡ true → flag i ≡ false
  pub left : All (HasLeft r entering next_id) leaving

All-map :
    {P Q : Session → Type 0} (xs : List Session) → ((t : Session) → P t → Q t) → All P xs → All Q xs
All-map [] f h = tt
All-map (x ∷ xs) f h = (f x h.0, All-map xs f h.1)

All-remove :
    (P : Session → Type 0) (front back : List Session) (t : Session)
    → All P (front ++ t ∷ back)
    → P t × All P (front ++ back)
All-remove P [] back t h = h
All-remove P (x ∷ front) back t h =
    let (p, rest) = All-remove P front back t h.1 in (p, (h.0, rest))

pub nothing : (i : ℕ) (s : Session) → lookup i Registry.new_registry.by_id ≡ some s → ⊥
unfolding lookup
nothing i s e = cc

module _ {r : SessionRegistry} {flag : ℕ → Bool} {n : ℕ} {entering : ℕ → Bool}
    {leaving : List Session} (h : IsLinked r flag n entering leaving) where
  pub create-IsLinked : IsLinked r (update flag n false) (n + 1) (update entering n true) leaving
  create-IsLinked = record {
    indexed = h.indexed;
    below = λ i s e. omega (arith, h.below i s e);
    unclosed = λ i s e. ground (arith, h.unclosed i s e);
    entered = λ i s e. ground (arith, h.entered i s e, h.below i s e);
    entering_below = λ i e. ground (arith, h.entering_below i);
    entering_unclosed = λ i e. ground (arith, h.entering_unclosed i);
    left =
        All-map {P = HasLeft r entering n} leaving
          (λ t g. record {
            unregistered = g.unregistered;
            not_entering = ground (arith, g.not_entering, g.created);
            created = omega (arith, g.created);
          })
          h.left;
  }

  -- A session that is entering is marked closed, and gives up.
  pub give_up-IsLinked :
      (id : ℕ)
      → entering id ≡ true
      → IsLinked r (update flag id true) n (update entering id false) leaving
  give_up-IsLinked id e = record {
    indexed = h.indexed;
    below = h.below;
    unclosed = λ i s g. ground (arith, h.unclosed i s g, h.entered i s g);
    entered = λ i s g. ground (arith, h.entered i s g);
    entering_below = λ i g. ground (arith, h.entering_below i);
    entering_unclosed = λ i g. ground (arith, h.entering_unclosed i);
    left =
        All-map {P = HasLeft r entering n} leaving
          (λ t g. record {
            unregistered = g.unregistered;
            not_entering = ground (arith, g.not_entering);
            created = g.created;
          })
          h.left;
  }

  pub entering_fresh : (i : ℕ) → entering i ≡ true → lookup i r.by_id ≡ none
  entering_fresh i e = elim (Option-cases (lookup i r.by_id)) [
    | inl absent ↦ absent
    | inr (s, found) ↦ absurd (ground (arith, h.entered i s found))
  ]

  pub put-IsLinked :
      (s : Session)
      → entering s.id ≡ true
      → lookup s.peer_id r.by_peer ≡ none
      → IsLinked (put s r) flag n (update entering s.id false) leaving
  unfolding put
  put-IsLinked s e unknown =
      let fresh : lookup s.id r.by_id ≡ none = entering_fresh s.id e in
      record {
        indexed = put-IsIndexed s r h.indexed fresh unknown;
        below = λ i t g. elim (lookup-insert_cases s.id i s t r.by_id g) [
          | inl (same, eq) ↦ omega (arith, same, h.entering_below s.id e)
          | inr (other, old) ↦ h.below i t old
        ];
        unclosed = λ i t g. elim (lookup-insert_cases s.id i s t r.by_id g) [
          | inl (same, eq) ↦ ground (arith, same, h.entering_unclosed s.id e)
          | inr (other, old) ↦ h.unclosed i t old
        ];
        entered = λ i t g. elim (lookup-insert_cases s.id i s t r.by_id g) [
          | inl (same, eq) ↦ ground (arith, same)
          | inr (other, old) ↦ ground (arith, h.entered i t old)
        ];
        entering_below = λ i g. ground (arith, h.entering_below i);
        entering_unclosed = λ i g. ground (arith, h.entering_unclosed i);
        left =
            All-map {P = HasLeft r entering n} leaving
              (λ t g. record {
                unregistered =
                    lookup-insert_ne s.id t.id s r.by_id (λ q. ground (arith, e, g.not_entering, q))
                    ∙ g.unregistered;
                not_entering = ground (arith, g.not_entering);
                created = g.created;
              })
              h.left;
      }

  pub take-IsLinked :
      (id : ℕ) (t : Session)
      → lookup id r.by_id ≡ some t
      → IsLinked (take_out id t r) (update flag t.id true) n entering (t ∷ leaving)
  unfolding take_out
  take-IsLinked id t e =
      let same : t.id ≡ id = h.indexed.ids id t e in
      record {
        indexed = take_out-IsIndexed id t r h.indexed e;
        below = λ i s g. h.below i s (lookup-remove_cases id i s r.by_id g).1;
        unclosed = λ i s g.
            let (other, old) = lookup-remove_cases id i s r.by_id g in
            ground (arith, h.unclosed i s old, same);
        entered = λ i s g. h.entered i s (lookup-remove_cases id i s r.by_id g).1;
        entering_below = h.entering_below;
        entering_unclosed = λ i g. ground (arith, h.entering_unclosed i g, h.entered id t e, same);
        left = (
          record {
            unregistered = rw same (lookup-remove_self id r.by_id);
            not_entering = rw same (h.entered id t e);
            created = omega (arith, same, h.below id t e);
          },
          All-map {P = HasLeft r entering n} leaving
              (λ u g. record {
                unregistered = ground (arith, lookup-remove id u.id r.by_id, g.unregistered);
                not_entering = g.not_entering;
                created = g.created;
              })
              h.left,
        );
      }

  pub mark-IsLinked :
      (front back : List Session) (t : Session)
      → leaving ≡ front ++ t ∷ back
      → IsLinked r (update flag t.id true) n entering leaving
  mark-IsLinked front back t e =
      let gone = (All-remove _ front back t (subst (All (HasLeft r entering n)) e h.left)).0 in
      record {
        indexed = h.indexed;
        below = h.below;
        unclosed = λ i s g. ground (arith, h.unclosed i s g, gone.unregistered);
        entered = h.entered;
        entering_below = h.entering_below;
        entering_unclosed = λ i g. ground (arith, h.entering_unclosed i g, gone.not_entering);
        left = h.left;
      }

  pub finish-IsLinked :
      (front back : List Session) (t : Session)
      → leaving ≡ front ++ t ∷ back
      → IsLinked r flag n entering (front ++ back)
  finish-IsLinked front back t e = record {
    indexed = h.indexed;
    below = h.below;
    unclosed = h.unclosed;
    entered = h.entered;
    entering_below = h.entering_below;
    entering_unclosed = h.entering_unclosed;
    left = (All-remove _ front back t (subst (All (HasLeft r entering n)) e h.left)).1;
  }

  pub drain-IsLinked : IsLinked Registry.new_registry flag n entering (Registry.all r ++ leaving)
  drain-IsLinked = record {
    indexed = new_registry-IsIndexed;
    below = λ i s e. absurd (nothing i s e);
    unclosed = λ i s e. absurd (nothing i s e);
    entered = λ i s e. absurd (nothing i s e);
    entering_below = h.entering_below;
    entering_unclosed = h.entering_unclosed;
    left =
        All-append _ (Registry.all r) leaving
          (unfold Registry.all in
            All-values _ r.by_id h.indexed.distinct (λ i s e. record {
              unregistered = unfold lookup in refl;
              not_entering = rw (h.indexed.ids i s e) (h.entered i s e);
              created = omega (arith, h.indexed.ids i s e, h.below i s e);
            }))
          (All-map {P = HasLeft r entering n} leaving
            (λ t g. record {
              unregistered = unfold lookup in refl;
              not_entering = g.not_entering;
              created = g.created;
            })
            h.left);
  }
