-- ===== src/Registry/Lookup.antt =====
-- What the lookups of the registry answer, before and after each operation. The abstract view of a
-- registry is the map from peers to their sessions.
use pnos_sdk.Base.{
  ℕ, ◌+◌, ◌≡◌, ◌≢◌, ◌↔◌, refl, sym, ap, ◌∙◌, false, false≢true, Option, none, some, ◌==◌, ◌=?◌,
  =?_eq, =?_refl, if◌then◌else◌, nat_eq, arith, Bool-cases, Option-cases, some_eq, inl, inr,
}
use pnos_sdk.Base.Dict
use pnos_sdk.Base.Dict.{
  lookup, is_some, lookup-insert_cases, lookup-insert_ne, lookup-insert_self, lookup-remove_cases,
  lookup-remove_ne, length-insert_new, length-remove,
}
use pnos_sdk.NodeId.{NodeId, node_eq}
use pnos_sdk.Address.{SocketAddr, addr_eq}
use pnos_sdk.Registry.{
  Session, SessionRegistry, and_then, get_by_peer, session_of_addr, contains_peer,
  is_addr_connected, len, put, insert, take_out, remove,
}
use pnos_sdk.Registry.Invariant.{IsIndexed, IsFresh, put-IsIndexed}
use pnos_sdk.Registry.Removal.{take_out-IsIndexed}

-- The session is registered, for this peer.
abbrev pub IsSessionOf : NodeId → Session → SessionRegistry → Type 0
IsSessionOf p t r = (lookup t.id r.by_id ≡ some t) × (t.peer_id ≡ p)

get_by_peer-found :
    (p : NodeId) (t : Session) (r : SessionRegistry)
    → IsIndexed r
    → get_by_peer p r ≡ some t
    → IsSessionOf p t r
unfolding get_by_peer
get_by_peer-found p t r h e = elim (Option-cases (lookup p r.by_peer)) [
  | inl unknown ↦ absurd (ground arith)
  | inr (i, known) ↦
      let q = h.peer_sound p i known in
      let found : lookup i r.by_id ≡ some t = rw known at e in
      (
        ap (λ j. lookup j r.by_id) (h.ids i t found) ∙ found,
        ap (λ u. u.peer_id) (some_eq (sym found ∙ q.found)) ∙ q.fits,
      )
]

get_by_peer-registered :
    (p : NodeId) (t : Session) (r : SessionRegistry)
    → IsIndexed r
    → IsSessionOf p t r
    → get_by_peer p r ≡ some t
unfolding get_by_peer
get_by_peer-registered p t r h (found, eq) = rw (← eq) (rw (h.peer_complete t.id t found) found)

-- A peer's session is the registered session of that peer, and every registered session is found so:
-- there is at most one for a peer.
pub get_by_peer_iff :
    (p : NodeId) (t : Session) (r : SessionRegistry)
    → IsIndexed r
    → (get_by_peer p r ≡ some t) ↔ IsSessionOf p t r
get_by_peer_iff p t r h = (get_by_peer-found p t r h, get_by_peer-registered p t r h)

-- Two answers that are equal wherever there is one.
Option_ext {ℓ} :
    {A : Type ℓ} (o o' : Option A)
    → ((a : A) → o ≡ some a → o' ≡ some a)
    → ((a : A) → o' ≡ some a → o ≡ some a)
    → o ≡ o'
Option_ext none none f g = refl
Option_ext none (some b) f g = g b refl
Option_ext (some a) o' f g = sym (f a refl)

-- A peer with no session has no entry.
pub get_by_peer-none :
    (p : NodeId) (r : SessionRegistry)
    → IsIndexed r
    → get_by_peer p r ≡ none
    → lookup p r.by_peer ≡ none
unfolding get_by_peer
get_by_peer-none p r h e = elim (Option-cases (lookup p r.by_peer)) [
  | inl unknown ↦ unknown
  | inr (i, known) ↦ absurd (ground (arith, (h.peer_sound p i known).found))
]

pub insert-IsIndexed :
    (s : Session) (r : SessionRegistry) → IsIndexed r → IsFresh s.id r → IsIndexed (insert s r).0
unfolding insert
insert-IsIndexed s r h fresh = elim (Option-cases (get_by_peer s.peer_id r)) [
  | inl unknown ↦
      rw (unknown, insert) (put-IsIndexed s r h fresh (get_by_peer-none s.peer_id r h unknown))
  | inr (t, known) ↦ rw (known, insert) h
]

-- The map from peers to sessions after `insert`: the new session is refused, with the old one as the
-- answer, if its peer has one, and nothing changes; otherwise it is that peer's session.
abbrev pub insert_view : Session → Option Session → NodeId → Option Session → Option Session
insert_view s (some existing) p now = now
insert_view s none p now = if s.peer_id =? p then some s else now

pub get_by_peer-put :
    (s : Session) (r : SessionRegistry) (p : NodeId)
    → IsIndexed r
    → IsFresh s.id r
    → lookup s.peer_id r.by_peer ≡ none
    → get_by_peer p (put s r) ≡ (if s.peer_id =? p then some s else get_by_peer p r)
get_by_peer-put s r p h fresh unknown = elim (Bool-cases (s.peer_id =? p)) [
  | inl same ↦ rw same (
      get_by_peer-registered p s (put s r) (put-IsIndexed s r h fresh unknown)
        (unfold put in lookup-insert_self s.id s r.by_id, =?_eq s.peer_id p same))
  | inr other ↦ rw other (Option_ext _ _ (back (other_peer other)) (forth (other_peer other)))
]
  where
    other_peer : (s.peer_id =? p) ≡ false → s.peer_id ≢ p
    other_peer o q = false≢true (sym o ∙ ap (λ x. s.peer_id =? x) (sym q) ∙ =?_refl s.peer_id)

    back :
        s.peer_id ≢ p → (t : Session) → get_by_peer p (put s r) ≡ some t → get_by_peer p r ≡ some t
    back o t e =
        let (found, eq) = get_by_peer-found p t (put s r) (put-IsIndexed s r h fresh unknown) e in
        elim (lookup-insert_cases s.id t.id s t r.by_id (unfold put in found)) [
          | inl (same, new) ↦ absurd (o (ap (λ u. u.peer_id) new ∙ eq))
          | inr (differ, old) ↦ get_by_peer-registered p t r h (old, eq)
        ]

    forth :
        s.peer_id ≢ p → (t : Session) → get_by_peer p r ≡ some t → get_by_peer p (put s r) ≡ some t
    forth o t e =
        let (found, eq) = get_by_peer-found p t r h e in
        get_by_peer-registered p t (put s r) (put-IsIndexed s r h fresh unknown) (
          unfold put in
              lookup-insert_ne s.id t.id s r.by_id
                (λ q. cc (fresh, found, ap (λ j. lookup j r.by_id) q))
              ∙ found,
          eq,
        )

-- A session of a fresh identifier is refused, with the session of its peer as the answer, exactly if
-- its peer has one, and then no peer's session changes; otherwise it becomes that peer's session, and
-- the other peers keep theirs.
pub get_by_peer-insert :
    (s : Session) (r : SessionRegistry) (p : NodeId)
    → IsIndexed r
    → IsFresh s.id r
    → (get_by_peer p (insert s r).0 ≡ insert_view s (get_by_peer s.peer_id r) p (get_by_peer p r))
      × ((insert s r).1 ≡ get_by_peer s.peer_id r)
unfolding insert
get_by_peer-insert s r p h fresh = elim (Option-cases (get_by_peer s.peer_id r)) [
  | inl unknown ↦
      rw (unknown, insert)
        (get_by_peer-put s r p h fresh (get_by_peer-none s.peer_id r h unknown), refl)
  | inr (t, known) ↦ rw (known, insert) (refl, refl)
]

pub remove-IsIndexed : (id : ℕ) (r : SessionRegistry) → IsIndexed r → IsIndexed (remove id r).0
unfolding remove
remove-IsIndexed id r h = elim (Option-cases (lookup id r.by_id)) [
  | inl absent ↦ rw (absent, remove) h
  | inr (s, registered) ↦ rw (registered, remove) (take_out-IsIndexed id s r h registered)
]

lookup-remove :
    (id i : ℕ) (r : SessionRegistry)
    → lookup i (remove id r).0.by_id ≡ lookup i (Dict.remove id r.by_id)
unfolding remove
lookup-remove id i r = elim (Option-cases (lookup id r.by_id)) [
  | inl absent ↦ rw (absent, remove) (ap (lookup i) (sym (Dict.remove_absent id r.by_id absent)))
  | inr (s, registered) ↦ rw (registered, remove) refl
]

-- A peer's session, unless it is the one of this identifier.
abbrev pub unless_id : ℕ → Option Session → Option Session
unless_id id none = none
unless_id id (some t) = if t.id == id then none else some t

unless_id-some :
    (id : ℕ) (o : Option Session) (t : Session) → o ≡ some t → t.id ≢ id → unless_id id o ≡ some t
unless_id-some id o t e differ = ground arith

some-unless_id :
    (id : ℕ) (o : Option Session) (t : Session)
    → unless_id id o ≡ some t
    → (o ≡ some t) × (t.id ≢ id)
some-unless_id id o t e = ground arith

-- After a removal every peer keeps its session, but for the one that was removed: the end of an old
-- connection does not take away the session of a new one.
pub get_by_peer-remove :
    (id : ℕ) (r : SessionRegistry) (p : NodeId)
    → IsIndexed r
    → get_by_peer p (remove id r).0 ≡ unless_id id (get_by_peer p r)
get_by_peer-remove id r p h = Option_ext _ _ left kept
  where
    left :
        (t : Session)
        → get_by_peer p (remove id r).0 ≡ some t
        → unless_id id (get_by_peer p r) ≡ some t
    left t e =
        let (found, eq) = get_by_peer-found p t _ (remove-IsIndexed id r h) e in
        let (differ, old) =
          lookup-remove_cases id t.id t r.by_id (sym (lookup-remove id t.id r) ∙ found) in
        unless_id-some id _ t (get_by_peer-registered p t r h (old, eq)) (λ q. differ (sym q))

    kept :
        (t : Session)
        → unless_id id (get_by_peer p r) ≡ some t
        → get_by_peer p (remove id r).0 ≡ some t
    kept t e =
        let (here, differ) = some-unless_id id _ t e in
        let (found, eq) = get_by_peer-found p t r h here in
        get_by_peer-registered p t _ (remove-IsIndexed id r h) (
          lookup-remove id t.id r ∙ lookup-remove_ne id t.id r.by_id (λ q. differ (sym q)) ∙ found,
          eq,
        )

-- `contains_peer` and `is_addr_connected`, which look at one table only, answer as the full lookups.
pub contains_peer_iff :
    (r : SessionRegistry) (p : NodeId) (a : SocketAddr)
    → IsIndexed r
    → (contains_peer p r ≡ is_some (get_by_peer p r))
      × (is_addr_connected a r ≡ is_some (session_of_addr a r))
unfolding contains_peer is_addr_connected get_by_peer session_of_addr
contains_peer_iff r p a h = (peer (lookup p r.by_peer) refl, addr (lookup a r.by_addr) refl)
  where
    peer :
        (o : Option ℕ)
        → lookup p r.by_peer ≡ o
        → is_some o ≡ is_some (and_then o λ id. lookup id r.by_id)
    peer none e = refl
    peer (some i) e = rw (h.peer_sound p i e).found

    addr :
        (o : Option ℕ)
        → lookup a r.by_addr ≡ o
        → is_some o ≡ is_some (and_then o λ id. lookup id r.by_id)
    addr none e = refl
    addr (some i) e = rw (h.addr_sound a i e).found

-- The number of sessions grows by one with each session that is taken in.
pub len-put : (s : Session) (r : SessionRegistry) → IsFresh s.id r → len (put s r) ≡ len r + 1
unfolding len put
len-put s r fresh = length-insert_new s.id s r.by_id fresh

pub len-take_out :
    (id : ℕ) (s : Session) (r : SessionRegistry)
    → IsIndexed r
    → lookup id r.by_id ≡ some s
    → len (take_out id s r) + 1 ≡ len r
unfolding len take_out
len-take_out id s r h registered = length-remove id {v = s} r.by_id h.distinct registered
