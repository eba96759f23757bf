-- ===== src/Manager/Effects.antt =====
-- What the parts of `activate`, `disconnect` and `shutdown` do to the registry and the counters.
use pnos_sdk.Base.{ℕ, ◌≡◌, ap, none, some, =?_refl, nat_eq}
use pnos_sdk.Base.Dict.{lookup}
use pnos_sdk.Stats.{record_established}
use pnos_sdk.Registry.{Session, get_by_id, get_by_peer, put, take_out, same_session}
use pnos_sdk.Registry
use pnos_sdk.Manager.{
  Manager, connected, send_event, mark_closed, take_down, taken_down, register, registered, discard,
}

pub insert-none :
    (s : Session) (r : Registry.SessionRegistry)
    → get_by_peer s.peer_id r ≡ none
    → Registry.insert s r ≡ (put s r, none)
unfolding Registry.insert
insert-none s r e = rw (e, Registry.insert)

pub insert-some :
    (s t : Session) (r : Registry.SessionRegistry)
    → get_by_peer s.peer_id r ≡ some t
    → Registry.insert s r ≡ (r, some t)
unfolding Registry.insert
insert-some s t r e = rw (e, Registry.insert)

pub register-none :
    (s : Session) (m : Manager)
    → get_by_peer s.peer_id m.registry ≡ none
    → register s m ≡ (
      s.id,
      send_event
          (connected s.id s.peer_id s.addr s.direction)
          (record m { registry = put s m.registry; stats = record_established m.stats }),
    )
unfolding register
register-none s m e = ap (registered s m) (insert-none s m.registry e)

pub register-some :
    (s t : Session) (m : Manager)
    → get_by_peer s.peer_id m.registry ≡ some t
    → register s m ≡ (t.id, discard s t m)
unfolding register
register-some s t m e = ap (registered s m) (insert-some s t m.registry e)

remove_if-some :
    (id : ℕ) (t : Session) (r : Registry.SessionRegistry)
    → lookup id r.by_id ≡ some t
    → Registry.remove_if id t r ≡ (take_out id t r, some t)
unfolding Registry.remove_if Registry.remove
remove_if-some id t r e = rw (e, Registry.remove_if) (rw (=?_refl t.id) (rw (e, Registry.remove)))

pub take_down-some :
    (id : ℕ) (t : Session) (m : Manager)
    → lookup id m.registry.by_id ≡ some t
    → take_down id m ≡ (some t, mark_closed t.id (record m { registry = take_out id t m.registry }))
unfolding take_down get_by_id
take_down-some id t m e = rw (e, take_down) (ap (taken_down m) (remove_if-some id t m.registry e))

pub take_down-none :
    (id : ℕ) (m : Manager) → lookup id m.registry.by_id ≡ none → take_down id m ≡ (none, m)
unfolding take_down get_by_id
take_down-none id m e = rw (e, take_down)
