-- ===== src/Manager/Steady/Opening.antt =====
-- The steps by which a session comes in keep the invariant of the session manager.
use pnos_sdk.Base.{
  ℕ, ◌+◌, ◌^◌, ◌<◌, ◌≡◌, true, false, List, ◌∷◌, ◌++◌, Option, none, nat_eq, length, arith,
}
use mathlib.Core.Path.{subst}
use pnos_sdk.Stats.{add64, add_established, add_active, record_duplicate_discarded}
use pnos_sdk.Registry.{Session, Direction, SessionRegistry, get_by_peer, put, take_out, len}
use pnos_sdk.Registry
use pnos_sdk.NodeId.{NodeId, node_eq}
use pnos_sdk.Address.{SocketAddr}
use pnos_sdk.Registry.Lookup.{get_by_peer-none, len-put}
use pnos_sdk.Manager.{
  connected, fresh_vars, new_session, mark_closed, close_transport, discard, send_event, update,
}
use pnos_sdk.Manager.Effects.{insert-none}
use pnos_sdk.Manager.Steps.{System}
use pnos_sdk.Manager.Links.{
  IsLinked, entering_fresh, create-IsLinked, give_up-IsLinked, put-IsLinked,
}
use pnos_sdk.Manager.Steady.{IsSteady, length-split, flags_update, flags_discard}

pub discard-IsSteady :
    (x : System) (s t : Session)
    → x.entering s.id ≡ true
    → IsSteady x
    → IsSteady
        (record x { manager = discard s t x.manager; entering = update x.entering s.id false })
unfolding discard close_transport mark_closed record_duplicate_discarded
discard-IsSteady x s t e (h, c) = (
  subst
      (λ f.
        IsLinked x.manager.registry f x.manager.next_id (update x.entering s.id false) x.leaving)
      (flags_discard s t x.manager) (give_up-IsLinked h s.id e),
  c,
)

pub create-IsSteady :
    (x : System) (peer : NodeId) (addr : SocketAddr) (d : Direction) (meta : Option (List ℕ))
    (now : ℕ)
    → x.manager.next_id + 1 < 2 ^ 64
    → IsSteady x
    → IsSteady (record x {
      manager = (new_session peer addr d meta now x.manager).1;
      entering = update x.entering x.manager.next_id true;
    })
unfolding new_session
create-IsSteady x peer addr d meta now small (h, c) =
    let exact : add64 x.manager.next_id 1 ≡ x.manager.next_id + 1 = omega arith in
    rw exact (
      subst
          (λ f.
            IsLinked x.manager.registry f (x.manager.next_id + 1)
              (update x.entering x.manager.next_id true) x.leaving)
          (flags_update x.manager.vars x.manager.next_id (fresh_vars now)) (create-IsLinked h),
      record {
        accounts = c.accounts;
        covered = c.covered;
        active_small = c.active_small;
        counter_small = c.counter_small;
        ids_left = small;
      },
    )

pub enter-IsSteady :
    (x : System) (s : Session)
    → x.entering s.id ≡ true
    → get_by_peer s.peer_id x.manager.registry ≡ none
    → x.manager.stats.established + length x.uncounted + 1 < 2 ^ 64
    → IsSteady x
    → IsSteady (record x {
      manager = record x.manager { registry = (Registry.insert s x.manager.registry).0 };
      entering = update x.entering s.id false;
      uncounted = s ∷ x.uncounted;
    })
enter-IsSteady x s e unknown small (h, c) =
    let absent = get_by_peer-none s.peer_id x.manager.registry h.indexed unknown in
    let more = len-put s x.manager.registry (entering_fresh h s.id e) in
    rw (insert-none s x.manager.registry unknown) (
      put-IsLinked h s e absent,
      record {
        accounts = omega (arith, c.accounts, more);
        covered = omega (arith, c.covered, more);
        active_small = c.active_small;
        counter_small = omega arith;
        ids_left = c.ids_left;
      },
    )

pub count-IsSteady :
    (x : System) (front back : List Session) (s : Session)
    → x.uncounted ≡ front ++ s ∷ back
    → IsSteady x
    → IsSteady (record x {
      manager = record x.manager { stats = add_established x.manager.stats };
      uncounted = front ++ back;
      raising = s ∷ x.raising;
    })
unfolding add_established
count-IsSteady x front back s e (h, c) =
    let fewer = length-split x.uncounted front back s e in
    (
      h,
      record {
        accounts = omega (arith, c.accounts, fewer, c.counter_small);
        covered = omega (arith, c.covered, fewer);
        active_small = omega (arith, c.active_small, fewer, c.counter_small);
        counter_small = omega (arith, fewer, c.counter_small);
        ids_left = c.ids_left;
      },
    )

pub raise-IsSteady :
    (x : System) (front back : List Session) (s : Session)
    → x.raising ≡ front ++ s ∷ back
    → IsSteady x
    → IsSteady (record x {
      manager =
          send_event
            (connected s.id s.peer_id s.addr s.direction)
            (record x.manager { stats = add_active x.manager.stats });
      raising = front ++ back;
    })
unfolding add_active
raise-IsSteady x front back s e (h, c) =
    let fewer = length-split x.raising front back s e in
    (
      h,
      record {
        accounts = c.accounts;
        covered = omega (arith, c.covered, fewer, c.active_small, c.counter_small);
        active_small = omega (arith, c.active_small, fewer, c.counter_small);
        counter_small = c.counter_small;
        ids_left = c.ids_left;
      },
    )
