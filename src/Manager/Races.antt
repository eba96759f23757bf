-- ===== src/Manager/Races.antt =====
-- A shutdown between the registration of a session and its counting, session/mod.rs.
use pnos_sdk.Base.{◌≡◌, refl, true, false, [], ◌∷◌, none, nat_eq, arith}
use pnos_sdk.Base.Dict.{lookup}
use pnos_sdk.Base.Dict
use pnos_sdk.Stats.{new_stats, add_established, add_active, add_closed, sub_active}
use pnos_sdk.NodeId.{NodeId, node_eq}
use pnos_sdk.Address.{SocketAddr}
use pnos_sdk.Registry
use pnos_sdk.Registry.{Session, Direction, get_by_peer, len}
use pnos_sdk.Manager.{
  SessionConfig, connected, disconnected, shutdown, bind, new_session, start_shutdown,
  close_transport, mark_closed, send_event, update,
}
use pnos_sdk.Manager.Steps.{
  System, create, enter, count, raise, drain, mark, close, lower, Reach, here, next, start,
}

module _ (local_id peer : NodeId) (cfg : SessionConfig) (addr : SocketAddr) (d : Direction) where
  abbrev created : System
  created =
      let x = start local_id cfg in
      record x {
        manager = (new_session peer addr d none 0 x.manager).1;
        entering = update x.entering x.manager.next_id true;
      }

  abbrev pub newcomer : Session
  newcomer = (new_session peer addr d none 0 (bind local_id cfg)).0

  abbrev registered : System
  registered = record created {
    manager = record created.manager {
      registry = (Registry.insert newcomer created.manager.registry).0;
    };
    entering = update created.entering newcomer.id false;
    uncounted = newcomer ∷ [];
  }

  -- The shutdown takes the session out and closes it.
  abbrev drained : System
  drained = record registered {
    manager = (start_shutdown registered.manager).1;
    leaving = newcomer ∷ [];
  }

  abbrev marked : System
  marked = record drained { manager = mark_closed newcomer.id drained.manager }

  abbrev closed_once : System
  closed_once = record marked {
    manager =
        close_transport newcomer.id
          (record marked.manager { stats = add_closed marked.manager.stats });
    leaving = [];
    lowering = newcomer ∷ [];
  }

  abbrev lowered : System
  lowered = record closed_once {
    manager =
        send_event (disconnected newcomer.id peer shutdown)
          (record closed_once.manager { stats = sub_active closed_once.manager.stats });
    lowering = [];
  }

  -- Only now is the session counted.
  abbrev counted : System
  counted = record lowered {
    manager = record lowered.manager { stats = add_established lowered.manager.stats };
    uncounted = [];
    raising = newcomer ∷ [];
  }

  abbrev raised : System
  raised = record counted {
    manager =
        send_event (connected newcomer.id peer addr d)
          (record counted.manager { stats = add_active counted.manager.stats });
    raising = [];
  }

  drained-Reach : Reach (start local_id cfg) drained
  unfolding bind new_stats new_session start_shutdown Registry.insert Registry.put Registry.drain
      Registry.all get_by_peer lookup Dict.insert
  drained-Reach =
      next
        (next (next here (create (start local_id cfg) peer addr d none 0 (omega arith)))
          (enter created newcomer refl refl (omega arith)))
        (drain registered)

  raised-Reach : Reach (start local_id cfg) raised
  unfolding new_session bind
  raised-Reach =
      next
        (next
          (next
            (next (next drained-Reach (mark drained [] [] newcomer refl))
              (close marked [] [] newcomer refl))
            (lower closed_once [] [] newcomer shutdown refl))
          (count lowered [] [] newcomer refl))
        (raise counted [] [] newcomer refl)

-- Of any manager, some run ends with nothing left to do and no session in the registry, and yet one
-- session counts as active: one was established and it was closed, by a shutdown that ran between its
-- registration and its counting. Its end is then told before its beginning.
pub shutdown_race :
    (local_id peer : NodeId) (cfg : SessionConfig) (addr : SocketAddr) (d : Direction)
    → (x : System) × Reach (start local_id cfg) x
      × (x.uncounted ≡ [])
      × (x.raising ≡ [])
      × (x.leaving ≡ [])
      × (x.lowering ≡ [])
      × (len x.manager.registry ≡ 0)
      × (x.manager.stats.established ≡ 1)
      × (x.manager.stats.closed ≡ 1)
      × (x.manager.stats.active ≡ 1)
      × (x.manager.events
          ≡ disconnected (newcomer local_id peer cfg addr d).id peer shutdown
            ∷ connected (newcomer local_id peer cfg addr d).id peer addr d
            ∷ [])
unfolding bind new_stats new_session start_shutdown Registry.insert Registry.put Registry.drain
    Registry.all get_by_peer lookup Dict.insert close_transport mark_closed add_closed sub_active
    add_established add_active len
shutdown_race local_id peer cfg addr d = (
  raised local_id peer cfg addr d,
  raised-Reach local_id peer cfg addr d,
  refl,
  refl,
  refl,
  refl,
  refl,
  refl,
  refl,
  refl,
  refl,
)
