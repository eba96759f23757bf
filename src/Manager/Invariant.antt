-- ===== src/Manager/Invariant.antt =====
-- The invariant of the session manager under every interleaving of its tasks.
use pnos_sdk.Base.{◌+◌, ◌≤◌, ◌<◌, ◌≡◌, refl, false, some, nat_eq, length, arith}
use pnos_sdk.Base.Dict.{lookup}
use pnos_sdk.Stats.{new_stats}
use pnos_sdk.Registry.{Session, get_by_peer, len}
use pnos_sdk.Registry.Invariant.{IsIndexed, new_registry-IsIndexed}
use pnos_sdk.NodeId.{NodeId, node_eq}
use pnos_sdk.Registry.Lookup.{get_by_peer_iff}
use pnos_sdk.Manager.{SessionConfig, bind}
use pnos_sdk.Manager.Steps.{
  quiet, create, give_up, enter, count, raise, take, close, lower, drain, mark, System, Step, Reach,
  here, next, start,
}
use pnos_sdk.Manager.Links.{nothing}
use pnos_sdk.Manager.Steady.{IsSteady, quiet-IsSteady}
use pnos_sdk.Manager.Steady.Opening.{
  discard-IsSteady, create-IsSteady, enter-IsSteady, count-IsSteady, raise-IsSteady,
}
use pnos_sdk.Manager.Steady.Closing.{
  take-IsSteady, close-IsSteady, lower-IsSteady, drain-IsSteady, mark-IsSteady,
}

Step-IsSteady : {x y : System} → Step x y → IsSteady x → IsSteady y
Step-IsSteady (quiet x m' q) h = quiet-IsSteady x m' q h
Step-IsSteady (create x peer addr d meta now small) h =
    create-IsSteady x peer addr d meta now small h
Step-IsSteady (give_up x s existing e) h = discard-IsSteady x s existing e h
Step-IsSteady (enter x s e unknown small) h = enter-IsSteady x s e unknown small h
Step-IsSteady (count x front back s e) h = count-IsSteady x front back s e h
Step-IsSteady (raise x front back s e) h = raise-IsSteady x front back s e h
Step-IsSteady (take x id t e) h = take-IsSteady x id t e h
Step-IsSteady (close x front back t e) h = close-IsSteady x front back t e h
Step-IsSteady (lower x front back t reason e) h = lower-IsSteady x front back t reason e h
Step-IsSteady (drain x) h = drain-IsSteady x h
Step-IsSteady (mark x front back t e) h = mark-IsSteady x front back t e h

start-IsSteady : (local_id : NodeId) (cfg : SessionConfig) → IsSteady (start local_id cfg)
unfolding bind new_stats len lookup
start-IsSteady local_id cfg = (
  record {
    indexed = new_registry-IsIndexed;
    below = λ i s e. absurd (nothing i s e);
    unclosed = λ i s e. refl;
    entered = λ i s e. refl;
    entering_below = λ i e. cc;
    entering_unclosed = λ i e. refl;
    left = tt;
  },
  record {
    accounts = refl;
    covered = omega arith;
    active_small = omega arith;
    counter_small = omega arith;
    ids_left = omega arith;
  },
)

pub Reach-IsSteady :
    (local_id : NodeId) (cfg : SessionConfig) {x : System}
    → Reach (start local_id cfg) x
    → IsSteady x
Reach-IsSteady local_id cfg here = start-IsSteady local_id cfg
Reach-IsSteady local_id cfg (next r s) = Step-IsSteady s (Reach-IsSteady local_id cfg r)

-- However the tasks of a manager interleave, also between the two updates of a pair of counters, with
-- fewer than 2^64 sessions: the sessions counted as established and those registered but not yet
-- counted so are together the ones counted as closed, those out of the registry that are not yet
-- counted so, and the registered ones. The counter of active sessions, with those still to be added to
-- it, is never less than the registered sessions and those still to be subtracted from it. The tables of
-- the registry agree.
pub Reach-accounts :
    (local_id : NodeId) (cfg : SessionConfig) (x : System)
    → Reach (start local_id cfg) x
    → (x.manager.stats.established + length x.uncounted
        ≡ x.manager.stats.closed + (length x.leaving + len x.manager.registry))
      × (len x.manager.registry + (length x.leaving + length x.lowering)
          ≤ x.manager.stats.active + (length x.uncounted + length x.raising))
      × IsIndexed x.manager.registry
Reach-accounts local_id cfg x r =
    let (h, c) = Reach-IsSteady local_id cfg r in (c.accounts, c.covered, h.indexed)

-- However the tasks interleave, the session that the registry has for a peer is a session of that
-- peer, it has an identifier that was given out, and it is not marked closed: `disconnect` and
-- `shutdown` mark no session before it has left the registry.
pub Reach-get_by_peer :
    (local_id : NodeId) (cfg : SessionConfig) (x : System) (p : NodeId) (t : Session)
    → Reach (start local_id cfg) x
    → get_by_peer p x.manager.registry ≡ some t
    → (t.peer_id ≡ p) × (t.id < x.manager.next_id) × ((x.manager.vars t.id).closed ≡ false)
Reach-get_by_peer local_id cfg x p t r e =
    let (h, c) = Reach-IsSteady local_id cfg r in
    let (found, eq) = (get_by_peer_iff p t x.manager.registry h.indexed).0 e in
    (eq, h.below t.id t found, h.unclosed t.id t found)
