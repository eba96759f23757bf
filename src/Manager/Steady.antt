-- ===== src/Manager/Steady.antt =====
-- The invariant of the session manager; every kind of step keeps it.
pub mod Opening
pub mod Closing
use pnos_sdk.Base.{
  ℕ, suc, ◌+◌, ◌^◌, ◌≤◌, ◌<◌, ◌≡◌, sym, ap, ◌∙◌, true, false, List, ◌∷◌, ◌++◌, Option, none, some,
  some_eq, nat_eq, Option-cases, inl, inr, length, length-append, arith,
}
use pnos_sdk.Base.Dict.{lookup}
use mathlib.Core.Path.{fun_ext, subst}
use pnos_sdk.Stats.{
  add64, add_established, add_active, add_closed, sub_active, record_duplicate_discarded,
}
use pnos_sdk.Registry.{Session, Direction, SessionRegistry, get_by_peer, put, take_out, len}
use pnos_sdk.Registry
use pnos_sdk.NodeId.{NodeId, node_eq}
use pnos_sdk.Address.{SocketAddr}
use pnos_sdk.Registry.Removal.{length-values}
use pnos_sdk.Registry.Lookup.{get_by_peer-none, len-put, len-take_out}
use pnos_sdk.Manager.{
  Manager, SessionVars, DisconnectReason, connected, disconnected, fresh_vars, new_session,
  take_down, mark_closed, close_transport, discard, send_event, start_shutdown, update,
}
use pnos_sdk.Manager.Effects.{insert-none, take_down-some, take_down-none}
use pnos_sdk.Manager.Steps.{System, IsQuiet}
use pnos_sdk.Manager.Links.{
  IsLinked, entering_fresh, create-IsLinked, give_up-IsLinked, put-IsLinked, take-IsLinked,
  mark-IsLinked, finish-IsLinked, drain-IsLinked,
}

-- The sessions established, and those still to be counted so, are the closed ones, those whose closing
-- is still to be counted, and the registered ones. The sessions that are registered or still counted as
-- active on their way out are at most those counted as active or still to be counted so.
pub record IsCounted
    (sessions uncounted raising leaving lowering established closed active next_id : ℕ)
    : Type 0 where
  pub accounts : established + uncounted ≡ closed + (leaving + sessions)
  pub covered : sessions + (leaving + lowering) ≤ active + (uncounted + raising)
  pub active_small : active + raising ≤ established
  pub counter_small : established + uncounted < 2 ^ 64
  pub ids_left : next_id < 2 ^ 64

abbrev pub IsSteady : System → Type 0
IsSteady x =
    let m = x.manager in
    IsLinked m.registry (λ i. (m.vars i).closed) m.next_id x.entering x.leaving
    × IsCounted (len m.registry) (length x.uncounted) (length x.raising) (length x.leaving)
        (length x.lowering) m.stats.established m.stats.closed m.stats.active m.next_id

-- One session less in a list of them.
pub length-split :
    (l front back : List Session) (t : Session)
    → l ≡ front ++ t ∷ back
    → length l ≡ suc (length (front ++ back))
length-split l front back t e =
    ap length e ∙ ground (arith, length-append front (t ∷ back), length-append front back)

-- The closed flags after a write to one session.
pub flags_update :
    (f : ℕ → SessionVars) (k : ℕ) (v : SessionVars)
    → update (λ i. (f i).closed) k v.closed ≡ (λ i. (update f k v i).closed)
flags_update f k v = fun_ext λ i. ground arith

pub flags_mark :
    (s : Session) (m : Manager)
    → update (λ i. (m.vars i).closed) s.id true ≡ (λ i. ((mark_closed s.id m).vars i).closed)
unfolding mark_closed
flags_mark s m = fun_ext λ i. ground arith

pub flags_discard :
    (s t : Session) (m : Manager)
    → update (λ i. (m.vars i).closed) s.id true ≡ (λ i. ((discard s t m).vars i).closed)
unfolding discard close_transport mark_closed
flags_discard s t m = fun_ext λ i. ground arith

pub quiet-IsSteady :
    (x : System) (m' : Manager)
    → IsQuiet x.manager m'
    → IsSteady x
    → IsSteady (record x { manager = m' })
quiet-IsSteady x m' q h =
    rw
      (
        q.same_registry,
        q.same_next_id,
        fun_ext q.same_flags,
        q.same_established,
        q.same_closed,
        q.same_active,
      )
      h
