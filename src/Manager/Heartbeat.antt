-- ===== src/Manager/Heartbeat.antt =====
-- crates/pnos-net/src/session/heartbeat.rs and the sends of session/mod.rs. The outcome of a write
-- to the stream, with the counters of the transport behind it, is an argument.
pub mod Keepalive
pub mod Upkeep
mod Runs
use pnos_sdk.Base.{
  ℕ, suc, ◌-◌, ◌^◌, Bool, true, false, ◌&&◌, ◌||◌, not, List, [], ◌∷◌, Option, none, some, ltb,
  ◌==◌, if◌then◌else◌, nat_eq,
}
use pnos_sdk.Base.Dict.{lookup}
use pnos_sdk.Base.Dict
use pnos_sdk.NodeId.{NodeId}
use pnos_sdk.Frame.{Frame}
use pnos_sdk.Registry
use pnos_sdk.Registry.{Session, get_by_id, get_by_peer}
use pnos_sdk.Manager.{
  Manager, IoCause, io, probe_timeout, idle_timeout, frame_received, touch_send, touch_recv,
  set_rtt_ms, idle_ms, since_send_ms, disconnect, send_event,
}
use pnos_sdk.Manager.Cooldown.{prune_cooldown}

unfoldable pub mark_probe : ℕ → ℕ → Manager → Manager
mark_probe id now m = record m { probe_sent_ms = Dict.insert id now m.probe_sent_ms }

-- The record is taken out.
unfoldable pub take_probe : ℕ → Manager → Option ℕ × Manager
take_probe id m =
    (lookup id m.probe_sent_ms, record m { probe_sent_ms = Dict.remove id m.probe_sent_ms })

unfoldable pub forget : ℕ → Manager → Manager
forget id m = record m { probe_sent_ms = Dict.remove id m.probe_sent_ms }

abbrev is_kind : ℕ → Option ℕ → Bool
is_kind kind none = false
is_kind kind (some k) = kind == k

abbrev max_rtt : ℕ
max_rtt = 2 ^ 32 - 1

-- The round trip is measured if a probe waits for its answer.
abbrev measured : ℕ → ℕ → Option ℕ × Manager → Manager
measured id now (none, m) = m
measured id now (some sent, m) =
    set_rtt_ms id (if ltb max_rtt (now - sent) then max_rtt else now - sent) m

-- The kind of the answer that a probe gets, unless it would be a probe of the same kind.
unfoldable pub answer_kind : Frame → Manager → Option ℕ
answer_kind frame m = elim m.cfg.heartbeat_reply_kind [
  | none ↦ none
  | some reply ↦
      if is_kind frame.kind m.cfg.heartbeat_kind && not (reply == frame.kind)
      then some reply
      else none
]

-- The state behind the answer, if one is sent; `sent` says whether its write succeeds.
abbrev answered : ℕ → ℕ → Bool → Option ℕ → Manager → Manager
answered id now sent none m = m
answered id now sent (some reply) m = if sent then touch_send id now m else m

-- Whether the frame was consumed.
unfoldable pub handle_keepalive : Session → Frame → Bool → ℕ → Manager → Bool × Manager
handle_keepalive s frame sent now m =
    if is_kind frame.kind m.cfg.heartbeat_kind || is_kind frame.kind m.cfg.heartbeat_reply_kind
    then (let m' = measured s.id now (take_probe s.id m) in
        (true, answered s.id now sent (answer_kind frame m) m'))
    else (false, m)

-- The receive loop, for a frame.
unfoldable pub frame_in : Session → Frame → Bool → ℕ → Manager → Manager
frame_in s frame sent now m =
    let (consumed, m') = handle_keepalive s frame sent now (touch_recv s.id now m) in
    if consumed then m' else send_event (frame_received s.id s.peer_id frame) m'

-- How the write of a probe ends.
pub data Probe : Type 0 where
  probe_sent : Probe
  probe_failed : IoCause → Probe
  probe_elapsed : Probe

unfoldable pub after_probe : Session → Probe → ℕ → Manager → Manager
after_probe s probe_sent now m = mark_probe s.id now (touch_send s.id now m)
after_probe s (probe_failed cause) now m = disconnect s.id (io cause) m
after_probe s probe_elapsed now m = disconnect s.id (io probe_timeout) m

-- The task of `tick` for a session: it is given up if nothing came for too long, and probed if
-- nothing was sent for long enough. `outcome` says how the write ends, and when.
unfoldable pub tick_session : Session → Probe × ℕ → ℕ → Manager → Manager
tick_session s outcome now m =
    if ltb m.cfg.idle_timeout_ms (idle_ms s.id now m)
    then disconnect s.id idle_timeout m
    else elim m.cfg.heartbeat_kind [
      | none ↦ m
      | some kind ↦
          if ltb (since_send_ms s.id now m) m.cfg.heartbeat_interval
          then m
          else after_probe s outcome.0 outcome.1 m
    ]

-- `tick` up to the tasks that it starts: the sessions to look after.
unfoldable pub tick : ℕ → Manager → List Session × Manager
tick now m = if m.shutting_down then ([], m) else (Registry.all m.registry, prune_cooldown now m)

-- How a send over a session ends.
pub data SendOutcome : Type 0 where
  delivered not_encoded : SendOutcome
  broken : IoCause → SendOutcome

pub data SendResult : Type 0 where
  send_done no_session refused failed : SendResult

abbrev pub after_send : Session → SendOutcome → ℕ → Manager → SendResult × Manager
after_send s delivered now m = (send_done, touch_send s.id now m)
after_send s not_encoded now m = (refused, m)
after_send s (broken cause) now m = (failed, disconnect s.id (io cause) m)

abbrev send_over : Option Session → SendOutcome → ℕ → Manager → SendResult × Manager
send_over none outcome now m = (no_session, m)
send_over (some s) outcome now m = after_send s outcome now m

unfoldable pub send : ℕ → SendOutcome → ℕ → Manager → SendResult × Manager
send id outcome now m = send_over (get_by_id id m.registry) outcome now m

unfoldable pub send_to : NodeId → SendOutcome → ℕ → Manager → SendResult × Manager
send_to peer outcome now m = send_over (get_by_peer peer m.registry) outcome now m

abbrev is_excluded : Option ℕ → ℕ → Bool
is_excluded none id = false
is_excluded (some e) id = id == e

-- The loop of `broadcast` and of `broadcast_encoded`; `written` says whose write succeeds. The result
-- counts those.
abbrev pub broadcast_to : (ℕ → Bool) → Option ℕ → ℕ → List Session → Manager → ℕ × Manager
broadcast_to written exclude now [] m = (0, m)
broadcast_to written exclude now (s ∷ more) m =
    let reached = not (is_excluded exclude s.id) && written s.id in
    let (count, m') =
      broadcast_to written exclude now more (if reached then touch_send s.id now m else m) in
    (if reached then suc count else count, m')

unfoldable pub broadcast : (ℕ → Bool) → Option ℕ → ℕ → Manager → ℕ × Manager
broadcast written exclude now m = broadcast_to written exclude now (Registry.all m.registry) m
