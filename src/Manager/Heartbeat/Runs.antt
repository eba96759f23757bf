-- ===== src/Manager/Heartbeat/Runs.antt =====
-- Runs of the heartbeat, and the theorems at concrete inputs.
use pnos_sdk.Base.{◌⊎◌, ◌==◌, ◌≡◌, refl, true, [], ◌∷◌, none, some, nat_eq}
use pnos_sdk.Base.Dict.{lookup}
use pnos_sdk.Base.Dict
use pnos_sdk.NodeId.{NodeId, node_eq}
use pnos_sdk.Address.{SocketAddr, v4}
use pnos_sdk.Frame.{Frame}
use pnos_sdk.Registry
use pnos_sdk.Registry.{Session, outbound, get_by_peer}
use pnos_sdk.Manager.{
  Manager, SessionConfig, default_config, bind, idle_timeout, rtt_ms, set_rtt_ms, touch_recv,
}
use pnos_sdk.Manager.Steps.{IsQuiet}
use pnos_sdk.Manager.Closing.{IsClosed}
use pnos_sdk.Registry.Invariant.{new_registry-IsIndexed}
use pnos_sdk.Registry.Lookup.{insert-IsIndexed}
use pnos_sdk.Manager.Heartbeat.{
  broadcast, mark_probe, take_probe, handle_keepalive, answer_kind, frame_in, probe_elapsed,
  tick_session,
}
use pnos_sdk.Manager.Heartbeat.Keepalive.{count_reached, broadcast-IsQuiet}
use pnos_sdk.Manager.Heartbeat.Upkeep.{IsIdle, IsDue, HasProbed, tick_session-upkeep}

abbrev me : NodeId
me = record { octets = 1 ∷ [] }

abbrev peer : NodeId
peer = record { octets = 2 ∷ [] }

abbrev config : SessionConfig
config = record default_config { heartbeat_kind = some 1; heartbeat_reply_kind = some 2 }

abbrev server : SocketAddr
server = record { ip = v4 203 0 113 7; port = 6885 }

abbrev session : Session
session = record { id = 1; peer_id = peer; addr = server; direction = outbound; metadata = none }

abbrev reply : Frame
reply = record { kind = 2; payload = [] }

abbrev probed : Manager
probed = mark_probe 1 1000 (bind me config)

-- The answer arrives 30 milliseconds after the probe.
round_trip : rtt_ms 1 (frame_in session reply true 1030 probed) ≡ some 30
unfolding rtt_ms frame_in handle_keepalive touch_recv take_probe set_rtt_ms mark_probe bind lookup
    Dict.insert answer_kind
round_trip = refl

-- One session, from which nothing came since the start, and to which nothing was sent.
abbrev single : Manager
single = record (bind me config) { registry = (Registry.insert session Registry.new_registry).0 }

tick_session-upkeep_example :
    let m' = tick_session session (probe_elapsed, 45000) 30000 single in
    (IsIdle session 30000 single × IsClosed session idle_timeout single m')
    ⊎ (¬ IsIdle session 30000 single
        × IsDue session 30000 single
        × HasProbed session (probe_elapsed, 45000) single m')
    ⊎ (¬ IsIdle session 30000 single × ¬ IsDue session 30000 single × (m' ≡ single))
tick_session-upkeep_example =
    tick_session-upkeep session (probe_elapsed, 45000) 30000 single
      (insert-IsIndexed session Registry.new_registry new_registry-IsIndexed
        (unfold lookup in refl))
      (unfold Registry.insert Registry.put get_by_peer lookup Dict.insert in refl)

broadcast-IsQuiet_example :
    ((broadcast (λ id. id == 1) none 50 probed).0
      ≡ count_reached (λ id. id == 1) none (Registry.all probed.registry))
    × IsQuiet probed (broadcast (λ id. id == 1) none 50 probed).1
broadcast-IsQuiet_example = broadcast-IsQuiet (λ id. id == 1) none 50 probed
