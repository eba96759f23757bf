-- ===== src/Manager/Connect/Runs.antt =====
-- Runs of `connect`, and the theorems on it and on the cooldown table at concrete inputs.
use pnos_sdk.Base.{
  ◌+◌, ◌≤◌, ◌<◌, ◌⊎◌, true, false, ◌≡◌, refl, [], ◌∷◌, none, ltb, if◌then◌else◌, nat_eq, arith,
}
use pnos_sdk.Base.Dict.{lookup}
use pnos_sdk.NodeId.{NodeId, node_eq}
use pnos_sdk.Address.{
  SocketAddr, addr_eq, v4, group_endpoints, classify_ip, classify, select_preferred_addrs,
  fallback_addrs,
}
use pnos_sdk.Registry.{Session, outbound, get_by_peer, session_of_addr, len}
use pnos_sdk.Manager.{Manager, max_sessions_reached, default_config, bind, register}
use pnos_sdk.Manager.Cooldown.{
  key_eq, key_test, in_cooldown, is_cooling, mark_cooldown, prune_cooldown,
}
use pnos_sdk.Manager.Cooling.{cooldown_answers}
use pnos_sdk.Manager.Connect.{
  err, dial_error, Dialer, Authenticator, dial_failed, identified, auth_failed, Plan, dialing,
  filter_usable, decide, after_first, after_second, connect,
}
use pnos_sdk.Manager.Connect.Guards.{IsUneventful, connect-IsUneventful}
use pnos_sdk.Manager.Connect.{spawn_inbound}
use pnos_sdk.Manager.Connect.Outcomes.{ConnectOutcome}
use pnos_sdk.Manager.Connect.Admission.{IsRejected, InboundOutcome, openings-verified}
use pnos_sdk.Manager.Connect.Dials.{IsAllowed, decide-IsAllowed}

abbrev me : NodeId
me = record { octets = 1 ∷ [] }

abbrev peer : NodeId
peer = record { octets = 2 ∷ [] }

abbrev server : SocketAddr
server = record { ip = v4 203 0 113 7; port = 6885 }

abbrev desk : SocketAddr
desk = record { ip = v4 192 168 0 2; port = 6885 }

abbrev idle : Manager
idle = bind me default_config

abbrev no_route : Dialer
no_route p addrs now = (dial_failed, now + 10)

abbrev deaf : Authenticator
deaf addr now = (auth_failed, now + 10)

abbrev the_plan : Plan
the_plan = record { first = server; preferred = desk ∷ []; fallback = server ∷ [] }

plan_made : (decide peer (server ∷ desk ∷ []) 100 idle).0 ≡ dialing the_plan
unfolding decide bind get_by_peer session_of_addr lookup len filter_usable in_cooldown
    select_preferred_addrs fallback_addrs group_endpoints classify classify_ip
plan_made = refl

decide-IsAllowed_example : IsAllowed idle peer 100 the_plan
decide-IsAllowed_example = decide-IsAllowed idle peer (server ∷ desk ∷ []) 100 the_plan plan_made

all_failed : (connect no_route deaf peer (server ∷ desk ∷ []) 100 idle).0 ≡ err dial_error
unfolding connect after_first after_second decide bind get_by_peer session_of_addr lookup len
    filter_usable in_cooldown select_preferred_addrs fallback_addrs group_endpoints classify
    classify_ip
all_failed = refl

connect-IsUneventful_example :
    IsUneventful idle (connect no_route deaf peer (server ∷ desk ∷ []) 100 idle).1
connect-IsUneventful_example =
    connect-IsUneventful no_route deaf peer (server ∷ desk ∷ []) 100 idle dial_error all_failed

abbrev first : Session
first = record { id = 1; peer_id = peer; addr = server; direction = outbound; metadata = none }

abbrev busy : Manager
busy = (register first idle).1

cooldown_answers_example :
    (is_cooling peer server 200 (mark_cooldown peer server 100 idle) ≡ (
      if key_test (peer, server) (peer, server)
      then ltb 200 (100 + idle.cfg.addr_cooldown)
      else is_cooling peer server 200 idle))
    × (is_cooling peer server 200 (in_cooldown peer server 100 idle).1
        ≡ is_cooling peer server 200 idle)
    × (is_cooling peer server 200 (prune_cooldown 100 idle) ≡ is_cooling peer server 200 idle)
cooldown_answers_example =
    cooldown_answers peer peer server server 100 200 idle (unfold bind in omega arith)
      (unfold bind in tt) (omega arith)

-- The authenticator knows who calls.
abbrev guard : Authenticator
guard addr now =
    (identified (record { peer_id = peer; verified = true; metadata = none }), now + 10)

openings-verified_example :
    let m' = spawn_inbound guard server 100 idle in
    ConnectOutcome guard peer
      (server ∷ [])
      idle
      (connect no_route guard peer (server ∷ []) 100 idle)
    × (((idle.shutting_down ≡ true) × (m' ≡ idle))
        ⊎ ((idle.shutting_down ≡ false)
            × (idle.cfg.max_sessions ≤ len idle.registry)
            × IsRejected server max_sessions_reached idle m')
        ⊎ ((idle.shutting_down ≡ false)
            × (len idle.registry < idle.cfg.max_sessions)
            × InboundOutcome server idle m' (guard server 100)))
openings-verified_example = openings-verified no_route guard peer (server ∷ []) server 100 idle
