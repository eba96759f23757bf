-- ===== src/Manager/Runs.antt =====
-- Runs of the session manager, and the theorems at concrete inputs.
use pnos_sdk.Base.{
  ◌+◌, ◌≤◌, ◌<◌, ◌≡◌, ◌⊎◌, refl, true, false, [], ◌∷◌, none, some, length, if◌then◌else◌, nat_eq,
  arith,
}
use pnos_sdk.Base.Dict.{lookup}
use pnos_sdk.Base.Dict
use pnos_sdk.NodeId.{NodeId, IsNodeId, node_eq, lt_node}
use pnos_sdk.Address.{SocketAddr, v4}
use pnos_sdk.Registry
use pnos_sdk.Registry.{Session, outbound, inbound, get_by_peer, len}
use pnos_sdk.Registry.Invariant.{IsIndexed, new_registry-IsIndexed}
use pnos_sdk.Manager.{
  Manager, default_config, connected, disconnected, shutdown, bind, new_session, shutdown_all,
  update,
}
use pnos_sdk.Manager.Steps.{System, Reach, here, next, create, enter, start}
use pnos_sdk.Manager.Invariant.{Reach-accounts, Reach-get_by_peer}
use pnos_sdk.Manager.Closing.{AreShut, shutdown_all-AreShut}
use pnos_sdk.Manager.Races.{newcomer, shutdown_race}
use pnos_sdk.Manager.Arbitration.{IsCrossing, activate_both, survivors_agree}

abbrev low : NodeId
low = record {
  octets = 1 ∷ 0 ∷ 0 ∷ 0 ∷ 0 ∷ 0 ∷ 0 ∷ 0 ∷ 0 ∷ 0 ∷ 0 ∷ 0 ∷ 0 ∷ 0 ∷ 0 ∷ 0 ∷ 0 ∷ 0 ∷ 0 ∷ 0 ∷ [];
}

abbrev high : NodeId
high = record {
  octets = 2 ∷ 0 ∷ 0 ∷ 0 ∷ 0 ∷ 0 ∷ 0 ∷ 0 ∷ 0 ∷ 0 ∷ 0 ∷ 0 ∷ 0 ∷ 0 ∷ 0 ∷ 0 ∷ 0 ∷ 0 ∷ 0 ∷ 0 ∷ [];
}

low-IsNodeId : IsNodeId low
low-IsNodeId = record { size = refl; in_range = ground arith }

high-IsNodeId : IsNodeId high
high-IsNodeId = record { size = refl; in_range = ground arith }

abbrev address : SocketAddr
address = record { ip = v4 10 0 0 1; port = 6885 }

-- A session is created and not yet registered.
abbrev created : System
created = record {
  manager = (new_session high address outbound none 5 (bind low default_config)).1;
  entering = update (λ i. false) (bind low default_config).next_id true;
  uncounted = [];
  raising = [];
  leaving = [];
  lowering = [];
}

abbrev first : Session
first = record { id = 1; peer_id = high; addr = address; direction = outbound; metadata = none }

-- It is registered, and not yet counted.
abbrev opened : System
opened = record created {
  manager = record created.manager {
    registry = (Registry.insert first created.manager.registry).0;
  };
  entering = update created.entering 1 false;
  uncounted = first ∷ [];
}

created-Reach : Reach (start low default_config) created
created-Reach =
    next here
      (create (start low default_config) high address outbound none 5 (unfold bind in omega arith))

opened-Reach : Reach (start low default_config) opened
opened-Reach = next created-Reach (
    enter created first (unfold bind in refl) (unfold bind new_session get_by_peer lookup in refl)
      (unfold bind new_session in omega arith))

Reach-accounts_example :
    (opened.manager.stats.established + length opened.uncounted
      ≡ opened.manager.stats.closed + (length opened.leaving + len opened.manager.registry))
    × (len opened.manager.registry + (length opened.leaving + length opened.lowering)
        ≤ opened.manager.stats.active + (length opened.uncounted + length opened.raising))
    × IsIndexed opened.manager.registry
Reach-accounts_example = Reach-accounts low default_config opened opened-Reach

found_first : get_by_peer high opened.manager.registry ≡ some first
unfolding new_session bind get_by_peer Registry.insert Registry.put lookup Dict.insert
found_first = refl

Reach-get_by_peer_example :
    (first.peer_id ≡ high)
    × (first.id < opened.manager.next_id)
    × ((opened.manager.vars first.id).closed ≡ false)
Reach-get_by_peer_example =
    Reach-get_by_peer low default_config opened high first opened-Reach found_first

abbrev busy : Manager
busy = opened.manager

shutdown_all-AreShut_example :
    ((busy.shutting_down ≡ true) × (shutdown_all busy ≡ busy))
    ⊎ ((busy.shutting_down ≡ false)
        × ((shutdown_all busy).registry ≡ Registry.new_registry)
        × ((shutdown_all busy).shutting_down ≡ true)
        × AreShut
            (Registry.all busy.registry)
            (record busy { registry = Registry.new_registry; shutting_down = true })
            (shutdown_all busy))
shutdown_all-AreShut_example = shutdown_all-AreShut busy

shutdown_race_example :
    (x : System) × Reach (start low default_config) x
    × (x.uncounted ≡ [])
    × (x.raising ≡ [])
    × (x.leaving ≡ [])
    × (x.lowering ≡ [])
    × (len x.manager.registry ≡ 0)
    × (x.manager.stats.established ≡ 1)
    × (x.manager.stats.closed ≡ 1)
    × (x.manager.stats.active ≡ 1)
    × (x.manager.events
        ≡ disconnected (newcomer low high default_config address outbound).id high shutdown
          ∷ connected (newcomer low high default_config address outbound).id high address outbound
          ∷ [])
shutdown_race_example = shutdown_race low high default_config address outbound

abbrev dialed : NodeId → Session
dialed peer = record first { peer_id = peer }

abbrev accepted : NodeId → Session
accepted peer = record first { id = 2; peer_id = peer; direction = inbound }

crossing :
    (me peer : NodeId) → IsCrossing (bind me default_config) peer (dialed peer) (accepted peer)
unfolding bind lookup get_by_peer
crossing me peer = record {
  indexed = new_registry-IsIndexed;
  dialed_fresh = refl;
  accepted_fresh = refl;
  differ = λ e. omega arith;
  dialed_peer = refl;
  accepted_peer = refl;
  dialed_out = refl;
  accepted_in = refl;
  unknown = refl;
}

survivors_agree_example :
    (get_by_peer high
        (activate_both true (dialed high) (accepted high) (bind low default_config)).registry
      ≡ some (if lt_node low high then dialed high else accepted high))
    × (get_by_peer low
          (activate_both false (dialed low) (accepted low) (bind high default_config)).registry
        ≡ some (if lt_node low high then accepted low else dialed low))
unfolding bind
survivors_agree_example =
    survivors_agree (bind low default_config) (bind high default_config) (dialed high)
      (accepted high) (dialed low) (accepted low) true false low-IsNodeId high-IsNodeId
      (λ e. ground arith) (crossing low high) (crossing high low)
