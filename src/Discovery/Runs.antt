-- ===== src/Discovery/Runs.antt =====
-- Runs of local discovery, and its theorem at a concrete input.
use pnos_sdk.Base.{ℕ, ◌≡◌, refl, true, false, List, [], ◌∷◌, some, All, arith}
use pnos_sdk.Base.Dict.{lookup, insert}
use pnos_sdk.NodeId.{NodeId}
use pnos_sdk.Address.{v4, SocketAddr}
use pnos_sdk.Manager.Cooldown.{key_eq, key_test}
use pnos_sdk.Discovery.{
  Codec, LpdDiscoveryService, Key, to_wire, from_wire, announce, should_emit,
  handle_received_message,
}
use pnos_sdk.Discovery.Window.{emissions, emissions-should_emit}

abbrev here : SocketAddr
here = record { ip = v4 192 168 1 7; port = 6771 }

abbrev key : Key
key = (record { octets = 7 ∷ [] }, here)

abbrev friend : Key
friend = (record { octets = 8 ∷ [] }, here)

emissions-should_emit_example :
    All
      (λ k. key_test k key ≡ false)
      (emissions ((key, 1003) ∷ (friend, 1004) ∷ (key, 1014) ∷ []) (should_emit key 1000 []).1)
unfolding should_emit lookup
emissions-should_emit_example =
    emissions-should_emit key 1000 [] ((key, 1003) ∷ (friend, 1004) ∷ (key, 1014) ∷ []) refl
      (omega arith)

-- A message of one byte, the first of its identifier.
abbrev codec : Codec
codec = record {
  serialize = λ m. m.node_id.octets;
  deserialize = λ bytes. some (record {
    node_id = record { octets = bytes };
    service_port = 6885;
    api_port = 6880;
    capabilities = 0;
    data_entry_count = 0;
  });
}

abbrev service : NodeId → LpdDiscoveryService
service id = record {
  my_node_id = id;
  service_port = 6885;
  api_port = 6880;
  recent_announces = [];
  discovered = [];
}

abbrev message : List ℕ
message = to_wire codec (announce (service key.0))

-- The first announcement is news, a second one right behind it is not, and one's own never is.
first_news : (handle_received_message codec message here 1000 (service friend.0)).0 ≡ true
unfolding handle_received_message from_wire to_wire announce should_emit lookup
first_news = refl

second_news :
    (handle_received_message codec message here 1010
      (handle_received_message codec message here 1000 (service friend.0)).1).0
    ≡ false
unfolding handle_received_message from_wire to_wire announce should_emit lookup insert
second_news = refl

own_news : (handle_received_message codec message here 1000 (service key.0)).0 ≡ false
unfolding handle_received_message from_wire to_wire announce
own_news = refl
