-- ===== src/NodeId/Runs.antt =====
-- Runs of node identifiers, and the theorems at concrete inputs.
use pnos_sdk.Base.{ℕ, zero, suc, ◌≡◌, List, [], ◌∷◌, not, arith}
use pnos_sdk.NodeId.{NodeId, IsNodeId, lt_node, to_hex, from_hex, done, panicked, hex_digit}
use pnos_sdk.NodeId.Hex.{from_hex-to_hex, from_hex_malformed}
use pnos_sdk.NodeId.Order.{lt_node-not}

abbrev repeat : ℕ → ℕ → List ℕ
repeat zero b = []
repeat (suc n) b = b ∷ repeat n b

abbrev low_id : NodeId
low_id = record { octets = 0x0f ∷ repeat 19 0xab }

abbrev high_id : NodeId
high_id = record { octets = 0x0f ∷ repeat 19 0xac }

low_id-IsNodeId : IsNodeId low_id
low_id-IsNodeId = omega arith

high_id-IsNodeId : IsNodeId high_id
high_id-IsNodeId = omega arith

lt_node-not_example : lt_node high_id low_id ≡ not (lt_node low_id high_id)
lt_node-not_example =
    lt_node-not low_id high_id low_id-IsNodeId high_id-IsNodeId (λ e. ground arith)

from_hex-to_hex_example : from_hex (to_hex low_id) ≡ done low_id
from_hex-to_hex_example = from_hex-to_hex low_id low_id-IsNodeId

from_hex_malformed_example :
    (from_hex (b'+' ∷ hex_digit 15 ∷ repeat 38 b'0')
      ≡ from_hex (b'0' ∷ hex_digit 15 ∷ repeat 38 b'0'))
    × (from_hex (b'0' ∷ 0xc3 ∷ 0xa9 ∷ repeat 37 b'0') ≡ panicked)
from_hex_malformed_example =
    from_hex_malformed 15 b'0' 0xc3 0xa9 (repeat 38 b'0') (repeat 37 b'0') (omega arith)
      (omega arith) (omega arith) (omega arith) (omega arith)
