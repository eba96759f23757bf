-- ===== src/NodeId/Order.antt =====
-- The order of node identifiers: exactly one of two different identifiers of one size is the smaller.
use pnos_sdk.Base.{ℕ, ◌≡◌, refl, ◌≢◌, not, List, [], ◌∷◌, length, arith}
use pnos_sdk.NodeId.{NodeId, IsNodeId, lt_octets, lt_node}

lt_octets-not :
    (xs ys : List ℕ) → length xs ≡ length ys → xs ≢ ys → lt_octets ys xs ≡ not (lt_octets xs ys)
unfolding lt_octets
lt_octets-not [] [] l h = absurd (h refl)
lt_octets-not [] (y ∷ ys) l h = absurd (omega arith)
lt_octets-not (x ∷ xs) [] l h = absurd (omega arith)
lt_octets-not (x ∷ xs) (y ∷ ys) l h = ground (arith, lt_octets-not xs ys)

-- Of two different node identifiers exactly one is the smaller.
pub lt_node-not : (a b : NodeId) → IsNodeId a → IsNodeId b → a ≢ b → lt_node b a ≡ not (lt_node a b)
unfolding lt_node
lt_node-not a b p q h =
    lt_octets-not a.octets b.octets (omega (arith, p.size, q.size)) (λ e. h (ground arith))
