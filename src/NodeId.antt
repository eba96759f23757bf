-- ===== src/NodeId.antt =====
-- crates/pnos-net/src/types.rs: the node identifier, its order and its hexadecimal form. A string is
-- the list of its UTF-8 bytes; `[u8; 20]` compares byte by byte from the front.
pub mod Hex
pub mod Order
mod Runs
use pnos_sdk.Base.{
  ℕ, suc, ◌+◌, ◌-◌, ◌*◌, ◌/◌, ◌%◌, Bool, true, false, ◌&&◌, ◌||◌, not, List, [], ◌∷◌, ◌++◌, Option,
  none, some, ltb, leb, ◌==◌, if◌then◌else◌, length, Eq, list_beq, list_beq_iff, ◌≡◌, ◌↔◌, arith,
  All,
}
use pnos_sdk.Base.Bytes.{IsByte}

pub record NodeId : Type 0 where
  pub octets : List ℕ

-- Twenty bytes.
pub record IsNodeId (n : NodeId) : Type 0 where
  pub size : length n.octets ≡ 20
  pub in_range : All IsByte n.octets

abbrev pub node_beq : NodeId → NodeId → Bool
node_beq a b = list_beq a.octets b.octets

pub node_beq_iff : (a b : NodeId) → (node_beq a b ≡ true) ↔ (a ≡ b)
node_beq_iff a b = ground (arith, list_beq_iff a.octets b.octets)

instance abbrev pub node_eq : Eq NodeId
node_eq = record { test = node_beq; test_iff = node_beq_iff }

-- `<` on byte arrays.
unfoldable pub lt_octets : List ℕ → List ℕ → Bool
lt_octets [] [] = false
lt_octets [] (y ∷ ys) = true
lt_octets (x ∷ xs) [] = false
lt_octets (x ∷ xs) (y ∷ ys) = ltb x y || (x == y && lt_octets xs ys)

unfoldable pub lt_node : NodeId → NodeId → Bool
lt_node a b = lt_octets a.octets b.octets

-- A digit of `{:02x}`.
unfoldable pub hex_digit : ℕ → ℕ
hex_digit d = if ltb d 10 then b'0' + d else b'a' + d - 10

abbrev pub hex_octets : List ℕ → List ℕ
hex_octets [] = []
hex_octets (b ∷ bs) = hex_digit (b / 16) ∷ hex_digit (b % 16) ∷ hex_octets bs

unfoldable pub to_hex : NodeId → List ℕ
to_hex n = hex_octets n.octets

-- What a call gives: a value, an error, or a panic.
pub data Outcome {ℓ} (A : Type ℓ) : Type ℓ where
  done : A → Outcome A
  rejected : Outcome A
  panicked : Outcome A

infixl 5 ◌>>=◌
abbrev pub ◌>>=◌ {ℓ κ} : {A : Type ℓ} {B : Type κ} → Outcome A → (A → Outcome B) → Outcome B
done a >>= f = f a
rejected >>= f = rejected
panicked >>= f = panicked

-- A hexadecimal digit of either case.
unfoldable pub hex_value : ℕ → Option ℕ
hex_value c =
    if leb b'0' c && leb c b'9'
    then some (c - b'0')
    else if leb b'a' c && leb c b'f'
    then some (c - b'a' + 10)
    else if leb b'A' c && leb c b'F'
    then some (c - b'A' + 10)
    else none

abbrev two_digits : Option ℕ → Option ℕ → Outcome ℕ
two_digits (some h) (some l) = done (h * 16 + l)
two_digits (some h) none = rejected
two_digits none l = rejected

abbrev one_digit : Option ℕ → Outcome ℕ
one_digit (some l) = done l
one_digit none = rejected

-- `u8::from_str_radix` at base 16 on a text of two bytes: a leading plus sign is skipped.
unfoldable pub from_str_radix : ℕ → ℕ → Outcome ℕ
unfolding hex_value
from_str_radix a b =
    if a == b'+' then one_digit (hex_value b) else two_digits (hex_value a) (hex_value b)

-- `is_char_boundary` at the front of what is left of the text: not inside a character.
unfoldable pub at_boundary : List ℕ → Bool
at_boundary [] = true
at_boundary (c ∷ cs) = ltb c 128 || leb 192 c

-- The loop of `from_hex` over the pairs of bytes; slicing inside a character panics.
unfoldable pub from_hex_pairs : List ℕ → Outcome (List ℕ)
unfolding from_str_radix at_boundary
from_hex_pairs [] = done []
from_hex_pairs (a ∷ []) = rejected
from_hex_pairs (a ∷ b ∷ rest) =
    let octets = from_hex_pairs rest in
    if at_boundary rest
    then (from_str_radix a b >>= λ v. octets >>= λ vs. done (v ∷ vs))
    else panicked

unfoldable pub from_hex : List ℕ → Outcome NodeId
unfolding from_hex_pairs
from_hex s =
    if length s == 40 then (from_hex_pairs s >>= λ vs. done (record { octets = vs })) else rejected
