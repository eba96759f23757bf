-- ===== src/NodeId/Hex.antt =====
-- The hexadecimal form of a node identifier.
use pnos_sdk.Base.{
  ℕ, ◌*◌, ◌/◌, ◌%◌, ◌<◌, ◌≡◌, refl, true, false, List, [], ◌∷◌, length, arith, All, some, ==_iff,
  ◌≤◌,
}
use pnos_sdk.Base.Bytes.{IsByte}
use pnos_sdk.NodeId.{
  NodeId, IsNodeId, done, panicked, hex_digit, hex_value, hex_octets, to_hex, from_str_radix,
  at_boundary, from_hex_pairs, from_hex,
}

hex_value-hex_digit : (d : ℕ) → d < 16 → hex_value (hex_digit d) ≡ some d
unfolding hex_value hex_digit
hex_value-hex_digit d h = ground arith

hex_digit_ascii : (d : ℕ) → d < 16 → (48 ≤ hex_digit d) × (hex_digit d < 128)
unfolding hex_digit
hex_digit_ascii d h = ground arith

at_boundary-hex_octets : (bs : List ℕ) → All IsByte bs → at_boundary (hex_octets bs) ≡ true
unfolding at_boundary
at_boundary-hex_octets [] h = refl
at_boundary-hex_octets (b ∷ bs) h = ground (arith, hex_digit_ascii (b / 16))

from_str_radix-hex_digit :
    (b : ℕ) → IsByte b → from_str_radix (hex_digit (b / 16)) (hex_digit (b % 16)) ≡ done b
unfolding from_str_radix
from_str_radix-hex_digit b h =
    ground
      (arith, hex_digit_ascii (b / 16), hex_value-hex_digit (b / 16), hex_value-hex_digit (b % 16))

from_hex_pairs-hex_octets : (bs : List ℕ) → All IsByte bs → from_hex_pairs (hex_octets bs) ≡ done bs
unfolding from_hex_pairs
from_hex_pairs-hex_octets [] h = refl
from_hex_pairs-hex_octets (b ∷ bs) h = rw (
  at_boundary-hex_octets bs h.1,
  from_str_radix-hex_digit b h.0,
  from_hex_pairs-hex_octets bs h.1,
)

length-hex_octets : (bs : List ℕ) → length (hex_octets bs) ≡ 2 * length bs
length-hex_octets [] = omega arith
length-hex_octets (b ∷ bs) = omega (arith, length-hex_octets bs)

-- Reading back the hexadecimal form of a node identifier of twenty bytes gives the identifier.
pub from_hex-to_hex : (n : NodeId) → IsNodeId n → from_hex (to_hex n) ≡ done n
unfolding from_hex to_hex
from_hex-to_hex n h =
    let even : length (hex_octets n.octets) ≡ 40 =
      omega (arith, length-hex_octets n.octets, h.size) in
    rw ((==_iff _ 40).1 even, from_hex_pairs-hex_octets n.octets h.in_range)

from_hex_plus :
    (d : ℕ) (rest : List ℕ)
    → length rest ≡ 38
    → d < 16
    → from_hex (b'+' ∷ hex_digit d ∷ rest) ≡ from_hex (b'0' ∷ hex_digit d ∷ rest)
unfolding from_hex from_hex_pairs from_str_radix hex_value
from_hex_plus d rest l h = ground (arith, hex_value-hex_digit d)

at_boundary_inside : (c : ℕ) (cs : List ℕ) → 128 ≤ c → c < 192 → at_boundary (c ∷ cs) ≡ false
unfolding at_boundary
at_boundary_inside c cs lo hi = ground arith

from_hex_pairs_inside :
    (a b : ℕ) (rest : List ℕ) → at_boundary rest ≡ false → from_hex_pairs (a ∷ b ∷ rest) ≡ panicked
unfolding from_hex_pairs
from_hex_pairs_inside a b rest e = rw e

from_hex_panics :
    (a b c : ℕ) (rest : List ℕ)
    → length rest ≡ 37
    → 128 ≤ c
    → c < 192
    → from_hex (a ∷ b ∷ c ∷ rest) ≡ panicked
unfolding from_hex
from_hex_panics a b c rest l lo hi =
    let size : length (a ∷ b ∷ c ∷ rest) ≡ 40 = omega (arith, l) in
    rw
      ((==_iff _ 40).1 size, from_hex_pairs_inside a b (c ∷ rest) (at_boundary_inside c rest lo hi))

-- Of the texts of forty bytes: one that has a plus sign for the first digit of its first byte is read
-- as if that digit were a zero, so that the hexadecimal form is not unique; and one whose third byte is
-- one of 128 to 191, so that it lies inside a character, makes the reader panic.
pub from_hex_malformed :
    (d a b c : ℕ) (rest more : List ℕ)
    → length rest ≡ 38
    → d < 16
    → length more ≡ 37
    → 128 ≤ c
    → c < 192
    → (from_hex (b'+' ∷ hex_digit d ∷ rest) ≡ from_hex (b'0' ∷ hex_digit d ∷ rest))
      × (from_hex (a ∷ b ∷ c ∷ more) ≡ panicked)
from_hex_malformed d a b c rest more l h l' lo hi =
    (from_hex_plus d rest l h, from_hex_panics a b c more l' lo hi)
