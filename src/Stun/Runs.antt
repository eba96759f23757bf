-- ===== src/Stun/Runs.antt =====
-- Runs of the STUN client, and the theorems at concrete inputs.
use pnos_sdk.Base.{
  ℕ, ◌+◌, ◌≡◌, ◌≢◌, refl, sym, ap, ◌∙◌, List, [], ◌∷◌, none, some, some_eq, list_beq, Bool-cases,
  inl, inr, arith,
}
use pnos_sdk.Address.{v4, SocketAddr}
use pnos_sdk.Stun.{
  open_internet, Found, note, attributes, parse_mapped_address, decode_xor_mapped_address,
}
use pnos_sdk.Stun.Attributes.{Attribute, attributes_enough}
use pnos_sdk.Stun.Messages.{response, xor_attribute, parse_mapped_address-xor_attribute}
use pnos_sdk.Stun.Client.{Reply, Exchange, detect_nat_type_multi}
use pnos_sdk.Stun.Detection.{IsWildcard, detect_nat_type_multi-ne-open_internet}

abbrev id : List ℕ
id = 1 ∷ 2 ∷ 3 ∷ 4 ∷ 5 ∷ 6 ∷ 7 ∷ 8 ∷ 9 ∷ 10 ∷ 11 ∷ 12 ∷ []

-- SOFTWARE, with a text of five bytes.
abbrev software : Attribute
software = record {
  kind = 0x8022;
  value = b'h' ∷ b'e' ∷ b'l' ∷ b'l' ∷ b'o' ∷ [];
  padding = 0 ∷ 0 ∷ 0 ∷ [];
}

parse_mapped_address-xor_attribute_example :
    parse_mapped_address
      (response id (software ∷ xor_attribute 203 0 113 9 6885 ∷ software ∷ []))
      id
    ≡ some (record { ip = v4 203 0 113 9; port = 6885 })
parse_mapped_address-xor_attribute_example =
    parse_mapped_address-xor_attribute id (software ∷ []) (software ∷ []) 203 0 113 9 6885 refl
      (ground arith) (omega arith) (ground arith)
      (
        record { kind_fits = omega arith; length_fits = omega arith; aligned = refl },
        (
          record { kind_fits = omega arith; length_fits = omega arith; aligned = refl },
          (record { kind_fits = omega arith; length_fits = omega arith; aligned = refl }, tt),
        ),
      )
      (omega arith)

abbrev message : List ℕ
message = response id (xor_attribute 203 0 113 9 6885 ∷ [])

abbrev empty_found : Found
empty_found = record { xor_addr = none; mapped_addr = none }

attributes_enough_example :
    attributes 3 message 32 20 empty_found ≡ attributes 100 message 32 20 empty_found
attributes_enough_example =
    attributes_enough 3 100 message 32 20 empty_found (omega arith) (omega arith)

abbrev reply : Reply
reply = record { bytes = message; local_addr = record { ip = v4 0 0 0 0; port = 4000 } }

-- Every request gets this reply, ten milliseconds later.
abbrev network : Exchange
network server request now = (some reply, now + 10)

message_address :
    (k : List ℕ) (a : SocketAddr) → parse_mapped_address message k ≡ some a → a.ip ≡ v4 203 0 113 9
unfolding parse_mapped_address attributes note decode_xor_mapped_address
message_address k a e = elim (Bool-cases (list_beq id k)) [
  | inl same ↦ let read = rw same at e in ap (λ x. x.ip) (some_eq (sym read))
  | inr other ↦ absurd (ground (arith, rw other at e))
]

v4_ne : v4 203 0 113 9 ≢ v4 0 0 0 0
v4_ne e = ground (arith, e)

network-IsWildcard : IsWildcard network
network-IsWildcard = record {
  unspecified = λ server request now ended r e. ground arith;
  seen = λ server request k now ended r a e p q.
      let same : reply.bytes ≡ r.bytes = ground arith in
      let a_is : a.ip ≡ v4 203 0 113 9 = message_address k a (rw (← same) at p) in
      v4_ne (sym a_is ∙ q);
}

detect_nat_type_multi-ne-open_internet_example :
    detect_nat_type_multi network ((b'a' ∷ []) ∷ (b'b' ∷ []) ∷ []) 5 ≢ open_internet
detect_nat_type_multi-ne-open_internet_example =
    detect_nat_type_multi-ne-open_internet network ((b'a' ∷ []) ∷ (b'b' ∷ []) ∷ []) 5
      network-IsWildcard
