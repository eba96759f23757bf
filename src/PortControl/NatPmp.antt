-- ===== src/PortControl/NatPmp.antt =====
-- crates/pnos-net/src/nat/nat_pmp.rs: the NAT-PMP client.
use Prim.Native.Nat.{bit_or}
use pnos_sdk.Base.{
  ℕ, Bool, true, false, not, List, [], ◌∷◌, ◌++◌, ltb, ◌==◌, if◌then◌else◌, length, get_or,
}
use pnos_sdk.Base.Bytes.{be16, be32}
use pnos_sdk.Address.{IpAddr, v4}
use pnos_sdk.Stun.{u16_at}
use pnos_sdk.PortControl.{
  Exchange, too_short, wrong_opcode, not_removed, Result, ok, err, Client, u32_at, server_of,
  received,
}

abbrev pub nat_pmp_version : ℕ
nat_pmp_version = 0

abbrev pub op_external_address : ℕ
op_external_address = 0

abbrev pub op_map_udp : ℕ
op_map_udp = 1

abbrev pub op_map_tcp : ℕ
op_map_tcp = 2

pub data NatPmpResultCode : Type 0 where
  success unsupported_version not_authorized network_failure out_of_resources unsupported_opcode :
      NatPmpResultCode
  other : ℕ → NatPmpResultCode

unfoldable pub from_u16 : ℕ → NatPmpResultCode
from_u16 code =
    if code == 0
    then success
    else if code == 1
    then unsupported_version
    else if code == 2
    then not_authorized
    else if code == 3
    then network_failure
    else if code == 4
    then out_of_resources
    else if code == 5
    then unsupported_opcode
    else other code

unfoldable pub is_success : NatPmpResultCode → Bool
is_success c = elim c [ success ↦ true | _ ↦ false ]

pub record ExternalAddressResponse : Type 0 where
  pub result_code : NatPmpResultCode
  pub epoch_time : ℕ
  pub public_ip : IpAddr

pub record MapResponse : Type 0 where
  pub result_code : NatPmpResultCode
  pub epoch_time : ℕ
  pub internal_port : ℕ
  pub mapped_external_port : ℕ
  pub mapping_lifetime : ℕ

-- The reply of `get_external_address`.
unfoldable pub parse_external : List ℕ → Result ExternalAddressResponse
parse_external buf =
    if ltb (length buf) 12
    then err (too_short (length buf))
    else if not (get_or buf 1 0 == bit_or 0x80 op_external_address)
    then err (wrong_opcode (get_or buf 1 0))
    else ok (record {
      result_code = from_u16 (u16_at buf 2);
      epoch_time = u32_at buf 4;
      public_ip = v4 (get_or buf 8 0) (get_or buf 9 0) (get_or buf 10 0) (get_or buf 11 0);
    })

unfoldable pub get_external_address : Exchange → Client → Result ExternalAddressResponse
get_external_address exchange client =
    received 128 parse_external
      (exchange (server_of client) client.timeout (nat_pmp_version ∷ op_external_address ∷ []))

unfoldable pub probe : Exchange → Client → Bool
probe exchange client = elim (get_external_address exchange client) [
  | ok r ↦ is_success r.result_code
  | err e ↦ false
]

-- The request of `map_port`.
unfoldable pub map_request : ℕ → ℕ → ℕ → ℕ → List ℕ
map_request protocol internal_port requested_external_port lifetime =
    nat_pmp_version
    ∷ protocol
    ∷ 0
    ∷ 0
    ∷ (be16 internal_port ++ (be16 requested_external_port ++ be32 lifetime))

-- The reply of `map_port`.
unfoldable pub parse_map : ℕ → List ℕ → Result MapResponse
parse_map protocol buf =
    if ltb (length buf) 16
    then err (too_short (length buf))
    else if not (get_or buf 1 0 == bit_or 0x80 protocol)
    then err (wrong_opcode (get_or buf 1 0))
    else ok (record {
      result_code = from_u16 (u16_at buf 2);
      epoch_time = u32_at buf 4;
      internal_port = u16_at buf 8;
      mapped_external_port = u16_at buf 10;
      mapping_lifetime = u32_at buf 12;
    })

unfoldable pub map_port : Exchange → Client → ℕ → ℕ → ℕ → ℕ → Result MapResponse
map_port exchange client protocol internal_port requested_external_port lifetime =
    received 128 (parse_map protocol) (
      exchange (server_of client) client.timeout
        (map_request protocol internal_port requested_external_port lifetime))

unfoldable pub map_udp : Exchange → Client → ℕ → ℕ → ℕ → Result MapResponse
map_udp exchange client = map_port exchange client op_map_udp

unfoldable pub map_tcp : Exchange → Client → ℕ → ℕ → ℕ → Result MapResponse
map_tcp exchange client = map_port exchange client op_map_tcp

unfoldable pub unmap_port : Exchange → Client → ℕ → ℕ → ℕ → Result Unit
unmap_port exchange client protocol internal_port external_port =
    elim (map_port exchange client protocol internal_port external_port 0) [
      | ok r ↦ if is_success r.result_code then ok tt else err not_removed
      | err e ↦ err e
    ]
