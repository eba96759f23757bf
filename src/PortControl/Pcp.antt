-- ===== src/PortControl/Pcp.antt =====
-- crates/pnos-net/src/nat/pcp.rs: the PCP client. The clock, which gives the nonce, is an argument.
use Prim.Native.Nat.{bit_or}
use pnos_sdk.Base.{
  ℕ, zero, suc, Bool, true, false, ◌&&◌, not, List, [], ◌∷◌, ◌++◌, Option, none, some, ltb, ◌==◌,
  if◌then◌else◌, length, get_or, slice, list_beq,
}
use pnos_sdk.Base.Bytes.{be16, be32}
use pnos_sdk.Address.{IpAddr, v4}
use pnos_sdk.Stun.{u16_at, be64}
use pnos_sdk.PortControl.{
  Exchange, too_short, wrong_version, wrong_opcode, not_removed, Result, ok, err, Client, u32_at,
  server_of, received,
}

abbrev pub pcp_version : ℕ
pcp_version = 2

abbrev pub pcp_response_flag : ℕ
pcp_response_flag = 0x80

abbrev pub op_announce : ℕ
op_announce = 0

abbrev pub op_map : ℕ
op_map = 1

pub data PcpResultCode : Type 0 where
  success unsupp_version not_authorized malformed_request unsupp_opcode unsupp_option
        malformed_option :
      PcpResultCode
  network_failure no_resources unsupp_protocol user_ex_quota cannot_provide_external : PcpResultCode
  address_mismatch excessive_remote_peers : PcpResultCode
  other : ℕ → PcpResultCode

unfoldable pub from_u32 : ℕ → PcpResultCode
from_u32 code =
    if code == 0
    then success
    else if code == 1
    then unsupp_version
    else if code == 2
    then not_authorized
    else if code == 3
    then malformed_request
    else if code == 4
    then unsupp_opcode
    else if code == 5
    then unsupp_option
    else if code == 6
    then malformed_option
    else if code == 7
    then network_failure
    else if code == 8
    then no_resources
    else if code == 9
    then unsupp_protocol
    else if code == 10
    then user_ex_quota
    else if code == 11
    then cannot_provide_external
    else if code == 12
    then address_mismatch
    else if code == 13
    then excessive_remote_peers
    else other code

unfoldable pub is_success : PcpResultCode → Bool
is_success c = elim c [ success ↦ true | _ ↦ false ]

pub record PcpResponse : Type 0 where
  pub result_code : PcpResultCode
  pub lifetime : ℕ
  pub epoch_time : ℕ

pub record PcpMapResponse : Type 0 where
  pub result_code : PcpResultCode
  pub lifetime : ℕ
  pub epoch_time : ℕ
  pub protocol : ℕ
  pub internal_port : ℕ
  pub mapped_external_port : ℕ
  pub mapped_external_ip : Option IpAddr

abbrev pub zeros : ℕ → List ℕ
zeros zero = []
zeros (suc n) = 0 ∷ zeros n

-- The address 0.0.0.0, as an IPv6 address.
abbrev pub local_ipv4_mapped : List ℕ
local_ipv4_mapped = zeros 10 ++ 0xff ∷ 0xff ∷ zeros 4

unfoldable pub build_header : ℕ → ℕ → List ℕ
build_header opcode lifetime = pcp_version ∷ opcode ∷ 0 ∷ 0 ∷ (be32 lifetime ++ local_ipv4_mapped)

unfoldable pub random_nonce : ℕ → List ℕ
random_nonce now = be64 now ++ 0xAA ∷ 0xBB ∷ 0xCC ∷ 0xDD ∷ []

unfoldable pub parse_generic_response : List ℕ → ℕ → Result PcpResponse
parse_generic_response buf opcode =
    if ltb (length buf) 24
    then err (too_short (length buf))
    else if not (get_or buf 0 0 == pcp_version)
    then err (wrong_version (get_or buf 0 0))
    else if not (get_or buf 1 0 == bit_or pcp_response_flag opcode)
    then err (wrong_opcode (get_or buf 1 0))
    else ok (record {
      result_code = from_u32 (u32_at buf 4);
      lifetime = u32_at buf 8;
      epoch_time = u32_at buf 12;
    })

abbrev pub address_at : List ℕ → IpAddr
address_at buf = v4 (get_or buf 56 0) (get_or buf 57 0) (get_or buf 58 0) (get_or buf 59 0)

unfoldable pub mapped_ip : List ℕ → Option IpAddr
mapped_ip buf =
    if list_beq (slice 44 58 buf) (zeros 14) && get_or buf 58 0 == 0xff && get_or buf 59 0 == 0xff
    then some (address_at buf)
    else if list_beq (slice 44 54 buf) (zeros 10)
        && get_or buf 54 0 == 0xff
        && get_or buf 55 0 == 0xff
    then some (address_at buf)
    else none

unfoldable pub parse_map_response : List ℕ → Result PcpMapResponse
parse_map_response buf =
    if ltb (length buf) 60
    then err (too_short (length buf))
    else (elim (parse_generic_response buf op_map) [
      | err e ↦ err e
      | ok generic ↦ ok (record {
        result_code = generic.result_code;
        lifetime = generic.lifetime;
        epoch_time = generic.epoch_time;
        protocol = get_or buf 36 0;
        internal_port = u16_at buf 40;
        mapped_external_port = u16_at buf 42;
        mapped_external_ip = mapped_ip buf;
      })
    ])

unfoldable pub announce : Exchange → Client → Result PcpResponse
announce exchange client =
    received 512 (λ buf. parse_generic_response buf op_announce)
      (exchange (server_of client) client.timeout (build_header op_announce 0))

unfoldable pub probe : Exchange → Client → Bool
probe exchange client = elim (announce exchange client) [
  | ok r ↦ is_success r.result_code
  | err e ↦ false
]

-- The request of `map_port`; a suggested address of zeros leaves the choice to the gateway.
unfoldable pub map_request : ℕ → ℕ → ℕ → ℕ → ℕ → List ℕ
map_request now protocol internal_port suggested_external_port lifetime =
    build_header op_map lifetime
    ++ (random_nonce now
        ++ protocol
          ∷ (zeros 3 ++ (be16 internal_port ++ (be16 suggested_external_port ++ zeros 16))))

unfoldable pub map_port : Exchange → ℕ → Client → ℕ → ℕ → ℕ → ℕ → Result PcpMapResponse
map_port exchange now client protocol internal_port suggested_external_port lifetime =
    received 512 parse_map_response (
      exchange (server_of client) client.timeout
        (map_request now protocol internal_port suggested_external_port lifetime))

unfoldable pub map_udp : Exchange → ℕ → Client → ℕ → ℕ → ℕ → Result PcpMapResponse
map_udp exchange now client = map_port exchange now client 17

unfoldable pub map_tcp : Exchange → ℕ → Client → ℕ → ℕ → ℕ → Result PcpMapResponse
map_tcp exchange now client = map_port exchange now client 6

unfoldable pub unmap_port : Exchange → ℕ → Client → ℕ → ℕ → ℕ → Result Unit
unmap_port exchange now client protocol internal_port external_port =
    elim (map_port exchange now client protocol internal_port external_port 0) [
      | ok r ↦ if is_success r.result_code then ok tt else err not_removed
      | err e ↦ err e
    ]
