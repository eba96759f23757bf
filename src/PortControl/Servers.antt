-- ===== src/PortControl/Servers.antt =====
-- The clients of nat_pmp.rs and pcp.rs against gateways that follow RFC 6886 and RFC 6887.
use Prim.Native.Nat.{bit_or}
use pnos_sdk.Base.{
  ℕ, ◌+◌, ◌<◌, ◌≡◌, refl, Bool, true, ◌&&◌, List, [], ◌∷◌, ◌++◌, none, some, ◌==◌, ==_iff,
  if◌then◌else◌, length, get_or, slice, arith,
}
use pnos_sdk.Base.Bytes.{IsU16, IsU32, be16, be32, u16-be16, u32-be32}
use pnos_sdk.Base.Tables.{every_under, every_under-at}
use pnos_sdk.Address.{v4}
use pnos_sdk.Stun.{u16_at}
use pnos_sdk.PortControl.{Exchange, ok, Client, u32_at}
use pnos_sdk.PortControl.NatPmp
use pnos_sdk.PortControl.Pcp
use pnos_sdk.PortControl.Pcp.{zeros}

-- What a client asks for.
pub record Request : Type 0 where
  pub protocol : ℕ
  pub internal_port : ℕ
  pub external_port : ℕ
  pub lifetime : ℕ

-- What a gateway decides on; the address is used by PCP only.
pub record Grant : Type 0 where
  pub code : ℕ
  pub epoch : ℕ
  pub internal_port : ℕ
  pub external_port : ℕ
  pub lifetime : ℕ
  pub a : ℕ
  pub b : ℕ
  pub c : ℕ
  pub d : ℕ

-- The fields fit into their bytes.
pub record IsGrant (g : Grant) : Type 0 where
  pub code_fits : IsU16 g.code
  pub epoch_fits : IsU32 g.epoch
  pub internal_fits : IsU16 g.internal_port
  pub external_fits : IsU16 g.external_port
  pub lifetime_fits : IsU32 g.lifetime

-- The response of RFC 6886, section 3.3.
abbrev nat_pmp_response : ℕ → Grant → List ℕ
nat_pmp_response opcode g =
    0
    ∷ (128 + opcode)
    ∷ (be16 g.code
        ++ (be32 g.epoch ++ (be16 g.internal_port ++ (be16 g.external_port ++ be32 g.lifetime))))

-- A NAT-PMP gateway: it reads requests of twelve bytes of version 0.
unfoldable pub nat_pmp_gateway : (Request → Grant) → Exchange
nat_pmp_gateway decide server timeout request =
    if length request == 12 && get_or request 0 0 == 0
    then some (
        nat_pmp_response (get_or request 1 0) (
          decide (record {
            protocol = get_or request 1 0;
            internal_port = u16_at request 4;
            external_port = u16_at request 6;
            lifetime = u32_at request 8;
          })))
    else none

high_bit : ℕ → Bool
high_bit p = bit_or 0x80 p == 128 + p

high_bit-table : every_under high_bit 128 ≡ true
unfolding every_under high_bit
high_bit-table = refl

-- The flag of a response, set in an opcode below it.
bit_or-high : (p : ℕ) → p < 128 → bit_or 0x80 p ≡ 128 + p
unfolding high_bit
bit_or-high p h = (==_iff _ _).0 (every_under-at high_bit 128 p h high_bit-table)

==-refl : (n : ℕ) → (n == n) ≡ true
==-refl n = (==_iff n n).1 refl

map_port-nat_pmp_gateway :
    (decide : Request → Grant) (client : Client) (protocol internal external lifetime : ℕ)
    → protocol < 128
    → IsU16 internal
    → IsU16 external
    → IsU32 lifetime
    → ((request : Request) → IsGrant (decide request))
    → let g = decide (record {
      protocol = protocol;
      internal_port = internal;
      external_port = external;
      lifetime = lifetime;
    }) in
      NatPmp.map_port (nat_pmp_gateway decide) client protocol internal external lifetime
      ≡ ok (record {
        result_code = NatPmp.from_u16 g.code;
        epoch_time = g.epoch;
        internal_port = g.internal_port;
        mapped_external_port = g.external_port;
        mapping_lifetime = g.lifetime;
      })
unfolding NatPmp.map_port NatPmp.map_request NatPmp.parse_map nat_pmp_gateway
map_port-nat_pmp_gateway decide client protocol internal external lifetime small hi he hl fits =
    let g = decide (record {
      protocol = protocol;
      internal_port = internal;
      external_port = external;
      lifetime = lifetime;
    }) in
    let w = fits (record {
      protocol = protocol;
      internal_port = internal;
      external_port = external;
      lifetime = lifetime;
    }) in
    rw
      (
        u16-be16 internal hi,
        u16-be16 external he,
        u32-be32 lifetime hl,
        bit_or-high protocol small,
        ==-refl (128 + protocol),
        u16-be16 g.code w.code_fits,
        u32-be32 g.epoch w.epoch_fits,
        u16-be16 g.internal_port w.internal_fits,
        u16-be16 g.external_port w.external_fits,
        u32-be32 g.lifetime w.lifetime_fits,
      )
      refl

-- The response of RFC 6887, section 11.1: version, opcode, a reserved byte, the result code, the
-- lifetime, the epoch, twelve reserved bytes, and the data of the mapping.
abbrev pcp_response : List ℕ → ℕ → Grant → List ℕ
pcp_response nonce protocol g =
    2
    ∷ 0x81
    ∷ 0
    ∷ g.code
    ∷ (be32 g.lifetime
        ++ (be32 g.epoch
            ++ (zeros 12
                ++ (nonce
                    ++ protocol
                      ∷ 0
                      ∷ 0
                      ∷ 0
                      ∷ (be16 g.internal_port
                          ++ (be16 g.external_port
                              ++ (zeros 10 ++ 0xff ∷ 0xff ∷ g.a ∷ g.b ∷ g.c ∷ g.d ∷ [])))))))

-- A PCP gateway: it reads requests of sixty bytes of version 2 for a mapping.
unfoldable pub pcp_gateway : (Request → Grant) → Exchange
pcp_gateway decide server timeout request =
    if length request == 60 && get_or request 0 0 == 2 && get_or request 1 0 == 1
    then some (
        pcp_response (slice 24 36 request) (get_or request 36 0) (
          decide (record {
            protocol = get_or request 36 0;
            internal_port = u16_at request 40;
            external_port = u16_at request 42;
            lifetime = u32_at request 4;
          })))
    else none

from_u32-is_success : (n : ℕ) → Pcp.is_success (Pcp.from_u32 n) ≡ (n == 0)
unfolding Pcp.is_success Pcp.from_u32
from_u32-is_success n = ground arith

map_port-pcp_gateway :
    (decide : Request → Grant) (now : ℕ) (client : Client) (protocol internal external lifetime : ℕ)
    → IsU16 internal
    → IsU16 external
    → IsU32 lifetime
    → ((request : Request) → IsGrant (decide request))
    → let g = decide (record {
      protocol = protocol;
      internal_port = internal;
      external_port = external;
      lifetime = lifetime;
    }) in
      (Pcp.map_port (pcp_gateway decide) now client protocol internal external lifetime
        ≡ ok (record {
          result_code = Pcp.from_u32 g.lifetime;
          lifetime = g.epoch;
          epoch_time = 0;
          protocol = protocol;
          internal_port = g.internal_port;
          mapped_external_port = g.external_port;
          mapped_external_ip = some (v4 g.a g.b g.c g.d);
        }))
      × (Pcp.is_success (Pcp.from_u32 g.lifetime) ≡ (g.lifetime == 0))
unfolding Pcp.map_port Pcp.map_request Pcp.build_header Pcp.random_nonce Pcp.parse_map_response
    Pcp.parse_generic_response Pcp.mapped_ip pcp_gateway
map_port-pcp_gateway decide now client protocol internal external lifetime hi he hl fits =
    let g = decide (record {
      protocol = protocol;
      internal_port = internal;
      external_port = external;
      lifetime = lifetime;
    }) in
    let w = fits (record {
      protocol = protocol;
      internal_port = internal;
      external_port = external;
      lifetime = lifetime;
    }) in
    (
      rw
          (
            u16-be16 internal hi,
            u16-be16 external he,
            u32-be32 lifetime hl,
            u32-be32 g.epoch w.epoch_fits,
            u16-be16 g.internal_port w.internal_fits,
            u16-be16 g.external_port w.external_fits,
            u32-be32 g.lifetime w.lifetime_fits,
          )
          refl,
      from_u32-is_success g.lifetime,
    )

-- A gateway gets the protocol, the ports and the lifetime that the caller of either client asks for. The
-- caller of the NAT-PMP client gets what the gateway decided on. The caller of the PCP client gets the
-- ports and the IPv4 address that it decided on; but as the result code it gets the granted lifetime, as
-- the lifetime the epoch, and as the epoch always 0: the answer counts as a success exactly if the
-- granted lifetime is 0, whatever the result code. The protocol is below 128, and all numbers fit into
-- their bytes.
pub map_port-gateway :
    (decide : Request → Grant) (now : ℕ) (client : Client) (protocol internal external lifetime : ℕ)
    → protocol < 128
    → IsU16 internal
    → IsU16 external
    → IsU32 lifetime
    → ((request : Request) → IsGrant (decide request))
    → let g = decide (record {
      protocol = protocol;
      internal_port = internal;
      external_port = external;
      lifetime = lifetime;
    }) in
      (NatPmp.map_port (nat_pmp_gateway decide) client protocol internal external lifetime
        ≡ ok (record {
          result_code = NatPmp.from_u16 g.code;
          epoch_time = g.epoch;
          internal_port = g.internal_port;
          mapped_external_port = g.external_port;
          mapping_lifetime = g.lifetime;
        }))
      × (Pcp.map_port (pcp_gateway decide) now client protocol internal external lifetime
          ≡ ok (record {
            result_code = Pcp.from_u32 g.lifetime;
            lifetime = g.epoch;
            epoch_time = 0;
            protocol = protocol;
            internal_port = g.internal_port;
            mapped_external_port = g.external_port;
            mapped_external_ip = some (v4 g.a g.b g.c g.d);
          }))
      × (Pcp.is_success (Pcp.from_u32 g.lifetime) ≡ (g.lifetime == 0))
map_port-gateway decide now client protocol internal external lifetime small hi he hl fits =
    let (answer, success) =
      map_port-pcp_gateway decide now client protocol internal external lifetime hi he hl fits in
    (
      map_port-nat_pmp_gateway decide client protocol internal external lifetime small hi he hl
          fits,
      answer,
      success,
    )
