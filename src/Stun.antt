-- ===== src/Stun.antt =====
-- crates/pnos-net/src/nat/stun.rs: the STUN client. The codec of its messages; what
-- it concludes from replies is in Stun/Client.antt. A text is the list of its bytes.
pub mod Attributes
pub mod Messages
pub mod Client
pub mod Detection
mod Runs
use Prim.Native.Nat.{bit_xor}
use pnos_sdk.Base.{
  ℕ, zero, suc, ◌+◌, ◌-◌, ◌*◌, ◌/◌, ◌%◌, Bool, true, false, ◌&&◌, not, List, [], ◌∷◌, ◌++◌, Option,
  none, some, ltb, leb, ◌==◌, if◌then◌else◌, length, get_or, take, drop, slice, min, list_beq,
}
use pnos_sdk.Base.Bytes.{u16, be16, be32}
use pnos_sdk.Address.{IpAddr, v4, v6, SocketAddr, addr_beq}

abbrev pub stun_magic_cookie : ℕ
stun_magic_cookie = 0x2112A442

abbrev pub stun_binding_request_type : ℕ
stun_binding_request_type = 0x0001

abbrev pub stun_mapped_address : ℕ
stun_mapped_address = 0x0001

abbrev pub stun_xor_mapped_address : ℕ
stun_xor_mapped_address = 0x0020

pub data NatType : Type 0 where
  open_internet full_cone restricted_cone port_restricted_cone symmetric unknown : NatType

unfoldable pub is_favorable : NatType → Bool
is_favorable t = elim t [ open_internet ↦ true | full_cone ↦ true | _ ↦ false ]

-- The eight bytes of a u64.
abbrev pub be64 : ℕ → List ℕ
be64 n = be32 (n / 4294967296) ++ be32 n

-- The nanoseconds of the clock, and four fixed bytes.
unfoldable pub random_transaction_id : ℕ → List ℕ
random_transaction_id now = be64 now ++ 0x12 ∷ 0x34 ∷ 0x56 ∷ 0x78 ∷ []

unfoldable pub build_binding_request : List ℕ → List ℕ
build_binding_request transaction_id =
    be16 stun_binding_request_type ++ be16 0 ++ be32 stun_magic_cookie ++ transaction_id

-- Reads at an index; every index below is checked before against the length.
abbrev pub u16_at : List ℕ → ℕ → ℕ
u16_at buf i = u16 (get_or buf i 0) (get_or buf (i + 1) 0)

-- `Ipv6Addr::from` of sixteen bytes.
abbrev pub segments : List ℕ → List ℕ
segments [] = []
segments (a ∷ []) = []
segments (a ∷ b ∷ more) = u16 a b ∷ segments more

unfoldable pub decode_mapped_address : List ℕ → Option SocketAddr
decode_mapped_address value =
    if ltb (length value) 8
    then none
    else if get_or value 1 0 == 1
    then some (record {
      ip = v4 (get_or value 4 0) (get_or value 5 0) (get_or value 6 0) (get_or value 7 0);
      port = u16_at value 2;
    })
    else if get_or value 1 0 == 2
    then (if ltb (length value) 20
        then none
        else some (record { ip = v6 (segments (slice 4 20 value)); port = u16_at value 2 }))
    else none

abbrev xor_at : List ℕ → List ℕ → ℕ → ℕ
xor_at value magic_cookie i = bit_xor (get_or value (4 + i) 0) (get_or magic_cookie i 0)

unfoldable pub decode_xor_mapped_address : List ℕ → List ℕ → Option SocketAddr
decode_xor_mapped_address value magic_cookie =
    if ltb (length value) 8
    then none
    else if get_or value 1 0 == 1
    then some (record {
      ip =
          v4 (xor_at value magic_cookie 0) (xor_at value magic_cookie 1)
            (xor_at value magic_cookie 2) (xor_at value magic_cookie 3);
      port = bit_xor (u16_at value 2) (stun_magic_cookie / 65536);
    })
    else none

-- The addresses found so far.
pub record Found : Type 0 where
  pub xor_addr : Option SocketAddr
  pub mapped_addr : Option SocketAddr

-- The body of the loop over the attributes, for one attribute.
unfoldable pub note : List ℕ → ℕ → List ℕ → Found → Found
note magic_cookie attr_type value found =
    if attr_type == stun_xor_mapped_address
    then record found { xor_addr = decode_xor_mapped_address value magic_cookie }
    else if attr_type == stun_mapped_address
    then record found { mapped_addr = decode_mapped_address value }
    else found

-- A length, rounded up to a multiple of four.
abbrev pub padded : ℕ → ℕ
padded n = (n + 3) / 4 * 4

-- The loop, by recursion on fuel.
unfoldable pub attributes : ℕ → List ℕ → ℕ → ℕ → Found → Found
attributes zero buf end offset found = found
attributes (suc fuel) buf end offset found =
    let attr_len = u16_at buf (offset + 2) in
    let value_start = offset + 4 in
    let found' =
      note (slice 4 8 buf) (u16_at buf offset) (slice value_start (value_start + attr_len) buf)
        found in
    let rest = attributes fuel buf end (value_start + padded attr_len) found' in
    if ltb end (offset + 4) then found else if ltb end (value_start + attr_len) then found else rest

abbrev or_else : Option SocketAddr → Option SocketAddr → Option SocketAddr
or_else none o = o
or_else (some a) o = some a

abbrev pub address_of : Found → Option SocketAddr
address_of found = or_else found.xor_addr found.mapped_addr

abbrev pub end_of : List ℕ → ℕ
end_of buf = min (20 + u16_at buf 2) (length buf)

-- A round reads four bytes at least, so that the length of the buffer is enough fuel.
unfoldable pub parse_mapped_address : List ℕ → List ℕ → Option SocketAddr
parse_mapped_address buf transaction_id =
    if ltb (length buf) 20
    then none
    else if not (list_beq (slice 8 20 buf) transaction_id)
    then none
    else if not (u16_at buf 0 == 0x0101)
    then none
    else address_of (
        attributes (length buf) buf (end_of buf) 20
          (record { xor_addr = none; mapped_addr = none }))
