-- ===== src/Stun/Messages.antt =====
-- Whole messages of STUN servers, stun.rs: the client reads the address that the server wrote.
use Prim.Native.Nat.{bit_xor}
use pnos_sdk.Base.{
  ℕ, ◌+◌, ◌/◌, ◌%◌, ◌<◌, ◌≡◌, ◌≢◌, refl, sym, ap, ◌∙◌, Bool, true, false, ◌&&◌, List, [], ◌∷◌, ◌++◌,
  none, some, ltb, le→ltb, ◌==◌, length, take, drop, slice, list_beq, list_beq_iff, arith, All,
  length-append, take-append_length, drop-append_length,
}
use pnos_sdk.Base.Bytes.{IsByte, IsU16, u16, be16, be32}
use pnos_sdk.Base.Tables.{every_under, every_under-at, byte_xor_twice}
use pnos_sdk.Address.{v4, SocketAddr}
use pnos_sdk.Stun.{
  stun_magic_cookie, stun_xor_mapped_address, Found, note, u16_at, attributes,
  decode_xor_mapped_address, address_of, end_of, parse_mapped_address,
}
use pnos_sdk.Stun.Attributes.{Attribute, IsAttribute, wires, notes, attributes-notes}

-- A success response with these attributes.
abbrev pub response : List ℕ → List Attribute → List ℕ
response id list =
    be16 0x0101 ++ (be16 (length (wires list)) ++ (be32 stun_magic_cookie ++ (id ++ wires list)))

abbrev nothing_found : Found
nothing_found = record { xor_addr = none; mapped_addr = none }

-- A message that the guards let through, and that says its own length.
accepted :
    (buf id : List ℕ)
    → ltb (length buf) 20 ≡ false
    → list_beq (slice 8 20 buf) id ≡ true
    → (u16_at buf 0 == 0x0101) ≡ true
    → end_of buf ≡ length buf
    → parse_mapped_address buf id
      ≡ address_of (attributes (length buf) buf (length buf) 20 nothing_found)
unfolding parse_mapped_address
accepted buf id long same success whole = rw (long, same, success, whole) refl

parse_mapped_address-response :
    (id : List ℕ) (list : List Attribute)
    → length id ≡ 12
    → All IsAttribute list
    → IsU16 (length (wires list))
    → parse_mapped_address (response id list) id
      ≡ address_of (notes (be32 stun_magic_cookie) list nothing_found)
parse_mapped_address-response id list size well fits =
    let buf : List ℕ = response id list in
    let total : length buf ≡ 20 + length (wires list) =
      omega (arith, size, length-append id (wires list)) in
    let same_id : slice 8 20 buf ≡ id =
      ap (λ n. take n (id ++ wires list)) (sym size) ∙ take-append_length id (wires list) in
    let behind : drop 20 buf ≡ wires list =
      ap (λ n. drop n (id ++ wires list)) (sym size) ∙ drop-append_length id (wires list) in
    let known : list_beq (slice 8 20 buf) id ≡ true = (list_beq_iff _ id).1 same_id in
    accepted buf id (le→ltb _ _ (omega (arith, total))) known refl (omega (arith, total, fits))
    ∙ ap address_of (
        attributes-notes (length buf) buf list 20 nothing_found well behind total
          (omega (arith, total)))

port_unmasked : ℕ → Bool
port_unmasked p = bit_xor (bit_xor p 0x2112) 0x2112 == p && ltb (bit_xor p 0x2112) 65536

port_unmasked-table : every_under port_unmasked 65536 ≡ true
unfolding every_under port_unmasked
port_unmasked-table = refl

port_unmasked_lem :
    (p : ℕ)
    → port_unmasked p ≡ true
    → (bit_xor (bit_xor p 0x2112) 0x2112 ≡ p) × (bit_xor p 0x2112 < 65536)
unfolding port_unmasked
port_unmasked_lem p h = ground arith

port_xor_twice :
    (p : ℕ) → IsU16 p → (bit_xor (bit_xor p 0x2112) 0x2112 ≡ p) × (bit_xor p 0x2112 < 65536)
port_xor_twice p h =
    port_unmasked_lem p (every_under-at port_unmasked 65536 p (omega arith) port_unmasked-table)

-- XOR-MAPPED-ADDRESS of an IPv4 address, as RFC 5389 has it: every byte is masked with the cookie.
abbrev pub xor_attribute : ℕ → ℕ → ℕ → ℕ → ℕ → Attribute
xor_attribute a b c d port = record {
  kind = stun_xor_mapped_address;
  value =
      0
      ∷ 1
      ∷ (be16 (bit_xor port 0x2112)
          ++ bit_xor a 0x21 ∷ bit_xor b 0x12 ∷ bit_xor c 0xA4 ∷ bit_xor d 0x42 ∷ []);
  padding = [];
}

decode_xor_mapped_address-xor_attribute :
    (a b c d port : ℕ)
    → IsByte a
    → IsByte b
    → IsByte c
    → IsByte d
    → IsU16 port
    → decode_xor_mapped_address (xor_attribute a b c d port).value (be32 stun_magic_cookie)
      ≡ some (record { ip = v4 a b c d; port = port })
unfolding decode_xor_mapped_address
decode_xor_mapped_address-xor_attribute a b c d port ha hb hc hd hp =
    let (p, small) = port_xor_twice port hp in
    let whole : u16 (bit_xor port 0x2112 / 256 % 256) (bit_xor port 0x2112 % 256)
        ≡ bit_xor port 0x2112 =
      omega (arith, small) in
    rw
      (
        whole,
        p,
        (byte_xor_twice a 0x21 ha (omega arith)).0,
        (byte_xor_twice b 0x12 hb (omega arith)).0,
        (byte_xor_twice c 0xA4 hc (omega arith)).0,
        (byte_xor_twice d 0x42 hd (omega arith)).0,
      )
      refl

-- No attribute of this kind.
abbrev pub IsOther : Attribute → Type 0
IsOther a = a.kind ≢ stun_xor_mapped_address

notes-other :
    (cookie : List ℕ) (list : List Attribute) (found : Found)
    → All IsOther list
    → (notes cookie list found).xor_addr ≡ found.xor_addr
unfolding note
notes-other cookie [] found h = refl
notes-other cookie (a ∷ more) found h =
    notes-other cookie more (note cookie a.kind a.value found) h.1 ∙ ground (arith, h.0)

notes-append :
    (cookie : List ℕ) (list more : List Attribute) (found : Found)
    → notes cookie (list ++ more) found ≡ notes cookie more (notes cookie list found)
notes-append cookie [] more found = refl
notes-append cookie (a ∷ list) more found =
    notes-append cookie list more (note cookie a.kind a.value found)

-- The client reads the IPv4 address and the port that a server put into a response to its request as
-- the last XOR-MAPPED-ADDRESS, masked with the cookie, whatever attributes stand before and behind it;
-- each attribute is padded to a multiple of four bytes, and all of them are shorter than 65536 bytes.
pub parse_mapped_address-xor_attribute :
    (id : List ℕ) (before after : List Attribute) (a b c d port : ℕ)
    → length id ≡ 12
    → All IsByte (a ∷ b ∷ c ∷ d ∷ [])
    → IsU16 port
    → All IsOther after
    → All IsAttribute (before ++ xor_attribute a b c d port ∷ after)
    → IsU16 (length (wires (before ++ xor_attribute a b c d port ∷ after)))
    → parse_mapped_address (response id (before ++ xor_attribute a b c d port ∷ after)) id
      ≡ some (record { ip = v4 a b c d; port = port })
parse_mapped_address-xor_attribute id before after a b c d port size bytes fits others well small =
    let cookie : List ℕ = be32 stun_magic_cookie in
    let x : Attribute = xor_attribute a b c d port in
    let s : Found = notes cookie before nothing_found in
    let read : (notes cookie (before ++ x ∷ after) nothing_found).xor_addr
        ≡ some (record { ip = v4 a b c d; port = port }) =
      ap (λ found. found.xor_addr) (notes-append cookie before (x ∷ after) nothing_found)
      ∙ notes-other cookie after (note cookie x.kind x.value s) others
      ∙ (unfold note in
          decode_xor_mapped_address-xor_attribute a b c d port bytes.0 bytes.1.0 bytes.1.1.0
            bytes.1.1.1.0 fits) in
    parse_mapped_address-response id (before ++ x ∷ after) size well small ∙ address_of-xor _ _ read
  where
    address_of-xor :
        (found : Found) (o : SocketAddr) → found.xor_addr ≡ some o → address_of found ≡ some o
    address_of-xor found o e = rw e refl
