-- ===== src/Stun/Detection.antt =====
-- What the NAT type detection of stun.rs can tell.
use pnos_sdk.Base.{
  ℕ, ◌≡◌, ◌≢◌, refl, ap, ◌∙◌, false, List, [], ◌∷◌, Option, none, some, Bool-cases, inl, inr, take,
  arith,
}
use pnos_sdk.Address.{v4, SocketAddr, addr_beq, addr_beq_iff}
use pnos_sdk.Stun.{open_internet, random_transaction_id, parse_mapped_address}
use pnos_sdk.Stun.Client.{
  result_of, Server, Reply, Exchange, concluded, mapping, stun_binding_request, first_test,
  compare_mappings, one_test, detect_nat_type, detect_nat_type_multi,
}

-- The requests leave from a socket that is bound to every address of the host: what the operating
-- system then gives as its local address is the unspecified one. No server sees that address.
pub record IsWildcard (exchange : Exchange) : Type 0 where
  pub unspecified :
      (server : Server) (request : List ℕ) (now ended : ℕ) (reply : Reply)
      → exchange server request now ≡ (some reply, ended)
      → reply.local_addr.ip ≡ v4 0 0 0 0
  pub seen :
      (server : Server) (request id : List ℕ) (now ended : ℕ) (reply : Reply) (a : SocketAddr)
      → exchange server request now ≡ (some reply, ended)
      → parse_mapped_address (take 512 reply.bytes) id ≡ some a
      → a.ip ≢ v4 0 0 0 0

-- The mapped address of a pair differs from the local one.
abbrev IsTranslated : Option (SocketAddr × SocketAddr) → Type 0
IsTranslated none = Unit
IsTranslated (some (mapped, local)) = addr_beq mapped local ≡ false

addr_beq-ne : (m l : SocketAddr) → m.ip ≢ l.ip → addr_beq m l ≡ false
addr_beq-ne m l h = elim (Bool-cases (addr_beq m l)) [
  | inl same ↦ absurd (h (ap (λ a. a.ip) ((addr_beq_iff m l).0 same)))
  | inr other ↦ other
]

result_of-IsTranslated :
    (server : Server) (rtt : ℕ) (local : SocketAddr) (o : Option SocketAddr)
    → ((a : SocketAddr) → o ≡ some a → a.ip ≢ local.ip)
    → IsTranslated (mapping (some (result_of server rtt local o)))
result_of-IsTranslated server rtt local none h = tt
result_of-IsTranslated server rtt local (some a) h = addr_beq-ne a local (h a refl)

module _ (exchange : Exchange) (w : IsWildcard exchange) where
  concluded-IsTranslated :
      (server : Server) (request : List ℕ) (now : ℕ) (r : Option Reply × ℕ)
      → exchange server request now ≡ r
      → IsTranslated (mapping (concluded server now r).0)
  concluded-IsTranslated server request now (none, ended) e = tt
  concluded-IsTranslated server request now (some reply, ended) e =
      result_of-IsTranslated server _ reply.local_addr _ (λ a p q.
        w.seen server request (random_transaction_id now) now ended reply a e p
          (q ∙ w.unspecified server request now ended reply e))

  stun_binding_request-IsTranslated :
      (server : Server) (now : ℕ)
      → IsTranslated (mapping (stun_binding_request exchange server now).0)
  unfolding stun_binding_request
  stun_binding_request-IsTranslated server now = concluded-IsTranslated server _ now _ refl

compare-ne-open :
    (a : SocketAddr) (o : Option (SocketAddr × SocketAddr)) → compare_mappings a o ≢ open_internet
compare-ne-open a none e = cc
compare-ne-open a (some (b, l)) e = ground arith

first_test-ne-open :
    (o p : Option (SocketAddr × SocketAddr)) → IsTranslated o → first_test o p ≢ open_internet
first_test-ne-open none p h e = cc
first_test-ne-open (some (a, l)) p h e = compare-ne-open a p (rw h at e)

one_test-ne-open :
    (o : Option (SocketAddr × SocketAddr)) → IsTranslated o → one_test o ≢ open_internet
one_test-ne-open none h e = cc
one_test-ne-open (some (a, l)) h e = ground (arith, h)

-- With a socket that is bound to every address of the host, the detection never finds a direct
-- connection to the internet, even if there is one: it compares the address that the server saw with
-- the unspecified address.
pub detect_nat_type_multi-ne-open_internet :
    (exchange : Exchange) (servers : List Server) (now : ℕ)
    → IsWildcard exchange
    → detect_nat_type_multi exchange servers now ≢ open_internet
unfolding detect_nat_type_multi detect_nat_type
detect_nat_type_multi-ne-open_internet exchange [] now w e = cc
detect_nat_type_multi-ne-open_internet exchange (s ∷ []) now w e =
    one_test-ne-open _ (stun_binding_request-IsTranslated exchange w s now) e
detect_nat_type_multi-ne-open_internet exchange (a ∷ b ∷ more) now w e =
    first_test-ne-open _ _ (stun_binding_request-IsTranslated exchange w a now) e
