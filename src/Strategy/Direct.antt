-- ===== src/Strategy/Direct.antt =====
-- The tries over addresses of connector.rs: where a connection leads, and when there is one.
use pnos_sdk.Base.{
  ℕ, zero, suc, ◌+◌, ◌-◌, ◌≡◌, ◌≢◌, ◌⊎◌, inl, inr, refl, sym, ap, ◌∙◌, Bool, true, false, List, [],
  ◌∷◌, Option, none, some, if◌then◌else◌, arith,
}
use pnos_sdk.Address.{SocketAddr}
use pnos_sdk.Strategy.{Tcp, TcpConnectConfig, TcpConnection, tries, connect_any, connect_one}

abbrev pub OneOf : SocketAddr → List SocketAddr → Type 0
OneOf a [] = ⊥
OneOf a (x ∷ xs) = (a ≡ x) ⊎ OneOf a xs

-- The connection, if there is one, is to one of these addresses.
abbrev pub ToOneOf : List SocketAddr → Option TcpConnection → Type 0
ToOneOf addrs none = Unit
ToOneOf addrs (some c) = OneOf c.connected_addr addrs

abbrev pub IsTo : SocketAddr → Option TcpConnection → Type 0
IsTo addr none = Unit
IsTo addr (some c) = c.connected_addr ≡ addr

IsTo-if :
    (addr : SocketAddr) (latency : ℕ) (b : Bool)
    → IsTo addr (if b then some (record { connected_addr = addr; latency = latency }) else none)
IsTo-if addr latency true = refl
IsTo-if addr latency false = tt

tries-IsTo :
    (tcp : Tcp) (config : TcpConnectConfig) (addr : SocketAddr) (left now : ℕ)
    → IsTo addr (tries tcp config addr left now).0
unfolding tries
tries-IsTo tcp config addr zero now = IsTo-if addr _ (tcp addr config.connect_timeout now).0
tries-IsTo tcp config addr (suc left) now =
    by_answer (tcp addr config.connect_timeout now) (λ t. tries-IsTo tcp config addr left t)
  where
    by_answer :
        (x : Bool × ℕ)
        → ((t : ℕ) → IsTo addr (tries tcp config addr left t).0)
        → IsTo addr
            (elim x.0 as (λ b. Option TcpConnection × ℕ) [
              | true ↦ (some (record { connected_addr = addr; latency = x.1 - now }), x.1)
              | false ↦ tries tcp config addr left (x.1 + config.retry_interval)
            ]).0
    by_answer (true, ended) rest = refl
    by_answer (false, ended) rest = rest (ended + config.retry_interval)

-- An address that always accepts is connected to at once.
tries-ne-none :
    (tcp : Tcp) (config : TcpConnectConfig) (addr : SocketAddr) (left now : ℕ)
    → (tcp addr config.connect_timeout now).0 ≡ true
    → (tries tcp config addr left now).0 ≢ none
unfolding tries
tries-ne-none tcp config addr zero now accepted e = ground (arith, rw accepted at e)
tries-ne-none tcp config addr (suc left) now accepted e = some_ne (sym (ap first_of accepted) ∙ e)
  where
    first_of : Bool → Option TcpConnection
    first_of b =
        (elim b as (λ c. Option TcpConnection × ℕ) [
          | true ↦ (
            some (record {
              connected_addr = addr;
              latency = (tcp addr config.connect_timeout now).1 - now;
            }),
            (tcp addr config.connect_timeout now).1,
          )
          | false ↦
              tries tcp config addr left
                ((tcp addr config.connect_timeout now).1 + config.retry_interval)
        ]).0

    some_ne : {c : TcpConnection} → some c ≢ none
    some_ne e = cc

pub connect_any-ToOneOf :
    (tcp : Tcp) (config : TcpConnectConfig) (addrs : List SocketAddr) (now : ℕ)
    → ToOneOf addrs (connect_any tcp config addrs now).0
unfolding connect_any
connect_any-ToOneOf tcp config [] now = tt
connect_any-ToOneOf tcp config (addr ∷ more) now =
    by_tries (tries tcp config addr config.max_retries now)
      (tries-IsTo tcp config addr config.max_retries now)
      (λ t. connect_any-ToOneOf tcp config more t)
  where
    later : (o : Option TcpConnection) → ToOneOf more o → ToOneOf (addr ∷ more) o
    later none h = tt
    later (some c) h = inr h

    by_tries :
        (x : Option TcpConnection × ℕ)
        → IsTo addr x.0
        → ((t : ℕ) → ToOneOf more (connect_any tcp config more t).0)
        → ToOneOf
            (addr ∷ more)
            (elim x.0 as (λ o. Option TcpConnection × ℕ) [
              | some c ↦ (some c, x.1)
              | none ↦ connect_any tcp config more x.1
            ]).0
    by_tries (some c, ended) h rest = inl h
    by_tries (none, ended) h rest = later (connect_any tcp config more ended).0 (rest ended)

-- An address to which a TCP connection can be opened at any time.
abbrev pub IsOpen : Tcp → TcpConnectConfig → SocketAddr → Type 0
IsOpen tcp config a = (t : ℕ) → (tcp a config.connect_timeout t).0 ≡ true

pub connect_any-ne-none :
    (tcp : Tcp) (config : TcpConnectConfig) (addrs : List SocketAddr) (a : SocketAddr) (now : ℕ)
    → OneOf a addrs
    → IsOpen tcp config a
    → (connect_any tcp config addrs now).0 ≢ none
unfolding connect_any
connect_any-ne-none tcp config [] a now member free = elim member [ ]
connect_any-ne-none tcp config (addr ∷ more) a now member free =
    by_tries (tries tcp config addr config.max_retries now) refl
      (λ t h. connect_any-ne-none tcp config more a t h free) member
  where
    by_tries :
        (x : Option TcpConnection × ℕ)
        → tries tcp config addr config.max_retries now ≡ x
        → ((t : ℕ) → OneOf a more → (connect_any tcp config more t).0 ≢ none)
        → OneOf a (addr ∷ more)
        → (elim x.0 as (λ o. Option TcpConnection × ℕ) [
          | some c ↦ (some c, x.1)
          | none ↦ connect_any tcp config more x.1
        ]).0
          ≢ none
    by_tries (some c, ended) e rest m = λ h. cc
    by_tries (none, ended) e rest (inr m) = rest ended m
    by_tries (none, ended) e rest (inl same) = absurd (
        tries-ne-none tcp config addr config.max_retries now
          (ap (λ x. (tcp x config.connect_timeout now).0) (sym same) ∙ free now) (ap (λ x. x.0) e))

pub connect_one-IsTo :
    (tcp : Tcp) (addr : SocketAddr) (timeout now : ℕ)
    → IsTo addr (connect_one tcp addr timeout now).0
unfolding connect_one
connect_one-IsTo tcp addr timeout now = IsTo-if addr _ (tcp addr timeout now).0
