-- ===== src/Strategy/Outcomes.antt =====
-- What a connection of strategy.rs can be, and when there is one.
use pnos_sdk.Base.{
  ℕ, ◌-◌, ◌≡◌, ◌≢◌, ◌⊎◌, inl, inr, refl, ap, Bool, true, false, ◌&&◌, List, [], ◌∷◌, Option, none,
  some, if◌then◌else◌, arith,
}
use pnos_sdk.Address.{SocketAddr}
use pnos_sdk.Manager.Policy.{
  Reachability, hole_punchable, unknown, outbound_only, public_ipv6, mapped,
}
use pnos_sdk.Strategy.{
  Tcp, Puncher, TcpConnection, connect_any, ConnectStrategyConfig, ConnectResult, tcp_direct,
  udp_hole_punch, try_hole_punch, can_hole_punch, punch_any, punch_with, after_direct, connect,
}
use pnos_sdk.Strategy.Direct.{
  OneOf, ToOneOf, IsTo, IsOpen, connect_any-ToOneOf, connect_any-ne-none, connect_one-IsTo,
}

-- A result of the strategy: its address is a given one; it is direct, or it was found by punching after
-- no address could be connected to, where that is switched on and the peer may be reached so.
abbrev pub IsFound :
    Tcp → ConnectStrategyConfig → List SocketAddr → Reachability → ℕ → Option ConnectResult → Type 0
IsFound tcp config addrs reach now none = (connect_any tcp config.tcp_config addrs now).0 ≡ none
IsFound tcp config addrs reach now (some r) =
    OneOf r.connection.connected_addr addrs
    × ((r.method ≡ tcp_direct)
        ⊎ ((r.method ≡ udp_hole_punch)
            × ((connect_any tcp config.tcp_config addrs now).0 ≡ none)
            × (config.hole_punch_enabled ≡ true)
            × (config.fallback_to_hole_punch ≡ true)
            × ((reach ≡ hole_punchable) ⊎ (reach ≡ unknown))))

-- The results of punching alone.
abbrev IsPunched : List SocketAddr → Option ConnectResult → Type 0
IsPunched addrs none = Unit
IsPunched addrs (some r) = OneOf r.connection.connected_addr addrs × (r.method ≡ udp_hole_punch)

punch_any-IsPunched :
    (tcp : Tcp) (punch : Puncher) (start : ℕ) (addrs : List SocketAddr) (now : ℕ)
    → IsPunched addrs (punch_any tcp punch start addrs now)
unfolding punch_any try_hole_punch
punch_any-IsPunched tcp punch start [] now = tt
punch_any-IsPunched tcp punch start (addr ∷ more) now =
    by_punch (try_hole_punch tcp punch addr now) (connect_one-IsTo tcp addr _ _)
      (λ t. punch_any-IsPunched tcp punch start more t)
  where
    later : (o : Option ConnectResult) → IsPunched more o → IsPunched (addr ∷ more) o
    later none h = tt
    later (some r) (m, h) = (inr m, h)

    by_punch :
        (x : Option TcpConnection × ℕ)
        → IsTo addr x.0
        → ((t : ℕ) → IsPunched more (punch_any tcp punch start more t))
        → IsPunched (addr ∷ more) (elim x.0 as (λ o. Option ConnectResult) [
          | some c ↦
              some (record { connection = c; method = udp_hole_punch; total_latency = x.1 - start })
          | none ↦ punch_any tcp punch start more x.1
        ])
    by_punch (some c, ended) h rest = (inl h, refl)
    by_punch (none, ended) h rest = later (punch_any tcp punch start more ended) (rest ended)

can_hole_punch_lem :
    (reach : Reachability)
    → can_hole_punch reach ≡ true
    → (reach ≡ hole_punchable) ⊎ (reach ≡ unknown)
can_hole_punch_lem hole_punchable h = inl refl
can_hole_punch_lem unknown h = inr refl
can_hole_punch_lem outbound_only h = absurd (ground (arith, h))
can_hole_punch_lem public_ipv6 h = absurd (ground (arith, h))
can_hole_punch_lem mapped h = absurd (ground (arith, h))

module _ (tcp : Tcp) (config : ConnectStrategyConfig) (addrs : List SocketAddr)
    (reach : Reachability) (now : ℕ) where
  IsPunched-IsFound :
      (o : Option ConnectResult)
      → IsPunched addrs o
      → (connect_any tcp config.tcp_config addrs now).0 ≡ none
      → config.hole_punch_enabled ≡ true
      → config.fallback_to_hole_punch ≡ true
      → can_hole_punch reach ≡ true
      → IsFound tcp config addrs reach now o
  IsPunched-IsFound none h direct on falls can = direct
  IsPunched-IsFound (some r) (m, h) direct on falls can =
      (m, inr (h, direct, on, falls, can_hole_punch_lem reach can))

  punch_with-IsPunched :
      (puncher : Option Puncher) (ended : ℕ)
      → IsPunched addrs (punch_with tcp puncher now addrs ended)
  punch_with-IsPunched none ended = tt
  punch_with-IsPunched (some punch) ended = punch_any-IsPunched tcp punch now addrs ended

  if-IsFound :
      (b : Bool) (o : Option ConnectResult)
      → (connect_any tcp config.tcp_config addrs now).0 ≡ none
      → (b ≡ true → IsFound tcp config addrs reach now o)
      → IsFound tcp config addrs reach now (if b then o else none)
  if-IsFound true o direct h = h refl
  if-IsFound false o direct h = direct

  after_direct-IsFound :
      (puncher : Option Puncher) (x : Option TcpConnection × ℕ)
      → connect_any tcp config.tcp_config addrs now ≡ x
      → ToOneOf addrs x.0
      → IsFound tcp config addrs reach now (after_direct tcp config puncher addrs reach now x)
  after_direct-IsFound puncher (some c, ended) e h = (h, inl refl)
  after_direct-IsFound puncher (none, ended) e h =
      let direct = ap (λ x. x.0) e in
      if-IsFound (config.fallback_to_hole_punch && config.hole_punch_enabled) _ direct (λ both.
        if-IsFound (can_hole_punch reach) _ direct (λ can.
          IsPunched-IsFound (punch_with tcp puncher now addrs ended)
            (punch_with-IsPunched puncher ended) direct (ground (arith, both))
            (ground (arith, both)) can))

-- A result of the strategy is a connection to one of the given addresses; it is a direct one, or it was
-- opened behind hole punching after no address could be connected to, where punching and falling back to
-- it are switched on and the peer is known as one to punch for, or not known at all. If there is no
-- result, no address could be connected to.
pub connect-IsFound :
    (tcp : Tcp) (config : ConnectStrategyConfig) (puncher : Option Puncher)
    (addrs : List SocketAddr) (reach : Reachability) (now : ℕ)
    → IsFound tcp config addrs reach now (connect tcp config puncher addrs reach now)
unfolding connect
connect-IsFound tcp config puncher [] reach now = unfold connect_any in refl
connect-IsFound tcp config puncher (a ∷ more) reach now =
    after_direct-IsFound tcp config (a ∷ more) reach now puncher
      (connect_any tcp config.tcp_config (a ∷ more) now) refl
      (connect_any-ToOneOf tcp config.tcp_config (a ∷ more) now)

-- If a TCP connection to one of the addresses can be opened whenever it is tried, then the strategy
-- gives a direct connection, whatever the other addresses do.
pub connect-tcp_direct :
    (tcp : Tcp) (config : ConnectStrategyConfig) (puncher : Option Puncher)
    (addrs : List SocketAddr) (reach : Reachability) (now : ℕ) (a : SocketAddr)
    → OneOf a addrs
    → IsOpen tcp config.tcp_config a
    → (r : ConnectResult) × (connect tcp config puncher addrs reach now ≡ some r)
      × (r.method ≡ tcp_direct)
unfolding connect
connect-tcp_direct tcp config puncher [] reach now a member free = elim member [ ]
connect-tcp_direct tcp config puncher (b ∷ more) reach now a member free =
    by_direct (connect_any tcp config.tcp_config (b ∷ more) now)
      (connect_any-ne-none tcp config.tcp_config (b ∷ more) a now member free)
  where
    by_direct :
        (x : Option TcpConnection × ℕ)
        → x.0 ≢ none
        → (r : ConnectResult) × (after_direct tcp config puncher (b ∷ more) reach now x ≡ some r)
          × (r.method ≡ tcp_direct)
    by_direct (some c, ended) h = (_, refl, refl)
    by_direct (none, ended) h = absurd (h refl)
