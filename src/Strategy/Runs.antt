-- ===== src/Strategy/Runs.antt =====
-- Runs of the connection strategy, and its theorems at concrete inputs.
use pnos_sdk.Base.{◌+◌, ◌≡◌, refl, true, false, [], ◌∷◌, none, some, inl, inr, ltb, if◌then◌else◌}
use pnos_sdk.Address.{v4, SocketAddr, addr_beq}
use pnos_sdk.Manager.Policy.{unknown, outbound_only}
use pnos_sdk.Strategy.{
  Tcp, Puncher, ConnectResult, default_strategy_config, tcp_direct, udp_hole_punch, tries,
  connect_any, connect_one, try_hole_punch, punch_any, connect,
}
use pnos_sdk.Strategy.Outcomes.{IsFound, connect-IsFound, connect-tcp_direct}

abbrev server : SocketAddr
server = record { ip = v4 203 0 113 7; port = 6885 }

abbrev desk : SocketAddr
desk = record { ip = v4 192 168 0 2; port = 6885 }

-- Only the server accepts, at once; other tries run into their timeout.
abbrev one_open : Tcp
one_open addr timeout now =
    if addr_beq addr server then (true, now + 20) else (false, now + timeout)

-- Nothing accepts before the hole is punched, which takes until time 40000.
abbrev late : Tcp
late addr timeout now = elim (ltb 40000 now) [
  | true ↦ (true, now + 20)
  | false ↦ (false, now + timeout)
]

abbrev no_hole : Puncher
no_hole addr now = (false, now + 10000)

connect-IsFound_example :
    IsFound one_open default_strategy_config
      (desk ∷ server ∷ [])
      unknown
      0
      (connect one_open default_strategy_config none (desk ∷ server ∷ []) unknown 0)
connect-IsFound_example =
    connect-IsFound one_open default_strategy_config none (desk ∷ server ∷ []) unknown 0

connect-tcp_direct_example :
    (r : ConnectResult) × (connect one_open default_strategy_config none
        (desk ∷ server ∷ [])
        unknown
        0
      ≡ some r)
    × (r.method ≡ tcp_direct)
connect-tcp_direct_example =
    connect-tcp_direct one_open default_strategy_config none (desk ∷ server ∷ []) unknown 0 server
      (inr (inl refl)) (λ t. refl)

-- The punch fails, and the connection behind it still counts as punched.
punched_late :
    connect late default_strategy_config (some no_hole) (desk ∷ server ∷ []) unknown 0
    ≡ some (record {
      connection = record { connected_addr = server; latency = 20 };
      method = udp_hole_punch;
      total_latency = 53020;
    })
unfolding connect connect_any tries punch_any try_hole_punch connect_one
punched_late = refl

-- For a peer that only dials out nothing is punched.
not_punched : connect late default_strategy_config (some no_hole) (desk ∷ []) outbound_only 0 ≡ none
unfolding connect connect_any tries
not_punched = refl
