-- ===== src/Address/Runs.antt =====
-- Runs of the address classes and of the choices, and the theorems at concrete inputs.
use pnos_sdk.Base.{◌≡◌, ◌≢◌, ◌↔◌, ◌⊎◌, ◌≤◌, ◌<◌, refl, List, [], ◌∷◌, ◌++◌, some, none, arith}
use pnos_sdk.Address.{
  v4, v6, SocketAddr, NodeEndpoint, lan, public, dht, classify, classify_ip, select_preferred_addrs,
  fallback_addrs, best_endpoint, better,
}
use pnos_sdk.Address.Classes.{classify-lan_iff}
use pnos_sdk.Address.Routes.{IsTiered, preferred_and_fallback}
use pnos_sdk.Address.Endpoints.{IsFirst, best_endpoint-IsFirst}
use mathlib.Core.List.{Perm}

abbrev server : SocketAddr
server = record { ip = v4 203 0 113 5; port = 6885 }

abbrev desk : SocketAddr
desk = record { ip = v4 192 168 1 7; port = 6885 }

abbrev here : SocketAddr
here = record { ip = v4 127 0 0 1; port = 6885 }

abbrev addresses : List SocketAddr
addresses = server ∷ desk ∷ []

prefer_lan : select_preferred_addrs addresses ≡ desk ∷ []
unfolding select_preferred_addrs classify
prefer_lan = refl

prefer_loopback : fallback_addrs (server ∷ here ∷ desk ∷ []) ≡ desk ∷ server ∷ []
unfolding fallback_addrs classify
prefer_loopback = refl

preferred_and_fallback_example :
    Perm (select_preferred_addrs addresses ++ fallback_addrs addresses) addresses
    × IsTiered (select_preferred_addrs addresses) (fallback_addrs addresses)
    × ((addresses ≡ []) ⊎ (select_preferred_addrs addresses ≢ []))
preferred_and_fallback_example = preferred_and_fallback addresses

classify-lan_iff_example :
    (classify_ip (v6 (0xfe80 ∷ 1 ∷ [])) ≡ lan)
    ↔ ((0xfe80 ≤ 0xfe80 × 0xfe80 < 0xfec0) ⊎ (0xfc00 ≤ 0xfe80 × 0xfe80 < 0xfc40))
classify-lan_iff_example = classify-lan_iff 0xfe80 (1 ∷ []) (omega arith)

abbrev endpoint_at : SocketAddr → NodeEndpoint
endpoint_at a = record {
  addr = a;
  kind = public;
  source = dht;
  last_success = 0;
  success_count = 2;
  fail_count = 0;
  latency_ms = some 30;
}

abbrev untested : NodeEndpoint
untested = record (endpoint_at server) { latency_ms = none; success_count = 0 }

-- An endpoint whose latency was never measured comes before one that was measured.
prefer_untested : best_endpoint (endpoint_at server ∷ untested ∷ []) ≡ some untested
unfolding best_endpoint better
prefer_untested = refl

best_endpoint-IsFirst_example :
    IsFirst
      (best_endpoint (endpoint_at server ∷ untested ∷ []))
      (endpoint_at server ∷ untested ∷ [])
best_endpoint-IsFirst_example = best_endpoint-IsFirst (endpoint_at server ∷ untested ∷ [])
