-- ===== src/PortControl/Runs.antt =====
-- The port control clients at concrete inputs.
use pnos_sdk.Base.{◌≡◌, refl, ◌==◌, some, arith}
use pnos_sdk.Address.{v4}
use pnos_sdk.PortControl.{Client, ok}
use pnos_sdk.PortControl.NatPmp
use pnos_sdk.PortControl.Pcp
use pnos_sdk.PortControl.Servers.{
  Request, Grant, IsGrant, nat_pmp_gateway, pcp_gateway, map_port-gateway,
}

abbrev client : Client
client = record { gateway = v4 192 168 1 1; timeout = 2000 }

-- The gateway grants an hour on port 40000.
abbrev an_hour : Request → Grant
an_hour request = record {
  code = 0;
  epoch = 86400;
  internal_port = 6885;
  external_port = 40000;
  lifetime = 3600;
  a = 203;
  b = 0;
  c = 113;
  d = 9;
}

an_hour-IsGrant : (request : Request) → IsGrant (an_hour request)
an_hour-IsGrant request = record {
  code_fits = omega arith;
  epoch_fits = omega arith;
  internal_fits = omega arith;
  external_fits = omega arith;
  lifetime_fits = omega arith;
}

map_port-gateway_example :
    (NatPmp.map_port (nat_pmp_gateway an_hour) client 17 6885 0 3600
      ≡ ok (record {
        result_code = NatPmp.from_u16 0;
        epoch_time = 86400;
        internal_port = 6885;
        mapped_external_port = 40000;
        mapping_lifetime = 3600;
      }))
    × (Pcp.map_port (pcp_gateway an_hour) 1700000000 client 17 6885 0 3600
        ≡ ok (record {
          result_code = Pcp.from_u32 3600;
          lifetime = 86400;
          epoch_time = 0;
          protocol = 17;
          internal_port = 6885;
          mapped_external_port = 40000;
          mapped_external_ip = some (v4 203 0 113 9);
        }))
    × (Pcp.is_success (Pcp.from_u32 3600) ≡ (3600 == 0))
map_port-gateway_example =
    map_port-gateway an_hour 1700000000 client 17 6885 0 3600 (omega arith) (omega arith)
      (omega arith) (omega arith) an_hour-IsGrant

probe_nat_pmp : NatPmp.unmap_port (nat_pmp_gateway an_hour) client 2 6885 40000 ≡ ok tt
unfolding NatPmp.unmap_port NatPmp.map_port NatPmp.map_request NatPmp.parse_map NatPmp.is_success
    NatPmp.from_u16 nat_pmp_gateway
probe_nat_pmp = refl
