-- ===== src/PortControl.antt =====
-- The port control protocols of crates/pnos-net/src/nat/nat_pmp.rs and pcp.rs: what their clients share.
pub mod NatPmp
pub mod Pcp
pub mod Servers
mod Runs
use pnos_sdk.Base.{ℕ, ◌+◌, List, [], ◌∷◌, Option, none, some, get_or, take}
use pnos_sdk.Base.Bytes.{u32}
use pnos_sdk.Address.{IpAddr, SocketAddr}

-- One request on a fresh UDP socket, with the timeout for its reply; none if the socket fails or no
-- reply comes.
abbrev pub Exchange : Type 0
Exchange = SocketAddr → ℕ → List ℕ → Option (List ℕ)

pub data Failure : Type 0 where
  no_reply : Failure
  too_short wrong_version wrong_opcode : ℕ → Failure
  -- The gateway answers with a result that is not a success.
  not_removed : Failure

pub data Result (A : Type 0) : Type 0 where
  ok : A → Result A
  err : Failure → Result A

-- `NatPmpClient` and `PcpClient`.
pub record Client : Type 0 where
  pub gateway : IpAddr
  pub timeout : ℕ

abbrev pub u32_at : List ℕ → ℕ → ℕ
u32_at buf i =
    u32 (get_or buf i 0) (get_or buf (i + 1) 0) (get_or buf (i + 2) 0) (get_or buf (i + 3) 0)

abbrev pub server_of : Client → SocketAddr
server_of client = record { ip = client.gateway; port = 5351 }

-- What is read of a reply, into a buffer of this size.
abbrev pub received : {A : Type 0} → ℕ → (List ℕ → Result A) → Option (List ℕ) → Result A
received size parse none = err no_reply
received size parse (some reply) = parse (take size reply)
