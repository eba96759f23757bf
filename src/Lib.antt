-- ===== src/Lib.antt =====
-- pnos-sdk, the session layer and the NAT module of crates/pnos-net. Nodes of a peer-to-peer network
-- keep one long-lived connection, a session, to each of their peers. Connections carry frames; a
-- manager dials, accepts, arbitrates between two connections of one pair of nodes, watches over silent
-- peers and counts. For peers beyond a gateway, the NAT module asks STUN servers for the address that
-- they see, and has ports mapped on the gateway.
--
-- The parts, with their files here and in the repository:
-- - Stats: crates/pnos-net/src/session/stats.rs, the shared counters. An operation on two atomics is
--   also given as its two halves, since another thread can run between them.
-- - Frame: session/frame.rs, the codec of frames (length, kind, payload) and the transport that reads
--   and writes them on a byte stream. The stream is the sequence of the outcomes of its reads and
--   writes; nothing is assumed about where it is cut. The receive loop is by recursion on the reads.
-- - NodeId: types.rs, identifiers of twenty bytes, their order and hexadecimal form.
-- - Address: types.rs, classes of addresses, the choice of addresses to dial and to fall back on, the
--   choice of the best endpoint.
-- - Registry: session/registry.rs, the three tables of sessions, by peer, by address and by identifier.
-- - Manager: session/mod.rs and session/session.rs, the state of the manager (`Manager`) and how
--   sessions begin and end: `activate`, `disconnect`, `shutdown`. Its child modules are Cooldown (the
--   table of addresses not to be dialed), Connect (`connect`, and `spawn_inbound` of
--   session/acceptor.rs), Heartbeat (session/heartbeat.rs, the sends, and what the receive loop of
--   session/acceptor.rs does with a frame), Closing (what `disconnect` and `shutdown` do), and Steps,
--   Links, Steady, Invariant, Tasks and Races on interleavings.
-- - Manager.Policy and Manager.Replenish: session/policy.rs and `replenish` of session/heartbeat.rs, which
--   candidates are dialed to keep up the number of sessions.
-- - Strategy: strategy.rs and connector.rs, TCP connections with retries and hole punching.
-- - PeerCache: discovery/peer_cache.rs, the nodes that were known before.
-- - Discovery: discovery/lpd.rs, the announcements of nodes in one local network.
-- - NatMachine: crates/pnos-net/src/nat/state.rs, the states of the NAT module and their history.
-- - Stun: nat/stun.rs, the codec of STUN messages, and what the client concludes on the kind of NAT.
-- - PortMapping: nat/mod.rs, the manager of port mappings by UPnP: `init`, `map_port`, the renewal and
--   the release. PortMapping.Router has the laws of a gateway.
-- - PortControl: nat/nat_pmp.rs and nat/pcp.rs, the clients of two other protocols for port mappings;
--   PortControl.Servers has gateways that follow their RFCs.
-- - Base: what all of them share. Base.Dict is a `HashMap` as an association list.
--
-- How the model stands to the code. State is passed explicitly: an operation takes the state of its
-- component and gives the new one, with its result. Numbers are natural numbers; u64 counters wrap by
-- `% 2 ^ 64`, saturating subtractions are the truncated `-`, and where a theorem needs that nothing
-- wraps it says so. `Option` and `Result` are values; a panic is an outcome of its own. An
-- `Arc<Session>` is named by the identifier of the session, and the atomics of a session stand in a
-- table of the manager by it. The clock is an argument wherever it is read. An error carries its kind
-- and not its text. Logging is left out.
--
-- Concurrency. `Manager.Steps` has a step relation on the manager with the sessions that tasks hold on
-- their way into the registry and out of it. A step is one update that the other tasks see at once;
-- tasks take turns in any order. The registration of a session, each of the two atomics by which it is
-- counted, its removal, and each of the two atomics of its end are steps of their own. Code that touches
-- no counter in between is one step though other threads run beside it, as `disconnect` from its lookup
-- to the closed flag. `Manager.Tasks` and the modules beside it show that the operations are made of
-- these steps. The counters and the NAT machine are also looked at on their own between two writes.
--
-- The code of others is an argument: the dialer and the authenticator, which the user of the library
-- implements, are functions from the time of their call to an outcome and a time. What a write to a
-- stream gives is an argument too. No property of them is assumed. For the NAT module, the reply to a
-- STUN, NAT-PMP or PCP request is a function of the request, the codec of announcements (bincode) is a
-- pair of functions, and the crate igd is a record of functions on a state of the network. What is
-- assumed of igd and of a gateway stands in `IsRouter`, after the documentation of both: a call for local
-- port 0 fails, a port that another host has is refused, any other is mapped, a removal takes out its
-- port, and the entries can be listed.
--
-- Loops are by recursion on the frames, reads, addresses or sessions. Those with a fixed number of
-- rounds (ten candidate ports, two hundred entries of a gateway) count them down. Only the loop over the
-- attributes of a STUN message runs on fuel, the length of the message: a round reads four bytes at
-- least.
--
-- Not modelled: the accept loop, the wake-up of waiting tasks and the event channel of tokio beyond the
-- order of the events; the queries that only read; the detection of the default gateway, the packets of
-- hole punching and the metrics of the NAT module; the other kinds of node discovery, the transports,
-- and the crates pnos-comm and pnos-bench.
pub mod Base
pub mod Stats
pub mod Frame
pub mod NodeId
pub mod Address
pub mod Registry
pub mod Manager
pub mod NatMachine
pub mod Stun
pub mod PortMapping
pub mod PortControl
pub mod PeerCache
pub mod Strategy
pub mod Discovery
