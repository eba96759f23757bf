-- ===== src/Manager/Steps.antt =====
-- The session manager among concurrent tasks. A step is one update that the other tasks see at once: of
-- the registry, of a counter, or of a session; any task may step next. Between its steps a task holds a
-- session that it has created and not yet registered, that it has registered and not yet counted, or
-- that it has taken out of the registry and whose closing is not yet recorded. The two atomics of
-- `record_established` are two steps, and so are those of `record_closed`.
use pnos_sdk.Base.{
  ℕ, ◌+◌, ◌^◌, ◌<◌, ◌≡◌, Bool, true, false, List, [], ◌∷◌, ◌++◌, length, Option, none, some,
}
use pnos_sdk.Stats.{add_established, add_active, add_closed, sub_active}
use pnos_sdk.NodeId.{NodeId}
use pnos_sdk.Address.{SocketAddr}
use pnos_sdk.Registry
use pnos_sdk.Registry.{Session, Direction, get_by_peer}
use pnos_sdk.Manager.{
  Manager, SessionConfig, connected, disconnected, DisconnectReason, bind, new_session, take_down,
  close_transport, mark_closed, discard, send_event, start_shutdown, update,
}

pub record System : Type 0 where
  pub manager : Manager
  -- Created, and not yet registered or discarded.
  pub entering : ℕ → Bool
  -- Registered, and not yet counted as established.
  pub uncounted : List Session
  -- Counted as established, and not yet as active.
  pub raising : List Session
  -- Taken out of the registry, and not yet counted as closed.
  pub leaving : List Session
  -- Counted as closed, and still counted as active.
  pub lowering : List Session

-- The registry, the lifecycle counters, the identifiers and the closed flags stay as they are: so for
-- the traffic, the heartbeats, the cooldown table and the other counters.
pub record IsQuiet (m m' : Manager) : Type 0 where
  pub same_registry : m'.registry ≡ m.registry
  pub same_established : m'.stats.established ≡ m.stats.established
  pub same_closed : m'.stats.closed ≡ m.stats.closed
  pub same_active : m'.stats.active ≡ m.stats.active
  pub same_next_id : m'.next_id ≡ m.next_id
  pub same_flags : (i : ℕ) → (m'.vars i).closed ≡ (m.vars i).closed

pub data Step : System → System → Type 0 where
  quiet : (x : System) (m' : Manager) → IsQuiet x.manager m' → Step x (record x { manager = m' })
  -- A handshake was done.
  create :
      (x : System) (peer : NodeId) (addr : SocketAddr) (d : Direction) (meta : Option (List ℕ))
      (now : ℕ)
      → x.manager.next_id + 1 < 2 ^ 64
      → Step x (record x {
        manager = (new_session peer addr d meta now x.manager).1;
        entering = update x.entering x.manager.next_id true;
      })
  -- `activate` gives the session up, or `insert` refuses it.
  give_up :
      (x : System) (s existing : Session)
      → x.entering s.id ≡ true
      → Step x (record x {
        manager = discard s existing x.manager;
        entering = update x.entering s.id false;
      })
  -- `insert` takes the session in.
  enter :
      (x : System) (s : Session)
      → x.entering s.id ≡ true
      → get_by_peer s.peer_id x.manager.registry ≡ none
      → x.manager.stats.established + length x.uncounted + 1 < 2 ^ 64
      → Step x (record x {
        manager = record x.manager { registry = (Registry.insert s x.manager.registry).0 };
        entering = update x.entering s.id false;
        uncounted = s ∷ x.uncounted;
      })
  -- The two atomics of `record_established`, and the event.
  count :
      (x : System) (front back : List Session) (s : Session)
      → x.uncounted ≡ front ++ s ∷ back
      → Step x (record x {
        manager = record x.manager { stats = add_established x.manager.stats };
        uncounted = front ++ back;
        raising = s ∷ x.raising;
      })
  raise :
      (x : System) (front back : List Session) (s : Session)
      → x.raising ≡ front ++ s ∷ back
      → Step x (record x {
        manager =
            send_event
              (connected s.id s.peer_id s.addr s.direction)
              (record x.manager { stats = add_active x.manager.stats });
        raising = front ++ back;
      })
  -- `disconnect` up to its wait for the transport.
  take :
      (x : System) (id : ℕ) (t : Session)
      → (take_down id x.manager).0 ≡ some t
      → Step x (record x { manager = (take_down id x.manager).1; leaving = t ∷ x.leaving })
  -- The stream is shut; the two atomics of `record_closed`, and the event.
  close :
      (x : System) (front back : List Session) (t : Session)
      → x.leaving ≡ front ++ t ∷ back
      → Step x (record x {
        manager = close_transport t.id (record x.manager { stats = add_closed x.manager.stats });
        leaving = front ++ back;
        lowering = t ∷ x.lowering;
      })
  lower :
      (x : System) (front back : List Session) (t : Session) (reason : DisconnectReason)
      → x.lowering ≡ front ++ t ∷ back
      → Step x (record x {
        manager =
            send_event
              (disconnected t.id t.peer_id reason)
              (record x.manager { stats = sub_active x.manager.stats });
        lowering = front ++ back;
      })
  -- `shutdown` empties the registry; its loop marks and closes the sessions one by one.
  drain :
      (x : System)
      → Step x (record x {
        manager = (start_shutdown x.manager).1;
        leaving = (start_shutdown x.manager).0 ++ x.leaving;
      })
  mark :
      (x : System) (front back : List Session) (t : Session)
      → x.leaving ≡ front ++ t ∷ back
      → Step x (record x { manager = mark_closed t.id x.manager })

pub data Reach (x : System) : System → Type 0 where
  here : Reach x x
  next : {y z : System} → Reach x y → Step y z → Reach x z

pub Reach_trans : {x y z : System} → Reach x y → Reach y z → Reach x z
Reach_trans r here = r
Reach_trans r (next q s) = next (Reach_trans r q) s

abbrev pub start : NodeId → SessionConfig → System
start local_id cfg = record {
  manager = bind local_id cfg;
  entering = λ i. false;
  uncounted = [];
  raising = [];
  leaving = [];
  lowering = [];
}
