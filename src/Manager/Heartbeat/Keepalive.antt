-- ===== src/Manager/Heartbeat/Keepalive.antt =====
-- What traffic and heartbeats do to the manager: they are steps that touch no session but by a
-- disconnect, and the frames of the heartbeat stay inside.
use pnos_sdk.Base.{
  ap, List, not, suc, ◌&&◌, ℕ, ◌≡◌, refl, ◌∙◌, Bool, true, false, ◌||◌, [], ◌∷◌, ◌++◌, Option, none,
  some, ltb, if◌then◌else◌, nat_eq, arith, Bool-cases, inl, inr,
}
use pnos_sdk.Base.Dict.{lookup}
use pnos_sdk.NodeId.{NodeId}
use pnos_sdk.Frame.{Frame}
use pnos_sdk.Registry
use pnos_sdk.Registry.{Session, get_by_id, get_by_peer}
use pnos_sdk.Manager.{
  Manager, io, probe_timeout, idle_timeout, frame_received, touch_send, touch_recv, set_rtt_ms,
  idle_ms, since_send_ms,
}
use pnos_sdk.Manager.Steps.{System, IsQuiet, quiet, Reach, here, next}
use pnos_sdk.Manager.Tasks.{disconnect-Reach}
use pnos_sdk.Manager.Heartbeat.{
  is_excluded, broadcast_to, broadcast, mark_probe, take_probe, is_kind, measured, answer_kind,
  answered, handle_keepalive, frame_in, Probe, probe_sent, probe_failed, probe_elapsed, after_probe,
  tick_session, SendOutcome, delivered, not_encoded, broken, send_over, send, send_to,
}

IsQuiet-refl : (m : Manager) → IsQuiet m m
IsQuiet-refl m = record {
  same_registry = refl;
  same_established = refl;
  same_closed = refl;
  same_active = refl;
  same_next_id = refl;
  same_flags = λ i. refl;
}

touch_send-IsQuiet : (id now : ℕ) (m : Manager) → IsQuiet m (touch_send id now m)
unfolding touch_send
touch_send-IsQuiet id now m = record {
  same_registry = refl;
  same_established = refl;
  same_closed = refl;
  same_active = refl;
  same_next_id = refl;
  same_flags = λ i. ground arith;
}

after_probe-Reach :
    (x : System) (s : Session) (outcome : Probe) (now : ℕ)
    → Reach x (record x { manager = after_probe s outcome now x.manager })
unfolding after_probe mark_probe touch_send
after_probe-Reach x s probe_sent now = next here (
    quiet x _ (record {
      same_registry = refl;
      same_established = refl;
      same_closed = refl;
      same_active = refl;
      same_next_id = refl;
      same_flags = λ i. ground arith;
    }))
after_probe-Reach x s (probe_failed cause) now = disconnect-Reach x s.id (io cause)
after_probe-Reach x s probe_elapsed now = disconnect-Reach x s.id (io probe_timeout)

if-Reach :
    (x : System) (b : Bool) (m m' : Manager)
    → Reach x (record x { manager = m })
    → Reach x (record x { manager = m' })
    → Reach x (record x { manager = if b then m else m' })
if-Reach x true m m' p q = p
if-Reach x false m m' p q = q

tick_session-Reach :
    (x : System) (s : Session) (outcome : Probe × ℕ) (now : ℕ)
    → Reach x (record x { manager = tick_session s outcome now x.manager })
unfolding tick_session
tick_session-Reach x s outcome now =
    if-Reach x (ltb x.manager.cfg.idle_timeout_ms (idle_ms s.id now x.manager)) _ _
      (disconnect-Reach x s.id idle_timeout) (probing x.manager.cfg.heartbeat_kind)
  where
    probing :
        (kind : Option ℕ)
        → Reach x (record x {
          manager = elim kind [
            | none ↦ x.manager
            | some k ↦
                if ltb (since_send_ms s.id now x.manager) x.manager.cfg.heartbeat_interval
                then x.manager
                else after_probe s outcome.0 outcome.1 x.manager
          ];
        })
    probing none = here
    probing (some k) =
        if-Reach x (ltb (since_send_ms s.id now x.manager) x.manager.cfg.heartbeat_interval) _ _
          here (after_probe-Reach x s outcome.0 outcome.1)

send_over-Reach :
    (x : System) (o : Option Session) (outcome : SendOutcome) (now : ℕ)
    → Reach x (record x { manager = (send_over o outcome now x.manager).1 })
send_over-Reach x none outcome now = here
send_over-Reach x (some s) delivered now =
    next here (quiet x _ (touch_send-IsQuiet s.id now x.manager))
send_over-Reach x (some s) not_encoded now = here
send_over-Reach x (some s) (broken cause) now = disconnect-Reach x s.id (io cause)

-- The upkeep of a session by `tick` and the sends are runs of the steps of the manager, whatever the
-- outcome of their writes.
traffic-Reach :
    (x : System) (s : Session) (outcome : Probe × ℕ) (id : ℕ) (peer : NodeId)
    (written : SendOutcome) (now : ℕ)
    → Reach x (record x { manager = tick_session s outcome now x.manager })
      × Reach x (record x { manager = (send id written now x.manager).1 })
      × Reach x (record x { manager = (send_to peer written now x.manager).1 })
unfolding send send_to
traffic-Reach x s outcome id peer written now = (
  tick_session-Reach x s outcome now,
  send_over-Reach x (get_by_id id x.manager.registry) written now,
  send_over-Reach x (get_by_peer peer x.manager.registry) written now,
)

measured-events :
    (id now : ℕ) (o : Option ℕ) (m : Manager) → (measured id now (o, m)).events ≡ m.events
unfolding set_rtt_ms
measured-events id now none m = refl
measured-events id now (some before) m = refl

answered-events :
    (id now : ℕ) (written : Bool) (o : Option ℕ) (m : Manager)
    → (answered id now written o m).events ≡ m.events
unfolding touch_send
answered-events id now written none m = refl
answered-events id now true (some reply) m = refl
answered-events id now false (some reply) m = refl

-- A frame of the kind of a probe or of its answer.
abbrev pub is_heartbeat : Frame → Manager → Bool
is_heartbeat frame m =
    is_kind frame.kind m.cfg.heartbeat_kind || is_kind frame.kind m.cfg.heartbeat_reply_kind

consumed-events :
    (s : Session) (frame : Frame) (written : Bool) (now : ℕ) (m : Manager)
    → (answered s.id now written
        (answer_kind frame m)
        (measured s.id now (take_probe s.id m))).events
      ≡ m.events
unfolding take_probe
consumed-events s frame written now m =
    answered-events s.id now written (answer_kind frame m) _
    ∙ measured-events s.id now (lookup s.id m.probe_sent_ms) _

-- The frames of the heartbeat, and no others, stay inside: any other frame that arrives is sent on as
-- an event, with its session and its peer, and a frame of the heartbeat causes no event.
frame_in-events :
    (s : Session) (frame : Frame) (written : Bool) (now : ℕ) (m : Manager)
    → (frame_in s frame written now m).events ≡ (
        if is_heartbeat frame m
        then m.events
        else m.events ++ frame_received s.id s.peer_id frame ∷ [])
unfolding frame_in handle_keepalive touch_recv
frame_in-events s frame written now m = elim (Bool-cases (is_heartbeat frame m)) [
  | inl inside ↦ rw inside (consumed-events s frame written now (touch_recv s.id now m))
  | inr outside ↦ rw outside refl
]

IsQuiet-trans : (m m' m'' : Manager) → IsQuiet m m' → IsQuiet m' m'' → IsQuiet m m''
IsQuiet-trans m m' m'' p q = record {
  same_registry = q.same_registry ∙ p.same_registry;
  same_established = q.same_established ∙ p.same_established;
  same_closed = q.same_closed ∙ p.same_closed;
  same_active = q.same_active ∙ p.same_active;
  same_next_id = q.same_next_id ∙ p.same_next_id;
  same_flags = λ i. q.same_flags i ∙ p.same_flags i;
}

-- How many of the sessions are not excluded and have a write that succeeds.
abbrev pub count_reached : (ℕ → Bool) → Option ℕ → List Session → ℕ
count_reached written exclude [] = 0
count_reached written exclude (s ∷ more) =
    let rest = count_reached written exclude more in
    if not (is_excluded exclude s.id) && written s.id then suc rest else rest

broadcast_to-count :
    (written : ℕ → Bool) (exclude : Option ℕ) (now : ℕ) (ss : List Session) (m : Manager)
    → (broadcast_to written exclude now ss m).0 ≡ count_reached written exclude ss
broadcast_to-count written exclude now [] m = refl
broadcast_to-count written exclude now (s ∷ more) m =
    ap (λ n. if not (is_excluded exclude s.id) && written s.id then suc n else n)
      (broadcast_to-count written exclude now more _)

touch_if-IsQuiet :
    (b : Bool) (id now : ℕ) (m : Manager) → IsQuiet m (if b then touch_send id now m else m)
touch_if-IsQuiet true id now m = touch_send-IsQuiet id now m
touch_if-IsQuiet false id now m = IsQuiet-refl m

broadcast_to-IsQuiet :
    (written : ℕ → Bool) (exclude : Option ℕ) (now : ℕ) (ss : List Session) (m : Manager)
    → IsQuiet m (broadcast_to written exclude now ss m).1
broadcast_to-IsQuiet written exclude now [] m = IsQuiet-refl m
broadcast_to-IsQuiet written exclude now (s ∷ more) m =
    IsQuiet-trans m _ _ (touch_if-IsQuiet _ s.id now m)
      (broadcast_to-IsQuiet written exclude now more _)

-- A broadcast counts the registered sessions that are not excluded and whose write succeeds; whichever
-- writes fail, it closes no session and takes none out of the registry.
pub broadcast-IsQuiet :
    (written : ℕ → Bool) (exclude : Option ℕ) (now : ℕ) (m : Manager)
    → ((broadcast written exclude now m).0
        ≡ count_reached written exclude (Registry.all m.registry))
      × IsQuiet m (broadcast written exclude now m).1
unfolding broadcast
broadcast-IsQuiet written exclude now m = (
  broadcast_to-count written exclude now (Registry.all m.registry) m,
  broadcast_to-IsQuiet written exclude now (Registry.all m.registry) m,
)
