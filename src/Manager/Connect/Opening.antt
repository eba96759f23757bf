-- ===== src/Manager/Connect/Opening.antt =====
-- `connect` and the task of an inbound connection among the other tasks of the manager.
use pnos_sdk.Base.{
  ℕ, ◌+◌, ◌^◌, ◌<◌, ◌≡◌, refl, Bool, true, false, List, [], ◌∷◌, Option, nat_eq, if◌then◌else◌,
  arith,
}
use pnos_sdk.Stats.{record_inbound_rejected}
use pnos_sdk.NodeId.{NodeId}
use pnos_sdk.Address.{SocketAddr}
use pnos_sdk.Registry.{Session, Direction, outbound, inbound}
use pnos_sdk.Manager.{Manager, new_session, activate, update, RejectReason}
use pnos_sdk.Manager.Cooldown.{mark_cooldown_all}
use pnos_sdk.Manager.Steps.{System, IsQuiet, quiet, create, Reach, here, next, Reach_trans}
use pnos_sdk.Manager.Tasks.{HasCount, activate-Reach}
use pnos_sdk.Manager.Connect.{
  ConnectResult, Dialer, Authenticator, Dialed, stream, dial_failed, Authenticated, identified,
  auth_failed, timed_out, Plan, Decision, decided, dialing, decide, conclude, after_second,
  fall_back, after_first, carry_out, connect, reject_inbound, admit, spawn_inbound,
}
use pnos_sdk.Manager.Connect.Guards.{
  mark_cooldown-IsUneventful, mark_cooldown_all-IsUneventful, decide-IsUneventful,
}

-- The manager gets to this state by steps.
record IsRun (x : System) (m : Manager) : Type 0 where
  after : System
  reached : Reach x after
  same_manager : after.manager ≡ m

-- One more session can be created and counted.
record HasRoom (x : System) : Type 0 where
  ids_left : x.manager.next_id + 1 < 2 ^ 64
  counts_left : HasCount x x.manager

quiet-IsRun : (x : System) (m : Manager) → IsQuiet x.manager m → IsRun x m
quiet-IsRun x m q = record {
  after = record x { manager = m };
  reached = next here (quiet x m q);
  same_manager = refl;
}

idle-IsRun : (x : System) → IsRun x x.manager
idle-IsRun x = record { after = x; reached = here; same_manager = refl }

-- What runs after a quiet part runs with it.
IsRun-later :
    (x : System) (m m' : Manager)
    → IsQuiet x.manager m
    → IsRun (record x { manager = m }) m'
    → IsRun x m'
IsRun-later x m m' q r = record {
  after = r.after;
  reached = Reach_trans (next here (quiet x m q)) r.reached;
  same_manager = r.same_manager;
}

quiet-HasRoom :
    (x : System) (m : Manager)
    → IsQuiet x.manager m
    → HasRoom x
    → HasRoom (record x { manager = m })
quiet-HasRoom x m q h = record {
  ids_left = rw q.same_next_id h.ids_left;
  counts_left = rw q.same_established h.counts_left;
}

if-IsRun :
    (x : System) (b : Bool) (m m' : Manager)
    → IsRun x m
    → IsRun x m'
    → IsRun x (if b then m else m')
if-IsRun x true m m' p q = p
if-IsRun x false m m' p q = q

-- A session is created and activated.
abbrev opened : NodeId → SocketAddr → Direction → Option (List ℕ) → ℕ → Manager → Manager
opened peer addr d meta now m =
    let (s, m1) = new_session peer addr d meta now m in (activate s m1).1

opened-IsRun :
    (x : System) (peer : NodeId) (addr : SocketAddr) (d : Direction) (meta : Option (List ℕ))
    (now : ℕ)
    → HasRoom x
    → IsRun x (opened peer addr d meta now x.manager)
unfolding new_session
opened-IsRun x peer addr d meta now h =
    let y : System = record x {
      manager = (new_session peer addr d meta now x.manager).1;
      entering = update x.entering x.manager.next_id true;
    } in
    let s : Session = (new_session peer addr d meta now x.manager).0 in
    record {
      after = record y {
        manager = (activate s y.manager).1;
        entering = update y.entering s.id false;
      };
      reached =
          Reach_trans (next here (create x peer addr d meta now h.ids_left))
            (activate-Reach y s (ground arith) h.counts_left);
      same_manager = refl;
    }

if_pair-IsRun :
    (x : System) (b : Bool) (u v : ConnectResult × Manager)
    → IsRun x u.1
    → IsRun x v.1
    → IsRun x (if b then u else v).1
if_pair-IsRun x true u v p q = p
if_pair-IsRun x false u v p q = q

conclude-IsRun :
    (x : System) (peer : NodeId) (addr : SocketAddr) (r : Authenticated × ℕ)
    → HasRoom x
    → IsRun x (conclude peer addr r x.manager).1
unfolding conclude
conclude-IsRun x peer addr (auth_failed, now) h =
    quiet-IsRun x _ (mark_cooldown-IsUneventful peer addr now x.manager).quiet
conclude-IsRun x peer addr (timed_out, now) h =
    quiet-IsRun x _ (mark_cooldown-IsUneventful peer addr now x.manager).quiet
conclude-IsRun x peer addr (identified i, now) h =
    if_pair-IsRun x i.verified _ _ (opened-IsRun x i.peer_id addr outbound i.metadata now h)
      (quiet-IsRun x _ (mark_cooldown-IsUneventful i.peer_id addr now x.manager).quiet)

module _ (dial : Dialer) (auth : Authenticator) (peer : NodeId) (plan : Plan) where
  after_second-IsRun :
      (x : System) (r : Dialed × ℕ)
      → HasRoom x
      → IsRun x (after_second auth peer plan r x.manager).1
  unfolding after_second
  after_second-IsRun x (stream o, now) h = conclude-IsRun x peer _ (auth _ now) h
  after_second-IsRun x (dial_failed, now) h =
      quiet-IsRun x _ (mark_cooldown_all-IsUneventful peer plan.fallback now x.manager).quiet

  fall_back-IsRun :
      (x : System) (addrs : List SocketAddr) (now : ℕ)
      → HasRoom x
      → IsRun x (fall_back dial auth peer plan addrs now x.manager).1
  fall_back-IsRun x [] now h = idle-IsRun x
  fall_back-IsRun x (a ∷ more) now h = after_second-IsRun x (dial peer (a ∷ more) now) h

  after_first-IsRun :
      (x : System) (r : Dialed × ℕ)
      → HasRoom x
      → IsRun x (after_first dial auth peer plan r x.manager).1
  unfolding after_first
  after_first-IsRun x (stream o, now) h = conclude-IsRun x peer _ (auth _ now) h
  after_first-IsRun x (dial_failed, now) h =
      let m : Manager = mark_cooldown_all peer plan.preferred now x.manager in
      let q = (mark_cooldown_all-IsUneventful peer plan.preferred now x.manager).quiet in
      IsRun-later x m _ q
        (fall_back-IsRun (record x { manager = m }) plan.fallback now (quiet-HasRoom x m q h))

carry_out-IsRun :
    (dial : Dialer) (auth : Authenticator) (x : System) (peer : NodeId) (now : ℕ) (d : Decision)
    → HasRoom x
    → IsRun x (carry_out dial auth peer now (d, x.manager)).1
carry_out-IsRun dial auth x peer now (decided r) h = idle-IsRun x
carry_out-IsRun dial auth x peer now (dialing plan) h =
    after_first-IsRun dial auth peer plan x (dial peer plan.preferred now) h

connect-IsRun :
    (dial : Dialer) (auth : Authenticator) (x : System) (peer : NodeId) (addrs : List SocketAddr)
    (now : ℕ)
    → HasRoom x
    → IsRun x (connect dial auth peer addrs now x.manager).1
unfolding connect
connect-IsRun dial auth x peer addrs now h =
    let m : Manager = (decide peer addrs now x.manager).1 in
    let q = (decide-IsUneventful peer addrs now x.manager).quiet in
    IsRun-later x m _ q (
      carry_out-IsRun dial auth (record x { manager = m }) peer now
        (decide peer addrs now x.manager).0 (quiet-HasRoom x m q h))

reject_inbound-IsRun :
    (x : System) (addr : SocketAddr) (reason : RejectReason)
    → IsRun x (reject_inbound addr reason x.manager)
unfolding reject_inbound record_inbound_rejected
reject_inbound-IsRun x addr reason = quiet-IsRun x _ (record {
  same_registry = refl;
  same_established = refl;
  same_closed = refl;
  same_active = refl;
  same_next_id = refl;
  same_flags = λ i. refl;
})

admit-IsRun :
    (x : System) (addr : SocketAddr) (r : Authenticated × ℕ)
    → HasRoom x
    → IsRun x (admit addr r x.manager)
unfolding admit
admit-IsRun x addr (auth_failed, now) h = reject_inbound-IsRun x addr _
admit-IsRun x addr (timed_out, now) h = reject_inbound-IsRun x addr _
admit-IsRun x addr (identified i, now) h =
    if-IsRun x i.verified _ _ (opened-IsRun x i.peer_id addr inbound i.metadata now h)
      (reject_inbound-IsRun x addr _)

-- `connect` and the task of an inbound connection, each taken at one go, are runs of the steps of the
-- manager, whatever the dialer and the authenticator do, if one more session can be created and
-- counted.
openings-IsRun :
    (dial : Dialer) (auth : Authenticator) (x : System) (peer : NodeId) (addrs : List SocketAddr)
    (addr : SocketAddr) (now : ℕ)
    → HasRoom x
    → IsRun x (connect dial auth peer addrs now x.manager).1
      × IsRun x (spawn_inbound auth addr now x.manager)
unfolding spawn_inbound
openings-IsRun dial auth x peer addrs addr now h = (
  connect-IsRun dial auth x peer addrs now h,
  if-IsRun x x.manager.shutting_down _ _ (idle-IsRun x)
      (if-IsRun x _ _ _ (reject_inbound-IsRun x addr _) (admit-IsRun x addr (auth addr now) h)),
)
