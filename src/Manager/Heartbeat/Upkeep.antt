-- ===== src/Manager/Heartbeat/Upkeep.antt =====
-- What the task of `tick` does for a session, session/heartbeat.rs.
use pnos_sdk.Base.{
  ℕ, ◌-◌, ◌≤◌, ◌<◌, ◌≡◌, refl, sym, ap, ◌∙◌, Bool, Bool-cases, Option-cases, true, false, Option,
  none, some, ltb, ltb→lt, if◌then◌else◌, nat_eq, ◌⊎◌, inl, inr, arith,
}
use mathlib.Core.Path.{subst}
use pnos_sdk.Base.Dict.{lookup, lookup-insert_self}
use pnos_sdk.Registry.{Session}
use pnos_sdk.Registry.Invariant.{IsIndexed}
use pnos_sdk.Manager.{
  Manager, io, probe_timeout, idle_timeout, touch_send, idle_ms, since_send_ms, disconnect,
}
use pnos_sdk.Manager.Steps.{IsQuiet}
use pnos_sdk.Manager.Closing.{IsClosed, disconnect-IsClosed}
use pnos_sdk.Manager.Heartbeat.{
  mark_probe, Probe, probe_sent, probe_failed, probe_elapsed, after_probe, tick_session,
}

-- Nothing was received for longer than the timeout.
abbrev pub IsIdle : Session → ℕ → Manager → Type 0
IsIdle s now m = m.cfg.idle_timeout_ms < now - (m.vars s.id).last_recv_ms

-- There is a kind for probes, and nothing was sent for an interval.
abbrev pub IsDue : Session → ℕ → Manager → Type 0
IsDue s now m =
    (kind : ℕ) × (m.cfg.heartbeat_kind ≡ some kind)
    × (m.cfg.heartbeat_interval ≤ now - (m.vars s.id).last_send_ms)

-- The probe waits for its answer from now on, and counts as a send.
pub record IsProbed (s : Session) (now : ℕ) (m m' : Manager) : Type 0 where
  pub quiet : IsQuiet m m'
  pub same_events : m'.events ≡ m.events
  pub waiting : lookup s.id m'.probe_sent_ms ≡ some now
  pub sent : (m'.vars s.id).last_send_ms ≡ now

-- What a probe leads to, by how its write ends, and when.
abbrev pub HasProbed : Session → Probe × ℕ → Manager → Manager → Type 0
HasProbed s (probe_sent, now) = IsProbed s now
HasProbed s (probe_failed cause, now) = IsClosed s (io cause)
HasProbed s (probe_elapsed, now) = IsClosed s (io probe_timeout)

sent-IsProbed :
    (s : Session) (now : ℕ) (m : Manager)
    → IsProbed s now m (mark_probe s.id now (touch_send s.id now m))
unfolding mark_probe touch_send
sent-IsProbed s now m = record {
  quiet = record {
    same_registry = refl;
    same_established = refl;
    same_closed = refl;
    same_active = refl;
    same_next_id = refl;
    same_flags = λ i. ground arith;
  };
  same_events = refl;
  waiting = lookup-insert_self s.id now m.probe_sent_ms;
  sent = ground arith;
}

after_probe-HasProbed :
    (s : Session) (outcome : Probe × ℕ) (m : Manager)
    → IsIndexed m.registry
    → lookup s.id m.registry.by_id ≡ some s
    → HasProbed s outcome m (after_probe s outcome.0 outcome.1 m)
unfolding after_probe
after_probe-HasProbed s (probe_sent, now) m h e = sent-IsProbed s now m
after_probe-HasProbed s (probe_failed cause, now) m h e = disconnect-IsClosed s (io cause) m h e
after_probe-HasProbed s (probe_elapsed, now) m h e = disconnect-IsClosed s (io probe_timeout) m h e

tick_session-cases :
    (s : Session) (outcome : Probe × ℕ) (now : ℕ) (m : Manager) (silent : Bool) (kind : Option ℕ)
    (early : Bool)
    → ltb m.cfg.idle_timeout_ms (now - (m.vars s.id).last_recv_ms) ≡ silent
    → m.cfg.heartbeat_kind ≡ kind
    → ltb (now - (m.vars s.id).last_send_ms) m.cfg.heartbeat_interval ≡ early
    → tick_session s outcome now m ≡ (
        if silent then disconnect s.id idle_timeout m else elim kind [
          | none ↦ m
          | some k ↦ if early then m else after_probe s outcome.0 outcome.1 m
        ])
unfolding tick_session idle_ms since_send_ms
tick_session-cases s outcome now m silent kind early e k l =
    let probing = λ (early : Bool) (kind : Option ℕ). elim kind as (λ o. Manager) [
      | none ↦ m
      | some k ↦ if early then m else after_probe s outcome.0 outcome.1 m
    ] in
    let soon = ltb (now - (m.vars s.id).last_send_ms) m.cfg.heartbeat_interval in
    ap (λ b. if b then disconnect s.id idle_timeout m else probing soon m.cfg.heartbeat_kind) e
    ∙ ap (λ o. if silent then disconnect s.id idle_timeout m else probing soon o) k
    ∙ ap (λ b. if silent then disconnect s.id idle_timeout m else probing b kind) l

-- The upkeep of a registered session does exactly this: if nothing was received for longer than the
-- timeout, then the session is closed as idle. Otherwise, if probes have a kind and nothing was sent
-- for an interval, then a probe is sent: if its write succeeds, then it waits for its answer and no
-- session is closed; if it fails or takes too long, then the session is closed with this reason, and no
-- other one. Otherwise nothing changes.
pub tick_session-upkeep :
    (s : Session) (outcome : Probe × ℕ) (now : ℕ) (m : Manager)
    → IsIndexed m.registry
    → lookup s.id m.registry.by_id ≡ some s
    → let m' = tick_session s outcome now m in
      (IsIdle s now m × IsClosed s idle_timeout m m')
      ⊎ (¬ IsIdle s now m × IsDue s now m × HasProbed s outcome m m')
      ⊎ (¬ IsIdle s now m × ¬ IsDue s now m × (m' ≡ m))
tick_session-upkeep s outcome now m h e =
    let silent = ltb m.cfg.idle_timeout_ms (now - (m.vars s.id).last_recv_ms) in
    let early = ltb (now - (m.vars s.id).last_send_ms) m.cfg.heartbeat_interval in
    elim (Bool-cases silent) [
      | inl idle ↦ inl (
        ltb→lt _ _ idle,
        subst (IsClosed s idle_timeout m)
            (sym
              (tick_session-cases s outcome now m true m.cfg.heartbeat_kind early idle refl refl))
            (disconnect-IsClosed s idle_timeout m h e),
      )
      | inr busy ↦ elim (Option-cases m.cfg.heartbeat_kind) [
        | inl no_kind ↦ inr (
            inr (
              λ idle. ground (arith, busy, idle),
              λ due. ground (arith, no_kind, due.1),
              tick_session-cases s outcome now m false none early busy no_kind refl,
            ))
        | inr (kind, known) ↦ elim (Bool-cases early) [
          | inl soon ↦ inr (
              inr (
                λ idle. ground (arith, busy, idle),
                λ due. ground (arith, soon, due.2),
                tick_session-cases s outcome now m false (some kind) true busy known soon,
              ))
          | inr late ↦ inr (
              inl (
                λ idle. ground (arith, busy, idle),
                (kind, known, ground (arith, late)),
                subst (HasProbed s outcome m)
                    (sym
                      (tick_session-cases s outcome now m false (some kind) false busy known late))
                    (after_probe-HasProbed s outcome m h e),
              ))
        ]
      ]
    ]
