-- ===== src/Manager/Steady/Closing.antt =====
-- The steps by which a session goes keep the invariant of the session manager.
use pnos_sdk.Base.{
  ℕ, ◌≡◌, sym, ap, ◌∙◌, List, ◌∷◌, ◌++◌, some, some_eq, nat_eq, Option-cases, inl, inr,
  length-append, arith,
}
use pnos_sdk.Base.Dict.{lookup}
use mathlib.Core.Path.{fun_ext, subst}
use pnos_sdk.Stats.{add_closed, sub_active}
use pnos_sdk.Registry.{Session, Direction, SessionRegistry, get_by_peer, put, take_out, len}
use pnos_sdk.Registry
use pnos_sdk.NodeId.{node_eq}
use pnos_sdk.Registry.Removal.{length-values}
use pnos_sdk.Registry.Lookup.{len-take_out}
use pnos_sdk.Manager.{
  DisconnectReason, disconnected, take_down, mark_closed, close_transport, send_event,
  start_shutdown,
}
use pnos_sdk.Manager.Effects.{take_down-some, take_down-none}
use pnos_sdk.Manager.Steps.{System}
use pnos_sdk.Manager.Links.{IsLinked, take-IsLinked, mark-IsLinked, finish-IsLinked, drain-IsLinked}
use pnos_sdk.Manager.Steady.{IsSteady, length-split, flags_mark}

pub take-IsSteady :
    (x : System) (id : ℕ) (t : Session)
    → (take_down id x.manager).0 ≡ some t
    → IsSteady x
    → IsSteady (record x { manager = (take_down id x.manager).1; leaving = t ∷ x.leaving })
unfolding mark_closed take_out
take-IsSteady x id t e (h, c) = elim (Option-cases (lookup id x.manager.registry.by_id)) [
  | inl absent ↦ absurd (ground (arith, take_down-none id x.manager absent))
  | inr (s, found) ↦
      let effect = take_down-some id s x.manager found in
      let same : s ≡ t = some_eq (sym (ap (λ r. r.0) effect) ∙ e) in
      rw (effect, ← same)
        (
          subst
              (λ f.
                IsLinked (take_out id s x.manager.registry) f x.manager.next_id x.entering
                  (s ∷ x.leaving))
              (flags_mark s x.manager) (take-IsLinked h id s found),
          let fewer = len-take_out id s x.manager.registry h.indexed found in
              record {
                accounts = omega (arith, c.accounts, fewer);
                covered = omega (arith, c.covered, fewer);
                active_small = c.active_small;
                counter_small = c.counter_small;
                ids_left = c.ids_left;
              },
        )
]

pub close-IsSteady :
    (x : System) (front back : List Session) (t : Session)
    → x.leaving ≡ front ++ t ∷ back
    → IsSteady x
    → IsSteady (record x {
      manager = close_transport t.id (record x.manager { stats = add_closed x.manager.stats });
      leaving = front ++ back;
      lowering = t ∷ x.lowering;
    })
unfolding close_transport add_closed
close-IsSteady x front back t e (h, c) =
    let fewer = length-split x.leaving front back t e in
    (
      subst (λ f. IsLinked x.manager.registry f x.manager.next_id x.entering (front ++ back))
          (fun_ext λ i. ground arith) (finish-IsLinked h front back t e),
      record {
        accounts = omega (arith, c.accounts, fewer, c.counter_small);
        covered = omega (arith, c.covered, fewer);
        active_small = c.active_small;
        counter_small = c.counter_small;
        ids_left = c.ids_left;
      },
    )

pub lower-IsSteady :
    (x : System) (front back : List Session) (t : Session) (reason : DisconnectReason)
    → x.lowering ≡ front ++ t ∷ back
    → IsSteady x
    → IsSteady (record x {
      manager =
          send_event
            (disconnected t.id t.peer_id reason)
            (record x.manager { stats = sub_active x.manager.stats });
      lowering = front ++ back;
    })
unfolding sub_active
lower-IsSteady x front back t reason e (h, c) =
    let fewer = length-split x.lowering front back t e in
    (
      h,
      record {
        accounts = c.accounts;
        covered = omega (arith, c.covered, fewer);
        active_small = omega (arith, c.active_small);
        counter_small = c.counter_small;
        ids_left = c.ids_left;
      },
    )

pub drain-IsSteady :
    (x : System)
    → IsSteady x
    → IsSteady (record x {
      manager = (start_shutdown x.manager).1;
      leaving = (start_shutdown x.manager).0 ++ x.leaving;
    })
unfolding start_shutdown Registry.drain Registry.all len
drain-IsSteady x (h, c) = (
  drain-IsLinked h,
  let split = length-append (Registry.all x.manager.registry) x.leaving in
      let sessions = length-values x.manager.registry.by_id in
      record {
        accounts = omega (arith, c.accounts, split, sessions);
        covered = omega (arith, c.covered, split, sessions);
        active_small = c.active_small;
        counter_small = c.counter_small;
        ids_left = c.ids_left;
      },
)

pub mark-IsSteady :
    (x : System) (front back : List Session) (t : Session)
    → x.leaving ≡ front ++ t ∷ back
    → IsSteady x
    → IsSteady (record x { manager = mark_closed t.id x.manager })
unfolding mark_closed
mark-IsSteady x front back t e (h, c) = (
  subst (λ f. IsLinked x.manager.registry f x.manager.next_id x.entering x.leaving)
      (flags_mark t x.manager) (mark-IsLinked h front back t e),
  c,
)
