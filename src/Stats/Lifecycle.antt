-- ===== src/Stats/Lifecycle.antt =====
-- The lifecycle counters of stats.rs over sequences of openings and closings, and what their
-- self-check sees.
use pnos_sdk.Base.{ℕ, suc, ◌+◌, ◌-◌, ◌^◌, ◌<◌, ◌≤◌, ◌≡◌, true, false, List, [], ◌∷◌, arith, length}
use pnos_sdk.Stats.{
  SessionStats, new_stats, add_established, record_established, record_closed, is_consistent,
}

-- An operation on the lifecycle counters.
pub data Change : Type 0 where
  opening closing : Change

unfoldable pub run_changes : SessionStats → List Change → SessionStats
run_changes s [] = s
run_changes s (opening ∷ cs) = run_changes (record_established s) cs
run_changes s (closing ∷ cs) = run_changes (record_closed s) cs

-- No closing comes without an opening before it; `n` sessions are open at the start.
abbrev pub WellNested : ℕ → List Change → Type 0
WellNested n [] = Unit
WellNested n (opening ∷ cs) = WellNested (suc n) cs
WellNested n (closing ∷ cs) = (0 < n) × WellNested (n - 1) cs

-- What is established is closed or active.
pub record IsExact (s : SessionStats) : Type 0 where
  pub accounts : s.closed + s.active ≡ s.established

run_changes-IsExact :
    (cs : List Change) (s : SessionStats) (n : ℕ)
    → n ≡ s.active
    → WellNested n cs
    → s.established + length cs < 2 ^ 64
    → IsExact s
    → IsExact (run_changes s cs)
unfolding run_changes record_established record_closed
run_changes-IsExact [] s n p w h e = e
run_changes-IsExact (opening ∷ cs) s n p w h e =
    run_changes-IsExact cs (record_established s) (suc n) (omega arith) w (omega arith)
      (omega arith)
run_changes-IsExact (closing ∷ cs) s n p w h e =
    run_changes-IsExact cs (record_closed s) (n - 1) (omega arith) w.1 (omega arith) (omega arith)

IsExact-is_consistent : (s : SessionStats) → IsExact s → is_consistent s ≡ true
unfolding is_consistent
IsExact-is_consistent s e = ground arith

run_changes-established :
    (cs : List Change) (s : SessionStats)
    → s.established + length cs < 2 ^ 64
    → (run_changes s cs).established ≤ s.established + length cs
unfolding run_changes record_established record_closed
run_changes-established [] s h = omega arith
run_changes-established (opening ∷ cs) s h =
    let small : s.established + 1 < 2 ^ 64 = omega (arith, h) in
    let next = run_changes-established cs (record_established s) (omega (arith, h)) in
    omega (arith, next, h)
run_changes-established (closing ∷ cs) s h =
    let next = run_changes-established cs (record_closed s) (omega (arith, h)) in
    omega (arith, next, h)

run_changes_accounts :
    (cs : List Change)
    → WellNested 0 cs
    → length cs < 2 ^ 64
    → let s = run_changes new_stats cs in
      (s.closed + s.active ≡ s.established) × (is_consistent s ≡ true)
unfolding new_stats
run_changes_accounts cs w h =
    let e = run_changes-IsExact cs new_stats 0 (omega arith) w (omega arith) (omega arith) in
    (e.accounts, IsExact-is_consistent _ e)

-- The self-check passes after every closing that it passed before, also when no session is active:
-- it does not see a session that is closed twice. The u64 counter of closings must not wrap.
record_closed-is_consistent :
    (s : SessionStats)
    → s.closed + 1 < 2 ^ 64
    → is_consistent s ≡ true
    → is_consistent (record_closed s) ≡ true
unfolding is_consistent record_closed
record_closed-is_consistent s h c = ground arith

record_established_race :
    (s : SessionStats)
    → IsExact s
    → s.established + 2 < 2 ^ 64
    → is_consistent (record_established (add_established s)) ≡ false
unfolding is_consistent record_established
record_established_race s e h = ground arith

-- From fresh counters, through openings and closings in which no closing comes without an opening of
-- its own, and which two more do not make 2^64, the closed and the active sessions add up to the
-- established ones, and the self-check passes. But if then one thread records an opening in full while
-- another stands between its two updates, the self-check that the first one makes at the end fails,
-- though no session was lost.
pub is_consistent-run_changes :
    (cs : List Change)
    → WellNested 0 cs
    → length cs + 2 < 2 ^ 64
    → let s = run_changes new_stats cs in
      (s.closed + s.active ≡ s.established)
      × (is_consistent s ≡ true)
      × (is_consistent (record_established (add_established s)) ≡ false)
unfolding new_stats
is_consistent-run_changes cs w h =
    let s = run_changes new_stats cs in
    let exact =
      run_changes-IsExact cs new_stats 0 (omega arith) w (omega (arith, h)) (omega (arith, h)) in
    let few : s.established ≤ length cs =
      omega (arith, run_changes-established cs new_stats (omega (arith, h))) in
    let (accounts, consistent) = run_changes_accounts cs w (omega (arith, h)) in
    (accounts, consistent, record_established_race s exact (omega (arith, few, h)))
