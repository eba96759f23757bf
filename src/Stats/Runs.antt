-- ===== src/Stats/Runs.antt =====
-- Runs of the counters of stats.rs, and the theorems at concrete inputs.
use pnos_sdk.Base.{◌+◌, ◌≡◌, refl, true, false, List, [], ◌∷◌, arith}
use pnos_sdk.Stats.{new_stats, add_established, record_established, record_closed, is_consistent}
use pnos_sdk.Stats.Lifecycle.{Change, opening, closing, run_changes, is_consistent-run_changes}

abbrev three_changes : List Change
three_changes = opening ∷ opening ∷ closing ∷ []

is_consistent-run_changes_example :
    let s = run_changes new_stats three_changes in
    (s.closed + s.active ≡ s.established)
    × (is_consistent s ≡ true)
    × (is_consistent (record_established (add_established s)) ≡ false)
is_consistent-run_changes_example =
    is_consistent-run_changes three_changes (omega arith) (omega arith)

two_active : (run_changes new_stats (opening ∷ three_changes)).active ≡ 2
unfolding run_changes new_stats record_established record_closed
two_active = refl
