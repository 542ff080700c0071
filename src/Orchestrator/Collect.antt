-- ===== src/Orchestrator/Collect.antt =====
-- orchestrator/phases/collect.rs: one round of reports from the load generators. `none` is an
-- index out of range.
pub mod Reporters
pub mod Rounds
pub mod Merged
pub mod Outcomes
use creo_bench.Prelude.{
  ℕ, zero, suc, ◌+◌, ◌%◌, String, Bool, true, false, Option, none, some, List, [], ◌∷◌, ◌++◌, max,
  Result, ok, err, length, get_elem?, ◌==◌, if◌then◌else◌,
}
use creo_bench.Vectors.{swap_remove_head}
use creo_bench.Tracker.{IntervalStatistics, IntervalReport, no_statistics, sum_statistics}
use creo_bench.Orchestrator.Distribute.{u32_modulus}

-- wire/report.rs
pub data GeneratorUpdate : Type 0 where
  interval_report : IntervalReport → GeneratorUpdate
  finished : GeneratorUpdate

-- orchestrator/phases/handle.rs: the receiver is the list of the updates that `recv` gives, up to
-- the disconnection, at which it gives `None`.
pub record GeneratorHandle : Type 0 where
  pub address : String
  pub receiver : List GeneratorUpdate

pub data CollectError : Type 0 where
  instance_crashed : String → CollectError
  time_mismatch : String → ℕ → ℕ → CollectError

-- The loop, with the handles before the index `i` and those from it on; `swap_remove(i)` moves the
-- last of the latter to their head. Each round leaves fewer of
-- the latter, so their number is fuel enough.
unfoldable pub receive_round :
    ℕ
    → List GeneratorHandle
    → List GeneratorHandle
    → List IntervalReport
    → Result (List IntervalReport) CollectError × List GeneratorHandle
receive_round fuel seen [] reports = (ok reports, seen)
receive_round zero seen (h ∷ rest) reports = (ok reports, seen ++ h ∷ rest)
receive_round (suc fuel) seen (h ∷ rest) reports = elim h.receiver [
  | [] ↦ (err (instance_crashed h.address), seen ++ swap_remove_head (h ∷ rest))
  | interval_report r ∷ later ↦
      receive_round fuel (seen ++ record h { receiver = later } ∷ []) rest (reports ++ r ∷ [])
  | finished ∷ later ↦ receive_round fuel seen (swap_remove_head (h ∷ rest)) reports
]

-- In a release build.
unfoldable pub sum_loads : List IntervalReport → ℕ
sum_loads [] = 0
sum_loads (r ∷ rs) = (r.load_level + sum_loads rs) % u32_modulus

unfoldable pub max_time : Option ℕ → Option ℕ → Option ℕ
max_time none t = t
max_time (some s) none = some s
max_time (some s) (some t) = some (max s t)

unfoldable pub max_final_batch_time : List IntervalReport → Option ℕ
max_final_batch_time [] = none
max_final_batch_time (r ∷ rs) = max_time r.final_batch_time (max_final_batch_time rs)

unfoldable pub stats_of : List IntervalReport → List IntervalStatistics
stats_of [] = []
stats_of (r ∷ rs) = r.stats ∷ stats_of rs

-- The first report with another target time, and its index, counted from `i`.
unfoldable pub find_mismatch : ℕ → ℕ → List IntervalReport → Option (ℕ × IntervalReport)
find_mismatch expected i [] = none
find_mismatch expected i (r ∷ rs) =
    let rest = find_mismatch expected (suc i) rs in
    if r.target_time == expected then rest else some (i, r)

-- `collect_reports` behind its loop.
unfoldable pub merge_reports :
    List IntervalReport
    → List GeneratorHandle
    → Option (Result (Option IntervalReport) CollectError)
merge_reports [] handles = some (ok none)
merge_reports (first ∷ others) handles =
    let expected = first.target_time in
    let round_reports = first ∷ others in
    elim (find_mismatch expected 0 round_reports) [
      | some (i, report) ↦ elim (get_elem? handles i) [
        | none ↦ none
        | some h ↦ some (err (time_mismatch h.address expected report.target_time))
      ]
      | none ↦ some (
          ok (
            some (record {
              target_time = expected;
              load_level = sum_loads round_reports;
              stats = sum_statistics no_statistics (stats_of round_reports);
              final_batch_time = max_final_batch_time round_reports;
            })))
    ]

unfoldable pub conclude :
    Result (List IntervalReport) CollectError × List GeneratorHandle
    → Option (Result (Option IntervalReport) CollectError) × List GeneratorHandle
conclude (err e, handles) = (some (err e), handles)
conclude (ok reports, handles) = (merge_reports reports handles, handles)

-- `collect_reports`: the result, and the handles after it.
unfoldable pub collect_reports :
    List GeneratorHandle
    → Option (Result (Option IntervalReport) CollectError) × List GeneratorHandle
collect_reports [] = (some (ok none), [])
collect_reports (h ∷ hs) = conclude (receive_round (length (h ∷ hs)) [] (h ∷ hs) [])
