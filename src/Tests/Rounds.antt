-- ===== src/Tests/Rounds.antt =====
-- Rounds of reports: a generator that has finished between two that report, a generator that is
-- disconnected, and one that reports another time.
use mathlib.Core.List.{Permᴰ, Mem}
use creo_bench.Prelude.{
  ℕ, ◌≡◌, ◌≢◌, refl, String, inl, inr, some, List, [], ◌∷◌, arith, err, ok, All,
}
use creo_bench.Tracker.{IntervalReport, no_statistics}
use creo_bench.Orchestrator.Collect.{
  GeneratorHandle, interval_report, finished, instance_crashed, time_mismatch, collect_reports,
}
use creo_bench.Orchestrator.Collect.Reporters.{Reporter, handles_after, reporters, Disconnected}
use creo_bench.Orchestrator.Collect.Merged.{AtTime}
use creo_bench.Orchestrator.Collect.Outcomes.{
  IsMerged, collect_reports-IsMerged, collect_reports-time_mismatch,
  collect_reports-instance_crashed,
}

abbrev report_at : ℕ → IntervalReport
report_at t = record {
  target_time = t;
  load_level = 10;
  stats = no_statistics;
  final_batch_time = some t;
}

abbrev handle_with : String → ℕ → GeneratorHandle
handle_with a t = record { address = a; receiver = interval_report (report_at t) ∷ finished ∷ [] }

abbrev finished_handle : GeneratorHandle
finished_handle = record { address = "b"; receiver = finished ∷ [] }

abbrev lost_handle : GeneratorHandle
lost_handle = record { address = "c"; receiver = [] }

abbrev handles : List GeneratorHandle
handles = handle_with "a" 1 ∷ finished_handle ∷ handle_with "c" 1 ∷ handle_with "d" 1 ∷ []

abbrev apart : List GeneratorHandle
apart = finished_handle ∷ handle_with "a" 1 ∷ handle_with "c" 2 ∷ []

collect_reports-IsMerged_example :
    (order : List Reporter) × (merged : IntervalReport) × Permᴰ order (reporters handles)
    × (collect_reports handles ≡ (some (ok (some merged)), handles_after order))
    × IsMerged 1 handles order merged
collect_reports-IsMerged_example =
    collect_reports-IsMerged 1 handles
      (omega arith, (omega arith, (omega arith, (omega arith, tt)))) (omega arith)
      (refl, (refl, (refl, tt)))

not_one_time : (t : ℕ) → ¬ All (AtTime t) (reporters apart)
not_one_time t same = absurd (omega (arith, same.0, same.1.0))

collect_reports-time_mismatch_example :
    (first other : Reporter) × Mem first (reporters apart)
    × Mem other (reporters apart)
    × (other.report.target_time ≢ first.report.target_time)
    × ((collect_reports apart).0
        ≡ some
            (err (time_mismatch other.address first.report.target_time other.report.target_time)))
collect_reports-time_mismatch_example =
    collect_reports-time_mismatch apart (omega arith, (omega arith, (omega arith, tt)))
      (omega arith) not_one_time

collect_reports-instance_crashed_example :
    (b : String) × Disconnected b (handle_with "a" 1 ∷ lost_handle ∷ [])
    × ((collect_reports (handle_with "a" 1 ∷ lost_handle ∷ [])).0 ≡ some (err (instance_crashed b)))
collect_reports-instance_crashed_example =
    collect_reports-instance_crashed "c" (handle_with "a" 1 ∷ lost_handle ∷ [])
      (inr (inl (refl, refl)))
