-- ===== src/Orchestrator/Phases/Report.antt =====
-- orchestrator/summary.rs: the report of the dropped transactions of a run.
use creo_bench.Prelude.{
  ℕ, zero, suc, ◌+◌, ◌<◌, ◌≡◌, ◌↔◌, none, List, [], ◌∷◌, arith, length, take, drop,
}
use creo_bench.Load.Time.{u64_modulus}
use creo_bench.Tracker.{IntervalReport}
use creo_bench.Orchestrator.Phases.{new_summary, record_all, drop_report}
use creo_bench.Orchestrator.Phases.Summary.{dropped_in, record_all-Tallies}

dropped_in-take-drop :
    (n : ℕ) (reports : List IntervalReport)
    → dropped_in (take n reports) + dropped_in (drop n reports) ≡ dropped_in reports
dropped_in-take-drop zero reports = omega arith
dropped_in-take-drop (suc n) [] = omega arith
dropped_in-take-drop (suc n) (report ∷ reports) = omega (arith, dropped_in-take-drop n reports)

-- For fewer than 2^64 reports of a run with fewer than 2^64 dropped transactions in them: the
-- summary reports no drops if and only if no transaction was dropped, in whichever phase.
pub drop_report-record_all :
    (duration pause_length : ℕ) (reports : List IntervalReport)
    → length reports < u64_modulus
    → dropped_in reports < u64_modulus
    → (drop_report (record_all (new_summary duration pause_length) reports) ≡ none)
      ↔ (dropped_in reports ≡ 0)
unfolding drop_report
drop_report-record_all duration pause_length reports h k =
    let t = record_all-Tallies duration pause_length reports h in
    ground (
      arith,
      t.0.dropped_ones,
      t.1.dropped_ones,
      dropped_in-take-drop (duration + pause_length) reports,
    )
