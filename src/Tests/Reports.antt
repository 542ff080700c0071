-- ===== src/Tests/Reports.antt =====
-- A small run: transactions that were logged, their reports, and the shares of three generators.
use creo_bench.Prelude.{ℕ, ◌≡◌, ◌↔◌, some, none, true, List, [], ◌∷◌, drop, arith}
use creo_bench.Load.Time.{scheduled, finish}
use creo_bench.Transaction.{
  TransactionResult, success, dropped, late, FailedCode, TimeoutCode, ResultMetadata,
  DroppedMetadata, new_transaction, into_success, into_failed, into_timeout, response_time,
  service_time, send_time, response-wait-service,
}
use creo_bench.Tracker.{
  ◌⊕◌, new_tracker, IntervalReport, no_statistics, sum_statistics, statistics_of, inflight_count,
}
use creo_bench.Tracker.Totals.{
  Call, logs, dispatches, drains, run, statistics_of_results, run-statistics, inflight_count-run,
}
use creo_bench.Orchestrator.Distribute.{
  distribute_count, distribute_profile, distribute_warmup, LoadStepConfig, WarmupConfig,
}
use creo_bench.Orchestrator.Distribute.Warmup.{IsShared, distribute_warmup-IsShared}
use creo_bench.Orchestrator.Distribute.Shares.{IsFair, distribute_count-IsFair}
use creo_bench.Orchestrator.Distribute.Profile.{
  IsDistribution, deadlines, count_at, distribute_profile-IsDistribution,
}
use creo_bench.Orchestrator.Phases.{new_summary, record_all, is_valid}
use creo_bench.Orchestrator.Phases.{drop_report}
use creo_bench.Orchestrator.Phases.Report.{drop_report-record_all}
use creo_bench.Orchestrator.Phases.Summary.{
  dropped_in, Tallies, record_all-Tallies, is_valid-record_all,
}

abbrev metadata : ResultMetadata
metadata = record {
  spec_id = 1;
  virtual_user_id = 2;
  loadgenerator_id = 3;
  start_time = 1000000;
  send_time = 2000000;
  target_time = 0;
}

abbrev dropped_metadata : DroppedMetadata
dropped_metadata = record {
  virtual_user_id = none;
  loadgenerator_id = 3;
  start_time = 1000000;
  target_time = 0;
}

abbrev succeeded : TransactionResult
succeeded = success metadata 5000000 4000000

abbrev was_late : TransactionResult
was_late = dropped dropped_metadata 12000000 late

response-wait-service_example :
    let t = new_transaction 3 (scheduled 100 50) 0 in
    let timing = finish 157 190 in
    let success_result = into_success t 2 1 timing 190 in
    let failed_result = into_failed t 2 1 timing (FailedCode.status 503) 190 in
    let timeout_result = into_timeout t 2 1 timing (TimeoutCode.error "slow") 190 in
    (response_time success_result ≡ 40)
    × (response_time failed_result ≡ 40)
    × (response_time timeout_result ≡ 40)
    × (service_time success_result ≡ some 33)
    × (service_time failed_result ≡ some 33)
    × (service_time timeout_result ≡ some 33)
    × (send_time success_result ≡ some 57)
    × (send_time failed_result ≡ some 57)
    × (send_time timeout_result ≡ some 57)
response-wait-service_example =
    response-wait-service 3 100 50 0 2 1 7 33 (FailedCode.status 503) (TimeoutCode.error "slow")

abbrev calls : List Call
calls =
    dispatches 3
    ∷ logs succeeded
    ∷ drains
    ∷ logs was_late
    ∷ drains
    ∷ dispatches 1
    ∷ logs succeeded
    ∷ []

run-statistics_example :
    sum_statistics no_statistics (run new_tracker calls).1
      ⊕ statistics_of (run new_tracker calls).0.interval
    ≡ statistics_of_results no_statistics (succeeded ∷ was_late ∷ succeeded ∷ [])
run-statistics_example = run-statistics calls

inflight_count-run_example : inflight_count (run new_tracker calls).0 ≡ 1
inflight_count-run_example = inflight_count-run calls (omega arith) (omega arith)

distribute_count-IsFair_example :
    (counts : List ℕ) × (distribute_count 10 3 ≡ some counts) × IsFair 10 3 counts
distribute_count-IsFair_example =
    distribute_count-IsFair 10 3 (omega arith) (omega arith) (omega arith)

abbrev warmup_config : WarmupConfig
warmup_config = record { rate = 8; duration = 30; pause = 5 }

distribute_warmup-IsShared_example :
    (ws : List WarmupConfig) × (distribute_warmup warmup_config 3 ≡ some ws)
    × IsShared warmup_config 3 ws
distribute_warmup-IsShared_example =
    distribute_warmup-IsShared warmup_config 3 (omega arith) (omega arith) (omega arith)

abbrev profile : List (LoadStepConfig ℕ)
profile = record { deadline = 10; count = 7 } ∷ record { deadline = 20; count = 2 } ∷ []

distribute_profile-IsDistribution_example :
    (result : List (List (LoadStepConfig ℕ))) × (distribute_profile profile 3 ≡ some result)
    × IsDistribution 3 (deadlines profile) (λ j. count_at j profile) result
distribute_profile-IsDistribution_example =
    distribute_profile-IsDistribution profile 3 (omega arith) (omega arith)
      (omega arith, (omega arith, tt))

abbrev report_of : List TransactionResult → IntervalReport
report_of results = record {
  target_time = 0;
  load_level = 10;
  stats = record no_statistics { transaction_results = results };
  final_batch_time = none;
}

abbrev reports : List IntervalReport
reports =
    report_of (was_late ∷ [])
    ∷ report_of []
    ∷ report_of (succeeded ∷ was_late ∷ [])
    ∷ report_of (succeeded ∷ [])
    ∷ []

record_all-Tallies_example :
    Tallies
      (record_all (new_summary 1 1) reports).load
      (record_all (new_summary 1 1) reports).warmup
      3
      1
      1
      1
record_all-Tallies_example = record_all-Tallies 1 1 reports (omega arith)

is_valid-record_all_example :
    (is_valid (record_all (new_summary 1 1) reports) ≡ true) ↔ (dropped_in (drop 2 reports) ≡ 0)
is_valid-record_all_example = is_valid-record_all 1 1 reports (omega arith) (omega arith)

drop_report-record_all_example :
    (drop_report (record_all (new_summary 1 1) reports) ≡ none) ↔ (dropped_in reports ≡ 0)
drop_report-record_all_example = drop_report-record_all 1 1 reports (omega arith) (omega arith)
