-- ===== src/Tests/LoadTests.antt =====
-- A load test of one step with two transactions: the first is logged before the step is reported,
-- the second in the wait for the transactions in flight.
use creo_bench.Prelude.{ℕ, ◌≡◌, refl, none, some, List, [], ◌∷◌, ◌++◌, ok}
use creo_bench.Transaction.{TransactionResult, dropped, late}
use creo_bench.Tracker.{
  new_tracker, log_result, log_interval, log_dispatched, count_result, interval_statistics,
  inflight_count,
}
use creo_bench.LoadGenerator.Phases.{
  Activity, dispatches, logs, perform, Turn, DrainTurn, Ready, Link, send_update, send_report,
  run_phase, drain, load_test,
}
use creo_bench.LoadGenerator.Phases.Reports.{
  Ended, recorded, reported, logged_in, turn_activities, load_test-recorded,
}
use creo_bench.LoadGenerator.Phases.Finish.{drain-ends}

abbrev link : Link
link = record { SendError = ℕ; send = λ updates update. none }

abbrev result_at : ℕ → TransactionResult
result_at target =
    dropped
      (record {
        virtual_user_id = none;
        loadgenerator_id = 0;
        start_time = 5;
        target_time = target;
      })
      3 late

abbrev fresh : Ready
fresh = record { tracker = new_tracker; sent = [] }

abbrev turns : List Turn
turns =
    record {
      step_done = record { index = 0; last_dispatch = some 4 };
      until_report = dispatches 2 ∷ logs (result_at 1) ∷ [];
    }
    ∷ []

abbrev drains : List DrainTurn
drains =
    record { elapsed = 1500000000; until_report = logs (result_at 2) ∷ []; while_sent = [] } ∷ []

abbrev end_of : List Activity → List DrainTurn → Ready
end_of before_wait ds = (load_test link (1000000000 ∷ []) (2 ∷ []) turns before_wait ds fresh).1

load_test_ends :
    load_test link (1000000000 ∷ []) (2 ∷ []) turns [] drains fresh ≡ (ok tt, end_of [] drains)
unfolding load_test run_phase drain send_report send_update perform log_result log_interval
    count_result log_dispatched interval_statistics inflight_count
load_test_ends = refl

load_test-recorded_example :
    Ended link
      (recorded fresh ++ logged_in (turn_activities turns ++ []))
      drains
      (ok tt, end_of [] drains)
load_test-recorded_example =
    load_test-recorded link (1000000000 ∷ []) (2 ∷ []) turns [] drains fresh (end_of [] drains)
      load_test_ends

-- The second result comes behind the last report and before the wait: it is in no report.
unreported : reported (end_of (logs (result_at 2) ∷ []) []).sent ≡ result_at 1 ∷ []
unfolding load_test run_phase drain send_report send_update perform log_result log_interval
    count_result log_dispatched interval_statistics inflight_count
unreported = refl

one_in_flight : Ready
one_in_flight = record { tracker = log_dispatched new_tracker 1; sent = [] }

drain-ends_example : (drain link drains one_in_flight).0 ≡ ok tt
unfolding one_in_flight perform log_result count_result log_dispatched inflight_count
drain-ends_example = drain-ends link drains one_in_flight (λ updates update. refl) refl
