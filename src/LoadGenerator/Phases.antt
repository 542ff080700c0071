-- ===== src/LoadGenerator/Phases.antt =====
-- load_generator/phases/ready.rs: the warmup and the load test of a load generator, which report the
-- steps that the pacer has done. What the pacer and the virtual users do with the tracker meanwhile
-- is an argument.
pub mod Reports
pub mod Finish
use creo_bench.Prelude.{
  ℕ, zero, suc, ◌+◌, ◌*◌, ◌/◌, Bool, true, false, Option, none, some, List, [], ◌∷◌, ◌++◌, Result,
  ok, err, get_elem?, ◌==◌, if◌then◌else◌,
}
use creo_bench.Transaction.{TransactionResult}
use creo_bench.Tracker.{
  Tracker, IntervalReport, IntervalStatistics, log_result, log_dispatched, interval_statistics,
  inflight_count,
}
use creo_bench.Orchestrator.Collect.{GeneratorUpdate, interval_report, finished}

abbrev pub nanos_per_sec : ℕ
nanos_per_sec = 1000000000

pub data Activity : Type 0 where
  dispatches : ℕ → Activity
  logs : TransactionResult → Activity

unfoldable pub perform : List Activity → Tracker → Tracker
perform [] t = t
perform (dispatches n ∷ activities) t = perform activities (log_dispatched t n)
perform (logs result ∷ activities) t = perform activities (log_result t result)

pub record StepDone : Type 0 where
  pub index : ℕ
  pub last_dispatch : Option ℕ

-- A step that the pacer has done, and what happens until it is reported, since the report before.
pub record Turn : Type 0 where
  pub step_done : StepDone
  pub until_report : List Activity

-- A turn of the loop that waits for the transactions in flight: the time that has elapsed in the
-- phase, in nanoseconds, and what happens until the report and while it is sent.
pub record DrainTurn : Type 0 where
  pub elapsed : ℕ
  pub until_report : List Activity
  pub while_sent : List Activity

-- The tracker, and the updates that have been sent to the orchestrator.
pub record Ready : Type 0 where
  pub tracker : Tracker
  pub sent : List GeneratorUpdate

-- The connection: whether an update can be sent behind those that have been sent.
pub record Link : Type 1 where
  pub SendError : Type 0
  pub send : List GeneratorUpdate → GeneratorUpdate → Option SendError

-- How a phase ends early: the connection fails, an index is out of bounds, or nothing ends the wait
-- for the transactions in flight.
pub data Halt (E : Type 0) : Type 0 where
  send_error : E → Halt E
  panic waiting : Halt E

abbrev pub performed : List Activity → Ready → Ready
performed activities r = record r { tracker = perform activities r.tracker }

module _ (link : Link) where
  open link use {SendError, send}

  abbrev pub Outcome : Type 0
  Outcome = Result (Unit {0}) (Halt SendError) × Ready

  -- What goes on unless there is an error.
  abbrev pub next : Outcome → (Ready → Outcome) → Outcome
  next (ok done, r) f = f r
  next (err e, r) f = (err e, r)

  sent_or : Ready → GeneratorUpdate → Option SendError → Outcome
  sent_or r update none = (ok tt, record r { sent = r.sent ++ update ∷ [] })
  sent_or r update (some e) = (err (send_error e), r)

  unfoldable pub send_update : GeneratorUpdate → Ready → Outcome
  unfolding sent_or
  send_update update r = sent_or r update (send r.sent update)

  -- A report of the interval, which is drained for it.
  unfoldable pub send_report : ℕ → ℕ → Option ℕ → Ready → Outcome
  unfolding send_update
  send_report target_time load_level final_batch_time r =
      let (stats, tracker) = interval_statistics r.tracker in
      send_update
        (interval_report (record {
          target_time = target_time;
          load_level = load_level;
          stats = stats;
          final_batch_time = final_batch_time;
        }))
        (record r { tracker = tracker })

  report_step : Option ℕ → Option ℕ → StepDone → Ready → Outcome
  unfolding send_report
  report_step (some deadline) (some level) done r = send_report deadline level done.last_dispatch r
  report_step _ _ done r = (err panic, r)

  -- The loop of `run_phase`, over the steps that are done until the pacer ends.
  unfoldable pub run_phase : List ℕ → List ℕ → List Turn → Ready → Outcome
  unfolding report_step
  run_phase deadlines load_levels [] r = (ok tt, r)
  run_phase deadlines load_levels (turn ∷ turns) r =
      next
        (report_step (get_elem? deadlines turn.step_done.index)
          (get_elem? load_levels turn.step_done.index) turn.step_done
          (performed turn.until_report r))
        (run_phase deadlines load_levels turns)

  -- The pause of `warmup`, from the deadline `second` on.
  unfoldable pub pause : ℕ → ℕ → (ℕ → List Activity) → Ready → Outcome
  unfolding send_report
  pause second zero meanwhile r = (ok tt, r)
  pause second (suc left) meanwhile r =
      next (send_report (second * nanos_per_sec) 0 none (performed (meanwhile second) r))
        (pause (suc second) left meanwhile)

  -- `warmup`, with the deadlines of its steps and its rate for each.
  unfoldable pub warmup : List ℕ → List ℕ → ℕ → List Turn → (ℕ → List Activity) → Ready → Outcome
  unfolding run_phase pause
  warmup deadlines rates pause_length turns meanwhile r =
      next (run_phase deadlines rates turns r) (pause 1 pause_length meanwhile)

  -- One turn of the loop of `load_test`, or its end if no transaction is in flight.
  drain_turn : Bool → DrainTurn → (Ready → Outcome) → Ready → Outcome
  unfolding send_report
  drain_turn true turn again r = send_update finished r
  drain_turn false turn again r =
      next
        (send_report ((turn.elapsed / nanos_per_sec + 1) * nanos_per_sec) 0 none
          (performed turn.until_report r))
        (λ r'. again (performed turn.while_sent r'))

  drain_end : Bool → Ready → Outcome
  unfolding send_update
  drain_end true r = send_update finished r
  drain_end false r = (err waiting, r)

  -- The loop, over the turns that there are.
  unfoldable pub drain : List DrainTurn → Ready → Outcome
  unfolding drain_turn drain_end
  drain [] r = drain_end (inflight_count r.tracker == 0) r
  drain (turn ∷ turns) r = drain_turn (inflight_count r.tracker == 0) turn (drain turns) r

  -- `load_test`, with what happens between the last report and the wait.
  unfoldable pub load_test :
      List ℕ → List ℕ → List Turn → List Activity → List DrainTurn → Ready → Outcome
  unfolding run_phase drain
  load_test deadlines load_levels turns before_wait drains r =
      next (run_phase deadlines load_levels turns r) (λ r'. drain drains (performed before_wait r'))
