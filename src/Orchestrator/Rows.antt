-- ===== src/Orchestrator/Rows.antt =====
-- orchestrator/persist/interval.rs and transactions.rs: the rows of the two files.
use creo_bench.Prelude.{ℕ, Option, none, some, List, [], ◌∷◌}
use creo_bench.Load.Time.{as_millis}
use creo_bench.Tracker.{IntervalReport, average_response_time}
use creo_bench.Transaction.{
  DroppedCode, FailedCode, TimeoutCode, TransactionResult, ResultMetadata, success, failed, timeout,
  dropped,
}
use creo_bench.Script.Text.{codes}
use creo_bench.Orchestrator.Phases.{Phase, warmup, pause, load}

-- How numbers, seconds and codes are printed: `Display` of integers, `as_secs_f64().to_string()`
-- of a duration, and `Debug` of the codes.
pub record Texts : Type 0 where
  pub number : ℕ → List ℕ
  pub seconds : ℕ → List ℕ
  pub debug_failed : FailedCode → List ℕ
  pub debug_timeout : TimeoutCode → List ℕ
  pub debug_dropped : DroppedCode → List ℕ

abbrev pub interval_header : List (List ℕ)
interval_header =
    codes "target_time"
    ∷ codes "load_level"
    ∷ codes "successful_transactions"
    ∷ codes "failed_transactions"
    ∷ codes "timeout_transactions"
    ∷ codes "dropped_transactions"
    ∷ codes "avg_service_time"
    ∷ codes "final_batch_time"
    ∷ codes "phase"
    ∷ []

abbrev pub transactions_header : List (List ℕ)
transactions_header =
    codes "target_time"
    ∷ codes "start_time"
    ∷ codes "send_time"
    ∷ codes "load_generator_id"
    ∷ codes "virtual_user_id"
    ∷ codes "spec_id"
    ∷ codes "response_time_ms"
    ∷ codes "service_time_ms"
    ∷ codes "outcome"
    ∷ codes "reason"
    ∷ []

unfoldable pub phase_text : Phase → List ℕ
phase_text warmup = codes "warmup"
phase_text pause = codes "pause"
phase_text load = codes "load"

module _ (texts : Texts) where
  open texts use {number, seconds, debug_failed, debug_timeout, debug_dropped}

  abbrev or_empty : (ℕ → List ℕ) → Option ℕ → List ℕ
  or_empty f none = []
  or_empty f (some n) = f n

  -- The fields of `IntervalCsvPersister::format_row`.
  unfoldable pub interval_fields : IntervalReport → Phase → List (List ℕ)
  unfolding phase_text
  interval_fields report phase =
      seconds report.target_time
      ∷ number report.load_level
      ∷ number report.stats.successful_transactions
      ∷ number report.stats.failed_transactions
      ∷ number report.stats.timeout_transactions
      ∷ number report.stats.dropped_transactions
      ∷ number (average_response_time report.stats)
      ∷ or_empty seconds report.final_batch_time
      ∷ phase_text phase
      ∷ []

  sent_fields : ResultMetadata → ℕ → ℕ → List ℕ → List ℕ → List (List ℕ)
  sent_fields m response service outcome reason =
      seconds m.target_time
      ∷ seconds m.start_time
      ∷ seconds m.send_time
      ∷ number m.loadgenerator_id
      ∷ number m.virtual_user_id
      ∷ number m.spec_id
      ∷ number (as_millis response)
      ∷ number (as_millis service)
      ∷ outcome
      ∷ reason
      ∷ []

  -- The fields of `TransactionCsvPersister::format_row`.
  unfoldable pub transaction_fields : TransactionResult → List (List ℕ)
  unfolding sent_fields
  transaction_fields (success m response service) =
      sent_fields m response service (codes "success") []
  transaction_fields (failed m response service code) =
      sent_fields m response service (codes "failed") (debug_failed code)
  transaction_fields (timeout m response service code) =
      sent_fields m response service (codes "timeout") (debug_timeout code)
  transaction_fields (dropped m response code) =
      seconds m.target_time
      ∷ seconds m.start_time
      ∷ []
      ∷ number m.loadgenerator_id
      ∷ or_empty number m.virtual_user_id
      ∷ []
      ∷ number (as_millis response)
      ∷ []
      ∷ codes "dropped"
      ∷ debug_dropped code
      ∷ []
