-- ===== src/Orchestrator/Phases.antt =====
-- orchestrator/persist/mod.rs (the phase of a report) and orchestrator/summary.rs (the dropped
-- transactions of a run), without the texts that are logged.
pub mod Summary
pub mod Report
use creo_bench.Prelude.{
  ℕ, ◌+◌, ◌<◌, Bool, Option, none, some, List, [], ◌∷◌, ltb, ◌==◌, if◌then◌else◌, length,
}
use creo_bench.Load.Time.{wrapping_add}
use creo_bench.Transaction.{
  TransactionResult, success, failed, timeout, dropped, DroppedCode, no_virtual_user, late,
}
use creo_bench.Tracker.{IntervalReport}

pub data Phase : Type 0 where
  warmup pause load : Phase

pub record PhaseClassifier : Type 0 where
  pub warmup_duration : ℕ
  pub warmup_pause : ℕ
  pub count : ℕ

abbrev pub new_classifier : ℕ → ℕ → PhaseClassifier
new_classifier duration pause_length = record {
  warmup_duration = duration;
  warmup_pause = pause_length;
  count = 0;
}

unfoldable pub classify : PhaseClassifier → Phase × PhaseClassifier
classify c = (
  if ltb c.count c.warmup_duration
      then warmup
      else if ltb c.count (c.warmup_duration + c.warmup_pause)
      then pause
      else load,
  record c { count = wrapping_add c.count 1 },
)

pub record PhaseDrops : Type 0 where
  pub transactions : ℕ
  pub no_virtual_user : ℕ
  pub late : ℕ
  pub error : ℕ

abbrev pub no_drops : PhaseDrops
no_drops = record { transactions = 0; no_virtual_user = 0; late = 0; error = 0 }

unfoldable pub total : PhaseDrops → ℕ
total d = wrapping_add (wrapping_add d.no_virtual_user d.late) d.error

-- `PhaseDrops::record`.
unfoldable pub record_code : PhaseDrops → DroppedCode → PhaseDrops
record_code d no_virtual_user = record d { no_virtual_user = wrapping_add d.no_virtual_user 1 }
record_code d late = record d { late = wrapping_add d.late 1 }
record_code d (DroppedCode.error message) = record d { error = wrapping_add d.error 1 }

-- The loop of `DropSummary::record` over the results.
unfoldable pub record_results : PhaseDrops → List TransactionResult → PhaseDrops
record_results d [] = d
record_results d (dropped m r code ∷ results) = record_results (record_code d code) results
record_results d (success m r s ∷ results) = record_results d results
record_results d (failed m r s code ∷ results) = record_results d results
record_results d (timeout m r s code ∷ results) = record_results d results

-- What the report adds to the counts of its phase.
unfoldable pub record_into : PhaseDrops → List TransactionResult → PhaseDrops
record_into d results =
    record_results (record d { transactions = wrapping_add d.transactions (length results) })
      results

pub record DropSummary : Type 0 where
  pub classifier : PhaseClassifier
  pub load : PhaseDrops
  pub warmup : PhaseDrops

abbrev pub new_summary : ℕ → ℕ → DropSummary
new_summary duration pause_length = record {
  classifier = new_classifier duration pause_length;
  load = no_drops;
  warmup = no_drops;
}

-- The summary with the counts of the phase changed.
unfoldable pub record_phase : Phase → List TransactionResult → DropSummary → DropSummary
record_phase load results s = record s { load = record_into s.load results }
record_phase warmup results s = record s { warmup = record_into s.warmup results }
record_phase pause results s = record s { warmup = record_into s.warmup results }

-- `DropSummary::record`.
unfoldable pub record_report : DropSummary → IntervalReport → DropSummary
record_report s report =
    let (phase, classifier) = classify s.classifier in
    record_phase phase report.stats.transaction_results (record s { classifier = classifier })

unfoldable pub is_valid : DropSummary → Bool
is_valid s = total s.load == 0

pub record DropReport : Type 0 where
  pub load : PhaseDrops
  pub warmup : PhaseDrops

-- `DropSummary::report`.
unfoldable pub drop_report : DropSummary → Option DropReport
drop_report s =
    if ltb 0 (wrapping_add (total s.load) (total s.warmup))
    then some (record { load = s.load; warmup = s.warmup })
    else none

-- The summary of the reports of a run, in the order in which they arrive.
unfoldable pub record_all : DropSummary → List IntervalReport → DropSummary
record_all s [] = s
record_all s (report ∷ reports) = record_all (record_report s report) reports
