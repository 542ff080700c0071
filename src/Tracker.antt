-- ===== src/Tracker.antt =====
-- tracker.rs: the counters of a load generator, and the reports that are drained from them.
-- The atomic operations of one call run one after the other here.
pub mod Totals
use creo_bench.Prelude.{
  ℕ, ◌+◌, ◌-◌, ◌/◌, Option, none, some, List, [], ◌∷◌, ◌++◌, ◌==◌, if◌then◌else◌,
}
use creo_bench.Load.Time.{wrapping_add, as_millis}
use creo_bench.Transaction.{TransactionResult, success, failed, timeout, dropped}

pub record Counts : Type 0 where
  pub success : ℕ
  pub failed : ℕ
  pub timeout : ℕ
  pub dropped : ℕ

pub record IntervalTracker : Type 0 where
  pub counts : Counts
  pub service_time_sum : ℕ
  pub service_time_count : ℕ
  pub transaction_results : List TransactionResult

-- `Inner`.
pub record Tracker : Type 0 where
  pub total : Counts
  pub interval : IntervalTracker
  pub dispatched : ℕ

pub record IntervalStatistics : Type 0 where
  pub successful_transactions : ℕ
  pub failed_transactions : ℕ
  pub timeout_transactions : ℕ
  pub dropped_transactions : ℕ
  pub response_time_sum : ℕ
  pub response_time_count : ℕ
  pub transaction_results : List TransactionResult

pub record IntervalReport : Type 0 where
  pub target_time : ℕ
  pub load_level : ℕ
  pub stats : IntervalStatistics
  pub final_batch_time : Option ℕ

abbrev pub no_counts : Counts
no_counts = record { success = 0; failed = 0; timeout = 0; dropped = 0 }

abbrev pub no_interval : IntervalTracker
no_interval = record {
  counts = no_counts;
  service_time_sum = 0;
  service_time_count = 0;
  transaction_results = [];
}

abbrev pub new_tracker : Tracker
new_tracker = record { total = no_counts; interval = no_interval; dispatched = 0 }

unfoldable pub count_result : Counts → TransactionResult → Counts
count_result c (success m r s) = record c { success = wrapping_add c.success 1 }
count_result c (failed m r s code) = record c { failed = wrapping_add c.failed 1 }
count_result c (timeout m r s code) = record c { timeout = wrapping_add c.timeout 1 }
count_result c (dropped m r code) = record c { dropped = wrapping_add c.dropped 1 }

-- A measured service time; a dropped transaction has none.
measure : IntervalTracker → ℕ → IntervalTracker
measure i service = record i {
  service_time_sum = wrapping_add i.service_time_sum (as_millis service);
  service_time_count = wrapping_add i.service_time_count 1;
}

measure_result : IntervalTracker → TransactionResult → IntervalTracker
unfolding measure
measure_result i (success m r s) = measure i s
measure_result i (failed m r s code) = measure i s
measure_result i (timeout m r s code) = measure i s
measure_result i (dropped m r code) = i

-- `IntervalTracker::log_result`.
unfoldable pub log_interval : IntervalTracker → TransactionResult → IntervalTracker
unfolding count_result measure_result
log_interval i result = record (measure_result i result) {
  counts = count_result i.counts result;
  transaction_results = i.transaction_results ++ result ∷ [];
}

-- `Tracker::log_result`.
unfoldable pub log_result : Tracker → TransactionResult → Tracker
unfolding count_result log_interval
log_result t result = record t {
  total = count_result t.total result;
  interval = log_interval t.interval result;
}

-- What the interval holds, as a report.
unfoldable pub statistics_of : IntervalTracker → IntervalStatistics
statistics_of i = record {
  successful_transactions = i.counts.success;
  failed_transactions = i.counts.failed;
  timeout_transactions = i.counts.timeout;
  dropped_transactions = i.counts.dropped;
  response_time_sum = i.service_time_sum;
  response_time_count = i.service_time_count;
  transaction_results = i.transaction_results;
}

-- `Tracker::interval_statistics`: each counter is swapped with zero.
unfoldable pub interval_statistics : Tracker → IntervalStatistics × Tracker
unfolding statistics_of
interval_statistics t = (statistics_of t.interval, record t { interval = no_interval })

unfoldable pub log_dispatched : Tracker → ℕ → Tracker
log_dispatched t n = record t { dispatched = wrapping_add t.dispatched n }

-- `TotalCounts::sum`, in a release build.
unfoldable pub sum_counts : Counts → ℕ
sum_counts c = wrapping_add (wrapping_add (wrapping_add c.success c.failed) c.timeout) c.dropped

-- `saturating_sub`.
unfoldable pub inflight_count : Tracker → ℕ
unfolding sum_counts
inflight_count t = t.dispatched - sum_counts t.total

unfoldable pub average_response_time : IntervalStatistics → ℕ
average_response_time s =
    if s.response_time_count == 0 then 0 else s.response_time_sum / s.response_time_count

abbrev pub no_statistics : IntervalStatistics
no_statistics = record {
  successful_transactions = 0;
  failed_transactions = 0;
  timeout_transactions = 0;
  dropped_transactions = 0;
  response_time_sum = 0;
  response_time_count = 0;
  transaction_results = [];
}

-- `Add for IntervalStatistics`, in a release build.
infixl 65 ◌⊕◌
unfoldable pub ◌⊕◌ : IntervalStatistics → IntervalStatistics → IntervalStatistics
a ⊕ b = record {
  successful_transactions = wrapping_add a.successful_transactions b.successful_transactions;
  failed_transactions = wrapping_add a.failed_transactions b.failed_transactions;
  timeout_transactions = wrapping_add a.timeout_transactions b.timeout_transactions;
  dropped_transactions = wrapping_add a.dropped_transactions b.dropped_transactions;
  response_time_sum = wrapping_add a.response_time_sum b.response_time_sum;
  response_time_count = wrapping_add a.response_time_count b.response_time_count;
  transaction_results = a.transaction_results ++ b.transaction_results;
}

-- The fold of `Sum for IntervalStatistics`, from an accumulator on.
unfoldable pub sum_statistics : IntervalStatistics → List IntervalStatistics → IntervalStatistics
sum_statistics acc [] = acc
sum_statistics acc (s ∷ rest) = sum_statistics (acc ⊕ s) rest
