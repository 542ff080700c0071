-- ===== src/Tracker/Totals.antt =====
-- tracker.rs: the calls of a load generator in sequence, and their totals.
use creo_bench.Prelude.{
  ℕ, ◌+◌, ◌-◌, ◌%◌, ◌<◌, ◌≡◌, refl, ap, ◌∙◌, List, [], ◌∷◌, ◌++◌, append_assoc, append-nil, arith,
  length,
}
use creo_bench.Load.Time.{u64_modulus, as_millis}
use creo_bench.Transaction.{TransactionResult, success, failed, timeout, dropped}
use creo_bench.Tracker.{
  Tracker, IntervalTracker, IntervalStatistics, Counts, no_statistics, new_tracker, log_interval,
  log_result, statistics_of, interval_statistics, log_dispatched, sum_counts, inflight_count, ◌⊕◌,
  sum_statistics, count_result,
}

-- The calls that a load generator makes of its tracker.
pub data Call : Type 0 where
  logs : TransactionResult → Call
  dispatches : ℕ → Call
  drains : Call

-- The tracker after the calls, and the reports drained in them.
unfoldable pub run : Tracker → List Call → Tracker × List IntervalStatistics
run t [] = (t, [])
run t (logs result ∷ calls) = run (log_result t result) calls
run t (dispatches n ∷ calls) = run (log_dispatched t n) calls
run t (drains ∷ calls) =
    let (report, t') = interval_statistics t in
    let (t'', reports) = run t' calls in (t'', report ∷ reports)

abbrev pub logged : List Call → List TransactionResult
logged [] = []
logged (logs result ∷ calls) = result ∷ logged calls
logged (dispatches n ∷ calls) = logged calls
logged (drains ∷ calls) = logged calls

abbrev pub dispatched_in : List Call → ℕ
dispatched_in [] = 0
dispatched_in (logs result ∷ calls) = dispatched_in calls
dispatched_in (dispatches n ∷ calls) = n + dispatched_in calls
dispatched_in (drains ∷ calls) = dispatched_in calls

-- The statistics of one result, and of a list of results behind others.
unfoldable pub statistics_of_result : TransactionResult → IntervalStatistics
statistics_of_result result =
    let one : IntervalStatistics = record no_statistics {
      response_time_count = 1;
      transaction_results = result ∷ [];
    } in
    elim result [
      | success m r s ↦ record one { successful_transactions = 1; response_time_sum = as_millis s }
      | failed m r s code ↦ record one { failed_transactions = 1; response_time_sum = as_millis s }
      | timeout m r s code ↦ record one {
        timeout_transactions = 1;
        response_time_sum = as_millis s;
      }
      | dropped m r code ↦ record one { dropped_transactions = 1; response_time_count = 0 }
    ]

unfoldable pub statistics_of_results :
    IntervalStatistics → List TransactionResult → IntervalStatistics
statistics_of_results acc [] = acc
statistics_of_results acc (result ∷ rest) =
    statistics_of_results (acc ⊕ statistics_of_result result) rest

⊕_assoc : (a b c : IntervalStatistics) → (a ⊕ b) ⊕ c ≡ a ⊕ (b ⊕ c)
unfolding ◌⊕◌
⊕_assoc a b c =
    ground (arith, append_assoc a.transaction_results b.transaction_results c.transaction_results)

⊕_none : (a b : IntervalStatistics) → (a ⊕ b) ⊕ no_statistics ≡ a ⊕ b
unfolding ◌⊕◌
⊕_none a b = ground (arith, append-nil (a.transaction_results ++ b.transaction_results))

-- One more result in the interval is one more in the sum.
add-log_interval :
    (acc : IntervalStatistics) (i : IntervalTracker) (result : TransactionResult)
    → acc ⊕ statistics_of (log_interval i result)
      ≡ (acc ⊕ statistics_of i) ⊕ statistics_of_result result
unfolding statistics_of log_interval ◌⊕◌ statistics_of_result
add-log_interval acc i (success m r s) =
    ground (arith, append_assoc acc.transaction_results i.transaction_results (success m r s ∷ []))
add-log_interval acc i result =
    ground (arith, append_assoc acc.transaction_results i.transaction_results (result ∷ []))

-- What is drained leaves nothing behind.
add-drained :
    (acc : IntervalStatistics) (t : Tracker)
    → let (report, t') = interval_statistics t in
      (acc ⊕ report) ⊕ statistics_of t'.interval ≡ acc ⊕ statistics_of t.interval
unfolding interval_statistics
add-drained acc t = ⊕_none acc (statistics_of t.interval)

run-statistics_from :
    (acc : IntervalStatistics) (t : Tracker) (calls : List Call)
    → let (t', reports) = run t calls in
      sum_statistics acc reports ⊕ statistics_of t'.interval
      ≡ statistics_of_results (acc ⊕ statistics_of t.interval) (logged calls)
unfolding run sum_statistics statistics_of_results
run-statistics_from acc t [] = refl
run-statistics_from acc t (logs result ∷ calls) =
    run-statistics_from acc (log_result t result) calls
    ∙ ap (λ (s : IntervalStatistics). statistics_of_results s (logged calls))
        (unfold log_result in add-log_interval acc t.interval result)
run-statistics_from acc t (dispatches n ∷ calls) =
    run-statistics_from acc (log_dispatched t n) calls
    ∙ ap (λ (i : IntervalTracker). statistics_of_results (acc ⊕ statistics_of i) (logged calls))
        (unfold log_dispatched in refl)
run-statistics_from acc t (drains ∷ calls) =
    let (report, t') = interval_statistics t in
    run-statistics_from (acc ⊕ report) t' calls
    ∙ ap (λ (s : IntervalStatistics). statistics_of_results s (logged calls)) (add-drained acc t)

-- However a load generator interleaves its calls of the tracker, starting with a new one: the sum
-- of all interval reports that were drained, and of what the interval still holds, is the
-- statistics of all results that were logged, in their order.
pub run-statistics :
    (calls : List Call)
    → let (t, reports) = run new_tracker calls in
      sum_statistics no_statistics reports ⊕ statistics_of t.interval
      ≡ statistics_of_results no_statistics (logged calls)
run-statistics calls =
    run-statistics_from no_statistics new_tracker calls
    ∙ ap (λ (s : IntervalStatistics). statistics_of_results s (logged calls))
        (unfold statistics_of ◌⊕◌ in refl)

sum_counts-count_result :
    (c : Counts) (result : TransactionResult)
    → sum_counts (count_result c result) ≡ (sum_counts c + 1) % u64_modulus
unfolding sum_counts count_result
sum_counts-count_result c (success m r s) = omega arith
sum_counts-count_result c (failed m r s code) = omega arith
sum_counts-count_result c (timeout m r s code) = omega arith
sum_counts-count_result c (dropped m r code) = omega arith

record Counted (t : Tracker) (dispatched done : ℕ) : Type 0 where
  total : sum_counts t.total ≡ done % u64_modulus
  sent : t.dispatched ≡ dispatched % u64_modulus

Counted-eq :
    {t : Tracker} {dispatched done : ℕ} (dispatched' done' : ℕ)
    → Counted t dispatched done
    → dispatched ≡ dispatched'
    → done ≡ done'
    → Counted t dispatched' done'
Counted-eq dispatched' done' c p q = record {
  total = omega (arith, c.total);
  sent = omega (arith, c.sent);
}

log_result-Counted :
    {t : Tracker} {dispatched done : ℕ} (result : TransactionResult)
    → Counted t dispatched done
    → Counted (log_result t result) dispatched (done + 1)
unfolding log_result
log_result-Counted {t} result c = record {
  total = omega (arith, c.total, sum_counts-count_result t.total result);
  sent = c.sent;
}

log_dispatched-Counted :
    {t : Tracker} {dispatched done : ℕ} (n : ℕ)
    → Counted t dispatched done
    → Counted (log_dispatched t n) (dispatched + n) done
unfolding log_dispatched
log_dispatched-Counted n c = record { total = c.total; sent = omega (arith, c.sent) }

interval_statistics-Counted :
    {t : Tracker} {dispatched done : ℕ}
    → Counted t dispatched done
    → Counted (interval_statistics t).1 dispatched done
unfolding interval_statistics
interval_statistics-Counted c = record { total = c.total; sent = c.sent }

run-Counted :
    (t : Tracker) (calls : List Call) (dispatched done : ℕ)
    → Counted t dispatched done
    → Counted (run t calls).0 (dispatched + dispatched_in calls) (done + length (logged calls))
unfolding run
run-Counted t [] dispatched done c = Counted-eq _ _ c (omega arith) (omega arith)
run-Counted t (logs result ∷ calls) dispatched done c =
    Counted-eq _ _
      (run-Counted (log_result t result) calls dispatched (done + 1) (log_result-Counted result c))
      refl (omega arith)
run-Counted t (dispatches n ∷ calls) dispatched done c =
    Counted-eq _ _
      (run-Counted (log_dispatched t n) calls (dispatched + n) done (log_dispatched-Counted n c))
      (omega arith) refl
run-Counted t (drains ∷ calls) dispatched done c =
    run-Counted (interval_statistics t).1 calls dispatched done (interval_statistics-Counted c)

-- However a load generator interleaves its calls of the tracker, starting with a new one, while
-- fewer than 2^64 transactions are dispatched and fewer than 2^64 results are logged: the
-- transactions in flight are the dispatched ones less the logged ones, or 0 if more were logged.
pub inflight_count-run :
    (calls : List Call)
    → dispatched_in calls < u64_modulus
    → length (logged calls) < u64_modulus
    → inflight_count (run new_tracker calls).0 ≡ dispatched_in calls - length (logged calls)
unfolding inflight_count
inflight_count-run calls h k =
    let c =
      run-Counted new_tracker calls 0 0
        (unfold sum_counts in record { total = omega arith; sent = omega arith }) in
    omega (arith, c.total, c.sent)
