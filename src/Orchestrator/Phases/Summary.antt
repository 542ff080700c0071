-- ===== src/Orchestrator/Phases/Summary.antt =====
-- orchestrator/summary.rs: the summary of a run and the transactions in its reports.
use creo_bench.Prelude.{
  ℕ, zero, suc, ◌+◌, ◌-◌, ◌%◌, ◌<◌, ◌≤◌, ◌≡◌, ◌≢◌, subst, ◌↔◌, refl, ◌∙◌, true, List, [], ◌∷◌,
  arith, length, take, drop,
}
use creo_bench.Load.Time.{u64_modulus}
use creo_bench.Transaction.{
  TransactionResult, success, failed, timeout, dropped, DroppedCode, no_virtual_user, late,
}
use creo_bench.Tracker.{IntervalReport}
use creo_bench.Orchestrator.Phases.{
  Phase, warmup, pause, load, PhaseClassifier, classify, PhaseDrops, no_drops, total, record_code,
  record_results, record_into, DropSummary, new_summary, record_phase, record_report, is_valid,
  record_all,
}

abbrev pub dropped_of : List TransactionResult → ℕ
dropped_of [] = 0
dropped_of (dropped m r code ∷ results) = suc (dropped_of results)
dropped_of (success m r s ∷ results) = dropped_of results
dropped_of (failed m r s code ∷ results) = dropped_of results
dropped_of (timeout m r s code ∷ results) = dropped_of results

-- The dropped transactions in the reports, and all transactions.
abbrev pub dropped_in : List IntervalReport → ℕ
dropped_in [] = 0
dropped_in (report ∷ reports) = dropped_of report.stats.transaction_results + dropped_in reports

abbrev pub transactions_in : List IntervalReport → ℕ
transactions_in [] = 0
transactions_in (report ∷ reports) =
    length report.stats.transaction_results + transactions_in reports

-- The counters of a phase, which wrap, for so many transactions and drops.
pub record Tally (d : PhaseDrops) (transactions drops : ℕ) : Type 0 where
  pub all : d.transactions ≡ transactions % u64_modulus
  pub dropped_ones : total d ≡ drops % u64_modulus

total-record_code :
    (d : PhaseDrops) (code : DroppedCode) → total (record_code d code) ≡ (total d + 1) % u64_modulus
unfolding total record_code
total-record_code d no_virtual_user = omega arith
total-record_code d late = omega arith
total-record_code d (DroppedCode.error message) = omega arith

transactions-record_code :
    (d : PhaseDrops) (code : DroppedCode) → (record_code d code).transactions ≡ d.transactions
unfolding record_code
transactions-record_code d no_virtual_user = refl
transactions-record_code d late = refl
transactions-record_code d (DroppedCode.error message) = refl

record_results-Tally :
    (d : PhaseDrops) (results : List TransactionResult) (n k : ℕ)
    → Tally d n k
    → Tally (record_results d results) n (k + dropped_of results)
unfolding record_results
record_results-Tally d [] n k t = record {
  all = t.all;
  dropped_ones = omega (arith, t.dropped_ones);
}
record_results-Tally d (dropped m r code ∷ results) n k t =
    let u = record_results-Tally (record_code d code) results n (k + 1) (record {
      all = transactions-record_code d code ∙ t.all;
      dropped_ones = omega (arith, total-record_code d code, t.dropped_ones);
    }) in
    record { all = u.all; dropped_ones = omega (arith, u.dropped_ones) }
record_results-Tally d (success m r s ∷ results) n k t = record_results-Tally d results n k t
record_results-Tally d (failed m r s code ∷ results) n k t = record_results-Tally d results n k t
record_results-Tally d (timeout m r s code ∷ results) n k t = record_results-Tally d results n k t

record_into-Tally :
    (d : PhaseDrops) (results : List TransactionResult) (n k : ℕ)
    → Tally d n k
    → Tally (record_into d results) (n + length results) (k + dropped_of results)
unfolding record_into
record_into-Tally d results n k t =
    record_results-Tally _ results (n + length results) k
      (record { all = omega (arith, t.all); dropped_ones = unfold total in t.dropped_ones })

-- The phase of the report number `count` lies behind the warmup and the pause or not.
classify-phase :
    (c : PhaseClassifier) → ((classify c).0 ≡ load) ↔ (c.warmup_duration + c.warmup_pause ≤ c.count)
unfolding classify
classify-phase c = ground arith

Tally-eq : {d : PhaseDrops} {n k : ℕ} (n' k' : ℕ) → Tally d n k → n ≡ n' → k ≡ k' → Tally d n' k'
Tally-eq n' k' t p q = record {
  all = omega (arith, t.all);
  dropped_ones = omega (arith, t.dropped_ones);
}

record_phase-load :
    (p : Phase) (results : List TransactionResult) (s : DropSummary)
    → p ≡ load
    → record_phase p results s ≡ record s { load = record_into s.load results }
unfolding record_phase
record_phase-load load results s e = refl
record_phase-load warmup results s e = cc
record_phase-load pause results s e = cc

record_phase-before :
    (p : Phase) (results : List TransactionResult) (s : DropSummary)
    → p ≢ load
    → record_phase p results s ≡ record s { warmup = record_into s.warmup results }
unfolding record_phase
record_phase-before load results s e = absurd (e refl)
record_phase-before warmup results s e = refl
record_phase-before pause results s e = refl

-- `seen` reports have been classified, and `left` more belong to warmup and pause.
record Boundary (c : PhaseClassifier) (left seen : ℕ) : Type 0 where
  counted : c.count ≡ seen
  remaining : left ≡ c.warmup_duration + c.warmup_pause - seen

classify-Boundary :
    (c : PhaseClassifier) (left seen : ℕ)
    → Boundary c left seen
    → suc seen < u64_modulus
    → Boundary (classify c).1 (left - 1) (suc seen)
unfolding classify
classify-Boundary c left seen b h = record {
  counted = omega (arith, b.counted);
  remaining = omega (arith, b.remaining);
}

none_yet : Tally no_drops 0 0
unfolding total
none_yet = record { all = omega arith; dropped_ones = omega arith }

-- The summary behind the first reports of a run.
record Progress (s : DropSummary) (left seen load_n load_k warmup_n warmup_k : ℕ) : Type 0 where
  boundary : Boundary s.classifier left seen
  load_tally : Tally s.load load_n load_k
  warmup_tally : Tally s.warmup warmup_n warmup_k

record_report-load :
    (s : DropSummary) (report : IntervalReport) {seen ln lk wn wk : ℕ}
    → Progress s zero seen ln lk wn wk
    → suc seen < u64_modulus
    → Progress
        (record_report s report)
        zero
        (suc seen)
        (ln + length report.stats.transaction_results)
        (lk + dropped_of report.stats.transaction_results)
        wn
        wk
unfolding record_report
record_report-load s report {seen} {ln} {lk} p h =
    rw
      (record_phase-load (classify s.classifier).0 report.stats.transaction_results
        (record s { classifier = (classify s.classifier).1 })
        ((classify-phase s.classifier).1 (omega (arith, p.boundary.remaining, p.boundary.counted))))
      (record {
        boundary = classify-Boundary s.classifier zero seen p.boundary h;
        load_tally = record_into-Tally s.load report.stats.transaction_results ln lk p.load_tally;
        warmup_tally = p.warmup_tally;
      })

record_report-before :
    (s : DropSummary) (report : IntervalReport) (left : ℕ) {seen ln lk wn wk : ℕ}
    → Progress s (suc left) seen ln lk wn wk
    → suc seen < u64_modulus
    → Progress
        (record_report s report)
        left
        (suc seen)
        ln
        lk
        (wn + length report.stats.transaction_results)
        (wk + dropped_of report.stats.transaction_results)
unfolding record_report
record_report-before s report left {seen} {wn = wn} {wk = wk} p h =
    rw
      (record_phase-before (classify s.classifier).0 report.stats.transaction_results
        (record s { classifier = (classify s.classifier).1 })
        (λ e. absurd (
          omega
            (arith, (classify-phase s.classifier).0 e, p.boundary.remaining, p.boundary.counted))))
      (record {
        boundary =
            subst (λ (l : ℕ). Boundary (classify s.classifier).1 l (suc seen)) (omega arith)
              (classify-Boundary s.classifier (suc left) seen p.boundary h);
        load_tally = p.load_tally;
        warmup_tally =
            record_into-Tally s.warmup report.stats.transaction_results wn wk p.warmup_tally;
      })

-- The tallies of two phases of a run.
abbrev pub Tallies : PhaseDrops → PhaseDrops → ℕ → ℕ → ℕ → ℕ → Type 0
Tallies l w ln lk wn wk = Tally l ln lk × Tally w wn wk

Tallies-eq :
    {l w : PhaseDrops} {ln lk wn wk : ℕ} (ln' lk' wn' wk' : ℕ)
    → Tallies l w ln lk wn wk
    → (ln ≡ ln') × (lk ≡ lk') × (wn ≡ wn') × (wk ≡ wk')
    → Tallies l w ln' lk' wn' wk'
Tallies-eq ln' lk' wn' wk' t e = (Tally-eq ln' lk' t.0 e.0 e.1, Tally-eq wn' wk' t.1 e.2 e.3)

record_all-Tallies_from :
    (s : DropSummary) (reports : List IntervalReport) (left seen ln lk wn wk : ℕ)
    → Progress s left seen ln lk wn wk
    → seen + length reports < u64_modulus
    → Tallies
        (record_all s reports).load
        (record_all s reports).warmup
        (ln + transactions_in (drop left reports))
        (lk + dropped_in (drop left reports))
        (wn + transactions_in (take left reports))
        (wk + dropped_in (take left reports))
unfolding record_all
record_all-Tallies_from s [] zero seen ln lk wn wk p h =
    Tallies-eq _ _ _ _ (p.load_tally, p.warmup_tally) (omega arith)
record_all-Tallies_from s [] (suc left) seen ln lk wn wk p h =
    Tallies-eq _ _ _ _ (p.load_tally, p.warmup_tally) (omega arith)
record_all-Tallies_from s (report ∷ reports) zero seen ln lk wn wk p h =
    Tallies-eq _ _ _ _
      (record_all-Tallies_from (record_report s report) reports zero (suc seen) _ _ _ _
        (record_report-load s report p (omega arith)) (omega arith))
      (omega arith)
record_all-Tallies_from s (report ∷ reports) (suc left) seen ln lk wn wk p h =
    Tallies-eq _ _ _ _
      (record_all-Tallies_from (record_report s report) reports left (suc seen) _ _ _ _
        (record_report-before s report left p (omega arith)) (omega arith))
      (omega arith)

-- For fewer than 2^64 reports of a run: the summary counts the transactions and the dropped
-- transactions of the first `duration + pause_length` reports as those of the warmup, and of the
-- others as those of the load, modulo 2^64.
pub record_all-Tallies :
    (duration pause_length : ℕ) (reports : List IntervalReport)
    → length reports < u64_modulus
    → let ahead = duration + pause_length in
      let s = record_all (new_summary duration pause_length) reports in
      Tallies s.load s.warmup
        (transactions_in (drop ahead reports))
        (dropped_in (drop ahead reports))
        (transactions_in (take ahead reports))
        (dropped_in (take ahead reports))
record_all-Tallies duration pause_length reports h =
    Tallies-eq _ _ _ _
      (record_all-Tallies_from (new_summary duration pause_length) reports (duration + pause_length)
        0 0 0 0 0 start (omega arith))
      (omega arith)
  where
    start : Progress (new_summary duration pause_length) (duration + pause_length) 0 0 0 0 0
    start = record {
      boundary = record { counted = refl; remaining = omega arith };
      load_tally = none_yet;
      warmup_tally = none_yet;
    }

-- For fewer than 2^64 reports of a run with fewer than 2^64 dropped transactions behind the first
-- `duration + pause_length` reports: the run is valid if and only if there is no such dropped
-- transaction.
pub is_valid-record_all :
    (duration pause_length : ℕ) (reports : List IntervalReport)
    → length reports < u64_modulus
    → dropped_in (drop (duration + pause_length) reports) < u64_modulus
    → (is_valid (record_all (new_summary duration pause_length) reports) ≡ true)
      ↔ (dropped_in (drop (duration + pause_length) reports) ≡ 0)
unfolding is_valid
is_valid-record_all duration pause_length reports h k =
    let t = record_all-Tallies duration pause_length reports h in ground (arith, t.0.dropped_ones)
