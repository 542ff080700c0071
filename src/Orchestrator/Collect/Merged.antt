-- ===== src/Orchestrator/Collect/Merged.antt =====
-- orchestrator/phases/collect.rs: what `collect_reports` makes of a round.
use mathlib.Core.List.{Permᴰ, Mem, mem-cons_self, mem-cons_of_mem}
use native.Mathlib.Decide.{ℕ_discrete}
use creo_bench.Prelude.{
  ℕ, suc, ◌+◌, ◌%◌, ◌<◌, ◌≡◌, ◌≢◌, refl, sym, ap, ◌∙◌, ◌⊎◌, inl, inr, String, none, some, List, [],
  ◌∷◌, ◌++◌, append_assoc, append-nil, arith, ok, err, length, get_elem?, All,
}
use creo_bench.Transaction.{TransactionResult}
use creo_bench.Tracker.{IntervalStatistics, IntervalReport, no_statistics, ◌⊕◌, sum_statistics}
use creo_bench.Orchestrator.Distribute.{u32_modulus}
use creo_bench.Orchestrator.Collect.{
  GeneratorHandle, time_mismatch, receive_round, sum_loads, max_final_batch_time, stats_of,
  find_mismatch, merge_reports, conclude, collect_reports,
}
use creo_bench.Orchestrator.Collect.Reporters.{
  Reporter, after, handles_after, reports_of, reporters, HasUpdate, Disconnected,
}

abbrev pub AtTime : ℕ → Reporter → Type 0
AtTime t r = r.report.target_time ≡ t

abbrev pub total_load : List Reporter → ℕ
total_load [] = 0
total_load (r ∷ rs) = r.report.load_level + total_load rs

abbrev pub all_results : List Reporter → List TransactionResult
all_results [] = []
all_results (r ∷ rs) = r.report.stats.transaction_results ++ all_results rs

pub sum_loads-reports_of :
    (rs : List Reporter) → sum_loads (reports_of rs) ≡ total_load rs % u32_modulus
unfolding sum_loads
sum_loads-reports_of [] = omega arith
sum_loads-reports_of (r ∷ rs) = omega (arith, sum_loads-reports_of rs)

pub total_load-Perm : {rs ss : List Reporter} → Permᴰ rs ss → total_load rs ≡ total_load ss
total_load-Perm Permᴰ.nil = refl
total_load-Perm (Permᴰ.cons e p) =
    omega (arith, total_load-Perm p, ap (λ (r : Reporter). r.report.load_level) e)
total_load-Perm (Permᴰ.swap e f) = omega (
  arith,
  ap (λ (r : Reporter). r.report.load_level) e,
  ap (λ (r : Reporter). r.report.load_level) f,
)
total_load-Perm (Permᴰ.trans p q) = total_load-Perm p ∙ total_load-Perm q

pub results-sum_statistics :
    (acc : IntervalStatistics) (rs : List Reporter)
    → (sum_statistics acc (stats_of (reports_of rs))).transaction_results
      ≡ acc.transaction_results ++ all_results rs
unfolding sum_statistics stats_of
results-sum_statistics acc [] = sym (append-nil acc.transaction_results)
results-sum_statistics acc (r ∷ rs) =
    results-sum_statistics (acc ⊕ r.report.stats) rs
    ∙ (unfold ◌⊕◌ in
        append_assoc acc.transaction_results r.report.stats.transaction_results (all_results rs))

-- A report with another target time, found at the index `k` behind `i`.
pub record Mismatch (expected i : ℕ) (order : List Reporter) : Type 0 where
  pub k : ℕ
  pub other : Reporter
  pub found : find_mismatch expected i (reports_of order) ≡ some (i + k, other.report)
  pub handle : get_elem? (handles_after order) k ≡ some (after other)
  pub member : Mem other order
  pub differs : other.report.target_time ≢ expected

find_mismatch-later :
    (expected i : ℕ) (r : Reporter) (rs : List Reporter)
    → r.report.target_time ≡ expected
    → find_mismatch expected i (reports_of (r ∷ rs))
      ≡ find_mismatch expected (suc i) (reports_of rs)
unfolding find_mismatch
find_mismatch-later expected i r rs e = ground arith

pub find_mismatch-none :
    (expected i : ℕ) (rs : List Reporter)
    → All (AtTime expected) rs
    → find_mismatch expected i (reports_of rs) ≡ none
unfolding find_mismatch
find_mismatch-none expected i [] same = refl
find_mismatch-none expected i (r ∷ rs) same =
    find_mismatch-later expected i r rs same.0 ∙ find_mismatch-none expected (suc i) rs same.1

find_mismatch-here :
    (expected i : ℕ) (r : Reporter) (rs : List Reporter)
    → r.report.target_time ≢ expected
    → find_mismatch expected i (reports_of (r ∷ rs)) ≡ some (i + 0, r.report)
unfolding find_mismatch
find_mismatch-here expected i r rs e = ground arith

pub find_mismatch-cases :
    (expected i : ℕ) (order : List Reporter)
    → ((find_mismatch expected i (reports_of order) ≡ none) × All (AtTime expected) order)
      ⊎ Mismatch expected i order
unfolding find_mismatch
find_mismatch-cases expected i [] = inl (refl, tt)
find_mismatch-cases expected i (r ∷ rs) = elim (ℕ_discrete r.report.target_time expected) [
  | no d ↦ inr (record {
    k = 0;
    other = r;
    found = find_mismatch-here expected i r rs d;
    handle = refl;
    member = mem-cons_self;
    differs = d;
  })
  | yes e ↦ elim (find_mismatch-cases expected (suc i) rs) [
    | inl (n, all) ↦ inl (find_mismatch-later expected i r rs e ∙ n, (e, all))
    | inr m ↦ inr (record {
      k = suc m.k;
      other = m.other;
      found =
          find_mismatch-later expected i r rs e
          ∙ m.found
          ∙ ap (λ (j : ℕ). some (j, m.other.report))
              (let z : suc i + m.k ≡ i + suc m.k = omega arith in z);
      handle = m.handle;
      member = mem-cons_of_mem r m.member;
      differs = m.differs;
    })
  ]
]

-- The record that `merge_reports` returns.
abbrev pub merged_of : Reporter → List Reporter → IntervalReport
merged_of r rs = record {
  target_time = r.report.target_time;
  load_level = sum_loads (reports_of (r ∷ rs));
  stats = sum_statistics no_statistics (stats_of (reports_of (r ∷ rs)));
  final_batch_time = max_final_batch_time (reports_of (r ∷ rs));
}

pub merge_reports-same :
    (r : Reporter) (rs : List Reporter) (handles : List GeneratorHandle)
    → find_mismatch r.report.target_time 0 (reports_of (r ∷ rs)) ≡ none
    → merge_reports (reports_of (r ∷ rs)) handles ≡ some (ok (some (merged_of r rs)))
unfolding merge_reports
merge_reports-same r rs handles e = rw (merge_reports, e)

pub merge_reports-other :
    (r : Reporter) (rs : List Reporter)
    → (m : Mismatch r.report.target_time 0 (r ∷ rs))
    → merge_reports (reports_of (r ∷ rs)) (handles_after (r ∷ rs))
      ≡ some (err (time_mismatch m.other.address r.report.target_time m.other.report.target_time))
unfolding merge_reports
merge_reports-other r rs m = rw (
  merge_reports,
  m.found,
  ap (get_elem? (handles_after (r ∷ rs))) (let z : 0 + m.k ≡ m.k = omega arith in z) ∙ m.handle,
)

pub collect_reports-conclude :
    (handles : List GeneratorHandle)
    → 0 < length handles
    → collect_reports handles ≡ conclude (receive_round (length handles) [] handles [])
unfolding collect_reports
collect_reports-conclude [] h = absurd (omega arith)
collect_reports-conclude (g ∷ hs) h = refl

pub length-reporters :
    (handles : List GeneratorHandle) → 0 < length (reporters handles) → 0 < length handles
length-reporters [] h = h
length-reporters (g ∷ hs) h = omega arith

pub not-Disconnected :
    (a : String) (handles : List GeneratorHandle) → All HasUpdate handles → ¬ Disconnected a handles
not-Disconnected a [] has d = d
not-Disconnected a (g ∷ hs) has (inl d) = absurd (omega (arith, has.0, ap length d.1))
not-Disconnected a (g ∷ hs) has (inr d) = not-Disconnected a hs has.1 d
