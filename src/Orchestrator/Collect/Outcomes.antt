-- ===== src/Orchestrator/Collect/Outcomes.antt =====
-- orchestrator/phases/collect.rs: the outcomes of `collect_reports`, by what the generators send.
use mathlib.Core.List.{Permᴰ, Mem, mem-cons_self}
use mathlib.Core.List.Permᴰ
use mathlib.Core.List.Perm
use creo_bench.Prelude.{
  ℕ, ◌%◌, ◌<◌, ◌≡◌, ◌≢◌, sym, ap, ◌∙◌, subst, inl, inr, String, some, List, [], ◌∷◌, arith, Result,
  ok, err, length, All,
}
use creo_bench.Tracker.{IntervalReport, no_statistics}
use creo_bench.Orchestrator.Distribute.{u32_modulus}
use creo_bench.Vectors.{Perm-length, All-Perm}
use creo_bench.Orchestrator.Collect.{
  GeneratorHandle, CollectError, instance_crashed, time_mismatch, receive_round, conclude,
  collect_reports,
}
use creo_bench.Orchestrator.Collect.Reporters.{
  Reporter, handles_after, reports_of, reporters, HasUpdate, Disconnected,
}
use creo_bench.Orchestrator.Collect.Rounds.{Round, complete, crashed, receive_round-Round}
use creo_bench.Orchestrator.Collect.Merged.{
  AtTime, total_load, all_results, sum_loads-reports_of, total_load-Perm, results-sum_statistics,
  find_mismatch-cases, merge_reports-same, merge_reports-other, find_mismatch-none, merged_of,
  collect_reports-conclude, length-reporters, not-Disconnected,
}

-- The report that the orchestrator makes of the reports of a round at the time `t`.
pub record IsMerged (t : ℕ) (handles : List GeneratorHandle) (order : List Reporter)
    (merged : IntervalReport) : Type 0 where
  pub at_time : merged.target_time ≡ t
  pub whole_load : merged.load_level ≡ total_load (reporters handles) % u32_modulus
  pub whole_results : merged.stats.transaction_results ≡ all_results order

-- Where every handle has an update, the round is complete.
record Completed (handles : List GeneratorHandle) : Type 0 where
  order : List Reporter
  perm : Permᴰ order (reporters handles)
  result :
      receive_round (length handles) [] handles [] ≡ (ok (reports_of order), handles_after order)

completed :
    (handles : List GeneratorHandle)
    → All HasUpdate handles
    → Round [] handles (receive_round (length handles) [] handles [])
    → Completed handles
completed handles has (complete order h p e) = record { order = order; perm = p; result = e }
completed handles has (crashed a d e) = absurd (not-Disconnected a handles has d)

HasUpdate-Completed : (handles : List GeneratorHandle) → All HasUpdate handles → Completed handles
HasUpdate-Completed handles has =
    completed handles has (receive_round-Round (length handles) [] handles (omega arith))

IsMerged-conclude :
    (t : ℕ) (handles : List GeneratorHandle) (order : List Reporter)
    → Permᴰ order (reporters handles)
    → 0 < length order
    → All (AtTime t) order
    → (merged : IntervalReport) × (conclude (ok (reports_of order), handles_after order)
        ≡ (some (ok (some merged)), handles_after order))
      × IsMerged t handles order merged
unfolding conclude
IsMerged-conclude t handles [] p h same = absurd (omega arith)
IsMerged-conclude t handles (r ∷ rs) p h same =
    let all = subst (λ (e : ℕ). All (AtTime e) (r ∷ rs)) (sym same.0) same in
    let e = find_mismatch-none r.report.target_time 0 (r ∷ rs) all in
    (
      merged_of r rs,
      ap (λ o. (o, handles_after (r ∷ rs))) (merge_reports-same r rs _ e),
      record {
        at_time = same.0;
        whole_load =
            sum_loads-reports_of (r ∷ rs) ∙ ap (λ (n : ℕ). n % u32_modulus) (total_load-Perm p);
        whole_results = results-sum_statistics no_statistics (r ∷ rs);
      },
    )

-- When every handle has an update waiting, at least one of them a report, and all reports that come
-- next have the target time `t`: `collect_reports` returns a report. The generators that reported
-- are taken in some order, each once, and the handles after the call are theirs without the report,
-- in the same order; the report has the target time `t`, the sum of their load levels modulo 2^32,
-- and their results one after the other.
pub collect_reports-IsMerged :
    (t : ℕ) (handles : List GeneratorHandle)
    → All HasUpdate handles
    → 0 < length (reporters handles)
    → All (AtTime t) (reporters handles)
    → (order : List Reporter) × (merged : IntervalReport) × Permᴰ order (reporters handles)
      × (collect_reports handles ≡ (some (ok (some merged)), handles_after order))
      × IsMerged t handles order merged
collect_reports-IsMerged t handles has some_report same =
    let c = HasUpdate-Completed handles has in
    let (merged, e, is) =
      IsMerged-conclude t handles c.order c.perm (omega (arith, Perm-length c.perm))
        (All-Perm (AtTime t) (Permᴰ.symm c.perm) same) in
    (
      c.order,
      merged,
      c.perm,
      collect_reports-conclude handles (length-reporters handles some_report)
          ∙ ap conclude c.result
          ∙ e,
      is,
    )

mismatch-conclude :
    (handles : List GeneratorHandle) (order : List Reporter)
    → Permᴰ order (reporters handles)
    → 0 < length order
    → ((t : ℕ) → ¬ All (AtTime t) (reporters handles))
    → (first other : Reporter) × Mem first (reporters handles)
      × Mem other (reporters handles)
      × (other.report.target_time ≢ first.report.target_time)
      × (conclude (ok (reports_of order), handles_after order) ≡ (
        some (err (time_mismatch other.address first.report.target_time other.report.target_time)),
        handles_after order,
      ))
unfolding conclude
mismatch-conclude handles [] p h differ = absurd (omega arith)
mismatch-conclude handles (r ∷ rs) p h differ =
    elim (find_mismatch-cases r.report.target_time 0 (r ∷ rs)) [
      | inl (e, all) ↦ absurd (differ r.report.target_time (All-Perm (AtTime _) p all))
      | inr m ↦ (
        r,
        m.other,
        (Perm.mem_iff ∣ p ∣₁).0 mem-cons_self,
        (Perm.mem_iff ∣ p ∣₁).0 m.member,
        m.differs,
        ap (λ o. (o, handles_after (r ∷ rs))) (merge_reports-other r rs m),
      )
    ]

-- When every handle has an update waiting, at least one of them a report, and there is no time that
-- all reports that come next have: `collect_reports` fails with a time mismatch, which names the
-- address and the time of a generator that reported, and as the expected time that of another one,
-- which differs.
pub collect_reports-time_mismatch :
    (handles : List GeneratorHandle)
    → All HasUpdate handles
    → 0 < length (reporters handles)
    → ((t : ℕ) → ¬ All (AtTime t) (reporters handles))
    → (first other : Reporter) × Mem first (reporters handles)
      × Mem other (reporters handles)
      × (other.report.target_time ≢ first.report.target_time)
      × ((collect_reports handles).0
          ≡ some
              (err (time_mismatch other.address first.report.target_time other.report.target_time)))
collect_reports-time_mismatch handles has some_report differ =
    let c = HasUpdate-Completed handles has in
    let (first, other, f, o, d, e) =
      mismatch-conclude handles c.order c.perm (omega (arith, Perm-length c.perm)) differ in
    (
      first,
      other,
      f,
      o,
      d,
      ap (λ r. r.0)
          (collect_reports-conclude handles (length-reporters handles some_report)
            ∙ ap conclude c.result
            ∙ e),
    )

length-Disconnected :
    (a : String) (handles : List GeneratorHandle) → Disconnected a handles → 0 < length handles
length-Disconnected a [] d = absurd d
length-Disconnected a (g ∷ hs) d = omega arith

crashed-conclude :
    (a : String) (handles : List GeneratorHandle)
    (o : Result (List IntervalReport) CollectError × List GeneratorHandle)
    → Disconnected a handles
    → Round [] handles o
    → (b : String) × Disconnected b handles × ((conclude o).0 ≡ some (err (instance_crashed b)))
unfolding conclude
crashed-conclude a handles o d (complete order has p e) = absurd (not-Disconnected a handles has d)
crashed-conclude a handles (err e', hs) d (crashed b c e) = (b, c, cc)
crashed-conclude a handles (ok rs, hs) d (crashed b c e) = cc

-- When a generator is disconnected, with no update waiting: `collect_reports` fails with a crash
-- that names the address of such a generator.
pub collect_reports-instance_crashed :
    (a : String) (handles : List GeneratorHandle)
    → Disconnected a handles
    → (b : String) × Disconnected b handles
      × ((collect_reports handles).0 ≡ some (err (instance_crashed b)))
collect_reports-instance_crashed a handles d =
    rw (collect_reports-conclude handles (length-Disconnected a handles d)) (
      crashed-conclude a handles _ d
        (receive_round-Round (length handles) [] handles (omega arith)))
