-- ===== src/Orchestrator/Collect/Rounds.antt =====
-- orchestrator/phases/collect.rs: how the loop of a round ends.
use mathlib.Core.List.{Permᴰ}
use creo_bench.Prelude.{
  ℕ, zero, suc, ◌≤◌, ◌≡◌, refl, inl, inr, String, List, [], ◌∷◌, ◌++◌, append_assoc, append-nil,
  arith, Result, ok, err, length, All,
}
use creo_bench.Tracker.{IntervalReport}
use creo_bench.Vectors.{swap_remove_head, swap_remove_head-Perm, Perm-length, All-Perm}
use creo_bench.Orchestrator.Collect.{
  GeneratorUpdate, interval_report, finished, GeneratorHandle, CollectError, instance_crashed,
  receive_round,
}
use creo_bench.Orchestrator.Collect.Reporters.{
  Reporter, handles_after, reports_of, reporters, HasUpdate, Disconnected, reporters-Perm,
  Disconnected-Perm, handles_after-append, reports_of-append,
}

-- A round over `handles`, behind the reporters `done`: each handle has an update, and those that
-- report follow in some order; or one of them is disconnected.
pub data Round (done : List Reporter) (handles : List GeneratorHandle)
    (o : Result (List IntervalReport) CollectError × List GeneratorHandle) : Type 0 where
  complete :
      (order : List Reporter)
      → All HasUpdate handles
      → Permᴰ order (reporters handles)
      → o ≡ (ok (reports_of (done ++ order)), handles_after (done ++ order))
      → Round done handles o
  crashed :
      (a : String) → Disconnected a handles → o.0 ≡ err (instance_crashed a) → Round done handles o

Round-reports :
    (done : List Reporter) (h : GeneratorHandle) (rest : List GeneratorHandle) (r : IntervalReport)
    (later : List GeneratorUpdate)
    (o : Result (List IntervalReport) CollectError × List GeneratorHandle)
    → h.receiver ≡ interval_report r ∷ later
    → Round (done ++ record { address = h.address; report = r; later = later } ∷ []) rest o
    → Round done (h ∷ rest) o
Round-reports done h rest r later o e (complete order has p q) =
    let x : Reporter = record { address = h.address; report = r; later = later } in
    complete (x ∷ order) (rw e (omega arith), has) (rw e (Permᴰ.cons refl p))
      (rw (← append_assoc done (x ∷ []) order) q)
Round-reports done h rest r later o e (crashed a d q) = crashed a (inr d) q

Round-finished :
    (done : List Reporter) (h : GeneratorHandle) (rest : List GeneratorHandle)
    (later : List GeneratorUpdate)
    (o : Result (List IntervalReport) CollectError × List GeneratorHandle)
    → h.receiver ≡ finished ∷ later
    → Round done (swap_remove_head (h ∷ rest)) o
    → Round done (h ∷ rest) o
Round-finished done h rest later o e (complete order has p q) =
    complete order (rw e (omega arith), All-Perm HasUpdate (swap_remove_head-Perm h rest) has)
      (rw e (Permᴰ.trans p (reporters-Perm (swap_remove_head-Perm h rest)))) q
Round-finished done h rest later o e (crashed a d q) =
    crashed a (inr (Disconnected-Perm a (swap_remove_head-Perm h rest) d)) q

module _ (fuel : ℕ) (seen : List GeneratorHandle) (g : GeneratorHandle)
    (rest : List GeneratorHandle) (reports : List IntervalReport) where
  receive_round_crash :
      g.receiver ≡ []
      → (receive_round (suc fuel) seen (g ∷ rest) reports).0 ≡ err (instance_crashed g.address)
  unfolding receive_round
  receive_round_crash e = rw (receive_round, e)

  receive_round_report :
      (r : IntervalReport) (later : List GeneratorUpdate)
      → g.receiver ≡ interval_report r ∷ later
      → receive_round (suc fuel) seen (g ∷ rest) reports
        ≡ receive_round fuel
            (seen ++ record { address = g.address; receiver = later } ∷ [])
            rest
            (reports ++ r ∷ [])
  unfolding receive_round
  receive_round_report r later e = rw (receive_round, e)

  receive_round_finish :
      (later : List GeneratorUpdate)
      → g.receiver ≡ finished ∷ later
      → receive_round (suc fuel) seen (g ∷ rest) reports
        ≡ receive_round fuel seen (swap_remove_head (g ∷ rest)) reports
  unfolding receive_round swap_remove_head
  receive_round_finish later e = rw (receive_round, e)

-- By the next update of the handle `g`.
Round-suc :
    (fuel : ℕ)
    → ((done : List Reporter) (handles : List GeneratorHandle)
        → length handles ≤ fuel
        → Round done handles (receive_round fuel (handles_after done) handles (reports_of done)))
    → (done : List Reporter) (g : GeneratorHandle) (rest : List GeneratorHandle)
    → length rest ≤ fuel
    → (u : List GeneratorUpdate) → g.receiver ≡ u
    → Round done
        (g ∷ rest)
        (receive_round (suc fuel) (handles_after done) (g ∷ rest) (reports_of done))
Round-suc fuel again done g rest h [] e =
    crashed g.address (inl (refl, e)) (receive_round_crash fuel _ g rest _ e)
Round-suc fuel again done g rest h (interval_report r ∷ later) e =
    let x : Reporter = record { address = g.address; report = r; later = later } in
    Round-reports done g rest r later _ e (
      rw
        (
          receive_round_report fuel (handles_after done) g rest (reports_of done) r later e,
          handles_after-append done g.address r later,
          reports_of-append done g.address r later,
        )
        (again (done ++ x ∷ []) rest h))
Round-suc fuel again done g rest h (finished ∷ later) e = Round-finished done g rest later _ e (
    rw (receive_round_finish fuel (handles_after done) g rest (reports_of done) later e) (
      again done (swap_remove_head (g ∷ rest))
        (omega (arith, Perm-length (swap_remove_head-Perm g rest)))))

-- With fuel for each handle, a round ends.
pub receive_round-Round :
    (fuel : ℕ) (done : List Reporter) (handles : List GeneratorHandle)
    → length handles ≤ fuel
    → Round done handles (receive_round fuel (handles_after done) handles (reports_of done))
unfolding receive_round
receive_round-Round fuel done [] h = complete [] tt Permᴰ.nil (rw append-nil)
receive_round-Round zero done (g ∷ rest) h = absurd (omega arith)
receive_round-Round (suc fuel) done (g ∷ rest) h =
    Round-suc fuel (λ d hs k. receive_round-Round fuel d hs k) done g rest (omega arith) g.receiver
      refl
