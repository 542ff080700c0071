-- ===== src/Orchestrator/Persist.antt =====
-- orchestrator/persist: the persisters, and the loop that hands them the reports.
pub mod Files
pub mod Contents
use creo_bench.Prelude.{ℕ, ◌≡◌, Option, none, some, List, [], ◌∷◌, ◌++◌, Result, ok, err}
use creo_bench.Tracker.{IntervalReport}
use creo_bench.Transaction.{TransactionResult}
use creo_bench.Orchestrator.Phases.{Phase, PhaseClassifier, classify}
use creo_bench.Orchestrator.Csv.{line}
use creo_bench.Orchestrator.Rows.{
  Texts, interval_header, transactions_header, interval_fields, transaction_fields,
}

-- A `BufWriter` over some `Write`: the text of all that has been written to it, and what of it is in
-- the file. A flush puts all of it there; how much is there before is not known, nor what there is
-- after an error.
pub record Sink : Type 1 where
  pub Writer : Type 0
  pub IoError : Type 0
  pub write : Writer → List ℕ → Option IoError × Writer
  pub flush : Writer → Option IoError × Writer
  pub text : Writer → List ℕ
  pub file : Writer → List ℕ
  pub write_lem :
      (w : Writer) (bytes : List ℕ)
      → (write w bytes).0 ≡ none
      → text (write w bytes).1 ≡ text w ++ bytes
  pub flush_lem :
      (w : Writer) → (flush w).0 ≡ none → (text (flush w).1 ≡ text w) × (file (flush w).1 ≡ text w)

-- What goes on unless there is an error.
abbrev pub unless_error : {E S : Type 0} → Option E × S → (S → Option E × S) → Option E × S
unless_error (none, s) f = f s
unless_error (some e, s) f = (some e, s)

module _ (sink : Sink) (texts : Texts) where
  open sink use {Writer, IoError, write, flush}

  -- The persisters with their writers. That of the console is given how it prints a report.
  pub data Persister : Type 0 where
    console : (IntervalReport → Phase → List ℕ) → Writer → Persister
    interval : Writer → Persister
    transactions : Writer → Persister

  created : (Writer → Persister) → Option IoError × Writer → Result Persister IoError
  created f (none, w) = ok (f w)
  created f (some e, w) = err e

  -- `IntervalCsvPersister::new` and `TransactionCsvPersister::new`.
  unfoldable pub new_interval : Writer → Result Persister IoError
  unfolding created
  new_interval w = created interval (write w (line interval_header))

  unfoldable pub new_transactions : Writer → Result Persister IoError
  unfolding created
  new_transactions w = created transactions (write w (line transactions_header))

  -- The loop of `TransactionCsvPersister::persist`.
  unfoldable pub write_results : List TransactionResult → Writer → Option IoError × Writer
  write_results [] w = (none, w)
  write_results (result ∷ results) w =
      unless_error (write w (line (transaction_fields texts result))) (write_results results)

  abbrev rewrapped : (Writer → Persister) → Option IoError × Writer → Option IoError × Persister
  rewrapped f (e, w) = (e, f w)

  -- `Persister::persist` of each; the console's ignores errors.
  unfoldable pub persist : Persister → IntervalReport → Phase → Option IoError × Persister
  persist (console f w) report phase = (none, console f (write w (f report phase)).1)
  persist (interval w) report phase =
      rewrapped interval (write w (line (interval_fields texts report phase)))
  persist (transactions w) report phase =
      rewrapped transactions (write_results report.stats.transaction_results w)

  unfoldable pub flush_one : Persister → Option IoError × Persister
  flush_one (console f w) = (none, console f (flush w).1)
  flush_one (interval w) = rewrapped interval (flush w)
  flush_one (transactions w) = rewrapped transactions (flush w)

  abbrev before_others :
      Option IoError × Persister
      → List Persister
      → Option IoError × List Persister
      → Option IoError × List Persister
  before_others (none, p) ps (e, qs) = (e, p ∷ qs)
  before_others (some e, p) ps others = (some e, p ∷ ps)

  -- The loops over the persisters, which stop at the first error.
  unfoldable pub for_each :
      (Persister → Option IoError × Persister) → List Persister → Option IoError × List Persister
  for_each f [] = (none, [])
  for_each f (p ∷ ps) = before_others (f p) ps (for_each f ps)

  -- One turn of the loop of `writer_loop`.
  unfoldable pub write_report :
      IntervalReport → Phase → List Persister → Option IoError × List Persister
  unfolding for_each persist flush_one
  write_report report phase ps =
      unless_error (for_each (λ p. persist p report phase) ps) (for_each flush_one)

  -- `writer_loop` over the reports that the channel yields until it closes.
  unfoldable pub writer_loop :
      List IntervalReport → PhaseClassifier → List Persister → Option IoError × List Persister
  unfolding write_report
  writer_loop [] c ps = for_each flush_one ps
  writer_loop (report ∷ reports) c ps =
      let (phase, c') = classify c in
      unless_error (write_report report phase ps) (writer_loop reports c')
