-- ===== src/Orchestrator/Persist/Files.antt =====
-- orchestrator/persist: what stands in the files when the loop has ended.
use creo_bench.Prelude.{
  ℕ, ◌≡◌, refl, ap, sym, subst, ◌∙◌, All, Option, none, some, List, [], ◌∷◌, ◌++◌, append_assoc,
  append-nil,
}
use creo_bench.Tracker.{IntervalReport}
use creo_bench.Transaction.{TransactionResult}
use creo_bench.Orchestrator.Phases.{Phase, PhaseClassifier, classify}
use creo_bench.Orchestrator.Csv.{line}
use creo_bench.Orchestrator.Csv.Reading.{Row, lines}
use creo_bench.Orchestrator.Rows.{Texts, interval_fields, transaction_fields}
use creo_bench.Orchestrator.Persist.{
  Sink, Persister, console, interval, transactions, write_results, persist, flush_one, for_each,
  write_report, writer_loop, unless_error, before_others,
}

-- The rows of the two files.
module _ (texts : Texts) where
  abbrev pub interval_rows : PhaseClassifier → List IntervalReport → List Row
  interval_rows c [] = []
  interval_rows c (report ∷ reports) =
      interval_fields texts report (classify c).0 ∷ interval_rows (classify c).1 reports

  abbrev pub result_rows : List TransactionResult → List Row
  result_rows [] = []
  result_rows (result ∷ results) = transaction_fields texts result ∷ result_rows results

  abbrev pub transaction_rows : List IntervalReport → List Row
  transaction_rows [] = []
  transaction_rows (report ∷ reports) =
      result_rows report.stats.transaction_results ++ transaction_rows reports

pub lines-append : (rows others : List Row) → lines (rows ++ others) ≡ lines rows ++ lines others
lines-append [] others = refl
lines-append (row ∷ rows) others =
    ap (line row ++◌) (lines-append rows others)
    ∙ sym (append_assoc (line row) (lines rows) (lines others))

module _ (sink : Sink) (texts : Texts) where
  open sink use {Writer, IoError, write, flush, text, file, write_lem, flush_lem}

  -- The second persister is the first, with these rows more written to it.
  abbrev pub Wrote : Persister sink texts → Persister sink texts → List Row → List Row → Type 0
  Wrote (console f w) (console g w') intervals results = f ≡ g
  Wrote (interval w) (interval w') intervals results = text w' ≡ text w ++ lines intervals
  Wrote (transactions w) (transactions w') intervals results = text w' ≡ text w ++ lines results
  Wrote _ _ intervals results = ⊥

  abbrev pub AllWrote :
      List (Persister sink texts) → List (Persister sink texts) → List Row → List Row → Type 0
  AllWrote [] [] intervals results = Unit {0}
  AllWrote (p ∷ ps) (q ∷ qs) intervals results =
      Wrote p q intervals results × AllWrote ps qs intervals results
  AllWrote _ _ intervals results = ⊥

  appended_twice :
      (a b c : List ℕ) (rows others : List Row)
      → b ≡ a ++ lines rows
      → c ≡ b ++ lines others
      → c ≡ a ++ lines (rows ++ others)
  appended_twice a b c rows others e e' =
      e'
      ∙ ap (λ t. t ++ lines others) e
      ∙ append_assoc a (lines rows) (lines others)
      ∙ ap (a ++◌) (sym (lines-append rows others))

  Wrote-trans :
      (p q r : Persister sink texts) (i i' t t' : List Row)
      → Wrote p q i t
      → Wrote q r i' t'
      → Wrote p r (i ++ i') (t ++ t')
  Wrote-trans (console f w) (console g w') (console h w'') i i' t t' a b = a ∙ b
  Wrote-trans (interval w) (interval w') (interval w'') i i' t t' a b =
      appended_twice (text w) (text w') (text w'') i i' a b
  Wrote-trans (transactions w) (transactions w') (transactions w'') i i' t t' a b =
      appended_twice (text w) (text w') (text w'') t t' a b
  Wrote-trans (console f w) (interval w') r i i' t t' a b = absurd a
  Wrote-trans (console f w) (transactions w') r i i' t t' a b = absurd a
  Wrote-trans (interval w) (console f w') r i i' t t' a b = absurd a
  Wrote-trans (interval w) (transactions w') r i i' t t' a b = absurd a
  Wrote-trans (transactions w) (console f w') r i i' t t' a b = absurd a
  Wrote-trans (transactions w) (interval w') r i i' t t' a b = absurd a
  Wrote-trans (console f w) (console g w') (interval w'') i i' t t' a b = absurd b
  Wrote-trans (console f w) (console g w') (transactions w'') i i' t t' a b = absurd b
  Wrote-trans (interval w) (interval w') (console g w'') i i' t t' a b = absurd b
  Wrote-trans (interval w) (interval w') (transactions w'') i i' t t' a b = absurd b
  Wrote-trans (transactions w) (transactions w') (console g w'') i i' t t' a b = absurd b
  Wrote-trans (transactions w) (transactions w') (interval w'') i i' t t' a b = absurd b

  AllWrote-trans :
      (ps qs rs : List (Persister sink texts)) (i i' t t' : List Row)
      → AllWrote ps qs i t
      → AllWrote qs rs i' t'
      → AllWrote ps rs (i ++ i') (t ++ t')
  AllWrote-trans [] [] [] i i' t t' a b = tt
  AllWrote-trans [] [] (r ∷ rs) i i' t t' a b = absurd b
  AllWrote-trans [] (q ∷ qs) rs i i' t t' a b = absurd a
  AllWrote-trans (p ∷ ps) [] rs i i' t t' a b = absurd a
  AllWrote-trans (p ∷ ps) (q ∷ qs) [] i i' t t' a b = absurd b
  AllWrote-trans (p ∷ ps) (q ∷ qs) (r ∷ rs) i i' t t' a b =
      (Wrote-trans p q r i i' t t' a.0 b.0, AllWrote-trans ps qs rs i i' t t' a.1 b.1)

  unless_error-none :
      {E S : Type 0} (m : Option E × S) (f : S → Option E × S)
      → (unless_error m f).0 ≡ none
      → (m.0 ≡ none) × ((f m.1).0 ≡ none) × (unless_error m f ≡ f m.1)
  unless_error-none (none, s) f h = (refl, h, refl)
  unless_error-none (some e, s) f h = cc

  write_results-appends :
      (results : List TransactionResult) (w : Writer)
      → (write_results sink texts results w).0 ≡ none
      → text (write_results sink texts results w).1 ≡ text w ++ lines (result_rows texts results)
  unfolding write_results
  write_results-appends [] w h = sym (append-nil (text w))
  write_results-appends (result ∷ results) w h =
      let row = line (transaction_fields texts result) in
      let (written, rest, same) =
        unless_error-none (write w row) (write_results sink texts results) h in
      ap (λ r. text r.1) same
      ∙ write_results-appends results (write w row).1 rest
      ∙ ap (λ t. t ++ lines (result_rows texts results)) (write_lem w row written)
      ∙ append_assoc (text w) row (lines (result_rows texts results))

  persist-Wrote :
      (report : IntervalReport) (phase : Phase) (p : Persister sink texts)
      → (persist sink texts p report phase).0 ≡ none
      → Wrote p
          (persist sink texts p report phase).1
          (interval_fields texts report phase ∷ [])
          (result_rows texts report.stats.transaction_results)
  unfolding persist
  persist-Wrote report phase (console f w) h = refl
  persist-Wrote report phase (interval w) h =
      write_lem w (line (interval_fields texts report phase)) h
      ∙ ap (text w ++◌) (sym (append-nil (line (interval_fields texts report phase))))
  persist-Wrote report phase (transactions w) h =
      write_results-appends report.stats.transaction_results w h

  flush_one-Wrote :
      (p : Persister sink texts)
      → (flush_one sink texts p).0 ≡ none
      → Wrote p (flush_one sink texts p).1 [] []
  unfolding flush_one
  flush_one-Wrote (console f w) h = refl
  flush_one-Wrote (interval w) h = (flush_lem w h).0 ∙ sym (append-nil (text w))
  flush_one-Wrote (transactions w) h = (flush_lem w h).0 ∙ sym (append-nil (text w))

  before_others-AllWrote :
      (i t : List Row) (p : Persister sink texts) (r : Option IoError × Persister sink texts)
      (ps : List (Persister sink texts)) (others : Option IoError × List (Persister sink texts))
      → (r.0 ≡ none → Wrote p r.1 i t)
      → (others.0 ≡ none → AllWrote ps others.1 i t)
      → (before_others sink texts r ps others).0 ≡ none
      → AllWrote (p ∷ ps) (before_others sink texts r ps others).1 i t
  before_others-AllWrote i t p (none, q) ps (e, qs) a b h = (a refl, b h)
  before_others-AllWrote i t p (some e, q) ps others a b h = cc

  for_each-AllWrote :
      (f : Persister sink texts → Option IoError × Persister sink texts) (i t : List Row)
      → ((p : Persister sink texts) → (f p).0 ≡ none → Wrote p (f p).1 i t)
      → (ps : List (Persister sink texts)) → (for_each sink texts f ps).0 ≡ none
      → AllWrote ps (for_each sink texts f ps).1 i t
  unfolding for_each
  for_each-AllWrote f i t w [] h = tt
  for_each-AllWrote f i t w (p ∷ ps) h =
      before_others-AllWrote i t p (f p) ps (for_each sink texts f ps) (w p)
        (for_each-AllWrote f i t w ps) h

  pub write_report-AllWrote :
      (report : IntervalReport) (phase : Phase) (ps : List (Persister sink texts))
      → (write_report sink texts report phase ps).0 ≡ none
      → AllWrote ps
          (write_report sink texts report phase ps).1
          (interval_fields texts report phase ∷ [])
          (result_rows texts report.stats.transaction_results)
  unfolding write_report
  write_report-AllWrote report phase ps h =
      let i = interval_fields texts report phase ∷ [] in
      let t = result_rows texts report.stats.transaction_results in
      let written = for_each sink texts (λ p. persist sink texts p report phase) ps in
      let (wrote, flushed, same) =
        unless_error-none written (for_each sink texts (flush_one sink texts)) h in
      subst (λ r. AllWrote ps r.1 i t) (sym same)
        (subst (λ rows. AllWrote ps (for_each sink texts (flush_one sink texts) written.1).1 i rows)
          (append-nil t)
          (AllWrote-trans ps written.1 (for_each sink texts (flush_one sink texts) written.1).1 i []
            t []
            (for_each-AllWrote (λ p. persist sink texts p report phase) i t
              (persist-Wrote report phase) ps wrote)
            (for_each-AllWrote (flush_one sink texts) [] [] flush_one-Wrote written.1 flushed)))

  -- All that has been written to these persisters is in their files.
  abbrev pub IsFlushed : Persister sink texts → Type 0
  IsFlushed (console f w) = Unit {0}
  IsFlushed (interval w) = file w ≡ text w
  IsFlushed (transactions w) = file w ≡ text w

  flush_one-IsFlushed :
      (p : Persister sink texts)
      → (flush_one sink texts p).0 ≡ none
      → IsFlushed (flush_one sink texts p).1
  unfolding flush_one
  flush_one-IsFlushed (console f w) h = tt
  flush_one-IsFlushed (interval w) h = (flush_lem w h).1 ∙ sym (flush_lem w h).0
  flush_one-IsFlushed (transactions w) h = (flush_lem w h).1 ∙ sym (flush_lem w h).0

  before_others-IsFlushed :
      (r : Option IoError × Persister sink texts) (ps : List (Persister sink texts))
      (others : Option IoError × List (Persister sink texts))
      → (r.0 ≡ none → IsFlushed r.1)
      → (others.0 ≡ none → All IsFlushed others.1)
      → (before_others sink texts r ps others).0 ≡ none
      → All IsFlushed (before_others sink texts r ps others).1
  before_others-IsFlushed (none, q) ps (e, qs) a b h = (a refl, b h)
  before_others-IsFlushed (some e, q) ps others a b h = cc

  flushes-IsFlushed :
      (ps : List (Persister sink texts))
      → (for_each sink texts (flush_one sink texts) ps).0 ≡ none
      → All IsFlushed (for_each sink texts (flush_one sink texts) ps).1
  unfolding for_each
  flushes-IsFlushed [] h = tt
  flushes-IsFlushed (p ∷ ps) h =
      before_others-IsFlushed (flush_one sink texts p) ps
        (for_each sink texts (flush_one sink texts) ps) (flush_one-IsFlushed p)
        (flushes-IsFlushed ps) h

  pub write_report-IsFlushed :
      (report : IntervalReport) (phase : Phase) (ps : List (Persister sink texts))
      → (write_report sink texts report phase ps).0 ≡ none
      → All IsFlushed (write_report sink texts report phase ps).1
  unfolding write_report
  write_report-IsFlushed report phase ps h =
      let written = for_each sink texts (λ p. persist sink texts p report phase) ps in
      let (wrote, flushed, same) =
        unless_error-none written (for_each sink texts (flush_one sink texts)) h in
      subst (λ r. All IsFlushed r.1) (sym same) (flushes-IsFlushed written.1 flushed)

  pub writer_loop-IsFlushed :
      (reports : List IntervalReport) (c : PhaseClassifier) (ps : List (Persister sink texts))
      → (writer_loop sink texts reports c ps).0 ≡ none
      → All IsFlushed (writer_loop sink texts reports c ps).1
  unfolding writer_loop
  writer_loop-IsFlushed [] c ps h = flushes-IsFlushed ps h
  writer_loop-IsFlushed (report ∷ reports) c ps h =
      let turn = write_report sink texts report (classify c).0 ps in
      let (wrote, rest, same) =
        unless_error-none turn (writer_loop sink texts reports (classify c).1) h in
      subst (λ r. All IsFlushed r.1) (sym same)
        (writer_loop-IsFlushed reports (classify c).1 turn.1 rest)

  pub writer_loop-AllWrote :
      (reports : List IntervalReport) (c : PhaseClassifier) (ps : List (Persister sink texts))
      → (writer_loop sink texts reports c ps).0 ≡ none
      → AllWrote ps
          (writer_loop sink texts reports c ps).1
          (interval_rows texts c reports)
          (transaction_rows texts reports)
  unfolding writer_loop
  writer_loop-AllWrote [] c ps h =
      for_each-AllWrote (flush_one sink texts) [] [] flush_one-Wrote ps h
  writer_loop-AllWrote (report ∷ reports) c ps h =
      let turn = write_report sink texts report (classify c).0 ps in
      let (wrote, rest, same) =
        unless_error-none turn (writer_loop sink texts reports (classify c).1) h in
      subst
        (λ r.
          AllWrote ps r.1 (interval_rows texts c (report ∷ reports))
            (transaction_rows texts (report ∷ reports)))
        (sym same)
        (AllWrote-trans ps turn.1 (writer_loop sink texts reports (classify c).1 turn.1).1
          (interval_fields texts report (classify c).0 ∷ [])
          (interval_rows texts (classify c).1 reports)
          (result_rows texts report.stats.transaction_results) (transaction_rows texts reports)
          (write_report-AllWrote report (classify c).0 ps wrote)
          (writer_loop-AllWrote reports (classify c).1 turn.1 rest))
