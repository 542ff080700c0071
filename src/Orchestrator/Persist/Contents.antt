-- ===== src/Orchestrator/Persist/Contents.antt =====
-- orchestrator/persist: the two files of a load test, read back.
use creo_bench.Prelude.{
  ℕ, ◌≡◌, ◌≢◌, refl, ap, sym, subst, ◌∙◌, Option, none, some, List, [], ◌∷◌, ◌++◌, All, All-append,
  append-nil, ok,
}
use creo_bench.Tracker.{IntervalReport}
use creo_bench.Transaction.{TransactionResult, success, failed, timeout, dropped}
use creo_bench.Orchestrator.Phases.{Phase, PhaseClassifier, classify}
use creo_bench.Orchestrator.Csv.{line}
use creo_bench.Orchestrator.Csv.Reading.{Row, lines, HasFields, read_rows, read_rows-lines}
use creo_bench.Orchestrator.Rows.{
  Texts, interval_header, transactions_header, interval_fields, transaction_fields,
}
use creo_bench.Orchestrator.Persist.{
  Sink, Persister, console, interval, transactions, created, new_interval, new_transactions,
  write_report, writer_loop,
}
use creo_bench.Orchestrator.Persist.Files.{
  interval_rows, result_rows, transaction_rows, lines-append, Wrote, AllWrote, IsFlushed,
  write_report-AllWrote, write_report-IsFlushed, writer_loop-AllWrote, writer_loop-IsFlushed,
}

module _ (texts : Texts) where
  interval_rows-HasFields :
      (c : PhaseClassifier) (reports : List IntervalReport)
      → All HasFields (interval_rows texts c reports)
  unfolding interval_fields
  interval_rows-HasFields c [] = tt
  interval_rows-HasFields c (report ∷ reports) =
      (λ e. cc, interval_rows-HasFields (classify c).1 reports)

  transaction_fields-HasFields :
      (result : TransactionResult) → HasFields (transaction_fields texts result)
  unfolding transaction_fields
  transaction_fields-HasFields (success m r s) e = cc
  transaction_fields-HasFields (failed m r s code) e = cc
  transaction_fields-HasFields (timeout m r s code) e = cc
  transaction_fields-HasFields (dropped m r code) e = cc

  result_rows-HasFields :
      (results : List TransactionResult) → All HasFields (result_rows texts results)
  result_rows-HasFields [] = tt
  result_rows-HasFields (result ∷ results) =
      (transaction_fields-HasFields result, result_rows-HasFields results)

  transaction_rows-HasFields :
      (reports : List IntervalReport) → All HasFields (transaction_rows texts reports)
  transaction_rows-HasFields [] = tt
  transaction_rows-HasFields (report ∷ reports) =
      All-append HasFields (result_rows texts report.stats.transaction_results)
        (transaction_rows texts reports) (result_rows-HasFields report.stats.transaction_results)
        (transaction_rows-HasFields reports)

module _ (sink : Sink) (texts : Texts) where
  open sink use {Writer, IoError, write, text, file, write_lem}

  created_ok :
      (f : Writer → Persister sink texts) (m : Option IoError × Writer) (p : Persister sink texts)
      → created sink texts f m ≡ ok p
      → (m.0 ≡ none) × (f m.1 ≡ p)
  unfolding created
  created_ok f (none, w) p h = (refl, cc)
  created_ok f (some e, w) p h = cc

  Wrote-console :
      (f : IntervalReport → Phase → List ℕ) (w : Writer) (q : Persister sink texts) (i t : List Row)
      → Wrote sink texts (console f w) q i t
      → (w' : Writer) × (q ≡ console f w')
  Wrote-console f w (console g w') i t h = (w', ap (λ k. console k w') (sym h))
  Wrote-console f w (interval w') i t h = absurd h
  Wrote-console f w (transactions w') i t h = absurd h

  Wrote-interval :
      (w : Writer) (q : Persister sink texts) (i t : List Row)
      → Wrote sink texts (interval w) q i t
      → (w' : Writer) × (q ≡ interval w') × (text w' ≡ text w ++ lines i)
  Wrote-interval w (console g w') i t h = absurd h
  Wrote-interval w (interval w') i t h = (w', refl, h)
  Wrote-interval w (transactions w') i t h = absurd h

  Wrote-transactions :
      (w : Writer) (q : Persister sink texts) (i t : List Row)
      → Wrote sink texts (transactions w) q i t
      → (w' : Writer) × (q ≡ transactions w') × (text w' ≡ text w ++ lines t)
  Wrote-transactions w (console g w') i t h = absurd h
  Wrote-transactions w (interval w') i t h = absurd h
  Wrote-transactions w (transactions w') i t h = (w', refl, h)

  -- The three persisters of a load test, with the rows in their files, for a reader.
  abbrev pub HaveRows :
      (IntervalReport → Phase → List ℕ) → List Row → List Row → List (Persister sink texts) → Type 0
  HaveRows f intervals results ps =
      (w : Writer) × (i : Writer) × (t : Writer) × (ps
        ≡ console f w ∷ interval i ∷ transactions t ∷ [])
      × (read_rows (file i) ≡ some intervals)
      × (read_rows (file t) ≡ some results)

  -- A writer to which rows have been written.
  abbrev pub HasWritten : List Row → Writer → Type 0
  HasWritten rows w = All HasFields rows × (text w ≡ lines rows)

  contents_of :
      (w w' : Writer) (before rows : List Row)
      → HasWritten before w
      → All HasFields rows
      → text w' ≡ text w ++ lines rows
      → file w' ≡ text w'
      → read_rows (file w') ≡ some (before ++ rows)
  contents_of w w' before rows (h, e) h' written flushed =
      ap read_rows
        (flushed ∙ written ∙ ap (λ t. t ++ lines rows) e ∙ sym (lines-append before rows))
      ∙ read_rows-lines (before ++ rows) (All-append HasFields before rows h h')

  three :
      (f : IntervalReport → Phase → List ℕ) (w i0 t0 : Writer) (ps : List (Persister sink texts))
      (ir0 tr0 ir tr : List Row)
      → HasWritten ir0 i0
      → HasWritten tr0 t0
      → All HasFields ir
      → All HasFields tr
      → AllWrote sink texts (console f w ∷ interval i0 ∷ transactions t0 ∷ []) ps ir tr
      → All (IsFlushed sink texts) ps
      → HaveRows f (ir0 ++ ir) (tr0 ++ tr) ps
  three f w i0 t0 [] ir0 tr0 ir tr wi wt hi ht h d = absurd h
  three f w i0 t0 (p ∷ []) ir0 tr0 ir tr wi wt hi ht h d = absurd h.1
  three f w i0 t0 (p ∷ q ∷ []) ir0 tr0 ir tr wi wt hi ht h d = absurd h.1.1
  three f w i0 t0 (p ∷ q ∷ r ∷ s ∷ ps) ir0 tr0 ir tr wi wt hi ht h d = absurd h.1.1.1
  three f w i0 t0 (p ∷ q ∷ r ∷ []) ir0 tr0 ir tr wi wt hi ht h d =
      let (w', ep) = Wrote-console f w p ir tr h.0 in
      let (i, eq, ti) = Wrote-interval i0 q ir tr h.1.0 in
      let (t, er, tt') = Wrote-transactions t0 r ir tr h.1.1.0 in
      (
        w',
        i,
        t,
        cc (ep, eq, er),
        contents_of i0 i ir0 ir wi hi ti (subst (IsFlushed sink texts) eq d.1.0),
        contents_of t0 t tr0 tr wt ht tt' (subst (IsFlushed sink texts) er d.1.1.0),
      )

  header_written :
      (w : Writer) (header : Row)
      → header ≢ []
      → text w ≡ []
      → (write w (line header)).0 ≡ none
      → HasWritten (header ∷ []) (write w (line header)).1
  header_written w header n empty e = (
    (n, tt),
    write_lem w (line header) e ∙ ap (λ t. t ++ line header) empty ∙ sym (append-nil (line header)),
  )

  -- Let the rows `ir` have been written to the writer of the interval persister and the rows `tr`
  -- to that of the transactions persister, each row with at least one field, and let the turn of
  -- `writer_loop` for a report end without an error, with the console's persister and these two.
  -- Then, already after this turn, a reader with the grammar of RFC 4180, in which a row may also
  -- end with a newline alone, reads from the file interval.csv the rows `ir` and behind them that
  -- of the report, and from transactions.csv the rows `tr` and behind them those of its results.
  pub write_report-contents :
      (report : IntervalReport) (phase : Phase) (f : IntervalReport → Phase → List ℕ)
      (w i t : Writer) (ir tr : List Row) (ps : List (Persister sink texts))
      → HasWritten ir i
      → HasWritten tr t
      → write_report sink texts report phase (console f w ∷ interval i ∷ transactions t ∷ [])
        ≡ (none, ps)
      → HaveRows f
          (ir ++ interval_fields texts report phase ∷ [])
          (tr ++ result_rows texts report.stats.transaction_results)
          ps
  unfolding interval_fields
  write_report-contents report phase f w i t ir tr ps wi wt run =
      let before = console f w ∷ interval i ∷ transactions t ∷ [] in
      let row = interval_fields texts report phase ∷ [] in
      let results = result_rows texts report.stats.transaction_results in
      let ends = ap (λ r. r.0) run in
      three f w i t ps ir tr row results wi wt (λ e. cc, tt)
        (result_rows-HasFields texts report.stats.transaction_results)
        (subst (λ r. AllWrote sink texts before r.1 row results) run
          (write_report-AllWrote sink texts report phase before ends))
        (subst (λ r. All (IsFlushed sink texts) r.1) run
          (write_report-IsFlushed sink texts report phase before ends))

  -- Let the interval and the transactions persister be made on empty writers, and let `writer_loop`
  -- over the console's persister and these two end without an error, for any reports. Then it ends
  -- with the same three persisters, and a reader with the grammar of RFC 4180, in which a row may
  -- also end with a newline alone, reads from the file interval.csv the header and a row for each
  -- report, in order, with the phase that the classifier gives it; and from transactions.csv the
  -- header and a row for each result of each report, in order. No row is lost, doubled or left in a
  -- buffer, whatever the texts in the fields.
  pub writer_loop-contents :
      (reports : List IntervalReport) (c : PhaseClassifier) (f : IntervalReport → Phase → List ℕ)
      (w i t : Writer) (pi pt : Persister sink texts) (ps : List (Persister sink texts))
      → text i ≡ []
      → text t ≡ []
      → new_interval sink texts i ≡ ok pi
      → new_transactions sink texts t ≡ ok pt
      → writer_loop sink texts reports c (console f w ∷ pi ∷ pt ∷ []) ≡ (none, ps)
      → HaveRows f
          (interval_header ∷ interval_rows texts c reports)
          (transactions_header ∷ transaction_rows texts reports)
          ps
  unfolding new_interval new_transactions
  writer_loop-contents reports c f w i t pi pt ps ei et ci ct run =
      let (wi, si) = created_ok interval (write i (line interval_header)) pi ci in
      let (wt, st) = created_ok transactions (write t (line transactions_header)) pt ct in
      let ir = interval_rows texts c reports in
      let tr = transaction_rows texts reports in
      let ends = ap (λ r. r.0) run in
      let all =
        subst (λ r. AllWrote sink texts (console f w ∷ pi ∷ pt ∷ []) r.1 ir tr) run
          (writer_loop-AllWrote sink texts reports c (console f w ∷ pi ∷ pt ∷ []) ends) in
      let all_i =
        subst (λ p. AllWrote sink texts (console f w ∷ p ∷ pt ∷ []) ps ir tr) (sym si) all in
      let all_t =
        subst
          (λ p.
            AllWrote sink texts (console f w ∷ interval (write i (line interval_header)).1 ∷ p ∷ [])
              ps ir tr)
          (sym st) all_i in
      three f w (write i (line interval_header)).1 (write t (line transactions_header)).1 ps
        (interval_header ∷ []) (transactions_header ∷ []) ir tr
        (header_written i interval_header (λ e. cc) ei wi)
        (header_written t transactions_header (λ e. cc) et wt)
        (interval_rows-HasFields texts c reports) (transaction_rows-HasFields texts reports) all_t
        (subst (λ r. All (IsFlushed sink texts) r.1) run
          (writer_loop-IsFlushed sink texts reports c (console f w ∷ pi ∷ pt ∷ []) ends))
