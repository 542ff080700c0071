-- ===== src/Tests/Files.antt =====
-- The files of a load test with two reports, written to buffered writers that never fail.
use creo_bench.Prelude.{
  ℕ, ◌≡◌, refl, sym, append_assoc, append-nil, none, some, List, [], ◌∷◌, ◌++◌,
}
use creo_bench.Script.Text.{codes}
use creo_bench.Transaction.{TransactionResult, success, dropped, late}
use creo_bench.Tracker.{IntervalReport}
use creo_bench.Orchestrator.Phases.{Phase, load, new_classifier}
use creo_bench.Orchestrator.Csv.{line}
use creo_bench.Orchestrator.Csv.Reading.{Row, lines, read_rows, read_rows-lines}
use creo_bench.Orchestrator.Rows.{Texts, interval_header, transactions_header, interval_fields}
use creo_bench.Orchestrator.Persist.{
  Sink, Persister, console, interval, transactions, new_interval, new_transactions, writer_loop,
  write_results, persist, flush_one, for_each, write_report,
}
use creo_bench.Orchestrator.Persist.Files.{interval_rows, result_rows, transaction_rows}
use creo_bench.Orchestrator.Persist.Contents.{HaveRows, write_report-contents, writer_loop-contents}

abbrev two_rows : List Row
two_rows =
    (codes "a,b" ∷ codes "" ∷ codes "1" ∷ []) ∷ ((b'"' ∷ 10 ∷ []) ∷ (b'c' ∷ 13 ∷ []) ∷ []) ∷ []

read_rows-lines_example : read_rows (lines two_rows) ≡ some two_rows
read_rows-lines_example = read_rows-lines two_rows (λ e. cc, (λ e. cc, tt))

-- What is in the file, and what is in the buffer.
abbrev memory : Sink
memory = record {
  Writer = List ℕ × List ℕ;
  IoError = ℕ;
  write = λ w bytes. (none, (w.0, w.1 ++ bytes));
  flush = λ w. (none, (w.0 ++ w.1, []));
  text = λ w. w.0 ++ w.1;
  file = λ w. w.0;
  write_lem = λ w bytes h. sym (append_assoc w.0 w.1 bytes);
  flush_lem = λ w h. (append-nil (w.0 ++ w.1), refl);
}

abbrev texts : Texts
texts = record {
  number = λ n. n ∷ [];
  seconds = λ n. n ∷ b'.' ∷ [];
  debug_failed = λ code. codes "Status(500)";
  debug_timeout = λ code. codes "Error(\"timed out\")";
  debug_dropped = λ code. codes "Late";
}

abbrev results : List TransactionResult
results =
    success
      (record {
        spec_id = 1;
        virtual_user_id = 2;
        loadgenerator_id = 0;
        start_time = 5;
        send_time = 6;
        target_time = 7;
      })
      8 9
    ∷ dropped
        (record { virtual_user_id = none; loadgenerator_id = 0; start_time = 5; target_time = 7 }) 3
        late
    ∷ []

abbrev report_of : List TransactionResult → IntervalReport
report_of rs = record {
  target_time = 7;
  load_level = 2;
  stats = record {
    successful_transactions = 1;
    failed_transactions = 0;
    timeout_transactions = 0;
    dropped_transactions = 1;
    response_time_sum = 8;
    response_time_count = 1;
    transaction_results = rs;
  };
  final_batch_time = none;
}

abbrev reports : List IntervalReport
reports = report_of results ∷ report_of [] ∷ []

abbrev print : IntervalReport → Phase → List ℕ
print report phase = codes "TARGET"

abbrev persisters : List (Persister memory texts)
persisters =
    console print ([], [])
    ∷ interval ([], line interval_header)
    ∷ transactions ([], line transactions_header)
    ∷ []

abbrev written : List (Persister memory texts)
written = (writer_loop memory texts reports (new_classifier 1 0) persisters).1

writer_loop-contents_example :
    HaveRows memory texts print
      (interval_header ∷ interval_rows texts (new_classifier 1 0) reports)
      (transactions_header ∷ transaction_rows texts reports)
      written
unfolding new_interval new_transactions writer_loop write_results persist flush_one for_each
    write_report
writer_loop-contents_example =
    writer_loop-contents memory texts reports (new_classifier 1 0) print ([], []) ([], []) ([], [])
      (interval ([], line interval_header)) (transactions ([], line transactions_header)) written
      refl refl refl refl refl

abbrev after_report : List (Persister memory texts)
after_report = (write_report memory texts (report_of results) load persisters).1

write_report-contents_example :
    HaveRows memory texts print
      (interval_header ∷ interval_fields texts (report_of results) load ∷ [])
      (transactions_header ∷ result_rows texts results)
      after_report
unfolding write_results persist flush_one for_each write_report
write_report-contents_example =
    write_report-contents memory texts (report_of results) load print ([], [])
      ([], line interval_header) ([], line transactions_header) (interval_header ∷ [])
      (transactions_header ∷ []) after_report
      ((λ e. cc, tt), sym (append-nil (line interval_header)))
      ((λ e. cc, tt), sym (append-nil (line transactions_header))) refl
