-- ===== src/LoadGenerator/Phases/Reports.antt =====
-- load_generator/phases/ready.rs: the results in the reports of a load test.
use creo_bench.Prelude.{
  ℕ, suc, ◌+◌, ◌*◌, ◌/◌, ◌≡◌, refl, ap, sym, subst, ◌∙◌, Bool, true, false, Option, none, some,
  List, [], ◌∷◌, ◌++◌, append_assoc, append-nil, take, ok, err, get_elem?, ◌==◌, ==_iff,
}
use creo_bench.Transaction.{TransactionResult}
use creo_bench.Tracker.{
  Tracker, IntervalReport, log_result, log_interval, log_dispatched, interval_statistics,
  statistics_of, inflight_count,
}
use creo_bench.Orchestrator.Collect.{GeneratorUpdate, interval_report, finished}
use creo_bench.LoadGenerator.Phases.{
  Activity, dispatches, logs, perform, StepDone, Turn, DrainTurn, Ready, Link, Outcome, next,
  sent_or, send_update, send_report, performed, report_step, run_phase, drain_end, drain_turn,
  drain, load_test, nanos_per_sec,
}

abbrev pub logged_in : List Activity → List TransactionResult
logged_in [] = []
logged_in (dispatches n ∷ activities) = logged_in activities
logged_in (logs result ∷ activities) = result ∷ logged_in activities

-- The results in the reports that have been sent.
abbrev pub reported : List GeneratorUpdate → List TransactionResult
reported [] = []
reported (interval_report report ∷ updates) = report.stats.transaction_results ++ reported updates
reported (finished ∷ updates) = reported updates

-- The results that have been reported, and those that wait for a report.
abbrev pub recorded : Ready → List TransactionResult
recorded r = reported r.sent ++ r.tracker.interval.transaction_results

abbrev pub turn_activities : List Turn → List Activity
turn_activities [] = []
turn_activities (turn ∷ turns) = turn.until_report ++ turn_activities turns

abbrev pub drain_activities : List DrainTurn → List Activity
drain_activities [] = []
drain_activities (turn ∷ turns) = turn.until_report ++ (turn.while_sent ++ drain_activities turns)

logged_in-append : (a b : List Activity) → logged_in (a ++ b) ≡ logged_in a ++ logged_in b
logged_in-append [] b = refl
logged_in-append (dispatches n ∷ a) b = logged_in-append a b
logged_in-append (logs result ∷ a) b = ap (◌∷◌ result) (logged_in-append a b)

reported-append : (a b : List GeneratorUpdate) → reported (a ++ b) ≡ reported a ++ reported b
reported-append [] b = refl
reported-append (finished ∷ a) b = reported-append a b
reported-append (interval_report report ∷ a) b =
    ap (report.stats.transaction_results ++◌) (reported-append a b)
    ∙ sym (append_assoc report.stats.transaction_results (reported a) (reported b))

perform-results :
    (activities : List Activity) (t : Tracker)
    → (perform activities t).interval.transaction_results
      ≡ t.interval.transaction_results ++ logged_in activities
unfolding perform log_result log_interval log_dispatched
perform-results [] t = sym (append-nil t.interval.transaction_results)
perform-results (dispatches n ∷ activities) t = perform-results activities (log_dispatched t n)
perform-results (logs result ∷ activities) t =
    perform-results activities (log_result t result)
    ∙ append_assoc t.interval.transaction_results (result ∷ []) (logged_in activities)

recorded-performed :
    (activities : List Activity) (r : Ready)
    → recorded (performed activities r) ≡ recorded r ++ logged_in activities
recorded-performed activities r =
    ap (reported r.sent ++◌) (perform-results activities r.tracker)
    ∙ sym (
        append_assoc (reported r.sent) r.tracker.interval.transaction_results
          (logged_in activities))

recorded-logged :
    (r : Ready) (a b : List Activity)
    → (recorded r ++ logged_in a) ++ logged_in b ≡ recorded r ++ logged_in (a ++ b)
recorded-logged r a b =
    append_assoc (recorded r) (logged_in a) (logged_in b)
    ∙ ap (recorded r ++◌) (sym (logged_in-append a b))

module _ (link : Link) where
  -- A phase that has ended has recorded these results.
  abbrev Records : List TransactionResult → Outcome link → Type 0
  Records results (ok done, r) = recorded r ≡ results
  Records results (err e, r) = Unit {0}

  Records-eq : (a b : List TransactionResult) (o : Outcome link) → a ≡ b → Records a o → Records b o
  Records-eq a b (ok done, r) e h = h ∙ e
  Records-eq a b (err x, r) e h = tt

  next-Records :
      (results after : List TransactionResult) (o : Outcome link) (f : Ready → Outcome link)
      → Records results o
      → ((r : Ready) → recorded r ≡ results → Records after (f r))
      → Records after (next link o f)
  next-Records results after (ok done, r) f h g = g r h
  next-Records results after (err e, r) f h g = tt

  sent_or-Records :
      (r : Ready) (report : IntervalReport) (o : Option link.SendError)
      → r.tracker.interval.transaction_results ≡ []
      → Records
          (reported r.sent ++ report.stats.transaction_results)
          (sent_or link r (interval_report report) o)
  unfolding sent_or
  sent_or-Records r report none e =
      ap (reported (r.sent ++ interval_report report ∷ []) ++◌) e
      ∙ append-nil (reported (r.sent ++ interval_report report ∷ []))
      ∙ reported-append r.sent (interval_report report ∷ [])
      ∙ ap (reported r.sent ++◌) (append-nil report.stats.transaction_results)
  sent_or-Records r report (some x) e = tt

  send_report-Records :
      (target level : ℕ) (batch : Option ℕ) (r : Ready)
      → Records (recorded r) (send_report link target level batch r)
  unfolding send_report send_update interval_statistics statistics_of
  send_report-Records target level batch r =
      sent_or-Records (record r { tracker = (interval_statistics r.tracker).1 })
        (record {
          target_time = target;
          load_level = level;
          stats = (interval_statistics r.tracker).0;
          final_batch_time = batch;
        })
        _ refl

  report_step-Records :
      (deadline level : Option ℕ) (done : StepDone) (r : Ready)
      → Records (recorded r) (report_step link deadline level done r)
  unfolding report_step
  report_step-Records (some deadline) (some level) done r =
      send_report-Records deadline level done.last_dispatch r
  report_step-Records none level done r = tt
  report_step-Records (some deadline) none done r = tt

  run_phase-Records :
      (deadlines levels : List ℕ) (turns : List Turn) (r : Ready)
      → Records
          (recorded r ++ logged_in (turn_activities turns))
          (run_phase link deadlines levels turns r)
  unfolding run_phase
  run_phase-Records deadlines levels [] r = sym (append-nil (recorded r))
  run_phase-Records deadlines levels (turn ∷ turns) r =
      next-Records (recorded (performed turn.until_report r))
        (recorded r ++ logged_in (turn.until_report ++ turn_activities turns))
        (report_step link (get_elem? deadlines turn.step_done.index)
          (get_elem? levels turn.step_done.index) turn.step_done (performed turn.until_report r))
        (run_phase link deadlines levels turns)
        (report_step-Records (get_elem? deadlines turn.step_done.index)
          (get_elem? levels turn.step_done.index) turn.step_done (performed turn.until_report r))
        λ r' e.
          Records-eq _ _ (run_phase link deadlines levels turns r')
            (ap (λ x. x ++ logged_in (turn_activities turns))
                (e ∙ recorded-performed turn.until_report r)
              ∙ recorded-logged r turn.until_report (turn_activities turns))
            (run_phase-Records deadlines levels turns r')

  -- The load test has ended: it has recorded `before` and what the first turns have logged, nothing
  -- is in flight, and the last update says so.
  abbrev pub Ended : List TransactionResult → List DrainTurn → Outcome link → Type 0
  Ended before turns (ok done, r) =
      (k : ℕ) × (recorded r ≡ before ++ logged_in (drain_activities (take k turns)))
      × (inflight_count r.tracker ≡ 0)
      × ((updates : List GeneratorUpdate) × (r.sent ≡ updates ++ finished ∷ []))
  Ended before turns (err e, r) = Unit {0}

  finish-Ended :
      (turns : List DrainTurn) (r : Ready) (o : Option link.SendError)
      → inflight_count r.tracker ≡ 0
      → Ended (recorded r) turns (sent_or link r finished o)
  unfolding sent_or
  finish-Ended turns r (some e) quiet = tt
  finish-Ended turns r none quiet = (
    0,
    ap (λ x. x ++ r.tracker.interval.transaction_results)
          (reported-append r.sent (finished ∷ []) ∙ append-nil (reported r.sent))
        ∙ sym (append-nil (recorded r)),
    quiet,
    (r.sent, refl),
  )

  next-Ended :
      (results before : List TransactionResult) (turn : DrainTurn) (turns : List DrainTurn)
      (o : Outcome link) (f : Ready → Outcome link)
      → Records results o
      → ((r : Ready) → recorded r ≡ results → Ended before (turn ∷ turns) (f r))
      → Ended before (turn ∷ turns) (next link o f)
  next-Ended results before turn turns (ok done, r) f h g = g r h
  next-Ended results before turn turns (err e, r) f h g = tt

  later-Ended :
      (r r' : Ready) (turn : DrainTurn) (turns : List DrainTurn) (o : Outcome link)
      → recorded r' ≡ recorded (performed turn.until_report r)
      → Ended (recorded (performed turn.while_sent r')) turns o
      → Ended (recorded r) (turn ∷ turns) o
  later-Ended r r' turn turns (err x, s) e h = tt
  later-Ended r r' turn turns (ok done, s) e (k, recorded_all, quiet, updates) = (
    suc k,
    recorded_all
        ∙ ap (λ x. x ++ logged_in (drain_activities (take k turns)))
            (recorded-performed turn.while_sent r'
              ∙ ap (λ x. x ++ logged_in turn.while_sent)
                  (e ∙ recorded-performed turn.until_report r)
              ∙ recorded-logged r turn.until_report turn.while_sent)
        ∙ append_assoc (recorded r) (logged_in (turn.until_report ++ turn.while_sent))
            (logged_in (drain_activities (take k turns)))
        ∙ ap (recorded r ++◌) (
            sym (
              logged_in-append (turn.until_report ++ turn.while_sent)
                (drain_activities (take k turns)))
            ∙ ap logged_in
                (append_assoc turn.until_report turn.while_sent (drain_activities (take k turns)))),
    quiet,
    updates,
  )

  drain_end-Ended :
      (quiet : Bool) (r : Ready)
      → (inflight_count r.tracker == 0) ≡ quiet
      → Ended (recorded r) [] (drain_end link quiet r)
  unfolding drain_end send_update
  drain_end-Ended true r e =
      finish-Ended [] r (link.send r.sent finished) ((==_iff (inflight_count r.tracker) 0).0 e)
  drain_end-Ended false r e = tt

  drain_turn-Ended :
      (quiet : Bool) (turn : DrainTurn) (turns : List DrainTurn) (r : Ready)
      → (inflight_count r.tracker == 0) ≡ quiet
      → ((r' : Ready) → Ended (recorded r') turns (drain link turns r'))
      → Ended (recorded r) (turn ∷ turns) (drain_turn link quiet turn (drain link turns) r)
  unfolding drain_turn send_update
  drain_turn-Ended true turn turns r e later =
      finish-Ended (turn ∷ turns) r (link.send r.sent finished)
        ((==_iff (inflight_count r.tracker) 0).0 e)
  drain_turn-Ended false turn turns r e later =
      next-Ended (recorded (performed turn.until_report r)) (recorded r) turn turns
        (send_report link ((turn.elapsed / nanos_per_sec + 1) * nanos_per_sec) 0 none
          (performed turn.until_report r))
        (λ r'. drain link turns (performed turn.while_sent r'))
        (send_report-Records ((turn.elapsed / nanos_per_sec + 1) * nanos_per_sec) 0 none
          (performed turn.until_report r))
        λ r' same.
          later-Ended r r' turn turns (drain link turns (performed turn.while_sent r')) same
            (later (performed turn.while_sent r'))

  drain-Ended : (turns : List DrainTurn) (r : Ready) → Ended (recorded r) turns (drain link turns r)
  unfolding drain
  drain-Ended [] r = drain_end-Ended (inflight_count r.tracker == 0) r refl
  drain-Ended (turn ∷ turns) r =
      drain_turn-Ended (inflight_count r.tracker == 0) turn turns r refl (drain-Ended turns)

  next-Ended_phase :
      (results before : List TransactionResult) (turns : List DrainTurn) (o : Outcome link)
      (f : Ready → Outcome link)
      → Records results o
      → ((r : Ready) → recorded r ≡ results → Ended before turns (f r))
      → Ended before turns (next link o f)
  next-Ended_phase results before turns (ok done, r) f h g = g r h
  next-Ended_phase results before turns (err e, r) f h g = tt

  load_test-Ended :
      (deadlines levels : List ℕ) (turns : List Turn) (before_wait : List Activity)
      (drains : List DrainTurn) (r : Ready)
      → Ended
          (recorded r ++ logged_in (turn_activities turns ++ before_wait))
          drains
          (load_test link deadlines levels turns before_wait drains r)
  unfolding load_test
  load_test-Ended deadlines levels turns before_wait drains r =
      next-Ended_phase (recorded r ++ logged_in (turn_activities turns))
        (recorded r ++ logged_in (turn_activities turns ++ before_wait)) drains
        (run_phase link deadlines levels turns r)
        (λ r'. drain link drains (performed before_wait r'))
        (run_phase-Records deadlines levels turns r)
        λ r' e.
          subst (λ b. Ended b drains (drain link drains (performed before_wait r')))
            (recorded-performed before_wait r'
              ∙ ap (λ x. x ++ logged_in before_wait) e
              ∙ recorded-logged r (turn_activities turns) before_wait)
            (drain-Ended drains (performed before_wait r'))

  -- If a load test ends well: the results in the reports that have been sent, followed by those
  -- that wait in the interval, are those recorded before the test, and behind them, in the order of
  -- their logging, those of its turns, those before the wait and those of the first turns of the
  -- wait, as many as it took; nothing is in flight then, and the last update that has been sent is
  -- `finished`.
  pub load_test-recorded :
      (deadlines levels : List ℕ) (turns : List Turn) (before_wait : List Activity)
      (drains : List DrainTurn) (r r' : Ready)
      → load_test link deadlines levels turns before_wait drains r ≡ (ok tt, r')
      → Ended (recorded r ++ logged_in (turn_activities turns ++ before_wait)) drains (ok tt, r')
  load_test-recorded deadlines levels turns before_wait drains r r' e =
      subst (Ended (recorded r ++ logged_in (turn_activities turns ++ before_wait)) drains) e
        (load_test-Ended deadlines levels turns before_wait drains r)
