-- ===== src/LoadGenerator/Phases/Finish.antt =====
-- load_generator/phases/ready.rs: the end of a load test.
use creo_bench.Prelude.{
  ℕ, ◌+◌, ◌-◌, ◌*◌, ◌/◌, ◌≡◌, refl, ap, sym, ◌∙◌, Bool, true, false, Option, none, List, [], ◌∷◌,
  ◌++◌, ok, ◌==◌, ==_iff,
}
use creo_bench.Tracker.{
  Tracker, log_result, log_dispatched, interval_statistics, inflight_count, sum_counts,
  count_result,
}
use creo_bench.Load.Time.{wrapping_add}
use creo_bench.Orchestrator.Collect.{GeneratorUpdate, interval_report, finished}
use creo_bench.LoadGenerator.Phases.{
  Activity, dispatches, logs, perform, DrainTurn, Ready, Link, Outcome, sent_or, send_update,
  send_report, performed, drain_end, drain_turn, drain, nanos_per_sec,
}
use creo_bench.LoadGenerator.Phases.Reports.{drain_activities}

-- The totals, which a report leaves alone.
abbrev SameTotals : Tracker → Tracker → Type 0
SameTotals t t' = (t.total ≡ t'.total) × (t.dispatched ≡ t'.dispatched)

perform-SameTotals :
    (activities : List Activity) (t t' : Tracker)
    → SameTotals t t'
    → SameTotals (perform activities t) (perform activities t')
unfolding perform log_result log_dispatched
perform-SameTotals [] t t' h = h
perform-SameTotals (dispatches n ∷ activities) t t' h =
    perform-SameTotals activities (log_dispatched t n) (log_dispatched t' n)
      (h.0, ap (λ d. wrapping_add d n) h.1)
perform-SameTotals (logs result ∷ activities) t t' h =
    perform-SameTotals activities (log_result t result) (log_result t' result)
      (ap (λ c. count_result c result) h.0, h.1)

inflight-SameTotals : (t t' : Tracker) → SameTotals t t' → inflight_count t ≡ inflight_count t'
unfolding inflight_count
inflight-SameTotals t t' h =
    ap (λ c. t.dispatched - sum_counts c) h.0 ∙ ap (λ d. d - sum_counts t'.total) h.1

perform-append : (a b : List Activity) (t : Tracker) → perform (a ++ b) t ≡ perform b (perform a t)
unfolding perform
perform-append [] b t = refl
perform-append (dispatches n ∷ a) b t = perform-append a b (log_dispatched t n)
perform-append (logs result ∷ a) b t = perform-append a b (log_result t result)

perform_nothing : (t : Tracker) → inflight_count (perform [] t) ≡ 0 → inflight_count t ≡ 0
unfolding perform
perform_nothing t h = h

-- What a turn and those behind it do leaves as many transactions in flight, report or not.
inflight_after :
    (turn : DrainTurn) (turns : List DrainTurn) (t : Tracker)
    → inflight_count (
        perform
          (drain_activities turns)
          (perform turn.while_sent (interval_statistics (perform turn.until_report t)).1))
      ≡ inflight_count (perform (drain_activities (turn ∷ turns)) t)
unfolding interval_statistics
inflight_after turn turns t =
    inflight-SameTotals _ _ (
      perform-SameTotals (drain_activities turns) _ _
        (perform-SameTotals turn.while_sent _ (perform turn.until_report t) (refl, refl)))
    ∙ ap inflight_count (
        sym (perform-append turn.while_sent (drain_activities turns) (perform turn.until_report t))
        ∙ sym (perform-append turn.until_report (turn.while_sent ++ drain_activities turns) t))

module _ (link : Link) where
  -- The connection takes every update.
  abbrev pub TakesAll : Type 0
  TakesAll =
      (updates : List GeneratorUpdate) (update : GeneratorUpdate) → link.send updates update ≡ none

  send_update_ok :
      (update : GeneratorUpdate) (r : Ready)
      → TakesAll
      → send_update link update r ≡ (ok tt, record r { sent = r.sent ++ update ∷ [] })
  unfolding send_update sent_or
  send_update_ok update r takes = rw (takes r.sent update) refl

  send_report_ok :
      (target level : ℕ) (batch : Option ℕ) (r : Ready)
      → TakesAll
      → (r1 : Ready) × (send_report link target level batch r ≡ (ok tt, r1))
        × (r1.tracker ≡ (interval_statistics r.tracker).1)
  unfolding send_report
  send_report_ok target level batch r takes = (
    _,
    send_update_ok
        (interval_report (record {
          target_time = target;
          load_level = level;
          stats = (interval_statistics r.tracker).0;
          final_batch_time = batch;
        }))
        (record r { tracker = (interval_statistics r.tracker).1 }) takes,
    refl,
  )

  drain_turn-ok :
      (quiet : Bool) (turn : DrainTurn) (r : Ready) (again : Ready → Outcome link)
      → TakesAll
      → ((r' : Ready)
          → r'.tracker
            ≡ perform turn.while_sent (interval_statistics (perform turn.until_report r.tracker)).1
          → (again r').0 ≡ ok tt)
      → (drain_turn link quiet turn again r).0 ≡ ok tt
  unfolding drain_turn
  drain_turn-ok true turn r again takes later = rw (send_update_ok finished r takes) refl
  drain_turn-ok false turn r again takes later =
      let (r1, sent, drained) =
        send_report_ok ((turn.elapsed / nanos_per_sec + 1) * nanos_per_sec) 0 none
          (performed turn.until_report r) takes in
      rw sent (later (performed turn.while_sent r1) (ap (perform turn.while_sent) drained))

  drain_end-ok :
      (quiet : Bool) (r : Ready) → quiet ≡ true → TakesAll → (drain_end link quiet r).0 ≡ ok tt
  unfolding drain_end
  drain_end-ok true r e takes = rw (send_update_ok finished r takes) refl
  drain_end-ok false r e takes = cc

  -- If the connection takes every update, and what happens in the turns of the wait, all of it
  -- together, leaves nothing in flight, then the wait for the transactions in flight ends well.
  pub drain-ends :
      (turns : List DrainTurn) (r : Ready)
      → TakesAll
      → inflight_count (perform (drain_activities turns) r.tracker) ≡ 0
      → (drain link turns r).0 ≡ ok tt
  unfolding drain
  drain-ends [] r takes h =
      drain_end-ok (inflight_count r.tracker == 0) r
        ((==_iff (inflight_count r.tracker) 0).1 (perform_nothing r.tracker h)) takes
  drain-ends (turn ∷ turns) r takes h =
      drain_turn-ok (inflight_count r.tracker == 0) turn r (drain link turns) takes λ r' e.
        drain-ends turns r' takes (
          ap (λ t. inflight_count (perform (drain_activities turns) t)) e
          ∙ inflight_after turn turns r.tracker
          ∙ h)
