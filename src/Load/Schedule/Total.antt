-- ===== src/Load/Schedule/Total.antt =====
-- load/schedule.rs: panics of `next`, by the gaps that the rates of the steps give.
use creo_bench.Prelude.{
  ℕ, zero, suc, ◌+◌, ◌≤◌, ◌≡◌, refl, inl, inr, true, false, Option, none, some, List, [], ◌∷◌, max,
  All, Bool-cases, ltb, not-ltb, if◌then◌else◌, arith,
}
use creo_bench.Math.{Numbers, sample_exponential}
use creo_bench.Load.Schedule.{
  duration_max, Arrival, ScheduledStep, ArrivalSchedule, attempt, settle, next_from, next, collect,
  arrivals, ◌>>=◌,
}
use creo_bench.Load.Schedule.Process.{pending, attempt_bounds}

module _ (numbers : Numbers) where
  open numbers use {
    Rng, F, zero as zero_f, one, epsilon, neg, ln, sub, div, maximum, less, less_eq, random,
  }

  abbrev Step : Type 0
  Step = ScheduledStep numbers

  -- The sample for a rate, as `attempt` asks for it.
  abbrev pub gap : F → Rng → F
  gap rate rng = div (neg (ln (sub one (maximum (random rng).0 epsilon)))) (div one (div one rate))

  -- The step ends before `horizon`; a positive rate has a positive mean gap, and its samples are
  -- finite, not negative, and so small that a gap added to `horizon` is still a `Duration`.
  abbrev pub Draws : ℕ → Step → Type 0
  Draws horizon s =
      (s.deadline ≤ horizon)
      × (less zero_f s.rate ≡ true
          → (less_eq (div one s.rate) zero_f ≡ false)
            × ((rng : Rng)
                → (d : ℕ) × (numbers.from_secs_f64 (gap s.rate rng) ≡ some d)
                  × (horizon + d ≤ duration_max)))

  attempt_total :
      (horizon : ℕ) (s : Step) (clock : ℕ) (rng : Rng)
      → Draws horizon s
      → clock ≤ horizon
      → (o : Option ℕ) × (r : Rng) × (attempt numbers s clock rng ≡ some (o, r))
  unfolding attempt sample_exponential
  attempt_total horizon s clock rng draws early = elim (Bool-cases (less zero_f s.rate)) [
    | inr idle ↦ (none, rng, rw idle)
    | inl busy ↦
        let (positive, converts) = draws.1 busy in
        let (d, made, small) = converts rng in
        (
          if ltb (clock + d) s.deadline then some (clock + d) else none,
          (random rng).1,
          rw (busy, positive, made, not-ltb duration_max (clock + d) (omega arith)),
        )
  ]

  -- There is a result, and the schedule in it can go on.
  abbrev Runs : ℕ → Option (Option Arrival × ArrivalSchedule numbers) → Type 0
  Runs horizon none = ⊥
  Runs horizon (some r) = All (Draws horizon) (pending numbers r.1) × (r.1.clock ≤ horizon)

  settle-Runs :
      (horizon : ℕ) (s : Step) (ss : List Step) (clock : ℕ) (rng : Rng)
      (go_on : Rng → Option (Option Arrival × ArrivalSchedule numbers))
      → All (Draws horizon) (s ∷ ss)
      → ((r : Rng) → Runs horizon (go_on r))
      → (o : Option ℕ) (r : Rng) → attempt numbers s clock rng ≡ some (o, r)
      → Runs horizon (settle numbers (s, ss) go_on (o, r))
  settle-Runs horizon s ss clock rng go_on draws later none r e = later r
  settle-Runs horizon s ss clock rng go_on draws later (some c) r e =
      (draws, omega (arith, (attempt_bounds numbers s clock c rng r e).1, draws.0.0))

  next_from-Runs :
      (horizon : ℕ) (s : Step) (ss : List Step) (clock : ℕ) (rng : Rng)
      → All (Draws horizon) (s ∷ ss)
      → clock ≤ horizon
      → Runs horizon (next_from numbers s ss clock rng)
  unfolding next_from
  next_from-Runs horizon s [] clock rng draws early =
      let (o, r, e) = attempt_total horizon s clock rng draws.0 early in
      rw e (
        settle-Runs horizon s [] clock rng _ draws (λ r'. (tt, omega (arith, early, draws.0.0))) o r
          e)
  next_from-Runs horizon s (u ∷ us) clock rng draws early =
      let (o, r, e) = attempt_total horizon s clock rng draws.0 early in
      rw e (
        settle-Runs horizon s (u ∷ us) clock rng _ draws
          (λ r'.
            next_from-Runs horizon u us (max clock s.deadline) r' draws.1
              (omega (arith, early, draws.0.0)))
          o r e)

  next-Runs :
      (horizon : ℕ) (schedule : ArrivalSchedule numbers) (o : Option Step)
      → schedule.current ≡ o
      → All (Draws horizon) (pending numbers schedule)
      → schedule.clock ≤ horizon
      → Runs horizon (next numbers schedule)
  unfolding next
  next-Runs horizon schedule none e draws early = rw e (tt, early)
  next-Runs horizon schedule (some s) e draws early =
      rw e
        (next_from-Runs horizon s schedule.steps schedule.clock schedule.rng (rw e at draws) early)

  collect_total :
      (horizon : ℕ) (again : ArrivalSchedule numbers → Option (List Arrival))
      → ((schedule : ArrivalSchedule numbers)
          → All (Draws horizon) (pending numbers schedule)
          → schedule.clock ≤ horizon
          → (found : List Arrival) × (again schedule ≡ some found))
      → (r : Option (Option Arrival × ArrivalSchedule numbers)) → Runs horizon r
      → (found : List Arrival) × ((r >>= collect numbers again) ≡ some found)
  collect_total horizon again h none runs = absurd runs
  collect_total horizon again h (some (none, schedule)) runs = ([], refl)
  collect_total horizon again h (some (some a, schedule)) runs =
      let (later, e) = h schedule runs.0 runs.1 in (a ∷ later, rw e)

  -- A schedule whose clock and whose pending steps lie no later than a horizon never panics,
  -- however often `next` is called and whatever the random numbers are; provided that each pending
  -- step with a positive rate has a positive mean gap, and that each gap that can be sampled for it
  -- converts to a duration that, added to the horizon, is within the range of durations.
  pub arrivals_total :
      (horizon n : ℕ) (schedule : ArrivalSchedule numbers)
      → All (Draws horizon) (pending numbers schedule)
      → schedule.clock ≤ horizon
      → (found : List Arrival) × (arrivals numbers n schedule ≡ some found)
  unfolding arrivals
  arrivals_total horizon zero schedule draws early = ([], refl)
  arrivals_total horizon (suc n) schedule draws early =
      collect_total horizon (λ later. arrivals numbers n later)
        (λ later more soon. arrivals_total horizon n later more soon) (next numbers schedule)
        (next-Runs horizon schedule schedule.current refl draws early)
