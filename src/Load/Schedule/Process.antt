-- ===== src/Load/Schedule/Process.antt =====
-- load/schedule.rs: the arrivals of a schedule as a walk through its steps.
use mathlib.Core.Option.{some-injective}
use creo_bench.Prelude.{
  subst, ℕ, zero, suc, ◌<◌, ◌≤◌, ◌≡◌, refl, Option, none, some, List, [], ◌∷◌, max, arith,
}
use creo_bench.Math.{Numbers}
use creo_bench.Load.Schedule.{
  Arrival, ScheduledStep, ArrivalSchedule, attempt, settle, next_from, next, collect, arrivals,
  ◌>>=◌,
}

-- Arrivals of a process that walks through the steps: not before the clock, before the deadline
-- of the step that they name; a step that is left moves the clock to its deadline.
pub data Follows (numbers : Numbers)
    : ℕ → List (ScheduledStep numbers) → List Arrival → Type 0 where
  ends : (clock : ℕ) (steps : List (ScheduledStep numbers)) → Follows numbers clock steps []
  arrives :
      {clock : ℕ} {s : ScheduledStep numbers} {ss : List (ScheduledStep numbers)}
      {found : List Arrival} (a : Arrival)
      → clock ≤ a.offset
      → a.offset < s.deadline
      → a.step ≡ s.index
      → Follows numbers a.offset (s ∷ ss) found
      → Follows numbers clock (s ∷ ss) (a ∷ found)
  leaves :
      {clock : ℕ} {s : ScheduledStep numbers} {ss : List (ScheduledStep numbers)}
      {found : List Arrival}
      → Follows numbers (max clock s.deadline) ss found
      → Follows numbers clock (s ∷ ss) found

module _ (numbers : Numbers) where
  abbrev Step : Type 0
  Step = ScheduledStep numbers

  abbrev pub pending : ArrivalSchedule numbers → List Step
  pending schedule = elim schedule.current [ none ↦ [] | some s ↦ s ∷ schedule.steps ]

  pub attempt_bounds :
      (s : Step) (clock candidate : ℕ) (rng rng' : numbers.Rng)
      → attempt numbers s clock rng ≡ some (some candidate, rng')
      → (clock ≤ candidate) × (candidate < s.deadline)
  unfolding attempt
  attempt_bounds s clock candidate rng rng' e = ground arith

  -- An arrival of `next`, and how the schedule goes on, walk through the steps.
  abbrev Goes : ℕ → List Step → Option (Option Arrival × ArrivalSchedule numbers) → Type 0
  Goes clock steps (some (some a, schedule)) =
      (found : List Arrival)
      → Follows numbers schedule.clock (pending schedule) found
      → Follows numbers clock steps (a ∷ found)
  Goes clock steps _ = Unit

  settle-Goes :
      (s : Step) (ss : List Step) (clock : ℕ) (rng : numbers.Rng)
      (go_on : numbers.Rng → Option (Option Arrival × ArrivalSchedule numbers))
      → ((r : numbers.Rng) → Goes clock (s ∷ ss) (go_on r))
      → (o : Option (Option ℕ × numbers.Rng)) → attempt numbers s clock rng ≡ o
      → Goes clock (s ∷ ss) (o >>= settle numbers (s, ss) go_on)
  settle-Goes s ss clock rng go_on later none e = tt
  settle-Goes s ss clock rng go_on later (some (none, r)) e = later r
  settle-Goes s ss clock rng go_on later (some (some candidate, r)) e =
      let b = attempt_bounds s clock candidate rng r e in λ found f. arrives _ b.0 b.1 refl f

  leaves-Goes :
      (s : Step) (ss : List Step) (clock : ℕ)
      (r : Option (Option Arrival × ArrivalSchedule numbers))
      → Goes (max clock s.deadline) ss r
      → Goes clock (s ∷ ss) r
  leaves-Goes s ss clock none g = tt
  leaves-Goes s ss clock (some (none, schedule)) g = tt
  leaves-Goes s ss clock (some (some a, schedule)) g = λ found f. leaves (g found f)

  next_from-Goes :
      (s : Step) (ss : List Step) (clock : ℕ) (rng : numbers.Rng)
      → Goes clock (s ∷ ss) (next_from numbers s ss clock rng)
  unfolding next_from
  next_from-Goes s [] clock rng = settle-Goes s [] clock rng _ (λ r. tt) _ refl
  next_from-Goes s (u ∷ us) clock rng =
      settle-Goes s (u ∷ us) clock rng _
        (λ r. leaves-Goes s (u ∷ us) clock _ (next_from-Goes u us (max clock s.deadline) r)) _ refl

  next-Goes :
      (schedule : ArrivalSchedule numbers) (o : Option Step)
      → schedule.current ≡ o
      → Goes schedule.clock (pending schedule) (next numbers schedule)
  unfolding next
  next-Goes schedule none e = rw e tt
  next-Goes schedule (some s) e = rw e (next_from-Goes s schedule.steps schedule.clock schedule.rng)

  more-Follows :
      (clock : ℕ) (steps : List Step) (a : Arrival) (schedule : ArrivalSchedule numbers)
      (o : Option (List Arrival)) (found : List Arrival)
      → Goes clock steps (some (some a, schedule))
      → ((later : List Arrival)
          → o ≡ some later
          → Follows numbers schedule.clock (pending schedule) later)
      → (o >>= λ rest. some (a ∷ rest)) ≡ some found
      → Follows numbers clock steps found
  more-Follows clock steps a schedule none found g h e = cc
  more-Follows clock steps a schedule (some rest) found g h e =
      subst (Follows numbers clock steps) (some-injective _ _ e) (g rest (h rest refl))

  collect-Follows :
      (clock : ℕ) (steps : List Step) (again : ArrivalSchedule numbers → Option (List Arrival))
      → ((schedule : ArrivalSchedule numbers) (later : List Arrival)
          → again schedule ≡ some later
          → Follows numbers schedule.clock (pending schedule) later)
      → (r : Option (Option Arrival × ArrivalSchedule numbers)) (found : List Arrival)
      → Goes clock steps r
      → (r >>= collect numbers again) ≡ some found
      → Follows numbers clock steps found
  collect-Follows clock steps again h none found g e = cc
  collect-Follows clock steps again h (some (none, schedule)) found g e =
      subst (Follows numbers clock steps) (some-injective _ _ e) (ends clock steps)
  collect-Follows clock steps again h (some (some a, schedule)) found g e =
      more-Follows clock steps a schedule (again schedule) found g (h schedule) e

  -- Whatever the random generator gives, the arrivals walk through the steps.
  pub arrivals-Follows :
      (n : ℕ) (schedule : ArrivalSchedule numbers) (found : List Arrival)
      → arrivals numbers n schedule ≡ some found
      → Follows numbers schedule.clock (pending schedule) found
  unfolding arrivals
  arrivals-Follows zero schedule found e =
      subst (Follows numbers schedule.clock (pending schedule)) (some-injective _ _ e) (ends _ _)
  arrivals-Follows (suc n) schedule found e =
      collect-Follows schedule.clock (pending schedule) (λ later. arrivals numbers n later)
        (λ later more p. arrivals-Follows n later more p) (next numbers schedule) found
        (next-Goes schedule schedule.current refl) e
