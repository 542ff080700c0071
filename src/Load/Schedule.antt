-- ===== src/Load/Schedule.antt =====
-- load/schedule.rs: steps with a constant rate, and the arrivals of a Poisson process over them.
-- Durations are nanoseconds since the start of the phase.
pub mod Process
pub mod Windows
pub mod Total
use creo_bench.Prelude.{
  ℕ, zero, suc, ◌+◌, ◌-◌, ◌*◌, ◌^◌, Bool, Option, none, some, List, [], ◌∷◌, max, ltb, ◌==◌, ◌||◌,
  if◌then◌else◌,
}
use creo_bench.Math
use creo_bench.Math.{Numbers, sample_exponential}

infixl 5 ◌>>=◌
abbrev pub ◌>>=◌ {ℓ κ} : {A : Type ℓ} {B : Type κ} → Option A → (A → Option B) → Option B
none >>= f = none
some a >>= f = f a

abbrev pub nanos_per_sec : ℕ
nanos_per_sec = 1000000000

-- `Duration::MAX`; a sum beyond it panics.
abbrev pub duration_max : ℕ
duration_max = 2 ^ 64 * nanos_per_sec - 1

pub record Arrival : Type 0 where
  pub offset : ℕ
  pub step : ℕ

module _ (numbers : Numbers) where
  open numbers use {F, Rng, of_u32, div, less, as_secs_f64, from_secs_f64}

  pub record ScheduledStep : Type 0 where
    pub index : ℕ
    pub deadline : ℕ
    pub rate : F

  -- wire/profile.rs: `LoadStep`, with its deadline in seconds.
  pub record LoadStep : Type 0 where
    pub deadline : F
    pub count : ℕ

  -- wire/warmup.rs
  pub record Warmup : Type 0 where
    pub rate : ℕ
    pub duration : ℕ
    pub pause : ℕ

  unfoldable pub step_rate : ℕ → ℕ → F
  step_rate count duration =
      if count == 0 || duration == 0
      then numbers.zero
      else div (of_u32 count) (as_secs_f64 duration)

  -- The loop of `from_profile`, from a step on.
  unfoldable pub from_steps : ℕ → ℕ → List LoadStep → Option (List ScheduledStep)
  from_steps index previous [] = some []
  from_steps index previous (step ∷ steps) = do
    deadline ← from_secs_f64 step.deadline
    rest ← from_steps (suc index) (max previous deadline) steps
    some (
        record {
          index = index;
          deadline = deadline;
          rate = step_rate step.count (deadline - previous);
        }
        ∷ rest)

  unfoldable pub from_profile : List LoadStep → Option (List ScheduledStep)
  from_profile steps = from_steps 0 0 steps

  -- The steps of `from_warmup` from `index` on, `left` of them.
  unfoldable pub warmup_steps : F → ℕ → ℕ → List ScheduledStep
  warmup_steps rate index zero = []
  warmup_steps rate index (suc left) =
      record { index = index; deadline = (index + 1) * nanos_per_sec; rate = rate }
      ∷ warmup_steps rate (suc index) left

  unfoldable pub from_warmup : Warmup → List ScheduledStep
  from_warmup warmup = warmup_steps (of_u32 warmup.rate) 0 warmup.duration

  pub record ArrivalSchedule : Type 0 where
    pub steps : List ScheduledStep
    pub current : Option ScheduledStep
    pub clock : ℕ
    pub rng : Rng

  unfoldable pub new_schedule : List ScheduledStep → Rng → ArrivalSchedule
  new_schedule [] rng = record { steps = []; current = none; clock = 0; rng = rng }
  new_schedule (s ∷ ss) rng = record { steps = ss; current = some s; clock = 0; rng = rng }

  -- The body of the loop of `next` up to its `return`: the candidate, if it falls in the step.
  unfoldable pub attempt : ScheduledStep → ℕ → Rng → Option (Option ℕ × Rng)
  attempt step clock rng =
      if less numbers.zero step.rate
      then (do
        (gap, rng') ← sample_exponential numbers (div numbers.one step.rate) rng
        duration ← from_secs_f64 gap
        let candidate = clock + duration
        if ltb duration_max candidate
            then none
            else some (if ltb candidate step.deadline then some candidate else none, rng'))
      else some (none, rng)

  -- What a round does with the outcome of `attempt`: it returns the arrival, or goes on.
  abbrev pub settle :
      (ScheduledStep × List ScheduledStep)
      → (Rng → Option (Option Arrival × ArrivalSchedule))
      → Option ℕ × Rng
      → Option (Option Arrival × ArrivalSchedule)
  settle (step, steps) go_on (some candidate, rng) = some (
    some (record { offset = candidate; step = step.index }),
    record { steps = steps; current = some step; clock = candidate; rng = rng },
  )
  settle (step, steps) go_on (none, rng) = go_on rng

  -- The loop of `next` at the step `step`, with the steps behind it.
  unfoldable pub next_from :
      ScheduledStep → List ScheduledStep → ℕ → Rng → Option (Option Arrival × ArrivalSchedule)
  next_from step [] clock rng =
      attempt step clock rng
      >>= settle (step, [])
          (λ r.
            some (
              none,
              record { steps = []; current = none; clock = max clock step.deadline; rng = r },
            ))
  next_from step (s ∷ ss) clock rng =
      attempt step clock rng
      >>= settle (step, s ∷ ss) (λ r. next_from s ss (max clock step.deadline) r)

  -- `Iterator::next`.
  unfoldable pub next : ArrivalSchedule → Option (Option Arrival × ArrivalSchedule)
  next schedule = elim schedule.current [
    | none ↦ some (none, schedule)
    | some step ↦ next_from step schedule.steps schedule.clock schedule.rng
  ]

  -- One more arrival, or the end.
  abbrev pub collect :
      (ArrivalSchedule → Option (List Arrival))
      → Option Arrival × ArrivalSchedule
      → Option (List Arrival)
  collect again (none, schedule) = some []
  collect again (some arrival, schedule) = again schedule >>= λ rest. some (arrival ∷ rest)

  -- The arrivals of at most `n` calls of `next`, up to the first that has none.
  unfoldable pub arrivals : ℕ → ArrivalSchedule → Option (List Arrival)
  arrivals zero schedule = some []
  arrivals (suc n) schedule = next schedule >>= collect (λ later. arrivals n later)
