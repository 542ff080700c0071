-- ===== src/Tests/Arrivals.antt =====
-- A load profile in whole seconds, with a generator of random numbers that always gives the same.
use creo_bench.Dispatch.Run.{run_schedule}
use creo_bench.Dispatch.StepsDone.{Runs}
use creo_bench.Dispatch.Profile.{target_times, with_times, run_schedule-profile}
use creo_bench.Prelude.{
  true, none, ℕ, ◌*◌, ◌-◌, ◌/◌, ◌+◌, ◌≤◌, ◌≡◌, refl, some, List, [], ◌∷◌, max, ltb, leb, All, arith,
}
use creo_bench.Math.{Numbers, sample_exponential}
use creo_bench.Load.Schedule.{
  duration_max, Arrival, ScheduledStep, LoadStep, ArrivalSchedule, nanos_per_sec, step_rate,
  from_steps, from_profile, new_schedule, attempt, next_from, next, arrivals,
}
use creo_bench.Load.Schedule.Windows.{IsSorted, InWindow, from_profile-InWindow}
use creo_bench.Load.Schedule.Total.{gap, Draws, arrivals_total}

abbrev seconds : Numbers
seconds = record {
  F = ℕ;
  Rng = ℕ;
  zero = 0;
  one = 1;
  epsilon = 0;
  of_u32 = λ n. n;
  neg = λ x. x;
  ln = λ x. x;
  sub = λ x y. x - y;
  div = λ x y. x / y;
  maximum = max;
  less = ltb;
  less_eq = leb;
  as_secs_f64 = λ d. d / nanos_per_sec;
  from_secs_f64 = λ s. some (s * nanos_per_sec);
  random = λ r. (0, r);
}

-- Two arrivals before the first deadline, an idle step, and one more arrival.
abbrev profile : List (LoadStep seconds)
profile =
    record { deadline = 3; count = 3 }
    ∷ record { deadline = 5; count = 0 }
    ∷ record { deadline = 7; count = 2 }
    ∷ []

abbrev steps : List (ScheduledStep seconds)
steps =
    record { index = 0; deadline = 3000000000; rate = 1 }
    ∷ record { index = 1; deadline = 5000000000; rate = 0 }
    ∷ record { index = 2; deadline = 7000000000; rate = 1 }
    ∷ []

abbrev found : List Arrival
found =
    record { offset = 1000000000; step = 0 }
    ∷ record { offset = 2000000000; step = 0 }
    ∷ record { offset = 6000000000; step = 2 }
    ∷ []

profile-steps : from_profile seconds profile ≡ some steps
unfolding from_profile from_steps step_rate
profile-steps = refl

abbrev start : ArrivalSchedule seconds
start = record {
  steps =
      record { index = 1; deadline = 5000000000; rate = 0 }
      ∷ record { index = 2; deadline = 7000000000; rate = 1 }
      ∷ [];
  current = some (record { index = 0; deadline = 3000000000; rate = 1 });
  clock = 0;
  rng = 4;
}

start-arrivals : arrivals seconds 9 start ≡ some found
unfolding arrivals next next_from attempt sample_exponential
start-arrivals = refl

steps-start : new_schedule seconds steps 4 ≡ start
unfolding new_schedule
steps-start = refl

steps-arrivals : arrivals seconds 9 (new_schedule seconds steps 4) ≡ some found
steps-arrivals = rw steps-start start-arrivals

from_profile-InWindow_example : All (InWindow seconds steps) found × IsSorted 0 found
from_profile-InWindow_example =
    from_profile-InWindow seconds profile steps 4 9 found profile-steps steps-arrivals

busy_step :
    (rng : ℕ)
    → (d : ℕ) × (seconds.from_secs_f64 (gap seconds 1 rng) ≡ some d)
      × (7000000000 + d ≤ duration_max)
busy_step rng = (1000000000, refl, omega arith)

steps-Draws : All (Draws seconds 7000000000) steps
steps-Draws = (
  (omega arith, λ busy. (refl, busy_step)),
  ((omega arith, λ busy. cc), ((omega arith, λ busy. (refl, busy_step)), tt)),
)

arrivals_total_example : (all : List Arrival) × (arrivals seconds 9 start ≡ some all)
arrivals_total_example = arrivals_total seconds 7000000000 9 start steps-Draws (omega arith)

run_schedule-profile_example :
    Runs
      (target_times seconds steps)
      0
      none
      (with_times found (1000000001 ∷ 2000000001 ∷ 6000000001 ∷ []))
      (run_schedule
        (λ k. true)
        (target_times seconds steps)
        (with_times found (1000000001 ∷ 2000000001 ∷ 6000000001 ∷ [])))
run_schedule-profile_example =
    run_schedule-profile seconds profile steps 4 9 found (1000000001 ∷ 2000000001 ∷ 6000000001 ∷ [])
      (λ k. true) profile-steps steps-arrivals (λ k. refl)
