-- ===== src/Dispatch/Profile.antt =====
-- dispatch.rs: a load profile, from its steps to the sequence of its dispatches.
use creo_bench.Prelude.{
  ℕ, suc, ◌+◌, ◌≤◌, ◌≡◌, refl, ap, subst, Bool, true, none, some, List, [], ◌∷◌, arith, length,
}
use creo_bench.Math.{Numbers}
use creo_bench.Load.Schedule.{
  Arrival, ScheduledStep, LoadStep, from_profile, new_schedule, arrivals,
}
use creo_bench.Load.Schedule.Process.{Follows, ends, arrives, leaves, arrivals-Follows}
use creo_bench.Load.Schedule.Windows.{Positions, from_profile-Positions, pending-new_schedule}
use creo_bench.Dispatch.Run.{run_schedule}
use creo_bench.Dispatch.StepsDone.{StepsFrom, Runs, run_schedule-Runs}

-- The arrivals with the times after their dispatches, as far as there are any.
abbrev pub with_times : List Arrival → List ℕ → List (Arrival × ℕ)
with_times [] times = []
with_times (a ∷ found) [] = []
with_times (a ∷ found) (t ∷ times) = (a, t) ∷ with_times found times

module _ (numbers : Numbers) where
  -- `target_times`.
  unfoldable pub target_times : List (ScheduledStep numbers) → List ℕ
  target_times [] = []
  target_times (s ∷ ss) = s.deadline ∷ target_times ss

  length-target_times : (ss : List (ScheduledStep numbers)) → length (target_times ss) ≡ length ss
  unfolding target_times
  length-target_times [] = refl
  length-target_times (s ∷ ss) = ap suc (length-target_times ss)

  Follows-StepsFrom :
      {clock : ℕ} {steps : List (ScheduledStep numbers)} {found : List Arrival}
      → Follows numbers clock steps found
      → (times : List ℕ) (j k n : ℕ) → Positions numbers k steps
      → j ≤ k
      → k + length steps ≡ n
      → StepsFrom n j (with_times found times)
  Follows-StepsFrom (ends clock steps) times j k n p h e = omega arith
  Follows-StepsFrom (arrives a after before i f) [] j k n p h e = omega arith
  Follows-StepsFrom (arrives a after before i f) (t ∷ times) j k n p h e = (
    omega (arith, p.0),
    omega (arith, p.0),
    Follows-StepsFrom f times a.step k n p (omega (arith, p.0)) e,
  )
  Follows-StepsFrom (leaves f) times j k n p h e =
      Follows-StepsFrom f times j (suc k) n p.1 (omega arith) (omega arith)

  -- For a load profile that converts to steps, any arrivals that calls of `next` return on the
  -- schedule of these steps, and times after their dispatches: while the receiver is there,
  -- `run_schedule` over the deadlines of the steps and the arrivals that have a time does not
  -- panic; it reports every step as done, once and in order, with the time of the last dispatch
  -- since the step before or none; and it dispatches these arrivals, once and in order, each with
  -- the deadline of its step as target time and while its step is the next to be done.
  pub run_schedule-profile :
      (profile : List (LoadStep numbers)) (steps : List (ScheduledStep numbers)) (rng : numbers.Rng)
      (n : ℕ) (found : List Arrival) (times : List ℕ) (accepts : ℕ → Bool)
      → from_profile numbers profile ≡ some steps
      → arrivals numbers n (new_schedule numbers steps rng) ≡ some found
      → ((k : ℕ) → accepts k ≡ true)
      → Runs
          (target_times steps)
          0
          none
          (with_times found times)
          (run_schedule accepts (target_times steps) (with_times found times))
  run_schedule-profile profile steps rng n found times accepts made e open_channel =
      let start = new_schedule numbers steps rng in
      let f =
        subst (λ (ss : List (ScheduledStep numbers)). Follows numbers start.clock ss found)
          (pending-new_schedule numbers steps rng).0 (arrivals-Follows numbers n start found e) in
      run_schedule-Runs accepts open_channel (target_times steps) (with_times found times) (
        Follows-StepsFrom f times 0 0 _ (from_profile-Positions numbers profile steps made)
          (omega arith) (omega (arith, length-target_times steps)))
