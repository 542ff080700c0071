-- ===== src/Dispatch/Run.antt =====
-- dispatch.rs: `run_schedule`, as the sequence of what it does.
use creo_bench.Prelude.{
  ℕ, zero, suc, ◌-◌, Bool, Option, none, some, List, [], ◌∷◌, ◌++◌, length, get_elem?,
  if◌then◌else◌,
}
use creo_bench.Load.Schedule.{Arrival}

-- A step is reported as done, with the time of its last dispatch, or an arrival is dispatched, with
-- its target time and the time after the dispatch.
pub data Event : Type 0 where
  step_done : ℕ → Option ℕ → Event
  dispatched : Arrival → ℕ → ℕ → Event

-- `accepts` says of each step whether its `StepDone` finds the receiver.
module _ (accepts : ℕ → Bool) where
  -- The events, and what follows them; a panic there (`none`) is one of the whole.
  abbrev pub followed_by : List Event → Option (List Event) → Option (List Event)
  followed_by events none = none
  followed_by events (some more) = some (events ++ more)

  -- `left` steps are done, from the step `next_step` on, and it goes on; or a receiver is gone.
  unfoldable pub steps_done :
      ℕ → (ℕ → Option ℕ → Option (List Event)) → ℕ → Option ℕ → Option (List Event)
  steps_done zero go_on next_step last_dispatch = go_on next_step last_dispatch
  steps_done (suc left) go_on next_step last_dispatch =
      let more = steps_done left go_on (suc next_step) none in
      if accepts next_step
      then followed_by (step_done next_step last_dispatch ∷ []) more
      else some []

  -- The dispatch of an arrival; its target time is out of range or not.
  unfoldable pub dispatch_arrival :
      Arrival → ℕ → Option ℕ → Option (List Event) → Option (List Event)
  dispatch_arrival arrival time none more = none
  dispatch_arrival arrival time (some target) more =
      followed_by (dispatched arrival target time ∷ []) more

  -- `run_schedule` for the arrivals of the schedule, each with the time after its dispatch, from the
  -- step `next_step` on. `none` is an index out of range.
  unfoldable pub run_from : List ℕ → List (Arrival × ℕ) → ℕ → Option ℕ → Option (List Event)
  run_from targets [] next_step last_dispatch =
      steps_done (length targets - next_step) (λ k l. some []) next_step last_dispatch
  run_from targets ((arrival, time) ∷ rest) next_step last_dispatch =
      steps_done (arrival.step - next_step)
        (λ k l.
          dispatch_arrival arrival time (get_elem? targets arrival.step)
            (run_from targets rest k (some time)))
        next_step last_dispatch

  unfoldable pub run_schedule : List ℕ → List (Arrival × ℕ) → Option (List Event)
  run_schedule targets arrivals = run_from targets arrivals 0 none
