-- ===== src/Dispatch/StepsDone.antt =====
-- dispatch.rs: the order of what `run_schedule` does.
use creo_bench.Prelude.{
  ℕ, zero, suc, ◌+◌, ◌-◌, ◌<◌, ◌≤◌, ◌≡◌, refl, ap, subst, Bool, true, Option, none, some, List, [],
  ◌∷◌, arith, length, get_elem?,
}
use creo_bench.Load.Schedule.{Arrival}
use creo_bench.Dispatch.Run.{
  Event, step_done, dispatched, steps_done, dispatch_arrival, run_from, run_schedule,
}

-- From the step `k` on, whose last dispatch was at `last`: the steps are done in order up to the
-- last of `targets`, with the time of the last dispatch since the step before, and an arrival is
-- dispatched while its own step is the next to be done.
abbrev pub InOrder : List ℕ → ℕ → Option ℕ → List Event → Type 0
InOrder targets k last [] = k ≡ length targets
InOrder targets k last (step_done i l ∷ events) =
    (i ≡ k) × (l ≡ last) × InOrder targets (suc k) none events
InOrder targets k last (dispatched a target time ∷ events) =
    (a.step ≡ k) × (get_elem? targets k ≡ some target) × InOrder targets k (some time) events

abbrev pub dispatches : List Event → List (Arrival × ℕ)
dispatches [] = []
dispatches (step_done i l ∷ events) = dispatches events
dispatches (dispatched a target time ∷ events) = (a, time) ∷ dispatches events

-- The steps of the arrivals do not decrease, from `k` on, and are below `n`.
abbrev pub StepsFrom : ℕ → ℕ → List (Arrival × ℕ) → Type 0
StepsFrom n k [] = k ≤ n
StepsFrom n k ((a, time) ∷ rest) = (k ≤ a.step) × (a.step < n) × StepsFrom n a.step rest

-- A run that does not panic, in order, and with these dispatches.
pub record Runs (targets : List ℕ) (k : ℕ) (last : Option ℕ) (arrivals : List (Arrival × ℕ))
    (o : Option (List Event)) : Type 0 where
  pub events : List Event
  pub ends : o ≡ some events
  pub in_order : InOrder targets k last events
  pub all_dispatched : dispatches events ≡ arrivals

in_range {ℓ} :
    {A : Type ℓ} (xs : List A) (i : ℕ) → i < length xs → (x : A) × (get_elem? xs i ≡ some x)
in_range [] i h = absurd (omega arith)
in_range (x ∷ xs) zero h = (x, refl)
in_range (x ∷ xs) (suc i) h = in_range xs i (omega arith)

module _ (accepts : ℕ → Bool) (open_channel : (k : ℕ) → accepts k ≡ true) (targets : List ℕ) where
  steps_done-Runs :
      (left : ℕ) (go_on : ℕ → Option ℕ → Option (List Event)) (k : ℕ) (last : Option ℕ)
      (arrivals : List (Arrival × ℕ))
      → ((l : Option ℕ) → Runs targets (k + left) l arrivals (go_on (k + left) l))
      → Runs targets k last arrivals (steps_done accepts left go_on k last)
  unfolding steps_done
  steps_done-Runs zero go_on k last arrivals h =
      subst (λ (j : ℕ). Runs targets j last arrivals (go_on j last))
        (let z : k + 0 ≡ k = omega arith in z) (h last)
  steps_done-Runs (suc left) go_on k last arrivals h =
      let r = steps_done-Runs left go_on (suc k) none arrivals (λ l.
        subst (λ (j : ℕ). Runs targets j l arrivals (go_on j l))
          (let z : k + suc left ≡ suc k + left = omega arith in z) (h l)) in
      record {
        events = step_done k last ∷ r.events;
        ends = rw (open_channel k, r.ends);
        in_order = (refl, refl, r.in_order);
        all_dispatched = r.all_dispatched;
      }

  dispatch_arrival-Runs :
      (a : Arrival) (time k : ℕ) (last : Option ℕ) (rest : List (Arrival × ℕ))
      (o : Option (List Event))
      → a.step ≡ k
      → k < length targets
      → Runs targets k (some time) rest o
      → Runs targets k last
          ((a, time) ∷ rest)
          (dispatch_arrival accepts a time (get_elem? targets a.step) o)
  unfolding dispatch_arrival
  dispatch_arrival-Runs a time k last rest o e h r =
      let (target, found) = in_range targets k h in
      record {
        events = dispatched a target time ∷ r.events;
        ends = rw (e, found, r.ends);
        in_order = (e, found, r.in_order);
        all_dispatched = ap (◌∷◌ (a, time)) r.all_dispatched;
      }

  run_from-Runs :
      (arrivals : List (Arrival × ℕ)) (k : ℕ) (last : Option ℕ)
      → k ≤ length targets
      → StepsFrom (length targets) k arrivals
      → Runs targets k last arrivals (run_from accepts targets arrivals k last)
  unfolding run_from
  run_from-Runs [] k last h s =
      steps_done-Runs (length targets - k) _ k last []
        (λ l. record { events = []; ends = refl; in_order = omega arith; all_dispatched = refl })
  run_from-Runs ((a, time) ∷ rest) k last h s =
      let e : a.step ≡ k + (a.step - k) = omega (arith, s.0) in
      steps_done-Runs (a.step - k) _ k last ((a, time) ∷ rest) (λ l.
        dispatch_arrival-Runs a time (k + (a.step - k)) l rest _ e (omega (arith, s.1)) (
          subst
            (λ (j : ℕ).
              Runs targets j (some time) rest (run_from accepts targets rest j (some time)))
            e (run_from-Runs rest a.step (some time) (omega (arith, s.1)) s.2)))

  -- x
  pub run_schedule-Runs :
      (arrivals : List (Arrival × ℕ))
      → StepsFrom (length targets) 0 arrivals
      → Runs targets 0 none arrivals (run_schedule accepts targets arrivals)
  unfolding run_schedule
  run_schedule-Runs arrivals s = run_from-Runs arrivals 0 none (omega arith) s
