-- ===== src/Load/Schedule/Windows.antt =====
-- load/schedule.rs: the windows of the steps, and where the arrivals fall.
use mathlib.Core.Option.{some-injective}
use native.Mathlib.Decide.{dec_lt}
use creo_bench.Prelude.{
  ℕ, suc, ◌+◌, ◌<◌, ◌≤◌, ◌≡◌, refl, sym, ap, ◌∙◌, subst, Option, none, some, List, [], ◌∷◌, max,
  arith, All, get_elem?,
}
use creo_bench.Math.{Numbers}
use creo_bench.Load.Schedule.{
  Arrival, ScheduledStep, LoadStep, new_schedule, arrivals, from_steps, from_profile, ◌>>=◌,
}
use creo_bench.Load.Schedule.Process.{Follows, ends, arrives, leaves, pending, arrivals-Follows}

-- Not before `floor`, and none before the one ahead of it.
abbrev pub IsSorted : ℕ → List Arrival → Type 0
IsSorted floor [] = Unit {0}
IsSorted floor (a ∷ rest) = (floor ≤ a.offset) × IsSorted a.offset rest

module _ (numbers : Numbers) where
  abbrev Step : Type 0
  Step = ScheduledStep numbers

  -- The step at the index that the arrival names ends after it, and all earlier ones have ended.
  pub record InWindow (steps : List Step) (a : Arrival) : Type 0 where
    pub own : Step
    pub at_index : get_elem? steps a.step ≡ some own
    pub before_deadline : a.offset < own.deadline
    pub after_earlier :
        (i : ℕ) (s : Step) → get_elem? steps i ≡ some s → i < a.step → s.deadline ≤ a.offset

  -- The steps carry their positions, counted from `k`.
  abbrev pub Positions : ℕ → List Step → Type 0
  Positions k [] = Unit {0}
  Positions k (s ∷ ss) = (s.index ≡ k) × Positions (suc k) ss

  Follows-IsSorted :
      {clock : ℕ} {steps : List Step} {found : List Arrival}
      → Follows numbers clock steps found
      → (floor : ℕ) → floor ≤ clock
      → IsSorted floor found
  Follows-IsSorted (ends clock steps) floor h = tt
  Follows-IsSorted (arrives a after before e f) floor h =
      (omega arith, Follows-IsSorted f a.offset (omega arith))
  Follows-IsSorted (leaves f) floor h = Follows-IsSorted f floor (omega arith)

  -- `steps` is what is left of `whole` behind its first `k` steps, which are over.
  record Left (whole : List Step) (k clock : ℕ) (steps : List Step) : Type 0 where
    suffix : (j : ℕ) → get_elem? whole (k + j) ≡ get_elem? steps j
    over : (i : ℕ) (s : Step) → get_elem? whole i ≡ some s → i < k → s.deadline ≤ clock

  Left-leave :
      {whole : List Step} {k clock : ℕ} {s : Step} {ss : List Step}
      → Left whole k clock (s ∷ ss)
      → Left whole (suc k) (max clock s.deadline) ss
  Left-leave {whole = whole} {k = k} {clock = clock} {s = s} {ss = ss} l = record {
    suffix =
        λ j. subst (λ (i : ℕ). get_elem? whole i ≡ get_elem? ss j) (omega arith) (l.suffix (suc j));
    over = λ i t g h. elim (dec_lt i k) [
      | yes early ↦ omega (arith, l.over i t g early)
      | no here ↦
          let same : t ≡ s =
            some-injective _ _ (sym g ∙ ap (get_elem? whole) (omega arith) ∙ l.suffix 0) in
          rw same (omega arith)
    ];
  }

  Follows-InWindow :
      (whole : List Step) {clock : ℕ} {steps : List Step} {found : List Arrival}
      → Follows numbers clock steps found
      → (k : ℕ) → Left whole k clock steps
      → Positions k steps
      → All (InWindow whole) found
  Follows-InWindow whole (ends clock steps) k l p = tt
  Follows-InWindow whole (arrives {s = s} a after before e f) k l p = (
    record {
      own = s;
      at_index = subst (λ (i : ℕ). get_elem? whole i ≡ some s) (omega (arith, p.0)) (l.suffix 0);
      before_deadline = before;
      after_earlier = λ i t g h. omega (arith, l.over i t g (omega (arith, p.0)));
    },
    Follows-InWindow whole f k
        (record { suffix = l.suffix; over = λ i t g h. omega (arith, l.over i t g h) }) p,
  )
  Follows-InWindow whole (leaves f) k l p = Follows-InWindow whole f (suc k) (Left-leave l) p.1

  pub pending-new_schedule :
      (steps : List Step) (rng : numbers.Rng)
      → (pending numbers (new_schedule numbers steps rng) ≡ steps)
        × ((new_schedule numbers steps rng).clock ≡ 0)
  unfolding new_schedule
  pending-new_schedule [] rng = (refl, refl)
  pending-new_schedule (s ∷ ss) rng = (refl, refl)

  Left-whole : (whole : List Step) (clock : ℕ) → Left whole 0 clock whole
  Left-whole whole clock = record {
    suffix = λ j. ap (get_elem? whole) (omega arith);
    over = λ i t g h. elim h [ ];
  }

  -- The arrivals over steps that carry their positions.
  pub arrivals-InWindow :
      (n : ℕ) (steps : List Step) (rng : numbers.Rng) (found : List Arrival)
      → Positions 0 steps
      → arrivals numbers n (new_schedule numbers steps rng) ≡ some found
      → All (InWindow steps) found × IsSorted 0 found
  arrivals-InWindow n steps rng found p e =
      let start = new_schedule numbers steps rng in
      let f =
        subst (λ (ss : List Step). Follows numbers start.clock ss found)
          (pending-new_schedule steps rng).0 (arrivals-Follows numbers n start found e) in
      (
        Follows-InWindow steps f 0 (Left-whole steps start.clock) p,
        Follows-IsSorted f 0 (omega arith),
      )

  -- A property of the value, if there is one.
  abbrev Holds {ℓ} : {A : Type 0} → (A → Type ℓ) → Option A → Type ℓ
  Holds P none = Unit
  Holds P (some a) = P a

  Holds-bind {ℓ} :
      {A B : Type 0} (P : B → Type ℓ) (o : Option A) (f : A → Option B)
      → ((a : A) → o ≡ some a → Holds P (f a))
      → Holds P (o >>= f)
  Holds-bind P none f h = tt
  Holds-bind P (some a) f h = h a refl

  from_steps-Positions :
      (k previous : ℕ) (profile : List (LoadStep numbers))
      → Holds (Positions k) (from_steps numbers k previous profile)
  unfolding from_steps
  from_steps-Positions k previous [] = tt
  from_steps-Positions k previous (p ∷ ps) =
      Holds-bind (Positions k) (numbers.from_secs_f64 p.deadline) _ (λ d made.
        Holds-bind (Positions k) (from_steps numbers (suc k) (max previous d) ps) _ (λ rest e. (
          refl,
          subst (Holds (Positions (suc k))) e (from_steps-Positions (suc k) (max previous d) ps),
        )))

  pub from_profile-Positions :
      (profile : List (LoadStep numbers)) (steps : List Step)
      → from_profile numbers profile ≡ some steps
      → Positions 0 steps
  unfolding from_profile
  from_profile-Positions profile steps e =
      subst (Holds (Positions 0)) e (from_steps-Positions 0 0 profile)

  -- For a load profile that converts to steps, and any arrivals that calls of `next` return on the
  -- schedule of these steps, whatever the random numbers: every arrival falls before the deadline
  -- of the step that it names and not before the deadline of any step ahead of that one, and the
  -- offsets of the arrivals do not decrease.
  pub from_profile-InWindow :
      (profile : List (LoadStep numbers)) (steps : List Step) (rng : numbers.Rng) (n : ℕ)
      (found : List Arrival)
      → from_profile numbers profile ≡ some steps
      → arrivals numbers n (new_schedule numbers steps rng) ≡ some found
      → All (InWindow steps) found × IsSorted 0 found
  from_profile-InWindow profile steps rng n found made e =
      arrivals-InWindow n steps rng found (from_profile-Positions profile steps made) e
