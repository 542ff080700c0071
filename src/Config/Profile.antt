-- ===== src/Config/Profile.antt =====
-- config/profile.rs: the load profile of a configuration, from the rows of its CSV file. The rows are
-- those that the crate csv reads, with the errors of the rows that it cannot.
pub mod Increasing
use creo_bench.Prelude.{
  ℕ, ◌+◌, Bool, true, false, not, Option, none, some, List, [], ◌∷◌, Result, ok, err, ◌>>=◌,
  map_err, if◌then◌else◌,
}
use creo_bench.Orchestrator.Distribute.{LoadStepConfig}

-- f64 as the profile uses it, and the errors of the crate csv.
pub record Csv : Type 1 where
  pub F : Type 0
  pub CsvError : Type 0
  pub is_finite : F → Bool
  pub is_sign_negative : F → Bool
  pub less_eq : F → F → Bool

module _ (csv_api : Csv) where
  open csv_api use {F, CsvError, is_finite, is_sign_negative, less_eq}

  -- What the crate reports for a row: its own error, or one of `DeadlineConfig`.
  pub data RowError : Type 0 where
    unreadable : CsvError → RowError
    non_finite non_positive : F → RowError

  -- The errors of config/error.rs that concern a profile.
  pub data ConfigError : Type 0 where
    csv : ℕ → RowError → ConfigError
    non_monotonic_deadline : ℕ → F → F → ConfigError
    empty_load_profile : ConfigError

  abbrev pub Step : Type 0
  Step = LoadStepConfig F

  -- `DeadlineConfig::deserialize`.
  unfoldable pub deserialize_deadline : F → Result F RowError
  deserialize_deadline d =
      if not (is_finite d)
      then err (non_finite d)
      else if is_sign_negative d
      then err (non_positive d)
      else ok d

  unfoldable pub step_of : Result (F × ℕ) CsvError → Result Step RowError
  unfolding deserialize_deadline
  step_of (err e) = err (unreadable e)
  step_of (ok (d, count)) = do
    deadline ← deserialize_deadline d
    ok (record { deadline = deadline; count = count })

  unfoldable pub validate_step : Step → Option Step → ℕ → Result (Option Step) ConfigError
  validate_step step none index = ok (some step)
  validate_step step (some prev) index =
      if less_eq step.deadline prev.deadline
      then err (non_monotonic_deadline (index + 1) step.deadline prev.deadline)
      else ok (some step)

  -- The loop of `from_bytes`.
  unfoldable pub parse_steps :
      ℕ → Option Step → List (Result (F × ℕ) CsvError) → Result (List Step) ConfigError
  unfolding step_of validate_step
  parse_steps index prev [] = ok []
  parse_steps index prev (row ∷ rows) = do
    step ← map_err (csv (index + 1)) (step_of row)
    previous ← validate_step step prev index
    steps ← parse_steps (index + 1) previous rows
    ok (step ∷ steps)

  non_empty : List Step → Result (List Step) ConfigError
  non_empty [] = err empty_load_profile
  non_empty (step ∷ steps) = ok (step ∷ steps)

  -- `LoadProfileConfig::from_bytes`.
  unfoldable pub profile_from_rows : List (Result (F × ℕ) CsvError) → Result (List Step) ConfigError
  unfolding parse_steps non_empty
  profile_from_rows rows = do steps ← parse_steps 0 none rows; non_empty steps
