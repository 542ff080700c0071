-- ===== src/Tests/Profiles.antt =====
-- A load profile of two steps, the first with the deadline 0.
use creo_bench.Prelude.{◌≡◌, ℕ, true, false, List, [], ◌∷◌, Result, ok, leb, All, ◌≢◌, ◌↔◌}
use creo_bench.Config.Profile.{Csv, Step, profile_from_rows}
use creo_bench.Config.Profile.Increasing.{rows_of, IsDeadline, Increasing, profile_from_rows_iff}

abbrev csv_api : Csv
csv_api = record {
  F = ℕ;
  CsvError = ℕ;
  is_finite = λ d. true;
  is_sign_negative = λ d. false;
  less_eq = leb;
}

abbrev steps : List (Step csv_api)
steps = record { deadline = 0; count = 1000 } ∷ record { deadline = 60; count = 2000 } ∷ []

abbrev rows : List (Result (ℕ × ℕ) ℕ)
rows = ok (0, 1000) ∷ ok (60, 2000) ∷ []

profile_from_rows_iff_example : (profile_from_rows csv_api rows ≡ ok steps) ↔ (
    (steps ≢ [])
    × (rows ≡ rows_of csv_api steps)
    × All (IsDeadline csv_api) steps
    × Increasing csv_api steps)
profile_from_rows_iff_example = profile_from_rows_iff csv_api rows steps
