-- ===== src/Config/Profile/Increasing.antt =====
-- config/profile.rs: the profiles that are accepted.
use creo_bench.Prelude.{
  ℕ, ◌+◌, ◌≡◌, ◌≢◌, ◌↔◌, refl, ap, sym, subst, ◌∙◌, true, false, Bool-cases, inl, inr, Option, none,
  some, List, [], ◌∷◌, Result, ok, err, ◌>>=◌, map_err, All, arith,
}
use creo_bench.Config.Profile.{
  Csv, csv, Step, deserialize_deadline, step_of, validate_step, parse_steps, non_empty,
  profile_from_rows,
}

-- The bind of two results that succeeds.
>>=-ok :
    {A B E : Type 0} (m : Result A E) (f : A → Result B E) (b : B)
    → (m >>= f) ≡ ok b
    → (a : A) × (m ≡ ok a) × (f a ≡ ok b)
>>=-ok (ok a) f b h = (a, refl, h)
>>=-ok (err e) f b h = cc

map_err-ok : {A E F : Type 0} (f : E → F) (m : Result A E) (a : A) → map_err f m ≡ ok a → m ≡ ok a
map_err-ok f (ok b) a h = cc
map_err-ok f (err e) a h = cc

ok-injective : {A E : Type 0} (a b : A) → ◌≡◌ {A = Result A E} (ok a) (ok b) → a ≡ b
ok-injective a b h = cc

module _ (csv_api : Csv) where
  open csv_api use {F, CsvError, is_finite, is_sign_negative, less_eq}

  -- Each deadline is greater than the one before.
  abbrev pub Increasing : List (Step csv_api) → Type 0
  Increasing [] = Unit {0}
  Increasing (step ∷ []) = Unit {0}
  Increasing (step ∷ next ∷ steps) =
      (less_eq next.deadline step.deadline ≡ false) × Increasing (next ∷ steps)

  abbrev pub IsDeadline : Step csv_api → Type 0
  IsDeadline step = (is_finite step.deadline ≡ true) × (is_sign_negative step.deadline ≡ false)

  abbrev step_at : F → ℕ → Step csv_api
  step_at deadline count = record { deadline = deadline; count = count }

  -- The rows of steps.
  abbrev pub rows_of : List (Step csv_api) → List (Result (F × ℕ) CsvError)
  rows_of [] = []
  rows_of (step ∷ steps) = ok (step.deadline, step.count) ∷ rows_of steps

  abbrev From : Option (Step csv_api) → List (Step csv_api) → Type 0
  From none steps = Increasing steps
  From (some prev) steps = Increasing (prev ∷ steps)

  deserialize_deadline-ok :
      (d e : F)
      → deserialize_deadline csv_api d ≡ ok e
      → (d ≡ e) × (is_finite d ≡ true) × (is_sign_negative d ≡ false)
  unfolding deserialize_deadline
  deserialize_deadline-ok d e h = elim (Bool-cases (is_finite d)) [
    | inl finite ↦ elim (Bool-cases (is_sign_negative d)) [
      | inl negative ↦ ground arith
      | inr positive ↦ (ground arith, finite, positive)
    ]
    | inr infinite ↦ ground arith
  ]

  deserialize_deadline-IsDeadline :
      (d : F)
      → is_finite d ≡ true
      → is_sign_negative d ≡ false
      → deserialize_deadline csv_api d ≡ ok d
  unfolding deserialize_deadline
  deserialize_deadline-IsDeadline d h h' = rw (deserialize_deadline, h, h') refl

  From-empty : (prev : Option (Step csv_api)) → From prev []
  From-empty none = tt
  From-empty (some prev) = tt

  From-later :
      (step : Step csv_api) (prev : Option (Step csv_api)) (steps : List (Step csv_api))
      → From prev (step ∷ steps)
      → From (some step) steps
  From-later step none steps f = f
  From-later step (some prev) steps f = f.1

  validate_step-From :
      (step : Step csv_api) (prev : Option (Step csv_api)) (index : ℕ) (steps : List (Step csv_api))
      → From prev (step ∷ steps)
      → validate_step csv_api step prev index ≡ ok (some step)
  unfolding validate_step
  validate_step-From step none index steps f = refl
  validate_step-From step (some prev) index steps f = rw (validate_step, f.0) refl

  not_ok :
      (step prev : Step csv_api) (index : ℕ) (next : Option (Step csv_api))
      → less_eq step.deadline prev.deadline ≡ true
      → validate_step csv_api step (some prev) index ≢ ok next
  unfolding validate_step
  not_ok step prev index next h e = ground arith

  step_of-ok :
      (row : Result (F × ℕ) CsvError) (step : Step csv_api)
      → step_of csv_api row ≡ ok step
      → (row ≡ ok (step.deadline, step.count)) × IsDeadline step
  unfolding step_of
  step_of-ok (err e) step h = cc
  step_of-ok (ok (d, count)) step h =
      let (deadline, parsed, made) =
        >>=-ok (deserialize_deadline csv_api d) (λ x. ok (step_at x count)) step h in
      let (same, finite, positive) = deserialize_deadline-ok d deadline parsed in
      subst
        (λ s.
          (◌≡◌ {A = Result (F × ℕ) CsvError} (ok (d, count)) (ok (s.deadline, s.count)))
          × IsDeadline s)
        (ok-injective (step_at deadline count) step made)
        (
          ap (λ x. ok (x, count)) same,
          (
            subst (λ x. is_finite x ≡ true) same finite,
            subst (λ x. is_sign_negative x ≡ false) same positive,
          ),
        )

  step_of-IsDeadline :
      (step : Step csv_api)
      → IsDeadline step
      → step_of csv_api (ok (step.deadline, step.count)) ≡ ok step
  unfolding step_of
  step_of-IsDeadline step h = rw (deserialize_deadline-IsDeadline step.deadline h.0 h.1) refl

  validate_step-ok :
      (step : Step csv_api) (prev : Option (Step csv_api)) (index : ℕ)
      (next : Option (Step csv_api)) (steps : List (Step csv_api))
      → validate_step csv_api step prev index ≡ ok next
      → From next steps
      → From prev (step ∷ steps)
  unfolding validate_step
  validate_step-ok step none index next steps h f =
      subst (λ n. From n steps) (sym (ok-injective (some step) next h)) f
  validate_step-ok step (some prev) index next steps h f =
      elim (Bool-cases (less_eq step.deadline prev.deadline)) [
        | inl no_later ↦ absurd (not_ok step prev index next no_later h)
        | inr later ↦ (
          later,
          subst (λ n. From n steps)
              (sym (
                ok-injective (some step) next
                  (sym (validate_step-From step (some prev) index [] (later, tt)) ∙ h)))
              f,
        )
      ]

  parse_steps-ok :
      (rows : List (Result (F × ℕ) CsvError)) (index : ℕ) (prev : Option (Step csv_api))
      (steps : List (Step csv_api))
      → parse_steps csv_api index prev rows ≡ ok steps
      → (rows ≡ rows_of steps) × All IsDeadline steps × From prev steps
  unfolding parse_steps
  parse_steps-ok [] index prev steps h =
      subst (λ s. ([] ≡ rows_of s) × All IsDeadline s × From prev s) (ok-injective [] steps h)
        (refl, tt, From-empty prev)
  parse_steps-ok (row ∷ rows) index prev steps h =
      let (step, parsed, h1) = >>=-ok (map_err (csv (index + 1)) (step_of csv_api row)) _ steps h in
      let (next, valid, h2) = >>=-ok (validate_step csv_api step prev index) _ steps h1 in
      let (rest, more, h3) = >>=-ok (parse_steps csv_api (index + 1) next rows) _ steps h2 in
      let (is_row, deadline) =
        step_of-ok row step (map_err-ok (csv (index + 1)) (step_of csv_api row) step parsed) in
      let (are_rows, deadlines, from) = parse_steps-ok rows (index + 1) next rest more in
      subst (λ s. (row ∷ rows ≡ rows_of s) × All IsDeadline s × From prev s)
        (ok-injective (step ∷ rest) steps h3)
        (
          ap (λ r. r ∷ rows) is_row ∙ ap (ok (step.deadline, step.count) ∷◌) are_rows,
          (deadline, deadlines),
          validate_step-ok step prev index next rest valid from,
        )

  parse_steps-From :
      (steps : List (Step csv_api)) (index : ℕ) (prev : Option (Step csv_api))
      → All IsDeadline steps
      → From prev steps
      → parse_steps csv_api index prev (rows_of steps) ≡ ok steps
  unfolding parse_steps
  parse_steps-From [] index prev d f = refl
  parse_steps-From (step ∷ steps) index prev d f =
      rw
        (
          step_of-IsDeadline step d.0,
          validate_step-From step prev index steps f,
          parse_steps-From steps (index + 1) (some step) d.1 (From-later step prev steps f),
        )
        refl

  non_empty-ok :
      (found steps : List (Step csv_api))
      → non_empty csv_api found ≡ ok steps
      → (found ≡ steps) × (steps ≢ [])
  unfolding non_empty
  non_empty-ok [] steps h = cc
  non_empty-ok (step ∷ found) steps h =
      let same = ok-injective (step ∷ found) steps h in (same, λ e. cc (same, e))

  accepted :
      (rows : List (Result (F × ℕ) CsvError)) (steps : List (Step csv_api))
      → profile_from_rows csv_api rows ≡ ok steps
      → (steps ≢ []) × (rows ≡ rows_of steps) × All IsDeadline steps × Increasing steps
  unfolding profile_from_rows
  accepted rows steps h =
      let (found, parsed, h1) =
        >>=-ok (parse_steps csv_api 0 none rows) (non_empty csv_api) steps h in
      let (same, some_step) = non_empty-ok found steps h1 in
      let (are_rows, deadlines, increasing) =
        subst (λ s. (rows ≡ rows_of s) × All IsDeadline s × Increasing s) same
          (parse_steps-ok rows 0 none found parsed) in
      (some_step, are_rows, deadlines, increasing)

  accepts :
      (rows : List (Result (F × ℕ) CsvError)) (steps : List (Step csv_api))
      → (steps ≢ []) × (rows ≡ rows_of steps) × All IsDeadline steps × Increasing steps
      → profile_from_rows csv_api rows ≡ ok steps
  unfolding profile_from_rows non_empty
  accepts rows [] (n, e, d, i) = absurd (n refl)
  accepts rows (step ∷ steps) (n, e, d, i) =
      ap (profile_from_rows csv_api) e
      ∙ ap (λ r. r >>= non_empty csv_api) (parse_steps-From (step ∷ steps) 0 none d i)

  -- The profile that is parsed from the rows of a file is `steps` exactly if there are steps, the
  -- rows are all readable and are those of the steps, each deadline is finite and has no negative
  -- sign (being positive is not asked for), and no deadline is at most the one before it.
  pub profile_from_rows_iff :
      (rows : List (Result (F × ℕ) CsvError)) (steps : List (Step csv_api))
      → (profile_from_rows csv_api rows ≡ ok steps)
        ↔ ((steps ≢ []) × (rows ≡ rows_of steps) × All IsDeadline steps × Increasing steps)
  profile_from_rows_iff rows steps = (accepted rows steps, accepts rows steps)
