-- ===== src/Orchestrator/Distribute/Profile.antt =====
-- orchestrator/distribute.rs: the profiles of the generators.
use creo_bench.Prelude.{
  ℕ, zero, suc, ◌+◌, ◌-◌, ◌<◌, ◌≡◌, refl, ◌∙◌, ap, subst, some, List, [], ◌∷◌, ◌++◌, arith, length,
  length-append, All, append_assoc, append-nil, replicate, length-replicate, if◌then◌else◌, ◌==◌,
  ltb,
}
use creo_bench.Orchestrator.Distribute.{
  u32_modulus, LoadStepConfig, push_counts, distribute_steps, distribute_profile,
}
use creo_bench.Orchestrator.Distribute.Shares.{sum, distribute_count-IsFair}

module _ {D : Type 0} where
  abbrev pub deadlines : List (LoadStepConfig D) → List D
  deadlines [] = []
  deadlines (s ∷ ss) = s.deadline ∷ deadlines ss

  -- The count of the step `j`, or 0 where there is none.
  abbrev pub count_at : ℕ → List (LoadStepConfig D) → ℕ
  count_at j [] = 0
  count_at zero (s ∷ ss) = s.count
  count_at (suc j) (s ∷ ss) = count_at j ss

  -- The counts that the generators have of the step `j`, together.
  abbrev pub total_at : ℕ → List (List (LoadStepConfig D)) → ℕ
  total_at j [] = 0
  total_at j (steps ∷ rest) = count_at j steps + total_at j rest

  -- All counts are numbers of 32 bits.
  abbrev pub CountsFit : List (LoadStepConfig D) → Type 0
  CountsFit [] = Unit {0}
  CountsFit (s ∷ ss) = (s.count < u32_modulus) × CountsFit ss

  count_at-append :
      (j : ℕ) (steps : List (LoadStepConfig D)) (s : LoadStepConfig D)
      → count_at j (steps ++ s ∷ [])
        ≡ count_at j steps + (if j == length (deadlines steps) then s.count else 0)
  count_at-append zero [] s = omega arith
  count_at-append (suc j) [] s = ground arith
  count_at-append zero (t ∷ steps) s = ground arith
  count_at-append (suc j) (t ∷ steps) s = ground (arith, count_at-append j steps s)

  deadlines-append :
      (steps : List (LoadStepConfig D)) (s : LoadStepConfig D)
      → deadlines (steps ++ s ∷ []) ≡ deadlines steps ++ s.deadline ∷ []
  deadlines-append [] s = refl
  deadlines-append (t ∷ steps) s = ap (◌∷◌ t.deadline) (deadlines-append steps s)

  -- Every generator has steps with these deadlines.
  abbrev pub HaveDeadlines : List D → List (List (LoadStepConfig D)) → Type 0
  HaveDeadlines ds generator_steps = All (λ steps. deadlines steps ≡ ds) generator_steps

  push_counts-HaveDeadlines :
      (d : D) (ds : List D) (gs : List (List (LoadStepConfig D))) (counts : List ℕ)
      → length gs ≡ length counts
      → HaveDeadlines ds gs
      → HaveDeadlines (ds ++ d ∷ []) (push_counts d gs counts)
  unfolding push_counts
  push_counts-HaveDeadlines d ds [] counts e h = tt
  push_counts-HaveDeadlines d ds (g ∷ gs) [] e h = absurd (omega arith)
  push_counts-HaveDeadlines d ds (g ∷ gs) (c ∷ counts) e h = (
    deadlines-append g (record { deadline = d; count = c })
        ∙ ap (λ (xs : List D). xs ++ d ∷ []) h.0,
    push_counts-HaveDeadlines d ds gs counts (omega arith) h.1,
  )

  total_at-push_counts :
      (j : ℕ) (d : D) (ds : List D) (gs : List (List (LoadStepConfig D))) (counts : List ℕ)
      → length gs ≡ length counts
      → HaveDeadlines ds gs
      → total_at j (push_counts d gs counts)
        ≡ total_at j gs + (if j == length ds then sum counts else 0)
  unfolding push_counts
  total_at-push_counts j d ds [] [] e h = ground arith
  total_at-push_counts j d ds [] (c ∷ counts) e h = absurd (omega arith)
  total_at-push_counts j d ds (g ∷ gs) [] e h = absurd (omega arith)
  total_at-push_counts j d ds (g ∷ gs) (c ∷ counts) e h = ground (
    arith,
    count_at-append j g (record { deadline = d; count = c }),
    total_at-push_counts j d ds gs counts (omega arith) h.1,
    ap (λ (xs : List D). length xs) h.0,
  )

  length-push_counts :
      (d : D) (gs : List (List (LoadStepConfig D))) (counts : List ℕ)
      → length (push_counts d gs counts) ≡ length gs
  unfolding push_counts
  length-push_counts d [] counts = refl
  length-push_counts d (g ∷ gs) [] = refl
  length-push_counts d (g ∷ gs) (c ∷ counts) = ap suc (length-push_counts d gs counts)

  -- `n` profiles with the deadlines `ds`, whose counts sum up to `totals` at each step.
  pub record IsDistribution (n : ℕ) (ds : List D) (totals : ℕ → ℕ)
      (gs : List (List (LoadStepConfig D))) : Type 0 where
    pub one_each : length gs ≡ n
    pub same_deadlines : HaveDeadlines ds gs
    pub whole : (j : ℕ) → total_at j gs ≡ totals j

  count_at-here :
      (j k : ℕ) (s : LoadStepConfig D) (steps : List (LoadStepConfig D))
      → j ≡ k
      → count_at (j - k) (s ∷ steps) ≡ s.count
  count_at-here j k s steps e =
      ap (λ (i : ℕ). count_at i (s ∷ steps)) (let z : j - k ≡ 0 = omega arith in z)

  count_at-behind :
      (j k : ℕ) (s : LoadStepConfig D) (steps : List (LoadStepConfig D))
      → k < j
      → count_at (j - k) (s ∷ steps) ≡ count_at (j - suc k) steps
  count_at-behind j k s steps h =
      ap (λ (i : ℕ). count_at i (s ∷ steps)) (let z : j - k ≡ suc (j - suc k) = omega arith in z)

  -- One more step of the profile, taken from the rest of it.
  totals_step :
      (b j k k' : ℕ) (s : LoadStepConfig D) (steps : List (LoadStepConfig D))
      → k' ≡ suc k
      → b + (if j == k then s.count else 0) + (if ltb j k' then 0 else count_at (j - k') steps)
        ≡ b + (if ltb j k then 0 else count_at (j - k) (s ∷ steps))
  totals_step b j k k' s steps e =
      rw e (ground (arith, count_at-here j k s steps, count_at-behind j k s steps))

  -- From the step number `length ds` on.
  distribute_steps-IsDistribution :
      (n : ℕ) (steps : List (LoadStepConfig D)) (ds : List D) (before : ℕ → ℕ)
      (gs : List (List (LoadStepConfig D)))
      → 0 < n
      → n < u32_modulus
      → CountsFit steps
      → IsDistribution n ds before gs
      → (result : List (List (LoadStepConfig D))) × (distribute_steps n steps gs ≡ some result)
        × IsDistribution n
            (ds ++ deadlines steps)
            (λ j. before j + (if ltb j (length ds) then 0 else count_at (j - length ds) steps))
            result
  unfolding distribute_steps
  distribute_steps-IsDistribution n [] ds before gs p q fit is = (
    gs,
    refl,
    record {
      one_each = is.one_each;
      same_deadlines = rw append-nil is.same_deadlines;
      whole = λ j. ground (arith, is.whole j);
    },
  )
  distribute_steps-IsDistribution n (s ∷ steps) ds before gs p q fit is =
      let (counts, made, fair) = distribute_count-IsFair s.count n fit.0 p q in
      let e : length gs ≡ length counts = omega (arith, is.one_each, fair.one_each) in
      let (result, run, dist) =
        distribute_steps-IsDistribution n steps (ds ++ s.deadline ∷ [])
          (λ j. before j + (if j == length ds then s.count else 0))
          (push_counts s.deadline gs counts) p q fit.1
          (record {
            one_each = length-push_counts s.deadline gs counts ∙ is.one_each;
            same_deadlines = push_counts-HaveDeadlines s.deadline ds gs counts e is.same_deadlines;
            whole = λ j. ground (
              arith,
              total_at-push_counts j s.deadline ds gs counts e is.same_deadlines,
              is.whole j,
              fair.whole,
            );
          }) in
      (
        result,
        rw made run,
        record {
          one_each = dist.one_each;
          same_deadlines =
              subst (λ (xs : List D). HaveDeadlines xs result)
                (append_assoc ds (s.deadline ∷ []) (deadlines steps)) dist.same_deadlines;
          whole = λ j.
              dist.whole j
              ∙ totals_step (before j) j (length ds) (length (ds ++ s.deadline ∷ [])) s steps
                  (omega (arith, length-append {0} ds (s.deadline ∷ [])));
        },
      )

module _ (D : Type 0) where
  replicate-HaveDeadlines :
      (n : ℕ) → HaveDeadlines [] (replicate {A = List (LoadStepConfig D)} n [])
  replicate-HaveDeadlines zero = tt
  replicate-HaveDeadlines (suc n) = (refl, replicate-HaveDeadlines n)

  total_at-replicate : (j n : ℕ) → total_at j (replicate {A = List (LoadStepConfig D)} n []) ≡ 0
  total_at-replicate j zero = refl
  total_at-replicate j (suc n) = omega (arith, total_at-replicate j n)

module _ {D : Type 0} where
  count_at-from_zero :
      (j : ℕ) (profile : List (LoadStepConfig D))
      → 0 + (if ltb j 0 then 0 else count_at (j - 0) profile) ≡ count_at j profile
  count_at-from_zero j profile =
      ground (arith, ap (λ (i : ℕ). count_at i profile) (let z : j - 0 ≡ j = omega arith in z))

  -- For a profile whose counts are below 2^32 and a number of generators between 1 and 2^32 - 1:
  -- `distribute_profile` does not panic and returns one profile for each generator; each has the
  -- deadlines of the profile, and at each step the counts of the generators are together the count
  -- of the profile.
  pub distribute_profile-IsDistribution :
      (profile : List (LoadStepConfig D)) (n : ℕ)
      → 0 < n
      → n < u32_modulus
      → CountsFit profile
      → (result : List (List (LoadStepConfig D))) × (distribute_profile profile n ≡ some result)
        × IsDistribution n (deadlines profile) (λ j. count_at j profile) result
  unfolding distribute_profile
  distribute_profile-IsDistribution profile n p q fit =
      let (result, run, dist) =
        distribute_steps-IsDistribution n profile [] (λ j. 0) (replicate n []) p q fit
          (record {
            one_each = length-replicate n [];
            same_deadlines = replicate-HaveDeadlines D n;
            whole = λ j. total_at-replicate D j n;
          }) in
      (
        result,
        run,
        record {
          one_each = dist.one_each;
          same_deadlines = dist.same_deadlines;
          whole = λ j. dist.whole j ∙ count_at-from_zero j profile;
        },
      )
