-- ===== src/Orchestrator/Distribute.antt =====
-- orchestrator/distribute.rs: the shares of the load generators. `none` is a division by zero.
pub mod Shares
pub mod Profile
pub mod Warmup
use creo_bench.Prelude.{
  ℕ, zero, suc, ◌+◌, ◌/◌, ◌%◌, ◌^◌, Bool, Option, none, some, List, [], ◌∷◌, ◌++◌, ltb, ◌==◌,
  if◌then◌else◌, replicate,
}

abbrev pub u32_modulus : ℕ
u32_modulus = 2 ^ 32

infixl 5 ◌>>=◌
abbrev pub ◌>>=◌ {ℓ κ} : {A : Type ℓ} {B : Type κ} → Option A → (A → Option B) → Option B
none >>= f = none
some a >>= f = f a

-- The counts from the generator `i` on, for `left` generators.
unfoldable pub shares : ℕ → ℕ → ℕ → ℕ → List ℕ
shares base remainder i zero = []
shares base remainder i (suc left) =
    (if ltb (i % u32_modulus) remainder then (base + 1) % u32_modulus else base)
    ∷ shares base remainder (suc i) left

unfoldable pub distribute_count : ℕ → ℕ → Option (List ℕ)
distribute_count total divisor =
    let d = divisor % u32_modulus in
    if d == 0 then none else some (shares (total / d) (total % d) 0 divisor)

-- config/profile.rs: a step, with its deadline in `D`.
pub record LoadStepConfig (D : Type 0) : Type 0 where
  pub deadline : D
  pub count : ℕ

-- config/warmup.rs
pub record WarmupConfig : Type 0 where
  pub rate : ℕ
  pub duration : ℕ
  pub pause : ℕ

module _ {D : Type 0} where
  -- The loop over `generator_steps.iter_mut().zip(counts)`.
  unfoldable pub push_counts :
      D → List (List (LoadStepConfig D)) → List ℕ → List (List (LoadStepConfig D))
  push_counts deadline [] counts = []
  push_counts deadline (steps ∷ rest) [] = steps ∷ rest
  push_counts deadline (steps ∷ rest) (count ∷ counts) =
      (steps ++ record { deadline = deadline; count = count } ∷ [])
      ∷ push_counts deadline rest counts

  -- The loop over the steps of the profile.
  unfoldable pub distribute_steps :
      ℕ
      → List (LoadStepConfig D)
      → List (List (LoadStepConfig D))
      → Option (List (List (LoadStepConfig D)))
  distribute_steps n [] generator_steps = some generator_steps
  distribute_steps n (step ∷ steps) generator_steps = do
    counts ← distribute_count step.count n
    distribute_steps n steps (push_counts step.deadline generator_steps counts)

  unfoldable pub distribute_profile :
      List (LoadStepConfig D) → ℕ → Option (List (List (LoadStepConfig D)))
  distribute_profile profile n = distribute_steps n profile (replicate n [])

-- A warmup for each rate, `..warmup.clone()`.
unfoldable pub with_rates : WarmupConfig → List ℕ → List WarmupConfig
with_rates warmup [] = []
with_rates warmup (rate ∷ rates) = record warmup { rate = rate } ∷ with_rates warmup rates

unfoldable pub distribute_warmup : WarmupConfig → ℕ → Option (List WarmupConfig)
distribute_warmup warmup n = do
  rates ← distribute_count warmup.rate n
  some (with_rates warmup rates)
