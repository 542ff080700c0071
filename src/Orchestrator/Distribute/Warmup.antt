-- ===== src/Orchestrator/Distribute/Warmup.antt =====
-- orchestrator/distribute.rs: the warmups of the generators.
use creo_bench.Prelude.{
  ℕ, suc, ◌+◌, ◌<◌, ◌≡◌, refl, ap, ◌∙◌, some, List, [], ◌∷◌, arith, length, All,
}
use creo_bench.Orchestrator.Distribute.{u32_modulus, WarmupConfig, with_rates, distribute_warmup}
use creo_bench.Orchestrator.Distribute.Shares.{sum, distribute_count-IsFair}

abbrev pub sum_rates : List WarmupConfig → ℕ
sum_rates [] = 0
sum_rates (w ∷ ws) = w.rate + sum_rates ws

-- `n` warmups as long as `warmup` is, whose rates are together its rate.
pub record IsShared (warmup : WarmupConfig) (n : ℕ) (ws : List WarmupConfig) : Type 0 where
  pub one_each : length ws ≡ n
  pub whole : sum_rates ws ≡ warmup.rate
  pub as_long : All (λ w. (w.duration ≡ warmup.duration) × (w.pause ≡ warmup.pause)) ws

with_rates-IsShared :
    (warmup : WarmupConfig) (rates : List ℕ)
    → IsShared (record warmup { rate = sum rates }) (length rates) (with_rates warmup rates)
unfolding with_rates
with_rates-IsShared warmup [] = record { one_each = refl; whole = refl; as_long = tt }
with_rates-IsShared warmup (r ∷ rates) =
    let is = with_rates-IsShared warmup rates in
    record {
      one_each = ap suc is.one_each;
      whole = omega (arith, is.whole);
      as_long = ((refl, refl), is.as_long);
    }

-- For a warmup with a rate below 2^32 and a number of generators between 1 and 2^32 - 1:
-- `distribute_warmup` does not panic and returns one warmup for each generator; their rates are
-- together the rate, and the duration and the pause of each are those of the warmup.
pub distribute_warmup-IsShared :
    (warmup : WarmupConfig) (n : ℕ)
    → warmup.rate < u32_modulus
    → 0 < n
    → n < u32_modulus
    → (ws : List WarmupConfig) × (distribute_warmup warmup n ≡ some ws) × IsShared warmup n ws
unfolding distribute_warmup
distribute_warmup-IsShared warmup n h p q =
    let (rates, made, fair) = distribute_count-IsFair warmup.rate n h p q in
    let is = with_rates-IsShared warmup rates in
    (
      with_rates warmup rates,
      rw made,
      record {
        one_each = is.one_each ∙ fair.one_each;
        whole = is.whole ∙ fair.whole;
        as_long = is.as_long;
      },
    )
