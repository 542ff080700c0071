-- ===== src/Math.antt =====
-- src/math: sampling the gaps of a Poisson process (math/exponential/core.rs), over an interface
-- of the numbers and of the random generator.
use creo_bench.Prelude.{ℕ, Bool, Option, none, some, if◌then◌else◌}

-- `f64`, the conversions of `std::time::Duration` (in nanoseconds), and a generator of the crate
-- `rand` with its state. `from_secs_f64` has no value where the conversion panics.
pub record Numbers : Type 1 where
  pub F : Type 0
  pub Rng : Type 0
  pub zero : F
  pub one : F
  pub epsilon : F
  pub of_u32 : ℕ → F
  pub neg : F → F
  pub ln : F → F
  pub sub : F → F → F
  pub div : F → F → F
  pub maximum : F → F → F
  pub less : F → F → Bool
  pub less_eq : F → F → Bool
  pub as_secs_f64 : ℕ → F
  pub from_secs_f64 : F → Option ℕ
  pub random : Rng → F × Rng

-- `none` is a panic, here and in what follows.
module _ (numbers : Numbers) where
  open numbers use {F, Rng, zero, one, epsilon, neg, ln, sub, div, maximum, less_eq, random}

  unfoldable pub sample_exponential : F → Rng → Option (F × Rng)
  sample_exponential mean rng =
      if less_eq mean zero
      then none
      else let lambda = div one mean in
        let (r, rng') = random rng in
        let u = sub one (maximum r epsilon) in some (div (neg (ln u)) lambda, rng')
