-- ===== src/Orchestrator/Distribute/Shares.antt =====
-- orchestrator/distribute.rs: the shares of a count.
use native.Mathlib.Nat.{div-add-mod, mod-eq_of_lt}
use creo_bench.Prelude.{
  ℕ, zero, suc, ◌+◌, ◌-◌, ◌*◌, ◌/◌, ◌%◌, ◌<◌, ◌≡◌, refl, ◌∙◌, ap, ◌⊎◌, some, List, [], ◌∷◌, arith,
  length, All, min,
}
use creo_bench.Orchestrator.Distribute.{u32_modulus, shares, distribute_count}

abbrev pub sum : List ℕ → ℕ
sum [] = 0
sum (x ∷ xs) = x + sum xs

length-shares : (base remainder i left : ℕ) → length (shares base remainder i left) ≡ left
unfolding shares
length-shares base remainder i zero = refl
length-shares base remainder i (suc left) = ap suc (length-shares base remainder (suc i) left)

-- Of the generators from `i` on, those before `remainder` get one more.
sum-shares :
    (base remainder i left : ℕ)
    → i + left < u32_modulus
    → (0 < remainder → base + 1 < u32_modulus)
    → sum (shares base remainder i left) ≡ left * base + min left (remainder - i)
unfolding shares
sum-shares base remainder i zero h k = omega arith
sum-shares base remainder i (suc left) h k = ground (arith, sum-shares base remainder (suc i) left)

All-shares :
    (base remainder i left : ℕ)
    → (0 < remainder → base + 1 < u32_modulus)
    → All (λ c. (c ≡ base) ⊎ (c ≡ base + 1)) (shares base remainder i left)
unfolding shares
All-shares base remainder i zero k = tt
All-shares base remainder i (suc left) k = (ground arith, All-shares base remainder (suc i) left k)

-- The shares of `total` between `divisor` generators.
pub record IsFair (total divisor : ℕ) (counts : List ℕ) : Type 0 where
  pub one_each : length counts ≡ divisor
  pub whole : sum counts ≡ total
  pub even : All (λ c. (c ≡ total / divisor) ⊎ (c ≡ total / divisor + 1)) counts

base_in_range :
    (total d : ℕ) → total < u32_modulus → 0 < d → 0 < total % d → total / d + 1 < u32_modulus
base_in_range total zero h p q = elim p [ ]
base_in_range total (suc zero) h p q = absurd (omega arith)
base_in_range total (suc (suc d)) h p q = omega (arith, div-add-mod total (suc (suc d)))

shares-IsFair :
    (total d : ℕ)
    → total < u32_modulus
    → 0 < d
    → d < u32_modulus
    → IsFair total d (shares (total / d) (total % d) 0 d)
shares-IsFair total d h p q = record {
  one_each = length-shares (total / d) (total % d) 0 d;
  whole =
      sum-shares (total / d) (total % d) 0 d (omega arith) (base_in_range total d h p)
      ∙ omega (arith, div-add-mod total d);
  even = All-shares (total / d) (total % d) 0 d (base_in_range total d h p);
}

distribute_count-shares :
    (total d : ℕ)
    → 0 < d
    → d < u32_modulus
    → distribute_count total d ≡ some (shares (total / d) (total % d) 0 d)
unfolding distribute_count
distribute_count-shares total d p q = ground (arith, mod-eq_of_lt q)

-- For a count below 2^32 and a number of generators between 1 and 2^32 - 1: `distribute_count` does
-- not panic and returns one share for each generator; the shares are together the count, and each
-- is the quotient of the two or one more.
pub distribute_count-IsFair :
    (total divisor : ℕ)
    → total < u32_modulus
    → 0 < divisor
    → divisor < u32_modulus
    → (counts : List ℕ) × (distribute_count total divisor ≡ some counts)
      × IsFair total divisor counts
distribute_count-IsFair total divisor h p q = (
  shares (total / divisor) (total % divisor) 0 divisor,
  distribute_count-shares total divisor p q,
  shares-IsFair total divisor h p q,
)
