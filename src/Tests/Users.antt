-- ===== src/Tests/Users.antt =====
-- A pool of two users, and a random generator that always draws the first.
use mathlib.Core.List.Permᴰ
use creo_bench.Prelude.{ℕ, ◌≡◌, refl, ◌⊎◌, some, none, List, [], ◌∷◌}
use creo_bench.Vectors.{swap_remove, swap_remove_head}
use creo_bench.VirtualUser.Pool.{
  RangeRng, Pool, new_pool, take_random_user, forget_permit, push_user, try_acquire,
}
use creo_bench.VirtualUser.Pool.Steps.{
  World, permits, takes, pushes, Reaches, here, next, start, Balanced, Reaches-start-Balanced,
  take_random_user_total,
}
use creo_bench.VirtualUser.Pool.Calls.{Lends, try_acquire-cases}

abbrev pub first_always : RangeRng
first_always = record {
  Rng = ℕ;
  random_range = λ rng end. (0, rng);
  random_range_lem = λ rng end h. h;
}

abbrev pool_of : List ℕ → ℕ → Pool ℕ first_always
pool_of users n = record { users = users; rng = 5; available = n }

abbrev one_acquiring : World ℕ first_always
one_acquiring = record { pool = pool_of (7 ∷ 8 ∷ []) 1; lent = []; acquiring = 1; releasing = 0 }

abbrev one_lent : World ℕ first_always
one_lent = record { pool = pool_of (8 ∷ []) 1; lent = 7 ∷ []; acquiring = 0; releasing = 0 }

abbrev one_releasing : World ℕ first_always
one_releasing = record { pool = pool_of (8 ∷ 7 ∷ []) 1; lent = []; acquiring = 0; releasing = 1 }

acquiring_reached : Reaches ℕ first_always (start ℕ first_always (7 ∷ 8 ∷ []) 5) one_acquiring
unfolding new_pool forget_permit
acquiring_reached = next here (permits (pool_of (7 ∷ 8 ∷ []) 1) refl)

lent_reached : Reaches ℕ first_always (start ℕ first_always (7 ∷ 8 ∷ []) 5) one_lent
unfolding take_random_user swap_remove swap_remove_head
lent_reached = next acquiring_reached (takes 7 (pool_of (8 ∷ []) 1) 0 refl refl)

releasing_reached : Reaches ℕ first_always (start ℕ first_always (7 ∷ 8 ∷ []) 5) one_releasing
unfolding push_user
releasing_reached = next lent_reached (pushes 7 [] (Permᴰ.refl _))

Reaches-start-Balanced_example : Balanced ℕ first_always (7 ∷ 8 ∷ []) one_releasing
Reaches-start-Balanced_example =
    Reaches-start-Balanced ℕ first_always (7 ∷ 8 ∷ []) 5 one_releasing releasing_reached

take_random_user_total_example :
    (user : ℕ) × (pool : Pool ℕ first_always) × (take_random_user ℕ first_always
        (pool_of (7 ∷ 8 ∷ []) 1)
      ≡ some (user, pool))
take_random_user_total_example =
    take_random_user_total ℕ first_always (7 ∷ 8 ∷ []) 5 one_acquiring 0 acquiring_reached refl

try_acquire-cases_example :
    (((pool_of (7 ∷ 8 ∷ []) 2).users ≡ [])
      × (try_acquire ℕ first_always (pool_of (7 ∷ 8 ∷ []) 2) ≡ some (none, pool_of (7 ∷ 8 ∷ []) 2)))
    ⊎ Lends ℕ first_always (pool_of (7 ∷ 8 ∷ []) 2)
try_acquire-cases_example = try_acquire-cases ℕ first_always (pool_of (7 ∷ 8 ∷ []) 2) refl
