-- ===== src/VirtualUser/Pool.antt =====
-- virtual_user/pool.rs: the pool of virtual users. The users stand behind a mutex and the permits
-- in a semaphore, so each operation is two atomic steps.
pub mod Steps
pub mod Calls
use creo_bench.Prelude.{ℕ, zero, suc, ◌+◌, ◌<◌, Option, none, some, List, [], ◌∷◌, ◌++◌, length}
use creo_bench.Vectors.{swap_remove}

-- `RangeRNG` (math/rng.rs) for a range from 0 on, with its documented result.
pub record RangeRng : Type 1 where
  pub Rng : Type 0
  pub random_range : Rng → ℕ → ℕ × Rng
  pub random_range_lem : (rng : Rng) (end : ℕ) → 0 < end → (random_range rng end).0 < end

module _ (User : Type 0) (range : RangeRng) where
  open range use {Rng, random_range}

  -- `Inner`.
  pub record Pool : Type 0 where
    pub users : List User
    pub rng : Rng
    pub available : ℕ

  -- `with_client_and_rng`, once the users are set up.
  unfoldable pub new_pool : List User → Rng → Pool
  new_pool users rng = record { users = users; rng = rng; available = length users }

  abbrev pub taken : Pool → Rng → Option (User × List User) → Option (User × Pool)
  taken pool rng none = none
  taken pool rng (some (user, users)) = some (user, record pool { users = users; rng = rng })

  -- `none` is a panic.
  unfoldable pub take_random_user : Pool → Option (User × Pool)
  take_random_user pool =
      let (index, rng) = random_range pool.rng (length pool.users) in
      taken pool rng (swap_remove index pool.users)

  -- A permit that is forgotten, so that it is not given back; `none` if there is none.
  unfoldable pub forget_permit : Pool → Option Pool
  forget_permit pool = elim pool.available [
    | zero ↦ none
    | suc n ↦ some (record pool { available = n })
  ]

  -- The first half of `release`, and the second.
  unfoldable pub push_user : Pool → User → Pool
  push_user pool user = record pool { users = pool.users ++ user ∷ [] }

  unfoldable pub add_permit : Pool → Pool
  add_permit pool = record pool { available = pool.available + 1 }

  abbrev pub with_user : Option (User × Pool) → Option (Option User × Pool)
  with_user none = none
  with_user (some (user, pool)) = some (some user, pool)

  -- `try_acquire`, and `acquire` where a permit is available, if no other call comes in between.
  unfoldable pub try_acquire : Pool → Option (Option User × Pool)
  try_acquire pool = elim (forget_permit pool) [
    | none ↦ some (none, pool)
    | some pool' ↦ with_user (take_random_user pool')
  ]

  unfoldable pub release : Pool → User → Pool
  release pool user = add_permit (push_user pool user)
