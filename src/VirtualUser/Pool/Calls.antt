-- ===== src/VirtualUser/Pool/Calls.antt =====
-- virtual_user/pool.rs: a call of the pool that no other call interleaves with.
use mathlib.Core.List.{Permᴰ}
use mathlib.Core.List.Permᴰ
use creo_bench.Prelude.{
  ℕ, zero, suc, ◌≡◌, refl, ◌⊎◌, inl, inr, none, some, List, [], ◌∷◌, append-nil, arith, length,
}
use creo_bench.Vectors.{swap_remove_total}
use creo_bench.VirtualUser.Pool.{
  RangeRng, Pool, take_random_user, forget_permit, push_user, add_permit, try_acquire, release,
}

module _ (User : Type 0) (range : RangeRng) where
  -- A user is lent, and giving it back restores the users, but for their order, and the permits.
  pub record Lends (p : Pool User range) : Type 0 where
    pub user : User
    pub after : Pool User range
    pub lent : try_acquire User range p ≡ some (some user, after)
    pub others : Permᴰ (user ∷ after.users) p.users
    pub restores_users : Permᴰ (release User range after user).users p.users
    pub restores_permits : (release User range after user).available ≡ p.available

  lends :
      (p : Pool User range) (n : ℕ) → p.available ≡ suc n → length p.users ≡ p.available → Lends p
  unfolding try_acquire forget_permit take_random_user release push_user add_permit
  lends p n k e =
      let (index, rng) = range.random_range p.rng (length p.users) in
      let (user, others, r, q) =
        swap_remove_total (range.random_range p.rng (length p.users)).0 p.users
          (range.random_range_lem p.rng (length p.users) (omega arith)) in
      record {
        user = user;
        after = record { users = others; rng = rng; available = n };
        lent = rw (k, r);
        others = q;
        restores_users = Permᴰ.trans (Permᴰ.middle user others []) (rw append-nil q);
        restores_permits = omega arith;
      }

  no_users : (users : List User) → length users ≡ 0 → users ≡ []
  no_users [] e = refl
  no_users (u ∷ us) e = absurd (omega arith)

  try_acquire-none :
      (p : Pool User range) → p.available ≡ 0 → try_acquire User range p ≡ some (none, p)
  unfolding try_acquire forget_permit
  try_acquire-none p k = ground arith

  try_acquire_at :
      (p : Pool User range) (n : ℕ)
      → p.available ≡ n
      → length p.users ≡ p.available
      → ((p.users ≡ []) × (try_acquire User range p ≡ some (none, p))) ⊎ Lends p
  try_acquire_at p zero k e = inl (no_users p.users (omega arith), try_acquire-none p k)
  try_acquire_at p (suc n) k e = inr (lends p n k e)

  -- On a pool with as many users as permits: either there are no users and `try_acquire` returns
  -- none and leaves the pool as it is, or it returns a user, who and the users left in the pool are
  -- those that were there; and `release` of this user then restores the users, in another order,
  -- and the number of permits.
  pub try_acquire-cases :
      (p : Pool User range)
      → length p.users ≡ p.available
      → ((p.users ≡ []) × (try_acquire User range p ≡ some (none, p))) ⊎ Lends p
  try_acquire-cases p e = try_acquire_at p p.available refl e
