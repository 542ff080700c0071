-- ===== src/VirtualUser/Pool/Steps.antt =====
-- virtual_user/pool.rs: clients of the pool whose calls interleave.
use mathlib.Core.List.{Permᴰ}
use mathlib.Core.List.Permᴰ
use mathlib.Core.Option.{some-injective}
use creo_bench.Prelude.{
  subst, ℕ, suc, ◌+◌, ◌≡◌, refl, ap, Option, none, some, List, [], ◌∷◌, ◌++◌, append_assoc,
  append-nil, arith, length, length-append,
}
use creo_bench.Vectors.{swap_remove, swap_remove_total, swap_remove-Perm, Perm-length}
use creo_bench.VirtualUser.Pool.{
  RangeRng, Pool, new_pool, taken, take_random_user, forget_permit, push_user, add_permit,
}

module _ (User : Type 0) (range : RangeRng) where
  -- The pool, the users that are lent, the calls of `acquire` and `try_acquire` that have a permit
  -- and no user yet, and the calls of `release` that have given back the user and not the permit.
  pub record World : Type 0 where
    pub pool : Pool User range
    pub lent : List User
    pub acquiring : ℕ
    pub releasing : ℕ

  pub data Step (w : World) : World → Type 0 where
    permits :
        (pool : Pool User range)
        → forget_permit User range w.pool ≡ some pool
        → Step w (record w { pool = pool; acquiring = w.acquiring + 1 })
    takes :
        (user : User) (pool : Pool User range) (n : ℕ)
        → w.acquiring ≡ suc n
        → take_random_user User range w.pool ≡ some (user, pool)
        → Step w (record w { pool = pool; lent = user ∷ w.lent; acquiring = n })
    pushes :
        (user : User) (others : List User)
        → Permᴰ w.lent (user ∷ others)
        → Step w (record w {
          pool = push_user User range w.pool user;
          lent = others;
          releasing = w.releasing + 1;
        })
    adds :
        (n : ℕ)
        → w.releasing ≡ suc n
        → Step w (record w { pool = add_permit User range w.pool; releasing = n })

  pub data Reaches (w : World) : World → Type 0 where
    here : Reaches w w
    next : {v u : World} → Reaches w v → Step v u → Reaches w u

  abbrev pub start : List User → range.Rng → World
  start users rng = record {
    pool = new_pool User range users rng;
    lent = [];
    acquiring = 0;
    releasing = 0;
  }

  -- The users in the pool and the lent ones are those of the beginning, and each user in the pool
  -- belongs to a permit, to a call that is about to take it, or to one about to add its permit.
  pub record Balanced (all : List User) (w : World) : Type 0 where
    pub same_users : Permᴰ (w.pool.users ++ w.lent) all
    pub permits_users : length w.pool.users ≡ w.pool.available + w.acquiring + w.releasing

  start-Balanced : (users : List User) (rng : range.Rng) → Balanced users (start users rng)
  unfolding new_pool
  start-Balanced users rng = record {
    same_users = rw append-nil (Permᴰ.refl users);
    permits_users = omega arith;
  }

  forget_permit_lem :
      (p q : Pool User range)
      → forget_permit User range p ≡ some q
      → (q.users ≡ p.users) × (p.available ≡ suc q.available)
  unfolding forget_permit
  forget_permit_lem p q e = ground arith

  taken_lem :
      (p q : Pool User range) (rng : range.Rng) (user : User) (i : ℕ)
      (o : Option (User × List User))
      → swap_remove i p.users ≡ o
      → taken User range p rng o ≡ some (user, q)
      → Permᴰ (user ∷ q.users) p.users × (q.available ≡ p.available)
  taken_lem p q rng user i none e f = cc
  taken_lem p q rng user i (some r) e f =
      subst
        (λ (z : User × Pool User range).
          Permᴰ (z.0 ∷ z.1.users) p.users × (z.1.available ≡ p.available))
        (some-injective _ _ f) (swap_remove-Perm i p.users r e, refl)

  take_random_user_lem :
      (p q : Pool User range) (user : User)
      → take_random_user User range p ≡ some (user, q)
      → Permᴰ (user ∷ q.users) p.users × (q.available ≡ p.available)
  unfolding take_random_user
  take_random_user_lem p q user e = taken_lem p q _ user _ _ refl e

  permits-Balanced :
      (all : List User) (w : World) (pool : Pool User range)
      → forget_permit User range w.pool ≡ some pool
      → Balanced all w
      → Balanced all (record w { pool = pool; acquiring = w.acquiring + 1 })
  permits-Balanced all w pool e b =
      let (same, one) = forget_permit_lem w.pool pool e in
      record {
        same_users = rw same b.same_users;
        permits_users = omega (arith, ap length same, one, b.permits_users);
      }

  takes-Balanced :
      (all : List User) (w : World) (user : User) (pool : Pool User range) (n : ℕ)
      → w.acquiring ≡ suc n
      → take_random_user User range w.pool ≡ some (user, pool)
      → Balanced all w
      → Balanced all (record w { pool = pool; lent = user ∷ w.lent; acquiring = n })
  takes-Balanced all w user pool n k e b =
      let (same, kept) = take_random_user_lem w.pool pool user e in
      record {
        same_users =
            Permᴰ.trans (Permᴰ.middle user pool.users w.lent)
              (Permᴰ.trans (Permᴰ.append_right w.lent same) b.same_users);
        permits_users = omega (arith, Perm-length same, kept, k, b.permits_users);
      }

  pushes-Balanced :
      (all : List User) (w : World) (user : User) (others : List User)
      → Permᴰ w.lent (user ∷ others)
      → Balanced all w
      → Balanced all (record w {
        pool = push_user User range w.pool user;
        lent = others;
        releasing = w.releasing + 1;
      })
  unfolding push_user
  pushes-Balanced all w user others p b = record {
    same_users =
        rw (append_assoc w.pool.users (user ∷ []) others)
          (Permᴰ.trans (Permᴰ.append_left w.pool.users (Permᴰ.symm p)) b.same_users);
    permits_users = omega (arith, length-append w.pool.users (user ∷ []), b.permits_users);
  }

  adds-Balanced :
      (all : List User) (w : World) (n : ℕ)
      → w.releasing ≡ suc n
      → Balanced all w
      → Balanced all (record w { pool = add_permit User range w.pool; releasing = n })
  unfolding add_permit
  adds-Balanced all w n k b = record {
    same_users = b.same_users;
    permits_users = omega (arith, k, b.permits_users);
  }

  Step-Balanced : (all : List User) {w v : World} → Step w v → Balanced all w → Balanced all v
  Step-Balanced all {w} (permits pool e) b = permits-Balanced all w pool e b
  Step-Balanced all {w} (takes user pool n k e) b = takes-Balanced all w user pool n k e b
  Step-Balanced all {w} (pushes user others p) b = pushes-Balanced all w user others p b
  Step-Balanced all {w} (adds n k) b = adds-Balanced all w n k b

  Reaches-Balanced : (all : List User) {w v : World} → Reaches w v → Balanced all w → Balanced all v
  Reaches-Balanced all here b = b
  Reaches-Balanced all (next r s) b = Step-Balanced all s (Reaches-Balanced all r b)

  -- However clients interleave the atomic steps of their calls on a new pool: the users in the pool
  -- and the lent ones are together the users of the beginning, each once, and the users in the pool
  -- are as many as the permits, the calls that hold a permit and have no user yet, and the calls
  -- that gave back a user and not yet its permit.
  pub Reaches-start-Balanced :
      (users : List User) (rng : range.Rng) (w : World)
      → Reaches (start users rng) w
      → Balanced users w
  Reaches-start-Balanced users rng w r = Reaches-Balanced users r (start-Balanced users rng)

  -- However clients interleave the atomic steps of their calls on a new pool: a call that holds a
  -- permit and has no user yet gets one, without a panic.
  pub take_random_user_total :
      (users : List User) (rng : range.Rng) (w : World) (n : ℕ)
      → Reaches (start users rng) w
      → w.acquiring ≡ suc n
      → (user : User) × (pool : Pool User range) × (take_random_user User range w.pool
          ≡ some (user, pool))
  unfolding take_random_user
  take_random_user_total users rng w n r k =
      let b = Reaches-start-Balanced users rng w r in
      let (user, others, e, p) =
        swap_remove_total (range.random_range w.pool.rng (length w.pool.users)).0 w.pool.users (
          range.random_range_lem w.pool.rng (length w.pool.users)
            (omega (arith, b.permits_users, k))) in
      (user, _, ap (taken User range w.pool _) e)
