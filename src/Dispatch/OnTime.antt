-- ===== src/Dispatch/OnTime.antt =====
-- dispatch.rs: when `acquire_on_time` takes a virtual user, and what a drop leaves of the pool.
use mathlib.Core.Option.{some-injective}
use mathlib.Core.List.{Permᴰ}
use creo_bench.Prelude.{
  ℕ, ◌≤◌, ◌≡◌, sym, ◌∙◌, subst, ◌⊎◌, inl, inr, Option, none, some, arith, ok, err, length,
}
use creo_bench.Load.Time.{StartTime}
use creo_bench.Transaction.{no_virtual_user}
use creo_bench.VirtualUser.Pool.{RangeRng, Pool, try_acquire, release}
use creo_bench.VirtualUser.Pool.Calls.{try_acquire-cases}
use creo_bench.Dispatch.{deadline_of, after_wait, after_try, acquire_on_time}

module _ (User : Type 0) (range : RangeRng) where
  -- When `acquire_on_time` returns a virtual user, it was called no later than the drop tolerance
  -- after the start of the transaction; and either the pool had the user at once, or the wait gave
  -- the user and was over no later than the drop tolerance after the start.
  pub acquire_on_time-ok :
      (start : StartTime) (called : ℕ) (pool q : Pool User range)
      (waited : Option (User × Pool User range)) (now : ℕ) (user : User)
      → acquire_on_time User range start called pool waited now ≡ some (ok user, q)
      → (called ≤ deadline_of start)
        × ((try_acquire User range pool ≡ some (some user, q))
            ⊎ ((waited ≡ some (user, q)) × (now ≤ deadline_of start)))
  unfolding acquire_on_time after_try after_wait
  acquire_on_time-ok start called pool q waited now user e = ground arith

  given_back :
      (start : StartTime) (called : ℕ) (pool q r : Pool User range) (user : User) (now : ℕ)
      → acquire_on_time User range start called pool (some (user, r)) now
        ≡ some (err no_virtual_user, q)
      → release User range r user ≡ q
  unfolding acquire_on_time after_try after_wait
  given_back start called pool q r user now e = ground arith

  released :
      (later r : Pool User range) (user : User)
      → length later.users ≡ later.available
      → try_acquire User range later ≡ some (some user, r)
      → Permᴰ (release User range r user).users later.users
        × ((release User range r user).available ≡ later.available)
  released later r user n e = elim (try_acquire-cases User range later n) [
    | inl (empty, f) ↦ cc
    | inr l ↦
        subst
          (λ (z : Option User × Pool User range). elim z.0 [
            | none ↦ Unit
            | some u ↦
                Permᴰ (release User range z.1 u).users later.users
                × ((release User range z.1 u).available ≡ later.available)
          ])
          (some-injective _ _ (sym l.lent ∙ e)) (l.restores_users, l.restores_permits)
  ]

  -- When the wait of `acquire_on_time` gave a user that was taken by itself from a pool with as
  -- many users as permits, and the transaction is yet dropped for want of a virtual user: the pool
  -- after the call has the users that it had before the user was taken, in another order, and as
  -- many permits.
  pub acquire_on_time-no_virtual_user :
      (start : StartTime) (called : ℕ) (pool later q r : Pool User range) (user : User) (now : ℕ)
      → length later.users ≡ later.available
      → try_acquire User range later ≡ some (some user, r)
      → acquire_on_time User range start called pool (some (user, r)) now
        ≡ some (err no_virtual_user, q)
      → Permᴰ q.users later.users × (q.available ≡ later.available)
  acquire_on_time-no_virtual_user start called pool later q r user now n e f =
      subst (λ (z : Pool User range). Permᴰ z.users later.users × (z.available ≡ later.available))
        (given_back start called pool q r user now f) (released later r user n e)
