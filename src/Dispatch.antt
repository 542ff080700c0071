-- ===== src/Dispatch.antt =====
-- dispatch.rs: taking a virtual user for a transaction, and running a schedule.
pub mod OnTime
pub mod Run
pub mod StepsDone
pub mod Profile
use creo_bench.Prelude.{ℕ, ◌+◌, ◌*◌, Option, none, some, Result, ok, err, ltb, if◌then◌else◌}
use creo_bench.Load.Time.{StartTime}
use creo_bench.Transaction.{DroppedCode, late, no_virtual_user}
use creo_bench.VirtualUser.Pool.{RangeRng, Pool, try_acquire, release}

-- `DROP_TOLERANCE` outside of tests: 10 ms.
abbrev pub drop_tolerance : ℕ
drop_tolerance = 10 * 1000000

abbrev pub deadline_of : StartTime → ℕ
deadline_of start = start.instant + drop_tolerance

module _ (User : Type 0) (range : RangeRng) where
  -- Behind the wait of `timeout_at` for `pool.acquire()`: what it came to, and the instant after it.
  unfoldable pub after_wait :
      ℕ
      → Pool User range
      → Option (User × Pool User range)
      → ℕ
      → Result User DroppedCode × Pool User range
  after_wait deadline pool none now = (err no_virtual_user, pool)
  after_wait deadline pool (some (user, q)) now =
      if ltb deadline now then (err no_virtual_user, release User range q user) else (ok user, q)

  -- Behind `try_acquire`.
  unfoldable pub after_try :
      ℕ
      → Option (User × Pool User range)
      → ℕ
      → Option (Option User × Pool User range)
      → Option (Result User DroppedCode × Pool User range)
  after_try deadline waited now none = none
  after_try deadline waited now (some (some user, pool)) = some (ok user, pool)
  after_try deadline waited now (some (none, pool)) = some (after_wait deadline pool waited now)

  -- `acquire_on_time`, called at the instant `called`. If there is no user at once, `waited` is the
  -- user that `pool.acquire()` got and the pool after it, or none if the timer was first, and `now`
  -- is the instant after the wait. `none` is a panic.
  unfoldable pub acquire_on_time :
      StartTime
      → ℕ
      → Pool User range
      → Option (User × Pool User range)
      → ℕ
      → Option (Result User DroppedCode × Pool User range)
  acquire_on_time start called pool waited now =
      if ltb (deadline_of start) called
      then some (err late, pool)
      else after_try (deadline_of start) waited now (try_acquire User range pool)
