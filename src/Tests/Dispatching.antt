-- ===== src/Tests/Dispatching.antt =====
-- Transactions scheduled at the instant 0, with a pool of one user or of none.
use mathlib.Core.List.{Permᴰ}
use creo_bench.Prelude.{ℕ, ◌≤◌, ◌≡◌, refl, ◌⊎◌, Option, some, [], ◌∷◌, ok, err}
use creo_bench.Load.Time.{StartTime}
use creo_bench.Transaction.{no_virtual_user}
use creo_bench.Vectors.{swap_remove, swap_remove_head}
use creo_bench.VirtualUser.Pool.{
  Pool, take_random_user, forget_permit, push_user, add_permit, try_acquire, release,
}
use creo_bench.Tests.Users.{first_always}
use creo_bench.Dispatch.{deadline_of, after_wait, after_try, acquire_on_time}
use creo_bench.Dispatch.OnTime.{acquire_on_time-ok, acquire_on_time-no_virtual_user}

abbrev at_zero : StartTime
at_zero = record { instant = 0; relative_to_start = 0 }

abbrev no_users : Pool ℕ first_always
no_users = record { users = []; rng = 5; available = 0 }

abbrev one_user : Pool ℕ first_always
one_user = record { users = 7 ∷ []; rng = 5; available = 1 }

abbrev waited : Option (ℕ × Pool ℕ first_always)
waited = some (7, no_users)

acquires_later : try_acquire ℕ first_always one_user ≡ some (some 7, no_users)
unfolding try_acquire take_random_user forget_permit swap_remove swap_remove_head
acquires_later = refl

ok_in_time :
    acquire_on_time ℕ first_always at_zero 3 no_users waited 9000000 ≡ some (ok 7, no_users)
unfolding acquire_on_time after_try after_wait try_acquire forget_permit
ok_in_time = refl

dropped_too_late :
    acquire_on_time ℕ first_always at_zero 3 no_users (some (7, no_users)) 11000000
    ≡ some (err no_virtual_user, one_user)
unfolding acquire_on_time after_try after_wait try_acquire forget_permit release push_user
    add_permit
dropped_too_late = refl

acquire_on_time-ok_example :
    (3 ≤ deadline_of at_zero)
    × ((try_acquire ℕ first_always no_users ≡ some (some 7, no_users))
        ⊎ ((waited ≡ some (7, no_users)) × (9000000 ≤ deadline_of at_zero)))
acquire_on_time-ok_example =
    acquire_on_time-ok ℕ first_always at_zero 3 no_users no_users waited 9000000 7 ok_in_time

acquire_on_time-no_virtual_user_example :
    Permᴰ one_user.users one_user.users × (one_user.available ≡ one_user.available)
acquire_on_time-no_virtual_user_example =
    acquire_on_time-no_virtual_user ℕ first_always at_zero 3 no_users one_user one_user no_users 7
      11000000 refl acquires_later dropped_too_late
