-- ===== src/VirtualUser/User/Outcome.antt =====
-- virtual_user/user.rs and virtual_user/http/executor.rs: how a request of the cycle ends.
use creo_bench.Prelude.{
  ℕ, ◌+◌, ◌%◌, ◌<◌, ◌≡◌, refl, ap, sym, subst, ◌∙◌, Option, none, some, [], ◌∷◌, ◌++◌, Result, ok,
  err, length,
}
use creo_bench.Load.Time.{RequestTiming}
use creo_bench.Script.Lua.{LuaApi}
use creo_bench.Script.Spec.{RequestSpec, http}
use creo_bench.Script.Runner.{
  ScriptRunner, Error, Stop, failure, panic, out_of_fuel, next_user_spec, revert, SamePlace,
}
use creo_bench.Script.Runner.Valid.{
  revert-IsValid, SamePlace-IsValid, next_user_spec-user_specs, IsValid, UserNext,
  next_user_spec-IsValid,
}
use creo_bench.Transaction.{
  Transaction, TransactionResult, success, failed, timeout, dropped, into_success, into_dropped,
  into_failed, into_timeout,
}
use creo_bench.VirtualUser.Http.{HttpApi, HttpExecuteError, Sending, execute}
use creo_bench.VirtualUser.Http.Execute.{execute-SamePlace}
use creo_bench.VirtualUser.Pool.{RangeRng, Pool, release, push_user, add_permit}
use creo_bench.VirtualUser.User.{
  VirtualUser, Display, Outcome, sending, sent, chosen, map_execution_error, send_request,
  return_user, send_next_request,
}

-- What is left of a user with the given id and cursor in a cycle of `n` specs, by its result.
abbrev pub Ended : ℕ → ℕ → ℕ → Option TransactionResult × ℕ → Type 0
Ended n id cursor (some (success m r s), cursor') =
    (m.virtual_user_id ≡ id) × (m.spec_id < n) × (cursor' ≡ (m.spec_id + 1) % n)
Ended n id cursor (some (failed m r s code), cursor') =
    (m.virtual_user_id ≡ id) × (m.spec_id < n) × (cursor' ≡ cursor)
Ended n id cursor (some (timeout m r s code), cursor') =
    (m.virtual_user_id ≡ id) × (m.spec_id < n) × (cursor' ≡ cursor)
Ended n id cursor (some (dropped m r code), cursor') =
    (m.virtual_user_id ≡ some id) × (cursor' ≡ cursor)
Ended n id cursor (none, cursor') = cursor' ≡ cursor

module _ (api : LuaApi) (http_api : HttpApi api.Json) where
  open http_api use {World, now}

  module _ (display : Display api http_api) where
    -- The request of the runner's cycle that a user has made: the user keeps its id and its specs,
    -- its runner is valid, and it has no result only for want of stack.
    abbrev pub Requested : ℕ → VirtualUser api http_api → Outcome api http_api display → Type 0
    Requested fuel user (result, user', world) =
        IsValid api user'.runner
        × (user'.id ≡ user.id)
        × (user'.runner.user_specs ≡ user.runner.user_specs)
        × Ended (length user.runner.user_specs) user.id user.runner.user_cursor
            (result, user'.runner.user_cursor)
        × (result ≡ none → (next_user_spec api fuel user.runner).0 ≡ err out_of_fuel)

    map_execution_error-Ended :
        (t : Transaction) (n id spec cursor now : ℕ) (e : HttpExecuteError api http_api)
        → spec < n
        → Ended n id cursor
            (some (map_execution_error api http_api display t id spec e now), cursor)
    unfolding map_execution_error into_timeout into_failed into_dropped
    map_execution_error-Ended t n id spec cursor now (HttpExecuteError.timeout m timing) h =
        (refl, h, refl)
    map_execution_error-Ended t n id spec cursor now (HttpExecuteError.failed m timing) h =
        (refl, h, refl)
    map_execution_error-Ended t n id spec cursor now (HttpExecuteError.status code timing) h =
        (refl, h, refl)
    map_execution_error-Ended t n id spec cursor now (HttpExecuteError.extract e timing) h =
        (refl, h, refl)
    map_execution_error-Ended t n id spec cursor now (HttpExecuteError.url e) h = (refl, refl)

    -- A user whose runner has advanced from `user`, and made the request for the spec at `index`.
    sent-Requested :
        (fuel : ℕ) (t : Transaction) (user : VirtualUser api http_api) (index : ℕ)
        (runner : ScriptRunner api)
        (r : Result RequestTiming (HttpExecuteError api http_api) × Sending api http_api)
        → IsValid api user.runner
        → IsValid api runner
        → runner.user_specs ≡ user.runner.user_specs
        → index < length user.runner.user_specs
        → runner.user_cursor ≡ (index + 1) % length user.runner.user_specs
        → SamePlace api runner r.1.runner
        → Requested fuel user (sent api http_api display t user user.runner.user_cursor index r)
    unfolding sent into_success revert
    sent-Requested fuel t user index runner (ok timing, s) v v' same h c e = (
      SamePlace-IsValid api runner s.runner v' e,
      refl,
      ap (λ r. r.user_specs) e ∙ same,
      (refl, h, ap (λ r. r.user_cursor) e ∙ c),
      λ absent. cc,
    )
    sent-Requested fuel t user index runner (err e', s) v v' same h c e = (
      revert-IsValid api s.runner user.runner.user_cursor
          (SamePlace-IsValid api runner s.runner v' e)
          (subst (λ specs. user.runner.user_cursor < length specs)
            (sym (ap (λ r. r.user_specs) e ∙ same)) v.cursor_in_cycle),
      refl,
      ap (λ r. r.user_specs) e ∙ same,
      map_execution_error-Ended t (length user.runner.user_specs) user.id index
          user.runner.user_cursor _ e' h,
      λ absent. cc,
    )

    chosen-Requested :
        (fuel : ℕ) (t : Transaction) (user : VirtualUser api http_api) (world : World)
        (next : Result (ℕ × ℕ × RequestSpec api) (Stop (Error api)) × ScriptRunner api)
        → next_user_spec api fuel user.runner ≡ next
        → IsValid api user.runner
        → IsValid api next.1
        → UserNext api user.runner next
        → next.1.user_specs ≡ user.runner.user_specs
        → Requested fuel user (chosen api http_api display t user world next)
    unfolding chosen into_dropped
    chosen-Requested fuel t user world (ok (handle, index, http spec), runner) e v v' u same =
        rw u.0 (
          sent-Requested fuel t user index runner
            (execute api http_api spec user.service_registry
              (sending api http_api user runner world))
            v v' same u.1 u.2
            (execute-SamePlace api http_api spec user.service_registry
              (sending api http_api user runner world)))
    chosen-Requested fuel t user world (err (failure x), runner) e v v' u same =
        (v', refl, same, (refl, u.1), λ absent. cc)
    chosen-Requested fuel t user world (err panic, runner) e v v' u same = absurd (u.0 refl)
    chosen-Requested fuel t user world (err out_of_fuel, runner) e v v' u same =
        (v', refl, same, u.1, λ absent. ap (λ r. r.0) e)

    pub send_request-Requested :
        (fuel : ℕ) (t : Transaction) (user : VirtualUser api http_api) (world : World)
        → IsValid api user.runner
        → Requested fuel user (send_request api http_api display fuel t user world)
    unfolding send_request
    send_request-Requested fuel t user world v =
        let valid = next_user_spec-IsValid api fuel user.runner v in
        chosen-Requested fuel t user world (next_user_spec api fuel user.runner) refl v valid.0
          valid.1 (next_user_spec-user_specs api fuel user.runner)

    -- The pool after the call: with a result it has the user behind the others, and its permit.
    abbrev pub Released :
        (range : RangeRng)
        → Pool (VirtualUser api http_api) range
        → VirtualUser api http_api
        → Option TransactionResult × Pool (VirtualUser api http_api) range
        → Type 0
    Released range pool user (some result, pool') =
        (pool'.users ≡ pool.users ++ user ∷ []) × (pool'.available ≡ pool.available + 1)
    Released range pool user (none, pool') = pool' ≡ pool

    return_user-Released :
        (range : RangeRng) (fuel : ℕ) (user : VirtualUser api http_api)
        (pool : Pool (VirtualUser api http_api) range) (o : Outcome api http_api display)
        → Requested fuel user o
        → let (result, pool', world') = return_user api http_api display range pool o in
          (user' : VirtualUser api http_api) × Released range pool user' (result, pool')
          × Requested fuel user (result, user', world')
    unfolding return_user release push_user add_permit
    return_user-Released range fuel user pool (some result, user', world) r =
        (user', (refl, refl), r)
    return_user-Released range fuel user pool (none, user', world) r = (user', refl, r)

    -- For a user whose runner is valid: `send_next_request` has a result, unless the jumps of the
    -- script run out of fuel; nothing panics. With a result the user is back in the pool, behind
    -- the others and with its permit; without one the pool is as it was. The user keeps its id and
    -- its specs, and its runner is valid. After a success the cursor is on the successor, in the
    -- cycle, of the spec that the result names; after a failed, timed out or dropped transaction it
    -- is where it was; the results but for a dropped one name a spec of the cycle, and every result
    -- names the user.
    pub send_next_request-releases :
        (range : RangeRng) (fuel : ℕ) (user : VirtualUser api http_api)
        (pool : Pool (VirtualUser api http_api) range) (t : Transaction) (world : World)
        → IsValid api user.runner
        → let (result, pool', world') =
            send_next_request api http_api display range fuel user pool t world in
          (user' : VirtualUser api http_api) × Released range pool user' (result, pool')
          × Requested fuel user (result, user', world')
    unfolding send_next_request
    send_next_request-releases range fuel user pool t world v =
        return_user-Released range fuel user pool
          (send_request api http_api display fuel t user world)
          (send_request-Requested fuel t user world v)
