-- ===== src/VirtualUser/User/Cycle.antt =====
-- virtual_user/user.rs: the requests of one user, one after the other.
use native.Mathlib.Nat.{mod-eq_of_lt, mod-add-mod}
use creo_bench.Prelude.{
  ℕ, suc, ◌+◌, ◌%◌, ◌≡◌, refl, ap, sym, subst, ◌∙◌, Option, none, some, List, [], ◌∷◌, Result, ok,
  err, All, length, arith,
}
use creo_bench.Load.Time.{RequestTiming}
use creo_bench.Script.Lua.{LuaApi}
use creo_bench.Script.Spec.{RequestSpec, http}
use creo_bench.Script.Runner.{ScriptRunner, Error, Stop, next_user_spec}
use creo_bench.Script.Runner.Static.{IsStatic, All-get_elem, next_user_spec-static}
use creo_bench.Script.Runner.Valid.{IsValid, lt-get_elem}
use creo_bench.Transaction.{
  Transaction, TransactionResult, success, failed, timeout, dropped, into_success, into_dropped,
  into_failed, into_timeout,
}
use creo_bench.VirtualUser.Http.{HttpApi, HttpExecuteError, Sending, execute}
use creo_bench.VirtualUser.User.{
  VirtualUser, Display, sending, sent, chosen, map_execution_error, send_request,
}
use creo_bench.VirtualUser.User.Outcome.{Ended, send_request-Requested}

-- The results in turn, of a cycle of `n` specs that began at `c` with `k` successes before: each
-- request is for the spec that many places on.
abbrev pub Follows : ℕ → ℕ → ℕ → List (Option TransactionResult) → Type 0
Follows n c k [] = Unit {0}
Follows n c k (none ∷ rs) = ⊥
Follows n c k (some (success m r s) ∷ rs) = (m.spec_id ≡ (c + k) % n) × Follows n c (suc k) rs
Follows n c k (some (failed m r s code) ∷ rs) = (m.spec_id ≡ (c + k) % n) × Follows n c k rs
Follows n c k (some (timeout m r s code) ∷ rs) = (m.spec_id ≡ (c + k) % n) × Follows n c k rs
Follows n c k (some (dropped m r code) ∷ rs) = Follows n c k rs

abbrev IsFor : ℕ → Option TransactionResult → Type 0
IsFor i none = ⊥
IsFor i (some (success m r s)) = m.spec_id ≡ i
IsFor i (some (failed m r s code)) = m.spec_id ≡ i
IsFor i (some (timeout m r s code)) = m.spec_id ≡ i
IsFor i (some (dropped m r code)) = Unit {0}

module _ (api : LuaApi) (http_api : HttpApi api.Json) (display : Display api http_api) where
  open http_api use {World, now}

  pub send_requests :
      ℕ
      → List Transaction
      → VirtualUser api http_api
      → World
      → List (Option TransactionResult) × VirtualUser api http_api × World
  send_requests fuel [] user world = ([], user, world)
  send_requests fuel (t ∷ ts) user world =
      let (result, user', world') = send_request api http_api display fuel t user world in
      let (results, last, end) = send_requests fuel ts user' world' in (result ∷ results, last, end)

  map_execution_error-IsFor :
      (t : Transaction) (id i now : ℕ) (e : HttpExecuteError api http_api)
      → IsFor i (some (map_execution_error api http_api display t id i e now))
  unfolding map_execution_error into_timeout into_failed into_dropped
  map_execution_error-IsFor t id i now (HttpExecuteError.timeout m timing) = refl
  map_execution_error-IsFor t id i now (HttpExecuteError.failed m timing) = refl
  map_execution_error-IsFor t id i now (HttpExecuteError.status code timing) = refl
  map_execution_error-IsFor t id i now (HttpExecuteError.extract e timing) = refl
  map_execution_error-IsFor t id i now (HttpExecuteError.url e) = tt

  sent-IsFor :
      (t : Transaction) (user : VirtualUser api http_api) (handle i : ℕ)
      (r : Result RequestTiming (HttpExecuteError api http_api) × Sending api http_api)
      → IsFor i (sent api http_api display t user handle i r).0
  unfolding sent into_success
  sent-IsFor t user handle i (ok timing, s) = refl
  sent-IsFor t user handle i (err e, s) = map_execution_error-IsFor t user.id i (now s.world).0 e

  chosen-IsFor :
      (t : Transaction) (user : VirtualUser api http_api) (world : World)
      (next : Result (ℕ × ℕ × RequestSpec api) (Stop (Error api)) × ScriptRunner api) (i : ℕ)
      (spec : RequestSpec api) (runner : ScriptRunner api)
      → next ≡ (ok (i, i, spec), runner)
      → IsFor i (chosen api http_api display t user world next).0
  unfolding chosen
  chosen-IsFor t user world next i (http spec) runner e = rw e (
      sent-IsFor t user i i
        (execute api http_api spec user.service_registry (sending api http_api user runner world)))

  send_request-IsFor :
      (fuel : ℕ) (t : Transaction) (user : VirtualUser api http_api) (world : World)
      → IsValid api user.runner
      → All (IsStatic api) user.runner.user_specs
      → IsFor user.runner.user_cursor (send_request api http_api display fuel t user world).0
  unfolding send_request
  send_request-IsFor fuel t user world v static_specs =
      let (at, found) =
        lt-get_elem api user.runner.user_specs user.runner.user_cursor v.cursor_in_cycle in
      let (s, k) =
        All-get_elem api (IsStatic api) user.runner.user_specs user.runner.user_cursor at
          static_specs found in
      chosen-IsFor t user world (next_user_spec api fuel user.runner) user.runner.user_cursor s
        (record user.runner {
          user_cursor = (user.runner.user_cursor + 1) % length user.runner.user_specs;
        })
        (next_user_spec-static api fuel user.runner at s found k)

  -- The first result settles how the others go on.
  Follows-cons :
      (n c k id cursor cursor' : ℕ) (r : Option TransactionResult)
      (rs : List (Option TransactionResult))
      → cursor ≡ (c + k) % n
      → IsFor cursor r
      → Ended n id cursor (r, cursor')
      → ((k' : ℕ) → cursor' ≡ (c + k') % n → Follows n c k' rs)
      → Follows n c k (r ∷ rs)
  Follows-cons n c k id cursor cursor' none rs at i e rest = i
  Follows-cons n c k id cursor cursor' (some (success m r s)) rs at i e rest = (
    i ∙ at,
    rest (suc k) (
        e.2
        ∙ ap (λ x. (x + 1) % n) (i ∙ at)
        ∙ mod-add-mod (c + k) n 1
        ∙ ap (λ x. x % n) (omega arith)),
  )
  Follows-cons n c k id cursor cursor' (some (failed m r s code)) rs at i e rest =
      (i ∙ at, rest k (e.2 ∙ at))
  Follows-cons n c k id cursor cursor' (some (timeout m r s code)) rs at i e rest =
      (i ∙ at, rest k (e.2 ∙ at))
  Follows-cons n c k id cursor cursor' (some (dropped m r code)) rs at i e rest = rest k (e.1 ∙ at)

  send_requests-follow :
      (fuel n c k : ℕ) (ts : List Transaction) (user : VirtualUser api http_api) (world : World)
      → IsValid api user.runner
      → All (IsStatic api) user.runner.user_specs
      → length user.runner.user_specs ≡ n
      → user.runner.user_cursor ≡ (c + k) % n
      → Follows n c k (send_requests fuel ts user world).0
  unfolding send_requests
  send_requests-follow fuel n c k [] user world v static_specs ln at = tt
  send_requests-follow fuel n c k (t ∷ ts) user world v static_specs ln at =
      let ended = send_request-Requested api http_api display fuel t user world v in
      let (result, user', world') = send_request api http_api display fuel t user world in
      let same = ended.2 in
      Follows-cons n c k user.id user.runner.user_cursor user'.runner.user_cursor result
        (send_requests fuel ts user' world').0 at
        (send_request-IsFor fuel t user world v static_specs)
        (subst (λ m. Ended m user.id user.runner.user_cursor (result, user'.runner.user_cursor)) ln
          ended.3)
        λ k' at'.
          send_requests-follow fuel n c k' ts user' world' ended.0
            (subst (All (IsStatic api)) (sym same) static_specs) (ap length same ∙ ln) at'

  -- For a user whose runner is valid and whose user specs are all static, and any transactions that
  -- it sends one after the other: each has a result, and if the result names a spec, this is the
  -- spec at (start + number of successes before) modulo the number of specs, where the start is the
  -- cursor before the first. Only successes advance the script.
  pub send_requests-Follows :
      (fuel : ℕ) (ts : List Transaction) (user : VirtualUser api http_api) (world : World)
      → IsValid api user.runner
      → All (IsStatic api) user.runner.user_specs
      → Follows
          (length user.runner.user_specs)
          user.runner.user_cursor
          0
          (send_requests fuel ts user world).0
  send_requests-Follows fuel ts user world v static_specs =
      send_requests-follow fuel (length user.runner.user_specs) user.runner.user_cursor 0 ts user
        world v static_specs refl
        (sym (mod-eq_of_lt v.cursor_in_cycle)
          ∙ ap (λ x. x % length user.runner.user_specs) (omega arith))
