-- ===== src/VirtualUser/User.antt =====
-- virtual_user/user.rs: a virtual user, its setup and its requests.
pub mod Outcome
pub mod Cycle
use creo_bench.Prelude.{ℕ, zero, suc, String, Option, none, some, Result, ok, err}
use creo_bench.Load.Time.{RequestTiming}
use creo_bench.Script.Lua.{LuaApi}
use creo_bench.Script.Spec.{RequestSpec, http}
use creo_bench.Script.Runner.{
  ScriptRunner, Error, Stop, failure, panic, out_of_fuel, setup, next_setup_spec, next_user_spec,
  revert,
}
use creo_bench.Transaction.{
  DroppedCode, send, extract, status, TimeoutCode, Transaction, TransactionResult, into_dropped,
  into_success, into_failed, into_timeout,
}
use creo_bench.VirtualUser.Http.{
  HttpApi, ServiceRegistry, RequestError, request_timeout, request_failed, UrlError,
  HttpExecuteError, Sending, execute,
}
use creo_bench.VirtualUser.Pool.{RangeRng, Pool, release}

module _ (api : LuaApi) (http_api : HttpApi api.Json) where
  open http_api use {World, CookieStore, now}

  -- The user without its client, whose state is in the world.
  pub record VirtualUser : Type 0 where
    pub id : ℕ
    pub runner : ScriptRunner api
    pub jar : CookieStore
    pub service_registry : ServiceRegistry

  pub data UserError : Type 0 where
    runner_setup setup_spec : Error api → UserError
    url : UrlError api http_api → UserError
    http_request : RequestError → UserError
    bad_status : ℕ → UserError
    setup_extract : ℕ → Error api → UserError

  abbrev pub new_user_of :
      ℕ
      → CookieStore
      → ServiceRegistry
      → Result (ScriptRunner api) (Error api)
      → Result VirtualUser UserError
  new_user_of id jar registry (ok runner) =
      ok (record { id = id; runner = runner; jar = jar; service_registry = registry })
  new_user_of id jar registry (err e) = err (runner_setup e)

  -- `VirtualUser::new`, with an empty jar of cookies.
  unfoldable pub new_user :
      ℕ → api.Source → CookieStore → ServiceRegistry → Result VirtualUser UserError
  new_user id source jar registry = new_user_of id jar registry (setup api source)

  unfoldable pub fail_setup_with : ℕ → HttpExecuteError api http_api → UserError
  fail_setup_with id (HttpExecuteError.url e) = url e
  fail_setup_with id (HttpExecuteError.timeout message timing) =
      http_request (request_timeout message)
  fail_setup_with id (HttpExecuteError.failed message timing) =
      http_request (request_failed message)
  fail_setup_with id (HttpExecuteError.status code timing) = bad_status code
  fail_setup_with id (HttpExecuteError.extract source timing) = setup_extract id source

  abbrev pub sending : VirtualUser → ScriptRunner api → World → Sending api http_api
  sending user runner world = record { jar = user.jar; runner = runner; world = world }

  -- The user with what a request has changed.
  abbrev pub after_sending : VirtualUser → Sending api http_api → VirtualUser
  after_sending user s = record user { runner = s.runner; jar = s.jar }

  setup_sent :
      ℕ
      → VirtualUser
      → (VirtualUser → World → Result VirtualUser (Stop UserError) × World)
      → Result RequestTiming (HttpExecuteError api http_api) × Sending api http_api
      → Result VirtualUser (Stop UserError) × World
  unfolding fail_setup_with
  setup_sent id user again (ok timing, s) = again (after_sending user s) s.world
  setup_sent id user again (err e, s) = (err (failure (fail_setup_with id e)), s.world)

  setup_next :
      ℕ
      → VirtualUser
      → World
      → (VirtualUser → World → Result VirtualUser (Stop UserError) × World)
      → Result (Option (ℕ × RequestSpec api)) (Stop (Error api)) × ScriptRunner api
      → Result VirtualUser (Stop UserError) × World
  unfolding setup_sent
  setup_next fuel user world again (err (failure e), runner) = (err (failure (setup_spec e)), world)
  setup_next fuel user world again (err panic, runner) = (err panic, world)
  setup_next fuel user world again (err out_of_fuel, runner) = (err out_of_fuel, world)
  setup_next fuel user world again (ok none, runner) = (ok (record user { runner = runner }), world)
  setup_next fuel user world again (ok (some (id, http spec)), runner) =
      setup_sent id user again
        (execute api http_api spec user.service_registry (sending user runner world))

  -- `VirtualUser::setup`: the fuel bounds the requests, and the jumps in each.
  unfoldable pub setup_user : ℕ → VirtualUser → World → Result VirtualUser (Stop UserError) × World
  unfolding setup_next
  setup_user zero user world = (err out_of_fuel, world)
  setup_user (suc fuel) user world =
      setup_next fuel user world (setup_user fuel) (next_setup_spec api fuel user.runner)

  -- How the errors are printed: the messages of thiserror.
  pub record Display : Type 0 where
    pub script_error : Error api → String
    pub url_error : UrlError api http_api → String

  module _ (display : Display) where
    -- `map_execution_error`, at the instant `now`.
    unfoldable pub map_execution_error :
        Transaction → ℕ → ℕ → HttpExecuteError api http_api → ℕ → TransactionResult
    map_execution_error t id spec (HttpExecuteError.timeout message timing) now =
        into_timeout t id spec timing (TimeoutCode.error message) now
    map_execution_error t id spec (HttpExecuteError.failed message timing) now =
        into_failed t id spec timing (send message) now
    map_execution_error t id spec (HttpExecuteError.status code timing) now =
        into_failed t id spec timing (status code) now
    map_execution_error t id spec (HttpExecuteError.extract source timing) now =
        into_failed t id spec timing (extract (display.script_error source)) now
    map_execution_error t id spec (HttpExecuteError.url e) now =
        into_dropped t (some id) (DroppedCode.error (display.url_error e)) now

    -- A result, or `none` if the call panics or overflows the stack.
    abbrev pub Outcome : Type 0
    Outcome = Option TransactionResult × VirtualUser × World

    sent :
        Transaction
        → VirtualUser
        → ℕ
        → ℕ
        → Result RequestTiming (HttpExecuteError api http_api) × Sending api http_api
        → Outcome
    unfolding map_execution_error
    sent t user handle spec (ok timing, s) =
        let (instant, world) = now s.world in
        (some (into_success t user.id spec timing instant), after_sending user s, world)
    sent t user handle spec (err e, s) =
        let (instant, world) = now s.world in
        (
          some (map_execution_error t user.id spec e instant),
          after_sending user (record s { runner = revert api handle s.runner }),
          world,
        )

    chosen :
        Transaction
        → VirtualUser
        → World
        → Result (ℕ × ℕ × RequestSpec api) (Stop (Error api)) × ScriptRunner api
        → Outcome
    unfolding sent
    chosen t user world (ok (handle, spec, http http_spec), runner) =
        sent t user handle spec
          (execute api http_api http_spec user.service_registry (sending user runner world))
    chosen t user world (err (failure e), runner) =
        let (instant, world') = now world in
        (
          some (into_dropped t (some user.id) (DroppedCode.error (display.script_error e)) instant),
          record user { runner = runner },
          world',
        )
    chosen t user world (err _, runner) = (none, record user { runner = runner }, world)

    -- `_send_next_request`.
    unfoldable pub send_request : ℕ → Transaction → VirtualUser → World → Outcome
    unfolding chosen
    send_request fuel t user world = chosen t user world (next_user_spec api fuel user.runner)

    -- The end of `send_next_request`, which a panic or an overflow of the stack does not reach.
    return_user :
        (range : RangeRng)
        → Pool VirtualUser range
        → Outcome
        → Option TransactionResult × Pool VirtualUser range × World
    return_user range pool (some result, user, world) =
        (some result, release VirtualUser range pool user, world)
    return_user range pool (none, user, world) = (none, pool, world)

    -- `send_next_request`.
    unfoldable pub send_next_request :
        (range : RangeRng)
        → ℕ
        → VirtualUser
        → Pool VirtualUser range
        → Transaction
        → World
        → Option TransactionResult × Pool VirtualUser range × World
    unfolding send_request return_user
    send_next_request range fuel user pool t world =
        return_user range pool (send_request fuel t user world)
