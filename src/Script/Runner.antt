-- ===== src/Script/Runner.antt =====
-- script/runner/mod.rs: `ScriptRunner`, which drives the two phases of a script.
pub mod Calls
pub mod Static
pub mod Indexed
pub mod Valid
pub mod Setup
pub mod Jumps
pub mod Circles
use creo_bench.Prelude.{
  ℕ, zero, suc, ◌+◌, ◌%◌, ◌≡◌, refl, String, ◌||◌, Option, none, some, List, [], ◌∷◌, Result, ok,
  err, map_err, ok_or, length, get_elem?, leb, ◌==◌, if◌then◌else◌,
}
use creo_bench.Script.Lua.{Action, ◌>>=◌, pure, fail, lift, or_fail, LuaApi}
use creo_bench.Script.Response.{Response}
use creo_bench.Script.Spec.{RequestSpec, SpecType, static, dynamic, LuaRequestSpec, HttpSpec}
use creo_bench.Script.Func.{
  CallError, DynamicResolve, spec, jump, call_top_level_func, call_dynamic_func, LoadError, load,
}
use creo_bench.Script.Names.{NameIndex, lookup, specs_by_name}

-- How a call ends that gives no value: an error that it returns, an index out of bounds, or the
-- fuel for the jumps, which stand for the stack.
pub data Stop (E : Type 0) : Type 0 where
  failure : E → Stop E
  panic out_of_fuel : Stop E

abbrev pub map_failure : {E F : Type 0} → (E → F) → Stop E → Stop F
map_failure f (failure e) = failure (f e)
map_failure f panic = panic
map_failure f out_of_fuel = out_of_fuel

module _ (api : LuaApi) where
  open api use {Vm, Function, LuaError, Source, new_vm, call_extract}

  pub data ResolveError : Type 0 where
    dynamic_call : ℕ → CallError api → ResolveError
    unknown_jump : ℕ → String → ResolveError

  -- script/runner/error.rs
  pub data Error : Type 0 where
    script_load : LoadError api → Error
    top_level_function_call : String → CallError api → Error
    empty_user_specs : Error
    setup_spec user_spec : ResolveError → Error
    http_extract : LuaError → Error

  pub record ScriptRunner : Type 0 where
    pub lua : Vm
    pub setup_specs : List (LuaRequestSpec api)
    pub setup_specs_by_name : NameIndex
    pub setup_cursor : ℕ
    pub user_specs : List (LuaRequestSpec api)
    pub user_specs_by_name : NameIndex
    pub user_cursor : ℕ

  abbrev pub SpecLists : Type 0
  SpecLists = List (LuaRequestSpec api) × List (LuaRequestSpec api)

  keep_user_specs :
      List (LuaRequestSpec api) → List (LuaRequestSpec api) → Action Vm SpecLists Error
  keep_user_specs setup_specs [] = fail empty_user_specs
  keep_user_specs setup_specs (s ∷ specs) = pure (setup_specs, s ∷ specs)

  call_requests : Function → List (LuaRequestSpec api) → Action Vm SpecLists Error
  unfolding keep_user_specs
  call_requests requests setup_specs =
      or_fail (call_top_level_func api requests) (top_level_function_call "requests")
      >>= keep_user_specs setup_specs

  call_both : Function × Function → Action Vm SpecLists Error
  unfolding call_requests
  call_both (setup, requests) =
      or_fail (call_top_level_func api setup) (top_level_function_call "setup")
      >>= call_requests requests

  -- The specs of the two functions of the script.
  load_specs : Source → Action Vm SpecLists Error
  unfolding call_both
  load_specs source = or_fail (load api source) script_load >>= call_both

  abbrev pub new_runner : Vm → List (LuaRequestSpec api) → List (LuaRequestSpec api) → ScriptRunner
  new_runner vm setup_specs user_specs = record {
    lua = vm;
    setup_specs = setup_specs;
    setup_specs_by_name = specs_by_name api setup_specs;
    setup_cursor = 0;
    user_specs = user_specs;
    user_specs_by_name = specs_by_name api user_specs;
    user_cursor = 0;
  }

  abbrev pub runner_of : Result SpecLists Error × Vm → Result ScriptRunner Error
  runner_of (ok (setup_specs, user_specs), vm) = ok (new_runner vm setup_specs user_specs)
  runner_of (err e, vm) = err e

  -- `ScriptRunner::setup`.
  unfoldable pub setup : Source → Result ScriptRunner Error
  unfolding load_specs
  setup source = runner_of (load_specs source new_vm)

  module _ (specs : List (LuaRequestSpec api)) (by_name : NameIndex) where
    abbrev pub Resolving : Type 0 → Type 0
    Resolving A = Action Vm A (Stop ResolveError)

    -- What `resolve` does with the result of the call, with its own call of itself.
    enter :
        (ℕ → Function → Resolving (ℕ × RequestSpec api))
        → ℕ
        → SpecType api
        → Resolving (ℕ × RequestSpec api)
    enter again index (static s) = pure (index, s)
    enter again index (dynamic f) = again index f

    follow :
        (ℕ → Function → Resolving (ℕ × RequestSpec api))
        → ℕ
        → DynamicResolve api
        → Resolving (ℕ × RequestSpec api)
    unfolding enter
    follow again cursor (spec s) = pure (cursor, s)
    follow again cursor (jump name) = do
      index ← lift (ok_or (lookup name by_name) (failure (unknown_jump (cursor + 1) name)))
      target ← lift (ok_or (get_elem? specs index) panic)
      enter again index target.spec

    unfoldable pub resolve : ℕ → ℕ → Function → Resolving (ℕ × RequestSpec api)
    unfolding follow
    resolve zero cursor f = fail out_of_fuel
    resolve (suc fuel) cursor f = do
      result ← or_fail (call_dynamic_func api cursor f) (λ e. failure (dynamic_call (cursor + 1) e))
      follow (resolve fuel) cursor result

    -- The spec with its index, and the cursor after the call.
    abbrev pub Next : Type 0
    Next = Result (ℕ × RequestSpec api) (Stop ResolveError) × ℕ × Vm

    after : ℕ → Result (ℕ × RequestSpec api) (Stop ResolveError) × Vm → Next
    after cursor (ok (index, s), vm) = (ok (index, s), index + 1, vm)
    after cursor (err e, vm) = (err e, cursor, vm)

    next_of : ℕ → ℕ → Vm → SpecType api → Next
    unfolding resolve after
    next_of fuel cursor vm (static s) = (ok (cursor, s), cursor + 1, vm)
    next_of fuel cursor vm (dynamic f) = after cursor (resolve fuel cursor f vm)

    next_at : ℕ → ℕ → Vm → Option (LuaRequestSpec api) → Next
    unfolding next_of
    next_at fuel cursor vm none = (err panic, cursor, vm)
    next_at fuel cursor vm (some request) = next_of fuel cursor vm request.spec

    unfoldable pub next_spec : ℕ → ℕ → Vm → Next
    unfolding next_at
    next_spec fuel cursor vm = next_at fuel cursor vm (get_elem? specs cursor)

  setup_advanced :
      ScriptRunner
      → Result (ℕ × RequestSpec api) (Stop ResolveError) × ℕ × Vm
      → Result (Option (ℕ × RequestSpec api)) (Stop Error) × ScriptRunner
  setup_advanced runner (ok found, cursor, vm) =
      (ok (some found), record runner { setup_cursor = cursor; lua = vm })
  setup_advanced runner (err e, cursor, vm) =
      (err (map_failure setup_spec e), record runner { setup_cursor = cursor; lua = vm })

  -- `ScriptRunner::next_setup_spec`.
  unfoldable pub next_setup_spec :
      ℕ → ScriptRunner → Result (Option (ℕ × RequestSpec api)) (Stop Error) × ScriptRunner
  unfolding setup_advanced
  next_setup_spec fuel runner =
      let next =
        next_spec runner.setup_specs runner.setup_specs_by_name fuel runner.setup_cursor
          runner.lua in
      if (length runner.setup_specs == 0) || leb (length runner.setup_specs) runner.setup_cursor
      then (ok none, runner)
      else setup_advanced runner next

  -- The cursor before the call.
  abbrev pub RevertHandle : Type 0
  RevertHandle = ℕ

  user_advanced :
      ScriptRunner
      → Result (ℕ × RequestSpec api) (Stop ResolveError) × ℕ × Vm
      → Result (RevertHandle × ℕ × RequestSpec api) (Stop Error) × ScriptRunner
  user_advanced runner (ok (index, s), cursor, vm) = (
    ok (runner.user_cursor, index, s),
    record runner { user_cursor = cursor % length runner.user_specs; lua = vm },
  )
  user_advanced runner (err e, cursor, vm) =
      (err (map_failure user_spec e), record runner { user_cursor = cursor; lua = vm })

  -- `ScriptRunner::next_user_spec`.
  unfoldable pub next_user_spec :
      ℕ → ScriptRunner → Result (RevertHandle × ℕ × RequestSpec api) (Stop Error) × ScriptRunner
  unfolding user_advanced
  next_user_spec fuel runner =
      user_advanced runner
        (next_spec runner.user_specs runner.user_specs_by_name fuel runner.user_cursor runner.lua)

  unfoldable pub revert : RevertHandle → ScriptRunner → ScriptRunner
  revert handle runner = record runner { user_cursor = handle }

  extract_with : Option Function → Response → ScriptRunner → Result (Unit {0}) Error × ScriptRunner
  extract_with none response runner = (ok tt, runner)
  extract_with (some f) response runner =
      let (r, vm) = call_extract f response runner.lua in
      (map_err http_extract r, record runner { lua = vm })

  -- `ScriptRunner::run_http_extract`.
  unfoldable pub run_http_extract :
      HttpSpec api → Response → ScriptRunner → Result (Unit {0}) Error × ScriptRunner
  unfolding extract_with
  run_http_extract http_spec response runner = extract_with http_spec.extract response runner

  -- The same script at the same place, in whatever state of the runtime.
  abbrev pub SamePlace : ScriptRunner → ScriptRunner → Type 0
  SamePlace r r' = r' ≡ record r { lua = r'.lua }

  extract_with-SamePlace :
      (f : Option Function) (response : Response) (r : ScriptRunner)
      → SamePlace r (extract_with f response r).1
  unfolding extract_with
  extract_with-SamePlace none response r = refl
  extract_with-SamePlace (some f) response r = refl

  pub run_http_extract-SamePlace :
      (http_spec : HttpSpec api) (response : Response) (r : ScriptRunner)
      → SamePlace r (run_http_extract http_spec response r).1
  unfolding run_http_extract
  run_http_extract-SamePlace http_spec response r =
      extract_with-SamePlace http_spec.extract response r
