-- ===== src/Script/Runner/Setup.antt =====
-- script/runner/mod.rs: the runner that a setup gives.
use creo_bench.Prelude.{◌<◌, ◌≡◌, refl, subst, List, [], ◌∷◌, Result, ok, err, length, arith}
use creo_bench.Script.Lua.{LuaApi, Action, continue, or_fail}
use creo_bench.Script.Spec.{LuaRequestSpec}
use creo_bench.Script.Func.{load, call_top_level_func}
use creo_bench.Script.Runner.{
  ScriptRunner, Error, script_load, top_level_function_call, keep_user_specs, call_requests,
  call_both, setup, runner_of, load_specs,
}
use creo_bench.Script.Runner.Indexed.{specs_by_name-PointsInto}
use creo_bench.Script.Runner.Valid.{IsValid}

module _ (api : LuaApi) where
  -- `P` holds of the value, if there is one.
  abbrev pub Ensures : {A E S : Type 0} → (A → Type 0) → Result A E × S → Type 0
  Ensures P (ok a, s) = P a
  Ensures P (err e, s) = Unit {0}

  continue-Ensures :
      {A B E S : Type 0} (P : B → Type 0) (r : Result A E × S) (f : A → Action S B E)
      → ((a : A) (s : S) → Ensures P (f a s))
      → Ensures P (continue r f)
  continue-Ensures P (ok a, s) f h = h a s
  continue-Ensures P (err e, s) f h = tt

  HasUserSpecs : List (LuaRequestSpec api) × List (LuaRequestSpec api) → Type 0
  HasUserSpecs lists = 0 < length lists.1

  keep_user_specs-HasUserSpecs :
      (setup_specs specs : List (LuaRequestSpec api)) (vm : api.Vm)
      → Ensures HasUserSpecs (keep_user_specs api setup_specs specs vm)
  unfolding keep_user_specs HasUserSpecs
  keep_user_specs-HasUserSpecs setup_specs [] vm = tt
  keep_user_specs-HasUserSpecs setup_specs (s ∷ specs) vm = omega arith

  call_requests-HasUserSpecs :
      (f : api.Function) (setup_specs : List (LuaRequestSpec api)) (vm : api.Vm)
      → Ensures HasUserSpecs (call_requests api f setup_specs vm)
  unfolding call_requests
  call_requests-HasUserSpecs f setup_specs vm =
      continue-Ensures HasUserSpecs
        (or_fail (call_top_level_func api f) (top_level_function_call "requests") vm)
        (keep_user_specs api setup_specs) (keep_user_specs-HasUserSpecs setup_specs)

  call_both-HasUserSpecs :
      (fs : api.Function × api.Function) (vm : api.Vm) → Ensures HasUserSpecs (call_both api fs vm)
  unfolding call_both
  call_both-HasUserSpecs fs vm =
      continue-Ensures HasUserSpecs
        (or_fail (call_top_level_func api fs.0) (top_level_function_call "setup") vm)
        (call_requests api fs.1) (call_requests-HasUserSpecs fs.1)

  load_specs-HasUserSpecs :
      (source : api.Source) (vm : api.Vm) → Ensures HasUserSpecs (load_specs api source vm)
  unfolding load_specs
  load_specs-HasUserSpecs source vm =
      continue-Ensures HasUserSpecs (or_fail (load api source) script_load vm) (call_both api)
        call_both-HasUserSpecs

  -- The runner, if there is one, is valid and at the start of both lists.
  abbrev pub StartsValid : Result (ScriptRunner api) (Error api) → Type 0
  StartsValid (ok runner) =
      IsValid api runner × (runner.setup_cursor ≡ 0) × (runner.user_cursor ≡ 0)
  StartsValid (err e) = Unit {0}

  runner_of-StartsValid :
      (r : Result (List (LuaRequestSpec api) × List (LuaRequestSpec api)) (Error api) × api.Vm)
      → Ensures HasUserSpecs r
      → StartsValid (runner_of api r)
  unfolding HasUserSpecs
  runner_of-StartsValid (ok (setup_specs, user_specs), vm) h = (
    record {
      cursor_in_cycle = h;
      setup_names = specs_by_name-PointsInto api setup_specs;
      user_names = specs_by_name-PointsInto api user_specs;
    },
    refl,
    refl,
  )
  runner_of-StartsValid (err e, vm) h = tt

  setup-StartsValid : (source : api.Source) → StartsValid (setup api source)
  unfolding setup
  setup-StartsValid source =
      runner_of-StartsValid (load_specs api source api.new_vm)
        (load_specs-HasUserSpecs source api.new_vm)

  -- If `ScriptRunner::setup` succeeds on a source, whatever the runtime answers: the runner has a
  -- user spec under its cursor, every entry of its two indexes of names leads to a spec of that
  -- name in the list, and both cursors are at the start.
  pub setup-IsValid :
      (source : api.Source) (runner : ScriptRunner api)
      → setup api source ≡ ok runner
      → IsValid api runner × (runner.setup_cursor ≡ 0) × (runner.user_cursor ≡ 0)
  setup-IsValid source runner h = subst StartsValid h (setup-StartsValid source)
