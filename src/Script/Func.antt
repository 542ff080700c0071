-- ===== src/Script/Func.antt =====
-- script/runner/func.rs and script/runner/loader.rs: the functions of a script, loaded and called.
use creo_bench.Prelude.{ℕ, ◌+◌, String, List, [], ◌∷◌, Result, err, map_err, ok_or}
use creo_bench.Script.Lua.{
  Action, ◌>>=◌, pure, fail, lift, or_fail, LuaApi, Value, nil, str, table, function,
}
use creo_bench.Script.Spec.{RequestSpec, LuaRequestSpec}
use creo_bench.Script.Parser.{ParseError, parse_static_spec, parse_spec}

module _ (api : LuaApi) where
  open api use {
    Vm, Table, Function, LuaError, Source, call, get, eval, sequence_values, type_name, to_str,
    new_vm,
  }

  pub data CallError : Type 0 where
    lua : LuaError → CallError
    call_failed : LuaError → CallError
    non_table_return : String → CallError
    not_string_coercible : Value api → String → CallError
    non_utf8_string : Value api → CallError
    invalid_spec : ℕ → ParseError api → CallError

  abbrev pub Calls : Type 0 → Type 0
  Calls A = Action Vm A CallError

  -- The loop of `call_top_level_func` over the values from `index` on.
  unfoldable pub parse_specs :
      ℕ → List (Result (Value api) LuaError) → Calls (List (LuaRequestSpec api))
  parse_specs index [] = pure []
  parse_specs index (v ∷ vs) = do
    value ← lift (map_err lua v)
    spec ← or_fail (parse_spec api value) (invalid_spec (index + 1))
    specs ← parse_specs (index + 1) vs
    pure (spec ∷ specs)

  specs_of : Value api → Calls (List (LuaRequestSpec api))
  unfolding parse_specs
  specs_of v vm = elim v [
    | table t ↦ parse_specs 0 (sequence_values t vm) vm
    | w ↦ (err (non_table_return (type_name w)), vm)
  ]

  unfoldable pub call_top_level_func : Function → Calls (List (LuaRequestSpec api))
  unfolding specs_of
  call_top_level_func f = do result ← or_fail (call f) call_failed; specs_of result

  unfoldable pub coerce_to_string : Value api → Result String CallError
  coerce_to_string (str s) = ok_or (to_str s) (non_utf8_string (str s))
  coerce_to_string v = err (not_string_coercible v (type_name v))

  pub data DynamicResolve : Type 0 where
    spec : RequestSpec api → DynamicResolve
    jump : String → DynamicResolve

  resolved : ℕ → Value api → Calls DynamicResolve
  unfolding coerce_to_string
  resolved index (table t) = do
    static_spec ← or_fail (parse_static_spec api t) (invalid_spec index)
    pure (spec static_spec)
  resolved index v = do target ← lift (coerce_to_string v); pure (jump target)

  unfoldable pub call_dynamic_func : ℕ → Function → Calls DynamicResolve
  unfolding resolved
  call_dynamic_func index f = do value ← or_fail (call f) call_failed; resolved index value

  pub data LoadError : Type 0 where
    lua : LuaError → LoadError
    module_load : LuaError → LoadError
    module_return : String → LoadError
    missing_fn : String → LoadError
    table_value_not_function : String → String → LoadError

  module_table : Value api → Action Vm Table LoadError
  module_table v = elim v [ table t ↦ pure t | w ↦ fail (module_return (type_name w)) ]

  function_value : String → Value api → Action Vm Function LoadError
  function_value key v = elim v [
    | nil ↦ fail (missing_fn key)
    | function f ↦ pure f
    | w ↦ fail (table_value_not_function key (type_name w))
  ]

  -- `load`, which gives the functions `setup` and `requests`.
  unfoldable pub load : Source → Action Vm (Function × Function) LoadError
  unfolding module_table function_value
  load source = do
    v ← or_fail (eval source) module_load
    t ← module_table v
    setup_value ← or_fail (get t "setup") lua
    setup ← function_value "setup" setup_value
    requests_value ← or_fail (get t "requests") lua
    requests ← function_value "requests" requests_value
    pure (setup, requests)
