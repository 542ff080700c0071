-- ===== src/Script/Runner/Calls.antt =====
-- script/runner/mod.rs: one call of a dynamic function by `resolve`, by how it ends.
use creo_bench.Prelude.{
  ℕ, suc, ◌+◌, ◌≡◌, refl, String, Option, none, some, List, Result, ok, err, get_elem?,
}
use creo_bench.Script.Lua.{LuaApi}
use creo_bench.Script.Spec.{RequestSpec, SpecType, static, dynamic, LuaRequestSpec}
use creo_bench.Script.Func.{CallError, DynamicResolve, spec, jump, call_dynamic_func}
use creo_bench.Script.Names.{NameIndex, lookup}
use creo_bench.Script.Runner.{
  failure, panic, out_of_fuel, dynamic_call, unknown_jump, enter, follow, resolve,
}

module _ (api : LuaApi) (specs : List (LuaRequestSpec api)) (by_name : NameIndex) where
  open api use {Vm, Function}

  pub data Ending (cursor : ℕ) (f : Function) (vm : Vm) : Type 0 where
    fails :
        (e : CallError api) (vm' : Vm)
        → call_dynamic_func api cursor f vm ≡ (err e, vm')
        → Ending cursor f vm
    finds :
        (s : RequestSpec api) (vm' : Vm)
        → call_dynamic_func api cursor f vm ≡ (ok (spec s), vm')
        → Ending cursor f vm
    lost :
        (name : String) (vm' : Vm)
        → call_dynamic_func api cursor f vm ≡ (ok (jump name), vm')
        → lookup name by_name ≡ none
        → Ending cursor f vm
    outside :
        (name : String) (index : ℕ) (vm' : Vm)
        → call_dynamic_func api cursor f vm ≡ (ok (jump name), vm')
        → lookup name by_name ≡ some index
        → get_elem? specs index ≡ none
        → Ending cursor f vm
    lands :
        (name : String) (index : ℕ) (t : LuaRequestSpec api) (s : RequestSpec api) (vm' : Vm)
        → call_dynamic_func api cursor f vm ≡ (ok (jump name), vm')
        → lookup name by_name ≡ some index
        → get_elem? specs index ≡ some t
        → t.spec ≡ static s
        → Ending cursor f vm
    jumps :
        (name : String) (index : ℕ) (t : LuaRequestSpec api) (g : Function) (vm' : Vm)
        → call_dynamic_func api cursor f vm ≡ (ok (jump name), vm')
        → lookup name by_name ≡ some index
        → get_elem? specs index ≡ some t
        → t.spec ≡ dynamic g
        → Ending cursor f vm

  module _ (cursor : ℕ) (f : Function) (vm : Vm) where
    Ending-at :
        (name : String) (index : ℕ) (t : LuaRequestSpec api) (vm' : Vm)
        → call_dynamic_func api cursor f vm ≡ (ok (jump name), vm')
        → lookup name by_name ≡ some index
        → get_elem? specs index ≡ some t
        → (k : SpecType api) → t.spec ≡ k
        → Ending cursor f vm
    Ending-at name index t vm' e l g (static s) h = lands name index t s vm' e l g h
    Ending-at name index t vm' e l g (dynamic f') h = jumps name index t f' vm' e l g h

    Ending-in :
        (name : String) (index : ℕ) (vm' : Vm)
        → call_dynamic_func api cursor f vm ≡ (ok (jump name), vm')
        → lookup name by_name ≡ some index
        → (t : Option (LuaRequestSpec api)) → get_elem? specs index ≡ t
        → Ending cursor f vm
    Ending-in name index vm' e l none g = outside name index vm' e l g
    Ending-in name index vm' e l (some t) g = Ending-at name index t vm' e l g t.spec refl

    Ending-jump :
        (name : String) (vm' : Vm)
        → call_dynamic_func api cursor f vm ≡ (ok (jump name), vm')
        → (i : Option ℕ) → lookup name by_name ≡ i
        → Ending cursor f vm
    Ending-jump name vm' e none l = lost name vm' e l
    Ending-jump name vm' e (some index) l =
        Ending-in name index vm' e l (get_elem? specs index) refl

    Ending-call :
        (r : Result (DynamicResolve api) (CallError api)) (vm' : Vm)
        → call_dynamic_func api cursor f vm ≡ (r, vm')
        → Ending cursor f vm
    Ending-call (err e) vm' h = fails e vm' h
    Ending-call (ok (spec s)) vm' h = finds s vm' h
    Ending-call (ok (jump name)) vm' h = Ending-jump name vm' h (lookup name by_name) refl

    pub ending : Ending cursor f vm
    ending =
        Ending-call (call_dynamic_func api cursor f vm).0 (call_dynamic_func api cursor f vm).1 refl

    -- What `resolve` makes of each ending.
    pub resolve_empty : resolve api specs by_name 0 cursor f vm ≡ (err out_of_fuel, vm)
    unfolding resolve
    resolve_empty = refl

    pub resolve-fails :
        (fuel : ℕ) (e : CallError api) (vm' : Vm)
        → call_dynamic_func api cursor f vm ≡ (err e, vm')
        → resolve api specs by_name (suc fuel) cursor f vm
          ≡ (err (failure (dynamic_call (cursor + 1) e)), vm')
    unfolding resolve
    resolve-fails fuel e vm' h = rw h refl

    pub resolve-finds :
        (fuel : ℕ) (s : RequestSpec api) (vm' : Vm)
        → call_dynamic_func api cursor f vm ≡ (ok (spec s), vm')
        → resolve api specs by_name (suc fuel) cursor f vm ≡ (ok (cursor, s), vm')
    unfolding resolve follow
    resolve-finds fuel s vm' h = rw h refl

    pub resolve-lost :
        (fuel : ℕ) (name : String) (vm' : Vm)
        → call_dynamic_func api cursor f vm ≡ (ok (jump name), vm')
        → lookup name by_name ≡ none
        → resolve api specs by_name (suc fuel) cursor f vm
          ≡ (err (failure (unknown_jump (cursor + 1) name)), vm')
    unfolding resolve follow
    resolve-lost fuel name vm' h l = rw (h, l) refl

    pub resolve-outside :
        (fuel : ℕ) (name : String) (index : ℕ) (vm' : Vm)
        → call_dynamic_func api cursor f vm ≡ (ok (jump name), vm')
        → lookup name by_name ≡ some index
        → get_elem? specs index ≡ none
        → resolve api specs by_name (suc fuel) cursor f vm ≡ (err panic, vm')
    unfolding resolve follow
    resolve-outside fuel name index vm' h l g = rw (h, l, g) refl

    pub resolve-lands :
        (fuel : ℕ) (name : String) (index : ℕ) (t : LuaRequestSpec api) (s : RequestSpec api)
        (vm' : Vm)
        → call_dynamic_func api cursor f vm ≡ (ok (jump name), vm')
        → lookup name by_name ≡ some index
        → get_elem? specs index ≡ some t
        → t.spec ≡ static s
        → resolve api specs by_name (suc fuel) cursor f vm ≡ (ok (index, s), vm')
    unfolding resolve follow enter
    resolve-lands fuel name index t s vm' h l g k = rw (h, l, g, k) refl

    pub resolve-jumps :
        (fuel : ℕ) (name : String) (index : ℕ) (t : LuaRequestSpec api) (g : Function) (vm' : Vm)
        → call_dynamic_func api cursor f vm ≡ (ok (jump name), vm')
        → lookup name by_name ≡ some index
        → get_elem? specs index ≡ some t
        → t.spec ≡ dynamic g
        → resolve api specs by_name (suc fuel) cursor f vm
          ≡ resolve api specs by_name fuel index g vm'
    unfolding resolve follow enter
    resolve-jumps fuel name index t g vm' h l e k = rw (h, l, e, k) refl
