-- ===== src/Script/Runner/Circles.antt =====
-- script/runner/mod.rs: dynamic specs that jump among each other without an end.
use creo_bench.Prelude.{ℕ, zero, suc, ◌≡◌, refl, String, some, List, Result, ok, err, get_elem?}
use creo_bench.Script.Lua.{LuaApi}
use creo_bench.Script.Spec.{RequestSpec, dynamic, LuaRequestSpec}
use creo_bench.Script.Func.{jump, call_dynamic_func}
use creo_bench.Script.Names.{NameIndex, lookup}
use creo_bench.Script.Runner.{
  Stop, panic, failure, ResolveError, out_of_fuel, ScriptRunner, resolve, next_of, next_at,
  next_spec, next_user_spec, user_advanced, after,
}
use creo_bench.Script.Runner.Calls.{resolve_empty, resolve-jumps}

module _ (api : LuaApi) (specs : List (LuaRequestSpec api)) (by_name : NameIndex) where
  -- Each member is a dynamic spec, and whatever the state of the runtime, its function jumps to a
  -- member.
  abbrev pub IsCircle : (ℕ → Type 0) → Type 0
  IsCircle Member =
      (i : ℕ)
      → Member i
      → (t : LuaRequestSpec api) × (f : api.Function) × (get_elem? specs i ≡ some t)
        × (t.spec ≡ dynamic f)
        × ((vm : api.Vm)
            → (j : ℕ) × (name : String) × (vm' : api.Vm) × (call_dynamic_func api i f vm
                ≡ (ok (jump name), vm'))
              × (lookup name by_name ≡ some j)
              × Member j)

  module _ (Member : ℕ → Type 0) (circle : IsCircle Member) where
    resolve-circle :
        (fuel i : ℕ) (vm : api.Vm) (m : Member i)
        → let (t, f, at, k, call) = circle i m in
          (resolve api specs by_name fuel i f vm).0 ≡ err out_of_fuel
    resolve-circle zero i vm m =
        let (t, f, at, k, call) = circle i m in rw (resolve_empty api specs by_name i f vm) refl
    resolve-circle (suc fuel) i vm m =
        let (t, f, at, k, call) = circle i m in
        let (j, name, vm', c, l, mj) = call vm in
        let (u, g, at', k', call') = circle j mj in
        rw (resolve-jumps api specs by_name i f vm fuel name j u g vm' c l at' k')
          (resolve-circle fuel j vm' mj)

    after-out_of_fuel :
        (cursor : ℕ) (r : Result (ℕ × RequestSpec api) (Stop (ResolveError api)) × api.Vm)
        → r.0 ≡ err out_of_fuel
        → (after api specs by_name cursor r).0 ≡ err out_of_fuel
    unfolding after
    after-out_of_fuel cursor (ok a, vm) h = cc
    after-out_of_fuel cursor (err e, vm) h = h

    next_of-circle :
        (fuel i : ℕ) (vm : api.Vm) (f : api.Function)
        → (resolve api specs by_name fuel i f vm).0 ≡ err out_of_fuel
        → (next_of api specs by_name fuel i vm (dynamic f)).0 ≡ err out_of_fuel
    unfolding next_of
    next_of-circle fuel i vm f h = after-out_of_fuel i (resolve api specs by_name fuel i f vm) h

    next_spec-circle :
        (fuel i : ℕ) (vm : api.Vm)
        → Member i
        → (next_spec api specs by_name fuel i vm).0 ≡ err out_of_fuel
    unfolding next_spec next_at
    next_spec-circle fuel i vm m =
        let (t, f, at, k, call) = circle i m in
        rw (at, k) (next_of-circle fuel i vm f (resolve-circle fuel i vm m))

module _ (api : LuaApi) where
  user_advanced-out_of_fuel :
      (runner : ScriptRunner api)
      (next : Result (ℕ × RequestSpec api) (Stop (ResolveError api)) × ℕ × api.Vm)
      → next.0 ≡ err out_of_fuel
      → (user_advanced api runner next).0 ≡ err out_of_fuel
  unfolding user_advanced
  user_advanced-out_of_fuel runner (ok found, cursor, vm) h = cc
  user_advanced-out_of_fuel runner (err out_of_fuel, cursor, vm) h = refl
  user_advanced-out_of_fuel runner (err panic, cursor, vm) h = cc
  user_advanced-out_of_fuel runner (err (failure e), cursor, vm) h = cc

  -- Let the functions of some dynamic specs, whatever the state of the runtime, always jump to one
  -- of these specs. If the cursor is at one of them, `next_user_spec` runs out of any fuel: the
  -- recursion of `resolve` has no end.
  pub next_user_spec-circle :
      (Member : ℕ → Type 0) (fuel : ℕ) (runner : ScriptRunner api)
      → IsCircle api runner.user_specs runner.user_specs_by_name Member
      → Member runner.user_cursor
      → (next_user_spec api fuel runner).0 ≡ err out_of_fuel
  unfolding next_user_spec
  next_user_spec-circle Member fuel runner circle m = user_advanced-out_of_fuel runner _ (
      next_spec-circle api runner.user_specs runner.user_specs_by_name Member circle fuel
        runner.user_cursor runner.lua m)
