-- ===== src/Script/Runner/Jumps.antt =====
-- script/runner/mod.rs: chains of jumps between dynamic specs.
use creo_bench.Prelude.{
  ℕ, zero, suc, ◌<◌, ◌≡◌, refl, ap, sym, ◌∙◌, ◌≢◌, String, Option, none, some, List, Result, ok,
  err, get_elem?, arith,
}
use creo_bench.Script.Lua.{LuaApi}
use creo_bench.Script.Spec.{RequestSpec, SpecType, static, dynamic, LuaRequestSpec}
use creo_bench.Script.Func.{jump, call_dynamic_func}
use creo_bench.Script.Names.{NameIndex, lookup}
use creo_bench.Script.Runner.{
  Stop, panic, failure, out_of_fuel, ScriptRunner, ResolveError, resolve, next_of, next_at,
  next_spec, next_user_spec, user_advanced, after,
}
use creo_bench.Script.Runner.Calls.{
  ending, fails, finds, lost, outside, lands, jumps, resolve-fails, resolve-finds, resolve-lost,
  resolve-outside, resolve-lands, resolve-jumps,
}

module _ (api : LuaApi) (specs : List (LuaRequestSpec api)) (by_name : NameIndex) where
  open api use {Vm, Function}

  -- The dynamic spec at the first index may jump to that at the second.
  pub data Jump (i j : ℕ) : Type 0 where
    jump_to :
        (t u : LuaRequestSpec api) (f g : Function) (name : String) (vm vm' : Vm)
        → get_elem? specs i ≡ some t
        → t.spec ≡ dynamic f
        → call_dynamic_func api i f vm ≡ (ok (jump name), vm')
        → lookup name by_name ≡ some j
        → get_elem? specs j ≡ some u
        → u.spec ≡ dynamic g
        → Jump i j

  -- Each jump from one dynamic spec to another lowers the rank.
  abbrev pub Descends : (ℕ → ℕ) → Type 0
  Descends rank = (i j : ℕ) → Jump i j → rank j < rank i

  module _ (rank : ℕ → ℕ) (descends : Descends rank) where
    -- Two results that are one, which is not for want of fuel.
    abbrev Settled :
        Result (ℕ × RequestSpec api) (Stop (ResolveError api)) × Vm
        → Result (ℕ × RequestSpec api) (Stop (ResolveError api)) × Vm
        → Type 0
    Settled r r' = (r ≡ r') × (r.0 ≢ err out_of_fuel)

    settle :
        (r r' v : Result (ℕ × RequestSpec api) (Stop (ResolveError api)) × Vm)
        → r ≡ v
        → r' ≡ v
        → v.0 ≢ err out_of_fuel
        → Settled r r'
    settle r r' v e e' h = (e ∙ sym e', λ w. h (ap (λ x. x.0) (sym e) ∙ w))

    resolve-Settled :
        (fuel fuel' cursor : ℕ) (t : LuaRequestSpec api) (f : Function) (vm : Vm)
        → get_elem? specs cursor ≡ some t
        → t.spec ≡ dynamic f
        → rank cursor < fuel
        → rank cursor < fuel'
        → Settled
            (resolve api specs by_name fuel cursor f vm)
            (resolve api specs by_name fuel' cursor f vm)
    resolve-Settled zero fuel' cursor t f vm at k h h' = absurd (omega (arith, h))
    resolve-Settled (suc fuel) zero cursor t f vm at k h h' = absurd (omega (arith, h'))
    resolve-Settled (suc fuel) (suc fuel') cursor t f vm at k h h' =
        elim (ending api specs by_name cursor f vm) [
          | fails e vm' c ↦
              settle _ _ _ (resolve-fails api specs by_name cursor f vm fuel e vm' c)
                (resolve-fails api specs by_name cursor f vm fuel' e vm' c) cc
          | finds s vm' c ↦
              settle _ _ _ (resolve-finds api specs by_name cursor f vm fuel s vm' c)
                (resolve-finds api specs by_name cursor f vm fuel' s vm' c) cc
          | lost name vm' c l ↦
              settle _ _ _ (resolve-lost api specs by_name cursor f vm fuel name vm' c l)
                (resolve-lost api specs by_name cursor f vm fuel' name vm' c l) cc
          | outside name i vm' c l g ↦
              settle _ _ _ (resolve-outside api specs by_name cursor f vm fuel name i vm' c l g)
                (resolve-outside api specs by_name cursor f vm fuel' name i vm' c l g) cc
          | lands name i u s vm' c l g d ↦
              settle _ _ _ (resolve-lands api specs by_name cursor f vm fuel name i u s vm' c l g d)
                (resolve-lands api specs by_name cursor f vm fuel' name i u s vm' c l g d) cc
          | jumps name i u g vm' c l e d ↦
              (let lower = descends cursor i (jump_to t u f g name vm vm' at k c l e d) in
                let (same, enough) =
                  resolve-Settled fuel fuel' i u g vm' e d (omega (arith, lower, h))
                    (omega (arith, lower, h')) in
                settle _ _ _
                  (resolve-jumps api specs by_name cursor f vm fuel name i u g vm' c l e d)
                  (resolve-jumps api specs by_name cursor f vm fuel' name i u g vm' c l e d
                    ∙ sym same)
                  enough)
        ]

    after_same :
        (cursor : ℕ) (r r' : Result (ℕ × RequestSpec api) (Stop (ResolveError api)) × Vm)
        → Settled r r'
        → let next = after api specs by_name cursor r in
          (next ≡ after api specs by_name cursor r') × (next.0 ≢ err out_of_fuel)
    unfolding after
    after_same cursor (ok a, vm) r' h = (ap (after api specs by_name cursor) h.0, cc)
    after_same cursor (err e, vm) r' h = (ap (after api specs by_name cursor) h.0, h.1)

    next_of_same :
        (fuel fuel' cursor : ℕ) (t : LuaRequestSpec api) (vm : Vm) (k : SpecType api)
        → get_elem? specs cursor ≡ some t
        → t.spec ≡ k
        → rank cursor < fuel
        → rank cursor < fuel'
        → let next = next_of api specs by_name fuel cursor vm k in
          (next ≡ next_of api specs by_name fuel' cursor vm k) × (next.0 ≢ err out_of_fuel)
    unfolding next_of
    next_of_same fuel fuel' cursor t vm (static s) at k h h' = (refl, cc)
    next_of_same fuel fuel' cursor t vm (dynamic f) at k h h' =
        after_same cursor (resolve api specs by_name fuel cursor f vm)
          (resolve api specs by_name fuel' cursor f vm)
          (resolve-Settled fuel fuel' cursor t f vm at k h h')

    next_at_same :
        (fuel fuel' cursor : ℕ) (vm : Vm) (t : Option (LuaRequestSpec api))
        → get_elem? specs cursor ≡ t
        → rank cursor < fuel
        → rank cursor < fuel'
        → let next = next_at api specs by_name fuel cursor vm t in
          (next ≡ next_at api specs by_name fuel' cursor vm t) × (next.0 ≢ err out_of_fuel)
    unfolding next_at
    next_at_same fuel fuel' cursor vm none at h h' = (refl, cc)
    next_at_same fuel fuel' cursor vm (some t) at h h' =
        next_of_same fuel fuel' cursor t vm t.spec at refl h h'

    pub next_spec_same :
        (fuel fuel' cursor : ℕ) (vm : Vm)
        → rank cursor < fuel
        → rank cursor < fuel'
        → let next = next_spec api specs by_name fuel cursor vm in
          (next ≡ next_spec api specs by_name fuel' cursor vm) × (next.0 ≢ err out_of_fuel)
    unfolding next_spec
    next_spec_same fuel fuel' cursor vm h h' =
        next_at_same fuel fuel' cursor vm (get_elem? specs cursor) refl h h'

module _ (api : LuaApi) where
  user_advanced-not-out_of_fuel :
      (runner : ScriptRunner api)
      (next : Result (ℕ × RequestSpec api) (Stop (ResolveError api)) × ℕ × api.Vm)
      → next.0 ≢ err out_of_fuel
      → (user_advanced api runner next).0 ≢ err out_of_fuel
  unfolding user_advanced
  user_advanced-not-out_of_fuel runner (ok found, cursor, vm) h = cc
  user_advanced-not-out_of_fuel runner (err (failure e), cursor, vm) h = cc
  user_advanced-not-out_of_fuel runner (err panic, cursor, vm) h = cc
  user_advanced-not-out_of_fuel runner (err out_of_fuel, cursor, vm) h = absurd (h refl)

  -- Let each jump from a dynamic spec to a dynamic one lower a rank. With fuel above the rank of
  -- the spec under the cursor, `next_user_spec` does not run out of fuel, and gives the same with
  -- any such fuel.
  pub next_user_spec-enough :
      (rank : ℕ → ℕ) (fuel fuel' : ℕ) (runner : ScriptRunner api)
      → Descends api runner.user_specs runner.user_specs_by_name rank
      → rank runner.user_cursor < fuel
      → rank runner.user_cursor < fuel'
      → (next_user_spec api fuel runner ≡ next_user_spec api fuel' runner)
        × ((next_user_spec api fuel runner).0 ≢ err out_of_fuel)
  unfolding next_user_spec
  next_user_spec-enough rank fuel fuel' runner descends h h' =
      let (same, enough) =
        next_spec_same api runner.user_specs runner.user_specs_by_name rank descends fuel fuel'
          runner.user_cursor runner.lua h h' in
      (
        ap (user_advanced api runner) same,
        user_advanced-not-out_of_fuel runner
            (next_spec api runner.user_specs runner.user_specs_by_name fuel runner.user_cursor
              runner.lua)
            enough,
      )
