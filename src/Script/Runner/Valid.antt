-- ===== src/Script/Runner/Valid.antt =====
-- script/runner/mod.rs: the cursors and the index of names of a runner.
use native.Mathlib.Nat.{mod-lt}
use creo_bench.Script.Runner.Calls.{
  ending, fails, finds, lost, outside, lands, jumps, resolve-fails, resolve-finds, resolve-lost,
  resolve-lands, resolve-jumps, resolve_empty,
}
use creo_bench.Prelude.{
  ℕ, zero, suc, ◌+◌, ◌%◌, ◌<◌, ◌≡◌, refl, ap, sym, subst, ◌≢◌, some, List, [], ◌∷◌, Result, ok, err,
  length, get_elem?, arith,
}
use creo_bench.Script.Lua.{LuaApi}
use creo_bench.Script.Spec.{RequestSpec, SpecType, static, dynamic, LuaRequestSpec}
use creo_bench.Script.Names.{NameIndex}
use creo_bench.Script.Runner.{
  Stop, SamePlace, revert, map_failure, failure, panic, out_of_fuel, ScriptRunner, Error, user_spec,
  resolve, next_spec, next_user_spec, next_of, next_at, after, user_advanced, ResolveError,
}
use creo_bench.Script.Runner.Indexed.{PointsInto}

module _ (api : LuaApi) where
  pub record IsValid (runner : ScriptRunner api) : Type 0 where
    pub cursor_in_cycle : runner.user_cursor < length runner.user_specs
    pub setup_names : PointsInto api runner.setup_specs runner.setup_specs_by_name
    pub user_names : PointsInto api runner.user_specs runner.user_specs_by_name

  -- A result is an index of the list, or no panic.
  abbrev pub Bounded : {E : Type 0} → ℕ → Result (ℕ × RequestSpec api) (Stop E) → Type 0
  Bounded n (ok (i, s)) = i < n
  Bounded n (err e) = e ≢ panic

  -- The spec that is found, and the cursor behind it, or the cursor as it was.
  abbrev pub Advances :
      {E : Type 0} → ℕ → ℕ → Result (ℕ × RequestSpec api) (Stop E) × ℕ × api.Vm → Type 0
  Advances n cursor (ok (index, s), cursor', vm) = (index < n) × (cursor' ≡ index + 1)
  Advances n cursor (err e, cursor', vm) = (e ≢ panic) × (cursor' ≡ cursor)

  get_elem-lt : {A : Type 0} (xs : List A) (i : ℕ) (x : A) → get_elem? xs i ≡ some x → i < length xs
  get_elem-lt [] i x h = cc
  get_elem-lt (y ∷ xs) zero x h = omega arith
  get_elem-lt (y ∷ xs) (suc i) x h = omega (arith, get_elem-lt xs i x h)

  pub lt-get_elem :
      {A : Type 0} (xs : List A) (i : ℕ) → i < length xs → (x : A) × (get_elem? xs i ≡ some x)
  lt-get_elem [] i h = absurd (omega (arith, h))
  lt-get_elem (x ∷ xs) zero h = (x, refl)
  lt-get_elem (x ∷ xs) (suc i) h = lt-get_elem xs i (omega (arith, h))

  module _ (specs : List (LuaRequestSpec api)) (by_name : NameIndex)
      (points : PointsInto api specs by_name) where
    resolve-Bounded :
        (fuel cursor : ℕ) (f : api.Function) (vm : api.Vm)
        → cursor < length specs
        → Bounded (length specs) (resolve api specs by_name fuel cursor f vm).0
    resolve-Bounded zero cursor f vm h = rw (resolve_empty api specs by_name cursor f vm) cc
    resolve-Bounded (suc fuel) cursor f vm h = elim (ending api specs by_name cursor f vm) [
      | fails e vm' c ↦ rw (resolve-fails api specs by_name cursor f vm fuel e vm' c) cc
      | finds s vm' c ↦ rw (resolve-finds api specs by_name cursor f vm fuel s vm' c) h
      | lost name vm' c l ↦ rw (resolve-lost api specs by_name cursor f vm fuel name vm' c l) cc
      | outside name index vm' c l g ↦ (let (t, found, named) = points name index l in cc)
      | lands name index t s vm' c l g k ↦
          rw (resolve-lands api specs by_name cursor f vm fuel name index t s vm' c l g k)
            (get_elem-lt specs index t g)
      | jumps name index t g vm' c l e k ↦
          rw (resolve-jumps api specs by_name cursor f vm fuel name index t g vm' c l e k)
            (resolve-Bounded fuel index g vm' (get_elem-lt specs index t e))
    ]

    after-Advances :
        (cursor : ℕ) (r : Result (ℕ × RequestSpec api) (Stop (ResolveError api)) × api.Vm)
        → Bounded (length specs) r.0
        → Advances (length specs) cursor (after api specs by_name cursor r)
    unfolding after
    after-Advances cursor (ok (index, s), vm) h = (h, refl)
    after-Advances cursor (err e, vm) h = (h, refl)

    next_of-Advances :
        (fuel cursor : ℕ) (vm : api.Vm) (k : SpecType api)
        → cursor < length specs
        → Advances (length specs) cursor (next_of api specs by_name fuel cursor vm k)
    unfolding next_of
    next_of-Advances fuel cursor vm (static s) h = (h, refl)
    next_of-Advances fuel cursor vm (dynamic f) h =
        after-Advances cursor (resolve api specs by_name fuel cursor f vm)
          (resolve-Bounded fuel cursor f vm h)

    pub next_spec-Advances :
        (fuel cursor : ℕ) (vm : api.Vm)
        → cursor < length specs
        → Advances (length specs) cursor (next_spec api specs by_name fuel cursor vm)
    unfolding next_spec next_at
    next_spec-Advances fuel cursor vm h =
        let (t, found) = lt-get_elem specs cursor h in
        rw found (next_of-Advances fuel cursor vm t.spec h)

  -- What a call of `next_user_spec` gives: the old cursor as the handle, the index of a spec and
  -- the cursor on its successor in the cycle, or an error other than a panic and the old cursor.
  abbrev pub UserNext :
      ScriptRunner api
      → Result (ℕ × ℕ × RequestSpec api) (Stop (Error api)) × ScriptRunner api
      → Type 0
  UserNext runner (ok (handle, index, s), runner') =
      (handle ≡ runner.user_cursor)
      × (index < length runner.user_specs)
      × (runner'.user_cursor ≡ (index + 1) % length runner.user_specs)
  UserNext runner (err e, runner') = (e ≢ panic) × (runner'.user_cursor ≡ runner.user_cursor)

  map_failure-ne-panic :
      {E F : Type 0} (f : E → F) (e : Stop E) → e ≢ panic → map_failure f e ≢ panic
  map_failure-ne-panic f (failure e) h same = cc
  map_failure-ne-panic f panic h same = h refl
  map_failure-ne-panic f out_of_fuel h same = cc

  user_advanced-UserNext :
      (runner : ScriptRunner api)
      (next : Result (ℕ × RequestSpec api) (Stop (ResolveError api)) × ℕ × api.Vm)
      → IsValid runner
      → Advances (length runner.user_specs) runner.user_cursor next
      → let result = user_advanced api runner next in IsValid result.1 × UserNext runner result
  unfolding user_advanced
  user_advanced-UserNext runner (ok (index, s), cursor, vm) v a = (
    record {
      cursor_in_cycle = mod-lt cursor (omega (arith, v.cursor_in_cycle));
      setup_names = v.setup_names;
      user_names = v.user_names;
    },
    (refl, a.0, ap (λ c. c % length runner.user_specs) a.1),
  )
  user_advanced-UserNext runner (err e, cursor, vm) v a = (
    record {
      cursor_in_cycle = omega (arith, a.1, v.cursor_in_cycle);
      setup_names = v.setup_names;
      user_names = v.user_names;
    },
    (map_failure-ne-panic user_spec e a.0, a.1),
  )

  user_advanced-user_specs :
      (r : ScriptRunner api)
      (next : Result (ℕ × RequestSpec api) (Stop (ResolveError api)) × ℕ × api.Vm)
      → (user_advanced api r next).1.user_specs ≡ r.user_specs
  unfolding user_advanced
  user_advanced-user_specs r (ok found, cursor, vm) = refl
  user_advanced-user_specs r (err e, cursor, vm) = refl

  -- For a valid runner: after `next_user_spec` it is valid again. If the call succeeds, the handle
  -- is the old cursor, the index is in the list of the user specs, and the new cursor is the index
  -- of the next in the cycle. If it fails, it does not panic, whatever the script's functions jump
  -- to, and the cursor is unchanged.
  pub next_user_spec-IsValid :
      (fuel : ℕ) (runner : ScriptRunner api)
      → IsValid runner
      → let result = next_user_spec api fuel runner in IsValid result.1 × UserNext runner result
  unfolding next_user_spec
  next_user_spec-IsValid fuel runner v =
      user_advanced-UserNext runner
        (next_spec api runner.user_specs runner.user_specs_by_name fuel runner.user_cursor
          runner.lua)
        v
        (next_spec-Advances runner.user_specs runner.user_specs_by_name v.user_names fuel
          runner.user_cursor runner.lua v.cursor_in_cycle)

  pub SamePlace-IsValid : (r r' : ScriptRunner api) → IsValid r → SamePlace api r r' → IsValid r'
  SamePlace-IsValid r r' v same = subst IsValid (sym same) (record {
    cursor_in_cycle = v.cursor_in_cycle;
    setup_names = v.setup_names;
    user_names = v.user_names;
  })

  pub revert-IsValid :
      (r : ScriptRunner api) (cursor : ℕ)
      → IsValid r
      → cursor < length r.user_specs
      → IsValid (revert api cursor r)
  unfolding revert
  revert-IsValid r cursor v h = record {
    cursor_in_cycle = h;
    setup_names = v.setup_names;
    user_names = v.user_names;
  }

  -- A call keeps the lists of specs.
  pub next_user_spec-user_specs :
      (fuel : ℕ) (r : ScriptRunner api) → (next_user_spec api fuel r).1.user_specs ≡ r.user_specs
  unfolding next_user_spec
  next_user_spec-user_specs fuel r =
      user_advanced-user_specs r
        (next_spec api r.user_specs r.user_specs_by_name fuel r.user_cursor r.lua)
