-- ===== src/Script/Runner/Static.antt =====
-- script/runner/mod.rs: the user specs of a script without functions.
use mathlib.Core.Option.{some-injective}
use creo_bench.Prelude.{
  ℕ, zero, suc, ◌+◌, ◌%◌, ◌≡◌, refl, subst, some, List, [], ◌∷◌, ok, All, length, get_elem?,
}
use creo_bench.Script.Lua.{LuaApi}
use creo_bench.Script.Spec.{RequestSpec, static, LuaRequestSpec}
use creo_bench.Script.Runner.{
  ScriptRunner, next_of, next_at, next_spec, next_user_spec, user_advanced,
}

module _ (api : LuaApi) where
  abbrev pub IsStatic : LuaRequestSpec api → Type 0
  IsStatic t = (s : RequestSpec api) × (t.spec ≡ static s)

  pub All-get_elem {ℓ κ} :
      {A : Type ℓ} (P : A → Type κ) (xs : List A) (i : ℕ) (x : A)
      → All P xs
      → get_elem? xs i ≡ some x
      → P x
  All-get_elem P [] i x h e = cc
  All-get_elem P (y ∷ xs) zero x h e = subst P (some-injective _ _ e) h.0
  All-get_elem P (y ∷ xs) (suc i) x h e = All-get_elem P xs i x h.1 e

  pub next_user_spec-static :
      (fuel : ℕ) (runner : ScriptRunner api) (t : LuaRequestSpec api) (s : RequestSpec api)
      → get_elem? runner.user_specs runner.user_cursor ≡ some t
      → t.spec ≡ static s
      → next_user_spec api fuel runner ≡ (
        ok (runner.user_cursor, runner.user_cursor, s),
        record runner { user_cursor = (runner.user_cursor + 1) % length runner.user_specs },
      )
  unfolding next_user_spec user_advanced next_spec next_at next_of
  next_user_spec-static fuel runner t s e k = rw (e, k) refl
