-- ===== src/Script/Runner/Indexed.antt =====
-- script/runner/mod.rs: the index of the names of a list of specs.
use creo_bench.Prelude.{
  ℕ, suc, ◌+◌, ◌≡◌, refl, ap, ◌∙◌, inl, inr, String, Option, none, some, List, [], ◌∷◌, get_elem?,
  arith,
}
use creo_bench.Script.Lua.{LuaApi}
use creo_bench.Script.Spec.{LuaRequestSpec}
use creo_bench.Script.Names.{
  NameIndex, lookup, lookup_cases, lookup-empty, with_name, names_from, specs_by_name,
}

module _ (api : LuaApi) where
  -- A name leads to a spec of that name.
  abbrev pub PointsInto : List (LuaRequestSpec api) → NameIndex → Type 0
  PointsInto specs m =
      (k : String) (i : ℕ)
      → lookup k m ≡ some i
      → (s : LuaRequestSpec api) × (get_elem? specs i ≡ some s) × (s.name ≡ some k)

  abbrev pub NamedAt : List (LuaRequestSpec api) → ℕ → String → ℕ → Type 0
  NamedAt specs b k i =
      (j : ℕ) × (s : LuaRequestSpec api) × (i ≡ b + j)
      × (get_elem? specs j ≡ some s)
      × (s.name ≡ some k)

  NamedAt-suc :
      (s : LuaRequestSpec api) (specs : List (LuaRequestSpec api)) (b : ℕ) (k : String) (i : ℕ)
      → NamedAt specs (b + 1) k i
      → NamedAt (s ∷ specs) b k i
  NamedAt-suc s specs b k i (j, t, e, found, named) = (suc j, t, omega (arith, e), found, named)

  lookup-with_name :
      (s : LuaRequestSpec api) (specs : List (LuaRequestSpec api)) (b : ℕ) (k : String) (i : ℕ)
      (m : NameIndex)
      → (lookup k m ≡ some i → NamedAt specs (b + 1) k i)
      → (name : Option String) → s.name ≡ name
      → lookup k (with_name api name b m) ≡ some i
      → NamedAt (s ∷ specs) b k i
  lookup-with_name s specs b k i m later none e h = NamedAt-suc s specs b k i (later h)
  lookup-with_name s specs b k i m later (some name) e h = elim (lookup_cases k name b i m h) [
    | inl after_it ↦ NamedAt-suc s specs b k i (later after_it)
    | inr (same, here) ↦ (0, s, omega (arith, here), refl, e ∙ ap some same)
  ]

  lookup-names_from :
      (specs : List (LuaRequestSpec api)) (b : ℕ) (k : String) (i : ℕ)
      → lookup k (names_from api b specs) ≡ some i
      → NamedAt specs b k i
  unfolding names_from
  lookup-names_from [] b k i h = absurd (lookup-empty k i h)
  lookup-names_from (s ∷ specs) b k i h =
      lookup-with_name s specs b k i (names_from api (b + 1) specs)
        (lookup-names_from specs (b + 1) k i) s.name refl h

  pub specs_by_name-PointsInto :
      (specs : List (LuaRequestSpec api)) → PointsInto specs (specs_by_name api specs)
  unfolding specs_by_name
  specs_by_name-PointsInto specs k i h =
      let (j, s, e, found, named) = lookup-names_from specs 0 k i h in
      (s, ap (get_elem? specs) (omega (arith, e)) ∙ found, named)
