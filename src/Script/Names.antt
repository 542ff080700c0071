-- ===== src/Script/Names.antt =====
-- The index of named specs of script/runner/mod.rs: a `HashMap` that is collected from an iterator,
-- so that the last entry of a name wins.
use text.Mathlib.Text.{◌==◌}
use text.Mathlib.TextEquality.{eq_iff}
use creo_bench.Prelude.{
  ℕ, ◌+◌, ◌≡◌, ◌≢◌, ◌⊎◌, arith, String, Option, none, some, List, [], ◌∷◌, if◌then◌else◌,
}
use creo_bench.Script.Lua.{LuaApi}
use creo_bench.Script.Spec.{LuaRequestSpec}

-- The entries in the order in which they are collected.
abbrev pub NameIndex : Type 0
NameIndex = List (String × ℕ)

unfoldable pub lookup : String → NameIndex → Option ℕ
lookup k [] = none
lookup k ((j, i) ∷ m) =
    let later = lookup k m in
    elim later [ some n ↦ some n | none ↦ if j == k then some i else none ]

pub lookup_cases :
    (k j : String) (n i : ℕ) (m : NameIndex)
    → lookup k ((j, n) ∷ m) ≡ some i
    → (lookup k m ≡ some i) ⊎ ((j ≡ k) × (n ≡ i))
unfolding lookup
lookup_cases k j n i m h = ground (arith, eq_iff j k)

pub lookup-empty : (k : String) (i : ℕ) → lookup k [] ≢ some i
unfolding lookup
lookup-empty k i h = cc

module _ (api : LuaApi) where
  abbrev pub with_name : Option String → ℕ → NameIndex → NameIndex
  with_name none i m = m
  with_name (some name) i m = (name, i) ∷ m

  unfoldable pub names_from : ℕ → List (LuaRequestSpec api) → NameIndex
  names_from i [] = []
  names_from i (s ∷ specs) = with_name s.name i (names_from (i + 1) specs)

  unfoldable pub specs_by_name : List (LuaRequestSpec api) → NameIndex
  specs_by_name specs = names_from 0 specs
