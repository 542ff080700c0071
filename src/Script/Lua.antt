-- ===== src/Script/Lua.antt =====
-- mlua: the Lua runtime, its values and the calls that the program makes of them. Nothing of it is
-- under the repository, so it is a parameter.
use creo_bench.Script.Response.{Response}
use creo_bench.Prelude.{String, Bool, Option, List, Result, ok, err}

-- A computation on the state of the Lua runtime, which stays changed after an error.
abbrev pub Action : Type 0 → Type 0 → Type 0 → Type 0
Action S A E = S → Result A E × S

abbrev pub continue : {S A B E : Type 0} → Result A E × S → (A → Action S B E) → Result B E × S
continue (ok a, s) f = f a s
continue (err e, s) f = (err e, s)

infixl 5 ◌>>=◌
abbrev pub ◌>>=◌ : {S A B E : Type 0} → Action S A E → (A → Action S B E) → Action S B E
◌>>=◌ m f s = continue (m s) f

abbrev pub pure : {S A E : Type 0} → A → Action S A E
pure a s = (ok a, s)

abbrev pub fail : {S A E : Type 0} → E → Action S A E
fail e s = (err e, s)

-- A result that needs no runtime.
abbrev pub lift : {S A E : Type 0} → Result A E → Action S A E
lift r s = (r, s)

abbrev pub converted : {S A E F : Type 0} → Result A E × S → (E → F) → Result A F × S
converted (ok a, s) f = (ok a, s)
converted (err e, s) f = (err (f e), s)

-- `map_err`.
abbrev pub or_fail : {S A E F : Type 0} → Action S A E → (E → F) → Action S A F
or_fail m f s = converted (m s) f

-- `mlua::Value`, and its other variants in one.
pub data LuaValue (Str Integer Number Table Function Other : Type 0) : Type 0 where
  nil : LuaValue Str Integer Number Table Function Other
  boolean : Bool → LuaValue Str Integer Number Table Function Other
  integer : Integer → LuaValue Str Integer Number Table Function Other
  number : Number → LuaValue Str Integer Number Table Function Other
  str : Str → LuaValue Str Integer Number Table Function Other
  table : Table → LuaValue Str Integer Number Table Function Other
  function : Function → LuaValue Str Integer Number Table Function Other
  other : Other → LuaValue Str Integer Number Table Function Other

-- The runtime with the store that its scripts share is a `Vm`. What a function or a metamethod of
-- a script does is in `call` and `get`. `sequence_values` and `pairs` are the items that the
-- iterators of the same names yield.
pub record LuaApi : Type 1 where
  pub Vm : Type 0
  pub Str : Type 0
  pub Integer : Type 0
  pub Number : Type 0
  pub Table : Type 0
  pub Function : Type 0
  pub Other : Type 0
  pub LuaError : Type 0
  pub Json : Type 0
  pub Source : Type 0
  pub new_vm : Vm
  pub eval : Source → Action Vm (LuaValue Str Integer Number Table Function Other) LuaError
  pub get : Table → String → Action Vm (LuaValue Str Integer Number Table Function Other) LuaError
  pub sequence_values :
      Table → Vm → List (Result (LuaValue Str Integer Number Table Function Other) LuaError)
  pub pairs :
      Table
      → Vm
      → List (Result (String × LuaValue Str Integer Number Table Function Other) LuaError)
  pub call : Function → Action Vm (LuaValue Str Integer Number Table Function Other) LuaError
  pub call_extract : Function → Response → Action Vm (Unit {0}) LuaError
  pub from_value : LuaValue Str Integer Number Table Function Other → Vm → Result Json LuaError
  pub type_name : LuaValue Str Integer Number Table Function Other → String
  pub to_str : Str → Option String
  pub integer_to_string : Integer → String
  pub number_to_string : Number → String
  -- `str::to_lowercase`.
  pub to_lowercase : String → String

abbrev pub Value : LuaApi → Type 0
Value api = LuaValue api.Str api.Integer api.Number api.Table api.Function api.Other
