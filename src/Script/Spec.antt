-- ===== src/Script/Spec.antt =====
-- script/spec.rs: the request specs that a script returns.
use creo_bench.Prelude.{String, Option, List}
use creo_bench.Script.Lua.{LuaApi}
use creo_bench.Script.Method.{HttpMethod}

module _ (api : LuaApi) where
  open api use {Json, Function}

  -- `HTTPStaticRequestSpec`.
  pub record HttpSpec : Type 0 where
    pub method : HttpMethod
    pub service : String
    pub path : String
    pub headers : List (String × String)
    pub query : List (String × String)
    pub body : Option Json
    pub extract : Option Function

  pub data RequestSpec : Type 0 where
    http : HttpSpec → RequestSpec

  pub data SpecType : Type 0 where
    static : RequestSpec → SpecType
    dynamic : Function → SpecType

  pub record LuaRequestSpec : Type 0 where
    pub name : Option String
    pub spec : SpecType
