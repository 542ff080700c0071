-- ===== src/Script/Response.antt =====
-- script/response.rs: the response that a script's `extract` is given.
use Prim.Native.String.{◌++◌}
use creo_bench.Prelude.{ℕ, String, Option, none, some, List, [], ◌∷◌, if◌then◌else◌}
use creo_bench.Script.Text.{eq_ignore_ascii_case}

-- The body is its bytes.
pub record Response : Type 0 where
  pub status : ℕ
  pub headers : List (String × String)
  pub body : Option (List ℕ)

abbrev pub values_of : String → List (String × String) → List String
values_of name [] = []
values_of name ((k, v) ∷ headers) =
    let rest = values_of name headers in if eq_ignore_ascii_case k name then v ∷ rest else rest

abbrev pub joined : String → List String → String
joined acc [] = acc
joined acc (v ∷ vs) = joined ((acc ++ ",") ++ v) vs

abbrev pub first_joined : List String → Option String
first_joined [] = none
first_joined (v ∷ vs) = some (joined v vs)

-- The method `header`.
unfoldable pub header : Response → String → Option String
header response name = first_joined (values_of name response.headers)
