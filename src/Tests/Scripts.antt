-- ===== src/Tests/Scripts.antt =====
-- A shop's script, and a runtime that runs it: its tables and functions are numbered, and the state
-- counts the calls.
use mathlib.Core.Option.{some-injective}
use creo_bench.Prelude.{
  ℕ, zero, suc, ◌+◌, ◌<◌, ◌≡◌, ◌∙◌, ◌≢◌, sym, ap, subst, get_elem?, refl, String, Option, none,
  some, List, [], ◌∷◌, Result, ok, err, if◌then◌else◌, arith,
}
use text.Mathlib.Text.{◌==◌}
use creo_bench.Script.Lua.{LuaApi, LuaValue, nil, str, table, function}
use creo_bench.Script.Method.{get, from_str}
use creo_bench.Script.Text.{ascii_lower}
use creo_bench.Script.Spec.{SpecType, http, static, dynamic, LuaRequestSpec, RequestSpec}
use creo_bench.Script.Func.{jump, load, call_top_level_func, call_dynamic_func}
use creo_bench.Script.Parser.{parse_spec}
use creo_bench.Script.Names.{lookup, specs_by_name, names_from}
use creo_bench.Script.Runner.Jumps.{Jump, Descends, jump_to, next_user_spec-enough}
use creo_bench.Script.Runner.Circles.{IsCircle, next_user_spec-circle}
use creo_bench.Script.Runner.{
  next_spec, ScriptRunner, new_runner, setup, next_user_spec, out_of_fuel,
}
use creo_bench.Script.Runner.Valid.{IsValid, UserNext, next_user_spec-IsValid}
use creo_bench.Script.Runner.Setup.{setup-IsValid}

pub data Table : Type 0 where
  script no_entries entries login_entry again_entry login_spec : Table

-- The functions `setup` and `requests`, one that jumps to `login`, one that jumps to itself, and one
-- that jumps to `step`.
pub data Function : Type 0 where
  on_setup on_requests to_login to_itself to_step : Function

abbrev V : Type 0
V = LuaValue String ℕ ℕ Table Function ℕ

abbrev fields : Table → List (String × V)
fields script = ("setup", function on_setup) ∷ ("requests", function on_requests) ∷ []
fields login_entry = ("name", str "login") ∷ ("spec", table login_spec) ∷ []
fields again_entry = ("name", str "again") ∷ ("spec", function to_itself) ∷ []
fields login_spec =
    ("protocol", str "http")
    ∷ ("method", str "Get")
    ∷ ("service", str "shop")
    ∷ ("path", str "/login")
    ∷ []
fields _ = []

abbrev field_in : String → List (String × V) → V
field_in k [] = nil
field_in k ((j, v) ∷ m) = if j == k then v else field_in k m

abbrev items : Table → List (Result V String)
items entries = ok (table login_entry) ∷ ok (function to_login) ∷ ok (table again_entry) ∷ []
items _ = []

abbrev returns : Function → V
returns on_setup = table no_entries
returns on_requests = table entries
returns to_login = str "login"
returns to_itself = str "again"
returns to_step = str "step"

abbrev pub shop : LuaApi
shop = record {
  Vm = ℕ;
  Str = String;
  Integer = ℕ;
  Number = ℕ;
  Table = Table;
  Function = Function;
  Other = ℕ;
  LuaError = String;
  Json = ℕ;
  Source = Table;
  new_vm = 0;
  eval = λ source vm. (ok (table source), vm);
  get = λ t k vm. (ok (field_in k (fields t)), vm);
  sequence_values = λ t vm. items t;
  pairs = λ t vm. [];
  call = λ f vm. (ok (returns f), vm + 1);
  call_extract = λ f response vm. (ok tt, vm + 1);
  from_value = λ v vm. err "no JSON";
  type_name = λ v. "value";
  to_str = some;
  integer_to_string = λ n. "number";
  number_to_string = λ n. "number";
  to_lowercase = λ s. s;
}

abbrev pub login : RequestSpec shop
login = http (record {
  method = get;
  service = "shop";
  path = "/login";
  headers = [];
  query = [];
  body = none;
  extract = none;
})

abbrev user_specs : List (LuaRequestSpec shop)
user_specs =
    record { name = some "login"; spec = static login }
    ∷ record { name = none; spec = dynamic to_login }
    ∷ record { name = some "again"; spec = dynamic to_itself }
    ∷ []

abbrev shop_runner : ScriptRunner shop
shop_runner = new_runner shop 2 [] user_specs

setup-shop : setup shop script ≡ ok shop_runner
unfolding setup load call_top_level_func parse_spec from_str ascii_lower
setup-shop = refl

setup-IsValid_example :
    IsValid shop shop_runner × (shop_runner.setup_cursor ≡ 0) × (shop_runner.user_cursor ≡ 0)
setup-IsValid_example = setup-IsValid shop script shop_runner setup-shop

-- The second spec jumps to the first.
abbrev pub second : ScriptRunner shop
second = record shop_runner { user_cursor = 1 }

pub second-IsValid : IsValid shop second
second-IsValid = record {
  cursor_in_cycle = omega arith;
  setup_names = (setup-IsValid shop script shop_runner setup-shop).0.setup_names;
  user_names = (setup-IsValid shop script shop_runner setup-shop).0.user_names;
}

second_next :
    next_user_spec shop 2 second ≡ (ok (1, 0, login), record second { user_cursor = 1; lua = 3 })
unfolding next_user_spec next_spec call_dynamic_func lookup specs_by_name names_from
second_next = refl

next_user_spec-IsValid_example :
    let result = next_user_spec shop 2 second in IsValid shop result.1 × UserNext shop second result
next_user_spec-IsValid_example = next_user_spec-IsValid shop 2 second second-IsValid

-- The third spec jumps to itself.
abbrev third : ScriptRunner shop
third = record shop_runner { user_cursor = 2 }

abbrev IsThird : ℕ → Type 0
IsThird (suc (suc zero)) = Unit
IsThird _ = ⊥

IsThird-IsCircle : IsCircle shop third.user_specs third.user_specs_by_name IsThird
unfolding call_dynamic_func lookup specs_by_name names_from
IsThird-IsCircle zero m = absurd m
IsThird-IsCircle (suc zero) m = absurd m
IsThird-IsCircle (suc (suc (suc i))) m = absurd m
IsThird-IsCircle (suc (suc zero)) m = (
  record { name = some "again"; spec = dynamic to_itself },
  to_itself,
  refl,
  refl,
  λ vm. (2, "again", vm + 1, refl, refl, tt),
)

next_user_spec-circle_example : (next_user_spec shop 100 third).0 ≡ err out_of_fuel
next_user_spec-circle_example = next_user_spec-circle shop IsThird 100 third IsThird-IsCircle tt

-- A script in which the third spec jumps to the second, which is dynamic and jumps to the first.
abbrev chain_specs : List (LuaRequestSpec shop)
chain_specs =
    record { name = some "login"; spec = static login }
    ∷ record { name = some "step"; spec = dynamic to_login }
    ∷ record { name = none; spec = dynamic to_step }
    ∷ []

abbrev chain_runner : ScriptRunner shop
chain_runner = record (new_runner shop 2 [] chain_specs) { user_cursor = 2 }

abbrev chain_rank : ℕ → ℕ
chain_rank (suc (suc zero)) = 1
chain_rank _ = 0

abbrev function_of : SpecType shop → Option Function
function_of (static s) = none
function_of (dynamic f) = some f

abbrev function_at : Option (LuaRequestSpec shop) → Option Function
function_at none = none
function_at (some t) = function_of t.spec

function_found :
    (spec : Option (LuaRequestSpec shop)) (t : LuaRequestSpec shop) (f : Function)
    → spec ≡ some t
    → t.spec ≡ dynamic f
    → function_at spec ≡ some f
function_found spec t f at k = ap function_at at ∙ ap function_of k

abbrev CallJumps : ℕ → String → ℕ → ℕ → Function → Type 0
CallJumps i name vm vm' f = call_dynamic_func shop i f vm ≡ (ok (jump name), vm')

to_login_named :
    (i : ℕ) (name : String) (vm vm' : ℕ)
    → call_dynamic_func shop i to_login vm ≡ (ok (jump name), vm')
    → "login" ≡ name
unfolding call_dynamic_func
to_login_named i name vm vm' c = cc

to_step_named :
    (i : ℕ) (name : String) (vm vm' : ℕ)
    → call_dynamic_func shop i to_step vm ≡ (ok (jump name), vm')
    → "step" ≡ name
unfolding call_dynamic_func
to_step_named i name vm vm' c = cc

-- The index that a name has.
found_at :
    (name other : String) (i j : ℕ)
    → lookup name chain_runner.user_specs_by_name ≡ some i
    → name ≡ other
    → lookup other chain_runner.user_specs_by_name ≡ some j
    → i ≡ j
found_at name other i j e same l =
    some-injective i j (sym e ∙ ap (λ n. lookup n chain_runner.user_specs_by_name) same ∙ l)

login_at : lookup "login" chain_runner.user_specs_by_name ≡ some 0
unfolding lookup specs_by_name names_from
login_at = refl

step_at : lookup "step" chain_runner.user_specs_by_name ≡ some 1
unfolding lookup specs_by_name names_from
step_at = refl

-- The jump from the third spec to the second is one between dynamic specs.
chain-Jump : Jump shop chain_specs chain_runner.user_specs_by_name 2 1
unfolding call_dynamic_func
chain-Jump =
    jump_to (record { name = none; spec = dynamic to_step })
      (record { name = some "step"; spec = dynamic to_login }) to_step to_login "step" 0 1 refl refl
      refl step_at refl refl

chain-Descends : Descends shop chain_runner.user_specs chain_runner.user_specs_by_name chain_rank
chain-Descends zero j (jump_to t u f g name vm vm' at k c l e d) =
    let found = function_found (get_elem? chain_specs 0) t f at k in cc found
chain-Descends (suc zero) j (jump_to t u f g name vm vm' at k c l e d) =
    let same = some-injective to_login f (function_found (get_elem? chain_specs 1) t f at k) in
    let call = subst (CallJumps 1 name vm vm') (sym same) c in
    let index = found_at "login" name 0 j login_at (to_login_named 1 name vm vm' call) l in
    let first = function_found (get_elem? chain_specs j) u g e d in
    let absent = subst (λ n. function_at (get_elem? chain_specs n) ≡ some g) (sym index) first in
    cc absent
chain-Descends (suc (suc zero)) j (jump_to t u f g name vm vm' at k c l e d) =
    let same = some-injective to_step f (function_found (get_elem? chain_specs 2) t f at k) in
    let call = subst (CallJumps 2 name vm vm') (sym same) c in
    let index = found_at "step" name 1 j step_at (to_step_named 2 name vm vm' call) l in
    subst (λ n. chain_rank n < 1) index (omega arith)
chain-Descends (suc (suc (suc i))) j (jump_to t u f g name vm vm' at k c l e d) =
    let found = function_found none t f at k in cc found

next_user_spec-enough_example :
    (next_user_spec shop 2 chain_runner ≡ next_user_spec shop 9 chain_runner)
    × ((next_user_spec shop 2 chain_runner).0 ≢ err out_of_fuel)
next_user_spec-enough_example =
    next_user_spec-enough shop chain_rank 2 9 chain_runner chain-Descends (omega arith)
      (omega arith)
