-- ===== src/Script/Parser.antt =====
-- script/parser: the tables of a script, parsed into request specs.
use text.Mathlib.Text.{◌==◌}
use creo_bench.Prelude.{
  String, Option, none, some, List, [], ◌∷◌, Result, ok, err, map_err, ok_or, if◌then◌else◌,
}
use creo_bench.Script.Lua.{
  Action, ◌>>=◌, pure, fail, lift, or_fail, LuaApi, Value, nil, boolean, integer, number, str,
  table, function,
}
use creo_bench.Script.Method.{HttpMethod, HttpError, from_str}
use creo_bench.Script.Spec.{HttpSpec, RequestSpec, http, SpecType, static, dynamic, LuaRequestSpec}

module _ (api : LuaApi) where
  open api use {
    Vm, Str, Table, Function, LuaError, Json, get, pairs, from_value, type_name, to_str,
    integer_to_string, number_to_string, to_lowercase,
  }

  -- script/parser/error.rs
  pub data ParseError : Type 0 where
    lua : LuaError → ParseError
    invalid_protocol : String → ParseError
    invalid_http_spec : HttpError → ParseError
    required_field_missing : String → ParseError
    field_not_string : String → String → ParseError
    field_string_value_not_utf8 : String → Str → ParseError
    field_not_table : String → String → ParseError
    string_map_value_not_coercible : String → String → Value api → ParseError
    body_not_json : LuaError → ParseError
    field_not_function : String → String → ParseError
    invalid_spec_type : String → ParseError
    invalid_request_spec : String → ParseError

  abbrev pub Parse : Type 0 → Type 0
  Parse A = Action Vm A ParseError

  get_field : Table → String → Parse (Value api)
  get_field t field = or_fail (get t field) lua

  utf8_field : String → Str → Parse String
  utf8_field field s = lift (ok_or (to_str s) (field_string_value_not_utf8 field s))

  string_value : String → Value api → Parse String
  unfolding utf8_field
  string_value field v = elim v [
    | nil ↦ fail (required_field_missing field)
    | str s ↦ utf8_field field s
    | w ↦ fail (field_not_string field (type_name w))
  ]

  -- script/parser/http/mod.rs
  unfoldable pub parse_method : Table → Parse HttpMethod
  unfolding get_field string_value
  parse_method t = do
    method ← get_field t "method"
    s ← string_value "method" method
    lift (map_err invalid_http_spec (from_str s))

  unfoldable pub parse_service : Table → Parse String
  unfolding get_field string_value
  parse_service t = do service ← get_field t "service"; string_value "service" service

  unfoldable pub parse_path : Table → Parse String
  unfolding get_field string_value
  parse_path t = do path ← get_field t "path"; string_value "path" path

  unfoldable pub coerce_to_string : Value api → Option String
  coerce_to_string (str s) = to_str s
  coerce_to_string (integer i) = some (integer_to_string i)
  coerce_to_string (number n) = some (number_to_string n)
  coerce_to_string (boolean b) = some (if b then "true" else "false")
  coerce_to_string _ = none

  string_pairs :
      String
      → List (Result (String × Value api) LuaError)
      → Result (List (String × String)) ParseError
  unfolding coerce_to_string
  string_pairs field [] = ok []
  string_pairs field (err e ∷ ps) = err (lua e)
  string_pairs field (ok (key, v) ∷ ps) =
      let rest = string_pairs field ps in
      elim (coerce_to_string v) [
        | none ↦ err (string_map_value_not_coercible field key v)
        | some value ↦ elim rest [ ok m ↦ ok ((key, value) ∷ m) | err e ↦ err e ]
      ]

  string_map : String → Value api → Parse (List (String × String))
  unfolding string_pairs
  string_map field v vm = elim v [
    | nil ↦ (ok [], vm)
    | table t ↦ (string_pairs field (pairs t vm), vm)
    | w ↦ (err (field_not_table field (type_name w)), vm)
  ]

  unfoldable pub parse_string_map : Table → String → Parse (List (String × String))
  unfolding get_field string_map
  parse_string_map t field = do raw ← get_field t field; string_map field raw

  json_body : Value api → Parse (Option Json)
  json_body v vm = elim v [
    | nil ↦ (ok none, vm)
    | w ↦ elim (from_value w vm) [ ok j ↦ (ok (some j), vm) | err e ↦ (err (body_not_json e), vm) ]
  ]

  unfoldable pub parse_body : Table → Parse (Option Json)
  unfolding get_field json_body
  parse_body t = do body ← get_field t "body"; json_body body

  extract_value : Value api → Parse (Option Function)
  extract_value v = elim v [
    | nil ↦ pure none
    | function f ↦ pure (some f)
    | w ↦ fail (field_not_function "extract" (type_name w))
  ]

  unfoldable pub parse_extract : Table → Parse (Option Function)
  unfolding get_field extract_value
  parse_extract t = do func ← get_field t "extract"; extract_value func

  unfoldable pub parse_http_spec : Table → Parse (HttpSpec api)
  unfolding parse_method parse_service parse_path parse_string_map parse_body parse_extract
  parse_http_spec t = do
    method ← parse_method t
    service ← parse_service t
    path ← parse_path t
    headers ← parse_string_map t "headers"
    query ← parse_string_map t "query"
    body ← parse_body t
    extract ← parse_extract t
    pure (record {
      method = method;
      service = service;
      path = path;
      headers = headers;
      query = query;
      body = body;
      extract = extract;
    })

  -- script/parser/mod.rs
  protocol_spec : Table → String → Parse (RequestSpec api)
  unfolding parse_http_spec
  protocol_spec t protocol =
      if protocol == "http"
      then (do spec ← parse_http_spec t; pure (http spec))
      else fail (invalid_protocol protocol)

  unfoldable pub parse_static_spec : Table → Parse (RequestSpec api)
  unfolding get_field string_value protocol_spec
  parse_static_spec t = do
    protocol ← get_field t "protocol"
    text ← string_value "protocol" protocol
    protocol_spec t (to_lowercase text)

  name_value : Value api → Parse (Option String)
  unfolding utf8_field
  name_value v = elim v [
    | nil ↦ pure none
    | str s ↦ (do name ← utf8_field "name" s; pure (some name))
    | w ↦ fail (field_not_string "name" (type_name w))
  ]

  spec_value : Value api → Parse (SpecType api)
  unfolding parse_static_spec
  spec_value v = elim v [
    | table t ↦ (do spec ← parse_static_spec t; pure (static spec))
    | function f ↦ pure (dynamic f)
    | w ↦ fail (invalid_spec_type (type_name w))
  ]

  spec_of : Table → Option String → Parse (SpecType api)
  unfolding parse_static_spec get_field spec_value
  spec_of t none = do spec ← parse_static_spec t; pure (static spec)
  spec_of t (some name) = do v ← get_field t "spec"; spec_value v

  unfoldable pub parse_spec : Value api → Parse (LuaRequestSpec api)
  unfolding get_field name_value spec_of
  parse_spec (table t) = do
    v ← get_field t "name"
    name ← name_value v
    spec ← spec_of t name
    pure (record { name = name; spec = spec })
  parse_spec (function f) = pure (record { name = none; spec = dynamic f })
  parse_spec v = fail (invalid_request_spec (type_name v))
