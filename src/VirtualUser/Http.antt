-- ===== src/VirtualUser/Http.antt =====
-- src/http: the HTTP client, and virtual_user/http: the executor of the requests with its cookies.
-- The url and cookie_store crates, what a client sends and the clock are parameters.
pub mod Execute
use Prim.Native.String.{◌++◌}
use text.Mathlib.Text.{◌==◌}
use creo_bench.Prelude.{
  ℕ, String, Option, none, some, List, [], ◌∷◌, Result, ok, err, leb, if◌then◌else◌,
}
use creo_bench.Load.Time.{RequestTiming, finish}
use creo_bench.Script.Text.{eq_ignore_ascii_case}
use creo_bench.Script.Lua.{LuaApi}
use creo_bench.Script.Method.{HttpMethod}
use creo_bench.Script.Response.{Response}
use creo_bench.Script.Spec.{HttpSpec}
use creo_bench.Script.Runner.{ScriptRunner, Error, run_http_extract}

pub data RequestError : Type 0 where
  request_timeout request_failed : String → RequestError

pub record HttpResponse : Type 0 where
  pub status : ℕ
  pub headers : List (String × String)
  pub body : Option (List ℕ)

-- `Response::new`.
unfoldable pub script_response : HttpResponse → Response
script_response r = record { status = r.status; headers = r.headers; body = r.body }

-- `World` is what the clients and the clock depend on. `matches` are the encoded cookies that match
-- an URL, and `parse_cookie` stores that of a `Set-Cookie` header, if it is one.
pub record HttpApi (Json : Type 0) : Type 1 where
  pub World : Type 0
  pub Url : Type 0
  pub UrlParseError : Type 0
  pub CookieStore : Type 0
  pub parse : String → Result Url UrlParseError
  pub parse_with_params : String → List (String × String) → Result Url UrlParseError
  pub set_path : Url → String → Url
  pub as_str : Url → String
  pub matches : CookieStore → Url → List String
  pub parse_cookie : CookieStore → String → Url → CookieStore
  pub send :
      String
      → HttpMethod
      → List (String × String)
      → Option Json
      → World
      → Result HttpResponse RequestError × World
  pub now : World → ℕ × World

-- The map of a `ServiceRegistry`.
abbrev pub ServiceRegistry : Type 0
ServiceRegistry = List (String × String)

unfoldable pub service_url : String → ServiceRegistry → Option String
service_url k [] = none
service_url k ((j, url) ∷ services) =
    let rest = service_url k services in if j == k then some url else rest

module _ (api : LuaApi) (http : HttpApi api.Json) where
  open http use {
    World, Url, UrlParseError, CookieStore, parse, parse_with_params, set_path, as_str, matches,
    parse_cookie, send, now,
  }

  -- virtual_user/http/cookies.rs
  semicolons : String → List String → String
  semicolons acc [] = acc
  semicolons acc (cookie ∷ cookies) = semicolons ((acc ++ "; ") ++ cookie) cookies

  cookie_header : List String → List (String × String)
  unfolding semicolons
  cookie_header [] = []
  cookie_header (first ∷ cookies) = ("Cookie", semicolons first cookies) ∷ []

  -- `CookieJar::cookie`: the header, or none.
  unfoldable pub cookie : CookieStore → Url → List (String × String)
  unfolding cookie_header
  cookie jar url = cookie_header (matches jar url)

  unfoldable pub store_cookies : CookieStore → List (String × String) → Url → CookieStore
  store_cookies jar [] url = jar
  store_cookies jar ((name, value) ∷ headers) url =
      store_cookies
        (if eq_ignore_ascii_case name "set-cookie" then parse_cookie jar value url else jar) headers
        url

  -- virtual_user/http/error.rs
  pub data UrlError : Type 0 where
    service_not_found : String → UrlError
    invalid_url : String → UrlParseError → UrlError

  pub data HttpExecuteError : Type 0 where
    url : UrlError → HttpExecuteError
    timeout : String → RequestTiming → HttpExecuteError
    failed : String → RequestTiming → HttpExecuteError
    status : ℕ → RequestTiming → HttpExecuteError
    extract : Error api → RequestTiming → HttpExecuteError

  parse_base : List (String × String) → String → Result Url UrlParseError
  parse_base [] base = parse base
  parse_base (q ∷ query) base = parse_with_params base (q ∷ query)

  with_path : HttpSpec api → Result Url UrlParseError → Result Url UrlError
  with_path spec (ok u) = ok (set_path u spec.path)
  with_path spec (err e) = err (invalid_url spec.service e)

  unfoldable pub resolve_url : HttpSpec api → ServiceRegistry → Result Url UrlError
  unfolding parse_base with_path
  resolve_url spec registry = elim (service_url spec.service registry) [
    | none ↦ err (service_not_found spec.service)
    | some base ↦ with_path spec (parse_base spec.query base)
  ]

  -- The cookies of the executor, the runner and the world, which a request changes.
  pub record Sending : Type 0 where
    pub jar : CookieStore
    pub runner : ScriptRunner api
    pub world : World

  stored :
      Url
      → CookieStore
      → Result HttpResponse RequestError × World
      → Result HttpResponse RequestError × CookieStore × World
  stored u jar (ok response, world) = (ok response, store_cookies jar response.headers u, world)
  stored u jar (err e, world) = (err e, jar, world)

  abbrev append_headers : List (String × String) → List (String × String) → List (String × String)
  append_headers [] hs = hs
  append_headers (h ∷ headers) hs = h ∷ append_headers headers hs

  unfoldable pub send_with_cookies :
      Url
      → HttpSpec api
      → CookieStore
      → World
      → Result HttpResponse RequestError × CookieStore × World
  unfolding stored
  send_with_cookies u spec jar world =
      stored u jar
        (send (as_str u) spec.method (append_headers spec.headers (cookie jar u)) spec.body world)

  extracted :
      RequestTiming
      → Result (Unit {0}) (Error api) × ScriptRunner api
      → Sending
      → Result RequestTiming HttpExecuteError × Sending
  extracted timing (ok done, runner) s = (ok timing, record s { runner = runner })
  extracted timing (err e, runner) s = (err (extract e timing), record s { runner = runner })

  checked :
      HttpSpec api
      → RequestTiming
      → Result HttpResponse RequestError
      → Sending
      → Result RequestTiming HttpExecuteError × Sending
  unfolding extracted
  checked spec timing (err (request_timeout message)) s = (err (timeout message timing), s)
  checked spec timing (err (request_failed message)) s = (err (failed message timing), s)
  checked spec timing (ok response) s =
      let success =
        extracted timing (run_http_extract api spec (script_response response) s.runner) s in
      if leb 400 response.status then (err (status response.status timing), s) else success

  executed :
      HttpSpec api → Result Url UrlError → Sending → Result RequestTiming HttpExecuteError × Sending
  unfolding checked
  executed spec (err e) s = (err (url e), s)
  executed spec (ok u) s =
      let (sent_at, world) = now s.world in
      let (response, jar, world') = send_with_cookies u spec s.jar world in
      let (received_at, world'') = now world' in
      checked spec (finish sent_at received_at) response (record s { jar = jar; world = world'' })

  -- `HttpExecutor::execute`.
  unfoldable pub execute :
      HttpSpec api → ServiceRegistry → Sending → Result RequestTiming HttpExecuteError × Sending
  unfolding executed
  execute spec registry s = executed spec (resolve_url spec registry) s
