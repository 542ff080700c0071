-- ===== src/VirtualUser/Http/Execute.antt =====
-- virtual_user/http/executor.rs: the script's runner while a request is executed.
use creo_bench.Prelude.{refl, Bool-cases, inl, inr, Result, ok, err, leb}
use creo_bench.Load.Time.{RequestTiming, finish}
use creo_bench.Script.Lua.{LuaApi}
use creo_bench.Script.Spec.{HttpSpec}
use creo_bench.Script.Runner.{ScriptRunner, Error, SamePlace, run_http_extract-SamePlace}
use creo_bench.VirtualUser.Http.{
  HttpApi, ServiceRegistry, RequestError, request_timeout, request_failed, HttpResponse, UrlError,
  Sending, execute, executed, checked, extracted, script_response, resolve_url, send_with_cookies,
}

module _ (api : LuaApi) (http_api : HttpApi api.Json) where
  open http_api use {Url, now}

  extracted-SamePlace :
      (timing : RequestTiming) (r : Result (Unit {0}) (Error api) × ScriptRunner api)
      (s : Sending api http_api)
      → SamePlace api s.runner r.1
      → SamePlace api s.runner (extracted api http_api timing r s).1.runner
  unfolding extracted
  extracted-SamePlace timing (ok done, runner) s h = h
  extracted-SamePlace timing (err e, runner) s h = h

  checked-SamePlace :
      (spec : HttpSpec api) (timing : RequestTiming) (r : Result HttpResponse RequestError)
      (s : Sending api http_api)
      → SamePlace api s.runner (checked api http_api spec timing r s).1.runner
  unfolding checked
  checked-SamePlace spec timing (err (request_timeout m)) s = refl
  checked-SamePlace spec timing (err (request_failed m)) s = refl
  checked-SamePlace spec timing (ok response) s = elim (Bool-cases (leb 400 response.status)) [
    | inl refused ↦ rw (checked, refused) refl
    | inr passes ↦
        rw (checked, passes)
          (extracted-SamePlace timing _ s
            (run_http_extract-SamePlace api spec (script_response response) s.runner))
  ]

  executed-SamePlace :
      (spec : HttpSpec api) (u : Result Url (UrlError api http_api)) (s : Sending api http_api)
      → SamePlace api s.runner (executed api http_api spec u s).1.runner
  unfolding executed
  executed-SamePlace spec (err e) s = refl
  executed-SamePlace spec (ok u) s =
      let (sent_at, world) = now s.world in
      let (response, jar, world') = send_with_cookies api http_api u spec s.jar world in
      let (received_at, world'') = now world' in
      checked-SamePlace spec (finish sent_at received_at) response
        (record { jar = jar; runner = s.runner; world = world'' })

  pub execute-SamePlace :
      (spec : HttpSpec api) (registry : ServiceRegistry) (s : Sending api http_api)
      → SamePlace api s.runner (execute api http_api spec registry s).1.runner
  unfolding execute
  execute-SamePlace spec registry s =
      executed-SamePlace spec (resolve_url api http_api spec registry) s
