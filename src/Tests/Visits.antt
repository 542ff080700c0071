-- ===== src/Tests/Visits.antt =====
-- Visits of the shop: the world counts the readings of the clock and the requests, and every third
-- request is refused.
use creo_bench.Prelude.{
  ℕ, ◌+◌, ◌%◌, ◌≡◌, refl, String, none, List, [], ◌∷◌, ok, ◌==◌, if◌then◌else◌, arith,
}
use creo_bench.Load.Time.{scheduled}
use creo_bench.Script.Spec.{static, LuaRequestSpec}
use creo_bench.Script.Runner.{new_runner, next_user_spec, next_spec}
use creo_bench.Script.Func.{call_dynamic_func}
use creo_bench.Script.Names.{lookup, specs_by_name, names_from}
use creo_bench.Script.Runner.Valid.{IsValid}
use creo_bench.Script.Runner.Indexed.{specs_by_name-PointsInto}
use creo_bench.Transaction.{Transaction, new_transaction}
use creo_bench.VirtualUser.Http.{
  HttpApi, HttpResponse, execute, resolve_url, service_url, send_with_cookies,
}
use creo_bench.VirtualUser.Pool.{Pool, release, push_user, add_permit}
use creo_bench.VirtualUser.User.{VirtualUser, Display, send_next_request}
use creo_bench.VirtualUser.User.Outcome.{Released, Requested, send_next_request-releases}
use creo_bench.VirtualUser.User.Cycle.{Follows, send_requests, send_requests-Follows}
use creo_bench.Tests.Scripts.{shop, login, second, second-IsValid}
use creo_bench.Tests.Users.{first_always}

abbrev answer : ℕ → HttpResponse
answer n = record { status = if (n % 3) == 0 then 500 else 200; headers = []; body = none }

abbrev http_shop : HttpApi ℕ
http_shop = record {
  World = ℕ;
  Url = String;
  UrlParseError = String;
  CookieStore = List String;
  parse = ok;
  parse_with_params = λ base query. ok base;
  set_path = λ url path. path;
  as_str = λ url. url;
  matches = λ jar url. jar;
  parse_cookie = λ jar value url. value ∷ jar;
  send = λ url method headers body n. (ok (answer n), n + 1);
  now = λ n. (n, n + 1);
}

abbrev display : Display shop http_shop
display = record { script_error = λ e. "script error"; url_error = λ e. "no such service" }

-- A user whose next spec jumps to the first.
abbrev visitor : VirtualUser shop http_shop
visitor = record {
  id = 7;
  runner = second;
  jar = [];
  service_registry = ("shop", "http://shop") ∷ [];
}

abbrev visits : List Transaction
visits =
    new_transaction 0 (scheduled 100 5) 5
    ∷ new_transaction 0 (scheduled 100 9) 9
    ∷ new_transaction 0 (scheduled 100 14) 14
    ∷ []

abbrev empty_pool : Pool (VirtualUser shop http_shop) first_always
empty_pool = record { users = []; rng = 0; available = 0 }

send_next_request-releases_example :
    let (result, pool', world') =
      send_next_request shop http_shop display first_always 2 visitor empty_pool
        (new_transaction 0 (scheduled 100 5) 5)
        101 in
    (user' : VirtualUser shop http_shop) × Released shop http_shop display first_always empty_pool
      user'
      (result, pool')
    × Requested shop http_shop display 2 visitor (result, user', world')
send_next_request-releases_example =
    send_next_request-releases shop http_shop display first_always 2 visitor empty_pool
      (new_transaction 0 (scheduled 100 5) 5) 101 second-IsValid

-- There is a result in this run, so that the user is given back.
visitor_returns :
    (send_next_request shop http_shop display first_always 2 visitor empty_pool
      (new_transaction 0 (scheduled 100 5) 5)
      101).1.available
    ≡ 1
unfolding send_next_request new_transaction scheduled next_user_spec next_spec call_dynamic_func
    lookup specs_by_name names_from execute resolve_url service_url send_with_cookies release
    push_user add_permit
visitor_returns = refl

-- A user of a script with two static specs, at the second.
abbrev static_specs : List (LuaRequestSpec shop)
static_specs =
    record { name = none; spec = static login } ∷ record { name = none; spec = static login } ∷ []

abbrev shopper : VirtualUser shop http_shop
shopper = record visitor { runner = record (new_runner shop 2 [] static_specs) { user_cursor = 1 } }

shopper-IsValid : IsValid shop shopper.runner
shopper-IsValid = record {
  cursor_in_cycle = omega arith;
  setup_names = specs_by_name-PointsInto shop [];
  user_names = specs_by_name-PointsInto shop static_specs;
}

send_requests-Follows_example :
    Follows 2 1 0 (send_requests shop http_shop display 0 visits shopper 101).0
send_requests-Follows_example =
    send_requests-Follows shop http_shop display 0 visits shopper 101 shopper-IsValid
      ((login, refl), ((login, refl), tt))
