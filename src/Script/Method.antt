-- ===== src/Script/Method.antt =====
-- script/parser/http/method.rs: the HTTP methods of a request spec.
use creo_bench.Prelude.{String, Result, ok, err, if◌then◌else◌}
use creo_bench.Script.Text.{codes, lower, same_codes}

pub data HttpMethod : Type 0 where
  get post put delete patch head options : HttpMethod

pub data HttpError : Type 0 where
  unknown_method : String → HttpError

-- `HttpMethod::from_str`.
unfoldable pub from_str : String → Result HttpMethod HttpError
unfolding same_codes
from_str s =
    let text = lower (codes s) in
    if same_codes text (codes "get")
    then ok get
    else if same_codes text (codes "post")
    then ok post
    else if same_codes text (codes "put")
    then ok put
    else if same_codes text (codes "delete")
    then ok delete
    else if same_codes text (codes "patch")
    then ok patch
    else if same_codes text (codes "head")
    then ok head
    else if same_codes text (codes "options")
    then ok options
    else err (unknown_method s)
