-- ===== src/Middleware/Tests.antt =====
-- Runs of the middleware, and the theorems at them.
use async_uv.Base.{ℕ, length}
use async_uv.Middleware.Replies.{
  json_escape, wildcard_prefix, matches_rule, matches_any, content_type_matches, weak_etag,
  add_etag, etag,
}
use async_uv.Base.Bytes.{strip_prefix}
use async_uv.Base.Bytes.{cut_at}
use async_uv.Base.Dict.{lookup, insert, retain}
use async_uv.RateLimit.{Limiter, cleanup, consume_at, try_consume, remaining, reset_after}
use async_uv.RateLimit.Window.{IsValid}
use async_uv.Middleware.Limits.{
  Handled, RateLimitOptions, Readings, body_limit, extract_ip, extract_user, key_of, rate_headers,
  refuse, rate_limit,
}
use async_uv.Middleware.Limits.Admission.{Admits, counted, rate_limit-Admits}
use async_uv.Base.{◌≡◌, refl, true, false, none, some, [], ◌∷◌}
use async_uv.Base.Bytes.{Bytes, lit, bytes_beq}
use async_uv.Base.Digits.{hexadecimal, decimal, digits_onto}
use async_uv.Middleware.Context.{Context, header_in, iequals_ascii, set_in, set, status, send}
use async_uv.Middleware.Context.Reply.{header-set}
use async_uv.Middleware.Cors.{
  CorsOptions, join_strings, is_origin_allowed, with_origin, preflight, cors,
}
use async_uv.Middleware.Cors.Preflight.{allowed_origin, cors-preflight}

abbrev options : CorsOptions
options = record {
  allow_origins = lit "*" ∷ [];
  allow_methods = lit "GET" ∷ lit "PUT" ∷ [];
  allow_headers = lit "Content-Type" ∷ [];
  expose_headers = [];
  allow_credentials = true;
  max_age = 60;
}

abbrev asking : Context
asking = record {
  request = record {
    method = lit "OPTIONS";
    raw_target = lit "/";
    target = record { path = lit "/"; query_items = []; fragment = none };
    headers = record { name = lit "origin"; value = lit "http://a" } ∷ [];
    body = [];
    body_size = 0;
    http_major = 1;
    http_minor = 1;
    meta = record { remote_address = []; deadline = none; cancelled = false };
  };
  response = record {
    status_code = 200;
    reason = [];
    headers = [];
    body = [];
    keep_alive = true;
    chunked = false;
  };
  params = [];
}

running : Unit {0}
unfolding strip_prefix hexadecimal json_escape wildcard_prefix matches_rule matches_any
    content_type_matches weak_etag add_etag etag lookup insert retain cut_at cleanup consume_at
    try_consume remaining reset_after body_limit extract_ip extract_user rate_headers refuse
    rate_limit bytes_beq decimal digits_onto header_in iequals_ascii set_in set status send
    join_strings is_origin_allowed with_origin preflight cors
running = tt

methods_listed :
    header_in
      (lit "access-control-allow-methods")
      (cors options asking (send (lit "hi") 200)).response.headers
    ≡ some (lit "GET, PUT")
unfolding running
methods_listed = refl

header-set_example :
    (header_in (lit "Vary") (set (lit "Vary") (lit "Origin") asking).response.headers
      ≡ some (lit "Origin"))
    × ((other : Bytes)
        → iequals_ascii (lit "Vary") other ≡ false
        → header_in other (set (lit "Vary") (lit "Origin") asking).response.headers
          ≡ header_in other asking.response.headers)
header-set_example = header-set (lit "Vary") (lit "Origin") asking

cors-preflight_example :
    let reply = (cors options asking (send (lit "hi") 200)).response in
    (reply.status_code ≡ 204)
    × (header_in (lit "Access-Control-Allow-Origin") reply.headers
        ≡ some (allowed_origin options (lit "http://a")))
unfolding running
cors-preflight_example =
    cors-preflight options asking (send (lit "hi") 200) (lit "http://a") refl refl refl

abbrev limiter : Limiter
limiter = record { options = record { max_requests = 1; window = 2000 }; entries = [] }

abbrev by_address : RateLimitOptions
by_address = record {
  max_requests = 1;
  key_extractor = lit "ip";
  include_headers = true;
  message = lit "Too many requests";
}

abbrev readings : Readings
readings = record { at_cleanup = 1; at_consume = 2; at_remaining = 3; at_reset = 4 }

abbrev greet : Context → Handled
greet ctx = (send (lit "hi") 200 ctx, none)

abbrev forwarded : Context
forwarded = record asking {
  request = record asking.request {
    headers = record { name = lit "x-forwarded-for"; value = lit "10.0.0.1, 10.0.0.2" } ∷ [];
  };
}

abbrev waiting : Context
waiting =
    (rate_limit none readings forwarded
      (rate_limit none readings forwarded limiter by_address greet).0 by_address greet).1.0

refused_at_second :
    (header_in (lit "Retry-After") waiting.response.headers ≡ some (lit "1"))
    × (header_in (lit "X-RateLimit-Remaining") waiting.response.headers ≡ some (lit "0"))
unfolding running
refused_at_second = (refl, refl)

small_enough :
    (body_limit forwarded (record { max_bytes = 0; reject_on_limit = true }) greet).1 ≡ none
unfolding running
small_enough = refl

limiter-IsValid : IsValid limiter
limiter-IsValid = record { distinct = tt; counted = tt }

rate_limit-Admits_example :
    let key = key_of by_address none forwarded in
    let after = counted limiter readings key in
    (Admits limiter readings key
      → rate_limit none readings forwarded limiter by_address greet
        ≡ (after, greet (rate_headers key by_address readings after forwarded)))
    × ((Admits limiter readings key → ⊥)
        → rate_limit none readings forwarded limiter by_address greet
          ≡ (after, refuse key by_address readings after forwarded))
rate_limit-Admits_example =
    rate_limit-Admits none readings forwarded limiter by_address greet limiter-IsValid

abbrev hash_length : Bytes → ℕ
hash_length text = length text

not_modified_again :
    let tagged = record asking {
      request = record asking.request {
        headers = record { name = lit "if-none-match"; value = lit "W/\"2\"" } ∷ [];
      };
    } in
    (etag hash_length tagged greet).0.response.status_code ≡ 304
unfolding running
not_modified_again = refl

matches_text : content_type_matches (lit "text/html; charset=x") (lit "text/*" ∷ []) ≡ true
unfolding running
matches_text = refl

escapes : json_escape (lit "a\"b\\") ≡ lit "a\\\"b\\\\"
unfolding running
escapes = refl
