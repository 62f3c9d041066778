-- ===== src/Http/Client/Tests.antt =====
-- Runs of the HTTP client's functions, and the theorems at them.
use async_uv.Base.{ℕ, ◌≤◌, ◌<◌, ◌≡◌, refl, true, false, some, [], ◌∷◌, arith, length, All}
use async_uv.Base.Bytes.{lit, bytes_beq, cut_at, split_on, strip_prefix}
use async_uv.Http.Client.{
  HttpError, http_status_failure, no_error, RetryPolicy, is_idempotent_method, should_retry_error,
  backoff_factor, retry_backoff, equals_ci, find_header_value, erase_header, set_or_replace_header,
  should_switch_to_get_on_redirect,
}
use async_uv.Http.Client.Retry.{
  Attempt, failed, attempts_of, attempt_loop, execute, execute_bounded,
}
use async_uv.Http.Client.Cookies.{
  CookieEntry, cookie_domain_matches, cookie_path_matches, next_field, load_line, load_lines,
  load_cookie_jar_file, save_lines, save_cookie_jar_file, upsert_cookie, add_cookies,
  build_cookie_header,
}
use async_uv.Base.Search.{drop_while, drop_while_back}
use async_uv.Http.Client.SetCookie.{
  trim, before_last_slash, default_path, set_attributes, parse_set_cookie,
}
use async_uv.Http.Client.Cookies.Jar.{IsField, IsSavable, load-save}

running : Unit {0}
unfolding bytes_beq cut_at split_on strip_prefix is_idempotent_method should_retry_error
    backoff_factor retry_backoff equals_ci find_header_value erase_header set_or_replace_header
    should_switch_to_get_on_redirect attempt_loop execute cookie_domain_matches cookie_path_matches
    next_field load_line load_lines load_cookie_jar_file save_lines save_cookie_jar_file
    upsert_cookie add_cookies build_cookie_header drop_while drop_while_back trim before_last_slash
    default_path set_attributes parse_set_cookie
running = tt

abbrev policy : RetryPolicy
policy = record {
  enabled = true;
  max_attempts = 3;
  retry_idempotent_only = true;
  base_backoff = 100;
  max_backoff = 150;
  retry_on_http_5xx = true;
}

abbrev unavailable : HttpError
unavailable = record { code = http_status_failure; status_code = 503; transport_kind = no_error }

abbrev always_unavailable : ℕ → Attempt ℕ
always_unavailable attempt = failed unavailable

retries_get : execute always_unavailable policy (lit "GET") ≡ (failed unavailable, 100 ∷ 150 ∷ [])
unfolding running
retries_get = refl

fails_post : execute always_unavailable policy (lit "POST") ≡ (failed unavailable, [])
unfolding running
fails_post = refl

execute_bounded_example :
    All (λ w. w ≤ 150) (execute always_unavailable policy (lit "GET")).1
    × (length (execute always_unavailable policy (lit "GET")).1 < attempts_of policy)
execute_bounded_example = execute_bounded always_unavailable policy (lit "GET")

abbrev session : CookieEntry
session = record {
  domain = lit ".a.org";
  path = lit "/x";
  name = lit "id";
  value = lit "7";
  secure = true;
}

-- A cookie without a value is lost.
abbrev empty_cookie : CookieEntry
empty_cookie = record session { value = [] }

loses_empty :
    load_cookie_jar_file (save_cookie_jar_file (empty_cookie ∷ session ∷ [])) ≡ session ∷ []
unfolding running
loses_empty = refl

sends_to_subdomain :
    build_cookie_header (session ∷ []) (lit "HTTPS") (lit "b.a.org") (lit "/xy") ≡ lit "id=7"
unfolding running
sends_to_subdomain = refl

keeps_secret : build_cookie_header (session ∷ []) (lit "http") (lit "a.org") (lit "/x") ≡ []
unfolding running
keeps_secret = refl

updates_in_place :
    upsert_cookie (session ∷ []) (record session { value = lit "8"; domain = lit ".A.org" })
    ≡ record session { value = lit "8"; domain = lit ".A.org" } ∷ []
unfolding running
updates_in_place = refl

domain-IsField : IsField session.domain
domain-IsField = (
  (omega arith, (omega arith, (omega arith, (omega arith, (omega arith, (omega arith, tt)))))),
  (omega arith, (omega arith, (omega arith, (omega arith, (omega arith, (omega arith, tt)))))),
)

session-IsSavable : IsSavable session
session-IsSavable = record {
  domain_field = domain-IsField;
  path_field = ((omega arith, (omega arith, tt)), (omega arith, (omega arith, tt)));
  name_field = ((omega arith, (omega arith, tt)), (omega arith, (omega arith, tt)));
  value_line = (omega arith, tt);
  domain_given = refl;
  name_given = refl;
  value_given = refl;
}

load-save_example :
    load_cookie_jar_file (save_cookie_jar_file (session ∷ session ∷ [])) ≡ session ∷ session ∷ []
load-save_example = load-save (session ∷ session ∷ []) (session-IsSavable, (session-IsSavable, tt))

reads_cookie :
    parse_set_cookie (lit " id = 7 ; Path=/y;; Domain=.A.org; SECURE") (lit "b.a.org") (lit "/x/z")
    ≡ some (record {
      domain = lit ".a.org";
      path = lit "/y";
      name = lit "id ";
      value = lit " 7";
      secure = true;
    })
unfolding running
reads_cookie = refl

takes_directory :
    parse_set_cookie (lit "a=") (lit "B.org") (lit "/x/z")
    ≡ some (record {
      domain = lit "b.org";
      path = lit "/x";
      name = lit "a";
      value = [];
      secure = false;
    })
unfolding running
takes_directory = refl
