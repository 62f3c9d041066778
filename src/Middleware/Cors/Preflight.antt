-- ===== src/Middleware/Cors/Preflight.antt =====
-- The reply to an allowed preflight request.
use async_uv.Base.{◌≡◌, refl, inl, inr, true, some, if◌then◌else◌, Bool-cases, ◌∙◌, ap}
use async_uv.Base.Bytes.{Bytes, lit, bytes_beq}
use async_uv.Base.Digits.{decimal}
use async_uv.Middleware.Context.{Context, header, header_in, iequals_ascii, set, status}
use async_uv.Middleware.Context.Reply.{header-set}
use async_uv.Middleware.Cors.{
  CorsOptions, is_wildcard, is_origin_allowed, join_strings, with_origin, preflight, cors,
}

abbrev origin_name : Bytes
origin_name = lit "Access-Control-Allow-Origin"

-- What a reply to an allowed origin names as the origin.
abbrev pub allowed_origin : CorsOptions → Bytes → Bytes
allowed_origin opts origin =
    if opts.allow_credentials
    then origin
    else if is_wildcard opts.allow_origins
    then lit "*"
    else origin

header-with_origin :
    (opts : CorsOptions) (origin : Bytes) (ctx : Context)
    → header_in origin_name (with_origin opts origin ctx).response.headers
      ≡ some (allowed_origin opts origin)
unfolding with_origin iequals_ascii
header-with_origin opts origin ctx = elim (Bool-cases opts.allow_credentials) [
  | inl shared ↦
      let vary = set (lit "Vary") (lit "Origin") ctx in
      let shown = set origin_name origin vary in
      simp shared (
        (header-set (lit "Access-Control-Allow-Credentials") (lit "true") shown).1 origin_name refl
        ∙ (header-set origin_name origin vary).0)
  | inr private ↦
      let vary = set (lit "Vary") (lit "Origin") ctx in
      let shown = if is_wildcard opts.allow_origins then lit "*" else origin in
      simp private ((header-set origin_name shown vary).0)
]

header-preflight :
    (opts : CorsOptions) (ctx : Context)
    → header_in origin_name (preflight opts ctx).response.headers
      ≡ header_in origin_name ctx.response.headers
unfolding preflight status iequals_ascii
header-preflight opts ctx =
    let vary = lit "Origin, Access-Control-Request-Method, Access-Control-Request-Headers" in
    let a = set (lit "Vary") vary ctx in
    let b =
      set (lit "Access-Control-Allow-Methods") (join_strings opts.allow_methods (lit ", ")) a in
    let c =
      set (lit "Access-Control-Allow-Headers") (join_strings opts.allow_headers (lit ", ")) b in
    (header-set (lit "Access-Control-Max-Age") (decimal opts.max_age) c).1 origin_name refl
    ∙ (header-set (lit "Access-Control-Allow-Headers") (join_strings opts.allow_headers (lit ", "))
          b).1
        origin_name refl
    ∙ (header-set (lit "Access-Control-Allow-Methods") (join_strings opts.allow_methods (lit ", "))
          a).1
        origin_name refl
    ∙ (header-set (lit "Vary") vary ctx).1 origin_name refl

cors_answered :
    (opts : CorsOptions) (ctx : Context) (next : Context → Context) (origin : Bytes)
    → header (lit "Origin") ctx ≡ some origin
    → is_origin_allowed origin opts.allow_origins ≡ true
    → ctx.request.method ≡ lit "OPTIONS"
    → cors opts ctx next ≡ preflight opts (with_origin opts origin ctx)
unfolding cors bytes_beq
cors_answered opts ctx next origin from ok method = rw (cors, from, ok, method) refl

-- An OPTIONS request whose Origin is allowed is answered with 204 whatever the rest of the chain
-- does, and the reply allows the request's own origin where credentials are allowed, and otherwise
-- `*` if that is the only origin of the options, and the request's own if not.
pub cors-preflight :
    (opts : CorsOptions) (ctx : Context) (next : Context → Context) (origin : Bytes)
    → header (lit "Origin") ctx ≡ some origin
    → is_origin_allowed origin opts.allow_origins ≡ true
    → ctx.request.method ≡ lit "OPTIONS"
    → let reply = (cors opts ctx next).response in
      (reply.status_code ≡ 204)
      × (header_in (lit "Access-Control-Allow-Origin") reply.headers
          ≡ some (allowed_origin opts origin))
unfolding preflight status
cors-preflight opts ctx next origin from ok method =
    let answered = cors_answered opts ctx next origin from ok method in
    (
      ap (λ c. c.response.status_code) answered,
      ap (λ c. header_in origin_name c.response.headers) answered
          ∙ header-preflight opts (with_origin opts origin ctx)
          ∙ header-with_origin opts origin ctx,
    )
