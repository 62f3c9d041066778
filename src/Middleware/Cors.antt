-- ===== src/Middleware/Cors.antt =====
-- layer3/include/async_uv_layer3/cors.hpp: cross-origin requests. What the rest of the chain does
-- with the context is a function.
pub mod Preflight
use async_uv.Base.{
  ℕ, Bool, true, false, Option, none, some, List, [], ◌∷◌, ◌++◌, ◌==◌, if◌then◌else◌,
}
use async_uv.Base.Bytes.{Bytes, lit, bytes_beq}
use async_uv.Base.Digits.{decimal}
use async_uv.Http.Server.{ServerRequest}
use async_uv.Middleware.Context.{Context, header, set, status, iequals_ascii}

pub record CorsOptions : Type 0 where
  pub allow_origins : List Bytes
  pub allow_methods : List Bytes
  pub allow_headers : List Bytes
  pub expose_headers : List Bytes
  pub allow_credentials : Bool
  pub max_age : ℕ

abbrev join_behind : Bytes → Bytes → List Bytes → Bytes
join_behind delim result [] = result
join_behind delim result (s ∷ strs) = join_behind delim (result ++ (delim ++ s)) strs

unfoldable pub join_strings : List Bytes → Bytes → Bytes
join_strings [] delim = []
join_strings (s ∷ strs) delim = join_behind delim s strs

-- `allow_origins` is `*` alone.
abbrev pub is_wildcard : List Bytes → Bool
is_wildcard [] = false
is_wildcard (o ∷ []) = bytes_beq o (lit "*")
is_wildcard (o ∷ p ∷ origins) = false

abbrev listed : Bytes → List Bytes → Bool
listed origin [] = false
listed origin (o ∷ origins) = if bytes_beq o origin then true else listed origin origins

unfoldable pub is_origin_allowed : Bytes → List Bytes → Bool
unfolding bytes_beq
is_origin_allowed origin allowed = if is_wildcard allowed then true else listed origin allowed

-- The headers that every reply to an allowed origin gets.
unfoldable pub with_origin : CorsOptions → Bytes → Context → Context
unfolding set bytes_beq
with_origin opts origin ctx =
    let vary = set (lit "Vary") (lit "Origin") ctx in
    let shown = if is_wildcard opts.allow_origins then lit "*" else origin in
    if opts.allow_credentials
    then set (lit "Access-Control-Allow-Credentials") (lit "true")
        (set (lit "Access-Control-Allow-Origin") origin vary)
    else set (lit "Access-Control-Allow-Origin") shown vary

unfoldable pub preflight : CorsOptions → Context → Context
unfolding set status join_strings decimal
preflight opts ctx =
    let vary = lit "Origin, Access-Control-Request-Method, Access-Control-Request-Headers" in
    status 204 (
      set (lit "Access-Control-Max-Age") (decimal opts.max_age) (
        set (lit "Access-Control-Allow-Headers") (join_strings opts.allow_headers (lit ", ")) (
          set (lit "Access-Control-Allow-Methods") (join_strings opts.allow_methods (lit ", "))
            (set (lit "Vary") vary ctx))))

abbrev expose : CorsOptions → Context → Context
expose opts ctx = elim opts.expose_headers [
  | [] ↦ ctx
  | _ ∷ _ ↦
      set (lit "Access-Control-Expose-Headers") (join_strings opts.expose_headers (lit ", ")) ctx
]

unfoldable pub cors : CorsOptions → Context → (Context → Context) → Context
unfolding is_origin_allowed with_origin preflight set bytes_beq iequals_ascii
cors opts ctx next = elim (header (lit "Origin") ctx) [
  | none ↦ next ctx
  | some origin ↦
      if is_origin_allowed origin opts.allow_origins
      then (let ctx' = with_origin opts origin ctx in
          if bytes_beq ctx.request.method (lit "OPTIONS")
          then preflight opts ctx'
          else next (expose opts ctx'))
      else next ctx
]
