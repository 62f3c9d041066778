-- ===== src/Middleware/Limits.antt =====
-- layer3: body_limit.hpp, and the middleware of rate_limit.hpp around the limiter (RateLimit). The
-- readings of the clock and the local value `user_id` are arguments; `next` may throw.
pub mod Admission
use async_uv.Base.{
  ℕ, ◌+◌, ◌/◌, ◌≡◌, refl, Bool, true, false, Option, none, some, List, [], ◌∷◌, ◌++◌, ltb,
  if◌then◌else◌, ◌=?◌, Bool-cases, inl, inr,
}
use async_uv.Base.Bytes.{Bytes, bytes_eq, bytes_beq, lit, cut_at}
use async_uv.Base.Digits.{decimal}
use async_uv.RateLimit.{Limiter, cleanup, try_consume, remaining, reset_after}
use async_uv.Middleware.Context.{Context, header, set, status, json_raw, header_in}

-- FrameworkError: the code, the message and the details.
pub record FrameworkError : Type 0 where
  pub code : ℕ
  pub message : Bytes
  pub details : Bytes

-- The context as it is left, and what is thrown.
abbrev pub Handled : Type 0
Handled = Context × Option FrameworkError

pub record BodyLimitOptions : Type 0 where
  pub max_bytes : ℕ
  pub reject_on_limit : Bool

unfoldable pub body_limit : Context → BodyLimitOptions → (Context → Handled) → Handled
unfolding decimal status json_raw
body_limit ctx options next =
    if ltb options.max_bytes ctx.request.body_size
    then if options.reject_on_limit
      then (
        ctx,
        some (record {
          code = 413;
          message = lit "Request body too large";
          details = lit "Maximum allowed: " ++ (decimal options.max_bytes ++ lit " bytes");
        }),
      )
      else (json_raw (lit "{\"error\":\"Payload Too Large\"}") (status 413 ctx), none)
    else next ctx

unfoldable pub extract_ip : Context → Bytes
unfolding header_in cut_at
extract_ip ctx = elim (header (lit "X-Forwarded-For") ctx) [
  | some forward ↦ (cut_at b',' forward).0
  | none ↦ elim (header (lit "X-Real-IP") ctx) [
    | some real_ip ↦ real_ip
    | none ↦ ctx.request.meta.remote_address
  ]
]

unfoldable pub extract_user : Option Bytes → Context → Bytes
unfolding extract_ip
extract_user none ctx = extract_ip ctx
extract_user (some user_id) ctx = user_id

-- The options of the middleware, which need not be those of the limiter.
pub record RateLimitOptions : Type 0 where
  pub max_requests : ℕ
  pub key_extractor : Bytes
  pub include_headers : Bool
  pub message : Bytes

-- What each call of the limiter reads, in the order of the calls.
pub record Readings : Type 0 where
  pub at_cleanup : ℕ
  pub at_consume : ℕ
  pub at_remaining : ℕ
  pub at_reset : ℕ

unfoldable pub rate_headers : Bytes → RateLimitOptions → Readings → Limiter → Context → Context
unfolding decimal set remaining reset_after
rate_headers key options now limiter ctx =
    set (lit "X-RateLimit-Reset") (decimal (reset_after key now.at_reset limiter / 1000)) (
      set (lit "X-RateLimit-Remaining") (decimal (remaining key now.at_remaining limiter))
        (set (lit "X-RateLimit-Limit") (decimal options.max_requests) ctx))

unfoldable pub refuse : Bytes → RateLimitOptions → Readings → Limiter → Context → Handled
unfolding rate_headers
refuse key options now limiter ctx =
    let with_rate = rate_headers key options now limiter ctx in
    let with_retry =
      set (lit "Retry-After") (decimal (reset_after key now.at_reset limiter / 1000)) with_rate in
    (
      if options.include_headers then with_retry else ctx,
      some (record { code = 429; message = options.message; details = [] }),
    )

-- The key whose window the middleware counts in.
abbrev pub key_of : RateLimitOptions → Option Bytes → Context → Bytes
key_of options user_id ctx =
    if options.key_extractor =? lit "user" then extract_user user_id ctx else extract_ip ctx

unfoldable pub rate_limit :
    Option Bytes
    → Readings
    → Context
    → Limiter
    → RateLimitOptions
    → (Context → Handled)
    → Limiter × Handled
unfolding bytes_beq extract_user cleanup try_consume refuse
rate_limit user_id now ctx limiter options next =
    let key = key_of options user_id ctx in
    let (limiter', allowed) = try_consume key now.at_consume (cleanup now.at_cleanup limiter) in
    let passed =
      next (if options.include_headers then rate_headers key options now limiter' ctx else ctx) in
    if allowed then (limiter', passed) else (limiter', refuse key options now limiter' ctx)
