-- ===== src/Middleware/Limits/Admission.antt =====
-- Whom the rate limit lets through: the middleware with the limiter that it uses.
use async_uv.Base.{◌<◌, ◌≡◌, refl, ◌⊎◌, true, Option, none, inl, inr, if◌then◌else◌, Bool-cases}
use async_uv.Base.Bytes.{Bytes}
use async_uv.RateLimit.{Limiter, cleanup, try_consume, remaining}
use async_uv.RateLimit.Window.{live, IsValid, cleanup-IsValid}
use async_uv.RateLimit.Views.{try_consume_iff}
use async_uv.Middleware.Context.{Context}
use async_uv.Middleware.Limits.{
  Handled, RateLimitOptions, Readings, key_of, rate_headers, refuse, rate_limit,
}

-- The key has no window that is open, or something remains in it.
abbrev pub Admits : Limiter → Readings → Bytes → Type 0
Admits limiter now key =
    let swept = cleanup now.at_cleanup limiter in
    (live key now.at_consume swept ≡ none) ⊎ (0 < remaining key now.at_consume swept)

abbrev pub counted : Limiter → Readings → Bytes → Limiter
counted limiter now key = (try_consume key now.at_consume (cleanup now.at_cleanup limiter)).0

-- If the key of a request has no open window or something remains in it, the rest of the chain gets
-- the request, with the headers of the window if the options say so; otherwise the request is
-- refused with the code 429, and the rest of the chain is not run. The window is the one that is
-- left when the windows that ended are swept away.
pub rate_limit-Admits :
    (user_id : Option Bytes) (now : Readings) (ctx : Context) (limiter : Limiter)
    (options : RateLimitOptions) (next : Context → Handled)
    → IsValid limiter
    → let key = key_of options user_id ctx in
      let after = counted limiter now key in
      (Admits limiter now key
        → rate_limit user_id now ctx limiter options next ≡ (
          after,
          next (if options.include_headers then rate_headers key options now after ctx else ctx),
        ))
      × ((Admits limiter now key → ⊥)
          → rate_limit user_id now ctx limiter options next
            ≡ (after, refuse key options now after ctx))
unfolding rate_limit
rate_limit-Admits user_id now ctx limiter options next valid =
    let key = key_of options user_id ctx in
    let swept = cleanup now.at_cleanup limiter in
    let allows =
      try_consume_iff key now.at_consume swept (cleanup-IsValid now.at_cleanup limiter valid) in
    elim (Bool-cases (try_consume key now.at_consume swept).1) [
      | inl passes ↦
          (λ _. rw (rate_limit, passes) refl, λ refused. absurd (refused (allows.0 passes)))
      | inr stops ↦ (
        λ admitted.
            let passes : (try_consume key now.at_consume swept).1 ≡ true = allows.1 admitted in cc,
        λ _. rw (rate_limit, stops) refl,
      )
    ]
