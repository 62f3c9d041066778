-- ===== src/Http/Client.antt =====
-- layer2/src/http.cpp: what the HTTP client decides about methods, headers, redirects and retries.
-- Durations are natural numbers of milliseconds and do not overflow.
pub mod Cookies
pub mod Retry
pub mod Formats
pub mod SetCookie
mod Tests
use async_uv.Base.{
  ℕ, zero, suc, ◌+◌, ◌*◌, ◌-◌, ◌^◌, Bool, true, false, not, ◌&&◌, ◌||◌, Option, none, some, List,
  [], ◌∷◌, ◌++◌, ◌==◌, ltb, leb, if◌then◌else◌, ◌=?◌,
}
use async_uv.Base.Bytes.{Bytes, bytes_eq, bytes_beq, lit, to_upper_byte, to_lower_byte}
use async_uv.Http.Server.{Header}

pub data TransportErrorKind : Type 0 where
  no_error timeout dns tls connect send recv reset unknown : TransportErrorKind

pub data HttpErrorCode : Type 0 where
  invalid_request curl_failure http_status_failure : HttpErrorCode

pub record HttpError : Type 0 where
  pub code : HttpErrorCode
  pub status_code : ℕ
  pub transport_kind : TransportErrorKind

pub record RetryPolicy : Type 0 where
  pub enabled : Bool
  pub max_attempts : ℕ
  pub retry_idempotent_only : Bool
  pub base_backoff : ℕ
  pub max_backoff : ℕ
  pub retry_on_http_5xx : Bool

unfoldable pub is_idempotent_method : Bytes → Bool
is_idempotent_method m =
    m =? lit "GET"
    || (m =? lit "HEAD" || (m =? lit "PUT" || (m =? lit "DELETE" || m =? lit "OPTIONS")))

abbrev pub is_retried_kind : TransportErrorKind → Bool
is_retried_kind kind = elim kind [
  | no_error ↦ false
  | timeout ↦ true
  | dns ↦ true
  | connect ↦ true
  | tls ↦ false
  | send ↦ true
  | recv ↦ true
  | reset ↦ true
  | unknown ↦ false
]

abbrev pub is_retried_error : RetryPolicy → HttpError → Bool
is_retried_error policy error = elim error.code [
  | http_status_failure ↦
      policy.retry_on_http_5xx && (leb 500 error.status_code && leb error.status_code 599)
  | curl_failure ↦ is_retried_kind error.transport_kind
  | invalid_request ↦ false
]

unfoldable pub should_retry_error : RetryPolicy → HttpError → Bytes → ℕ → Bool
unfolding is_idempotent_method
should_retry_error policy error method attempt_index =
    if not policy.enabled || ltb policy.max_attempts attempt_index
    then false
    else if policy.retry_idempotent_only && not (is_idempotent_method method)
    then false
    else is_retried_error policy error

-- The loop of `retry_backoff`: a factor above 2 ^ 20 is not doubled again.
unfoldable pub backoff_factor : ℕ → ℕ → ℕ
backoff_factor zero factor = factor
backoff_factor (suc rounds) factor =
    let more = backoff_factor rounds (factor * 2) in
    if ltb (2 ^ 20) (factor * 2) then factor * 2 else more

unfoldable pub retry_backoff : RetryPolicy → ℕ → ℕ
unfolding backoff_factor
retry_backoff policy attempt_index =
    let value = policy.base_backoff * backoff_factor (attempt_index - 1) 1 in
    if ltb policy.max_backoff value then policy.max_backoff else value

unfoldable pub equals_ci : Bytes → Bytes → Bool
equals_ci [] [] = true
equals_ci [] (_ ∷ _) = false
equals_ci (_ ∷ _) [] = false
equals_ci (a ∷ s) (b ∷ t) = to_lower_byte a == to_lower_byte b && equals_ci s t

unfoldable pub find_header_value : List Header → Bytes → Option Bytes
unfolding equals_ci
find_header_value [] name = none
find_header_value (h ∷ headers) name =
    if equals_ci h.name name then some h.value else find_header_value headers name

unfoldable pub erase_header : List Header → Bytes → List Header
unfolding equals_ci
erase_header [] name = []
erase_header (h ∷ headers) name =
    if equals_ci h.name name then erase_header headers name else h ∷ erase_header headers name

unfoldable pub set_or_replace_header : List Header → Bytes → Bytes → List Header
unfolding equals_ci
set_or_replace_header [] name value = record { name = name; value = value } ∷ []
set_or_replace_header (h ∷ headers) name value =
    if equals_ci h.name name
    then record h { value = value } ∷ headers
    else h ∷ set_or_replace_header headers name value

abbrev pub is_redirect_status : ℕ → Bool
is_redirect_status c = c == 301 || (c == 302 || (c == 303 || (c == 307 || c == 308)))

unfoldable pub should_switch_to_get_on_redirect : ℕ → Bytes → Bool
unfolding equals_ci
should_switch_to_get_on_redirect status_code method =
    status_code == 303
    || ((status_code == 301 || status_code == 302) && equals_ci method (lit "POST"))
