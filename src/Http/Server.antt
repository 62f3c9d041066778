-- ===== src/Http/Server.antt =====
-- layer2/src/server.cpp: request limits, the response on the wire, keep-alive, and the middleware
-- chain. Sizes are std::size_t without overflow: they count bytes in memory.

pub mod Limits
pub mod Chain
use Prim.Native.String.{String}
use mathlib.Core.List.{reverse}
use async_uv.Base.{
  ℕ, zero, suc, ◌+◌, Bool, true, false, not, ◌&&◌, ◌||◌, Option, none, some, List, [], ◌∷◌, ◌++◌,
  map, ◌==◌, ltb, leb, if◌then◌else◌, length, ◌=?◌,
}
use async_uv.Base.Bytes.{Bytes, bytes_eq, bytes_beq, lit, is_empty, to_lower_byte}
use async_uv.Base.Digits.{decimal, hexadecimal}
use async_uv.Http.Target.{RequestTarget}

pub record Header : Type 0 where
  pub name : Bytes
  pub value : Bytes

pub record RequestContextMeta : Type 0 where
  pub remote_address : Bytes
  pub deadline : Option ℕ
  pub cancelled : Bool

pub record ServerRequest : Type 0 where
  pub method : Bytes
  pub raw_target : Bytes
  pub target : RequestTarget
  pub headers : List Header
  pub body : Bytes
  pub body_size : ℕ
  pub http_major : ℕ
  pub http_minor : ℕ
  pub meta : RequestContextMeta

pub record ServerResponse : Type 0 where
  pub status_code : ℕ
  pub reason : Bytes
  pub headers : List Header
  pub body : Bytes
  pub keep_alive : Bool
  pub chunked : Bool

pub record ServerLimits : Type 0 where
  pub max_header_count : ℕ
  pub max_header_bytes : ℕ
  pub max_body_bytes : ℕ
  pub max_target_bytes : ℕ
  pub max_method_bytes : ℕ

pub record ServerConnectionPolicy : Type 0 where
  pub keep_alive_enabled : Bool
  pub max_keep_alive_requests : ℕ

pub record ServerConnectionState : Type 0 where
  pub handled_requests : ℕ

pub record ValidationResult : Type 0 where
  pub ok : Bool
  pub status_code : ℕ
  pub close_connection : Bool
  pub message : Bytes

abbrev pub to_lower : Bytes → Bytes
to_lower s = map to_lower_byte s

-- `ServerRequest::header`: the first header of the name, whatever its case.
unfoldable pub find_header : Bytes → List Header → Option Bytes
unfolding bytes_beq
find_header name [] = none
find_header name (h ∷ headers) =
    if to_lower h.name =? to_lower name then some h.value else find_header name headers

unfoldable pub has_header_ci : Bytes → List Header → Bool
unfolding bytes_beq
has_header_ci name [] = false
has_header_ci name (h ∷ headers) =
    if to_lower h.name =? to_lower name then true else has_header_ci name headers

abbrev pub passed : Option ℕ → ℕ → Bool
passed none now = false
passed (some deadline) now = leb deadline now

abbrev refusal : ℕ → String → ValidationResult
refusal status message = record {
  ok = false;
  status_code = status;
  close_connection = true;
  message = lit message;
}

abbrev accepted : ValidationResult
accepted = record { ok = true; status_code = 200; close_connection = false; message = [] }

-- The loop over the headers, which stops when the bytes so far exceed the limit.
unfoldable pub headers_too_large : ℕ → ℕ → List Header → Bool
headers_too_large limit bytes [] = false
headers_too_large limit bytes (h ∷ headers) =
    let bytes' = bytes + length h.name + length h.value + 4 in
    let rest = headers_too_large limit bytes' headers in if ltb limit bytes' then true else rest

-- `now` is the reading of the clock by `meta.expired()`.
unfoldable pub validate_request : ℕ → ServerRequest → ServerLimits → ValidationResult
validate_request now request limits =
    if request.meta.cancelled || passed request.meta.deadline now
    then refusal 408 "request timeout or cancelled"
    else if is_empty request.method || ltb limits.max_method_bytes (length request.method)
    then refusal 400 "invalid request method"
    else if ltb limits.max_target_bytes (length request.raw_target)
    then refusal 414 "request target too long"
    else if ltb limits.max_header_count (length request.headers)
    then refusal 431 "too many headers"
    else if headers_too_large limits.max_header_bytes 0 request.headers
    then refusal 431 "headers too large"
    else if ltb limits.max_body_bytes request.body_size
    then refusal 413 "payload too large"
    else accepted

abbrev pub crlf : Bytes
crlf = 13 ∷ 10 ∷ []

unfoldable pub serialize_chunk : Bytes → Bytes
unfolding hexadecimal
serialize_chunk chunk = hexadecimal (length chunk) ++ (crlf ++ (chunk ++ crlf))

unfoldable pub serialize_chunk_end : Bytes
serialize_chunk_end = b'0' ∷ (crlf ++ crlf)

unfoldable pub status_reason : ℕ → Bytes
status_reason c =
    if c == 100
    then lit "Continue"
    else if c == 200
    then lit "OK"
    else if c == 201
    then lit "Created"
    else if c == 204
    then lit "No Content"
    else if c == 301
    then lit "Moved Permanently"
    else if c == 302
    then lit "Found"
    else if c == 304
    then lit "Not Modified"
    else if c == 400
    then lit "Bad Request"
    else if c == 401
    then lit "Unauthorized"
    else if c == 403
    then lit "Forbidden"
    else if c == 404
    then lit "Not Found"
    else if c == 405
    then lit "Method Not Allowed"
    else if c == 408
    then lit "Request Timeout"
    else if c == 409
    then lit "Conflict"
    else if c == 413
    then lit "Payload Too Large"
    else if c == 414
    then lit "URI Too Long"
    else if c == 429
    then lit "Too Many Requests"
    else if c == 500
    then lit "Internal Server Error"
    else if c == 502
    then lit "Bad Gateway"
    else if c == 503
    then lit "Service Unavailable"
    else if c == 504
    then lit "Gateway Timeout"
    else lit "Unknown"

abbrev header_line : Header → Bytes
header_line h = h.name ++ (lit ": " ++ (h.value ++ crlf))

abbrev header_lines : List Header → Bytes
header_lines [] = []
header_lines (h ∷ headers) = header_line h ++ header_lines headers

abbrev line_unless : Bool → Bytes → Bytes
line_unless present line = if present then [] else line ++ crlf

-- The lines that `serialize_response` adds to the headers of the response.
unfoldable pub added_lines : ServerResponse → Bytes
unfolding has_header_ci decimal
added_lines r =
    let connection = if r.keep_alive then lit "keep-alive" else lit "close" in
    line_unless (has_header_ci (lit "Connection") r.headers) (lit "Connection: " ++ connection)
    ++ (line_unless (not r.chunked || has_header_ci (lit "Transfer-Encoding") r.headers)
          (lit "Transfer-Encoding: chunked")
        ++ (line_unless (r.chunked || has_header_ci (lit "Content-Length") r.headers)
              (lit "Content-Length: " ++ decimal (length r.body))
            ++ line_unless (has_header_ci (lit "Content-Type") r.headers)
                (lit "Content-Type: text/plain; charset=utf-8")))

unfoldable pub body_text : ServerResponse → Bytes
unfolding serialize_chunk serialize_chunk_end
body_text r =
    if r.chunked
    then (if is_empty r.body then [] else serialize_chunk r.body) ++ serialize_chunk_end
    else r.body

unfoldable pub serialize_response : ServerResponse → Bytes
unfolding status_reason added_lines body_text decimal
serialize_response r =
    let reason = if is_empty r.reason then status_reason r.status_code else r.reason in
    lit "HTTP/1.1 "
    ++ (decimal r.status_code
        ++ (b' ' ∷ reason
            ++ (crlf ++ (header_lines r.headers ++ (added_lines r ++ (crlf ++ body_text r))))))

abbrev pub connection_value : Option Bytes → Bytes
connection_value none = []
connection_value (some v) = to_lower v

unfoldable pub should_keep_alive :
    ServerRequest → ServerResponse → ServerConnectionPolicy → ServerConnectionState → Bool
unfolding find_header bytes_beq
should_keep_alive request response policy state =
    if not policy.keep_alive_enabled || not response.keep_alive
    then false
    else if leb policy.max_keep_alive_requests (state.handled_requests + 1)
    then false
    else let connection = connection_value (find_header (lit "Connection") request.headers) in
      if ltb 1 request.http_major || (request.http_major == 1 && request.http_minor == 1)
      then not (connection =? lit "close")
      else connection =? lit "keep-alive"

-- A middleware gets the request and the rest of the chain. What a handler does besides giving a
-- response is in the result type `R`.
abbrev pub Handler : Type 0 → Type 0
Handler R = ServerRequest → R

pub record MiddlewareChain (R : Type 0) : Type 0 where
  pub middlewares : List (ServerRequest → Handler R → R)
  pub last : Option (Handler R)

module _ {R : Type 0} where
  unfoldable pub use_middleware :
      MiddlewareChain R → (ServerRequest → Handler R → R) → MiddlewareChain R
  use_middleware chain m = record chain { middlewares = chain.middlewares ++ m ∷ [] }

  unfoldable pub endpoint : MiddlewareChain R → Handler R → MiddlewareChain R
  endpoint chain h = record chain { last = some h }

  -- The loop of `run` over the middlewares, last first.
  unfoldable pub wrap : List (ServerRequest → Handler R → R) → Handler R → Handler R
  wrap [] handler = handler
  wrap (m ∷ reversed) handler = wrap reversed (λ request. m request handler)

  -- `none` is the exception for a chain without an endpoint.
  unfoldable pub run : MiddlewareChain R → ServerRequest → Option R
  unfolding wrap
  run chain request = elim chain.last [
    | none ↦ none
    | some handler ↦ some (wrap (reverse chain.middlewares) handler request)
  ]
