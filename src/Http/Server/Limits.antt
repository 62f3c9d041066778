-- ===== src/Http/Server/Limits.antt =====
-- Which requests `validate_request` lets through.
use async_uv.Base.{
  ℕ, ◌+◌, ◌≤◌, ◌<◌, ◌≡◌, refl, ◌↔◌, inl, inr, true, false, List, [], ◌∷◌, arith, ltb, Bool-cases,
  length,
}
use async_uv.Base.Bytes.{Bytes, is_empty}
use async_uv.Http.Server.{
  Header, ServerRequest, ServerLimits, passed, headers_too_large, validate_request,
}

-- What the headers take on the wire, four bytes for `: ` and the line's end included.
abbrev pub header_bytes : List Header → ℕ
header_bytes [] = 0
header_bytes (h ∷ headers) = length h.name + length h.value + 4 + header_bytes headers

headers_too_large-false_iff :
    (limit bytes : ℕ) (headers : List Header)
    → bytes ≤ limit
    → (headers_too_large limit bytes headers ≡ false) ↔ (bytes + header_bytes headers ≤ limit)
unfolding headers_too_large
headers_too_large-false_iff limit bytes [] h = (λ _. omega arith, λ _. refl)
headers_too_large-false_iff limit bytes (x ∷ headers) h =
    let bytes' = bytes + length x.name + length x.value + 4 in
    elim (Bool-cases (ltb limit bytes')) [
      | inl over ↦ rw over (λ e. cc, λ le. absurd (ground (arith, over, le)))
      | inr fits ↦
          let ih = headers_too_large-false_iff limit bytes' headers (ground (arith, fits)) in
          rw fits (λ e. omega (arith, ih.0 e), λ le. ih.1 (omega (arith, le)))
    ]

-- What a request must meet.
pub record MeetsLimits (now : ℕ) (request : ServerRequest) (limits : ServerLimits) : Type 0 where
  pub live : request.meta.cancelled ≡ false
  pub in_time : passed request.meta.deadline now ≡ false
  pub has_method : 0 < length request.method
  pub method : length request.method ≤ limits.max_method_bytes
  pub target : length request.raw_target ≤ limits.max_target_bytes
  pub count : length request.headers ≤ limits.max_header_count
  pub headers : header_bytes request.headers ≤ limits.max_header_bytes
  pub body : request.body_size ≤ limits.max_body_bytes

length-is_empty : (s : Bytes) → (is_empty s ≡ false) ↔ (0 < length s)
length-is_empty [] = (λ e. cc, λ h. absurd (omega arith))
length-is_empty (b ∷ s) = (λ e. omega arith, λ h. refl)

-- A request is accepted exactly if it meets every limit.
pub validate_request_iff :
    (now : ℕ) (request : ServerRequest) (limits : ServerLimits)
    → ((validate_request now request limits).ok ≡ true) ↔ MeetsLimits now request limits
unfolding validate_request
validate_request_iff now request limits =
    let size =
      headers_too_large-false_iff limits.max_header_bytes 0 request.headers (omega arith) in
    let some_method = length-is_empty request.method in
    (λ e. ground (arith, size, some_method, e), λ m. ground (arith, size, some_method, m))

-- A request that is refused gets a client error status, and the connection is to be closed.
pub validate_request_refused :
    (now : ℕ) (request : ServerRequest) (limits : ServerLimits)
    → let result = validate_request now request limits in
      result.ok ≡ false
      → (result.close_connection ≡ true) × (400 ≤ result.status_code) × (result.status_code < 500)
unfolding validate_request
validate_request_refused now request limits e = ground (arith, e)
