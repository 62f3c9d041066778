-- ===== src/Http/Tests.antt =====
-- Runs of the server's functions, and the theorems at them.
use async_uv.Base.{ℕ, ◌<◌, ◌≤◌, ◌≡◌, refl, ◌↔◌, true, false, none, some, [], ◌∷◌, ◌++◌}
use async_uv.Base.Bytes.{Bytes, lit, bytes_beq}
use async_uv.Base.Digits.{decimal, hexadecimal, digits_onto}
use async_uv.Http.Server.{
  ServerRequest, ServerResponse, ServerLimits, ServerConnectionPolicy, ServerConnectionState,
  Handler, MiddlewareChain, find_header, has_header_ci, headers_too_large, validate_request,
  serialize_chunk, serialize_chunk_end, status_reason, added_lines, body_text, serialize_response,
  should_keep_alive, wrap, run, crlf,
}
use async_uv.Http.Server.Limits.{MeetsLimits, validate_request_iff, validate_request_refused}
use async_uv.Http.Server.Chain.{nest, run-nest}

abbrev index_page : ServerRequest
index_page = record {
  method = lit "GET";
  raw_target = lit "/";
  target = record { path = lit "/"; query_items = []; fragment = none };
  headers = record { name = lit "connection"; value = lit "Keep-Alive" } ∷ [];
  body = [];
  body_size = 0;
  http_major = 1;
  http_minor = 0;
  meta = record { remote_address = []; deadline = some 100; cancelled = false };
}

abbrev limits : ServerLimits
limits = record {
  max_header_count = 1;
  max_header_bytes = 24;
  max_body_bytes = 0;
  max_target_bytes = 1;
  max_method_bytes = 3;
}

abbrev greeting : ServerResponse
greeting = record {
  status_code = 200;
  reason = [];
  headers = [];
  body = lit "hi";
  keep_alive = true;
  chunked = true;
}

abbrev policy : ServerConnectionPolicy
policy = record { keep_alive_enabled = true; max_keep_alive_requests = 3 }

abbrev first : ServerConnectionState
first = record { handled_requests = 0 }

running : Unit {0}
unfolding bytes_beq decimal hexadecimal digits_onto find_header has_header_ci headers_too_large
    validate_request serialize_chunk serialize_chunk_end status_reason added_lines body_text
    serialize_response should_keep_alive wrap run
running = tt

accepted_in_time : (validate_request 99 index_page limits).ok ≡ true
unfolding running
accepted_in_time = refl

chunk_written :
    serialize_chunk (lit "hello, chunked world")
    ≡ lit "14" ++ (crlf ++ (lit "hello, chunked world" ++ crlf))
unfolding running
chunk_written = refl

validate_request_iff_example :
    ((validate_request 99 index_page limits).ok ≡ true) ↔ MeetsLimits 99 index_page limits
validate_request_iff_example = validate_request_iff 99 index_page limits

validate_request_refused_example :
    let result = validate_request 100 index_page limits in
    (result.close_connection ≡ true) × (400 ≤ result.status_code) × (result.status_code < 500)
unfolding running
validate_request_refused_example = validate_request_refused 100 index_page limits refl

-- The header is compared as a whole.
kept_in_spite_of_close :
    let request = record index_page {
      headers = record { name = lit "Connection"; value = lit "close, TE" } ∷ [];
      http_minor = 1;
    } in
    should_keep_alive request greeting policy first ≡ true
unfolding running
kept_in_spite_of_close = refl

-- Middlewares that put a number in front of the path that the response is.
abbrev stamp : ℕ → ServerRequest → Handler Bytes → Bytes
stamp n request next = n ∷ next request

abbrev chain : MiddlewareChain Bytes
chain = record { middlewares = stamp 1 ∷ stamp 2 ∷ []; last = some (λ request. request.raw_target) }

run-nest_example :
    run chain index_page
    ≡ some (nest (stamp 1 ∷ stamp 2 ∷ []) (λ request. request.raw_target) index_page)
run-nest_example = run-nest chain (λ request. request.raw_target) index_page refl
