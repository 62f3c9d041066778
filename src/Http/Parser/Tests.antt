-- ===== src/Http/Parser/Tests.antt =====
-- Runs of the HTTP parser, and the theorems at them. The Beast of the runs takes eighteen bytes.
use async_uv.Base.{
  ◌^◌, ◌-◌, ◌+◌, ◌<◌, ◌≤◌, ◌≡◌, refl, ◌⊎◌, true, false, none, some, [], ◌∷◌, ◌++◌, leb,
  if◌then◌else◌, arith, length, drop,
}
use async_uv.Base.Bytes.{Bytes, lit, bytes_beq, cut_at, strip_prefix}
use async_uv.Base.Digits.{hexadecimal, digits_onto}
use async_uv.Base.Search.{drop_while, drop_while_back, find_text}
use async_uv.Http.Server.{serialize_chunk, serialize_chunk_end}
use async_uv.Http.Parser.{
  Result, ok, parse_error, runtime_missing, header_count_exceeded, ParserOptions, request, crlf,
  split_lines, trim_copy, parse_header_line, validate_start_line, counted_header, headers_of_lines,
  parse_initial_headers, headers_indicate_chunked,
}
use async_uv.Http.Parser.Numbers.{hex_from, stoull}
use async_uv.Http.Parser.Chunks.{trailers_of_lines, chunk_size, after_chunk, parse_chunks}
use async_uv.Http.Parser.Feed.{
  HttpMessage, Beast, success, need_more, HttpParser, new_parser, attach_body, parse_with_beast,
  try_parse_message, feed_loop, feed, next_message,
}
use async_uv.Http.Parser.Feed.Queue.{TakesSome, Fetched, feed-Fetched}
use async_uv.Http.Parser.Feed.Ends.{WrapsBehind, feed-ends}
use async_uv.Http.Parser.Feed.Limits.{accepted-IsLimited}
use async_uv.Http.Parser.Circles.{parse_chunks-back}
use async_uv.Http.Parser.RoundTrip.{wire, Fits, chunks-parse_chunks}

abbrev options : ParserOptions
options = record {
  max_body_in_memory = 100;
  max_header_count = 2;
  max_header_line_size = 20;
  max_start_line_size = 20;
}

abbrev eighteen : Beast
eighteen is_request text = record {
  error = if leb 18 (length text) then success else need_more;
  is_done = leb 18 (length text);
  consumed = if leb 18 (length text) then 18 else 0;
  message = record {
    method_string = lit "GET";
    target = lit "/";
    version = 11;
    result_int = 0;
    reason = [];
    body = [];
  };
}

abbrev get : Bytes
get = lit "GET / HTTP/1.1" ++ (crlf ++ crlf)

abbrev parser : HttpParser
parser = new_parser request options

running : Unit {0}
unfolding bytes_beq cut_at strip_prefix hexadecimal digits_onto drop_while drop_while_back find_text
    serialize_chunk serialize_chunk_end split_lines trim_copy parse_header_line validate_start_line
    counted_header headers_of_lines parse_initial_headers headers_indicate_chunked hex_from stoull
    trailers_of_lines chunk_size after_chunk parse_chunks attach_body parse_with_beast
    try_parse_message feed_loop feed next_message
running = tt

stoull_prefix : stoull (lit "0x1Fz") ≡ some 31
unfolding running
stoull_prefix = refl

stoull_negative : stoull (lit "-1") ≡ some (2 ^ 64 - 1)
unfolding running
stoull_negative = refl

abbrev first_get : HttpMessage
first_get = record {
  is_request = true;
  method = lit "GET";
  url = lit "/";
  status_code = 0;
  reason = [];
  http_major = 1;
  http_minor = 1;
  headers = [];
  trailers = [];
  body = [];
  body_file = none;
  body_size = 0;
}

-- Two messages at once, and the start of a third.
abbrev fed : HttpParser
fed = record parser { ready = first_get ∷ first_get ∷ []; pending = lit "GET" }

feeds : feed eighteen 5 5 true (get ++ (get ++ lit "GET")) parser ≡ some (fed, ok tt)
unfolding running
feeds = refl

gives_in_order : next_message fed ≡ (some first_get, record fed { ready = first_get ∷ [] })
unfolding running
gives_in_order = refl

-- Without a runtime nothing of the chunk is kept.
feeds_nothing : feed eighteen 5 5 false get fed ≡ some (fed, parse_error runtime_missing)
unfolding running
feeds_nothing = refl

abbrev fed_text : Bytes
fed_text = get ++ (get ++ lit "GET")

feed-Fetched_example :
    ((true ≡ false)
      × (fed ≡ parser)
      × ◌≡◌ {A = Result (Unit {0})} (ok tt) (parse_error runtime_missing))
    ⊎ ((true ≡ true) × Fetched eighteen 5 (record parser { pending = [] ++ fed_text }) fed (ok tt))
feed-Fetched_example = feed-Fetched eighteen 5 5 true fed_text parser fed (ok tt) feeds

eighteen-TakesSome : TakesSome eighteen
eighteen-TakesSome is_request text complete =
    let long : 18 ≤ length text = ground (arith, complete) in rw complete (omega arith, long)

feed-ends_example :
    ((q : HttpParser) × ((r : Result (Unit {0})) × (feed eighteen 40 40 true (get ++ get) parser
          ≡ some (q, r))))
    ⊎ WrapsBehind eighteen 40 request options ([] ++ (get ++ get))
feed-ends_example =
    feed-ends eighteen eighteen-TakesSome 40 40 true (get ++ get) parser (omega arith) (omega arith)

abbrev chunked_body : Bytes
chunked_body =
    lit "2;x=y"
    ++ (crlf ++ (lit "hi" ++ (crlf ++ (lit "0" ++ (crlf ++ (lit "t: 1" ++ (crlf ++ crlf)))))))

reads_head :
    parse_initial_headers options (lit "te:  x ") 0
    ≡ ok (record { name = lit "te"; value = lit "x" } ∷ [], 1)
unfolding running
reads_head = refl

reads_trailers :
    parse_chunks 3 options chunked_body 0 1
    ≡ some (ok (record { name = lit "t"; value = lit "1" } ∷ [], 2))
unfolding running
reads_trailers = refl

counts_trailers : parse_chunks 3 options chunked_body 0 2 ≡ some (parse_error header_count_exceeded)
unfolding running
counts_trailers = refl

-- Takes all of the text. The request has a chunk and a trailer.
abbrev takes_all : Beast
takes_all is_request text = record (eighteen is_request text) {
  error = success;
  is_done = true;
  consumed = length text;
}

abbrev wide : ParserOptions
wide = record options { max_header_line_size = 40 }

abbrev chunked_request : Bytes
chunked_request =
    lit "GET / HTTP/1.1"
    ++ (crlf ++ (lit "Transfer-Encoding: chunked" ++ (crlf ++ (crlf ++ chunked_body))))

abbrev chunked_get : HttpMessage
chunked_get = record first_get {
  headers = record { name = lit "Transfer-Encoding"; value = lit "chunked" } ∷ [];
  trailers = record { name = lit "t"; value = lit "1" } ∷ [];
}

accepts_trailers :
    try_parse_message takes_all 9 request wide chunked_request ≡ some (ok (some (chunked_get, [])))
unfolding running
accepts_trailers = refl

accepted-IsLimited_example : 1 + 1 ≤ 2
accepted-IsLimited_example =
    accepted-IsLimited takes_all wide (omega arith) 9 request chunked_request chunked_get []
      accepts_trailers

chunks_are_short : length (lit "head" ++ (wire (lit "ab" ∷ lit "c" ∷ []) ++ get)) < 2 ^ 64
unfolding running
chunks_are_short = omega arith

ab-Fits : Fits options (lit "ab")
unfolding running
ab-Fits = (omega arith, refl)

c-Fits : Fits options (lit "c")
unfolding running
c-Fits = (omega arith, refl)

chunks-parse_chunks_example :
    parse_chunks 3 options (lit "head" ++ (wire (lit "ab" ∷ lit "c" ∷ []) ++ get)) 4 1
    ≡ some (ok ([], 1))
chunks-parse_chunks_example =
    chunks-parse_chunks options (lit "ab" ∷ lit "c" ∷ []) (lit "head") get 1 3 chunks_are_short
      (ab-Fits, (c-Fits, tt)) refl (omega arith)

-- The size is 2 ^ 64 - 20, on a line of sixteen bytes.
abbrev circle : Bytes
circle = crlf ++ (lit "ffffffffffffffec" ++ crlf)

circle_size : chunk_size options (lit "ffffffffffffffec") ≡ ok (2 ^ 64 - 20)
unfolding running
circle_size = refl

circle_line : find_text crlf (drop 2 circle) ≡ some (lit "ffffffffffffffec", [])
unfolding running
circle_line = refl

parse_chunks-back_example : parse_chunks 1000 options circle 2 0 ≡ none
parse_chunks-back_example =
    parse_chunks-back 1000 options circle (lit "ffffffffffffffec") [] 0 (2 ^ 64 - 20) 0 refl
      circle_line circle_size refl (omega arith) (omega arith)
