-- ===== src/Http/Parser/Feed.antt =====
-- layer2/src/parser.cpp: HttpParser. Boost.Beast's parser is a parameter, and so is whether there
-- is a runtime. The file that a large body is written to is the text that it holds; that it can be
-- written is assumed. The loop over chunks takes fuel, see Chunks.
pub mod Queue
pub mod Ends
pub mod Limits
use async_uv.Base.{
  ℕ, zero, suc, ◌+◌, ◌/◌, ◌%◌, Bool, true, false, not, ◌&&◌, ◌||◌, Option, none, some, List, [],
  ◌∷◌, ◌++◌, ltb, if◌then◌else◌, length, take, drop,
}
use async_uv.Base.Bytes.{Bytes, bytes_beq, lit, strip_prefix}
use async_uv.Base.Search.{find_text}
use async_uv.Http.Server.{Header}
use async_uv.Http.Parser.{
  ParseErrorKind, runtime_missing, protocol, Result, ok, parse_error, out_of_range, ◌>>=◌,
  ParserOptions, ParseMode, request, response, crlf, exceeds_limit, validate_start_line,
  parse_initial_headers, headers_indicate_chunked,
}
use async_uv.Http.Parser.Chunks.{parse_chunks}

pub record HttpMessage : Type 0 where
  pub is_request : Bool
  pub method : Bytes
  pub url : Bytes
  pub status_code : ℕ
  pub reason : Bytes
  pub http_major : ℕ
  pub http_minor : ℕ
  pub headers : List Header
  pub trailers : List Header
  pub body : Bytes
  pub body_file : Option Bytes
  pub body_size : ℕ

-- What Beast releases.
pub record BeastMessage : Type 0 where
  pub method_string : Bytes
  pub target : Bytes
  pub version : ℕ
  pub result_int : ℕ
  pub reason : Bytes
  pub body : Bytes

pub data BeastError : Type 0 where
  success need_more : BeastError
  failure : ℕ → BeastError

-- `put` on all that is pending: the error, `is_done`, how much was consumed, and the message.
pub record BeastResult : Type 0 where
  pub error : BeastError
  pub is_done : Bool
  pub consumed : ℕ
  pub message : BeastMessage

-- For requests (true) and for responses.
abbrev pub Beast : Type 0
Beast = Bool → Bytes → BeastResult

-- The ready messages and the text that waits, beside the fixed mode and options.
pub record HttpParser : Type 0 where
  pub mode : ParseMode
  pub options : ParserOptions
  pub ready : List HttpMessage
  pub pending : Bytes

abbrev pub new_parser : ParseMode → ParserOptions → HttpParser
new_parser mode options = record { mode = mode; options = options; ready = []; pending = [] }

unfoldable pub attach_body : ParserOptions → Bytes → HttpMessage → HttpMessage
attach_body options body message =
    if exceeds_limit options.max_body_in_memory (length body)
    then record message { body = []; body_file = some body; body_size = length body }
    else record message { body = body; body_size = length body }

abbrev pub message_of : Bool → BeastMessage → List Header → List Header → HttpMessage
message_of is_request m headers trailers = record {
  is_request = is_request;
  method = if is_request then m.method_string else [];
  url = if is_request then m.target else [];
  status_code = if is_request then 0 else m.result_int;
  reason = if is_request then [] else m.reason;
  http_major = m.version / 10;
  http_minor = m.version % 10;
  headers = headers;
  trailers = trailers;
  body = [];
  body_file = none;
  body_size = 0;
}

-- No message yet, or a message and what is pending behind it.
abbrev pub Parsed : Type 0
Parsed = Option (HttpMessage × Bytes)

abbrev refused : BeastError → Bool
refused success = false
refused need_more = false
refused (failure code) = true

abbrev wants_more : BeastError → Bool
wants_more success = false
wants_more need_more = true
wants_more (failure code) = false

abbrev finish :
    ParserOptions
    → Bool
    → BeastResult
    → List Header
    → Bytes
    → Result (List Header × ℕ)
    → Result Parsed
finish options is_request r headers pending trailers = trailers >>= λ t. ok (
    some (
      attach_body options r.message.body (message_of is_request r.message headers t.0),
      drop r.consumed pending,
    ))

abbrev finished :
    Option (Result (List Header × ℕ))
    → (Result (List Header × ℕ) → Result Parsed)
    → Option (Result Parsed)
finished none f = none
finished (some trailers) f = some (f trailers)

module _ (beast : Beast) where
  unfoldable pub parse_with_beast :
      ℕ → ParserOptions → Bytes → Bool → List Header → ℕ → ℕ → Option (Result Parsed)
  unfolding headers_indicate_chunked parse_chunks attach_body
  parse_with_beast fuel options pending is_request headers count body_offset =
      let r = beast is_request pending in
      if wants_more r.error || not r.is_done
      then some (ok none)
      else if refused r.error
      then some (parse_error protocol)
      else if headers_indicate_chunked headers
      then finished (parse_chunks fuel options (take r.consumed pending) body_offset count)
          (finish options is_request r headers pending)
      else some (finish options is_request r headers pending (ok ([], count)))

  abbrev starts_http : Bytes → Bool
  starts_http line = elim (strip_prefix (lit "HTTP/") line) [ none ↦ false | some _ ↦ true ]

  -- The headers behind the first line, if there is a second.
  abbrev initial_headers : ParserOptions → Option (Bytes × Bytes) → Result (List Header × ℕ)
  initial_headers options none = ok ([], 0)
  initial_headers options (some (line, block)) = parse_initial_headers options block 0

  abbrev start_line : Bytes → Option (Bytes × Bytes) → Bytes
  start_line head none = head
  start_line head (some (line, block)) = line

  -- The text is no response although a response is expected, as soon as five bytes show it.
  abbrev is_no_response : ParseMode → Bytes → Bool
  is_no_response request pending = false
  is_no_response response pending = ltb 4 (length pending) && not (starts_http pending)

  -- The rest of `try_parse_message`, once the headers are read.
  abbrev pub with_headers :
      ℕ → ParserOptions → Bytes → Bool → ℕ → Result (List Header × ℕ) → Option (Result Parsed)
  with_headers fuel options pending is_request body_offset (ok (headers, count)) =
      parse_with_beast fuel options pending is_request headers count body_offset
  with_headers fuel options pending is_request body_offset (parse_error k) = some (parse_error k)
  with_headers fuel options pending is_request body_offset out_of_range = some out_of_range

  abbrev pub when_valid : Result (Unit {0}) → Option (Result Parsed) → Option (Result Parsed)
  when_valid (ok _) rest = rest
  when_valid (parse_error k) rest = some (parse_error k)
  when_valid out_of_range rest = some out_of_range

  unfoldable pub try_parse_message : ℕ → ParseMode → ParserOptions → Bytes → Option (Result Parsed)
  unfolding find_text strip_prefix validate_start_line parse_initial_headers parse_with_beast
  try_parse_message fuel mode options pending = elim (find_text (crlf ++ crlf) pending) [
    | none ↦ some (if is_no_response mode pending then parse_error protocol else ok none)
    | some (head, behind) ↦
        let cut = find_text crlf head in
        let line = start_line head cut in
        when_valid (validate_start_line options mode line (starts_http line)) (
          with_headers fuel options pending (not (starts_http line)) (length head + 4)
            (initial_headers options cut))
  ]

  -- How `feed` ends: the parser as it is left, and the exception.
  abbrev pub Fed : Type 0
  Fed = HttpParser × Result (Unit {0})

  -- A round of the loop of `feed`, and then the rest of the rounds.
  abbrev pub feed_round :
      HttpParser → (HttpParser → Option Fed) → Option (Result Parsed) → Option Fed
  feed_round p more none = none
  feed_round p more (some (parse_error k)) = some (p, parse_error k)
  feed_round p more (some out_of_range) = some (p, out_of_range)
  feed_round p more (some (ok none)) = some (p, ok tt)
  feed_round p more (some (ok (some (message, rest)))) =
      more (record p { ready = p.ready ++ message ∷ []; pending = rest })

  -- The loop of `feed`; none if the fuel does not last.
  unfoldable pub feed_loop : ℕ → ℕ → HttpParser → Option Fed
  unfolding try_parse_message
  feed_loop zero fuel p = none
  feed_loop (suc rounds) fuel p =
      feed_round p (feed_loop rounds fuel) (try_parse_message fuel p.mode p.options p.pending)

  -- Without a runtime nothing is appended. The temporary directory falls back to "." and so is
  -- no reason to fail.
  unfoldable pub feed : ℕ → ℕ → Bool → Bytes → HttpParser → Option Fed
  unfolding feed_loop
  feed rounds fuel has_runtime chunk p =
      let fed = feed_loop rounds fuel (record p { pending = p.pending ++ chunk }) in
      if has_runtime then fed else some (p, parse_error runtime_missing)

abbrev pub has_message : HttpParser → Bool
has_message p = elim p.ready [ [] ↦ false | _ ∷ _ ↦ true ]

unfoldable pub next_message : HttpParser → Option HttpMessage × HttpParser
next_message p = elim p.ready [
  | [] ↦ (none, p)
  | message ∷ rest ↦ (some message, record p { ready = rest })
]

abbrev pub reset : HttpParser → HttpParser
reset p = record p { ready = []; pending = [] }
