-- ===== src/Http/Parser.antt =====
-- layer2/src/parser.cpp: the HTTP parser's own checks of header lines and chunks. `std::size_t` has
-- 64 bits; counters of lines in memory do not wrap, positions that a chunk's size enters do.
pub mod Numbers
pub mod Chunks
pub mod Feed
pub mod Counts
pub mod RoundTrip
pub mod Sizes
pub mod Progress
pub mod Circles
mod Tests
use async_uv.Base.{
  ℕ, zero, suc, ◌+◌, ◌-◌, ◌*◌, ◌%◌, ◌^◌, Bool, true, false, not, ◌&&◌, ◌||◌, Option, none, some,
  List, [], ◌∷◌, ◌++◌, map, ◌==◌, ltb, leb, if◌then◌else◌, length, ◌=?◌,
}
use async_uv.Base.Bytes.{Bytes, bytes_eq, bytes_beq, lit, cut_at, is_empty, to_upper_byte}
use async_uv.Base.Search.{drop_while, drop_while_back, find_text}
use async_uv.Http.Server.{Header, to_lower}

pub data ParseErrorKind : Type 0 where
  unknown runtime_missing protocol header_count_exceeded header_line_too_long start_line_too_long :
      ParseErrorKind

-- What parsing gives: a value, a ParseError by its kind, or std::out_of_range of `substr`.
pub data Result (A : Type 0) : Type 0 where
  out_of_range : Result A
  parse_error : ParseErrorKind → Result A
  ok : A → Result A

-- An exception leaves out what follows.
infixl 5 ◌>>=◌
abbrev pub ◌>>=◌ : {A B : Type 0} → Result A → (A → Result B) → Result B
out_of_range >>= next = out_of_range
parse_error kind >>= next = parse_error kind
ok value >>= next = next value

pub record ParserOptions : Type 0 where
  pub max_body_in_memory : ℕ
  pub max_header_count : ℕ
  pub max_header_line_size : ℕ
  pub max_start_line_size : ℕ

pub data ParseMode : Type 0 where
  request response : ParseMode

abbrev pub crlf : Bytes
crlf = 13 ∷ 10 ∷ []

-- std::isspace in the "C" locale.
abbrev pub is_space : ℕ → Bool
is_space c = c == 32 || (leb 9 c && leb c 13)

unfoldable pub trim_copy : Bytes → Bytes
unfolding drop_while drop_while_back
trim_copy value = drop_while_back is_space (drop_while is_space value)

abbrev pub exceeds_limit : ℕ → ℕ → Bool
exceeds_limit limit value = ltb 0 limit && ltb limit value

abbrev to_upper : Bytes → Bytes
to_upper s = map to_upper_byte s

-- `HttpMessage::header` and `trailer`.
unfoldable pub first_value : Bytes → List Header → Option Bytes
unfolding bytes_beq
first_value name [] = none
first_value name (h ∷ headers) =
    if to_upper h.name =? to_upper name then some h.value else first_value name headers

-- `HttpMessage::header_values` and `trailer_values`.
unfoldable pub all_values : Bytes → List Header → List Bytes
unfolding bytes_beq
all_values name [] = []
all_values name (h ∷ headers) =
    let rest = all_values name headers in
    if to_upper h.name =? to_upper name then h.value ∷ rest else rest

-- The name and the value around the first colon.
abbrev header_of : Bytes × Option Bytes → Result Header
header_of (name, none) = parse_error protocol
header_of (name, some value) =
    if is_empty name || is_empty (trim_copy name)
    then parse_error protocol
    else ok (record { name = trim_copy name; value = trim_copy value })

unfoldable pub parse_header_line : ParserOptions → Bytes → ParseErrorKind → Result Header
unfolding cut_at trim_copy
parse_header_line options line kind =
    if exceeds_limit options.max_header_line_size (length line)
    then parse_error kind
    else header_of (cut_at b':' line)

unfoldable pub validate_start_line : ParserOptions → ParseMode → Bytes → Bool → Result (Unit {0})
validate_start_line options mode line is_response =
    if exceeds_limit options.max_start_line_size (length line)
    then parse_error start_line_too_long
    else elim mode [
      | request ↦ if is_response then parse_error protocol else ok tt
      | response ↦ if is_response then ok tt else parse_error protocol
    ]

abbrev pub push_front : ℕ → List Bytes → List Bytes
push_front c [] = (c ∷ []) ∷ []
push_front c (line ∷ lines) = (c ∷ line) ∷ lines

-- The texts between the occurrences of CR LF.
unfoldable pub split_lines : Bytes → List Bytes
split_lines [] = [] ∷ []
split_lines (c ∷ []) = (c ∷ []) ∷ []
split_lines (c ∷ d ∷ s) = elim (c == 13 && d == 10) [
  | true ↦ [] ∷ split_lines s
  | false ↦ push_front c (split_lines (d ∷ s))
]

-- A header more, if the count allows it.
unfoldable pub counted_header : ParserOptions → Bytes → ℕ → Result (Header × ℕ)
unfolding parse_header_line
counted_header options line count =
    if exceeds_limit options.max_header_count (count + 1)
    then parse_error header_count_exceeded
    else (parse_header_line options line header_line_too_long >>= λ h. ok (h, count + 1))

abbrev pub push_header : Header → List Header × ℕ → Result (List Header × ℕ)
push_header h (headers, count) = ok (h ∷ headers, count)

-- The loop of `parse_initial_headers` over the lines, empty ones left out.
unfoldable pub headers_of_lines : ParserOptions → List Bytes → ℕ → Result (List Header × ℕ)
unfolding counted_header
headers_of_lines options [] count = ok ([], count)
headers_of_lines options (line ∷ lines) count =
    let here = counted_header options line count >>= λ r.
    headers_of_lines options lines r.1 >>= push_header r.0 in
    let skipped = headers_of_lines options lines count in if is_empty line then skipped else here

unfoldable pub parse_initial_headers : ParserOptions → Bytes → ℕ → Result (List Header × ℕ)
unfolding headers_of_lines split_lines
parse_initial_headers options block count = headers_of_lines options (split_lines block) count

abbrev contains : Bytes → Bytes → Bool
contains pattern text = elim (find_text pattern text) [ none ↦ false | some _ ↦ true ]

unfoldable pub headers_indicate_chunked : List Header → Bool
unfolding bytes_beq find_text
headers_indicate_chunked [] = false
headers_indicate_chunked (h ∷ headers) =
    if (to_lower h.name =? lit "transfer-encoding") && contains (lit "chunked") (to_lower h.value)
    then true
    else headers_indicate_chunked headers
