-- ===== src/Http/Parser/Chunks.antt =====
-- layer2/src/parser.cpp: `parse_chunked_trailers`, which walks over the chunks of a message to the
-- trailers behind them.
use async_uv.Base.{
  ℕ, zero, suc, ◌+◌, ◌%◌, ◌^◌, Option, none, some, List, [], ◌∷◌, ◌==◌, ltb, if◌then◌else◌, length,
  take, drop,
}
use async_uv.Base.Bytes.{Bytes, bytes_beq, cut_at, is_empty}
use async_uv.Base.Search.{find_text}
use async_uv.Http.Server.{Header}
use async_uv.Http.Parser.{
  protocol, header_line_too_long, Result, ok, parse_error, out_of_range, ◌>>=◌, ParserOptions, crlf,
  trim_copy, exceeds_limit, split_lines, counted_header, push_header,
}
use async_uv.Http.Parser.Numbers.{stoull}

-- The loop over the trailers: the text behind the last CR LF is no line.
unfoldable pub trailers_of_lines : ParserOptions → List Bytes → ℕ → Result (List Header × ℕ)
unfolding counted_header
trailers_of_lines options [] count = parse_error protocol
trailers_of_lines options (line ∷ []) count = parse_error protocol
trailers_of_lines options (line ∷ next ∷ lines) count =
    let more = counted_header options line count >>= λ r.
    trailers_of_lines options (next ∷ lines) r.1 >>= push_header r.0 in
    if is_empty line then ok ([], count) else more

-- The size on a chunk's first line.
unfoldable pub chunk_size : ParserOptions → Bytes → Result ℕ
unfolding stoull cut_at trim_copy
chunk_size options size_line =
    if exceeds_limit options.max_header_line_size (length size_line)
    then parse_error header_line_too_long
    else elim (stoull (trim_copy (cut_at b';' size_line).0)) [
      | none ↦ parse_error protocol
      | some size ↦ ok size
    ]

-- Where the next chunk begins, for a chunk of `size` bytes that begins at `pos`.
unfoldable pub after_chunk : Bytes → ℕ → ℕ → Result ℕ
unfolding bytes_beq
after_chunk raw pos size =
    if ltb (length raw) ((pos + size + 2) % 2 ^ 64)
    then parse_error protocol
    else let pos' = (pos + size) % 2 ^ 64 in
      if ltb (length raw) pos'
      then out_of_range
      else if bytes_beq (take 2 (drop pos' raw)) crlf
      then ok ((pos' + 2) % 2 ^ 64)
      else parse_error protocol

-- An exception ends the loop.
abbrev pub continue_with : {A B : Type 0} → Result A → (A → Option (Result B)) → Option (Result B)
continue_with (ok a) f = f a
continue_with (parse_error k) f = some (parse_error k)
continue_with out_of_range f = some out_of_range

-- The loop of `parse_chunked_trailers`; none if the fuel does not last.
unfoldable pub parse_chunks : ℕ → ParserOptions → Bytes → ℕ → ℕ → Option (Result (List Header × ℕ))
unfolding find_text chunk_size after_chunk trailers_of_lines split_lines
parse_chunks zero options raw pos count = none
parse_chunks (suc fuel) options raw pos count = elim (find_text crlf (drop pos raw)) [
  | none ↦ some (parse_error protocol)
  | some (size_line, behind) ↦ continue_with (chunk_size options size_line) (λ size.
      let last = some (trailers_of_lines options (split_lines behind) count) in
      let more =
        continue_with (after_chunk raw (pos + length size_line + 2) size)
          (λ next. parse_chunks fuel options raw next count) in
      if size == 0 then last else more)
]
