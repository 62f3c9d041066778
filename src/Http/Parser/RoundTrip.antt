-- ===== src/Http/Parser/RoundTrip.antt =====
-- The chunks that the server writes (Http/Server) are walked through by the parser.
use async_uv.Base.{
  ℕ, zero, suc, ◌+◌, ◌%◌, ◌^◌, ◌≤◌, ◌<◌, ◌≡◌, refl, inl, inr, false, ◌&&◌, some, List, [], ◌∷◌,
  ◌++◌, arith, ◌==◌, ltb, Bool-cases, length, drop, drop-append, length-append, append_assoc, All,
  ap, ◌∙◌, sym,
}
use async_uv.Base.Bytes.{Bytes, bytes_beq}
use async_uv.Base.Digits.{hexadecimal}
use async_uv.Base.Search.{find_text}
use async_uv.Http.Server.{serialize_chunk, serialize_chunk_end}
use async_uv.Http.Parser.{ok, ParserOptions, crlf, exceeds_limit, push_front, split_lines}
use async_uv.Http.Parser.Chunks.{trailers_of_lines, chunk_size, after_chunk, parse_chunks}
use async_uv.Http.Parser.Sizes.{find_text-line, hexadecimal-IsDigit, chunk_size-hexadecimal}

pub after_chunk-fits :
    (front back raw : Bytes) (pos size : ℕ)
    → pos + size ≡ length front
    → raw ≡ front ++ (crlf ++ back)
    → length raw < 2 ^ 64
    → after_chunk raw pos size ≡ ok (length front + 2)
unfolding after_chunk bytes_beq
after_chunk-fits front back raw pos size e eq h =
    let long : length raw ≡ length front + (2 + length back) =
      omega (arith, ap length eq, length-append front (crlf ++ back)) in
    let whole : (pos + size + 2) % 2 ^ 64 ≡ length front + 2 = omega (arith, e, long, h) in
    let end : (pos + size) % 2 ^ 64 ≡ length front = omega (arith, e, long, h) in
    let next : (length front + 2) % 2 ^ 64 ≡ length front + 2 = omega (arith, long, h) in
    let fits : ltb (length raw) (length front + 2) ≡ false = ground (arith, long) in
    let fits' : ltb (length raw) (length front) ≡ false = ground (arith, long) in
    let ends : drop (length front) raw ≡ crlf ++ back =
      ap (drop (length front)) eq ∙ drop-append front (crlf ++ back) in
    rw (whole, end, fits, fits', ends, next) refl

blank_line-push_front :
    (options : ParserOptions) (c : ℕ) (lines : List Bytes) (count : ℕ)
    → trailers_of_lines options ([] ∷ push_front c lines) count ≡ ok ([], count)
unfolding trailers_of_lines
blank_line-push_front options c [] count = refl
blank_line-push_front options c (line ∷ lines) count = refl

blank_line :
    (options : ParserOptions) (rest : Bytes) (count : ℕ)
    → trailers_of_lines options ([] ∷ split_lines rest) count ≡ ok ([], count)
unfolding trailers_of_lines split_lines
blank_line options [] count = refl
blank_line options (c ∷ []) count = refl
blank_line options (c ∷ d ∷ rest) count = elim (Bool-cases (c == 13 && d == 10)) [
  | inl e ↦ rw (split_lines, e) refl
  | inr e ↦ rw (split_lines, e) (blank_line-push_front options c (split_lines (d ∷ rest)) count)
]

-- Chunks on the wire, with the chunk that ends them.
abbrev pub wire : List Bytes → Bytes
wire [] = serialize_chunk_end
wire (chunk ∷ chunks) = serialize_chunk chunk ++ wire chunks

-- A chunk whose size line is within the limit; an empty one would end the message.
abbrev pub Fits : ParserOptions → Bytes → Type 0
Fits options chunk =
    (1 ≤ length chunk)
    × (exceeds_limit options.max_header_line_size (length (hexadecimal (length chunk))) ≡ false)

-- A chunk between its size line and the line's end behind it.
frame_assoc :
    (line chunk back : Bytes)
    → (line ++ (crlf ++ (chunk ++ crlf))) ++ back ≡ line ++ (crlf ++ (chunk ++ (crlf ++ back)))
frame_assoc line chunk back =
    append_assoc line (crlf ++ (chunk ++ crlf)) back
    ∙ ap (λ t. line ++ (crlf ++ t)) (append_assoc chunk crlf back)

frame-split :
    (before line chunk back : Bytes)
    → before ++ ((line ++ (crlf ++ (chunk ++ crlf))) ++ back)
      ≡ (before ++ (line ++ (crlf ++ chunk))) ++ (crlf ++ back)
frame-split before line chunk back =
    ap (λ t. before ++ t)
      (frame_assoc line chunk back ∙ sym (append_assoc line (crlf ++ chunk) (crlf ++ back)))
    ∙ sym (append_assoc before (line ++ (crlf ++ chunk)) (crlf ++ back))

length-front :
    (before line chunk : Bytes)
    → length before + length line + 2 + length chunk ≡ length (before ++ (line ++ (crlf ++ chunk)))
length-front before line chunk =
    omega
      (arith, length-append before (line ++ (crlf ++ chunk)), length-append line (crlf ++ chunk))

length-frame :
    (before line chunk : Bytes)
    → length (before ++ (line ++ (crlf ++ chunk))) + 2
      ≡ length (before ++ (line ++ (crlf ++ (chunk ++ crlf))))
length-frame before line chunk = omega (
  arith,
  length-append before (line ++ (crlf ++ (chunk ++ crlf))),
  length-append line (crlf ++ (chunk ++ crlf)),
  length-append chunk crlf,
  length-front before line chunk,
)

module _ (options : ParserOptions) (raw : Bytes) (count : ℕ) where
  parse_chunks-more :
      (fuel pos size next : ℕ) (line behind : Bytes)
      → find_text crlf (drop pos raw) ≡ some (line, behind)
      → chunk_size options line ≡ ok size
      → (size == 0) ≡ false
      → after_chunk raw (pos + length line + 2) size ≡ ok next
      → parse_chunks (suc fuel) options raw pos count ≡ parse_chunks fuel options raw next count
  unfolding parse_chunks
  parse_chunks-more fuel pos size next line behind found sized full after =
      rw (parse_chunks, found, sized, full, after) refl

  parse_chunks-last :
      (fuel pos : ℕ) (line rest : Bytes)
      → find_text crlf (drop pos raw) ≡ some (line, crlf ++ rest)
      → chunk_size options line ≡ ok 0
      → parse_chunks (suc fuel) options raw pos count ≡ some (ok ([], count))
  unfolding parse_chunks split_lines
  parse_chunks-last fuel pos line rest found sized =
      rw (parse_chunks, found, sized) (ap some (blank_line options rest count))

  -- `before` ends where a chunk begins.
  parse_chunks-serialize_chunk :
      (fuel : ℕ) (before chunk back : Bytes)
      → raw ≡ before ++ (serialize_chunk chunk ++ back)
      → length raw < 2 ^ 64
      → Fits options chunk
      → parse_chunks (suc fuel) options raw (length before) count
        ≡ parse_chunks fuel options raw (length (before ++ serialize_chunk chunk)) count
  unfolding serialize_chunk
  parse_chunks-serialize_chunk fuel before chunk back eq h (long, fits) =
      let line = hexadecimal (length chunk) in
      let flat : serialize_chunk chunk ++ back ≡ line ++ (crlf ++ (chunk ++ (crlf ++ back))) =
        frame_assoc line chunk back in
      let found : find_text crlf (drop (length before) raw) ≡ some (line, chunk ++ (crlf ++ back)) =
        ap (λ t. find_text crlf (drop (length before) t)) eq
        ∙ ap (find_text crlf) (drop-append before (serialize_chunk chunk ++ back) ∙ flat)
        ∙ find_text-line line (chunk ++ (crlf ++ back)) (hexadecimal-IsDigit (length chunk)) in
      let front = before ++ (line ++ (crlf ++ chunk)) in
      let end : length before + length line + 2 + length chunk ≡ length front =
        length-front before line chunk in
      let split : raw ≡ front ++ (crlf ++ back) = eq ∙ frame-split before line chunk back in
      let size : length chunk < 2 ^ 64 =
        omega (arith, h, end, ap length split, length-append front (crlf ++ back)) in
      parse_chunks-more fuel (length before) (length chunk) (length front + 2) line
        (chunk ++ (crlf ++ back)) found (chunk_size-hexadecimal options (length chunk) fits size)
        (ground (arith, long))
        (after_chunk-fits front back raw (length before + length line + 2) (length chunk) end split
          h)
      ∙ ap (λ pos. parse_chunks fuel options raw pos count) (length-frame before line chunk)

  parse_chunks-serialize_chunk_end :
      (fuel : ℕ) (before rest : Bytes)
      → raw ≡ before ++ (serialize_chunk_end ++ rest)
      → exceeds_limit options.max_header_line_size 1 ≡ false
      → parse_chunks (suc fuel) options raw (length before) count ≡ some (ok ([], count))
  unfolding serialize_chunk_end hexadecimal
  parse_chunks-serialize_chunk_end fuel before rest eq fits =
      let found : find_text crlf (drop (length before) raw) ≡ some (hexadecimal 0, crlf ++ rest) =
        ap (λ t. find_text crlf (drop (length before) t)) eq
        ∙ ap (find_text crlf) (drop-append before (serialize_chunk_end ++ rest))
        ∙ find_text-line (hexadecimal 0) (crlf ++ rest) (hexadecimal-IsDigit 0) in
      parse_chunks-last fuel (length before) (hexadecimal 0) rest found
        (chunk_size-hexadecimal options 0 fits (omega arith))

  parse_chunks-wire :
      (chunks : List Bytes) (fuel : ℕ) (before rest : Bytes)
      → raw ≡ before ++ (wire chunks ++ rest)
      → length raw < 2 ^ 64
      → All (Fits options) chunks
      → exceeds_limit options.max_header_line_size 1 ≡ false
      → length chunks < fuel
      → parse_chunks fuel options raw (length before) count ≡ some (ok ([], count))
  parse_chunks-wire chunks zero before rest eq h fits fits' long = absurd (omega (arith, long))
  parse_chunks-wire [] (suc fuel) before rest eq h fits fits' long =
      parse_chunks-serialize_chunk_end fuel before rest eq fits'
  parse_chunks-wire (chunk ∷ chunks) (suc fuel) before rest eq h fits fits' long =
      let first : raw ≡ before ++ (serialize_chunk chunk ++ (wire chunks ++ rest)) =
        eq ∙ ap (λ t. before ++ t) (append_assoc (serialize_chunk chunk) (wire chunks) rest) in
      let next : raw ≡ (before ++ serialize_chunk chunk) ++ (wire chunks ++ rest) =
        first ∙ sym (append_assoc before (serialize_chunk chunk) (wire chunks ++ rest)) in
      parse_chunks-serialize_chunk fuel before chunk (wire chunks ++ rest) first h fits.0
      ∙ parse_chunks-wire chunks fuel (before ++ serialize_chunk chunk) rest next h fits.1 fits'
          (omega (arith, long))

-- When a text before the body is followed by the chunks that the server writes for nonempty pieces
-- and by the chunk that ends them, and the whole is shorter than 2 ^ 64 bytes, then the parser's
-- walk, begun behind the text before the body, passes over each chunk and finds no trailers, the
-- count of headers unchanged. The size lines, that of the last chunk too, must be within the limit
-- on a header line. A loop with more rounds than there are pieces is enough.
pub chunks-parse_chunks :
    (options : ParserOptions) (chunks : List Bytes) (before rest : Bytes) (count fuel : ℕ)
    → length (before ++ (wire chunks ++ rest)) < 2 ^ 64
    → All (Fits options) chunks
    → exceeds_limit options.max_header_line_size 1 ≡ false
    → length chunks < fuel
    → parse_chunks fuel options (before ++ (wire chunks ++ rest)) (length before) count
      ≡ some (ok ([], count))
chunks-parse_chunks options chunks before rest count fuel =
    parse_chunks-wire options (before ++ (wire chunks ++ rest)) count chunks fuel before rest refl
