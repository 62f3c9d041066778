-- ===== src/Http/Parser/Circles.antt =====
-- Where the walk over the chunks comes back to the size line that it read.
use async_uv.Base.{
  ℕ, zero, suc, ◌+◌, ◌%◌, ◌^◌, ◌≤◌, ◌<◌, ◌≡◌, refl, true, false, none, some, arith, ◌==◌, ltb,
  length, take, drop,
}
use async_uv.Base.Bytes.{Bytes, bytes_eq, bytes_beq, bytes_beq_iff}
use async_uv.Base.Search.{find_text}
use async_uv.Http.Parser.{ok, ParserOptions, crlf}
use async_uv.Http.Parser.Chunks.{chunk_size, after_chunk, parse_chunks}

ltb-false : (a b : ℕ) → b ≤ a → ltb a b ≡ false
ltb-false a b h = ground (arith, h)

not_zero : (a b : ℕ) → a + b + 4 ≡ 2 ^ 64 → b < 2 ^ 63 → (a == 0) ≡ false
not_zero a b e h = ground (arith, e, h)

-- A chunk so large that its end, modulo 2 ^ 64, is where its size line begins.
after_chunk-back :
    (raw : Bytes) (q size line_length : ℕ)
    → size + line_length + 4 ≡ 2 ^ 64
    → q + 2 ≤ length raw
    → length raw < 2 ^ 63
    → take 2 (drop q raw) ≡ crlf
    → after_chunk raw (q + 2 + line_length + 2) size ≡ ok (q + 2)
unfolding after_chunk
after_chunk-back raw q size line_length sizes inside short ended =
    let whole : (q + 2 + line_length + 2 + size + 2) % 2 ^ 64 ≡ q + 2 =
      omega (arith, sizes, inside, short) in
    let end : (q + 2 + line_length + 2 + size) % 2 ^ 64 ≡ q = omega (arith, sizes, inside, short) in
    let fits = ltb-false (length raw) (q + 2) inside in
    let fits' = ltb-false (length raw) q (omega (arith, inside)) in
    let ended' : bytes_beq (take 2 (drop q raw)) crlf ≡ true =
      (bytes_beq_iff (take 2 (drop q raw)) crlf).1 ended in
    let next : (q + 2) % 2 ^ 64 ≡ q + 2 = omega (arith, inside, short) in
    rw (after_chunk, whole, fits, end, fits', ended', next) refl

-- The walk over the chunks does not end, whatever the fuel, where the two bytes in front of a size
-- line are CR LF and the size and the line's length are 2 ^ 64 - 4 together: the position wraps
-- around to the size line.
pub parse_chunks-back :
    (fuel : ℕ) (options : ParserOptions) (raw line behind : Bytes) (q size count : ℕ)
    → take 2 (drop q raw) ≡ crlf
    → find_text crlf (drop (q + 2) raw) ≡ some (line, behind)
    → chunk_size options line ≡ ok size
    → size + length line + 4 ≡ 2 ^ 64
    → q + 2 + length line ≤ length raw
    → length raw < 2 ^ 63
    → parse_chunks fuel options raw (q + 2) count ≡ none
unfolding parse_chunks
parse_chunks-back zero options raw line behind q size count ended found sized sizes inside short =
    refl
parse_chunks-back (suc fuel) options raw line behind q size count ended found sized sizes inside
      short =
    let inner = not_zero size (length line) sizes (omega (arith, inside, short)) in
    let back =
      after_chunk-back raw q size (length line) sizes (omega (arith, inside)) short ended in
    rw (parse_chunks, found, sized, inner, back)
      (parse_chunks-back fuel options raw line behind q size count ended found sized sizes inside
        short)
