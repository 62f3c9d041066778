-- ===== src/Http/Parser/Counts.antt =====
-- The limit on the number of headers, trailers included.
use async_uv.Base.{
  ℕ, zero, suc, ◌+◌, ◌≤◌, ◌<◌, ◌≡◌, refl, inl, inr, Option, some, List, [], ◌∷◌, arith, ◌==◌,
  if◌then◌else◌, Bool-cases, Option-cases, length, drop, ap, subst,
}
use async_uv.Base.Bytes.{Bytes, is_empty}
use async_uv.Base.Search.{find_text}
use async_uv.Http.Server.{Header}
use async_uv.Http.Parser.{
  Result, ok, parse_error, out_of_range, ◌>>=◌, ParserOptions, crlf, exceeds_limit,
  header_line_too_long, parse_header_line, split_lines, counted_header, push_header,
  headers_of_lines, parse_initial_headers,
}
use async_uv.Http.Parser.Chunks.{
  trailers_of_lines, chunk_size, after_chunk, continue_with, parse_chunks,
}

ok->>= :
    {A B : Type 0} (first : Result A) (next : A → Result B) {result : B}
    → (first >>= next) ≡ ok result
    → (value : A) × (first ≡ ok value) × (next value ≡ ok result)
ok->>= out_of_range next given = cc
ok->>= (parse_error kind) next given = cc
ok->>= (ok value) next given = (value, refl, given)

ok-continue_with :
    {A B : Type 0} (first : Result A) (next : A → Option (Result B)) {result : B}
    → continue_with first next ≡ some (ok result)
    → (value : A) × (first ≡ ok value) × (next value ≡ some (ok result))
ok-continue_with out_of_range next given = cc
ok-continue_with (parse_error kind) next given = cc
ok-continue_with (ok value) next given = (value, refl, given)

some-injective {ℓ} : {A : Type ℓ} {a b : A} → some a ≡ some b → a ≡ b
some-injective e = cc e

-- `count` headers before, `headers` read, `count'` after: the count is right and within the limit.
pub record Counted (options : ParserOptions) (count : ℕ) (headers : List Header) (count' : ℕ)
    : Type 0 where
  pub exact : count' ≡ count + length headers
  pub within :
      0 < options.max_header_count
      → count ≤ options.max_header_count
      → count' ≤ options.max_header_count

module _ (options : ParserOptions) where
  counted_header-count :
      (line : Bytes) (count : ℕ) (h : Header) (count' : ℕ)
      → counted_header options line count ≡ ok (h, count')
      → (count' ≡ count + 1) × (0 < options.max_header_count → count' ≤ options.max_header_count)
  unfolding counted_header
  counted_header-count line count h count' e =
      elim (Bool-cases (exceeds_limit options.max_header_count (count + 1))) [
        | inl over ↦ cc (rw (counted_header, over) at e)
        | inr fits ↦
            let (h', read, same) =
              ok->>= (parse_header_line options line header_line_too_long) (λ x. ok (x, count + 1))
                (rw (counted_header, fits) at e) in
            let one_more : count + 1 ≡ count' = cc same in
            (omega (arith, one_more), λ pos. ground (arith, one_more, fits, pos))
      ]

  Counted-cons :
      (line : Bytes) (count : ℕ) (rest : ℕ → Result (List Header × ℕ)) (headers : List Header)
      (count' : ℕ)
      → ((n : ℕ) (hs : List Header) → rest n ≡ ok (hs, count') → Counted options n hs count')
      → (counted_header options line count >>= λ r. rest r.1 >>= push_header r.0)
        ≡ ok (headers, count')
      → Counted options count headers count'
  Counted-cons line count rest headers count' ih e =
      let ((h, n), first, e') =
        ok->>= (counted_header options line count) (λ r. rest r.1 >>= push_header r.0) e in
      let ((hs, c), more, e'') = ok->>= (rest n) (push_header h) e' in
      let same_count : c ≡ count' = cc e'' in
      let same : h ∷ hs ≡ headers = cc e'' in
      let (next, within) = counted_header-count line count h n first in
      let counted = ih n hs (subst (λ x. rest n ≡ ok (hs, x)) same_count more) in
      record {
        exact = omega (arith, counted.exact, next, ap length same);
        within = λ pos le. counted.within pos (within pos);
      }

  pub none_read :
      (count : ℕ) (headers : List Header) (count' : ℕ)
      → ◌≡◌ {A = Result (List Header × ℕ)} (ok ([], count)) (ok (headers, count'))
      → Counted options count headers count'
  none_read count headers count' e =
      let same_count : count ≡ count' = cc e in
      let same : [] ≡ headers = cc e in
      record {
        exact = omega (arith, same_count, ap length same);
        within = λ pos le. omega (arith, same_count, le);
      }

  headers_of_lines-Counted :
      (lines : List Bytes) (count : ℕ) (headers : List Header) (count' : ℕ)
      → headers_of_lines options lines count ≡ ok (headers, count')
      → Counted options count headers count'
  unfolding headers_of_lines
  headers_of_lines-Counted [] count headers count' e = none_read count headers count' e
  headers_of_lines-Counted (line ∷ lines) count headers count' e =
      elim (Bool-cases (is_empty line)) [
        | inl empty ↦
            headers_of_lines-Counted lines count headers count' (rw (headers_of_lines, empty) at e)
        | inr full ↦
            Counted-cons line count (headers_of_lines options lines) headers count'
              (λ n hs. headers_of_lines-Counted lines n hs count')
              (rw (headers_of_lines, full) at e)
      ]

  pub parse_initial_headers-Counted :
      (block : Bytes) (count : ℕ) (headers : List Header) (count' : ℕ)
      → parse_initial_headers options block count ≡ ok (headers, count')
      → Counted options count headers count'
  unfolding parse_initial_headers
  parse_initial_headers-Counted block = headers_of_lines-Counted (split_lines block)

  trailers_of_lines-Counted :
      (lines : List Bytes) (count : ℕ) (headers : List Header) (count' : ℕ)
      → trailers_of_lines options lines count ≡ ok (headers, count')
      → Counted options count headers count'
  unfolding trailers_of_lines
  trailers_of_lines-Counted [] count headers count' e = cc
  trailers_of_lines-Counted (line ∷ []) count headers count' e = cc
  trailers_of_lines-Counted (line ∷ next ∷ lines) count headers count' e =
      elim (Bool-cases (is_empty line)) [
        | inl empty ↦ none_read count headers count' (rw (trailers_of_lines, empty) at e)
        | inr full ↦
            Counted-cons line count (trailers_of_lines options (next ∷ lines)) headers count'
              (λ n hs. trailers_of_lines-Counted (next ∷ lines) n hs count')
              (rw (trailers_of_lines, full) at e)
      ]

  pub parse_chunks-Counted :
      (fuel : ℕ) (raw : Bytes) (pos count : ℕ) (trailers : List Header) (count' : ℕ)
      → parse_chunks fuel options raw pos count ≡ some (ok (trailers, count'))
      → Counted options count trailers count'
  unfolding parse_chunks
  parse_chunks-Counted zero raw pos count trailers count' e = cc
  parse_chunks-Counted (suc fuel) raw pos count trailers count' e =
      elim (Option-cases (find_text crlf (drop pos raw))) [
        | inl no_line ↦ cc (rw (parse_chunks, no_line) at e)
        | inr ((size_line, behind), found) ↦
            let last = some (trailers_of_lines options (split_lines behind) count) in
            let more = λ (size : ℕ).
              continue_with (after_chunk raw (pos + length size_line + 2) size)
                (λ next. parse_chunks fuel options raw next count) in
            let (size, sized, e') =
              ok-continue_with (chunk_size options size_line)
                (λ size. if size == 0 then last else more size) (rw (parse_chunks, found) at e) in
            elim (Bool-cases (size == 0)) [
              | inl end ↦
                  trailers_of_lines-Counted (split_lines behind) count trailers count'
                    (some-injective (rw end at e'))
              | inr inner ↦
                  let (next, stepped, e'') =
                    ok-continue_with (after_chunk raw (pos + length size_line + 2) size)
                      (λ next. parse_chunks fuel options raw next count) (rw inner at e') in
                  parse_chunks-Counted fuel raw next count trailers count' e''
            ]
      ]
