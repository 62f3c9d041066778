-- ===== src/Http/Parser/Progress.antt =====
-- The walk over the chunks moves forward, unless a size takes the position past 2 ^ 64.
use async_uv.Base.{
  ℕ, zero, suc, ◌+◌, ◌%◌, ◌^◌, ◌≤◌, ◌<◌, ◌≡◌, refl, ◌≢◌, inl, inr, true, false, Option, none, some,
  [], ◌∷◌, arith, ◌==◌, ltb, leb, if◌then◌else◌, Bool-cases, Option-cases, length, take, drop,
}
use async_uv.Base.Bytes.{Bytes, bytes_beq}
use async_uv.Base.Search.{find_text, length-find_text}
use async_uv.Http.Parser.{Result, ok, parse_error, out_of_range, ParserOptions, crlf, split_lines}
use async_uv.Http.Parser.Chunks.{
  trailers_of_lines, chunk_size, after_chunk, continue_with, parse_chunks,
}

-- The walk over the chunks, from a position on, comes to a size line whose chunk would end behind
-- what a position can be.
pub data Wrapping (options : ParserOptions) (raw : Bytes) : ℕ → Type 0 where
  here :
      (pos : ℕ) (line behind : Bytes) (size : ℕ)
      → find_text crlf (drop pos raw) ≡ some (line, behind)
      → chunk_size options line ≡ ok size
      → (size == 0) ≡ false
      → 2 ^ 64 ≤ pos + length line + 2 + size + 2
      → Wrapping options raw pos
  later :
      (pos : ℕ) (line behind : Bytes) (size next : ℕ)
      → find_text crlf (drop pos raw) ≡ some (line, behind)
      → chunk_size options line ≡ ok size
      → (size == 0) ≡ false
      → after_chunk raw (pos + length line + 2) size ≡ ok next
      → Wrapping options raw next
      → Wrapping options raw pos

none-continue_with :
    {A B : Type 0} (first : Result A) (next : A → Option (Result B))
    → continue_with first next ≡ none
    → (value : A) × ((first ≡ ok value) × (next value ≡ none))
none-continue_with out_of_range next given = cc
none-continue_with (parse_error kind) next given = cc
none-continue_with (ok value) next given = (value, (refl, given))

some_not_none {ℓ} : {A : Type ℓ} (a : A) → some a ≢ none
some_not_none a e = cc

after_chunk-eq-ok :
    (raw : Bytes) (pos size next : ℕ)
    → after_chunk raw pos size ≡ ok next
    → pos + size + 2 < 2 ^ 64
    → (next ≡ pos + size + 2) × (next ≤ length raw)
unfolding after_chunk
after_chunk-eq-ok raw pos size next e h =
    let whole : (pos + size + 2) % 2 ^ 64 ≡ pos + size + 2 = omega (arith, h) in
    let end : (pos + size) % 2 ^ 64 ≡ pos + size = omega (arith, h) in
    elim (Bool-cases (ltb (length raw) (pos + size + 2))) [
      | inl short ↦ cc (rw (after_chunk, whole, short) at e)
      | inr fits ↦ elim (Bool-cases (ltb (length raw) (pos + size))) [
        | inl short ↦ cc (rw (after_chunk, whole, fits, end, short) at e)
        | inr fits' ↦ elim (Bool-cases (bytes_beq (take 2 (drop (pos + size) raw)) crlf)) [
          | inr open_end ↦ cc (rw (after_chunk, whole, fits, end, fits', open_end) at e)
          | inl ended ↦
              let e' : ok ((pos + size + 2) % 2 ^ 64) ≡ ok next =
                rw (after_chunk, whole, fits, end, fits', ended) at e in
              let n : (pos + size + 2) % 2 ^ 64 ≡ next = cc e' in
              (omega (arith, whole, n), ground (arith, whole, n, fits))
        ]
      ]
    ]

length-drop_le : (n : ℕ) (s : Bytes) → 1 ≤ length (drop n s) → n + length (drop n s) ≡ length s
length-drop_le zero s h = omega arith
length-drop_le (suc n) [] h = absurd (omega (arith, h))
length-drop_le (suc n) (c ∷ s) h = omega (arith, length-drop_le n s h)

leb-true : (a b : ℕ) → leb a b ≡ true → a ≤ b
leb-true a b h = ground (arith, h)

leb-false : (a b : ℕ) → leb a b ≡ false → b < a
leb-false a b h = ground (arith, h)

pub parse_chunks-ends :
    (options : ParserOptions) (raw : Bytes) (count fuel pos : ℕ)
    → 1 ≤ fuel
    → length raw < pos + fuel
    → parse_chunks fuel options raw pos count ≡ none
    → Wrapping options raw pos
unfolding parse_chunks
parse_chunks-ends options raw count zero pos h le e = absurd (omega (arith, h))
parse_chunks-ends options raw count (suc fuel) pos h le e =
    elim (Option-cases (find_text crlf (drop pos raw))) [
      | inl no_line ↦ cc (rw (parse_chunks, no_line) at e)
      | inr ((line, behind), found) ↦
          let found_length = length-find_text crlf (drop pos raw) line behind found in
          let inside = length-drop_le pos raw (omega (arith, found_length)) in
          let last = some (trailers_of_lines options (split_lines behind) count) in
          let more = λ (size : ℕ).
            continue_with (after_chunk raw (pos + length line + 2) size)
              (λ next. parse_chunks fuel options raw next count) in
          let (size, (sized, e')) =
            none-continue_with (chunk_size options line)
              (λ size. if size == 0 then last else more size) (rw (parse_chunks, found) at e) in
          elim (Bool-cases (size == 0)) [
            | inl end ↦ absurd (
                some_not_none (trailers_of_lines options (split_lines behind) count) (rw end at e'))
            | inr inner ↦
                let (next, (stepped, e'')) =
                  none-continue_with (after_chunk raw (pos + length line + 2) size)
                    (λ next. parse_chunks fuel options raw next count) (rw inner at e') in
                elim (Bool-cases (leb (2 ^ 64) (pos + length line + 2 + size + 2))) [
                  | inl wraps ↦
                      here pos line behind size found sized inner
                        (leb-true (2 ^ 64) (pos + length line + 2 + size + 2) wraps)
                  | inr small ↦
                      let (n, within) =
                        after_chunk-eq-ok raw (pos + length line + 2) size next stepped
                          (leb-false (2 ^ 64) (pos + length line + 2 + size + 2) small) in
                      later pos line behind size next found sized inner stepped (
                        parse_chunks-ends options raw count fuel next (omega (arith, le, n, within))
                          (omega (arith, le, n)) e'')
                ]
          ]
    ]
