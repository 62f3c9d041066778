-- ===== src/Forms/Multipart/Stuck.antt =====
-- Bodies on which the loop of `parse_multipart` does not end.
use async_uv.Base.{
  ℕ, zero, suc, ◌+◌, ◌<◌, ◌≤◌, ◌≡◌, refl, ◌⊎◌, inl, inr, false, Bool-cases, Option-cases, none,
  some, [], ◌++◌, arith, length, length-append, ap, ◌∙◌,
}
use async_uv.Base.Bytes.{Bytes, lit, is_empty}
use async_uv.Base.Search.{drop_while, find_text, length-find_text, length-drop_while}
use async_uv.Forms.Multipart.{
  Fields, Round, finished, repeated, advanced, is_newline, split_part, round, parse_parts,
  parse_multipart, push_field, field_of,
}

parse_parts-repeated :
    (fuel : ℕ) (delimiter remaining : Bytes) (fields : Fields)
    → round delimiter remaining ≡ repeated
    → parse_parts fuel delimiter remaining fields ≡ none
unfolding parse_parts
parse_parts-repeated zero delimiter remaining fields e = refl
parse_parts-repeated (suc fuel) delimiter remaining fields e =
    rw (parse_parts, e) (parse_parts-repeated fuel delimiter remaining fields e)

-- If the first part of a body, with the newlines in front left out, is followed by a delimiter but
-- has no empty line, the loop goes round at the same position for ever: no fuel is enough.
pub parse_multipart-stuck :
    (fuel : ℕ) (body boundary before behind part after : Bytes)
    → let delimiter = lit "--" ++ boundary in
      find_text delimiter body ≡ some (before, behind)
      → is_empty (drop_while is_newline behind) ≡ false
      → find_text delimiter (drop_while is_newline behind) ≡ some (part, after)
      → split_part part ≡ none
      → parse_multipart fuel body boundary ≡ none
unfolding parse_multipart round
parse_multipart-stuck fuel body boundary before behind part after e f g h =
    parse_parts-repeated fuel (lit "--" ++ boundary) body [] (rw (round, e, f, g, h) refl)

-- What is left after the part that `found` bounds.
advanced-shrinks :
    (delimiter start part after more : Bytes) {headers text headers' text' remaining' : Bytes}
    → length part + length delimiter + length more + length after ≡ length start
    → advanced headers' text' (delimiter ++ (more ++ after)) ≡ advanced headers text remaining'
    → length remaining' ≤ length start
advanced-shrinks delimiter start part after more {headers} {text} {headers'} {text'} {remaining'}
      size e =
    let same : delimiter ++ (more ++ after) ≡ remaining' = cc e in
    omega (
      arith,
      size,
      ap length same,
      length-append delimiter (more ++ after),
      length-append more after,
    )

part-shrinks :
    (delimiter start part after more : Bytes) {headers text remaining' : Bytes}
    → length part + length delimiter + length more + length after ≡ length start
    → (elim (split_part part) as (λ _. Round) [
      | none ↦ repeated
      | some q ↦ advanced q.0 q.1 (delimiter ++ (more ++ after))
    ])
      ≡ advanced headers text remaining'
    → length remaining' ≤ length start
part-shrinks delimiter start part after more size e = elim (Option-cases (split_part part)) [
  | inl none_there ↦ cc (rw none_there at e)
  | inr (q, there) ↦ advanced-shrinks delimiter start part after more size (rw there at e)
]

round-shrinks :
    (delimiter remaining headers text remaining' : Bytes)
    → 0 < length delimiter
    → round delimiter remaining ≡ advanced headers text remaining'
    → length remaining' < length remaining
unfolding round
round-shrinks delimiter remaining headers text remaining' pos e =
    elim (Option-cases (find_text delimiter remaining)) [
      | inl lost ↦ cc (rw (round, lost) at e)
      | inr ((before, behind), found) ↦
          let start = drop_while is_newline behind in
          let outer = length-find_text delimiter remaining before behind found in
          let less = length-drop_while is_newline behind in
          elim (Bool-cases (is_empty start)) [
            | inl empty ↦ cc (rw (round, found, empty) at e)
            | inr some_text ↦ elim (Option-cases (find_text delimiter start)) [
              | inr ((part, after), ends) ↦
                  let inner = length-find_text delimiter start part after ends in
                  let le =
                    part-shrinks delimiter start part after [] (omega (arith, inner))
                      (rw (round, found, some_text, ends) at e) in
                  omega (arith, outer, less, le, pos)
              | inl open_end ↦ elim (Option-cases (find_text (delimiter ++ lit "--") start)) [
                | inl no_end ↦ cc (rw (round, found, some_text, open_end, no_end) at e)
                | inr ((part, after), ends) ↦
                    let inner = length-find_text (delimiter ++ lit "--") start part after ends in
                    let le =
                      part-shrinks delimiter start part after (lit "--")
                        (omega (arith, inner, length-append delimiter (lit "--")))
                        (rw (round, found, some_text, open_end, ends) at e) in
                    omega (arith, outer, less, le, pos)
              ]
            ]
          ]
    ]

parse_parts-advanced :
    (fuel : ℕ) (delimiter remaining : Bytes) (fields : Fields) (headers text remaining' : Bytes)
    → round delimiter remaining ≡ advanced headers text remaining'
    → parse_parts (suc fuel) delimiter remaining fields
      ≡ parse_parts fuel delimiter remaining' (push_field (field_of headers text) fields)
unfolding parse_parts
parse_parts-advanced fuel delimiter remaining fields headers text remaining' e =
    rw (parse_parts, e) refl

Round-cases :
    (r : Round)
    → (r ≡ finished)
      ⊎ ((r ≡ repeated) ⊎ ((h : Bytes) × (t : Bytes) × (s : Bytes) × (r ≡ advanced h t s)))
Round-cases finished = inl refl
Round-cases repeated = inr (inl refl)
Round-cases (advanced h t s) = inr (inr (h, t, s, refl))

parse_parts-cases :
    (fuel : ℕ) (delimiter remaining : Bytes) (fields : Fields)
    → 0 < length delimiter
    → length remaining < fuel
    → ((result : Fields) × (parse_parts fuel delimiter remaining fields ≡ some result))
      ⊎ ((f : ℕ) → parse_parts f delimiter remaining fields ≡ none)
unfolding parse_parts
parse_parts-cases zero delimiter remaining fields pos h = absurd (omega (arith, h))
parse_parts-cases (suc fuel) delimiter remaining fields pos h =
    elim (Round-cases (round delimiter remaining)) [
      | inl ends ↦ inl (fields, rw (parse_parts, ends) refl)
      | inr (inl again) ↦ inr (λ f. parse_parts-repeated f delimiter remaining fields again)
      | inr (inr (headers, text, remaining', goes)) ↦
          let fields' = push_field (field_of headers text) fields in
          elim (parse_parts-cases fuel delimiter remaining' fields' pos (
            omega (arith, h, round-shrinks delimiter remaining headers text remaining' pos goes))) [
              | inl (result, e) ↦ inl (
                result,
                parse_parts-advanced fuel delimiter remaining fields headers text remaining' goes
                    ∙ e,
              )
              | inr never ↦ inr (elim [
                | zero ↦ refl
                | suc f ↦
                    parse_parts-advanced f delimiter remaining fields headers text remaining' goes
                    ∙ never f
              ])
            ]
    ]

-- With more rounds than the body has bytes, the parser either has returned or never returns.
pub parse_multipart-cases :
    (fuel : ℕ) (body boundary : Bytes)
    → length body < fuel
    → ((result : Fields) × (parse_multipart fuel body boundary ≡ some result))
      ⊎ ((f : ℕ) → parse_multipart f body boundary ≡ none)
unfolding parse_multipart
parse_multipart-cases fuel body boundary h =
    parse_parts-cases fuel (lit "--" ++ boundary) body [] (omega arith) h
