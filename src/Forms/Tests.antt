-- ===== src/Forms/Tests.antt =====
-- Runs of the parsers, and the theorems at them.
use async_uv.Base.{ℕ, ◌≡◌, refl, ◌⊎◌, Option, none, some, [], ◌∷◌, ◌++◌, arith}
use async_uv.Base.Bytes.{Bytes, lit, bytes_beq, cut_at, split_on, strip_prefix}
use async_uv.Base.Dict.{lookup, insert}
use async_uv.Base.Search.{drop_while, drop_while_back, find_text}
use async_uv.Forms.UrlEncoded.{Decoder, percent_decode_component, form_onto, parse_form_data}
use async_uv.Forms.UrlEncoded.RoundTrip.{encode, insert_all, parse-encode}
use async_uv.Forms.Multipart.{
  Fields, get, disposition_params, parse_content_disposition, field_of, push_field, split_part,
  round, parse_parts, parse_multipart,
}
use async_uv.Forms.Multipart.Stuck.{parse_multipart-stuck, parse_multipart-cases}

-- A decoder that decodes nothing.
abbrev keep_text : Decoder
keep_text text first = text

abbrev name_pair : Bytes × Bytes
name_pair = (lit "name", lit "ann")

abbrev age_pair : Bytes × Bytes
age_pair = (lit "age", lit "7")

running : Unit {0}
unfolding percent_decode_component form_onto parse_form_data insert lookup bytes_beq cut_at split_on
    strip_prefix get drop_while drop_while_back find_text disposition_params
    parse_content_disposition field_of push_field split_part round parse_parts parse_multipart
running = tt

spaces_decoded :
    parse_form_data keep_text (lit "q=a+b&x") ≡ (lit "q", lit "a b") ∷ (lit "x", []) ∷ []
unfolding running
spaces_decoded = refl

parse-encode_example :
    parse_form_data keep_text (encode name_pair (age_pair ∷ []))
    ≡ insert_all [] (name_pair ∷ age_pair ∷ [])
parse-encode_example = parse-encode keep_text name_pair (age_pair ∷ []) (ground arith)

abbrev crlf : Bytes
crlf = 13 ∷ 10 ∷ []

abbrev upload : Bytes
upload =
    lit "--B"
    ++ (crlf
        ++ (lit "Content-Disposition: form-data; name=\"a\""
            ++ (crlf ++ (crlf ++ (lit "hello" ++ (crlf ++ lit "--B--"))))))

abbrev uploaded : Option Fields → Option Bytes
uploaded none = none
uploaded (some fields) = get (lit "a") fields

field_read : uploaded (parse_multipart 9 upload (lit "B")) ≡ some (lit "hello")
unfolding running
field_read = refl

-- A part without an empty line.
abbrev headless : Bytes
headless = lit "--B" ++ (crlf ++ lit "x--B--")

parse_multipart-stuck_example : parse_multipart 100 headless (lit "B") ≡ none
unfolding running
parse_multipart-stuck_example =
    parse_multipart-stuck 100 headless (lit "B") [] (crlf ++ lit "x--B--") (lit "x") (lit "--") refl
      refl refl refl

parse_multipart-cases_example :
    ((result : Fields) × (parse_multipart 200 upload (lit "B") ≡ some result))
    ⊎ ((f : ℕ) → parse_multipart f upload (lit "B") ≡ none)
parse_multipart-cases_example = parse_multipart-cases 200 upload (lit "B") (omega arith)
