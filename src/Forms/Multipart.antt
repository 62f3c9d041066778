-- ===== src/Forms/Multipart.antt =====
-- layer3/include/async_uv_layer3/multipart_parser.hpp: `multipart/form-data` bodies. The loop of
-- `parse_multipart` takes fuel; it does not end for every body (Multipart/Stuck).
pub mod Stuck
use async_uv.Base.{
  ℕ, zero, suc, Bool, true, false, not, ◌&&◌, ◌||◌, Option, none, some, List, [], ◌∷◌, ◌++◌, map,
  ◌==◌, if◌then◌else◌, length, drop, ◌=?◌,
}
use mathlib.Core.List.{reverse}
use async_uv.Base.Bytes.{Bytes, bytes_eq, bytes_beq, cut_at, strip_prefix, is_empty, lit}
use async_uv.Base.Search.{drop_while, drop_while_back, find_text}
use async_uv.Base.Dict.{lookup, insert}

pub record MultipartField : Type 0 where
  pub name : Bytes
  pub filename : Bytes
  pub content_type : Bytes
  pub content : Bytes

abbrev pub Fields : Type 0
Fields = List (Bytes × List MultipartField)

abbrev pub is_file : MultipartField → Bool
is_file field = not (is_empty field.filename)

abbrev first_data : Option (List MultipartField) → Option Bytes
first_data none = none
first_data (some []) = none
first_data (some (field ∷ fields)) = some field.content

-- `MultipartFormData::get`
unfoldable pub get : Bytes → Fields → Option Bytes
unfolding lookup bytes_beq
get name fields = first_data (lookup name fields)

unfoldable pub first_file : List MultipartField → Option MultipartField
first_file [] = none
first_file (field ∷ fields) = if is_file field then some field else first_file fields

-- `MultipartFormData::get_file`
unfoldable pub get_file : Bytes → Fields → Option MultipartField
unfolding lookup bytes_beq first_file
get_file name fields = elim (lookup name fields) [ none ↦ none | some them ↦ first_file them ]

abbrev pub is_space : ℕ → Bool
is_space c = c == b' ' || c == 9

abbrev pub is_newline : ℕ → Bool
is_newline c = c == 13 || c == 10

abbrev pub trim_space : Bytes → Bytes
trim_space s = drop_while_back is_space (drop_while is_space s)

-- The value behind `=`, and the rest: quoted, up to the closing quote if there is one, or up to `;`.
abbrev quoted_value : Bytes → Bytes × Option Bytes → Bytes × Bytes
quoted_value rest (value, none) = ([], rest)
quoted_value rest (value, some more) = (value, more)

abbrev bare_value : Bytes × Option Bytes → Bytes × Bytes
bare_value (value, none) = (value, [])
bare_value (value, some more) = (value, more)

abbrev value_and_rest : Bytes → Bytes × Bytes
value_and_rest [] = bare_value (cut_at b';' [])
value_and_rest (c ∷ s) =
    if c == 34 then quoted_value s (cut_at 34 s) else bare_value (cut_at b';' (c ∷ s))

-- The blanks and semicolons in front of a parameter.
abbrev skip_semicolons : ℕ → Bytes → Bytes
skip_semicolons zero rest = rest
skip_semicolons (suc fuel) [] = []
skip_semicolons (suc fuel) (c ∷ rest) =
    let more = skip_semicolons fuel (trim_space rest) in if c == b';' then more else c ∷ rest

abbrev rest_after : Bytes × Option Bytes → Bytes
rest_after (before, none) = []
rest_after (before, some after) = after

-- The loop over the parameters. Each round takes a byte at least, so that the length is fuel
-- enough.
unfoldable pub disposition_params : ℕ → Bytes → List (Bytes × Bytes) → List (Bytes × Bytes)
unfolding drop_while drop_while_back cut_at insert bytes_beq
disposition_params zero rest params = params
disposition_params (suc fuel) rest params =
    let rest' = skip_semicolons (length rest) (trim_space rest) in
    if is_empty rest'
    then params
    else let (key, behind) = cut_at b'=' rest' in
      elim behind [
        | none ↦ elim (cut_at b';' rest').1 [
          | none ↦ params
          | some after ↦ disposition_params fuel after params
        ]
        | some text ↦
            let (value, after) = value_and_rest (trim_space text) in
            disposition_params fuel after (insert (trim_space key) value params)
      ]

unfoldable pub parse_content_disposition : Bytes → List (Bytes × Bytes)
unfolding cut_at disposition_params
parse_content_disposition header = elim (cut_at b';' header).1 [
  | none ↦ []
  | some rest ↦ disposition_params (suc (length rest)) rest []
]

-- The line that begins with a header's name, from the name on, without the line's end.
abbrev header_line : Bytes → Bytes → Option Bytes
header_line name headers = elim (find_text name headers) [
  | none ↦ none
  | some (before, after) ↦ some (name ++ (cut_at 10 after).0)
]

abbrev value_or_empty : Option Bytes → Bytes
value_or_empty none = []
value_or_empty (some v) = v

abbrev params_of : Option Bytes → List (Bytes × Bytes)
params_of none = []
params_of (some line) = parse_content_disposition line

abbrev type_of : Option Bytes → Bytes
type_of none = []
type_of (some line) = trim_space (rest_after (cut_at b':' line))

unfoldable pub field_of : Bytes → Bytes → MultipartField
unfolding find_text cut_at parse_content_disposition lookup drop_while drop_while_back bytes_beq
field_of headers text =
    let params = params_of (header_line (lit "Content-Disposition:") headers) in
    record {
      name = value_or_empty (lookup (lit "name") params);
      filename = value_or_empty (lookup (lit "filename") params);
      content_type = type_of (header_line (lit "Content-Type:") headers);
      content = drop_while_back is_newline text;
    }

abbrev list_or_empty : Option (List MultipartField) → List MultipartField
list_or_empty none = []
list_or_empty (some fields) = fields

-- `result.fields[name].push_back(field)`, for a field with a name.
unfoldable pub push_field : MultipartField → Fields → Fields
unfolding lookup insert bytes_beq
push_field field fields =
    if is_empty field.name
    then fields
    else insert field.name (list_or_empty (lookup field.name fields) ++ field ∷ []) fields

-- The headers and the data of a part, which an empty line separates.
unfoldable pub split_part : Bytes → Option (Bytes × Bytes)
unfolding find_text
split_part part = elim (find_text (13 ∷ 10 ∷ 13 ∷ 10 ∷ []) part) [
  | some found ↦ some found
  | none ↦ find_text (10 ∷ 10 ∷ []) part
]

-- A round of the loop from a position on: it breaks, goes on at the same position, or takes a
-- part and goes on at the delimiter that ends it.
pub data Round : Type 0 where
  finished : Round
  repeated : Round
  advanced : Bytes → Bytes → Bytes → Round

unfoldable pub round : Bytes → Bytes → Round
unfolding find_text drop_while split_part
round delimiter remaining = elim (find_text delimiter remaining) [
  | none ↦ finished
  | some (before, behind) ↦
      let start = drop_while is_newline behind in
      if is_empty start then finished else elim (find_text delimiter start) [
        | none ↦ elim (find_text (delimiter ++ lit "--") start) [
          | none ↦ finished
          | some (part, after) ↦ elim (split_part part) [
            | none ↦ repeated
            | some (headers, text) ↦ advanced headers text (delimiter ++ (lit "--" ++ after))
          ]
        ]
        | some (part, after) ↦ elim (split_part part) [
          | none ↦ repeated
          | some (headers, text) ↦ advanced headers text (delimiter ++ after)
        ]
      ]
]

-- The loop of `parse_multipart`: none if the fuel does not last.
unfoldable pub parse_parts : ℕ → Bytes → Bytes → Fields → Option Fields
unfolding round field_of push_field
parse_parts zero delimiter remaining fields = none
parse_parts (suc fuel) delimiter remaining fields = elim (round delimiter remaining) [
  | finished ↦ some fields
  | repeated ↦ parse_parts fuel delimiter remaining fields
  | advanced headers text remaining' ↦
      parse_parts fuel delimiter remaining' (push_field (field_of headers text) fields)
]

unfoldable pub parse_multipart : ℕ → Bytes → Bytes → Option Fields
unfolding parse_parts
parse_multipart fuel body boundary = parse_parts fuel (lit "--" ++ boundary) body []
