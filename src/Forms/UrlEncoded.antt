-- ===== src/Forms/UrlEncoded.antt =====
-- layer3/include/async_uv_layer3/form_parser.hpp: `application/x-www-form-urlencoded` bodies. The
-- percent-decoder of the library ada is a parameter; it is told where the first `%` stands.
pub mod RoundTrip
use async_uv.Base.{
  ℕ, Bool, true, false, Option, none, some, List, [], ◌∷◌, map, ◌==◌, if◌then◌else◌, length, ◌=?◌,
}
use async_uv.Base.Bytes.{Bytes, bytes_eq, bytes_beq, cut_at, split_on, is_empty}
use async_uv.Base.Dict.{insert}

abbrev pub Decoder : Type 0
Decoder = Bytes → ℕ → Bytes

abbrev plus_to_space : ℕ → ℕ
plus_to_space c = if c == b'+' then b' ' else c

abbrev decode_at : Decoder → Bytes → Bytes × Option Bytes → Bytes
decode_at decode text (before, none) = text
decode_at decode text (before, some _) = decode text (length before)

unfoldable pub percent_decode_component : Decoder → Bytes → Bytes
unfolding cut_at
percent_decode_component decode text =
    let normalized = map plus_to_space text in decode_at decode normalized (cut_at b'%' normalized)

-- One pair: the key and the value, which is empty without a `=`.
abbrev pair_of : Decoder → Bytes × Option Bytes → Bytes × Bytes
pair_of decode (key, none) = (percent_decode_component decode key, [])
pair_of decode (key, some value) =
    (percent_decode_component decode key, percent_decode_component decode value)

-- The loop over the pairs, empty ones left out.
unfoldable pub form_onto : Decoder → List (Bytes × Bytes) → List Bytes → List (Bytes × Bytes)
unfolding percent_decode_component cut_at insert bytes_beq
form_onto decode result [] = result
form_onto decode result (pair ∷ pairs) =
    if is_empty pair
    then form_onto decode result pairs
    else let (key, value) = pair_of decode (cut_at b'=' pair) in
      form_onto decode (insert key value result) pairs

unfoldable pub parse_form_data : Decoder → Bytes → List (Bytes × Bytes)
unfolding form_onto split_on
parse_form_data decode body = form_onto decode [] (split_on b'&' body)
