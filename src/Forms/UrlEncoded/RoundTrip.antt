-- ===== src/Forms/UrlEncoded/RoundTrip.antt =====
-- A form of plain texts is read back.
use async_uv.Base.{
  ℕ, ◌≡◌, refl, ◌≢◌, List, [], ◌∷◌, ◌++◌, arith, ◌==◌, if◌then◌else◌, All, All-append, All-map, map,
  ap, ◌∙◌, false,
}
use async_uv.Base.Bytes.{Bytes, bytes_eq, split_on, is_empty}
use async_uv.Base.Splitting.{cut_at-append, cut_at-whole, split_on-append, split_on-whole}
use async_uv.Base.Dict.{insert}
use async_uv.Forms.UrlEncoded.{Decoder, percent_decode_component, form_onto, parse_form_data}

-- A byte that stands for itself in a form.
abbrev pub IsLiteral : ℕ → Type 0
IsLiteral c = (c ≢ b'&') × (c ≢ b'=') × (c ≢ b'%') × (c ≢ b'+')

-- `key=value`, with `&` between.
abbrev pub encode_pair : Bytes × Bytes → Bytes
encode_pair (key, value) = key ++ b'=' ∷ value

abbrev pub encode : Bytes × Bytes → List (Bytes × Bytes) → Bytes
encode p [] = encode_pair p
encode p (q ∷ pairs) = encode_pair p ++ b'&' ∷ encode q pairs

abbrev pub insert_all : List (Bytes × Bytes) → List (Bytes × Bytes) → List (Bytes × Bytes)
insert_all result [] = result
insert_all result ((key, value) ∷ pairs) = insert_all (insert key value result) pairs

-- Keys and values of literal bytes.
abbrev pub IsPlainPair : Bytes × Bytes → Type 0
IsPlainPair (key, value) = All IsLiteral key × All IsLiteral value

map_plus : (s : Bytes) → All IsLiteral s → map (λ c. if c == b'+' then b' ' else c) s ≡ s
map_plus [] h = refl
map_plus (c ∷ s) h = rw (map_plus s h.1) (ground (arith, h.0))

decode-literal :
    (decode : Decoder) (s : Bytes) → All IsLiteral s → percent_decode_component decode s ≡ s
unfolding percent_decode_component
decode-literal decode s h = rw (map_plus s h, cut_at-whole b'%' s (All-map s (λ c k. k.2) h)) refl

no_amp : (p : Bytes × Bytes) → IsPlainPair p → All (λ c. c ≢ b'&') (encode_pair p)
no_amp (key, value) (hk, hv) =
    All-append (λ c. c ≢ b'&') key (b'=' ∷ value) (All-map key (λ c k. k.0) hk)
      ((λ e. absurd (omega (arith, e))), All-map value (λ c k. k.0) hv)

split-encode :
    (p : Bytes × Bytes) (pairs : List (Bytes × Bytes))
    → All IsPlainPair (p ∷ pairs)
    → split_on b'&' (encode p pairs) ≡ map encode_pair (p ∷ pairs)
split-encode p [] h = split_on-whole b'&' (encode_pair p) (no_amp p h.0)
split-encode p (q ∷ pairs) h =
    split_on-append b'&' (encode_pair p) (encode q pairs) (no_amp p h.0)
    ∙ ap (λ l. encode_pair p ∷ l) (split-encode q pairs h.1)

not_empty : (key value : Bytes) → is_empty (key ++ b'=' ∷ value) ≡ false
not_empty [] value = refl
not_empty (c ∷ key) value = refl

form_onto-pair :
    (decode : Decoder) (result : List (Bytes × Bytes)) (key value : Bytes) (rest : List Bytes)
    → All IsLiteral key
    → All IsLiteral value
    → form_onto decode result (encode_pair (key, value) ∷ rest)
      ≡ form_onto decode (insert key value result) rest
unfolding form_onto
form_onto-pair decode result key value rest hk hv =
    rw
      (
        not_empty key value,
        cut_at-append b'=' key value (All-map key (λ c k. k.1) hk),
        decode-literal decode key hk,
        decode-literal decode value hv,
      )
      refl

form_onto-pairs :
    (decode : Decoder) (result pairs : List (Bytes × Bytes))
    → All IsPlainPair pairs
    → form_onto decode result (map encode_pair pairs) ≡ insert_all result pairs
unfolding form_onto
form_onto-pairs decode result [] h = refl
form_onto-pairs decode result ((key, value) ∷ pairs) h =
    form_onto-pair decode result key value (map encode_pair pairs) h.0.0 h.0.1
    ∙ form_onto-pairs decode (insert key value result) pairs h.1

-- A body of pairs of literal keys and values, `key=value` with `&` between, is parsed into the map
-- of these pairs, where the last of a key wins, whatever the percent-decoder does.
pub parse-encode :
    (decode : Decoder) (p : Bytes × Bytes) (pairs : List (Bytes × Bytes))
    → All IsPlainPair (p ∷ pairs)
    → parse_form_data decode (encode p pairs) ≡ insert_all [] (p ∷ pairs)
unfolding parse_form_data
parse-encode decode p pairs h =
    ap (form_onto decode []) (split-encode p pairs h) ∙ form_onto-pairs decode [] (p ∷ pairs) h
