-- ===== src/Http/Parser/Numbers.antt =====
-- std::stoull of base 16, which `parse_chunked_trailers` reads the size of a chunk with.
use async_uv.Base.{
  ℕ, ◌+◌, ◌-◌, ◌*◌, ◌%◌, ◌^◌, Bool, true, false, ◌&&◌, ◌||◌, Option, none, some, [], ◌∷◌, ◌==◌, ltb,
  leb, if◌then◌else◌,
}
use async_uv.Base.Bytes.{Bytes}

abbrev hex_value : ℕ → Option ℕ
hex_value c =
    if leb b'0' c && leb c b'9'
    then some (c - b'0')
    else if leb b'a' c && leb c b'f'
    then some (c - b'a' + 10)
    else if leb b'A' c && leb c b'F'
    then some (c - b'A' + 10)
    else none

-- The number of the digits in front of the text, after those that give `value`.
unfoldable pub hex_from : ℕ → Bytes → ℕ
hex_from value [] = value
hex_from value (c ∷ text) = elim (hex_value c) [
  | none ↦ value
  | some d ↦ hex_from (value * 16 + d) text
]

abbrev pub is_hex : Bytes → Bool
is_hex [] = false
is_hex (c ∷ text) = elim (hex_value c) [ none ↦ false | some _ ↦ true ]

-- Without `0x`, if a digit follows it.
abbrev pub without_prefix : Bytes → Bytes
without_prefix (c ∷ d ∷ text) =
    if c == b'0' && ((d == b'x' || d == b'X') && is_hex text) then text else c ∷ d ∷ text
without_prefix text = text

-- None stands for the exceptions invalid_argument and out_of_range.
abbrev unsigned : Bytes → Option ℕ
unsigned text =
    if is_hex text && ltb (hex_from 0 (without_prefix text)) (2 ^ 64)
    then some (hex_from 0 (without_prefix text))
    else none

abbrev negated : Option ℕ → Option ℕ
negated none = none
negated (some v) = some ((2 ^ 64 - v) % 2 ^ 64)

-- The text has no blanks in front.
unfoldable pub stoull : Bytes → Option ℕ
unfolding hex_from
stoull [] = none
stoull (c ∷ text) =
    if c == b'-'
    then negated (unsigned text)
    else if c == b'+'
    then unsigned text
    else unsigned (c ∷ text)
