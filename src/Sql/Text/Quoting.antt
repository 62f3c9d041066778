-- ===== src/Sql/Text/Quoting.antt =====
-- A quoted value of a libpq connection string reads back as what was quoted.
use async_uv.Base.{
  ℕ, ◌≡◌, refl, inl, inr, false, ◌||◌, Option, none, some, [], ◌∷◌, ◌++◌, arith, ◌==◌,
  if◌then◌else◌, Bool-cases,
}
use async_uv.Base.Bytes.{Bytes}
use async_uv.Sql.Text.{backslash, quote, pg_quote}

abbrev push : ℕ → Option (Bytes × Bytes) → Option (Bytes × Bytes)
push c none = none
push c (some (value, rest)) = some (c ∷ value, rest)

-- How libpq documents a quoted value, after the opening quote: a backslash makes the next byte
-- literal, a quote ends the value. The value and the text behind it, or none if it does not end.
unfoldable pub read_quoted : Bytes → Option (Bytes × Bytes)
read_quoted [] = none
read_quoted (c ∷ []) = if c == quote then some ([], []) else none
read_quoted (c ∷ d ∷ text) =
    let escaped = push d (read_quoted text) in
    let plain = push c (read_quoted (d ∷ text)) in
    if c == backslash then escaped else if c == quote then some ([], d ∷ text) else plain

read_quoted-cons :
    (c : ℕ) (text : Bytes)
    → (c == quote || c == backslash) ≡ false
    → read_quoted (c ∷ text) ≡ push c (read_quoted text)
unfolding read_quoted
read_quoted-cons c [] e = ground (arith, e)
read_quoted-cons c (d ∷ text) e = ground (arith, e)

read_quoted-escaped :
    (c : ℕ) (text : Bytes) → read_quoted (backslash ∷ c ∷ text) ≡ push c (read_quoted text)
unfolding read_quoted
read_quoted-escaped c text = refl

read_quoted-end : (rest : Bytes) → read_quoted (quote ∷ rest) ≡ some ([], rest)
unfolding read_quoted
read_quoted-end [] = refl
read_quoted-end (c ∷ rest) = refl

-- What `pg_quote` gives for any value, between quotes, reads back as the value and whatever
-- follows the closing quote: no value can end its quotes early.
pub read_quoted-pg_quote :
    (value rest : Bytes) → read_quoted (pg_quote value ++ quote ∷ rest) ≡ some (value, rest)
unfolding pg_quote
read_quoted-pg_quote [] rest = read_quoted-end rest
read_quoted-pg_quote (c ∷ value) rest = elim (Bool-cases (c == quote || c == backslash)) [
  | inl special ↦ rw special (
      rw (read_quoted-escaped c (pg_quote value ++ quote ∷ rest))
        (rw (read_quoted-pg_quote value rest)))
  | inr plain ↦ rw plain (
      rw (read_quoted-cons c (pg_quote value ++ quote ∷ rest) plain)
        (rw (read_quoted-pg_quote value rest)))
]
