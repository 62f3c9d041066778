-- ===== src/Sql/Tests.antt =====
-- Runs of the functions on statements, and the theorems at them.
use async_uv.Base.{◌%◌, ◌^◌, ◌≡◌, refl, some, ◌∷◌, ◌++◌, arith}
use async_uv.Base.Bytes.{Bytes, lit}
use async_uv.Base.Digits.{digits_onto, decimal}
use async_uv.Sql.Text.{
  parse_u64, parse_u64_from, pg_quote, quote, outside, rewrite_step, rewritten, rewrite_from,
  rewrite_qmark_to_dollar, count_step, counted, count_from, count_placeholders,
}
use async_uv.Sql.Text.Numbers.{parse_u64-decimal}
use async_uv.Sql.Text.Quoting.{read_quoted, read_quoted-pg_quote}
use async_uv.Sql.Text.Rewriting.{
  IsSimple, count-rewrite, rewritten_count, rewritten_count-count_placeholders,
}

abbrev insert_row : Bytes
insert_row = lit "VALUES (?, '?', ?)"

running : Unit {0}
unfolding parse_u64 parse_u64_from pg_quote rewrite_from rewrite_step rewritten
    rewrite_qmark_to_dollar count_placeholders count_from count_step counted decimal digits_onto
    read_quoted
running = tt

two_rewritten : rewrite_qmark_to_dollar insert_row ≡ lit "VALUES ($1, '?', $2)"
unfolding running
two_rewritten = refl

two_counted : count_placeholders insert_row ≡ 2
unfolding running
two_counted = refl

-- 2 ^ 64 + 5 wraps around.
port_read : parse_u64 (lit "18446744073709551621") ≡ 5
unfolding running
port_read = refl

insert_row-IsSimple : IsSimple insert_row
insert_row-IsSimple = ground arith

count-rewrite_example : count_placeholders (rewrite_qmark_to_dollar insert_row) ≡ 0
count-rewrite_example = count-rewrite insert_row insert_row-IsSimple

rewritten_count-count_placeholders_example :
    rewritten_count outside insert_row ≡ count_placeholders insert_row
rewritten_count-count_placeholders_example =
    rewritten_count-count_placeholders insert_row insert_row-IsSimple

read_quoted-pg_quote_example :
    read_quoted (pg_quote (lit "o'neil") ++ quote ∷ lit " port=1")
    ≡ some (lit "o'neil", lit " port=1")
read_quoted-pg_quote_example = read_quoted-pg_quote (lit "o'neil") (lit " port=1")

parse_u64-decimal_example : parse_u64 (decimal 5432) ≡ 5432 % 2 ^ 64
parse_u64-decimal_example = parse_u64-decimal 5432
