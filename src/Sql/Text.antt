-- ===== src/Sql/Text.antt =====
-- layer2/src/sql.cpp: the functions on the text of statements and connection strings. `int` and
-- `std::size_t` counters do not overflow: they count bytes of a text in memory.
pub mod Numbers
pub mod Quoting
pub mod Rewriting
use async_uv.Base.{
  ℕ, suc, ◌+◌, ◌-◌, ◌*◌, ◌%◌, ◌^◌, Bool, true, false, not, ◌&&◌, ◌||◌, Option, none, some, List, [],
  ◌∷◌, ◌++◌, ◌==◌, leb, if◌then◌else◌,
}
use async_uv.Base.Bytes.{Bytes}
use async_uv.Base.Digits.{decimal}

abbrev is_digit : ℕ → Bool
is_digit c = leb b'0' c && leb c b'9'

-- The loop of `parse_u64`, with the value so far.
unfoldable pub parse_u64_from : ℕ → Bytes → ℕ
parse_u64_from value [] = value
parse_u64_from value (c ∷ text) =
    let rest = parse_u64_from ((value * 10 + (c - b'0')) % 2 ^ 64) text in
    if is_digit c then rest else 0

unfoldable pub parse_u64 : Bytes → ℕ
unfolding parse_u64_from
parse_u64 text = parse_u64_from 0 text

abbrev pub backslash : ℕ
backslash = 92

abbrev pub quote : ℕ
quote = 39

abbrev pub double_quote : ℕ
double_quote = 34

abbrev pub backtick : ℕ
backtick = 96

unfoldable pub pg_quote : Bytes → Bytes
pg_quote [] = []
pg_quote (c ∷ value) =
    if c == quote || c == backslash then backslash ∷ c ∷ pg_quote value else c ∷ pg_quote value

-- The flags of the loop of `rewrite_qmark_to_dollar`.
pub record QuoteState : Type 0 where
  pub in_single : Bool
  pub in_double : Bool
  pub escape : Bool

abbrev pub outside : QuoteState
outside = record { in_single = false; in_double = false; escape = false }

-- The flags after a byte.
unfoldable pub rewrite_step : QuoteState → ℕ → QuoteState
rewrite_step q c =
    if q.escape
    then record q { escape = false }
    else if c == backslash && q.in_single
    then record q { escape = true }
    else if c == quote && not q.in_double
    then record q { in_single = not q.in_single }
    else if c == double_quote && not q.in_single
    then record q { in_double = not q.in_double }
    else q

-- Whether a byte is a placeholder that the loop rewrites.
unfoldable pub rewritten : QuoteState → ℕ → Bool
rewritten q c = not q.escape && (c == b'?' && (not q.in_single && not q.in_double))

-- The loop of `rewrite_qmark_to_dollar`: what it writes for the rest of the text.
unfoldable pub rewrite_from : QuoteState → ℕ → Bytes → Bytes
unfolding rewrite_step rewritten decimal
rewrite_from q index [] = []
rewrite_from q index (c ∷ sql) =
    if rewritten q c
    then b'$' ∷ (decimal index ++ rewrite_from q (suc index) sql)
    else c ∷ rewrite_from (rewrite_step q c) index sql

unfoldable pub rewrite_qmark_to_dollar : Bytes → Bytes
unfolding rewrite_from
rewrite_qmark_to_dollar sql = rewrite_from outside 1 sql

-- The flags of the loop of `count_placeholders`.
pub record CountState : Type 0 where
  pub in_single : Bool
  pub in_double : Bool
  pub in_backtick : Bool
  pub escape : Bool

abbrev pub count_outside : CountState
count_outside = record { in_single = false; in_double = false; in_backtick = false; escape = false }

unfoldable pub count_step : CountState → ℕ → CountState
count_step q c =
    if q.escape
    then record q { escape = false }
    else if c == backslash && (q.in_single || q.in_double)
    then record q { escape = true }
    else if c == quote && (not q.in_double && not q.in_backtick)
    then record q { in_single = not q.in_single }
    else if c == double_quote && (not q.in_single && not q.in_backtick)
    then record q { in_double = not q.in_double }
    else if c == backtick && (not q.in_single && not q.in_double)
    then record q { in_backtick = not q.in_backtick }
    else q

unfoldable pub counted : CountState → ℕ → Bool
counted q c =
    not q.escape && (c == b'?' && (not q.in_single && (not q.in_double && not q.in_backtick)))

unfoldable pub count_from : CountState → Bytes → ℕ
unfolding count_step counted
count_from q [] = 0
count_from q (c ∷ sql) =
    let rest = count_from (count_step q c) sql in if counted q c then suc rest else rest

unfoldable pub count_placeholders : Bytes → ℕ
unfolding count_from
count_placeholders sql = count_from count_outside sql
