-- ===== src/Sql/Text/Rewriting.antt =====
-- `rewrite_qmark_to_dollar` against `count_placeholders`.
use async_uv.Base.{
  ℕ, zero, suc, ◌/◌, ◌%◌, ◌<◌, ◌≤◌, ◌≡◌, refl, ◌≢◌, inl, inr, true, false, [], ◌∷◌, ◌++◌, arith,
  ◌==◌, if◌then◌else◌, Bool-cases, All,
}
use async_uv.Base.Bytes.{Bytes}
use async_uv.Base.Digits.{digit, digits_onto, decimal}
use async_uv.Sql.Text.{
  backslash, quote, backtick, QuoteState, outside, rewrite_step, rewritten, rewrite_from,
  rewrite_qmark_to_dollar, CountState, count_step, counted, count_from, count_placeholders,
}

-- A byte that changes neither loop's flags and is no placeholder.
abbrev IsPlain : ℕ → Type 0
IsPlain c = (b'$' ≤ c) × (c ≢ quote) × (c < b'?')

digit-IsPlain : (d : ℕ) → d < 10 → IsPlain (digit d)
digit-IsPlain d h = ground (arith, h)

digits_onto-IsPlain :
    (fuel n : ℕ) (behind : Bytes) → All IsPlain behind → All IsPlain (digits_onto 10 fuel n behind)
unfolding digits_onto
digits_onto-IsPlain zero n behind h = h
digits_onto-IsPlain (suc fuel) n behind h =
    let here : All IsPlain (digit (n % 10) ∷ behind) = (digit-IsPlain (n % 10) (omega arith), h) in
    elim (Bool-cases (n / 10 == 0)) [
      | inl last ↦ rw last here
      | inr more ↦ rw more (digits_onto-IsPlain fuel (n / 10) (digit (n % 10) ∷ behind) here)
    ]

decimal-IsPlain : (n : ℕ) → All IsPlain (decimal n)
unfolding decimal
decimal-IsPlain n = digits_onto-IsPlain (suc n) n [] tt

-- The same flags, for a text without backslashes and backticks.
abbrev same_flags : QuoteState → CountState
same_flags q = record {
  in_single = q.in_single;
  in_double = q.in_double;
  in_backtick = false;
  escape = false;
}

count_from-plain :
    (q : QuoteState) (c : ℕ) (sql : Bytes)
    → IsPlain c
    → count_from (same_flags q) (c ∷ sql) ≡ count_from (same_flags q) sql
unfolding count_from count_step counted
count_from-plain q c sql h = ground (arith, h)

count_from-append :
    (q : QuoteState) (plain sql : Bytes)
    → All IsPlain plain
    → count_from (same_flags q) (plain ++ sql) ≡ count_from (same_flags q) sql
count_from-append q [] sql h = refl
count_from-append q (c ∷ plain) sql h =
    rw (count_from-plain q c (plain ++ sql) h.0) (count_from-append q plain sql h.1)

-- No byte of the text is a backslash or a backtick.
abbrev pub IsSimple : Bytes → Type 0
IsSimple sql = All (λ c. (c ≢ backslash) × (c ≢ backtick)) sql

step_same :
    (q : QuoteState) (c : ℕ)
    → (c ≢ backslash) × (c ≢ backtick)
    → q.escape ≡ false
    → count_step (same_flags q) c ≡ same_flags (rewrite_step q c)
unfolding count_step rewrite_step
step_same q c h e = ground (arith, h.0, h.1, e)

step_escape :
    (q : QuoteState) (c : ℕ)
    → (c ≢ backslash) × (c ≢ backtick)
    → q.escape ≡ false
    → (rewrite_step q c).escape ≡ false
unfolding rewrite_step
step_escape q c h e = ground (arith, h.0, e)

same_counted :
    (q : QuoteState) (c : ℕ) → q.escape ≡ false → counted (same_flags q) c ≡ rewritten q c
unfolding counted rewritten
same_counted q c e = ground (arith, e)

rewritten_step : (q : QuoteState) (c : ℕ) → rewritten q c ≡ true → rewrite_step q c ≡ q
unfolding rewritten rewrite_step
rewritten_step q c e = ground (arith, e)

count-rewrite_from :
    (q : QuoteState) (index : ℕ) (sql : Bytes)
    → q.escape ≡ false
    → IsSimple sql
    → count_from (same_flags q) (rewrite_from q index sql) ≡ 0
unfolding rewrite_from count_from
count-rewrite_from q index [] e h = refl
count-rewrite_from q index (c ∷ sql) e h = elim (Bool-cases (rewritten q c)) [
  | inl mark ↦ simp (
    mark,
    count_from-append q (decimal index),
    decimal-IsPlain index,
    count-rewrite_from q (suc index) sql e h.1,
  )
  | inr other ↦ simp (
    other,
    same_counted q c e,
    step_same q c h.0 e,
    count-rewrite_from (rewrite_step q c) index sql (step_escape q c h.0 e) h.1,
  )
]

-- In a statement without backslashes and backticks no placeholder is left once it is rewritten.
pub count-rewrite :
    (sql : Bytes) → IsSimple sql → count_placeholders (rewrite_qmark_to_dollar sql) ≡ 0
unfolding count_placeholders rewrite_qmark_to_dollar
count-rewrite sql h = count-rewrite_from outside 1 sql refl h

-- How many placeholders the loop of `rewrite_qmark_to_dollar` numbers.
abbrev pub rewritten_count : QuoteState → Bytes → ℕ
rewritten_count q [] = 0
rewritten_count q (c ∷ sql) =
    let rest = rewritten_count (rewrite_step q c) sql in if rewritten q c then suc rest else rest

count-rewritten_from :
    (q : QuoteState) (sql : Bytes)
    → q.escape ≡ false
    → IsSimple sql
    → rewritten_count q sql ≡ count_from (same_flags q) sql
unfolding count_from
count-rewritten_from q [] e h = refl
count-rewritten_from q (c ∷ sql) e h = simp (
  same_counted q c e,
  step_same q c h.0 e,
  count-rewritten_from (rewrite_step q c) sql (step_escape q c h.0 e) h.1,
)

-- In a statement without backslashes and backticks the placeholders that are rewritten are as many
-- as `count_placeholders` counts.
pub rewritten_count-count_placeholders :
    (sql : Bytes) → IsSimple sql → rewritten_count outside sql ≡ count_placeholders sql
unfolding count_placeholders
rewritten_count-count_placeholders sql h = count-rewritten_from outside sql refl h

not_mark-rewritten : (q : QuoteState) (c : ℕ) → c ≢ b'?' → rewritten q c ≡ false
unfolding rewritten
not_mark-rewritten q c h = ground (arith, h)

rewrite_from-unchanged :
    (q : QuoteState) (index : ℕ) (sql : Bytes)
    → All (λ c. c ≢ b'?') sql
    → rewrite_from q index sql ≡ sql
unfolding rewrite_from
rewrite_from-unchanged q index [] h = refl
rewrite_from-unchanged q index (c ∷ sql) h =
    simp (not_mark-rewritten q c h.0, rewrite_from-unchanged (rewrite_step q c) index sql h.1)

-- A statement without a question mark is left as it is.
pub rewrite_unchanged : (sql : Bytes) → All (λ c. c ≢ b'?') sql → rewrite_qmark_to_dollar sql ≡ sql
unfolding rewrite_qmark_to_dollar
rewrite_unchanged sql h = rewrite_from-unchanged outside 1 sql h
