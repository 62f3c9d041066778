-- ===== src/Sql/Text/Numbers.antt =====
-- `parse_u64` reads what std::to_string writes.
use async_uv.Base.{
  ℕ, zero, suc, ◌+◌, ◌*◌, ◌/◌, ◌%◌, ◌^◌, ◌<◌, ◌≤◌, ◌≡◌, inl, inr, [], ◌∷◌, arith, ◌==◌, Bool-cases,
  ◌∙◌, ap,
}
use async_uv.Base.Bytes.{Bytes}
use async_uv.Base.Digits.{digit, digits_onto, decimal}
use async_uv.Sql.Text.{parse_u64_from, parse_u64}

parse_digit :
    (value d : ℕ) (text : Bytes)
    → d < 10
    → parse_u64_from value (digit d ∷ text) ≡ parse_u64_from ((value * 10 + d) % 2 ^ 64) text
unfolding parse_u64_from
parse_digit value d text h = ground (arith, h)

last_digit : (n : ℕ) → ((n / 10 % 2 ^ 64) * 10 + n % 10) % 2 ^ 64 ≡ n % 2 ^ 64
last_digit n = omega arith

parse-digits :
    (fuel n : ℕ) (behind : Bytes)
    → n < fuel
    → parse_u64_from 0 (digits_onto 10 fuel n behind) ≡ parse_u64_from (n % 2 ^ 64) behind
unfolding digits_onto
parse-digits zero n behind h = absurd (omega (arith, h))
parse-digits (suc fuel) n behind h = elim (Bool-cases (n / 10 == 0)) [
  | inl last ↦
      let small : n / 10 ≡ 0 = ground (arith, last) in
      rw last (
        parse_digit 0 (n % 10) behind (omega arith)
        ∙ ap (λ v. parse_u64_from v behind) (omega (arith, small)))
  | inr more ↦
      let big : 1 ≤ n / 10 = ground (arith, more) in
      rw more (
        parse-digits fuel (n / 10) (digit (n % 10) ∷ behind) (omega (arith, h, big))
        ∙ parse_digit (n / 10 % 2 ^ 64) (n % 10) behind (omega arith)
        ∙ ap (λ v. parse_u64_from v behind) (last_digit n))
]

-- The decimal digits of a number are read as the number modulo 2 ^ 64.
pub parse_u64-decimal : (n : ℕ) → parse_u64 (decimal n) ≡ n % 2 ^ 64
unfolding parse_u64 decimal parse_u64_from
parse_u64-decimal n = parse-digits (suc n) n [] (omega arith)
