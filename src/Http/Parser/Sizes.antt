-- ===== src/Http/Parser/Sizes.antt =====
-- The size line that the server writes for a chunk (Http/Server) as the parser reads it.
use mathlib.Core.List.{reverse, reverse-cons, reverse-reverse}
use async_uv.Base.{
  ℕ, zero, suc, ◌+◌, ◌*◌, ◌/◌, ◌%◌, ◌^◌, ◌≤◌, ◌<◌, ◌≡◌, refl, ◌≢◌, ◌⊎◌, inl, inr, Bool, true, false,
  ◌&&◌, ◌||◌, some, [], ◌∷◌, ◌++◌, arith, ◌==◌, ltb, Bool-cases, length, All, All-append, All-map,
  ap, ◌∙◌, sym, subst,
}
use async_uv.Base.Bytes.{Bytes, strip_prefix}
use async_uv.Base.Digits.{digit, digits_onto, hexadecimal}
use async_uv.Base.Search.{drop_while, drop_while_back, find_text}
use async_uv.Base.Splitting.{cut_at-whole}
use async_uv.Http.Parser.{ok, ParserOptions, crlf, is_space, trim_copy, exceeds_limit}
use async_uv.Http.Parser.Numbers.{hex_from, is_hex, without_prefix, stoull}
use async_uv.Http.Parser.Chunks.{chunk_size}

-- A digit as the server writes it.
abbrev pub IsDigit : ℕ → Type 0
IsDigit c = ((b'0' ≤ c) × (c ≤ b'9')) ⊎ ((b'a' ≤ c) × (c ≤ b'f'))

digit-IsDigit : (d : ℕ) → d < 16 → IsDigit (digit d)
digit-IsDigit d h = elim (Bool-cases (ltb d 10)) [
  | inl small ↦ rw small (inl (ground (arith, small)))
  | inr big ↦ rw big (inr (ground (arith, big, h)))
]

digits_onto-IsDigit :
    (fuel n : ℕ) (behind : Bytes) → All IsDigit behind → All IsDigit (digits_onto 16 fuel n behind)
unfolding digits_onto
digits_onto-IsDigit zero n behind h = h
digits_onto-IsDigit (suc fuel) n behind h =
    let here : All IsDigit (digit (n % 16) ∷ behind) = (digit-IsDigit (n % 16) (omega arith), h) in
    elim (Bool-cases (n / 16 == 0)) [
      | inl last ↦ rw last here
      | inr more ↦ rw more (digits_onto-IsDigit fuel (n / 16) (digit (n % 16) ∷ behind) here)
    ]

pub hexadecimal-IsDigit : (n : ℕ) → All IsDigit (hexadecimal n)
unfolding hexadecimal
hexadecimal-IsDigit n = digits_onto-IsDigit (suc n) n [] tt

hex_from-digit :
    (value d : ℕ) (text : Bytes)
    → d < 16
    → hex_from value (digit d ∷ text) ≡ hex_from (value * 16 + d) text
unfolding hex_from
hex_from-digit value d text h = ground (arith, h)

hex_from-digits :
    (fuel n : ℕ) (behind : Bytes)
    → n < fuel
    → hex_from 0 (digits_onto 16 fuel n behind) ≡ hex_from n behind
unfolding digits_onto
hex_from-digits zero n behind h = absurd (omega (arith, h))
hex_from-digits (suc fuel) n behind h = elim (Bool-cases (n / 16 == 0)) [
  | inl last ↦
      let small : n / 16 ≡ 0 = ground (arith, last) in
      rw last (
        hex_from-digit 0 (n % 16) behind (omega arith)
        ∙ ap (λ v. hex_from v behind) (omega (arith, small)))
  | inr more ↦
      let big : 1 ≤ n / 16 = ground (arith, more) in
      rw more (
        hex_from-digits fuel (n / 16) (digit (n % 16) ∷ behind) (omega (arith, h, big))
        ∙ hex_from-digit (n / 16) (n % 16) behind (omega arith)
        ∙ ap (λ v. hex_from v behind) (omega arith))
]

digit_starts_number :
    (c : ℕ) (text : Bytes)
    → IsDigit c
    → ((c == b'-') ≡ false) × (((c == b'+') ≡ false) × (is_hex (c ∷ text) ≡ true))
digit_starts_number c text (inl h) = ground (arith, h)
digit_starts_number c text (inr h) = ground (arith, h)

digit_not_x : (d : ℕ) → IsDigit d → (d == b'x' || d == b'X') ≡ false
digit_not_x d (inl h) = ground (arith, h)
digit_not_x d (inr h) = ground (arith, h)

and_false : (a b : Bool) → b ≡ false → (a && b) ≡ false
and_false a b h = ground (arith, h)

without_prefix-digits : (s : Bytes) → All IsDigit s → without_prefix s ≡ s
without_prefix-digits [] h = refl
without_prefix-digits (c ∷ []) h = refl
without_prefix-digits (c ∷ d ∷ s) (_, (h, _)) =
    let e : (c == b'0' && ((d == b'x' || d == b'X') && is_hex s)) ≡ false =
      and_false (c == b'0') ((d == b'x' || d == b'X') && is_hex s) (rw (digit_not_x d h) refl) in
    rw e refl

stoull-digits :
    (s : Bytes)
    → All IsDigit s
    → 1 ≤ length s
    → hex_from 0 s < 2 ^ 64
    → stoull s ≡ some (hex_from 0 s)
unfolding stoull
stoull-digits [] h long le = absurd (omega (arith, long))
stoull-digits (c ∷ text) h long le =
    let (minus, (plus, hex)) = digit_starts_number c text h.0 in
    let small : ltb (hex_from 0 (c ∷ text)) (2 ^ 64) ≡ true = ground (arith, le) in
    rw (minus, plus, hex, without_prefix-digits (c ∷ text) h, small) refl

All-reverse : (P : ℕ → Type 0) (s : Bytes) → All P s → All P (reverse s)
All-reverse P [] h = tt
All-reverse P (c ∷ s) h =
    subst (All P) (sym (reverse-cons c s))
      (All-append P (reverse s) (c ∷ []) (All-reverse P s h.1) (h.0, tt))

digit_not_space : (c : ℕ) → IsDigit c → is_space c ≡ false
digit_not_space c (inl h) = ground (arith, h)
digit_not_space c (inr h) = ground (arith, h)

drop_while-digits : (s : Bytes) → All IsDigit s → drop_while is_space s ≡ s
unfolding drop_while
drop_while-digits [] h = refl
drop_while-digits (c ∷ s) h = rw (digit_not_space c h.0) refl

trim-digits : (s : Bytes) → All IsDigit s → trim_copy s ≡ s
unfolding trim_copy drop_while_back
trim-digits s h =
    ap (λ t. reverse (drop_while is_space (reverse t))) (drop_while-digits s h)
    ∙ ap reverse (drop_while-digits (reverse s) (All-reverse IsDigit s h))
    ∙ reverse-reverse s

pub find_text-line :
    (s rest : Bytes) → All IsDigit s → find_text crlf (s ++ (crlf ++ rest)) ≡ some (s, rest)
unfolding find_text strip_prefix
find_text-line [] rest h = refl
find_text-line (c ∷ s) rest (inl h, hs) = ground (arith, h, find_text-line s rest hs)
find_text-line (c ∷ s) rest (inr h, hs) = ground (arith, h, find_text-line s rest hs)

length-digits_onto :
    (fuel n : ℕ) (behind : Bytes) → 1 ≤ length behind → 1 ≤ length (digits_onto 16 fuel n behind)
unfolding digits_onto
length-digits_onto zero n behind h = h
length-digits_onto (suc fuel) n behind h = elim (Bool-cases (n / 16 == 0)) [
  | inl last ↦ rw last (omega arith)
  | inr more ↦ rw more (length-digits_onto fuel (n / 16) (digit (n % 16) ∷ behind) (omega arith))
]

length-hexadecimal : (n : ℕ) → 1 ≤ length (hexadecimal n)
unfolding hexadecimal digits_onto
length-hexadecimal n = elim (Bool-cases (n / 16 == 0)) [
  | inl last ↦ rw last (omega arith)
  | inr more ↦ rw more (length-digits_onto n (n / 16) (digit (n % 16) ∷ []) (omega arith))
]

hex_from-hexadecimal : (n : ℕ) → hex_from 0 (hexadecimal n) ≡ n
unfolding hexadecimal hex_from
hex_from-hexadecimal n = hex_from-digits (suc n) n [] (omega arith)

pub stoull-hexadecimal : (n : ℕ) → n < 2 ^ 64 → stoull (hexadecimal n) ≡ some n
stoull-hexadecimal n h =
    let e : hex_from 0 (hexadecimal n) ≡ n = hex_from-hexadecimal n in
    stoull-digits (hexadecimal n) (hexadecimal-IsDigit n) (length-hexadecimal n)
      (omega (arith, e, h))
    ∙ ap some e

digit_not_semicolon : (c : ℕ) → IsDigit c → c ≢ b';'
digit_not_semicolon c (inl h) = ground (arith, h)
digit_not_semicolon c (inr h) = ground (arith, h)

pub chunk_size-hexadecimal :
    (options : ParserOptions) (n : ℕ)
    → exceeds_limit options.max_header_line_size (length (hexadecimal n)) ≡ false
    → n < 2 ^ 64
    → chunk_size options (hexadecimal n) ≡ ok n
unfolding chunk_size
chunk_size-hexadecimal options n fits h =
    rw
      (
        fits,
        cut_at-whole b';' (hexadecimal n)
            (All-map (hexadecimal n) digit_not_semicolon (hexadecimal-IsDigit n)),
        trim-digits (hexadecimal n) (hexadecimal-IsDigit n),
        stoull-hexadecimal n h,
      )
      refl
