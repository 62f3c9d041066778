-- ===== src/RateLimit/Views.antt =====
-- What `remaining` reports, before and after the calls that change the table.
use async_uv.Base.{
  leb, ◌*◌, ◌+◌, false, refl, ℕ, ◌-◌, ◌≤◌, ◌<◌, ◌≡◌, ◌≢◌, ◌↔◌, ◌⊎◌, inl, inr, true, not, Option,
  none, some, arith, Bool-cases, Option-cases, ap, ◌∙◌,
}
use async_uv.Base.Bytes.{Bytes, bytes_eq}
use async_uv.Base.Dict.{lookup, keep_if}
use async_uv.RateLimit.{
  EndsInTime, ns_per_ms, fresh_entry, Options, Entry, Limiter, expired, cleanup, try_consume,
  remaining,
}
use async_uv.RateLimit.Window.{
  reset_time-fresh_entry, live, IsValid, lookup-cleanup, options-cleanup, try_consume_fresh,
  try_consume_live, options-try_consume, lookup-try_consume_ne,
}

-- `remaining` sees the live entries only.
remaining-live :
    (key : Bytes) (now : ℕ) (l m : Limiter)
    → l.options ≡ m.options
    → live key now l ≡ live key now m
    → remaining key now l ≡ remaining key now m
unfolding remaining
remaining-live key now l m o h = ground (arith, ap (λ (p : Options). p.max_requests) o)

keep_if_twice :
    (s t : ℕ) (o : Option Entry)
    → s ≤ t
    → keep_if (λ e. not (expired t e)) (keep_if (λ e. not (expired s e)) o)
      ≡ keep_if (λ e. not (expired t e)) o
keep_if_twice s t none h = refl
keep_if_twice s t (some e) h = ground arith

-- Sweeping the table at one time changes no later report.
pub remaining-cleanup :
    (key : Bytes) (s t : ℕ) (l : Limiter)
    → IsValid l
    → s ≤ t
    → remaining key t (cleanup s l) ≡ remaining key t l
remaining-cleanup key s t l v h = remaining-live key t (cleanup s l) l (options-cleanup s l) (
    ap (keep_if (λ e. not (expired t e))) (lookup-cleanup key s l v)
    ∙ keep_if_twice s t (lookup key l.entries) h)

-- A call with one key changes no later report about another key.
pub remaining-try_consume_ne :
    (key other : Bytes) (s t : ℕ) (l : Limiter)
    → IsValid l
    → key ≢ other
    → s ≤ t
    → remaining other t (try_consume key s l).0 ≡ remaining other t l
remaining-try_consume_ne key other s t l v ne h =
    remaining-live other t (try_consume key s l).0 l (options-try_consume key s l) (
      ap (keep_if (λ e. not (expired t e))) (lookup-try_consume_ne key other s l v ne)
      ∙ keep_if_twice s t (lookup other l.entries) h)

live-cases :
    (key : Bytes) (now : ℕ) (l : Limiter)
    → (live key now l ≡ none)
      ⊎ ((e : Entry) × (lookup key l.entries ≡ some e) × (now < e.reset_time))
live-cases key now l = elim (Option-cases (lookup key l.entries)) [
  | inl gone ↦ inl (rw gone)
  | inr (e, found) ↦ elim (Bool-cases (expired now e)) [
    | inl old ↦ inl (rw (found) (ground (arith, old)))
    | inr new ↦ inr (e, found, ground (arith, new))
  ]
]

-- A call lets the key through exactly when no window of the key is open or something remains.
pub try_consume_iff :
    (key : Bytes) (now : ℕ) (l : Limiter)
    → IsValid l
    → ((try_consume key now l).1 ≡ true) ↔ ((live key now l ≡ none) ⊎ (0 < remaining key now l))
unfolding remaining
try_consume_iff key now l v = elim (live-cases key now l) [
  | inl gone ↦ (λ _. inl gone, λ _. (try_consume_fresh key now l v gone).0)
  | inr (e, found, early) ↦
      let step = try_consume_live key now l e v found early in ground (arith, step, found, early)
]

remaining-opened :
    (key : Bytes) (now : ℕ) (l l' : Limiter) (e : Entry)
    → live key now l ≡ none
    → lookup key l'.entries ≡ some e
    → e.count ≡ 1
    → expired now e ≡ false
    → l'.options.max_requests ≡ l.options.max_requests
    → remaining key now l' ≡ remaining key now l - 1
unfolding remaining
remaining-opened key now l l' e gone found one early same =
    ground (arith, gone, found, one, early, same)

window_open :
    (now window end : ℕ) → 0 < window → end ≡ now + window * ns_per_ms → leb end now ≡ false
window_open now window end w h = ground (arith, w, h)

-- With a window that is not empty, and that ends below 2 ^ 63 nanoseconds if it is opened now, a call
-- takes one from what remains, unless nothing remains.
pub remaining-try_consume :
    (key : Bytes) (now : ℕ) (l : Limiter)
    → IsValid l
    → 0 < l.options.window
    → EndsInTime now l
    → remaining key now (try_consume key now l).0 ≡ remaining key now l - 1
unfolding remaining
remaining-try_consume key now l v w fits = elim (live-cases key now l) [
  | inl gone ↦
      let step = try_consume_fresh key now l v gone in
      let end = reset_time-fresh_entry l now fits in
      let early = window_open now l.options.window (fresh_entry l now).reset_time w end in
      let o = ap (λ (p : Options). p.max_requests) (options-try_consume key now l) in
      remaining-opened key now l (try_consume key now l).0 (fresh_entry l now) gone step.1 refl
        early o
  | inr (e, found, early) ↦
      let step = try_consume_live key now l e v found early in
      let o = ap (λ (p : Options). p.max_requests) (options-try_consume key now l) in
      ground (arith, step, o, found, early)
]
