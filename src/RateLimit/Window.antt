-- ===== src/RateLimit/Window.antt =====
-- The limiter as a counter with a window: what one key sees of the table, what a call leaves
-- alone, and how many calls a window lets through.
use Prim.Native.Nat.{max, min}
use async_uv.Base.{
  ℕ, ◌+◌, ◌-◌, ◌*◌, ◌≤◌, ◌<◌, ◌≡◌, ◌≢◌, inl, inr, true, not, Option, none, some, List, [], ◌∷◌, All,
  arith, leb, ltb, ◌%◌, ◌^◌, refl, subst, sym, if◌then◌else◌, Bool-cases, ◌=?◌, =?_refl, ap, ◌∙◌,
}
use async_uv.Base.Bytes.{Bytes, bytes_eq, bytes_beq_iff}
use async_uv.Base.Dict.{
  lookup, Distinct, keep_if, lookup-insert, lookup-insert_self, lookup-retain, insert-Distinct,
  retain-Distinct, insert-All, retain-All,
}
use async_uv.RateLimit.{
  Options, Entry, Limiter, ns_per_ms, expired, fresh_entry, EndsInTime, create_rate_limiter,
  cleanup, consume_at, try_consume,
}

-- The entry that a reading at `now` still counts.
abbrev pub live : Bytes → ℕ → Limiter → Option Entry
live key now l = keep_if (λ e. not (expired now e)) (lookup key l.entries)

abbrev WithinLimit : Limiter → Entry → Type 0
WithinLimit l e = (1 ≤ e.count) × (e.count ≤ max 1 l.options.max_requests)

pub record IsValid (l : Limiter) : Type 0 where
  pub distinct : Distinct l.entries
  pub counted : All (λ b. WithinLimit l b.1) l.entries

pub create_rate_limiter-IsValid : (o : Options) → IsValid (create_rate_limiter o)
unfolding create_rate_limiter
create_rate_limiter-IsValid o = record { distinct = tt; counted = tt }

pub cleanup-IsValid : (now : ℕ) (l : Limiter) → IsValid l → IsValid (cleanup now l)
unfolding cleanup
cleanup-IsValid now l v = record {
  distinct = retain-Distinct _ l.entries v.distinct;
  counted = retain-All (WithinLimit l) _ l.entries v.counted;
}

pub lookup-cleanup :
    (key : Bytes) (now : ℕ) (l : Limiter)
    → IsValid l
    → lookup key (cleanup now l).entries ≡ live key now l
unfolding cleanup
lookup-cleanup key now l v = lookup-retain _ key l.entries v.distinct

pub options-cleanup : (now : ℕ) (l : Limiter) → (cleanup now l).options ≡ l.options
unfolding cleanup
options-cleanup now l = refl

-- The part of `try_consume` behind the clean-up, with the entry at hand.
module _ (key : Bytes) (now : ℕ) (l : Limiter) where
  consume_at-IsValid :
      (o : Option Entry) → lookup key l.entries ≡ o → IsValid l → IsValid (consume_at key now l o).0
  unfolding consume_at
  consume_at-IsValid none q v = record {
    distinct = insert-Distinct key _ l.entries v.distinct;
    counted = insert-All (WithinLimit l) key _ l.entries (omega arith) v.counted;
  }
  consume_at-IsValid (some e) q v = elim (Bool-cases (expired now e)) [
    | inl old ↦ rw old (record {
      distinct = insert-Distinct key _ l.entries v.distinct;
      counted = insert-All (WithinLimit l) key _ l.entries (omega arith) v.counted;
    })
    | inr new ↦ elim (Bool-cases (leb l.options.max_requests e.count)) [
      | inl full ↦ rw (new, full) v
      | inr open_ ↦
          rw (new, open_)
            (record {
              distinct = insert-Distinct key _ l.entries v.distinct;
              counted = insert-All (WithinLimit l) key _ l.entries (ground arith) v.counted;
            })
    ]
  ]

  lookup-consume_at :
      (j : Bytes) (o : Option Entry)
      → key ≢ j
      → lookup j (consume_at key now l o).0.entries ≡ lookup j l.entries
  unfolding consume_at
  lookup-consume_at j none h =
      ground (arith, bytes_beq_iff key j, lookup-insert key j (fresh_entry l now) l.entries)
  lookup-consume_at j (some e) h = ground (
    arith,
    bytes_beq_iff key j,
    lookup-insert key j (fresh_entry l now) l.entries,
    lookup-insert key j (record e { count = e.count + 1 }) l.entries,
  )

pub try_consume-IsValid :
    (key : Bytes) (now : ℕ) (l : Limiter) → IsValid l → IsValid (try_consume key now l).0
unfolding try_consume
try_consume-IsValid key now l v =
    consume_at-IsValid key now (cleanup now l) _ refl (cleanup-IsValid now l v)

pub lookup-try_consume_ne :
    (key j : Bytes) (now : ℕ) (l : Limiter)
    → IsValid l
    → key ≢ j
    → lookup j (try_consume key now l).0.entries ≡ live j now l
unfolding try_consume
lookup-try_consume_ne key j now l v h =
    lookup-consume_at key now (cleanup now l) j _ h ∙ lookup-cleanup j now l v

-- A key without a live entry is let through, and opens a window.
pub try_consume_fresh :
    (key : Bytes) (now : ℕ) (l : Limiter)
    → IsValid l
    → live key now l ≡ none
    → ((try_consume key now l).1 ≡ true)
      × (lookup key (try_consume key now l).0.entries ≡ some (fresh_entry l now))
unfolding try_consume consume_at cleanup
try_consume_fresh key now l v q =
    rw (lookup-cleanup key now l v, q) (refl, lookup-insert_self key (fresh_entry l now) _)

live-eq-some :
    (key : Bytes) (now : ℕ) (l : Limiter) (e : Entry)
    → lookup key l.entries ≡ some e
    → now < e.reset_time
    → live key now l ≡ some e
live-eq-some key now l e q h = rw q (ground arith)

-- A key with a live entry is let through while its count is below the limit.
pub try_consume_live :
    (key : Bytes) (now : ℕ) (l : Limiter) (e : Entry)
    → IsValid l
    → lookup key l.entries ≡ some e
    → now < e.reset_time
    → ((try_consume key now l).1 ≡ not (leb l.options.max_requests e.count))
      × (lookup key (try_consume key now l).0.entries
          ≡ some
              (if leb l.options.max_requests e.count then e else record e { count = e.count + 1 }))
unfolding try_consume consume_at
try_consume_live key now l e v q h =
    rw (lookup-cleanup key now l v, live-eq-some key now l e q h)
      (ground (
        arith,
        lookup-insert_self key (record e { count = e.count + 1 }) (cleanup now l).entries,
        lookup-cleanup key now l v,
        live-eq-some key now l e q h,
        options-cleanup now l,
      ))

pub options-try_consume :
    (key : Bytes) (now : ℕ) (l : Limiter) → (try_consume key now l).0.options ≡ l.options
unfolding try_consume consume_at cleanup
options-try_consume key now l = ground arith

-- How many calls of one key are let through in a history of calls, each with its clock reading.
unfoldable pub accepted : Bytes → List (Bytes × ℕ) → Limiter → ℕ
accepted key [] l = 0
accepted key ((j, now) ∷ calls) l =
    let (l', ok) = try_consume j now l in
    (if j =? key then (if ok then 1 else 0) else 0) + accepted key calls l'

abbrev pub calls_of : Bytes → List (Bytes × ℕ) → ℕ
calls_of key [] = 0
calls_of key ((j, now) ∷ calls) = (if j =? key then 1 else 0) + calls_of key calls

abbrev pub AllBefore : ℕ → List (Bytes × ℕ) → Type 0
AllBefore end calls = All (λ c. c.1 < end) calls

-- While an entry lives, exactly the calls that its count leaves room for are let through.
accepted_live :
    (key : Bytes) (l : Limiter) (e : Entry) (calls : List (Bytes × ℕ))
    → IsValid l
    → lookup key l.entries ≡ some e
    → AllBefore e.reset_time calls
    → accepted key calls l ≡ min (calls_of key calls) (l.options.max_requests - e.count)
unfolding accepted
accepted_live key l e [] v q h = omega arith
accepted_live key l e ((j, now) ∷ calls) v q h = elim (Bool-cases (j =? key)) [
  | inl same ↦
      let same' : j ≡ key = (bytes_beq_iff j key).0 same in
      let step = try_consume_live key now l e v q h.0 in
      let l' = (try_consume key now l).0 in
      let v' = try_consume-IsValid key now l v in
      let o = options-try_consume key now l in
      rw (same', =?_refl key)
        (elim (Bool-cases (leb l.options.max_requests e.count)) [
          | inl full ↦
              ground (arith, full, o, step, accepted_live key l' e calls v' (rw full at step.1) h.1)
          | inr room ↦
              let e' : Entry = record e { count = e.count + 1 } in
              ground
                (arith, room, o, step, accepted_live key l' e' calls v' (rw room at step.1) h.1)
        ])
  | inr other ↦
      let ne : j ≢ key = λ p. cc (other, (bytes_beq_iff j key).1 p) in
      let kept = lookup-try_consume_ne j key now l v ne ∙ live-eq-some key now l e q h.0 in
      let ih =
        accepted_live key (try_consume j now l).0 e calls (try_consume-IsValid j now l v) kept
          h.1 in
      rw other
        (omega (arith, ih, ap (λ (o : Options). o.max_requests) (options-try_consume j now l)))
]

pub reset_time-fresh_entry :
    (l : Limiter) (now : ℕ)
    → EndsInTime now l
    → (fresh_entry l now).reset_time ≡ now + l.options.window * ns_per_ms
reset_time-fresh_entry l now h =
    let whole : (now + l.options.window * ns_per_ms) % 2 ^ 64 ≡ now + l.options.window * ns_per_ms =
      omega (arith, h) in
    let small : ltb (now + l.options.window * ns_per_ms) (2 ^ 63) ≡ true = ground (arith, h) in
    rw (whole, small) refl

-- From a state without a live entry of the key, a call lets it through and opens a window, if that
-- ends at a time point below 2 ^ 63 nanoseconds. Of this call and any later calls of all keys before
-- the window ends, as many calls of the key are let through as the limit allows (one, if the limit
-- is 0).
pub accepted_window :
    (key : Bytes) (start : ℕ) (l : Limiter) (calls : List (Bytes × ℕ))
    → IsValid l
    → live key start l ≡ none
    → EndsInTime start l
    → AllBefore (start + l.options.window * ns_per_ms) calls
    → accepted key ((key, start) ∷ calls) l
      ≡ min (calls_of key ((key, start) ∷ calls)) (max 1 l.options.max_requests)
unfolding accepted
accepted_window key start l calls v q fits h =
    let (ok, opened) = try_consume_fresh key start l v q in
    let l' = (try_consume key start l).0 in
    let rest =
      accepted_live key l' (fresh_entry l start) calls (try_consume-IsValid key start l v) opened
        (subst (λ end. AllBefore end calls) (sym (reset_time-fresh_entry l start fits)) h) in
    let o = options-try_consume key start l in
    rw (=?_refl key, ok) (omega (arith, rest, ap (λ (o : Options). o.max_requests) o))
