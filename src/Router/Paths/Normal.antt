-- ===== src/Router/Paths/Normal.antt =====
-- What normalized paths look like.
use async_uv.Base.{
  ℕ, ◌≡◌, refl, ◌≢◌, ◌⊎◌, inl, inr, Bool, true, false, some, [], ◌∷◌, arith, ◌==◌, Bool-cases,
  subst, sym, ap, ◌∙◌,
}
use async_uv.Base.Bytes.{Bytes, last_byte, drop_last}
use async_uv.Http.Target.{UrlLibrary, parse_request_target}
use async_uv.Router.Paths.{squash, rooted, without_last_slash, normalize_path}

-- No slash follows a slash; the flag says that one stands in front.
abbrev pub HasNoRun : Bool → Bytes → Type 0
HasNoRun after_slash [] = Unit
HasNoRun after_slash (c ∷ path) = ((after_slash ≡ true) → c ≢ b'/') × HasNoRun (c == b'/') path

squash-HasNoRun : (b : Bool) (path : Bytes) → HasNoRun b (squash b path)
unfolding squash
squash-HasNoRun b [] = tt
squash-HasNoRun b (c ∷ path) = elim (Bool-cases (c == b'/')) [
  | inl sep ↦ elim (Bool-cases b) [
    | inl after ↦ simp (sep, after) (squash-HasNoRun true path)
    | inr first ↦ rw (sep, first) ((λ e. cc), squash-HasNoRun true path)
  ]
  | inr other ↦ rw other ((λ e q. ground (arith, other, q)), rw other (squash-HasNoRun false path))
]

-- The last byte is no slash; the flag says that one stands in front of an empty text.
abbrev pub EndsWell : Bool → Bytes → Type 0
EndsWell after_slash [] = after_slash ≡ false
EndsWell after_slash (c ∷ path) = EndsWell (c == b'/') path

drop_last-HasNoRun : (b : Bool) (path : Bytes) → HasNoRun b path → HasNoRun b (drop_last path)
unfolding drop_last
drop_last-HasNoRun b [] h = tt
drop_last-HasNoRun b (c ∷ []) h = tt
drop_last-HasNoRun b (c ∷ d ∷ path) h = (h.0, drop_last-HasNoRun (c == b'/') (d ∷ path) h.1)

drop_last-EndsWell :
    (c : ℕ) (path : Bytes)
    → HasNoRun false (c ∷ path)
    → last_byte (c ∷ path) ≡ some b'/'
    → EndsWell false (drop_last (c ∷ path))
unfolding drop_last last_byte
drop_last-EndsWell c [] h e = refl
drop_last-EndsWell c (d ∷ []) h e =
    let is_slash : d ≡ b'/' = cc e in
    elim (Bool-cases (c == b'/')) [ inl sep ↦ absurd (h.1.0 sep is_slash) | inr other ↦ other ]
drop_last-EndsWell c (d ∷ x ∷ path) h e = drop_last-EndsWell d (x ∷ path) ((λ q. cc), h.1.1) e

EndsWell-last :
    (c : ℕ) (path : Bytes) (b : ℕ)
    → last_byte (c ∷ path) ≡ some b
    → (b == b'/') ≡ false
    → EndsWell false (c ∷ path)
unfolding last_byte
EndsWell-last c [] b e h = let same : c ≡ b = cc e in subst (λ x. (x == b'/') ≡ false) (sym same) h
EndsWell-last c (d ∷ path) b e h = EndsWell-last d path b e h

has_last : (c : ℕ) (path : Bytes) → (b : ℕ) × (last_byte (c ∷ path) ≡ some b)
unfolding last_byte
has_last c [] = (c, refl)
has_last c (d ∷ path) = has_last d path

-- A slash first, no two slashes in a row, and none at the end unless it is all there is.
abbrev pub IsNormal : Bytes → Type 0
IsNormal path =
    (rest : Bytes) × (path ≡ b'/' ∷ rest) × HasNoRun true rest × ((rest ≡ []) ⊎ EndsWell false rest)

without_last_slash-cut :
    (a c : ℕ) (rest : Bytes)
    → last_byte (c ∷ rest) ≡ some b'/'
    → without_last_slash (a ∷ c ∷ rest) ≡ a ∷ drop_last (c ∷ rest)
unfolding without_last_slash
without_last_slash-cut a c rest e = ground (arith, e)

without_last_slash-keep :
    (a c : ℕ) (rest : Bytes) (b : ℕ)
    → last_byte (c ∷ rest) ≡ some b
    → (b == b'/') ≡ false
    → without_last_slash (a ∷ c ∷ rest) ≡ a ∷ c ∷ rest
unfolding without_last_slash
without_last_slash-keep a c rest b e h = ground (arith, e, h)

without_last_slash-IsNormal :
    (rest : Bytes) → HasNoRun true rest → IsNormal (without_last_slash (b'/' ∷ rest))
unfolding without_last_slash
without_last_slash-IsNormal [] h = ([], refl, tt, inl refl)
without_last_slash-IsNormal (c ∷ rest) h =
    let weaker : HasNoRun false (c ∷ rest) = ((λ q. cc), h.1) in
    let (b, e) = has_last c rest in
    elim (Bool-cases (b == b'/')) [
      | inl sep ↦
          let at_end : last_byte (c ∷ rest) ≡ some b'/' = ground (arith, e, sep) in
          (
            drop_last (c ∷ rest),
            without_last_slash-cut b'/' c rest at_end,
            drop_last-HasNoRun true (c ∷ rest) h,
            inr (drop_last-EndsWell c rest weaker at_end),
          )
      | inr other ↦ (
        c ∷ rest,
        without_last_slash-keep b'/' c rest b e other,
        h,
        inr (EndsWell-last c rest b e other),
      )
    ]

rooted-slash : (path : Bytes) → (rest : Bytes) × (rooted path ≡ b'/' ∷ rest) × HasNoRun true rest
unfolding rooted squash
rooted-slash [] = ([], refl, tt)
rooted-slash (c ∷ path) = elim (Bool-cases (c == b'/')) [
  | inl sep ↦ (squash true path, rw sep refl, squash-HasNoRun true path)
  | inr other ↦ (squash true (c ∷ path), rw other refl, squash-HasNoRun true (c ∷ path))
]

-- Whatever the URL parser gives, a normalized path begins with a slash, has no two slashes in a
-- row, and ends in a slash only if it is nothing else.
pub normalize_path-IsNormal :
    (lib : UrlLibrary) (raw_path : Bytes) → IsNormal (normalize_path lib raw_path)
unfolding normalize_path
normalize_path-IsNormal lib raw_path =
    let (rest, e, h) = rooted-slash (parse_request_target lib raw_path).path in
    rw e (without_last_slash-IsNormal rest h)

squash_id : (b : Bool) (path : Bytes) → HasNoRun b path → squash b path ≡ path
unfolding squash
squash_id b [] h = refl
squash_id b (c ∷ path) h = elim (Bool-cases (c == b'/')) [
  | inl sep ↦
      let first : b ≡ false = ground (arith, h.0, sep) in
      let tail : HasNoRun true path = rw sep at h.1 in
      let is_slash : c ≡ b'/' = ground (arith, sep) in
      simp (sep, first, squash_id true path tail) (ap (λ x. x ∷ path) (sym is_slash))
  | inr other ↦
      let tail : HasNoRun false path = rw other at h.1 in simp (other, squash_id false path tail)
]

EndsWell-not_slash :
    (c : ℕ) (path : Bytes) (b : ℕ)
    → EndsWell false (c ∷ path)
    → last_byte (c ∷ path) ≡ some b
    → (b == b'/') ≡ false
unfolding last_byte
EndsWell-not_slash c [] b h e = let same : c ≡ b = cc e in subst (λ x. (x == b'/') ≡ false) same h
EndsWell-not_slash c (d ∷ path) b h e = EndsWell-not_slash d path b h e

without_last_slash_id :
    (rest : Bytes)
    → (rest ≡ []) ⊎ EndsWell false rest
    → without_last_slash (b'/' ∷ rest) ≡ b'/' ∷ rest
unfolding without_last_slash
without_last_slash_id [] h = refl
without_last_slash_id (c ∷ rest) (inl h) = cc
without_last_slash_id (c ∷ rest) (inr h) =
    let (b, e) = has_last c rest in
    without_last_slash-keep b'/' c rest b e (EndsWell-not_slash c rest b h e)

rooted_id : (rest : Bytes) → HasNoRun true rest → rooted (b'/' ∷ rest) ≡ b'/' ∷ rest
unfolding rooted squash
rooted_id rest h = ap (λ x. b'/' ∷ x) (squash_id true rest h)

-- A normal path that the target's parser gives back unchanged is left as it is.
pub normalize_path_id :
    (lib : UrlLibrary) (path : Bytes)
    → IsNormal path
    → (parse_request_target lib path).path ≡ path
    → normalize_path lib path ≡ path
unfolding normalize_path
normalize_path_id lib path (rest, e, no_run, well) same =
    ap (λ x. without_last_slash (rooted x)) (same ∙ e)
    ∙ ap without_last_slash (rooted_id rest no_run)
    ∙ without_last_slash_id rest well
    ∙ sym e
