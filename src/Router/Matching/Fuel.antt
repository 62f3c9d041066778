-- ===== src/Router/Matching/Fuel.antt =====
-- The walk of `match` needs one round for each byte of the path at most, in a tree whose static
-- nodes have a prefix. `add_child` builds no other trees (Router/Table/Insertion).
use async_uv.Base.{
  ℕ, zero, suc, ◌+◌, ◌≤◌, ◌<◌, ◌≡◌, refl, ◌≢◌, inl, inr, Option, none, some, [], ◌∷◌, ◌++◌, arith,
  ◌==◌, false, Bool-cases, Option-cases, length, ap, subst,
}
use async_uv.Base.Bytes.{Bytes, cut_at, strip_prefix, is_empty}
use async_uv.Router.Node.{
  NodeType, static, param, wildcard, same_type, RouterNode, node, Children, nil, cons, children_of,
}
use async_uv.Router.Matching.{
  Captures, match_from, match, static_child, typed_child, param_child, descend, walk, spent,
  from_slash, name_of,
}

abbrev pub HasPrefix : NodeType → Bytes → Type 0
HasPrefix static prefix = prefix ≢ []
HasPrefix param prefix = Unit
HasPrefix wildcard prefix = Unit

-- Static nodes below a node have a prefix.
unfoldable mutual
  pub IsWellFormed : {H : Type 0} → RouterNode H → Type 0
  IsWellFormed (node prefix type name children handlers) = AreWellFormed children

  pub AreWellFormed : {H : Type 0} → Children H → Type 0
  AreWellFormed nil = Unit
  AreWellFormed (cons (node prefix type name children handlers) rest) =
      HasPrefix type prefix × AreWellFormed children × AreWellFormed rest

length-strip_prefix :
    (prefix s rest : Bytes)
    → strip_prefix prefix s ≡ some rest
    → prefix ≢ []
    → length rest < length s
unfolding strip_prefix
length-strip_prefix [] s rest e h = absurd (h refl)
length-strip_prefix (p ∷ []) [] rest e h = cc
length-strip_prefix (p ∷ []) (b ∷ s) rest e h = ground arith
length-strip_prefix (p ∷ q ∷ ps) [] rest e h = cc
length-strip_prefix (p ∷ q ∷ ps) (b ∷ s) rest e h =
    ground (arith, length-strip_prefix (q ∷ ps) s rest)

length-cut_at :
    (s : Bytes) → length (cut_at b'/' s).0 + length (from_slash (cut_at b'/' s)) ≡ length s
unfolding cut_at
length-cut_at [] = omega arith
length-cut_at (b ∷ s) = elim (Bool-cases (b == b'/')) [
  | inl slash ↦ rw slash (omega arith)
  | inr other ↦ rw other (elim (Option-cases (cut_at b'/' s).1) [
    | inl none_left ↦ omega (
      arith,
      length-cut_at s,
      ap (λ o. length (from_slash ([], o))) none_left,
      from_slash-cons b (cut_at b'/' s),
    )
    | inr (rest, e) ↦ omega (arith, length-cut_at s, from_slash-cons b (cut_at b'/' s))
  ])
]
  where
    from_slash-cons :
        (b : ℕ) (q : Bytes × Option Bytes)
        → length (from_slash (b ∷ q.0, q.1)) ≡ length (from_slash q)
    from_slash-cons b (before, none) = refl
    from_slash-cons b (before, some rest) = refl

not_empty : (s : Bytes) → is_empty s ≡ false → 0 < length s
not_empty [] h = cc
not_empty (b ∷ s) h = omega arith

module _ {H : Type 0} where
  static_child-shrinks :
      (s : Bytes) (cs : Children H) (child : RouterNode H) (rest : Bytes)
      → AreWellFormed cs
      → static_child s cs ≡ some (child, rest)
      → IsWellFormed child × (length rest < length s)
  unfolding static_child IsWellFormed
  static_child-shrinks s nil child rest w e = cc
  static_child-shrinks s (cons (node prefix static name children handlers) more) child rest w e =
      elim (Option-cases (strip_prefix prefix s)) [
        | inl no_fit ↦ static_child-shrinks s more child rest w.2 (rw (no_fit, static_child) at e)
        | inr (rest', fits) ↦
            let e' : some (node prefix static name children handlers, rest') ≡ some (child, rest) =
              rw (fits, static_child) at e in
            let same : node prefix static name children handlers ≡ child = cc e' in
            let same_rest : rest' ≡ rest = cc e' in
            (
              subst IsWellFormed same w.1,
              subst (λ r. length r < length s) same_rest
                  (length-strip_prefix prefix s rest' fits w.0),
            )
      ]
  static_child-shrinks s (cons (node prefix param name children handlers) more) child rest w e =
      static_child-shrinks s more child rest w.2 e
  static_child-shrinks s (cons (node prefix wildcard name children handlers) more) child rest w e =
      static_child-shrinks s more child rest w.2 e

  typed_child-IsWellFormed :
      (t : NodeType) (cs : Children H) (child : RouterNode H)
      → AreWellFormed cs
      → typed_child t cs ≡ some child
      → IsWellFormed child
  unfolding typed_child IsWellFormed
  typed_child-IsWellFormed t nil child w e = cc
  typed_child-IsWellFormed t (cons (node prefix t' name children handlers) more) child w e =
      elim (Bool-cases (same_type t' t)) [
        | inl same ↦
            let e' : some (node prefix t' name children handlers) ≡ some child =
              rw (same, typed_child) at e in
            let it : node prefix t' name children handlers ≡ child = cc e' in
            subst IsWellFormed it w.1
        | inr other ↦ typed_child-IsWellFormed t more child w.2 (rw (other, typed_child) at e)
      ]

  param_child-shrinks :
      (s : Bytes) (cs : Children H) (child : RouterNode H) (value rest : Bytes)
      → AreWellFormed cs
      → param_child s cs ≡ some (child, value, rest)
      → IsWellFormed child × (length rest < length s)
  unfolding param_child
  param_child-shrinks s cs child value rest w e = elim (Bool-cases (is_empty (cut_at b'/' s).0)) [
    | inl empty ↦ cc (rw (empty, param_child) at e)
    | inr some_text ↦ elim (Option-cases (typed_child param cs)) [
      | inl no_child ↦ cc (rw (some_text, no_child, param_child) at e)
      | inr (found, is_found) ↦
          let e' : some (found, (cut_at b'/' s).0, from_slash (cut_at b'/' s))
              ≡ some (child, value, rest) =
            rw (some_text, is_found, param_child) at e in
          let same : found ≡ child = cc e' in
          let same_rest : from_slash (cut_at b'/' s) ≡ rest = cc e' in
          (
            subst IsWellFormed same (typed_child-IsWellFormed param cs found w is_found),
            subst (λ r. length r < length s) same_rest
                (omega (arith, length-cut_at s, not_empty (cut_at b'/' s).0 some_text)),
          )
    ]
  ]

  children-AreWellFormed : (n : RouterNode H) → IsWellFormed n → AreWellFormed (children_of n)
  unfolding IsWellFormed
  children-AreWellFormed (node prefix type name children handlers) w = w

  descend-shrinks :
      (n : RouterNode H) (c : ℕ) (s : Bytes) (params : Captures) (child : RouterNode H)
      (rest : Bytes) (params' : Captures)
      → IsWellFormed n
      → descend n (c ∷ s) params ≡ some (child, rest, params')
      → IsWellFormed child × (length rest ≤ length s)
  unfolding descend
  descend-shrinks n c s params child rest params' w e =
      elim (Option-cases (static_child (c ∷ s) (children_of n))) [
        | inr ((found, rest'), is_found) ↦
            let e' : some (found, rest', params) ≡ some (child, rest, params') =
              rw (is_found, descend) at e in
            let same : found ≡ child = cc e' in
            let same_rest : rest' ≡ rest = cc e' in
            let (a, b) =
              static_child-shrinks (c ∷ s) (children_of n) found rest' (children-AreWellFormed n w)
                is_found in
            (
              subst IsWellFormed same a,
              subst (λ r. length r ≤ length s) same_rest (omega (arith, b)),
            )
        | inl no_static ↦ elim (Option-cases (param_child (c ∷ s) (children_of n))) [
          | inr ((found, value, rest'), is_found) ↦
              let e' : some (found, rest', params ++ (name_of found, value) ∷ [])
                  ≡ some (child, rest, params') =
                rw (no_static, is_found, descend) at e in
              let same : found ≡ child = cc e' in
              let same_rest : rest' ≡ rest = cc e' in
              let (a, b) =
                param_child-shrinks (c ∷ s) (children_of n) found value rest'
                  (children-AreWellFormed n w) is_found in
              (
                subst IsWellFormed same a,
                subst (λ r. length r ≤ length s) same_rest (omega (arith, b)),
              )
          | inl no_param ↦ elim (Option-cases (typed_child wildcard (children_of n))) [
            | inl no_child ↦ cc (rw (no_static, no_param, no_child, descend) at e)
            | inr (found, is_found) ↦
                let e' : some (found, [], params ++ (name_of found, c ∷ s) ∷ [])
                    ≡ some (child, rest, params') =
                  rw (no_static, no_param, is_found, descend) at e in
                let same : found ≡ child = cc e' in
                let same_rest : [] ≡ rest = cc e' in
                (
                  subst IsWellFormed same (
                      typed_child-IsWellFormed wildcard (children_of n) found
                        (children-AreWellFormed n w) is_found),
                  subst (λ r. length r ≤ length s) same_rest (omega arith),
                )
          ]
        ]
      ]

  -- Any two amounts of fuel that are not below the length of the path give the same walk.
  pub walk_fuel :
      (f g : ℕ) (n : RouterNode H) (path : Bytes) (params : Captures)
      → IsWellFormed n
      → length path ≤ f
      → length path ≤ g
      → walk f n path params ≡ walk g n path params
  unfolding walk
  walk_fuel f g n [] params w hf hg = refl
  walk_fuel zero g n (c ∷ path) params w hf hg = absurd (omega arith)
  walk_fuel (suc f) zero n (c ∷ path) params w hf hg = absurd (omega arith)
  walk_fuel (suc f) (suc g) n (c ∷ path) params w hf hg = elim (Bool-cases (c == b'/')) [
    | inl slash ↦ rw slash (walk_fuel f g n path params w (omega arith) (omega arith))
    | inr other ↦ rw other (elim (Option-cases (descend n (c ∷ path) params)) [
      | inl stuck ↦ rw stuck
      | inr ((child, rest, params'), found) ↦
          let (w', le) = descend-shrinks n c path params child rest params' w found in
          rw found (walk_fuel f g child rest params' w' (omega (arith, le)) (omega (arith, le)))
    ])
  ]

-- The fuel is not spent if it is not below the length of the path.
pub walk_ends :
    {H : Type 0} (fuel : ℕ) (n : RouterNode H) (path : Bytes) (params : Captures)
    → IsWellFormed n
    → length path ≤ fuel
    → walk fuel n path params ≢ spent
unfolding walk
walk_ends fuel n [] params w h e = cc
walk_ends zero n (c ∷ path) params w h e = absurd (omega (arith, h))
walk_ends (suc fuel) n (c ∷ path) params w h e = elim (Bool-cases (c == b'/')) [
  | inl slash ↦ walk_ends fuel n path params w (omega (arith, h)) (rw (slash, walk) at e)
  | inr other ↦ elim (Option-cases (descend n (c ∷ path) params)) [
    | inl stuck ↦ cc (rw (other, stuck, walk) at e)
    | inr ((child, rest, params'), found) ↦
        let (w', le) = descend-shrinks n c path params child rest params' w found in
        walk_ends fuel child rest params' w' (omega (arith, h, le)) (rw (other, found, walk) at e)
  ]
]

-- In a well-formed tree the loop of `match`, which has no bound in the code, ends within as many
-- rounds as the path has bytes: with that fuel or more it is not spent, and the result is that of
-- `match`.
pub match_fuel :
    {H : Type 0} (fuel : ℕ) (method path : Bytes) (n : RouterNode H)
    → IsWellFormed n
    → length path ≤ fuel
    → (walk fuel n path [] ≢ spent) × (match_from fuel method path n ≡ match method path n)
unfolding match match_from
match_fuel fuel method path n w h = (
  walk_ends fuel n path [] w h,
  rw (match, match_from, walk_fuel fuel (length path) n path [] w h (omega arith)) refl,
)
