-- ===== src/Router/Matching/Agree.antt =====
-- `match` and `match_node` are two copies of one walk.
use async_uv.Base.{
  ℕ, zero, suc, ◌≡◌, refl, inl, inr, Option, none, some, [], ◌∷◌, arith, ◌==◌, Bool-cases,
  Option-cases, ◌⊎◌, ◌↔◌, ◌∙◌, ap, subst,
}
use async_uv.Base.Bytes.{Bytes}
use async_uv.Router.Node.{RouterNode, handlers_of}
use async_uv.Router.Matching.{
  Captures, Walked, spent, lost, arrived, descend, walk, handler_for, match_from, descend_node,
  match_node,
}

abbrev reached : {H : Type 0} → Walked H → Option (RouterNode H)
reached spent = none
reached lost = none
reached (arrived n params) = some n

Walked-cases :
    {H : Type 0} (o : Walked H)
    → (reached o ≡ none) ⊎ ((n : RouterNode H) × ((params : Captures) × (o ≡ arrived n params)))
Walked-cases spent = inl refl
Walked-cases lost = inl refl
Walked-cases (arrived n params) = inr (n, (params, refl))

abbrev handled : {H : Type 0} → Bytes → Walked H → Option (H × Captures)
handled method spent = none
handled method lost = none
handled method (arrived found params) = elim (handler_for method (handlers_of found)) [
  | none ↦ none
  | some h ↦ some (h, params)
]

handled-none :
    {H : Type 0} (method : Bytes) (o : Walked H) → reached o ≡ none → handled method o ≡ none
handled-none method spent e = refl
handled-none method lost e = refl
handled-none method (arrived n params) e = cc

module _ {H : Type 0} where
  abbrev below : Option (RouterNode H × Bytes × Captures) → Option (RouterNode H × Bytes)
  below none = none
  below (some (n, rest, params)) = some (n, rest)

  descend_node-descend :
      (n : RouterNode H) (remaining : Bytes) (params : Captures)
      → descend_node n remaining ≡ below (descend n remaining params)
  unfolding descend_node descend
  descend_node-descend n remaining params = ground arith

  match_node-walk :
      (fuel : ℕ) (n : RouterNode H) (path : Bytes) (params : Captures)
      → match_node fuel path n ≡ reached (walk fuel n path params)
  unfolding match_node walk
  match_node-walk fuel n [] params = refl
  match_node-walk zero n (c ∷ remaining) params = refl
  match_node-walk (suc fuel) n (c ∷ remaining) params = elim (Bool-cases (c == b'/')) [
    | inl slash ↦ rw slash (match_node-walk fuel n remaining params)
    | inr other ↦
        rw (other, descend_node-descend n (c ∷ remaining) params)
          (elim (Option-cases (descend n (c ∷ remaining) params)) [
            | inl stuck ↦ rw stuck
            | inr ((child, rest, params'), found) ↦
                rw found (match_node-walk fuel child rest params')
          ])
  ]

  handler_of_result :
      (o : Option H) (params : Captures) {h : H} {ps : Captures}
      → (elim o as (λ x. Option (H × Captures)) [ none ↦ none | some x ↦ some (x, params) ])
        ≡ some (h, ps)
      → o ≡ some h
  handler_of_result none params e = cc
  handler_of_result (some x) params e = ground arith

-- With the same fuel `match` finds a handler exactly if `match_node` finds a node that has one for
-- the method or for `*`, and it is that handler.
pub match_from-match_node :
    {H : Type 0} (fuel : ℕ) (method path : Bytes) (n : RouterNode H) (h : H)
    → ((params : Captures) × (match_from fuel method path n ≡ some (h, params))) ↔ (
        (m : RouterNode H) × (match_node fuel path n ≡ some m)
        × (handler_for method (handlers_of m) ≡ some h))
unfolding match_from
match_from-match_node fuel method path n h = elim (Walked-cases (walk fuel n path [])) [
  | inl nowhere ↦
      let gone : match_node fuel path n ≡ none = match_node-walk fuel n path [] ∙ nowhere in
      let none_found : match_from fuel method path n ≡ none =
        handled-none method (walk fuel n path []) nowhere in
      (λ p. cc (p.1, none_found), λ q. cc (q.1, gone))
  | inr (m, (params, found)) ↦
      let at_m : match_node fuel path n ≡ some m =
        match_node-walk fuel n path [] ∙ ap reached found in
      (
        λ p. (
          m,
          at_m,
          handler_of_result (handler_for method (handlers_of m)) params
              (rw (found, match_from) at p.1),
        ),
        λ q.
            let same : q.0 ≡ m = cc (q.1, at_m) in
            let has : handler_for method (handlers_of m) ≡ some h =
              subst (λ x. handler_for method (handlers_of x) ≡ some h) same q.2 in
            (params, rw (found, match_from) (rw has)),
      )
]
