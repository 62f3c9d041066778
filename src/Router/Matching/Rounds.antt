-- ===== src/Router/Matching/Rounds.antt =====
-- The walk of `match`, round by round.
use async_uv.Base.{ℕ, suc, ◌≡◌, refl, ◌≢◌, none, some, [], ◌∷◌, arith, =?_refl}
use async_uv.Base.Bytes.{Bytes, bytes_eq}
use async_uv.Base.Dict.{lookup}
use async_uv.Router.Node.{RouterNode, handlers_of}
use async_uv.Router.Matching.{Captures, lost, arrived, descend, walk, handler_for, match_from}

module _ {H : Type 0} where
  pub walk-slash :
      (fuel : ℕ) (n : RouterNode H) (s : Bytes) (params : Captures)
      → walk (suc fuel) n (b'/' ∷ s) params ≡ walk fuel n s params
  unfolding walk
  walk-slash fuel n s params = refl

  pub walk-descend :
      (fuel : ℕ) (n : RouterNode H) (c : ℕ) (s : Bytes) (params : Captures) (child : RouterNode H)
      (rest : Bytes) (params' : Captures)
      → c ≢ b'/'
      → descend n (c ∷ s) params ≡ some (child, rest, params')
      → walk (suc fuel) n (c ∷ s) params ≡ walk fuel child rest params'
  unfolding walk
  walk-descend fuel n c s params child rest params' h e = ground (arith, h, e)

  pub match_from-walk :
      (fuel : ℕ) (method path : Bytes) (n m : RouterNode H) (params : Captures) (h : H)
      → walk fuel n path [] ≡ arrived m params
      → handler_for method (handlers_of m) ≡ some h
      → match_from fuel method path n ≡ some (h, params)
  unfolding match_from
  match_from-walk fuel method path n m params h e k = rw (match_from, e, k) refl

  pub match_from-lost :
      (fuel : ℕ) (method path : Bytes) (n : RouterNode H)
      → walk fuel n path [] ≡ lost
      → match_from fuel method path n ≡ none
  unfolding match_from
  match_from-lost fuel method path n e = rw (match_from, e) refl

  pub handler_for-single : (method : Bytes) (h : H) → handler_for method ((method, h) ∷ []) ≡ some h
  unfolding handler_for lookup
  handler_for-single method h = rw (handler_for, lookup, =?_refl method) refl
