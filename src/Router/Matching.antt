-- ===== src/Router/Matching.antt =====
-- layer3/include/async_uv_layer3/router_node.hpp: `match` and `match_node` of RouterNode, which walk
-- down the tree along a path. The loops take fuel; a path's length is enough (Matching/Fuel).
pub mod Fuel
pub mod Agree
pub mod Rounds
use async_uv.Base.{
  ℕ, zero, suc, Bool, Option, none, some, List, [], ◌∷◌, ◌++◌, ◌==◌, if◌then◌else◌, length,
}
use async_uv.Base.Bytes.{Bytes, bytes_eq, bytes_beq, cut_at, strip_prefix, is_empty, lit}
use async_uv.Base.Dict.{lookup}
use async_uv.Router.Node.{
  NodeType, static, param, wildcard, same_type, RouterNode, node, Children, nil, cons, children_of,
  handlers_of,
}

-- What the loop of `match` carries: the text that is left, and the parameters so far.
abbrev pub Captures : Type 0
Captures = List (Bytes × Bytes)

-- From the first `/` on, or the empty text.
abbrev pub from_slash : Bytes × Option Bytes → Bytes
from_slash (value, none) = []
from_slash (value, some rest) = b'/' ∷ rest

-- How a walk ends: the fuel is spent before it does, no child fits the text that is left, or the
-- path is used up at a node.
pub data Walked (H : Type 0) : Type 0 where
  spent lost : Walked H
  arrived : RouterNode H → Captures → Walked H

module _ {H : Type 0} where
  -- `try_match(Type::STATIC)`: the first static child whose prefix the text begins with.
  unfoldable pub static_child : Bytes → Children H → Option (RouterNode H × Bytes)
  unfolding strip_prefix
  static_child remaining nil = none
  static_child remaining (cons (node prefix static name children handlers) rest) =
      elim (strip_prefix prefix remaining) [
        | none ↦ static_child remaining rest
        | some remaining' ↦ some (node prefix static name children handlers, remaining')
      ]
  static_child remaining (cons (node prefix param name children handlers) rest) =
      static_child remaining rest
  static_child remaining (cons (node prefix wildcard name children handlers) rest) =
      static_child remaining rest

  -- The first child of a type.
  unfoldable pub typed_child : NodeType → Children H → Option (RouterNode H)
  typed_child type nil = none
  typed_child type (cons (node prefix t name children handlers) rest) =
      if same_type t type
      then some (node prefix t name children handlers)
      else typed_child type rest

  abbrev pub name_of : RouterNode H → Bytes
  name_of (node prefix type name children handlers) = name

  -- `try_match(Type::PARAM)`: the text up to the next `/`, if it is not empty.
  unfoldable pub param_child : Bytes → Children H → Option (RouterNode H × Bytes × Bytes)
  unfolding cut_at typed_child
  param_child remaining children =
      if is_empty (cut_at b'/' remaining).0 then none else elim (typed_child param children) [
        | none ↦ none
        | some child ↦ some (child, (cut_at b'/' remaining).0, from_slash (cut_at b'/' remaining))
      ]

  -- One round of the loop of `match` at a text that does not begin with `/`: the node, the text
  -- that is left and the parameters, or none if no child fits.
  unfoldable pub descend :
      RouterNode H → Bytes → Captures → Option (RouterNode H × Bytes × Captures)
  unfolding static_child param_child
  descend n remaining params = elim (static_child remaining (children_of n)) [
    | some (child, rest) ↦ some (child, rest, params)
    | none ↦ elim (param_child remaining (children_of n)) [
      | some (child, value, rest) ↦ some (child, rest, params ++ (name_of child, value) ∷ [])
      | none ↦ elim (typed_child wildcard (children_of n)) [
        | some child ↦ some (child, [], params ++ (name_of child, remaining) ∷ [])
        | none ↦ none
      ]
    ]
  ]

  -- The loop of `match`.
  unfoldable pub walk : ℕ → RouterNode H → Bytes → Captures → Walked H
  walk fuel n [] params = arrived n params
  walk zero n (c ∷ remaining) params = spent
  walk (suc fuel) n (c ∷ remaining) params =
      let skipped = walk fuel n remaining params in
      let next : Walked H = elim (descend n (c ∷ remaining) params) [
        | none ↦ lost
        | some (child, rest, params') ↦ walk fuel child rest params'
      ] in
      if c == b'/' then skipped else next

  -- `handlers.find(method)`, then `handlers.find("*")`.
  unfoldable pub handler_for : Bytes → List (Bytes × H) → Option H
  unfolding lookup bytes_beq
  handler_for method handlers = elim (lookup method handlers) [
    | some h ↦ some h
    | none ↦ lookup (lit "*") handlers
  ]

  -- A walk whose fuel is spent finds nothing; see Fuel, where it is not.
  unfoldable pub match_from : ℕ → Bytes → Bytes → RouterNode H → Option (H × Captures)
  match_from fuel method path n = elim (walk fuel n path []) [
    | spent ↦ none
    | lost ↦ none
    | arrived found params ↦ elim (handler_for method (handlers_of found)) [
      | none ↦ none
      | some h ↦ some (h, params)
    ]
  ]

  -- One round of the loop of `match_node`, in three loops over the children.
  unfoldable pub descend_node : RouterNode H → Bytes → Option (RouterNode H × Bytes)
  unfolding static_child param_child
  descend_node n remaining = elim (static_child remaining (children_of n)) [
    | some (child, rest) ↦ some (child, rest)
    | none ↦ elim (param_child remaining (children_of n)) [
      | some (child, value, rest) ↦ some (child, rest)
      | none ↦ elim (typed_child wildcard (children_of n)) [
        | some child ↦ some (child, [])
        | none ↦ none
      ]
    ]
  ]

  unfoldable pub match_node : ℕ → Bytes → RouterNode H → Option (RouterNode H)
  match_node fuel [] n = some n
  match_node zero (c ∷ remaining) n = none
  match_node (suc fuel) (c ∷ remaining) n =
      let skipped = match_node fuel remaining n in
      let next : Option (RouterNode H) = elim (descend_node n (c ∷ remaining)) [
        | none ↦ none
        | some (child, rest) ↦ match_node fuel rest child
      ] in
      if c == b'/' then skipped else next

  -- `match`, with fuel for each byte of the path.
  unfoldable pub match : Bytes → Bytes → RouterNode H → Option (H × Captures)
  match method path n = match_from (length path) method path n
