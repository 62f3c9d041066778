-- ===== src/Router/Node.antt =====
-- layer3/include/async_uv_layer3/router_node.hpp: RouterNode, a tree of route segments.
-- A pointer to a child that `add_child` returns is a function that is applied to the child in
-- place. Handlers are of any type `H`; a handler table is an association list.
use async_uv.Base.{
  ℕ, suc, Bool, true, false, not, ◌&&◌, Option, none, some, List, [], ◌∷◌, ◌==◌, ltb, if◌then◌else◌,
  length, take, drop,
}
use async_uv.Base.Bytes.{Bytes, bytes_eq, cut_at, is_empty, last_byte, drop_last}

pub data NodeType : Type 0 where
  static param wildcard : NodeType

abbrev pub same_type : NodeType → NodeType → Bool
same_type static static = true
same_type param param = true
same_type wildcard wildcard = true
same_type _ _ = false

abbrev pub param_char : ℕ
param_char = b'{'

abbrev ends_in : ℕ → Bytes → Bool
ends_in c s = elim (last_byte s) [ none ↦ false | some b ↦ b == c ]

-- `classify` of a segment that begins with `{`, with what follows that byte.
abbrev classify_braced : Bytes → NodeType
classify_braced rest =
    if ends_in b'}' rest
    then (if ends_in b'*' (drop_last rest) then wildcard else param)
    else if ends_in b'*' rest
    then wildcard
    else param

unfoldable pub classify : Bytes → NodeType
unfolding last_byte drop_last
classify [] = static
classify (c ∷ rest) = if c == param_char then classify_braced rest else static

abbrev drop_star : Bytes → Bytes
drop_star inner = if ends_in b'*' inner then drop_last inner else inner

-- `segment.find('}')` for a segment that does not end in `}` or `*`.
abbrev named_to_brace : Bytes → Bytes × Option Bytes → Bytes × Bytes
named_to_brace segment (before, none) = (segment, [])
named_to_brace segment (before, some _) = ([], before)

abbrev parse_braced : Bytes → Bytes × Bytes
parse_braced rest =
    if ends_in b'}' rest
    then ([], drop_star (drop_last rest))
    else if ends_in b'*' rest
    then ([], drop_last rest)
    else named_to_brace (param_char ∷ rest) (cut_at b'}' rest)

unfoldable pub parse_param_segment : Bytes → Bytes × Bytes
unfolding last_byte drop_last cut_at
parse_param_segment [] = ([], [])
parse_param_segment (c ∷ rest) = if c == param_char then parse_braced rest else (c ∷ rest, [])

mutual
  pub data RouterNode (H : Type 0) : Type 0 where
    node : Bytes → NodeType → Bytes → Children H → List (Bytes × H) → RouterNode H

  pub data Children (H : Type 0) : Type 0 where
    nil : Children H
    cons : RouterNode H → Children H → Children H

module _ {H : Type 0} where
  abbrev pub new_node : Bytes → NodeType → Bytes → RouterNode H
  new_node prefix type name = node prefix type name nil []

  abbrev pub children_of : RouterNode H → Children H
  children_of (node prefix type name children handlers) = children

  abbrev pub handlers_of : RouterNode H → List (Bytes × H)
  handlers_of (node prefix type name children handlers) = handlers

-- How many bytes two texts begin with in common.
unfoldable pub common_prefix : Bytes → Bytes → ℕ
common_prefix [] b = 0
common_prefix (x ∷ a) [] = 0
common_prefix (x ∷ a) (y ∷ b) = if x == y then suc (common_prefix a b) else 0

module _ {H : Type 0} where
  -- A child whose prefix is longer than the common part gives way to a node for the common part.
  unfoldable pub split_child : ℕ → RouterNode H → RouterNode H
  split_child common (node prefix type name children handlers) =
      if ltb common (length prefix)
      then node (take common prefix) static []
          (cons (node (drop common prefix) type name children handlers) nil) []
      else node prefix type name children handlers

  -- `if (child->param_name.empty() && !param_name.empty()) child->param_name = param_name;`
  unfoldable pub name_child : Bytes → RouterNode H → RouterNode H
  name_child name (node prefix type old children handlers) =
      node prefix type (if is_empty old && not (is_empty name) then name else old) children handlers

module _ {H R : Type 0} where
  abbrev in_place : (RouterNode H → RouterNode H × R) → RouterNode H → Children H → Children H × R
  in_place use_it child rest = let (child', r) = use_it child in (cons child' rest, r)

  abbrev behind : RouterNode H → Children H × R → Children H × R
  behind child (rest, r) = (cons child rest, r)

  -- The loop of `add_child` over the children, with the new node at its end. `use_it` is what the
  -- caller does with the node that it gets.
  unfoldable pub add_child :
      Bytes → NodeType → Bytes → (RouterNode H → RouterNode H × R) → Children H → Children H × R
  unfolding common_prefix split_child name_child
  add_child path type name use_it nil = in_place use_it (new_node path type name) nil
  add_child path type name use_it (cons (node prefix t old children handlers) rest) =
      let child = node prefix t old children handlers in
      let common = common_prefix prefix path in
      let skipped = behind child (add_child path type name use_it rest) in
      let shortened =
        behind (split_child common child) (add_child (drop common path) type name use_it rest) in
      if not (same_type t type)
      then skipped
      else if not (same_type type static)
      then in_place use_it (name_child name child) rest
      else if common == 0
      then skipped
      else if is_empty (drop common path)
      then in_place use_it (split_child common child) rest
      else shortened
