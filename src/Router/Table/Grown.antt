-- ===== src/Router/Table/Grown.antt =====
-- The tree that one route makes of a node without children, and a step of the walk in it.
use async_uv.Base.{◌≡◌, refl, ◌≢◌, Bool, false, some, List, [], ◌∷◌, ◌++◌, map, ap}
use async_uv.Base.Bytes.{Bytes}
use async_uv.Base.Dict.{insert}
use async_uv.Router.Node.{
  NodeType, static, param, wildcard, classify, parse_param_segment, RouterNode, node, Children, nil,
  cons, new_node, children_of, handlers_of, add_child,
}
use async_uv.Router.Matching.{Captures, descend, static_child, param_child, typed_child}
use async_uv.Router.Table.{register, is_duplicate, at_child, add_segments}
use async_uv.Router.Table.Shadowing.{strip_prefix-append}
use async_uv.Router.Table.Pieces.{Piece, segment_of, IsSegment, path_of, cut_at-end}

module _ {H : Type 0} where
  -- A node with one child.
  abbrev pub over : Bytes → NodeType → Bytes → RouterNode H → RouterNode H
  over prefix t name child = node prefix t name (cons child nil) []

  pub register-empty :
      (method : Bytes) (h : H) (prefix : Bytes) (t : NodeType) (name : Bytes)
      → register method h (node prefix t name nil [])
        ≡ (node prefix t name nil ((method, h) ∷ []), false)
  unfolding register is_duplicate insert
  register-empty method h prefix t name = refl

  -- What a registration in place leaves of a node.
  abbrev label : RouterNode H → Bytes × NodeType × Bytes
  label (node prefix t name children handlers) = (prefix, t, name)

  node-label :
      (n : RouterNode H) (prefix : Bytes) (t : NodeType) (name : Bytes)
      → label n ≡ (prefix, t, name)
      → n ≡ node prefix t name (children_of n) (handlers_of n)
  node-label (node p u q children handlers) prefix t name e =
      let a : p ≡ prefix = ap (λ x. x.0) e in
      let b : u ≡ t = ap (λ x. x.1) e in let c : q ≡ name = ap (λ x. x.2) e in cc (a, b, c)

  at_child-label :
      {R : Type 0} (path : Bytes) (type : NodeType) (name : Bytes)
      (use_it : RouterNode H → RouterNode H × R) (n : RouterNode H)
      → label (at_child path type name use_it n).0 ≡ label n
  unfolding at_child
  at_child-label path type name use_it (node p u q children handlers) = refl

  add_segments-label :
      (segments : List Bytes) (method : Bytes) (h : H) (prefix : Bytes) (t : NodeType)
      (name : Bytes)
      → label (add_segments segments (register method h) (node prefix t name nil [])).0
        ≡ (prefix, t, name)
  unfolding add_segments
  add_segments-label [] method h prefix t name =
      ap (λ r. label r.0) (register-empty method h prefix t name)
  add_segments-label ([] ∷ segments) method h prefix t name =
      add_segments-label segments method h prefix t name
  add_segments-label ((c ∷ s) ∷ segments) method h prefix t name = by_type (classify (c ∷ s))
    where
      by_type :
          (u : NodeType)
          → label
              (elim u as (λ _. RouterNode H × Bool) [
                | static ↦
                    at_child
                      (c ∷ s)
                      static
                      []
                      (add_segments segments (register method h))
                      (node prefix t name nil [])
                | param ↦
                    at_child [] param
                      (parse_param_segment (c ∷ s)).1
                      (add_segments segments (register method h))
                      (node prefix t name nil [])
                | wildcard ↦
                    at_child [] wildcard
                      (parse_param_segment (c ∷ s)).1
                      (add_segments segments (register method h))
                      (node prefix t name nil [])
              ]).0
            ≡ (prefix, t, name)
      by_type static =
          at_child-label (c ∷ s) static [] (add_segments segments (register method h))
            (node prefix t name nil [])
      by_type param =
          at_child-label [] param (parse_param_segment (c ∷ s)).1
            (add_segments segments (register method h)) (node prefix t name nil [])
      by_type wildcard =
          at_child-label [] wildcard (parse_param_segment (c ∷ s)).1
            (add_segments segments (register method h)) (node prefix t name nil [])

  at_child-nil :
      {R : Type 0} (path : Bytes) (type : NodeType) (nm : Bytes)
      (use_it : RouterNode H → RouterNode H × R) (prefix : Bytes) (t : NodeType) (name : Bytes)
      → (at_child path type nm use_it (node prefix t name nil [])).0
        ≡ over prefix t name (use_it (new_node path type nm)).0
  unfolding at_child add_child
  at_child-nil path type nm use_it prefix t name = refl

  pub descend-fixed :
      (prefix : Bytes) (t : NodeType) (name s rest : Bytes) (nm : Bytes) (cs : Children H)
      (hs : List (Bytes × H)) (params : Captures)
      → descend (over prefix t name (node s static nm cs hs)) (s ++ rest) params
        ≡ some (node s static nm cs hs, rest, params)
  unfolding descend static_child
  descend-fixed prefix t name s rest nm cs hs params =
      rw (descend, static_child, strip_prefix-append s rest) refl

  pub descend-filled :
      (prefix : Bytes) (t : NodeType) (name text : Bytes) (texts : List Bytes) (p nm : Bytes)
      (cs : Children H) (hs : List (Bytes × H)) (params : Captures)
      → IsSegment text
      → descend (over prefix t name (node p param nm cs hs)) (text ++ path_of texts) params
        ≡ some (node p param nm cs hs, path_of texts, params ++ (nm, text) ∷ [])
  unfolding descend static_child param_child typed_child
  descend-filled prefix t name [] texts p nm cs hs params h = absurd (h.0 refl)
  descend-filled prefix t name (c ∷ text) texts p nm cs hs params h =
      let (a, b) = cut_at-end (c ∷ text) texts h.1 in
      rw (descend, static_child, param_child, typed_child, a, b) refl

  -- The nodes that a segment leads to in a node without children.
  pub add_fixed :
      (s : Bytes) (segments : List Bytes) (use_it : RouterNode H → RouterNode H × Bool)
      (prefix : Bytes) (t : NodeType) (name : Bytes)
      → s ≢ []
      → classify s ≡ static
      → (add_segments (s ∷ segments) use_it (node prefix t name nil [])).0
        ≡ over prefix t name (add_segments segments use_it (new_node s static [])).0
  unfolding add_segments
  add_fixed [] segments use_it prefix t name k e = absurd (k refl)
  add_fixed (c ∷ s) segments use_it prefix t name k e =
      rw (e, add_segments)
        (at_child-nil (c ∷ s) static [] (add_segments segments use_it) prefix t name)

  pub add_filled :
      (s : Bytes) (segments : List Bytes) (use_it : RouterNode H → RouterNode H × Bool)
      (prefix : Bytes) (t : NodeType) (name : Bytes)
      → s ≢ []
      → classify s ≡ param
      → (add_segments (s ∷ segments) use_it (node prefix t name nil [])).0
        ≡ over prefix t name
            (add_segments segments use_it (new_node [] param (parse_param_segment s).1)).0
  unfolding add_segments
  add_filled [] segments use_it prefix t name k e = absurd (k refl)
  add_filled (c ∷ s) segments use_it prefix t name k e =
      rw (e, add_segments)
        (at_child-nil [] param (parse_param_segment (c ∷ s)).1 (add_segments segments use_it) prefix
          t name)

  -- The tree that a registration grows at a new node.
  abbrev pub grown : List Piece → Bytes → H → RouterNode H → RouterNode H
  grown pieces method h n = (add_segments (map segment_of pieces) (register method h) n).0

  pub grown-node :
      (pieces : List Piece) (method : Bytes) (h : H) (prefix : Bytes) (t : NodeType) (name : Bytes)
      → let child = grown pieces method h (new_node prefix t name) in
        child ≡ node prefix t name (children_of child) (handlers_of child)
  grown-node pieces method h prefix t name =
      node-label (grown pieces method h (new_node prefix t name)) prefix t name
        (add_segments-label (map segment_of pieces) method h prefix t name)
