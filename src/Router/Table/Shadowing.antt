-- ===== src/Router/Table/Shadowing.antt =====
-- A route whose first segment continues the whole segment of an earlier one.
use async_uv.Base.{
  ◌<◌, length-append, drop-append, ℕ, zero, suc, ◌≡◌, refl, ◌≢◌, true, false, none, some, List, [],
  ◌∷◌, ◌++◌, arith, ◌==◌, length, ap, ◌∙◌, ==_iff,
}
use async_uv.Base.Bytes.{Bytes, bytes_eq, strip_prefix}
use async_uv.Base.Dict.{insert}
use async_uv.Router.Node.{
  NodeType, static, param_char, classify, RouterNode, node, Children, nil, cons, new_node,
  common_prefix, split_child, add_child,
}
use async_uv.Router.Matching.{lost, walk, descend, static_child, param_child, typed_child, match}
use async_uv.Router.Matching.Rounds.{
  walk-descend, match_from-walk, match_from-lost, handler_for-single,
}
use async_uv.Router.Table.{register, is_duplicate, at_child, add_segments}

pub ==_refl : (a : ℕ) → (a == a) ≡ true
==_refl a = (==_iff a a).1 refl

suc-==_zero : (n : ℕ) → (suc n == 0) ≡ false
suc-==_zero n = ground arith

common_prefix-append : (p s : Bytes) → common_prefix p (p ++ s) ≡ length p
unfolding common_prefix
common_prefix-append [] s = refl
common_prefix-append (c ∷ p) s = simp (==_refl, common_prefix-append p s)

pub strip_prefix-append : (p s : Bytes) → strip_prefix p (p ++ s) ≡ some s
unfolding strip_prefix
strip_prefix-append [] s = refl
strip_prefix-append (c ∷ p) s = simp (==_refl, strip_prefix-append p s)

pub strip_prefix_self : (p : Bytes) → strip_prefix p p ≡ some []
unfolding strip_prefix
strip_prefix_self [] = refl
strip_prefix_self (c ∷ p) = simp (==_refl, strip_prefix_self p)

-- A segment that begins a route: not empty, and no parameter.
abbrev pub IsText : Bytes → Type 0
IsText [] = ⊥
IsText (c ∷ s) = (c ≢ param_char) × (c ≢ b'/')

classify-IsText : (c : ℕ) (s : Bytes) → IsText (c ∷ s) → classify (c ∷ s) ≡ static
unfolding classify
classify-IsText c s h = ground (arith, h)

module _ {H : Type 0} where
  abbrev leaf : Bytes → Bytes → H → RouterNode H
  leaf prefix method handler = node prefix static [] nil ((method, handler) ∷ [])

  abbrev empty_tree : RouterNode H
  empty_tree = new_node [] static []

  register-new :
      (prefix method : Bytes) (handler : H)
      → register method handler (new_node prefix static []) ≡ (leaf prefix method handler, false)
  unfolding register is_duplicate insert
  register-new prefix method handler = refl

  add_segment :
      {R : Type 0} (p : Bytes) (use_it : RouterNode H → RouterNode H × R) (n : RouterNode H)
      → IsText p
      → add_segments (p ∷ []) use_it n ≡ at_child p static [] use_it n
  unfolding add_segments
  add_segment [] use_it n t = absurd t
  add_segment (c ∷ p) use_it n t = rw (classify-IsText c p t, add_segments) refl

  add_first :
      (p method : Bytes) (h : H)
      → IsText p
      → add_segments (p ∷ []) (register method h) empty_tree
        ≡ (node [] static [] (cons (leaf p method h) nil) [], false)
  unfolding at_child add_child
  add_first p method h t =
      add_segment p (register method h) empty_tree t
      ∙ ap (λ r. (node [] static [] (cons r.0 nil) [], r.1)) (register-new p method h)

  split_child_whole :
      (prefix : Bytes) (t : NodeType) (name : Bytes) (cs : Children H) (hs : List (Bytes × H))
      → split_child (length prefix) (node prefix t name cs hs) ≡ node prefix t name cs hs
  unfolding split_child
  split_child_whole prefix t name cs hs = ground arith

  -- A longer static segment behind a child for the beginning of it.
  add_longer :
      {R : Type 0} (c : ℕ) (p : Bytes) (d : ℕ) (s method : Bytes) (h : H)
      (use_it : RouterNode H → RouterNode H × R)
      → add_child ((c ∷ p) ++ d ∷ s) static [] use_it (cons (leaf (c ∷ p) method h) nil) ≡ (
        cons (leaf (c ∷ p) method h) (cons (use_it (new_node (d ∷ s) static [])).0 nil),
        (use_it (new_node (d ∷ s) static [])).1,
      )
  unfolding add_child
  add_longer c p d s method h use_it =
      rw
        (
          common_prefix-append (c ∷ p) (d ∷ s),
          split_child_whole (c ∷ p) static [] nil ((method, h) ∷ []),
          drop-append p (d ∷ s),
          suc-==_zero (length p),
        )
        refl

  shadowed_tree :
      (c : ℕ) (p : Bytes) (d : ℕ) (s method : Bytes) (h k : H)
      → IsText (c ∷ p)
      → (add_segments
          (((c ∷ p) ++ d ∷ s) ∷ [])
          (register method k)
          (add_segments ((c ∷ p) ∷ []) (register method h) empty_tree).0).0
        ≡ node [] static [] (cons (leaf (c ∷ p) method h) (cons (leaf (d ∷ s) method k) nil)) []
  unfolding at_child
  shadowed_tree c p d s method h k t =
      ap (λ r. (add_segments (((c ∷ p) ++ d ∷ s) ∷ []) (register method k) r.0).0)
        (add_first (c ∷ p) method h t)
      ∙ ap (λ r. r.0)
          (add_segment ((c ∷ p) ++ d ∷ s) (register method k)
            (node [] static [] (cons (leaf (c ∷ p) method h) nil) []) t)
      ∙ ap (λ r. node [] static [] r.0 []) (add_longer c p d s method h (register method k))
      ∙ ap (λ r. node [] static [] (cons (leaf (c ∷ p) method h) (cons r.0 nil)) [])
          (register-new (d ∷ s) method k)

  walk_stuck :
      (fuel : ℕ) (prefix method : Bytes) (h : H) (d : ℕ) (s : Bytes)
      → d ≢ b'/'
      → 0 < fuel
      → walk fuel (leaf prefix method h) (d ∷ s) [] ≡ lost
  unfolding walk descend static_child param_child typed_child
  walk_stuck zero prefix method h d s e more = absurd (omega (arith, more))
  walk_stuck (suc fuel) prefix method h d s e more = ground (arith, e)

  abbrev two_leaves : Bytes → Bytes → Bytes → H → H → RouterNode H
  two_leaves p s method h k =
      node [] static [] (cons (leaf p method h) (cons (leaf s method k) nil)) []

  descend-first :
      (p s q method : Bytes) (h k : H)
      → descend (two_leaves p s method h k) (p ++ q) [] ≡ some (leaf p method h, q, [])
  unfolding descend static_child
  descend-first p s q method h k = rw (descend, static_child, strip_prefix-append p q) refl

  descend-second :
      (p s method : Bytes) (h k : H)
      → strip_prefix p s ≡ none
      → descend (two_leaves p s method h k) s [] ≡ some (leaf s method k, [], [])
  unfolding descend static_child
  descend-second p s method h k e = rw (descend, static_child, e, strip_prefix_self s) refl

  match-longer :
      (c : ℕ) (p : Bytes) (d : ℕ) (s method : Bytes) (h k : H)
      → c ≢ b'/'
      → d ≢ b'/'
      → match method ((c ∷ p) ++ d ∷ s) (two_leaves (c ∷ p) (d ∷ s) method h k) ≡ none
  unfolding match
  match-longer c p d s method h k hc hd =
      let fuel = length (p ++ d ∷ s) in
      let tree = two_leaves (c ∷ p) (d ∷ s) method h k in
      let first = descend-first (c ∷ p) (d ∷ s) (d ∷ s) method h k in
      match_from-lost (suc fuel) method ((c ∷ p) ++ d ∷ s) tree (
        walk-descend fuel tree c (p ++ d ∷ s) [] (leaf (c ∷ p) method h) (d ∷ s) [] hc first
        ∙ walk_stuck fuel (c ∷ p) method h d s hd (omega (arith, length-append p (d ∷ s))))

  match-tail :
      (p : Bytes) (d : ℕ) (s method : Bytes) (h k : H)
      → d ≢ b'/'
      → strip_prefix p (d ∷ s) ≡ none
      → match method (d ∷ s) (two_leaves p (d ∷ s) method h k) ≡ some (k, [])
  unfolding match walk
  match-tail p d s method h k hd e =
      let tree = two_leaves p (d ∷ s) method h k in
      let found = leaf (d ∷ s) method k in
      match_from-walk (suc (length s)) method (d ∷ s) tree found [] k
        (walk-descend (length s) tree d s [] found [] [] hd (descend-second p (d ∷ s) method h k e))
        (handler_for-single method k)

  -- After a route of one text segment, the route of a longer segment that begins with it is not
  -- found under its own path, but under the part that it adds, if that does not begin with the
  -- first segment: `add_child` goes on to the siblings of the shorter segment instead of below it.
  pub match-shadowed :
      (c : ℕ) (p : Bytes) (d : ℕ) (s method : Bytes) (h k : H)
      → IsText (c ∷ p)
      → d ≢ b'/'
      → strip_prefix (c ∷ p) (d ∷ s) ≡ none
      → let short = (add_segments ((c ∷ p) ∷ []) (register method h) (new_node [] static [])).0 in
        let both = (add_segments (((c ∷ p) ++ d ∷ s) ∷ []) (register method k) short).0 in
        (match method ((c ∷ p) ++ d ∷ s) both ≡ none) × (match method (d ∷ s) both ≡ some (k, []))
  match-shadowed c p d s method h k t hd e =
      let built = shadowed_tree c p d s method h k t in
      (
        ap (match method ((c ∷ p) ++ d ∷ s)) built ∙ match-longer c p d s method h k t.1 hd,
        ap (match method (d ∷ s)) built ∙ match-tail (c ∷ p) d s method h k hd e,
      )
