-- ===== src/Router/Table/Insertion.antt =====
-- Registration builds only trees whose static nodes have a prefix.
use async_uv.Base.{
  ℕ, zero, suc, ◌<◌, ◌≡◌, refl, ◌≢◌, inl, inr, false, Option, List, [], ◌∷◌, arith, ◌==◌, ltb,
  Bool-cases, length, take, drop,
}
use async_uv.Base.Bytes.{Bytes, bytes_beq, split_on, is_empty}
use async_uv.Http.Target.{UrlLibrary}
use async_uv.Router.Node.{
  NodeType, static, param, wildcard, same_type, classify, parse_param_segment, RouterNode, node,
  Children, nil, cons, new_node, common_prefix, split_child, name_child, add_child,
}
use async_uv.Router.Matching.Fuel.{HasPrefix, IsWellFormed, AreWellFormed}
use async_uv.Router.Paths.{to_upper_ascii, normalize_path, to_storage_path}
use async_uv.Router.Table.{
  Router, router, SubRouters, no_sub, sub, RouteMeta, register, is_duplicate, at_child,
  add_segments, add_route_as, add_route, star,
}

length-take : (n : ℕ) (s : Bytes) → n ≢ 0 → n < length s → take n s ≢ []
length-take zero s h k e = h refl
length-take (suc n) [] h k e = absurd (omega (arith, k))
length-take (suc n) (b ∷ s) h k e = cc e

length-drop : (n : ℕ) (s : Bytes) → n < length s → drop n s ≢ []
length-drop zero [] k e = absurd (omega (arith, k))
length-drop zero (b ∷ s) k e = cc e
length-drop (suc n) [] k e = absurd (omega (arith, k))
length-drop (suc n) (b ∷ s) k e = length-drop n s (omega (arith, k)) e

not_empty-≢ : (s : Bytes) → is_empty s ≡ false → s ≢ []
not_empty-≢ [] h e = cc h
not_empty-≢ (b ∷ s) h e = cc e

-- A node that may stand among the children of another.
abbrev pub Fits : {H : Type 0} → RouterNode H → Type 0
Fits (node prefix type name children handlers) = HasPrefix type prefix × AreWellFormed children

module _ {H : Type 0} where
  AreWellFormed-cons :
      (child : RouterNode H) (rest : Children H)
      → Fits child
      → AreWellFormed rest
      → AreWellFormed (cons child rest)
  unfolding IsWellFormed
  AreWellFormed-cons (node prefix type name children handlers) rest f w = (f.0, f.1, w)

  split_child-Fits :
      (path : Bytes) (child : RouterNode H) (common : ℕ)
      → common ≢ 0
      → Fits child
      → Fits (split_child common child)
  unfolding split_child IsWellFormed
  split_child-Fits path (node prefix type name children handlers) common h f =
      elim (Bool-cases (ltb common (length prefix))) [
        | inl shorter ↦
            let lt : common < length prefix = ground (arith, shorter) in
            rw shorter (length-take common prefix h lt, (drop-HasPrefix type lt, f.1, tt))
        | inr whole ↦ rw whole f
      ]
    where
      drop-HasPrefix : (t : NodeType) → common < length prefix → HasPrefix t (drop common prefix)
      drop-HasPrefix static lt = length-drop common prefix lt
      drop-HasPrefix param lt = tt
      drop-HasPrefix wildcard lt = tt

  name_child-Fits :
      (name : Bytes) (child : RouterNode H) → Fits child → Fits (name_child name child)
  unfolding name_child
  name_child-Fits name (node prefix type old children handlers) f = f

  -- What a caller does in place keeps trees well-formed.
  abbrev Keeps : {R : Type 0} → (RouterNode H → RouterNode H × R) → Type 0
  Keeps use_it =
      ((n : RouterNode H) → Fits n → Fits (use_it n).0)
      × ((n : RouterNode H) → IsWellFormed n → IsWellFormed (use_it n).0)

  add_child-AreWellFormed :
      {R : Type 0} (path : Bytes) (type : NodeType) (name : Bytes)
      (use_it : RouterNode H → RouterNode H × R) (children : Children H)
      → Keeps use_it
      → HasPrefix type path
      → AreWellFormed children
      → AreWellFormed (add_child path type name use_it children).0
  unfolding add_child IsWellFormed
  add_child-AreWellFormed path type name use_it nil k p w =
      AreWellFormed-cons (use_it (new_node path type name)).0 nil
        (k.0 (new_node path type name) (p, tt)) tt
  add_child-AreWellFormed path type name use_it (cons (node prefix t old children handlers) rest) k
        p w =
      let child = node prefix t old children handlers in
      let common = common_prefix prefix path in
      elim (Bool-cases (same_type t type)) [
        | inr differ ↦
            rw differ (w.0, w.1, add_child-AreWellFormed path type name use_it rest k p w.2)
        | inl same ↦ elim (Bool-cases (same_type type static)) [
          | inr special ↦
              rw (same, special)
                (AreWellFormed-cons (use_it (name_child name child)).0 rest
                  (k.0 (name_child name child) (name_child-Fits name child (w.0, w.1))) w.2)
          | inl plain ↦ elim (Bool-cases (common == 0)) [
            | inl apart ↦
                rw (same, plain, apart)
                  (w.0, w.1, add_child-AreWellFormed path type name use_it rest k p w.2)
            | inr share ↦
                let not_zero : common ≢ 0 = ground (arith, share) in
                let split = split_child-Fits path child common not_zero (w.0, w.1) in
                elim (Bool-cases (is_empty (drop common path))) [
                  | inl whole ↦
                      rw (same, plain, share, whole)
                        (AreWellFormed-cons (use_it (split_child common child)).0 rest
                          (k.0 (split_child common child) split) w.2)
                  | inr left ↦
                      rw (same, plain, share, left)
                        (AreWellFormed-cons (split_child common child)
                          (add_child (drop common path) type name use_it rest).0 split
                          (add_child-AreWellFormed (drop common path) type name use_it rest k
                            (rest-HasPrefix type (drop common path)
                              (not_empty-≢ (drop common path) left))
                            w.2))
                ]
          ]
        ]
      ]
    where
      rest-HasPrefix : (t : NodeType) (s : Bytes) → s ≢ [] → HasPrefix t s
      rest-HasPrefix static s h = h
      rest-HasPrefix param s h = tt
      rest-HasPrefix wildcard s h = tt

  at_child-Keeps :
      {R : Type 0} (path : Bytes) (type : NodeType) (name : Bytes)
      (use_it : RouterNode H → RouterNode H × R)
      → Keeps use_it
      → HasPrefix type path
      → Keeps (at_child path type name use_it)
  unfolding at_child IsWellFormed
  at_child-Keeps path type name use_it k p = (
    elim [
      | node prefix t old children handlers ↦
          λ f. (f.0, add_child-AreWellFormed path type name use_it children k p f.1)
    ],
    elim [
      | node prefix t old children handlers ↦
          λ w. add_child-AreWellFormed path type name use_it children k p w
    ],
  )

  add_segments-Keeps :
      {R : Type 0} (segments : List Bytes) (use_it : RouterNode H → RouterNode H × R)
      → Keeps use_it
      → Keeps (add_segments segments use_it)
  unfolding add_segments
  add_segments-Keeps [] use_it k = k
  add_segments-Keeps ([] ∷ segments) use_it k = add_segments-Keeps segments use_it k
  add_segments-Keeps ((c ∷ s) ∷ segments) use_it k =
      let name = (parse_param_segment (c ∷ s)).1 in
      let deeper = add_segments segments use_it in
      let ih = add_segments-Keeps segments use_it k in
      by_type (at_child (c ∷ s) static [] deeper) (at_child [] param name deeper)
        (at_child [] wildcard name deeper) (classify (c ∷ s))
        (at_child-Keeps (c ∷ s) static [] deeper ih (λ e. cc e))
        (at_child-Keeps [] param name deeper ih tt) (at_child-Keeps [] wildcard name deeper ih tt)
    where
      by_type :
          {R : Type 0} (f g h : RouterNode H → RouterNode H × R) (t : NodeType)
          → Keeps f
          → Keeps g
          → Keeps h
          → Keeps {R = R} (λ n. elim t [ static ↦ f n | param ↦ g n | wildcard ↦ h n ])
      by_type f g h static a b c = a
      by_type f g h param a b c = b
      by_type f g h wildcard a b c = c

  register-Keeps : (method : Bytes) (handler : H) → Keeps (register method handler)
  unfolding register IsWellFormed
  register-Keeps method handler = (
    elim [
      | node prefix type name children handlers ↦
          λ f. elim (Bool-cases (is_duplicate method handlers)) [ inl d ↦ rw d f | inr n ↦ rw n f ]
    ],
    elim [
      | node prefix type name children handlers ↦
          λ w. elim (Bool-cases (is_duplicate method handlers)) [ inl d ↦ rw d w | inr n ↦ rw n w ]
    ],
  )

-- Every tree of a router and of those below it is well-formed.
unfoldable mutual
  pub IsSound : {H : Type 0} → Router H → Type 0
  IsSound (router root subs infos) = IsWellFormed root × AreSound subs

  pub AreSound : {H : Type 0} → SubRouters H → Type 0
  AreSound no_sub = Unit
  AreSound (sub prefix r rest) = IsSound r × AreSound rest

module _ (lib : UrlLibrary) {H : Type 0} where
  add_route_as-IsSound :
      (method pattern : Bytes) (handler : H) (meta : Option RouteMeta) (r : Router H)
      → IsSound r
      → IsSound (add_route_as lib method pattern handler meta r).0
  unfolding add_route_as IsSound
  add_route_as-IsSound method pattern handler meta (router root subs infos) (w, ws) =
      let segments = split_on b'/' (to_storage_path lib (normalize_path lib pattern)) in
      let kept =
        (add_segments-Keeps segments (register method handler) (register-Keeps method handler)).1
          root w in
      elim (Bool-cases (add_segments segments (register method handler) root).1) [
        | inl d ↦ rw d (kept, ws)
        | inr n ↦ rw n (kept, ws)
      ]

  -- Registering a route, refused or not, leaves every tree of the router well-formed.
  pub add_route-IsSound :
      (method pattern : Bytes) (handler : H) (meta : Option RouteMeta) (r : Router H)
      → IsSound r
      → IsSound (add_route lib method pattern handler meta r).0
  unfolding add_route
  add_route-IsSound method pattern handler meta r w = elim (Bool-cases (bytes_beq method star)) [
    | inl any ↦ rw any (add_route_as-IsSound star pattern handler meta r w)
    | inr one ↦ elim (Bool-cases (is_empty (to_upper_ascii method))) [
      | inl empty ↦ rw (one, empty) w
      | inr named ↦
          rw (one, named) (add_route_as-IsSound (to_upper_ascii method) pattern handler meta r w)
    ]
  ]
