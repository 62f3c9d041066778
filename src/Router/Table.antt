-- ===== src/Router/Table.antt =====
-- layer3/src/router.cpp and router.hpp: the Router, a tree of segments with routers below prefixes.
-- An exception is a value beside the router as it is left.
pub mod Insertion
pub mod Pieces
pub mod Grown
pub mod Fresh
pub mod Single
pub mod Shadowing
use async_uv.Base.{
  ℕ, Bool, true, false, not, ◌&&◌, ◌||◌, Option, none, some, List, [], ◌∷◌, ◌++◌, map, ◌==◌, ltb,
  if◌then◌else◌, drop, length, ◌=?◌,
}
use async_uv.Base.Bytes.{Bytes, bytes_eq, bytes_beq, split_on, is_empty, lit}
use async_uv.Base.Dict.{lookup, insert}
use async_uv.Http.Target.{UrlLibrary}
use async_uv.Router.Node.{
  NodeType, static, param, wildcard, classify, parse_param_segment, RouterNode, node, Children, nil,
  cons, new_node, handlers_of, add_child,
}
use async_uv.Router.Matching.{Captures, match, match_node}
use async_uv.Router.Paths.{
  to_upper_ascii, prefix_matches, wildcard_methods, normalize_path, to_storage_path,
  extract_param_names, join_prefix_pattern,
}

pub record RouteMeta : Type 0 where
  pub name : Bytes
  pub description : Bytes
  pub tags : List Bytes
  pub require_auth : Bool

abbrev pub default_meta : RouteMeta
default_meta = record { name = []; description = []; tags = []; require_auth = false }

pub record RouteInfo : Type 0 where
  pub method : Bytes
  pub pattern : Bytes
  pub param_names : List Bytes
  pub meta : RouteMeta

mutual
  pub data Router (H : Type 0) : Type 0 where
    router : RouterNode H → SubRouters H → List RouteInfo → Router H

  pub data SubRouters (H : Type 0) : Type 0 where
    no_sub : SubRouters H
    sub : Bytes → Router H → SubRouters H → SubRouters H

-- The two std::invalid_argument of `add_route`.
pub data RouteError : Type 0 where
  empty_method : RouteError
  duplicate_route : Bytes → Bytes → RouteError

pub record MatchResult (H : Type 0) : Type 0 where
  pub handler : H
  pub params : List (Bytes × Bytes)

abbrev pub star : Bytes
star = lit "*"

module _ {H : Type 0} where
  unfoldable pub create : Router H
  create = router (new_node [] static []) no_sub []

  -- The lambda `duplicate`.
  unfoldable pub is_duplicate : Bytes → List (Bytes × H) → Bool
  unfolding bytes_beq lookup
  is_duplicate method [] = false
  is_duplicate method (h ∷ handlers) =
      if bytes_beq method star then true else elim (lookup method (h ∷ handlers)) [
        | some _ ↦ true
        | none ↦ elim (lookup star (h ∷ handlers)) [ some _ ↦ true | none ↦ false ]
      ]

  -- What `add_route` does at the node that it reaches, and whether the route was there.
  unfoldable pub register : Bytes → H → RouterNode H → RouterNode H × Bool
  unfolding is_duplicate insert bytes_beq
  register method handler (node prefix type name children handlers) =
      if is_duplicate method handlers
      then (node prefix type name children handlers, true)
      else (node prefix type name children (insert method handler handlers), false)

module _ {H R : Type 0} where
  unfoldable pub at_child :
      Bytes → NodeType → Bytes → (RouterNode H → RouterNode H × R) → RouterNode H → RouterNode H × R
  unfolding add_child
  at_child path type name use_it (node prefix t old children handlers) =
      let (children', r) = add_child path type name use_it children in
      (node prefix t old children' handlers, r)

  -- The loop of `add_route` over the segments, from a node on.
  unfoldable pub add_segments :
      List Bytes → (RouterNode H → RouterNode H × R) → RouterNode H → RouterNode H × R
  unfolding at_child classify parse_param_segment
  add_segments [] use_it n = use_it n
  add_segments ([] ∷ segments) use_it n = add_segments segments use_it n
  add_segments ((c ∷ s) ∷ segments) use_it n =
      let name = (parse_param_segment (c ∷ s)).1 in
      let deeper = add_segments segments use_it in
      elim (classify (c ∷ s)) [
        | static ↦ at_child (c ∷ s) static [] deeper n
        | param ↦ at_child [] param name deeper n
        | wildcard ↦ at_child [] wildcard name deeper n
      ]

-- `std::sort` and `std::unique` on names: a name goes before the first that is greater, unless it
-- is there.
unfoldable pub bytes_ltb : Bytes → Bytes → Bool
bytes_ltb [] [] = false
bytes_ltb [] (_ ∷ _) = true
bytes_ltb (_ ∷ _) [] = false
bytes_ltb (a ∷ s) (b ∷ t) = let rest = bytes_ltb s t in if a == b then rest else ltb a b

unfoldable pub sorted_insert : Bytes → List Bytes → List Bytes
unfolding bytes_ltb bytes_beq
sorted_insert x [] = x ∷ []
sorted_insert x (y ∷ ys) =
    let rest = y ∷ sorted_insert x ys in
    if bytes_beq x y then y ∷ ys else if bytes_ltb x y then x ∷ y ∷ ys else rest

unfoldable pub sort_unique : List Bytes → List Bytes
unfolding sorted_insert
sort_unique [] = []
sort_unique (x ∷ xs) = sorted_insert x (sort_unique xs)

unfoldable pub member : Bytes → List Bytes → Bool
unfolding bytes_beq
member x [] = false
member x (y ∷ ys) = if bytes_beq x y then true else member x ys

-- The methods of a node in `allowed_methods`.
unfoldable pub methods_of : List Bytes → List Bytes
unfolding member sort_unique wildcard_methods
methods_of keys =
    if member star keys
    then wildcard_methods
    else if member (lit "GET") keys && not (member (lit "HEAD") keys)
    then sort_unique (keys ++ lit "HEAD" ∷ [])
    else sort_unique keys

-- The loop that copies the parameters into a map: the last of a name wins.
unfoldable pub params_onto : List (Bytes × Bytes) → Captures → List (Bytes × Bytes)
unfolding insert bytes_beq
params_onto m [] = m
params_onto m ((key, value) ∷ captures) = params_onto (insert key value m) captures

abbrev pub meta_or_default : Option RouteMeta → RouteMeta
meta_or_default none = default_meta
meta_or_default (some meta) = meta

module _ {H : Type 0} where
  abbrev pub result_of : Option (H × Captures) → Option (MatchResult H)
  result_of none = none
  result_of (some (h, captures)) = some (record { handler = h; params = params_onto [] captures })

  abbrev methods_at : Option (RouterNode H) → List Bytes
  methods_at none = []
  methods_at (some n) = methods_of (map (λ b. b.0) (handlers_of n))

module _ (lib : UrlLibrary) where
  abbrev prefixed : Bytes → RouteInfo → RouteInfo
  prefixed prefix info = record info { pattern = join_prefix_pattern lib prefix info.pattern }

module _ (lib : UrlLibrary) {H : Type 0} where
  -- `add_route` once the method is known.
  unfoldable pub add_route_as :
      Bytes → Bytes → H → Option RouteMeta → Router H → Router H × Option RouteError
  unfolding normalize_path to_storage_path split_on add_segments register extract_param_names
  add_route_as method pattern handler meta (router root subs infos) =
      let normalized = normalize_path lib pattern in
      let (root', duplicate) =
        add_segments (split_on b'/' (to_storage_path lib normalized)) (register method handler)
          root in
      if duplicate
      then (router root' subs infos, some (duplicate_route method normalized))
      else let info : RouteInfo = record {
        method = method;
        pattern = normalized;
        param_names = extract_param_names lib normalized;
        meta = meta_or_default meta;
      } in
        (router root' subs (infos ++ info ∷ []), none)

  unfoldable pub add_route :
      Bytes → Bytes → H → Option RouteMeta → Router H → Router H × Option RouteError
  unfolding add_route_as to_upper_ascii bytes_beq
  add_route method pattern handler meta r =
      if bytes_beq method star
      then add_route_as star pattern handler meta r
      else if is_empty (to_upper_ascii method)
      then (r, some empty_method)
      else add_route_as (to_upper_ascii method) pattern handler meta r

  abbrev pub get : Bytes → H → Option RouteMeta → Router H → Router H × Option RouteError
  get = add_route (lit "GET")

  abbrev pub post : Bytes → H → Option RouteMeta → Router H → Router H × Option RouteError
  post = add_route (lit "POST")

  abbrev pub put : Bytes → H → Option RouteMeta → Router H → Router H × Option RouteError
  put = add_route (lit "PUT")

  abbrev pub del : Bytes → H → Option RouteMeta → Router H → Router H × Option RouteError
  del = add_route (lit "DELETE")

  abbrev pub patch : Bytes → H → Option RouteMeta → Router H → Router H × Option RouteError
  patch = add_route (lit "PATCH")

  abbrev pub all : Bytes → H → Option RouteMeta → Router H → Router H × Option RouteError
  all = add_route star

  abbrev snoc_sub : Bytes → Router H → SubRouters H → SubRouters H
  snoc_sub prefix r no_sub = sub prefix r no_sub
  snoc_sub prefix r (sub p q rest) = sub p q (snoc_sub prefix r rest)

  unfoldable pub route : Bytes → Router H → Router H → Router H
  unfolding to_storage_path
  route prefix sub_router (router root subs infos) =
      router root (snoc_sub (to_storage_path lib prefix) sub_router subs) infos

  unfoldable mutual
    pub match_route : Bytes → Bytes → Router H → Option (MatchResult H)
    match_route method path (router root subs infos) =
        let normalized = to_storage_path lib path in
        elim (match_subs (to_upper_ascii method) normalized subs) [
          | some result ↦ some result
          | none ↦ result_of (match (to_upper_ascii method) normalized root)
        ]

    -- The loop over the routers below prefixes.
    pub match_subs : Bytes → Bytes → SubRouters H → Option (MatchResult H)
    match_subs method path no_sub = none
    match_subs method path (sub prefix r rest) =
        let here : Option (MatchResult H) =
          if prefix_matches path prefix
          then match_route method (drop (length prefix) path) r
          else none in
        elim here [ some result ↦ some result | none ↦ match_subs method path rest ]

  unfoldable mutual
    pub allowed_methods : Bytes → Router H → List Bytes
    allowed_methods path (router root subs infos) =
        let normalized = to_storage_path lib path in
        elim (allowed_in_subs normalized subs) [
          | [] ↦ methods_at (match_node (length normalized) normalized root)
          | m ∷ ms ↦ m ∷ ms
        ]

    pub allowed_in_subs : Bytes → SubRouters H → List Bytes
    allowed_in_subs path no_sub = []
    allowed_in_subs path (sub prefix r rest) =
        let here : List Bytes =
          if prefix_matches path prefix
          then allowed_methods (drop (length prefix) path) r
          else [] in
        elim here [ [] ↦ allowed_in_subs path rest | m ∷ ms ↦ m ∷ ms ]

  unfoldable mutual
    pub routes : Router H → List RouteInfo
    routes (router root subs infos) = infos ++ routes_in_subs subs

    pub routes_in_subs : SubRouters H → List RouteInfo
    routes_in_subs no_sub = []
    routes_in_subs (sub prefix r rest) = map (prefixed lib prefix) (routes r) ++ routes_in_subs rest
