-- ===== src/Router/Table/Single.antt =====
-- One route in a new router, from its registration to a match.
use async_uv.Base.{
  ◌≡◌, refl, ◌≢◌, inr, Bool, true, false, Option, none, some, List, [], ◌∷◌, ◌++◌, arith, ◌==◌, All,
  map, subst, sym, ap, ◌∙◌, append-nil,
}
use async_uv.Base.Bytes.{Bytes, lit, bytes_beq, split_on}
use async_uv.Base.Splitting.{split_on-append, split_on-whole}
use async_uv.Http.Target.{UrlLibrary, parse_request_target}
use async_uv.Router.Node.{
  NodeType, static, param, wildcard, classify, parse_param_segment, RouterNode, node, nil, new_node,
  add_child,
}
use async_uv.Router.Matching.{match}
use async_uv.Router.Paths.{normalize_path, to_storage_path, to_upper_ascii, param_names_of}
use async_uv.Router.Paths.Normal.{HasNoRun, EndsWell, IsNormal, normalize_path_id}
use async_uv.Router.Table.{
  Router, router, no_sub, RouteMeta, RouteInfo, RouteError, create, register, is_duplicate,
  at_child, add_segments, add_route_as, add_route, get, match_route, params_onto, meta_or_default,
  result_of,
}
use async_uv.Router.Table.Pieces.{
  Piece, fixed, filled, segment_of, text_of, path_of, captures_of, IsSegment, IsPiece,
}
use async_uv.Router.Table.Fresh.{match-fresh}

text-HasNoRun :
    (s rest : Bytes) → All (λ c. c ≢ b'/') s → HasNoRun false rest → HasNoRun false (s ++ rest)
text-HasNoRun [] rest h k = k
text-HasNoRun (c ∷ s) rest h k =
    let other : (c == b'/') ≡ false = ground (arith, h.0) in
    ((λ e. cc e), rw other (text-HasNoRun s rest h.1 k))

text-EndsWell :
    (s rest : Bytes) → All (λ c. c ≢ b'/') s → EndsWell false rest → EndsWell false (s ++ rest)
text-EndsWell [] rest h k = k
text-EndsWell (c ∷ s) rest h k =
    let other : (c == b'/') ≡ false = ground (arith, h.0) in
    subst (λ b. EndsWell b (s ++ rest)) (sym other) (text-EndsWell s rest h.1 k)

segment-HasNoRun : (t rest : Bytes) → IsSegment t → HasNoRun false rest → HasNoRun true (t ++ rest)
segment-HasNoRun [] rest h k = absurd (h.0 refl)
segment-HasNoRun (c ∷ t) rest h k = ((λ e. h.1.0), (text-HasNoRun (c ∷ t) rest h.1 k).1)

path-HasNoRun : (texts : List Bytes) → All IsSegment texts → HasNoRun false (path_of texts)
path-HasNoRun [] h = tt
path-HasNoRun (t ∷ texts) h =
    ((λ e. cc e), segment-HasNoRun t (path_of texts) h.0 (path-HasNoRun texts h.1))

segment-EndsWell :
    (b : Bool) (t rest : Bytes) → IsSegment t → EndsWell false rest → EndsWell b (t ++ rest)
segment-EndsWell b [] rest h k = absurd (h.0 refl)
segment-EndsWell b (c ∷ t) rest h k = text-EndsWell (c ∷ t) rest h.1 k

path-EndsWell : (texts : List Bytes) → All IsSegment texts → EndsWell false (path_of texts)
path-EndsWell [] h = refl
path-EndsWell (t ∷ texts) h = segment-EndsWell true t (path_of texts) h.0 (path-EndsWell texts h.1)

path-IsNormal :
    (t : Bytes) (texts : List Bytes) → All IsSegment (t ∷ texts) → IsNormal (path_of (t ∷ texts))
path-IsNormal t texts h = (
  t ++ path_of texts,
  refl,
  segment-HasNoRun t (path_of texts) h.0 (path-HasNoRun texts h.1),
  inr (segment-EndsWell false t (path_of texts) h.0 (path-EndsWell texts h.1)),
)

split_on-path :
    (t : Bytes) (texts : List Bytes)
    → All IsSegment (t ∷ texts)
    → split_on b'/' (t ++ path_of texts) ≡ t ∷ texts
split_on-path t [] h = ap (split_on b'/') (append-nil t) ∙ split_on-whole b'/' t h.0.1
split_on-path t (u ∷ texts) h =
    split_on-append b'/' t (u ++ path_of texts) h.0.1 ∙ ap (λ l. t ∷ l) (split_on-path u texts h.1)

to_storage_path-path :
    (lib : UrlLibrary) (t : Bytes) (texts : List Bytes)
    → All IsSegment (t ∷ texts)
    → normalize_path lib (path_of (t ∷ texts)) ≡ path_of (t ∷ texts)
    → to_storage_path lib (path_of (t ∷ texts)) ≡ t ++ path_of texts
unfolding to_storage_path bytes_beq
to_storage_path-path lib [] texts h e = absurd (h.0.0 refl)
to_storage_path-path lib (c ∷ t) texts h e = rw e refl

segments-AreSegments :
    (pieces : List Piece) → All IsPiece pieces → All IsSegment (map segment_of pieces)
segments-AreSegments [] h = tt
segments-AreSegments (fixed s ∷ pieces) h = (h.0.0, segments-AreSegments pieces h.1)
segments-AreSegments (filled s text ∷ pieces) h = (h.0.0, segments-AreSegments pieces h.1)

texts-AreSegments : (pieces : List Piece) → All IsPiece pieces → All IsSegment (map text_of pieces)
texts-AreSegments [] h = tt
texts-AreSegments (fixed s ∷ pieces) h = (h.0.0, texts-AreSegments pieces h.1)
texts-AreSegments (filled s text ∷ pieces) h = (h.0.1, texts-AreSegments pieces h.1)

module _ {H : Type 0} where
  at_child-flag :
      (path : Bytes) (type : NodeType) (nm : Bytes) (use_it : RouterNode H → RouterNode H × Bool)
      (prefix : Bytes) (t : NodeType) (name : Bytes)
      → (use_it (new_node path type nm)).1 ≡ false
      → (at_child path type nm use_it (node prefix t name nil [])).1 ≡ false
  unfolding at_child add_child
  at_child-flag path type nm use_it prefix t name e = e

  -- A route in a tree without routes is no duplicate.
  add_segments-flag :
      (segments : List Bytes) (method : Bytes) (h : H) (prefix : Bytes) (t : NodeType)
      (name : Bytes)
      → (add_segments segments (register method h) (node prefix t name nil [])).1 ≡ false
  unfolding add_segments register is_duplicate
  add_segments-flag [] method h prefix t name = refl
  add_segments-flag ([] ∷ segments) method h prefix t name =
      add_segments-flag segments method h prefix t name
  add_segments-flag ((c ∷ s) ∷ segments) method h prefix t name =
      let nm = (parse_param_segment (c ∷ s)).1 in
      by_type nm (add_segments segments (register method h)) (classify (c ∷ s))
        (add_segments-flag segments method h (c ∷ s) static [])
        (add_segments-flag segments method h [] param nm)
        (add_segments-flag segments method h [] wildcard nm)
    where
      by_type :
          (nm : Bytes) (deeper : RouterNode H → RouterNode H × Bool) (u : NodeType)
          → (deeper (new_node (c ∷ s) static [])).1 ≡ false
          → (deeper (new_node [] param nm)).1 ≡ false
          → (deeper (new_node [] wildcard nm)).1 ≡ false
          → (elim u as (λ _. RouterNode H × Bool) [
            | static ↦ at_child (c ∷ s) static [] deeper (node prefix t name nil [])
            | param ↦ at_child [] param nm deeper (node prefix t name nil [])
            | wildcard ↦ at_child [] wildcard nm deeper (node prefix t name nil [])
          ]).1
            ≡ false
      by_type nm deeper static a b c' = at_child-flag (c ∷ s) static [] deeper prefix t name a
      by_type nm deeper param a b c' = at_child-flag [] param nm deeper prefix t name b
      by_type nm deeper wildcard a b c' = at_child-flag [] wildcard nm deeper prefix t name c'

abbrev first_info : List Bytes → Option RouteMeta → RouteInfo
first_info segments meta = record {
  method = lit "GET";
  pattern = path_of segments;
  param_names = param_names_of segments;
  meta = meta_or_default meta;
}

module _ (lib : UrlLibrary) {H : Type 0} where
  -- The router after its first route.
  abbrev pub first_route : List Bytes → H → Option RouteMeta → Router H × Option RouteError
  first_route segments h meta = get lib (path_of segments) h meta create

  first_route-router :
      (t : Bytes) (segments : List Bytes) (h : H) (meta : Option RouteMeta)
      → All IsSegment (t ∷ segments)
      → normalize_path lib (path_of (t ∷ segments)) ≡ path_of (t ∷ segments)
      → first_route (t ∷ segments) h meta ≡ (
        router
            (add_segments (t ∷ segments) (register (lit "GET") h) (new_node [] static [])).0
            no_sub
            (first_info (t ∷ segments) meta ∷ []),
        none,
      )
  unfolding add_route add_route_as create bytes_beq to_upper_ascii
  first_route-router t segments h meta ok e =
      let storage = to_storage_path-path lib t segments ok e in
      let pieces = split_on-path t segments ok in
      let fresh = add_segments-flag (t ∷ segments) (lit "GET") h [] static [] in
      rw (add_route, add_route_as, e, storage, pieces, fresh) refl

  match_route-plain :
      (root : RouterNode H) (infos : List RouteInfo) (t : Bytes) (texts : List Bytes)
      → All IsSegment (t ∷ texts)
      → normalize_path lib (path_of (t ∷ texts)) ≡ path_of (t ∷ texts)
      → match_route lib (lit "GET") (path_of (t ∷ texts)) (router root no_sub infos)
        ≡ result_of (match (lit "GET") (t ++ path_of texts) root)
  unfolding match_route to_upper_ascii
  match_route-plain root infos t texts ok e =
      rw (match_route, to_storage_path-path lib t texts ok e) refl

  -- Where the URL parser leaves the pattern and the path as they are: the registration of a GET
  -- route of text segments and parameters with a new router succeeds, and the router then finds the
  -- handler for every path that fills the pattern in, with the map of the texts that stand for the
  -- parameters, under their names.
  pub match_route-get :
      (piece : Piece) (pieces : List Piece) (h : H) (meta : Option RouteMeta)
      → All IsPiece (piece ∷ pieces)
      → (parse_request_target lib (path_of (map segment_of (piece ∷ pieces)))).path
        ≡ path_of (map segment_of (piece ∷ pieces))
      → (parse_request_target lib (path_of (map text_of (piece ∷ pieces)))).path
        ≡ path_of (map text_of (piece ∷ pieces))
      → let (r, failure) = get lib (path_of (map segment_of (piece ∷ pieces))) h meta create in
        (failure ≡ none)
        × (match_route lib (lit "GET") (path_of (map text_of (piece ∷ pieces))) r
            ≡ some (record { handler = h; params = params_onto [] (captures_of (piece ∷ pieces)) }))
  match_route-get piece pieces h meta ok pattern path =
      let segments = map segment_of (piece ∷ pieces) in
      let texts = map text_of (piece ∷ pieces) in
      let ok_segments = segments-AreSegments (piece ∷ pieces) ok in
      let ok_texts = texts-AreSegments (piece ∷ pieces) ok in
      let same =
        normalize_path_id lib (path_of segments)
          (path-IsNormal (segment_of piece) (map segment_of pieces) ok_segments) pattern in
      let same' =
        normalize_path_id lib (path_of texts)
          (path-IsNormal (text_of piece) (map text_of pieces) ok_texts) path in
      let built =
        first_route-router (segment_of piece) (map segment_of pieces) h meta ok_segments same in
      let tree = (add_segments segments (register (lit "GET") h) (new_node [] static [])).0 in
      (
        ap (λ r. r.1) built,
        ap (λ r. match_route lib (lit "GET") (path_of texts) r.0) built
            ∙ match_route-plain tree (first_info segments meta ∷ []) (text_of piece)
                (map text_of pieces) ok_texts same'
            ∙ ap result_of (match-fresh piece pieces (lit "GET") h ok),
      )
