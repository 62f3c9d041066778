-- ===== src/Router/Tests.antt =====
-- Runs of a router, and the theorems at them.
use async_uv.Base.{ℕ, ◌≡◌, ◌≢◌, refl, ◌↔◌, none, some, List, [], ◌∷◌, ◌++◌, arith, All, map, drop}
use async_uv.Base.Bytes.{
  Bytes, lit, bytes_beq, cut_at, split_on, strip_prefix, last_byte, drop_last,
}
use async_uv.Base.Dict.{lookup, insert}
use async_uv.Http.Target.{UrlLibrary, parse_request_target, query_items_of, decode_component}
use async_uv.Router.Node.{
  static, classify, parse_param_segment, RouterNode, new_node, handlers_of, common_prefix,
  split_child, name_child, add_child,
}
use async_uv.Router.Matching.{
  Captures, spent, static_child, typed_child, param_child, descend, walk, handler_for, match_from,
  descend_node, match_node, match,
}
use async_uv.Router.Matching.Fuel.{IsWellFormed, match_fuel}
use async_uv.Router.Matching.Agree.{match_from-match_node}
use async_uv.Router.Paths.{
  squash, rooted, without_last_slash, normalize_path, to_storage_path, to_upper_ascii,
  prefix_matches, wildcard_methods, param_names_of, extract_param_names,
}
use async_uv.Router.Paths.Normal.{IsNormal, normalize_path-IsNormal}
use async_uv.Router.Table.{
  Router, duplicate_route, create, is_duplicate, register, at_child, add_segments, add_route_as,
  add_route, get, route, match_route, match_subs, allowed_methods, allowed_in_subs, methods_of,
  sort_unique, sorted_insert, bytes_ltb, member, params_onto,
}
use async_uv.Router.Table.Insertion.{IsSound, add_route-IsSound}
use async_uv.Router.Table.Pieces.{
  Piece, fixed, filled, segment_of, text_of, path_of, captures_of, IsPiece,
}
use async_uv.Router.Table.Fresh.{match-fresh}
use async_uv.Router.Table.Single.{match_route-get}
use async_uv.Router.Table.Shadowing.{match-shadowed}

-- A URL library that refuses every text, so that the code's own splitting is used.
abbrev no_url : UrlLibrary
no_url = record { parse_uri_reference = λ _. none; pct_decode = λ _ _. none }

running : Unit {0}
unfolding bytes_beq cut_at split_on strip_prefix last_byte drop_last lookup insert
    parse_request_target query_items_of decode_component classify parse_param_segment common_prefix
    split_child name_child add_child static_child typed_child param_child descend walk handler_for
    match_from descend_node match_node match squash rooted without_last_slash normalize_path
    to_storage_path to_upper_ascii prefix_matches wildcard_methods param_names_of
    extract_param_names create is_duplicate register at_child add_segments add_route_as add_route
    route match_route match_subs allowed_methods allowed_in_subs methods_of sort_unique
    sorted_insert bytes_ltb member params_onto
running = tt

abbrev get_text : Bytes
get_text = lit "GET"

abbrev users : List Piece
users = fixed (lit "users") ∷ filled (lit "{id}") (lit "7") ∷ []

abbrev users_tree : RouterNode ℕ
users_tree = (add_segments (map segment_of users) (register get_text 1) (new_node [] static [])).0

abbrev users_router : Router ℕ
users_router = (get no_url (lit "/users/{id}") 1 none create).0

found :
    (match_route no_url (lit "get") (lit "//users/42/?x=1") users_router)
    ≡ some (record { handler = 1; params = (lit "id", lit "42") ∷ [] })
unfolding running
found = refl

refused :
    (get no_url (lit "/users/{name}/") 2 none users_router).1
    ≡ some (duplicate_route get_text (lit "/users/{name}"))
unfolding running
refused = refl

allowed : allowed_methods no_url (lit "/users/42") users_router ≡ get_text ∷ lit "HEAD" ∷ []
unfolding running
allowed = refl

users-IsPiece : All IsPiece users
unfolding running
users-IsPiece = ground arith

match-fresh_example :
    match get_text (drop 1 (path_of (map text_of users))) users_tree ≡ some (1, captures_of users)
match-fresh_example =
    match-fresh (fixed (lit "users")) (filled (lit "{id}") (lit "7") ∷ []) get_text 1 users-IsPiece

users_tree-IsWellFormed : IsWellFormed users_tree
unfolding running IsWellFormed
users_tree-IsWellFormed = ((λ e. cc e), (tt, tt, tt), tt)

match_fuel_example :
    (walk 50 users_tree (lit "users/7") [] ≢ spent)
    × (match_from 50 get_text (lit "users/7") users_tree
        ≡ match get_text (lit "users/7") users_tree)
match_fuel_example =
    match_fuel 50 get_text (lit "users/7") users_tree users_tree-IsWellFormed (omega arith)

abbrev no_routes : Router ℕ
no_routes = create

no_routes-IsSound : IsSound no_routes
unfolding IsSound IsWellFormed create
no_routes-IsSound = (tt, tt)

add_route-IsSound_example :
    IsSound (add_route no_url get_text (lit "/users/{id}") 1 none no_routes).0
add_route-IsSound_example =
    add_route-IsSound no_url get_text (lit "/users/{id}") 1 none no_routes no_routes-IsSound

match-shadowed_example :
    let short : RouterNode ℕ =
      (add_segments (lit "user" ∷ []) (register get_text 1) (new_node [] static [])).0 in
    let both : RouterNode ℕ =
      (add_segments ((lit "user" ++ lit "s") ∷ []) (register get_text 2) short).0 in
    (match get_text (lit "user" ++ lit "s") both ≡ none)
    × (match get_text (lit "s") both ≡ some (2, []))
unfolding strip_prefix
match-shadowed_example =
    match-shadowed b'u' (lit "ser") b's' [] get_text 1 2 (ground arith) (ground arith) refl

match_from-match_node_example :
    ((params : Captures) × (match_from 9 get_text (lit "users/7") users_tree ≡ some (1, params)))
    ↔ ((m : RouterNode ℕ) × (match_node 9 (lit "users/7") users_tree ≡ some m)
        × (handler_for get_text (handlers_of m) ≡ some 1))
match_from-match_node_example = match_from-match_node 9 get_text (lit "users/7") users_tree 1

normalize_path-IsNormal_example : IsNormal (normalize_path no_url (lit "a//b/"))
normalize_path-IsNormal_example = normalize_path-IsNormal no_url (lit "a//b/")

match_route-get_example :
    let (r, failure) = get no_url (path_of (map segment_of users)) 1 none no_routes in
    (failure ≡ none)
    × (match_route no_url get_text (path_of (map text_of users)) r
        ≡ some (record { handler = 1; params = params_onto [] (captures_of users) }))
unfolding running
match_route-get_example =
    match_route-get no_url (fixed (lit "users")) (filled (lit "{id}") (lit "7") ∷ []) 1 none
      users-IsPiece refl refl
