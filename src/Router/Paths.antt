-- ===== src/Router/Paths.antt =====
-- layer3/src/router.cpp: the functions on methods and paths. `lib` is Boost.URL.
pub mod Normal
use async_uv.Base.{
  ℕ, ◌+◌, Bool, true, false, not, ◌&&◌, ◌||◌, Option, none, some, List, [], ◌∷◌, ◌++◌, map, ◌==◌,
  if◌then◌else◌, drop, ◌=?◌,
}
use async_uv.Base.Bytes.{
  Bytes, bytes_eq, bytes_beq, split_on, strip_prefix, is_empty, last_byte, drop_last, lit,
  to_upper_byte,
}
use async_uv.Http.Target.{UrlLibrary, RequestTarget, parse_request_target, slash}
use async_uv.Router.Node.{NodeType, static, param, wildcard, classify, parse_param_segment}

unfoldable pub to_upper_ascii : Bytes → Bytes
to_upper_ascii input = map to_upper_byte input

-- The loop of `normalize_path`: runs of slashes become one. The flag is `prev_slash`.
unfoldable pub squash : Bool → Bytes → Bytes
squash prev_slash [] = []
squash prev_slash (c ∷ path) =
    let after_slash = squash true path in
    if c == b'/'
    then (if prev_slash then after_slash else b'/' ∷ after_slash)
    else c ∷ squash false path

-- With a slash in front of a path that has none.
unfoldable pub rooted : Bytes → Bytes
unfolding squash
rooted [] = slash
rooted (c ∷ path) = if c == b'/' then squash false (c ∷ path) else b'/' ∷ squash true (c ∷ path)

-- Without the slash at the end, unless it is all there is.
unfoldable pub without_last_slash : Bytes → Bytes
without_last_slash [] = slash
without_last_slash (c ∷ []) = c ∷ []
without_last_slash (c ∷ d ∷ path) = elim (last_byte (d ∷ path)) [
  | none ↦ c ∷ d ∷ path
  | some b ↦ if b == b'/' then c ∷ drop_last (d ∷ path) else c ∷ d ∷ path
]

abbrev is_slash : Bytes → Bool
is_slash path = bytes_beq path slash

-- The first byte is a slash, or there is none.
abbrev pub at_boundary : Bytes → Bool
at_boundary [] = true
at_boundary (c ∷ rest) = c == b'/'

unfoldable pub prefix_matches : Bytes → Bytes → Bool
unfolding strip_prefix
prefix_matches path prefix =
    if is_empty prefix
    then true
    else elim (strip_prefix prefix path) [ none ↦ false | some rest ↦ at_boundary rest ]

unfoldable pub wildcard_methods : List Bytes
wildcard_methods = map lit ("DELETE" ∷ "GET" ∷ "HEAD" ∷ "OPTIONS" ∷ "PATCH" ∷ "POST" ∷ "PUT" ∷ [])

-- The loop of `extract_param_names` over the segments.
unfoldable pub param_names_of : List Bytes → List Bytes
unfolding classify parse_param_segment
param_names_of [] = []
param_names_of (segment ∷ segments) =
    let rest = param_names_of segments in
    let name = (parse_param_segment segment).1 in
    elim (classify segment) [
      | static ↦ rest
      | param ↦ if is_empty name then rest else name ∷ rest
      | wildcard ↦ if is_empty name then rest else name ∷ rest
    ]

-- `pattern_copy` without a slash in front.
abbrev without_first_slash : Bytes → Bytes
without_first_slash [] = []
without_first_slash (c ∷ pattern) = if c == b'/' then pattern else c ∷ pattern

-- `pattern` behind `out`, with one slash between.
abbrev join : Bytes → Bytes → Bytes
join out pattern = if is_empty pattern then out else elim (last_byte out) [
  | none ↦ out ++ pattern
  | some b ↦ if b == b'/' then out ++ pattern else out ++ b'/' ∷ pattern
]

module _ (lib : UrlLibrary) where
  unfoldable pub normalize_path : Bytes → Bytes
  unfolding rooted without_last_slash parse_request_target
  normalize_path raw_path = without_last_slash (rooted (parse_request_target lib raw_path).path)

  unfoldable pub to_storage_path : Bytes → Bytes
  unfolding normalize_path bytes_beq
  to_storage_path raw_path =
      let normalized = normalize_path raw_path in
      if is_slash normalized then [] else drop 1 normalized

  unfoldable pub extract_param_names : Bytes → List Bytes
  unfolding to_storage_path split_on param_names_of
  extract_param_names pattern = param_names_of (split_on b'/' (to_storage_path pattern))

  unfoldable pub join_prefix_pattern : Bytes → Bytes → Bytes
  unfolding normalize_path bytes_beq last_byte
  join_prefix_pattern prefix pattern =
      let out = b'/' ∷ prefix in
      if is_empty pattern || is_slash pattern
      then out
      else normalize_path (join out (without_first_slash pattern))
