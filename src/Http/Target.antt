-- ===== src/Http/Target.antt =====
-- layer2/src/server.cpp: `parse_request_target`. Boost.URL's parser and percent-decoder are
-- parameters.
use async_uv.Base.{
  ℕ, Bool, true, false, Option, none, some, List, [], ◌∷◌, map, ◌==◌, if◌then◌else◌,
}
use async_uv.Base.Bytes.{Bytes, cut_at, split_on, is_empty}

-- What `parse_uri_reference` gives: the encoded path, the decoded fragment, and the decoded
-- parameters of the encoded query, where a value may be missing.
pub record UriReference : Type 0 where
  pub encoded_path : Bytes
  pub fragment : Option Bytes
  pub params : List (Bytes × Option Bytes)

-- Boost.URL: `parse_uri_reference`, and `make_pct_string_view(text)->decode(opts)`, which fails on
-- text that is not percent-encoded; the flag is `space_as_plus`.
pub record UrlLibrary : Type 0 where
  pub parse_uri_reference : Bytes → Option UriReference
  pub pct_decode : Bytes → Bool → Option Bytes

pub record RequestTarget : Type 0 where
  pub path : Bytes
  pub query_items : List (Bytes × Bytes)
  pub fragment : Option Bytes

abbrev pub slash : Bytes
slash = b'/' ∷ []

abbrev path_or_slash : Bytes → Bytes
path_or_slash path = if is_empty path then slash else path

abbrev value_or_empty : Option Bytes → Bytes
value_or_empty none = []
value_or_empty (some v) = v

abbrev plus_to_space : ℕ → ℕ
plus_to_space c = if c == b'+' then b' ' else c

module _ (lib : UrlLibrary) where
  unfoldable pub decode_component : Bytes → Bool → Bytes
  decode_component text plus = elim (lib.pct_decode text plus) [
    | none ↦ if plus then map plus_to_space text else text
    | some decoded ↦ decoded
  ]

  -- One item of the query of a text that Boost refuses: `key` or `key=value`.
  abbrev query_item : Bytes × Option Bytes → Bytes × Bytes
  query_item (key, none) = (decode_component key true, [])
  query_item (key, some value) = (decode_component key true, decode_component value true)

  -- The loop over the items between `&`, empty ones left out.
  unfoldable pub query_items_of : List Bytes → List (Bytes × Bytes)
  unfolding cut_at decode_component
  query_items_of [] = []
  query_items_of (item ∷ items) =
      if is_empty item
      then query_items_of items
      else query_item (cut_at b'=' item) ∷ query_items_of items

  abbrev with_query : Option Bytes → Bytes × Option Bytes → RequestTarget
  with_query fragment (path, none) = record {
    path = path_or_slash path;
    query_items = [];
    fragment = fragment;
  }
  with_query fragment (path, some query) = record {
    path = path_or_slash path;
    query_items = query_items_of (split_on b'&' query);
    fragment = fragment;
  }

  abbrev without_fragment : Bytes × Option Bytes → RequestTarget
  without_fragment (rest, none) = with_query none (cut_at b'?' rest)
  without_fragment (rest, some fragment) =
      with_query (some (decode_component fragment false)) (cut_at b'?' rest)

  unfoldable pub parse_request_target : Bytes → RequestTarget
  unfolding cut_at split_on query_items_of
  parse_request_target [] = record { path = slash; query_items = []; fragment = none }
  parse_request_target (c ∷ target) = elim (lib.parse_uri_reference (c ∷ target)) [
    | some url ↦ record {
      path = path_or_slash url.encoded_path;
      query_items = map (λ p. (p.0, value_or_empty p.1)) url.params;
      fragment = url.fragment;
    }
    | none ↦ without_fragment (cut_at b'#' (c ∷ target))
  ]
