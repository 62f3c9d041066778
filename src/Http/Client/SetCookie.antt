-- ===== src/Http/Client/SetCookie.antt =====
-- layer2/src/http.cpp: parse_set_cookie. The host and the encoded path of the request's URL are as
-- Boost.URL gives them.
use async_uv.Base.{
  true, false, not, ◌&&◌, Option, none, some, List, [], ◌∷◌, ◌==◌, ◌=?◌, if◌then◌else◌,
}
use async_uv.Base.Bytes.{Bytes, bytes_eq, bytes_beq, lit, cut_at, split_on, is_empty}
use async_uv.Base.Search.{drop_while, drop_while_back}
use async_uv.Http.Server.{to_lower}
use async_uv.Http.Parser.{is_space}
use async_uv.Http.Client.Cookies.{CookieEntry}

unfoldable pub trim : Bytes → Bytes
unfolding drop_while drop_while_back
trim value = drop_while_back is_space (drop_while is_space value)

-- What stands before the last slash, if there is one.
unfoldable pub before_last_slash : Bytes → Option Bytes
before_last_slash [] = none
before_last_slash (c ∷ s) = elim (before_last_slash s) [
  | some before ↦ some (c ∷ before)
  | none ↦ if c == b'/' then some [] else none
]

abbrev or_root : Option Bytes → Bytes
or_root none = lit "/"
or_root (some []) = lit "/"
or_root (some (c ∷ s)) = c ∷ s

-- The path of a cookie that has no attribute for it.
unfoldable pub default_path : Bytes → Bytes
unfolding before_last_slash
default_path [] = lit "/"
default_path (c ∷ s) = if c == b'/' then or_root (before_last_slash (c ∷ s)) else lit "/"

abbrev value_or_empty : Option Bytes → Bytes
value_or_empty none = []
value_or_empty (some value) = value

abbrev set_attribute : Bytes → Bytes → CookieEntry → CookieEntry
set_attribute name value cookie =
    if name =? lit "domain" && not (is_empty value)
    then record cookie { domain = to_lower value }
    else if name =? lit "path" && not (is_empty value)
    then record cookie { path = value }
    else if name =? lit "secure"
    then record cookie { secure = true }
    else cookie

-- The loop over the attributes.
unfoldable pub set_attributes : List Bytes → CookieEntry → CookieEntry
unfolding trim cut_at bytes_beq
set_attributes [] cookie = cookie
set_attributes (token ∷ tokens) cookie =
    let (name, value) = cut_at b'=' (trim token) in
    let set = set_attribute (to_lower name) (value_or_empty value) cookie in
    set_attributes tokens (if is_empty (trim token) then cookie else set)

abbrev with_host : Bytes → CookieEntry → CookieEntry
with_host host cookie =
    if is_empty cookie.domain then record cookie { domain = to_lower host } else cookie

abbrev with_root : CookieEntry → CookieEntry
with_root cookie = if is_empty cookie.path then record cookie { path = lit "/" } else cookie

abbrev first_pair : Bytes × Option Bytes → Option (Bytes × Bytes)
first_pair (name, none) = none
first_pair (name, some value) = if is_empty name then none else some (name, value)

unfoldable pub parse_set_cookie : Bytes → Bytes → Bytes → Option CookieEntry
unfolding trim cut_at split_on default_path set_attributes
parse_set_cookie header host encoded_path =
    let (first, rest) = cut_at b';' header in
    elim (first_pair (cut_at b'=' (trim first))) [
      | none ↦ none
      | some (name, value) ↦ some (
          with_host host (
            with_root (
              set_attributes (split_on b';' (value_or_empty rest)) (record {
                domain = to_lower host;
                path = default_path encoded_path;
                name = name;
                value = value;
                secure = false;
              }))))
    ]
