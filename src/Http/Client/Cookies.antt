-- ===== src/Http/Client/Cookies.antt =====
-- layer2/src/http.cpp: the cookies of the HTTP client, and the file that keeps them as a text.
pub mod Jar
use async_uv.Base.{
  ℕ, Bool, true, false, not, ◌&&◌, ◌||◌, Option, none, some, List, [], ◌∷◌, ◌++◌, ◌==◌,
  if◌then◌else◌, ◌=?◌, drop, length, ◌-◌, ltb, map,
}
use async_uv.Base.Bytes.{Bytes, bytes_eq, bytes_beq, lit, cut_at, split_on, strip_prefix, is_empty}
use async_uv.Http.Server.{to_lower}
use async_uv.Http.Client.{equals_ci}

pub record CookieEntry : Type 0 where
  pub domain : Bytes
  pub path : Bytes
  pub name : Bytes
  pub value : Bytes
  pub secure : Bool

abbrev without_dot : Bytes → Bytes
without_dot [] = []
without_dot (c ∷ s) = if c == b'.' then s else c ∷ s

-- Whether the host ends with the domain and has a dot before it.
abbrev is_subdomain : Bytes → Bytes → Bool
is_subdomain host domain =
    ltb (length domain) (length host)
    && drop (length host - length domain - 1) host =? (b'.' ∷ domain)

unfoldable pub cookie_domain_matches : Bytes → Bytes → Bool
unfolding bytes_beq
cookie_domain_matches request_host cookie_domain =
    let host = to_lower request_host in
    let domain = without_dot (to_lower cookie_domain) in
    if is_empty domain then false else if host =? domain then true else is_subdomain host domain

unfoldable pub cookie_path_matches : Bytes → Bytes → Bool
unfolding strip_prefix
cookie_path_matches request_path cookie_path =
    let normalized = if is_empty cookie_path then lit "/" else cookie_path in
    elim (strip_prefix normalized request_path) [ none ↦ false | some _ ↦ true ]

abbrev behind : Option Bytes → Bytes
behind none = []
behind (some s) = s

-- std::getline on what is left of a row: it fails at the row's end.
unfoldable pub next_field : Bytes → Option (Bytes × Bytes)
unfolding cut_at
next_field [] = none
next_field (c ∷ s) = some ((cut_at 9 (c ∷ s)).0, behind (cut_at 9 (c ∷ s)).1)

abbrev and_next : Option (Bytes × Bytes) → (Bytes → Bytes → Option CookieEntry) → Option CookieEntry
and_next none next = none
and_next (some (field, rest)) next = next field rest

abbrev entry_of : Bytes → Bytes → Bytes → Bytes → Bytes → Option CookieEntry
entry_of domain path secure name value =
    if not (is_empty domain) && not (is_empty name)
    then some (record {
      domain = domain;
      path = path;
      name = name;
      value = value;
      secure = secure =? lit "1";
    })
    else none

-- A line of the file that is no comment.
unfoldable pub load_line : Bytes → Option CookieEntry
unfolding next_field bytes_beq
load_line line = and_next (next_field line) (λ domain rest. and_next (next_field rest) (λ path rest.
    and_next (next_field rest) (λ secure rest.
      and_next (next_field rest)
        (λ name value. if is_empty value then none else entry_of domain path secure name value))))

abbrev is_skipped : Bytes → Bool
is_skipped [] = true
is_skipped (c ∷ line) = c == b'#'

abbrev onto : Option CookieEntry → List CookieEntry → List CookieEntry
onto none cookies = cookies
onto (some cookie) cookies = cookie ∷ cookies

unfoldable pub load_lines : List Bytes → List CookieEntry
unfolding load_line
load_lines [] = []
load_lines (line ∷ lines) =
    let cookies = load_lines lines in
    if is_skipped line then cookies else onto (load_line line) cookies

unfoldable pub load_cookie_jar_file : Bytes → List CookieEntry
unfolding load_lines split_on
load_cookie_jar_file text = load_lines (split_on 10 text)

abbrev pub line_of : CookieEntry → Bytes
line_of c =
    c.domain
    ++ 9 ∷ (c.path ++ 9 ∷ ((if c.secure then b'1' else b'0') ∷ 9 ∷ (c.name ++ 9 ∷ c.value)))

unfoldable pub save_lines : List CookieEntry → Bytes
save_lines [] = []
save_lines (c ∷ cookies) = line_of c ++ 10 ∷ save_lines cookies

unfoldable pub save_cookie_jar_file : List CookieEntry → Bytes
unfolding save_lines
save_cookie_jar_file cookies = lit "# flux beast cookie jar v1" ++ 10 ∷ save_lines cookies

abbrev pub same_cookie : CookieEntry → CookieEntry → Bool
same_cookie a b = equals_ci a.domain b.domain && (a.path =? b.path && a.name =? b.name)

unfoldable pub upsert_cookie : List CookieEntry → CookieEntry → List CookieEntry
unfolding equals_ci bytes_beq
upsert_cookie [] entry = entry ∷ []
upsert_cookie (existing ∷ cookies) entry =
    if same_cookie existing entry then entry ∷ cookies else existing ∷ upsert_cookie cookies entry

abbrev pub is_sent : Bool → Bytes → Bytes → CookieEntry → Bool
is_sent is_https host path c =
    not (c.secure && not is_https)
    && (cookie_domain_matches host c.domain && cookie_path_matches path c.path)

-- The loop of `build_cookie_header`, with the header so far.
unfoldable pub add_cookies : Bool → Bytes → Bytes → Bytes → List CookieEntry → Bytes
unfolding cookie_domain_matches cookie_path_matches
add_cookies is_https host path header [] = header
add_cookies is_https host path header (c ∷ cookies) =
    let pair = c.name ++ b'=' ∷ c.value in
    let longer = if is_empty header then pair else header ++ (lit "; " ++ pair) in
    add_cookies is_https host path (if is_sent is_https host path c then longer else header) cookies

-- For the scheme, host and encoded path of a URL, as Boost.URL gives them.
unfoldable pub build_cookie_header : List CookieEntry → Bytes → Bytes → Bytes → Bytes
unfolding add_cookies bytes_beq
build_cookie_header cookies scheme host encoded_path =
    let path = if is_empty encoded_path then lit "/" else encoded_path in
    add_cookies (to_lower scheme =? lit "https") (to_lower host) path [] cookies
