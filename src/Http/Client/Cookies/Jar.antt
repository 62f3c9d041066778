-- ===== src/Http/Client/Cookies/Jar.antt =====
-- The file of cookies that is saved reads back.
use async_uv.Base.{
  ◌≡◌, ◌≢◌, refl, ap, Bool, true, false, some, List, [], ◌∷◌, ◌++◌, arith, if◌then◌else◌, All,
  All-append,
}
use async_uv.Base.Bytes.{Bytes, bytes_eq, cut_at, split_on, is_empty}
use async_uv.Base.Splitting.{cut_at-append, split_on-append}
use async_uv.Http.Client.Cookies.{
  CookieEntry, next_field, load_line, is_skipped, load_lines, load_cookie_jar_file, line_of,
  save_lines, save_cookie_jar_file,
}

-- No tab and no line end.
abbrev pub IsField : Bytes → Type 0
IsField s = All (λ c. c ≢ 9) s × All (λ c. c ≢ 10) s

-- A cookie whose line is read back: the domain, the name and the value are not empty.
pub record IsSavable (c : CookieEntry) : Type 0 where
  pub domain_field : IsField c.domain
  pub path_field : IsField c.path
  pub name_field : IsField c.name
  pub value_line : All (λ b. b ≢ 10) c.value
  pub domain_given : is_skipped c.domain ≡ false
  pub name_given : is_empty c.name ≡ false
  pub value_given : is_empty c.value ≡ false

next_field-append :
    (field rest : Bytes)
    → All (λ c. c ≢ 9) field
    → next_field (field ++ 9 ∷ rest) ≡ some (field, rest)
unfolding next_field cut_at
next_field-append [] rest h = refl
next_field-append (c ∷ field) rest h = rw (cut_at-append 9 (c ∷ field) rest h) refl

abbrev flag : Bool → Bytes
flag secure = (if secure then b'1' else b'0') ∷ []

flag-no_end : (secure : Bool) → All (λ c. c ≢ 10) (flag secure)
flag-no_end true = (omega arith, tt)
flag-no_end false = (omega arith, tt)

not_skipped : (s : Bytes) → is_skipped s ≡ false → is_empty s ≡ false
not_skipped [] h = cc
not_skipped (c ∷ s) h = refl

load_line-fields :
    (domain path name value : Bytes) (secure : Bool)
    → All (λ c. c ≢ 9) domain
    → All (λ c. c ≢ 9) path
    → All (λ c. c ≢ 9) name
    → is_skipped domain ≡ false
    → is_empty name ≡ false
    → is_empty value ≡ false
    → load_line (domain ++ 9 ∷ (path ++ 9 ∷ (flag secure ++ 9 ∷ (name ++ 9 ∷ value))))
      ≡ some (record { domain = domain; path = path; name = name; value = value; secure = secure })
unfolding load_line
load_line-fields domain path name value true d p n d' n' v =
    rw (next_field-append domain (path ++ 9 ∷ (flag true ++ 9 ∷ (name ++ 9 ∷ value))) d) (
      rw (next_field-append path (flag true ++ 9 ∷ (name ++ 9 ∷ value)) p)
        (rw (next_field-append name value n, v, not_skipped domain d', n') refl))
load_line-fields domain path name value false d p n d' n' v =
    rw (next_field-append domain (path ++ 9 ∷ (flag false ++ 9 ∷ (name ++ 9 ∷ value))) d) (
      rw (next_field-append path (flag false ++ 9 ∷ (name ++ 9 ∷ value)) p)
        (rw (next_field-append name value n, v, not_skipped domain d', n') refl))

load_line-line_of : (c : CookieEntry) → IsSavable c → load_line (line_of c) ≡ some c
load_line-line_of c h =
    load_line-fields c.domain c.path c.name c.value c.secure h.domain_field.0 h.path_field.0
      h.name_field.0 h.domain_given h.name_given h.value_given

All-field :
    (field rest : Bytes)
    → All (λ c. c ≢ 10) field
    → All (λ c. c ≢ 10) rest
    → All (λ c. c ≢ 10) (field ++ 9 ∷ rest)
All-field field rest h k = All-append (λ c. c ≢ 10) field (9 ∷ rest) h (omega arith, k)

line_of-no_end : (c : CookieEntry) → IsSavable c → All (λ b. b ≢ 10) (line_of c)
line_of-no_end c h =
    All-field c.domain (c.path ++ 9 ∷ (flag c.secure ++ 9 ∷ (c.name ++ 9 ∷ c.value)))
      h.domain_field.1
      (All-field c.path (flag c.secure ++ 9 ∷ (c.name ++ 9 ∷ c.value)) h.path_field.1 (
        All-field (flag c.secure) (c.name ++ 9 ∷ c.value) (flag-no_end c.secure)
          (All-field c.name c.value h.name_field.1 h.value_line)))

is_skipped-append : (s t : Bytes) → is_skipped s ≡ false → is_skipped (s ++ t) ≡ false
is_skipped-append [] t h = cc
is_skipped-append (c ∷ s) t h = h

load_lines-save_lines :
    (cookies : List CookieEntry)
    → All IsSavable cookies
    → load_lines (split_on 10 (save_lines cookies)) ≡ cookies
unfolding load_lines save_lines split_on
load_lines-save_lines [] h = refl
load_lines-save_lines (c ∷ cookies) (h, hs) =
    let kept : is_skipped (line_of c) ≡ false =
      is_skipped-append c.domain
        (9 ∷ (c.path ++ 9 ∷ (flag c.secure ++ 9 ∷ (c.name ++ 9 ∷ c.value)))) h.domain_given in
    rw
      (
        split_on-append 10 (line_of c) (save_lines cookies) (line_of-no_end c h),
        kept,
        load_line-line_of c h,
      )
      (ap (λ rest. c ∷ rest) (load_lines-save_lines cookies hs))

-- The cookies that are saved are loaded again, in their order, if no field has a tab or a line end,
-- but for a tab in the value, and if no domain, name or value is empty and no domain begins with #.
pub load-save :
    (cookies : List CookieEntry)
    → All IsSavable cookies
    → load_cookie_jar_file (save_cookie_jar_file cookies) ≡ cookies
unfolding load_cookie_jar_file save_cookie_jar_file split_on load_lines
load-save cookies h = load_lines-save_lines cookies h
