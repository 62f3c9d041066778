-- ===== src/Middleware/Replies.antt =====
-- layer3/include/async_uv_layer3/middleware.hpp: the middleware that complete a reply. std::hash and
-- zlib are parameters; `next` may throw, and what would follow it is then left out.
use async_uv.Base.{
  ℕ, Bool, true, false, not, ◌&&◌, ◌||◌, Option, none, some, List, [], ◌∷◌, ◌++◌, ◌==◌, ltb, leb,
  if◌then◌else◌, ◌=?◌, length,
}
use async_uv.Base.Bytes.{Bytes, bytes_eq, bytes_beq, lit, cut_at, strip_prefix, is_empty}
use async_uv.Base.Digits.{decimal, hexadecimal}
use async_uv.Base.Search.{find_text}
use async_uv.Middleware.Context.{Context, header, header_in, set, status, json_raw}
use async_uv.Middleware.Limits.{Handled}

abbrev escaped_byte : ℕ → Bytes
escaped_byte c =
    if c == b'\\'
    then b'\\' ∷ b'\\' ∷ []
    else if c == 34
    then b'\\' ∷ 34 ∷ []
    else if c == 10
    then b'\\' ∷ b'n' ∷ []
    else if c == 13
    then b'\\' ∷ b'r' ∷ []
    else if c == 9
    then b'\\' ∷ b't' ∷ []
    else c ∷ []

unfoldable pub json_escape : Bytes → Bytes
json_escape [] = []
json_escape (c ∷ text) = escaped_byte c ++ json_escape text

abbrev quoted : Bytes → Bytes
quoted text = 34 ∷ (json_escape text ++ 34 ∷ [])

abbrev quoted_or_null : Option Bytes → Bytes
quoted_or_null none = lit "null"
quoted_or_null (some text) = quoted text

abbrev number_or_null : Option ℕ → Bytes
number_or_null none = lit "null"
number_or_null (some n) = decimal n

-- The context's local values that the body names.
pub record TraceIds : Type 0 where
  pub request_id : Option Bytes
  pub trace_id : Option Bytes

unfoldable pub error_body_json : ℕ → Bytes → Bytes → Option ℕ → TraceIds → Context → Bytes
unfolding decimal json_escape
error_body_json code error name biz_code ids ctx =
    let path = if is_empty ctx.request.target.path then lit "/" else ctx.request.target.path in
    lit "{\"status\":"
    ++ (decimal code
        ++ (lit ",\"error\":"
            ++ (quoted error
                ++ (lit ",\"code\":"
                    ++ (quoted name
                        ++ (lit ",\"biz_code\":"
                            ++ (number_or_null biz_code
                                ++ (lit ",\"path\":"
                                    ++ (quoted path
                                        ++ (lit ",\"method\":"
                                            ++ (quoted ctx.request.method
                                                ++ (lit ",\"request_id\":"
                                                    ++ (quoted_or_null ids.request_id
                                                        ++ (lit ",\"trace_id\":"
                                                            ++ (quoted_or_null ids.trace_id
                                                            ++ lit "}")))))))))))))))

unfoldable pub write_error_json : ℕ → Bytes → Bytes → Option ℕ → TraceIds → Context → Context
unfolding status json_raw error_body_json
write_error_json code error name biz_code ids ctx =
    let ctx' = status code ctx in json_raw (error_body_json code error name biz_code ids ctx') ctx'

abbrev pub response_header_value : Bytes → Context → Option Bytes
response_header_value name ctx = header_in name ctx.response.headers

-- The part before a `*` at the end, if the rule ends with `/*`.
unfoldable pub wildcard_prefix : Bytes → Option Bytes
unfolding bytes_beq
wildcard_prefix [] = none
wildcard_prefix (c ∷ rule) =
    let later = wildcard_prefix rule in
    if (c ∷ rule) =? lit "/*"
    then some (lit "/")
    else elim later [ none ↦ none | some prefix ↦ some (c ∷ prefix) ]

abbrev starts_with : Bytes → Bytes → Bool
starts_with prefix text = elim (strip_prefix prefix text) [ none ↦ false | some _ ↦ true ]

unfoldable pub matches_rule : Bytes → Bytes → Bool
unfolding wildcard_prefix bytes_beq strip_prefix
matches_rule type rule = elim (wildcard_prefix rule) [
  | some prefix ↦ starts_with prefix type
  | none ↦ type =? rule
]

unfoldable pub matches_any : Bytes → List Bytes → Bool
unfolding matches_rule
matches_any type [] = false
matches_any type (rule ∷ rules) = matches_rule type rule || matches_any type rules

unfoldable pub content_type_matches : Bytes → List Bytes → Bool
unfolding matches_any cut_at
content_type_matches content_type allowed =
    if is_empty content_type then false else matches_any (cut_at b';' content_type).0 allowed

unfoldable pub security_headers : Context → (Context → Handled) → Handled
unfolding set
security_headers ctx next = next (
    set (lit "Strict-Transport-Security") (lit "max-age=31536000; includeSubDomains") (
      set (lit "Content-Security-Policy") (lit "default-src 'self'") (
        set (lit "Referrer-Policy") (lit "strict-origin-when-cross-origin") (
          set (lit "X-Frame-Options") (lit "DENY")
            (set (lit "X-Content-Type-Options") (lit "nosniff") ctx)))))

abbrev then_unless_thrown : Handled → (Context → Context) → Handled
then_unless_thrown (ctx, none) after = (after ctx, none)
then_unless_thrown (ctx, some error) after = (ctx, some error)

abbrev is_success : ℕ → Bool
is_success code = leb 200 code && ltb code 300

abbrev not_modified : Context → Context
not_modified ctx =
    let ctx' = status 304 ctx in record ctx' { response = record ctx'.response { body = [] } }

abbrev given_as : Option Bytes → Bytes → Bool
given_as none tag = false
given_as (some value) tag = value =? tag

module _ (hash : Bytes → ℕ) where
  unfoldable pub weak_etag : Bytes → Bytes
  unfolding hexadecimal
  weak_etag body = lit "W/\"" ++ (hexadecimal (hash body) ++ 34 ∷ [])

  unfoldable pub add_etag : Context → Context
  unfolding weak_etag set status header_in bytes_beq
  add_etag ctx =
      let tag = weak_etag ctx.response.body in
      let ctx' = set (lit "ETag") tag ctx in
      if ctx.response.chunked || is_empty ctx.response.body
      then ctx
      else if not (is_success ctx.response.status_code)
      then ctx
      else if given_as (header (lit "If-None-Match") ctx') tag
      then not_modified ctx'
      else ctx'

  unfoldable pub etag : Context → (Context → Handled) → Handled
  unfolding add_etag
  etag ctx next = then_unless_thrown (next ctx) add_etag

pub record CompressOptions : Type 0 where
  pub level : ℕ
  pub min_size : ℕ
  pub types : List Bytes

-- A level that is not negative, between 1 and 9.
abbrev clamped : ℕ → ℕ
clamped level = if ltb level 1 then 1 else if ltb 9 level then 9 else level

abbrev accepts_gzip : Option Bytes → Bool
accepts_gzip none = false
accepts_gzip (some accept) = elim (find_text (lit "gzip") accept) [ none ↦ false | some _ ↦ true ]

abbrev is_given : Option Bytes → Bool
is_given none = false
is_given (some _) = true

abbrev is_compressible : List Bytes → Option Bytes → Bool
is_compressible types none = false
is_compressible types (some content_type) = content_type_matches content_type types

abbrev with_compressed : Context → Option Bytes → Context
with_compressed ctx none = ctx
with_compressed ctx (some compressed) =
    if leb (length ctx.response.body) (length compressed)
    then ctx
    else set (lit "Vary") (lit "Accept-Encoding") (
        set (lit "Content-Encoding") (lit "gzip")
          (record ctx { response = record ctx.response { body = compressed } }))

-- Where zlib is built in.
module _ (gzip_compress : Bytes → ℕ → Option Bytes) where
  unfoldable pub add_compression : CompressOptions → Context → Context
  unfolding find_text content_type_matches header_in set
  add_compression opts ctx =
      if ctx.response.chunked || ltb (length ctx.response.body) opts.min_size
      then ctx
      else if not (is_success ctx.response.status_code)
      then ctx
      else if is_given (response_header_value (lit "Content-Encoding") ctx)
      then ctx
      else if not (accepts_gzip (header (lit "Accept-Encoding") ctx))
      then ctx
      else if not (is_compressible opts.types (response_header_value (lit "Content-Type") ctx))
      then ctx
      else with_compressed ctx (gzip_compress ctx.response.body (clamped opts.level))

  unfoldable pub compress : CompressOptions → Context → (Context → Handled) → Handled
  unfolding add_compression
  compress opts ctx next = then_unless_thrown (next ctx) (add_compression opts)
