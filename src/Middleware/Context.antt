-- ===== src/Middleware/Context.antt =====
-- layer3/include/async_uv_layer3/context.hpp: the reply that a handler builds in a Context.
pub mod Reply
use async_uv.Base.{
  ℕ, suc, Bool, true, false, ◌&&◌, ◌||◌, Option, none, some, List, [], ◌∷◌, ◌++◌, ◌==◌,
  if◌then◌else◌,
}
use async_uv.Base.Bytes.{Bytes, lit, is_empty, to_lower_byte}
use async_uv.Http.Server.{Header, ServerRequest, ServerResponse}

pub record Context : Type 0 where
  pub request : ServerRequest
  pub response : ServerResponse
  pub params : List (Bytes × Bytes)

unfoldable pub iequals_ascii : Bytes → Bytes → Bool
iequals_ascii [] [] = true
iequals_ascii [] (_ ∷ _) = false
iequals_ascii (_ ∷ _) [] = false
iequals_ascii (x ∷ a) (y ∷ b) = to_lower_byte x == to_lower_byte y && iequals_ascii a b

-- The loop of `header` over the headers.
unfoldable pub header_in : Bytes → List Header → Option Bytes
unfolding iequals_ascii
header_in name [] = none
header_in name (h ∷ headers) =
    if iequals_ascii h.name name then some h.value else header_in name headers

abbrev pub header : Bytes → Context → Option Bytes
header name ctx = header_in name ctx.request.headers

-- The loop of `set`: the first header of the name gets the value, or a new one stands at the end.
unfoldable pub set_in : Bytes → Bytes → List Header → List Header
unfolding iequals_ascii
set_in name value [] = record { name = name; value = value } ∷ []
set_in name value (h ∷ headers) =
    if iequals_ascii h.name name
    then record h { value = value } ∷ headers
    else h ∷ set_in name value headers

abbrev with_headers : List Header → Context → Context
with_headers headers ctx = record ctx { response = record ctx.response { headers = headers } }

unfoldable pub set : Bytes → Bytes → Context → Context
unfolding set_in
set name value ctx = with_headers (set_in name value ctx.response.headers) ctx

unfoldable pub status : ℕ → Context → Context
status code ctx = record ctx { response = record ctx.response { status_code = code } }

abbrev with_body : Bytes → Context → Context
with_body body ctx = record ctx { response = record ctx.response { body = body } }

unfoldable pub json_raw : Bytes → Context → Context
unfolding set
json_raw content ctx = with_body content (set (lit "Content-Type") (lit "application/json") ctx)

abbrev pub content_type : Bytes → Context → Context
content_type type ctx = set (lit "Content-Type") type ctx

unfoldable pub send : Bytes → ℕ → Context → Context
unfolding status
send content code ctx = with_body content (status code ctx)

unfoldable pub send_status : ℕ → Context → Context
unfolding status
send_status code ctx = with_body [] (status code ctx)

abbrev push_header : Bytes → Bytes → Context → Context
push_header name value ctx =
    with_headers (ctx.response.headers ++ record { name = name; value = value } ∷ []) ctx

unfoldable pub redirect : Bytes → ℕ → Context → Context
unfolding status
redirect url code ctx = with_body [] (push_header (lit "Location") url (status code ctx))

unfoldable pub attachment : Bytes → Context → Context
attachment filename ctx =
    push_header (lit "Content-Disposition")
      (if is_empty filename
        then lit "attachment"
        else lit "attachment; filename=\"" ++ (filename ++ 34 ∷ []))
      ctx
