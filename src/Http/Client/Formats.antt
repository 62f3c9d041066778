-- ===== src/Http/Client/Formats.antt =====
-- layer2/src/http.cpp: formats of bodies and their media types.
use async_uv.Base.{◌≡◌, refl, ◌||◌, Option, none, some, ◌=?◌, if◌then◌else◌}
use async_uv.Base.Bytes.{Bytes, bytes_eq, bytes_beq, lit}
use async_uv.Http.Server.{to_lower}

pub data ResponseFormat : Type 0 where
  json form xml text : ResponseFormat

-- `none` is the exception HttpError of the code invalid_request.
unfoldable pub parse_response_format : Bytes → Option ResponseFormat
unfolding bytes_beq
parse_response_format given =
    let lower = to_lower given in
    if lower =? lit "json" || lower =? lit "application/json"
    then some json
    else if lower =? lit "form" || lower =? lit "application/x-www-form-urlencoded"
    then some form
    else if lower =? lit "xml" || (lower =? lit "application/xml" || lower =? lit "text/xml")
    then some xml
    else if lower =? lit "text" || lower =? lit "text/plain"
    then some text
    else none

abbrev pub accept_value_for_format : ResponseFormat → Bytes
accept_value_for_format json = lit "application/json"
accept_value_for_format form = lit "application/x-www-form-urlencoded"
accept_value_for_format xml = lit "application/xml"
accept_value_for_format text = lit "text/plain"

pub data RequestFormat : Type 0 where
  json_body form_body xml_body text_body binary multipart : RequestFormat

unfoldable pub parse_request_format : Bytes → Option RequestFormat
unfolding bytes_beq
parse_request_format given =
    let lower = to_lower given in
    if lower =? lit "json" || lower =? lit "application/json"
    then some json_body
    else if lower =? lit "form" || lower =? lit "application/x-www-form-urlencoded"
    then some form_body
    else if lower =? lit "xml" || (lower =? lit "application/xml" || lower =? lit "text/xml")
    then some xml_body
    else if lower =? lit "text" || lower =? lit "text/plain"
    then some text_body
    else if lower =? lit "binary" || lower =? lit "application/octet-stream"
    then some binary
    else if lower =? lit "multipart" || lower =? lit "multipart/form-data"
    then some multipart
    else none

abbrev pub content_type_for_request_format : RequestFormat → Option Bytes
content_type_for_request_format json_body = some (lit "application/json")
content_type_for_request_format form_body = some (lit "application/x-www-form-urlencoded")
content_type_for_request_format xml_body = some (lit "application/xml")
content_type_for_request_format text_body = some (lit "text/plain")
content_type_for_request_format binary = some (lit "application/octet-stream")
content_type_for_request_format multipart = none

-- The media type that is asked for is parsed as the format.
parse-accept_value :
    (format : ResponseFormat) → parse_response_format (accept_value_for_format format) ≡ some format
unfolding parse_response_format
parse-accept_value json = refl
parse-accept_value form = refl
parse-accept_value xml = refl
parse-accept_value text = refl
