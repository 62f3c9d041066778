-- ===== src/Http/Parser/Feed/Limits.antt =====
-- The limit on the number of headers, at the messages that the parser accepts.
use async_uv.Base.{
  ℕ, ◌+◌, ◌≤◌, ◌<◌, ◌≡◌, refl, inl, inr, Bool, not, ◌||◌, Option, none, some, List, [], ◌++◌, arith,
  Bool-cases, Option-cases, length, take, ap, ◌∙◌,
}
use async_uv.Base.Bytes.{Bytes}
use async_uv.Base.Search.{find_text}
use async_uv.Http.Server.{Header}
use async_uv.Http.Parser.{
  Result, ok, parse_error, out_of_range, ParserOptions, ParseMode, crlf, exceeds_limit,
  validate_start_line, headers_indicate_chunked,
}
use async_uv.Http.Parser.Chunks.{parse_chunks}
use async_uv.Http.Parser.Counts.{
  Counted, none_read, parse_initial_headers-Counted, parse_chunks-Counted,
}
use async_uv.Http.Parser.Feed.{
  HttpMessage, Beast, attach_body, message_of, parse_with_beast, try_parse_message, refused,
  wants_more, finish, starts_http, initial_headers, start_line, with_headers, is_no_response,
}
use async_uv.Http.Parser.Feed.Queue.{some-injective, when_valid-some, no_message}

attach_body-headers :
    (options : ParserOptions) (body : Bytes) (m : HttpMessage)
    → ((attach_body options body m).headers ≡ m.headers)
      × ((attach_body options body m).trailers ≡ m.trailers)
unfolding attach_body
attach_body-headers options body m =
    elim (Bool-cases (exceeds_limit options.max_body_in_memory (length body))) [
      | inl large ↦ rw (attach_body, large) (refl, refl)
      | inr small ↦ rw (attach_body, small) (refl, refl)
    ]

module _ (beast : Beast) (options : ParserOptions) (limited : 0 < options.max_header_count) where
  abbrev IsLimited : HttpMessage → Type 0
  IsLimited message = length message.headers + length message.trailers ≤ options.max_header_count

  finish-IsLimited :
      (is_request : Bool) (headers : List Header) (count : ℕ) (pending : Bytes)
      (trailers : Result (List Header × ℕ)) (message : HttpMessage) (rest : Bytes)
      → Counted options 0 headers count
      → ((t : List Header) (n : ℕ) → trailers ≡ ok (t, n) → Counted options count t n)
      → finish options is_request (beast is_request pending) headers pending trailers
        ≡ ok (some (message, rest))
      → IsLimited message
  finish-IsLimited is_request headers count pending (parse_error k) message rest head tail e = cc
  finish-IsLimited is_request headers count pending out_of_range message rest head tail e = cc
  finish-IsLimited is_request headers count pending (ok (t, n)) message rest head tail e =
      let r = beast is_request pending in
      let m = message_of is_request r.message headers t in
      let same : attach_body options r.message.body m ≡ message = cc e in
      let (hs, ts) = attach_body-headers options r.message.body m in
      let tail' = tail t n refl in
      omega (
        arith,
        head.exact,
        tail'.exact,
        tail'.within limited (head.within limited (omega arith)),
        ap length hs,
        ap length ts,
        ap (λ x. length x.headers) same,
        ap (λ x. length x.trailers) same,
      )

  with_beast-IsLimited :
      (fuel : ℕ) (pending : Bytes) (is_request : Bool) (headers : List Header) (count off : ℕ)
      (message : HttpMessage) (rest : Bytes)
      → Counted options 0 headers count
      → parse_with_beast beast fuel options pending is_request headers count off
        ≡ some (ok (some (message, rest)))
      → IsLimited message
  unfolding parse_with_beast
  with_beast-IsLimited fuel pending is_request headers count off message rest head e =
      let r = beast is_request pending in
      elim (Bool-cases (wants_more r.error || not r.is_done)) [
        | inl waits ↦ cc (rw (parse_with_beast, waits) at e)
        | inr complete ↦ elim (Bool-cases (refused r.error)) [
          | inl bad ↦ cc (rw (parse_with_beast, complete, bad) at e)
          | inr good ↦ elim (Bool-cases (headers_indicate_chunked headers)) [
            | inr plain ↦
                finish-IsLimited is_request headers count pending (ok ([], count)) message rest head
                  (none_read options count)
                  (some-injective beast (rw (parse_with_beast, complete, good, plain) at e))
            | inl chunked ↦
                elim (Option-cases
                  (parse_chunks fuel options (take r.consumed pending) off count)) [
                    | inl spent ↦ cc (rw (parse_with_beast, complete, good, chunked, spent) at e)
                    | inr (trailers, there) ↦
                        finish-IsLimited is_request headers count pending trailers message rest head
                          (λ t n same.
                            parse_chunks-Counted options fuel (take r.consumed pending) off count t
                              n (there ∙ ap some same))
                          (some-injective beast
                            (rw (parse_with_beast, complete, good, chunked, there) at e))
                  ]
          ]
        ]
      ]

  with_headers-IsLimited :
      (fuel : ℕ) (pending : Bytes) (is_request : Bool) (off : ℕ)
      (headers : Result (List Header × ℕ)) (message : HttpMessage) (rest : Bytes)
      → ((hs : List Header) (n : ℕ) → headers ≡ ok (hs, n) → Counted options 0 hs n)
      → with_headers beast fuel options pending is_request off headers
        ≡ some (ok (some (message, rest)))
      → IsLimited message
  with_headers-IsLimited fuel pending is_request off (parse_error k) message rest head e = cc
  with_headers-IsLimited fuel pending is_request off out_of_range message rest head e = cc
  with_headers-IsLimited fuel pending is_request off (ok (hs, n)) message rest head e =
      with_beast-IsLimited fuel pending is_request hs n off message rest (head hs n refl) e

  initial_headers-Counted :
      (cut : Option (Bytes × Bytes)) (headers : List Header) (count : ℕ)
      → initial_headers beast options cut ≡ ok (headers, count)
      → Counted options 0 headers count
  initial_headers-Counted none headers count e = none_read options 0 headers count e
  initial_headers-Counted (some (line, block)) headers count e =
      parse_initial_headers-Counted options block 0 headers count e

  -- Where there is a limit on the number of headers, a message that the parser accepts has no more
  -- headers and trailers together than it.
  pub accepted-IsLimited :
      (fuel : ℕ) (mode : ParseMode) (text : Bytes) (message : HttpMessage) (rest : Bytes)
      → try_parse_message beast fuel mode options text ≡ some (ok (some (message, rest)))
      → length message.headers + length message.trailers ≤ options.max_header_count
  unfolding try_parse_message
  accepted-IsLimited fuel mode text message rest e =
      elim (Option-cases (find_text (crlf ++ crlf) text)) [
        | inl open_head ↦ absurd (
            no_message beast (is_no_response beast mode text) (message, rest)
              (rw (try_parse_message, open_head) at e))
        | inr ((head, behind), found) ↦
            let cut = find_text crlf head in
            let line = start_line beast head cut in
            let is_request = not (starts_http beast line) in
            let headers = initial_headers beast options cut in
            let parsed =
              with_headers beast fuel options text is_request (length head + 4) headers in
            with_headers-IsLimited fuel text is_request (length head + 4) headers message rest
              (initial_headers-Counted cut)
              (when_valid-some beast
                (validate_start_line options mode line (starts_http beast line)) parsed
                (message, rest) (rw (try_parse_message, found) at e))
      ]
