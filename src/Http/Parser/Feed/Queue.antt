-- ===== src/Http/Parser/Feed/Queue.antt =====
-- What `feed` does to the ready messages and to the text that waits.
use async_uv.Base.{
  ℕ, zero, suc, ◌+◌, ◌≤◌, ◌<◌, ◌≡◌, refl, ◌≢◌, ◌⊎◌, inl, inr, Bool, true, false, not, ◌||◌, Option,
  none, some, List, [], ◌∷◌, ◌++◌, arith, if◌then◌else◌, Bool-cases, Option-cases, length, take,
  drop, ◌∙◌, sym, append-nil, append_assoc, subst,
}
use async_uv.Base.Bytes.{Bytes}
use async_uv.Base.Search.{find_text}
use async_uv.Http.Server.{Header}
use async_uv.Http.Parser.{
  runtime_missing, protocol, Result, ok, parse_error, out_of_range, ParserOptions, ParseMode, crlf,
  validate_start_line, headers_indicate_chunked,
}
use async_uv.Http.Parser.Chunks.{parse_chunks}
use async_uv.Http.Parser.Feed.{
  HttpMessage, Beast, HttpParser, Parsed, Fed, parse_with_beast, try_parse_message, feed_round,
  feed_loop, feed, refused, wants_more, finish, starts_http, initial_headers, start_line,
  with_headers, when_valid, is_no_response,
}

-- What Beast documents of a message that is complete: it took something, and no more than there is.
abbrev pub TakesSome : Beast → Type 0
TakesSome beast =
    (is_request : Bool) (text : Bytes)
    → let r = beast is_request text in
      r.is_done ≡ true → (0 < r.consumed) × (r.consumed ≤ length text)

-- A parse that gave a message took it from the front of the text, with what Beast consumed.
abbrev pub Took : Beast → Bytes → HttpMessage × Bytes → Type 0
Took beast pending parsed =
    (b : Bool) × ((beast b pending).is_done ≡ true)
    × (parsed.1 ≡ drop (beast b pending).consumed pending)

module _ (beast : Beast) where
  finish-rest :
      (options : ParserOptions) (is_request : Bool) (headers : List Header) (pending : Bytes)
      (trailers : Result (List Header × ℕ)) (parsed : HttpMessage × Bytes)
      → finish options is_request (beast is_request pending) headers pending trailers
        ≡ ok (some parsed)
      → parsed.1 ≡ drop (beast is_request pending).consumed pending
  finish-rest options is_request headers pending (ok t) parsed e = ground (arith, e)
  finish-rest options is_request headers pending (parse_error k) parsed e = cc
  finish-rest options is_request headers pending out_of_range parsed e = cc

  pub some-injective {ℓ} : {A : Type ℓ} {a b : A} → some a ≡ some b → a ≡ b
  some-injective e = cc e

  with_beast-Took :
      (fuel : ℕ) (options : ParserOptions) (pending : Bytes) (is_request : Bool)
      (headers : List Header) (count body_offset : ℕ) (parsed : HttpMessage × Bytes)
      → parse_with_beast beast fuel options pending is_request headers count body_offset
        ≡ some (ok (some parsed))
      → Took beast pending parsed
  unfolding parse_with_beast
  with_beast-Took fuel options pending is_request headers count off parsed e =
      let r = beast is_request pending in
      elim (Bool-cases (wants_more r.error || not r.is_done)) [
        | inl waits ↦ cc (rw (parse_with_beast, waits) at e)
        | inr complete ↦
            let is_done : r.is_done ≡ true = ground (arith, complete) in
            elim (Bool-cases (refused r.error)) [
              | inl bad ↦ cc (rw (parse_with_beast, complete, bad) at e)
              | inr good ↦ elim (Bool-cases (headers_indicate_chunked headers)) [
                | inr plain ↦ (
                  is_request,
                  is_done,
                  finish-rest options is_request headers pending (ok ([], count)) parsed
                      (some-injective (rw (parse_with_beast, complete, good, plain) at e)),
                )
                | inl chunked ↦
                    elim (Option-cases
                      (parse_chunks fuel options (take r.consumed pending) off count)) [
                        | inl spent ↦
                            cc (rw (parse_with_beast, complete, good, chunked, spent) at e)
                        | inr (trailers, there) ↦ (
                          is_request,
                          is_done,
                          finish-rest options is_request headers pending trailers parsed (
                              some-injective
                                (rw (parse_with_beast, complete, good, chunked, there) at e)),
                        )
                      ]
              ]
            ]
      ]

  with_headers-Took :
      (fuel : ℕ) (options : ParserOptions) (pending : Bytes) (is_request : Bool) (off : ℕ)
      (headers : Result (List Header × ℕ)) (parsed : HttpMessage × Bytes)
      → with_headers beast fuel options pending is_request off headers ≡ some (ok (some parsed))
      → Took beast pending parsed
  with_headers-Took fuel options pending is_request off (ok (headers, count)) parsed e =
      with_beast-Took fuel options pending is_request headers count off parsed e
  with_headers-Took fuel options pending is_request off (parse_error k) parsed e = cc
  with_headers-Took fuel options pending is_request off out_of_range parsed e = cc

  pub when_valid-some :
      (valid : Result (Unit {0})) (rest : Option (Result Parsed)) (parsed : HttpMessage × Bytes)
      → when_valid beast valid rest ≡ some (ok (some parsed))
      → rest ≡ some (ok (some parsed))
  when_valid-some (ok _) rest parsed e = e
  when_valid-some (parse_error k) rest parsed e = cc
  when_valid-some out_of_range rest parsed e = cc

  pub no_message :
      (b : Bool) (parsed : HttpMessage × Bytes)
      → ◌≢◌ {A = Option (Result Parsed)}
          (some (if b then parse_error protocol else ok none))
          (some (ok (some parsed)))
  no_message true parsed e = cc
  no_message false parsed e = cc

  pub try_parse-Took :
      (fuel : ℕ) (mode : ParseMode) (options : ParserOptions) (pending : Bytes)
      (parsed : HttpMessage × Bytes)
      → try_parse_message beast fuel mode options pending ≡ some (ok (some parsed))
      → Took beast pending parsed
  unfolding try_parse_message
  try_parse-Took fuel mode options pending parsed e =
      elim (Option-cases (find_text (crlf ++ crlf) pending)) [
        | inl open_head ↦ absurd (
            no_message (is_no_response beast mode pending) parsed
              (rw (try_parse_message, open_head) at e))
        | inr ((head, behind), found) ↦
            let cut = find_text crlf head in
            let line = start_line beast head cut in
            let is_request = not (starts_http beast line) in
            let headers = initial_headers beast options cut in
            let rest =
              with_headers beast fuel options pending is_request (length head + 4) headers in
            with_headers-Took fuel options pending is_request (length head + 4) headers parsed (
              when_valid-some (validate_start_line options mode line (starts_http beast line)) rest
                parsed (rw (try_parse_message, found) at e))
      ]

  -- The messages that successive parses take from a text, with what is left of it.
  pub data Parses (fuel : ℕ) (mode : ParseMode) (options : ParserOptions)
      : Bytes → List HttpMessage → Bytes → Type 0 where
    no_more : (text : Bytes) → Parses fuel mode options text [] text
    message_more :
        (text : Bytes) (message : HttpMessage) (rest : Bytes) (news : List HttpMessage)
        (left : Bytes)
        → try_parse_message beast fuel mode options text ≡ some (ok (some (message, rest)))
        → Parses fuel mode options rest news left
        → Parses fuel mode options text (message ∷ news) left

  -- The parse that ends `feed` so: without a message, or with the exception.
  abbrev pub last_parse : Result (Unit {0}) → Result Parsed
  last_parse (ok _) = ok none
  last_parse (parse_error k) = parse_error k
  last_parse out_of_range = out_of_range

  -- From p to q, as a run of `feed` that ends with r leaves it: the messages of successive parses
  -- are behind those that were ready, and the parse of what is left ends the run.
  pub record Fetched (fuel : ℕ) (p q : HttpParser) (r : Result (Unit {0})) : Type 0 where
    pub news : List HttpMessage
    pub mode : q.mode ≡ p.mode
    pub options : q.options ≡ p.options
    pub ready : q.ready ≡ p.ready ++ news
    pub parses : Parses fuel p.mode p.options p.pending news q.pending
    pub ends : try_parse_message beast fuel p.mode p.options q.pending ≡ some (last_parse r)

  Fetched-stop :
      (fuel : ℕ) (p q : HttpParser) (r s : Result (Unit {0}))
      → try_parse_message beast fuel p.mode p.options p.pending ≡ some (last_parse s)
      → ◌≡◌ {A = Option (Fed beast)} (some (p, s)) (some (q, r))
      → Fetched fuel p q r
  Fetched-stop fuel p q r s parse e =
      let same : p ≡ q = cc e in
      let same_end : s ≡ r = cc e in
      subst (λ x. Fetched fuel p x r) same
        (subst (Fetched fuel p p) same_end (record {
          news = [];
          mode = refl;
          options = refl;
          ready = sym (append-nil p.ready);
          parses = no_more p.pending;
          ends = parse;
        }))

  feed_round-Fetched :
      (fuel : ℕ) (p q : HttpParser) (r : Result (Unit {0})) (more : HttpParser → Option (Fed beast))
      (o : Option (Result Parsed))
      → try_parse_message beast fuel p.mode p.options p.pending ≡ o
      → ((p' : HttpParser) → more p' ≡ some (q, r) → Fetched fuel p' q r)
      → feed_round beast p more o ≡ some (q, r)
      → Fetched fuel p q r
  feed_round-Fetched fuel p q r more none parse ih e = cc
  feed_round-Fetched fuel p q r more (some (parse_error k)) parse ih e =
      Fetched-stop fuel p q r (parse_error k) parse e
  feed_round-Fetched fuel p q r more (some out_of_range) parse ih e =
      Fetched-stop fuel p q r out_of_range parse e
  feed_round-Fetched fuel p q r more (some (ok none)) parse ih e =
      Fetched-stop fuel p q r (ok tt) parse e
  feed_round-Fetched fuel p q r more (some (ok (some (message, rest)))) parse ih e =
      let f = ih (record p { ready = p.ready ++ message ∷ []; pending = rest }) e in
      record {
        news = message ∷ f.news;
        mode = f.mode;
        options = f.options;
        ready = f.ready ∙ append_assoc p.ready (message ∷ []) f.news;
        parses = message_more p.pending message rest f.news q.pending parse f.parses;
        ends = f.ends;
      }

  feed_loop-Fetched :
      (rounds fuel : ℕ) (p q : HttpParser) (r : Result (Unit {0}))
      → feed_loop beast rounds fuel p ≡ some (q, r)
      → Fetched fuel p q r
  unfolding feed_loop
  feed_loop-Fetched zero fuel p q r e = cc
  feed_loop-Fetched (suc rounds) fuel p q r e =
      feed_round-Fetched fuel p q r (feed_loop beast rounds fuel)
        (try_parse_message beast fuel p.mode p.options p.pending) refl
        (λ p'. feed_loop-Fetched rounds fuel p' q r) e

  -- How `feed` ends, with an exception too. Without a runtime it throws, and the parser is as it
  -- was. With one, the messages that successive parses take from the text that waited with the
  -- chunk behind it stand behind those that were ready, in their order; what those parses left
  -- waits; and the parse of that gives no message, with the end of `feed`: none yet, or the
  -- exception that `feed` throws.
  pub feed-Fetched :
      (rounds fuel : ℕ) (has_runtime : Bool) (chunk : Bytes) (p q : HttpParser)
      (r : Result (Unit {0}))
      → feed beast rounds fuel has_runtime chunk p ≡ some (q, r)
      → ((has_runtime ≡ false) × (q ≡ p) × (r ≡ parse_error runtime_missing))
        ⊎ ((has_runtime ≡ true) × Fetched fuel (record p { pending = p.pending ++ chunk }) q r)
  unfolding feed
  feed-Fetched rounds fuel true chunk p q r e =
      inr (refl, feed_loop-Fetched rounds fuel (record p { pending = p.pending ++ chunk }) q r e)
  feed-Fetched rounds fuel false chunk p q r e = inl (refl, cc e, cc e)
