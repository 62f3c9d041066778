-- ===== src/Http/Parser/Feed/Ends.antt =====
-- `feed` ends: each round takes a byte at least of what is pending.
use async_uv.Base.{
  ℕ, zero, suc, ◌+◌, ◌≤◌, ◌<◌, ◌≡◌, refl, ◌⊎◌, inl, inr, Bool, true, false, not, ◌||◌, Option, none,
  some, List, [], ◌∷◌, ◌++◌, arith, Bool-cases, Option-cases, length, take, drop, ap,
}
use async_uv.Base.Bytes.{Bytes}
use async_uv.Base.Search.{find_text}
use async_uv.Http.Server.{Header}
use async_uv.Http.Parser.{
  runtime_missing, Result, ok, parse_error, out_of_range, ParserOptions, ParseMode, crlf,
  validate_start_line, headers_indicate_chunked,
}
use async_uv.Http.Parser.Chunks.{parse_chunks}
use async_uv.Http.Parser.Feed.{
  HttpMessage, Beast, HttpParser, Parsed, Fed, parse_with_beast, try_parse_message, feed_round,
  feed_loop, feed, refused, wants_more, finish, finished, starts_http, initial_headers, start_line,
  with_headers, when_valid,
}
use async_uv.Http.Parser.Progress.{Wrapping, parse_chunks-ends}
use async_uv.Http.Parser.Feed.Queue.{TakesSome, Took, try_parse-Took, Parses, no_more, message_more}

length-take_le : (n : ℕ) (s : Bytes) → length (take n s) ≤ length s
length-take_le zero s = omega arith
length-take_le (suc n) [] = omega arith
length-take_le (suc n) (c ∷ s) = omega (arith, length-take_le n s)

module _ (beast : Beast) where
  -- The text is a complete message with chunks, whose walk comes to a size that takes the position
  -- past 2 ^ 64.
  pub record WrapsAt (options : ParserOptions) (text : Bytes) : Type 0 where
    pub is_request : Bool
    pub head : Bytes
    pub behind : Bytes
    pub headers : List Header
    pub count : ℕ
    pub head_found : find_text (crlf ++ crlf) text ≡ some (head, behind)
    pub kind : is_request ≡ not (starts_http beast (start_line beast head (find_text crlf head)))
    pub head_read : initial_headers beast options (find_text crlf head) ≡ ok (headers, count)
    pub is_chunked : headers_indicate_chunked headers ≡ true
    pub is_done : (beast is_request text).is_done ≡ true
    pub wraps : Wrapping options (take (beast is_request text).consumed text) (length head + 4)

  -- Successive parses of the text come to a message whose walk over the chunks wraps.
  abbrev pub WrapsBehind : ℕ → ParseMode → ParserOptions → Bytes → Type 0
  WrapsBehind fuel mode options text =
      (news : List HttpMessage) × (left : Bytes) × Parses beast fuel mode options text news left
      × WrapsAt options left

  finished-eq-none :
      (o : Option (Result (List Header × ℕ))) (f : Result (List Header × ℕ) → Result Parsed)
      → finished o f ≡ none
      → o ≡ none
  finished-eq-none none f e = refl
  finished-eq-none (some trailers) f e = cc

  with_beast-none :
      (fuel : ℕ) (options : ParserOptions) (pending : Bytes) (is_request : Bool)
      (headers : List Header) (count body_offset : ℕ)
      → length pending < fuel
      → 1 ≤ body_offset
      → parse_with_beast beast fuel options pending is_request headers count body_offset ≡ none
      → let r = beast is_request pending in
        (headers_indicate_chunked headers ≡ true)
        × (r.is_done ≡ true)
        × Wrapping options (take r.consumed pending) body_offset
  unfolding parse_with_beast
  with_beast-none fuel options pending is_request headers count off h pos e =
      let r = beast is_request pending in
      elim (Bool-cases (wants_more r.error || not r.is_done)) [
        | inl waits ↦ cc (rw (parse_with_beast, waits) at e)
        | inr complete ↦ elim (Bool-cases (refused r.error)) [
          | inl bad ↦ cc (rw (parse_with_beast, complete, bad) at e)
          | inr good ↦ elim (Bool-cases (headers_indicate_chunked headers)) [
            | inr plain ↦ cc (rw (parse_with_beast, complete, good, plain) at e)
            | inl chunked ↦
                let spent =
                  finished-eq-none (parse_chunks fuel options (take r.consumed pending) off count)
                    (finish options is_request r headers pending)
                    (rw (parse_with_beast, complete, good, chunked) at e) in
                (
                  chunked,
                  ground (arith, complete),
                  parse_chunks-ends options (take r.consumed pending) count fuel off
                      (omega (arith, h)) (omega (arith, h, length-take_le r.consumed pending))
                      spent,
                )
          ]
        ]
      ]

  with_headers-none :
      (fuel : ℕ) (options : ParserOptions) (pending : Bytes) (is_request : Bool)
      (head behind : Bytes) (headers : Result (List Header × ℕ))
      → length pending < fuel
      → find_text (crlf ++ crlf) pending ≡ some (head, behind)
      → is_request ≡ not (starts_http beast (start_line beast head (find_text crlf head)))
      → initial_headers beast options (find_text crlf head) ≡ headers
      → with_headers beast fuel options pending is_request (length head + 4) headers ≡ none
      → WrapsAt options pending
  with_headers-none fuel options pending is_request head behind (ok (headers, count)) h found kind
        read e =
      let (chunked, complete, wraps) =
        with_beast-none fuel options pending is_request headers count (length head + 4) h
          (omega arith) e in
      record {
        is_request = is_request;
        head = head;
        behind = behind;
        headers = headers;
        count = count;
        head_found = found;
        kind = kind;
        head_read = read;
        is_chunked = chunked;
        is_done = complete;
        wraps = wraps;
      }
  with_headers-none fuel options pending is_request head behind (parse_error k) h found kind read
        e =
      cc
  with_headers-none fuel options pending is_request head behind out_of_range h found kind read e =
      cc

  when_valid-none :
      (valid : Result (Unit {0})) (rest : Option (Result Parsed))
      → when_valid beast valid rest ≡ none
      → rest ≡ none
  when_valid-none (ok _) rest e = e
  when_valid-none (parse_error k) rest e = cc
  when_valid-none out_of_range rest e = cc

  try_parse-none :
      (fuel : ℕ) (mode : ParseMode) (options : ParserOptions) (pending : Bytes)
      → length pending < fuel
      → try_parse_message beast fuel mode options pending ≡ none
      → WrapsAt options pending
  unfolding try_parse_message
  try_parse-none fuel mode options pending h e =
      elim (Option-cases (find_text (crlf ++ crlf) pending)) [
        | inl open_head ↦ cc (rw (try_parse_message, open_head) at e)
        | inr ((head, behind), found) ↦
            let cut = find_text crlf head in
            let line = start_line beast head cut in
            let is_request = not (starts_http beast line) in
            let headers = initial_headers beast options cut in
            let rest =
              with_headers beast fuel options pending is_request (length head + 4) headers in
            with_headers-none fuel options pending is_request head behind headers h found refl refl
              (when_valid-none (validate_start_line options mode line (starts_http beast line)) rest
                (rw (try_parse_message, found) at e))
      ]

length-drop : (n : ℕ) (s : Bytes) → n ≤ length s → length (drop n s) + n ≡ length s
length-drop zero s h = omega arith
length-drop (suc n) [] h = absurd (omega (arith, h))
length-drop (suc n) (c ∷ s) h = omega (arith, length-drop n s (omega (arith, h)))

module _ (beast : Beast) (takes : TakesSome beast) where
  Took-shrinks :
      (pending : Bytes) (parsed : HttpMessage × Bytes)
      → Took beast pending parsed
      → length parsed.1 < length pending
  Took-shrinks pending parsed (b, is_done, cut) =
      let (pos, le) = takes b pending is_done in
      omega (arith, pos, ap length cut, length-drop (beast b pending).consumed pending le)

  feed_round-ends :
      (fuel : ℕ) (p : HttpParser) (more : HttpParser → Option (Fed beast))
      (o : Option (Result Parsed))
      → try_parse_message beast fuel p.mode p.options p.pending ≡ o
      → (o ≡ none → WrapsAt beast p.options p.pending)
      → ((parsed : HttpMessage × Bytes) → o ≡ some (ok (some parsed)) → Took beast p.pending parsed)
      → ((p' : HttpParser)
          → length p'.pending < length p.pending
          → p'.mode ≡ p.mode
          → p'.options ≡ p.options
          → more p' ≡ none
          → WrapsBehind beast fuel p'.mode p'.options p'.pending)
      → feed_round beast p more o ≡ none
      → WrapsBehind beast fuel p.mode p.options p.pending
  feed_round-ends fuel p more none parse spent took ih e =
      ([], p.pending, no_more p.pending, spent refl)
  feed_round-ends fuel p more (some (parse_error k)) parse spent took ih e = cc
  feed_round-ends fuel p more (some out_of_range) parse spent took ih e = cc
  feed_round-ends fuel p more (some (ok none)) parse spent took ih e = cc
  feed_round-ends fuel p more (some (ok (some (message, rest)))) parse spent took ih e =
      let (news, left, parses, wraps) =
        ih (record p { ready = p.ready ++ message ∷ []; pending = rest })
          (Took-shrinks p.pending (message, rest) (took (message, rest) refl)) refl refl e in
      (message ∷ news, left, message_more p.pending message rest news left parse parses, wraps)

  feed_loop-ends :
      (rounds fuel : ℕ) (p : HttpParser)
      → length p.pending < rounds
      → length p.pending < fuel
      → feed_loop beast rounds fuel p ≡ none
      → WrapsBehind beast fuel p.mode p.options p.pending
  unfolding feed_loop
  feed_loop-ends zero fuel p h k e = absurd (omega (arith, h))
  feed_loop-ends (suc rounds) fuel p h k e =
      feed_round-ends fuel p (feed_loop beast rounds fuel)
        (try_parse_message beast fuel p.mode p.options p.pending) refl
        (try_parse-none beast fuel p.mode p.options p.pending k)
        (try_parse-Took beast fuel p.mode p.options p.pending)
        (λ p' shorter mode options none_left.
          feed_loop-ends rounds fuel p' (omega (arith, h, shorter)) (omega (arith, k, shorter))
            none_left)
        e

  -- If Beast takes a byte at least of each message that it completes, and no more than there is,
  -- then `feed` ends, by itself or with an exception, when it is given more rounds than there are
  -- bytes pending and in the chunk, and the walk over a message's chunks as many: unless, behind
  -- messages that it accepts, it comes to a complete one with chunks, the walk over which reaches a
  -- size line whose size takes the position past 2 ^ 64.
  pub feed-ends :
      (rounds fuel : ℕ) (has_runtime : Bool) (chunk : Bytes) (p : HttpParser)
      → length (p.pending ++ chunk) < rounds
      → length (p.pending ++ chunk) < fuel
      → ((q : HttpParser) × ((r : Result (Unit {0})) × (feed beast rounds fuel has_runtime chunk p
              ≡ some (q, r))))
        ⊎ WrapsBehind beast fuel p.mode p.options (p.pending ++ chunk)
  unfolding feed
  feed-ends rounds fuel false chunk p h k = inl (p, (parse_error runtime_missing, refl))
  feed-ends rounds fuel true chunk p h k =
      let p' = record p { pending = p.pending ++ chunk } in
      elim (Option-cases (feed_loop beast rounds fuel p')) [
        | inl none_left ↦ inr (feed_loop-ends rounds fuel p' h k none_left)
        | inr ((q, r), e) ↦ inl (q, (r, e))
      ]
