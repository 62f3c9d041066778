-- ===== src/Http/Server/Chain.antt =====
-- The order in which a chain of middlewares runs.
use mathlib.Core.List.{reverse, reverse-cons}
use async_uv.Base.{◌≡◌, refl, some, List, [], ◌∷◌, ◌++◌, ◌∙◌, ap}
use async_uv.Http.Server.{ServerRequest, Handler, MiddlewareChain, wrap, run}

module _ {R : Type 0} where
  -- The first middleware is outermost: it gets the rest of the chain as its next handler.
  abbrev pub nest : List (ServerRequest → Handler R → R) → Handler R → Handler R
  nest [] handler = handler
  nest (m ∷ ms) handler = λ request. m request (nest ms handler)

  wrap-snoc :
      (ms : List (ServerRequest → Handler R → R)) (m : ServerRequest → Handler R → R)
      (handler : Handler R)
      → wrap (ms ++ m ∷ []) handler ≡ (λ request. m request (wrap ms handler))
  unfolding wrap
  wrap-snoc [] m handler = refl
  wrap-snoc (k ∷ ms) m handler = wrap-snoc ms m (λ request. k request handler)

  wrap-reverse :
      (ms : List (ServerRequest → Handler R → R)) (handler : Handler R)
      → wrap (reverse ms) handler ≡ nest ms handler
  unfolding wrap
  wrap-reverse [] handler = refl
  wrap-reverse (m ∷ ms) handler =
      ap (λ l. wrap l handler) (reverse-cons m ms)
      ∙ wrap-snoc (reverse ms) m handler
      ∙ ap (λ h request. m request h) (wrap-reverse ms handler)

-- A chain with an endpoint runs its middlewares in the order in which they were added, each around
-- the rest, and the endpoint innermost.
pub run-nest :
    {R : Type 0} (chain : MiddlewareChain R) (handler : Handler R) (request : ServerRequest)
    → chain.last ≡ some handler
    → run chain request ≡ some (nest chain.middlewares handler request)
unfolding run
run-nest chain handler request e =
    rw e (ap (λ (h : Handler _). some (h request)) (wrap-reverse chain.middlewares handler))
