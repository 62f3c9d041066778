-- ===== src/Lib.antt =====
-- A verification library for async_uv: an asynchronous runtime over libuv (flux), the protocols on
-- top of it (layer2: HTTP, SQL, Redis, WebSocket) and a web framework (layer3: router, middleware,
-- forms, dependency injection). A request passes layer2's limits and target parser, the middleware
-- chain (among them the rate limiter), and the router, which picks the handler; handlers read forms
-- and use the SQL client, whose connection pool hands out permits of the semaphore.
--
-- The files and the code that they are about:
--   Semaphore        include/flux/async_semaphore.h. AsyncSemaphore: the waiters are nodes of an
--                    intrusive list (enqueue, remove and pop on its links); the critical sections
--                    of start, request_stop, release and close, and the completions that follow
--                    after the lock is released. Semaphore/Steps makes threads interleaved steps
--                    on one state. Assumed: memory for the waiters to wake (release reserves it for
--                    the whole count), and fewer than 2 ^ 63 free permits, a std::ptrdiff_t.
--   RateLimit        layer3/include/async_uv_layer3/rate_limit.hpp. RateLimiter: its table is an
--                    association list, the clock's reading is an argument, in nanoseconds below
--                    2 ^ 63; a window's end wraps around as a signed 64-bit time point does.
--   Router/Node      layer3/include/async_uv_layer3/router_node.hpp. The tree of segments and its
--                    insertion; the pointer that add_child returns is a function that is applied
--                    to the node in place.
--   Router/Matching  the same file's match and match_node, walks along a path.
--   Router/Paths     layer3/src/router.cpp: the functions on paths and patterns.
--   Router/Table     layer3/src/router.cpp: Router, with the routers below prefixes. An exception
--                    is a value beside the router as it is left.
--   Http/Target      layer2/src/server.cpp: parse_request_target. Boost.URL is a parameter.
--   Http/Server      layer2/src/server.cpp: request limits, responses, keep-alive, MiddlewareChain.
--   Http/Parser      layer2/src/parser.cpp: HttpParser and its checks of headers and chunks.
--                    Boost.Beast and whether there is a runtime are parameters; a large body's
--                    file is the text that it holds, and that it can be written is assumed.
--   Http/Client      layer2/src/http.cpp: retries, headers, formats and cookies of the client. What
--                    an attempt gives is a parameter; the file of cookies is its text.
--   Middleware       layer3/include/async_uv_layer3/context.hpp: the reply of a Context, and
--                    cors.hpp, body_limit.hpp, middleware.hpp and the middleware of
--                    rate_limit.hpp beside it; std::hash and zlib are parameters.
--   Di               layer3/include/async_uv_layer3/di.hpp: Container. A factory is a program of
--                    the container's operations; rfl and the type traits are a parameter. A null
--                    pointer that is dereferenced ends a run, which no factory handles.
--   Forms/UrlEncoded layer3/include/async_uv_layer3/form_parser.hpp. The percent-decoder of ada is
--                    a parameter.
--   Forms/Multipart  layer3/include/async_uv_layer3/multipart_parser.hpp.
--   Sql/Text         layer2/src/sql.cpp: placeholders, quoting and numbers.
--   Base             shared types, tests, lists, dictionaries, byte strings and digits.
--
-- Texts are lists of byte values. Sizes and counters of bytes in memory do not wrap; parse_u64,
-- the positions that a chunk's size enters and the time points of the rate limiter keep their
-- wrap-around. Loops without a structural argument take fuel. For the walks of the router the length
-- of the path is enough (Router/Matching/Fuel), for digits the number and one more, for the
-- parameters of a header its length and one more, for the queue of waiters their number, for the
-- HTTP parser the bytes that are pending (Http/Parser/Feed/Ends says when), for nested resolutions
-- the number of keys (Di/Resolution/Ends); the loop of parse_multipart has no bound that serves for
-- every body (Forms/Multipart/Stuck).
--
-- Not modelled: the event loop, timers, files and sockets (calls of libuv); the protocols of
-- libraries (Boost.Beast, hiredis, libpq, MySQL, SQLite); the drivers, the ORM, the HTTP client's
-- exchange and redirects, mailboxes and message bus, the mounting of controllers, and what a
-- Context keeps besides the reply.
mod Base
pub mod Di
pub mod Forms
pub mod Http
pub mod Middleware
pub mod RateLimit
pub mod Router
pub mod Semaphore
pub mod Sql
