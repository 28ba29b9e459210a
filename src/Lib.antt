-- ===== src/Lib.antt =====
-- Foxrouters: a gateway between clients that speak the chat completion interface and two
-- families of upstreams, Grok and CodeBuddy.
--
-- A request passes the middlewares, which take its key from a header or a session cookie, and the
-- handler ProxyRequest. The handler rewrites the model of the body: an alias or a custom model, then a
-- combo (a virtual model that stands for a list of models), then an alias or a custom model again,
-- then the aliases of Grok with a reasoning effort. It checks the whitelist of the key and calls an
-- upstream, or one model of a fallback combo after the other. The upstreams ask their circuit breaker
-- before a call and report to it after one, go through the pool of proxies, and try one key or account
-- after the other. HandleMessages serves the Messages interface of Anthropic: it translates a request,
-- calls ProxyRequest, and translates the answer, whole or event by event. The dashboard changes keys,
-- combos, custom models and proxies, behind a login with a limiter and a store of sessions.
--
-- Files, and the code they model:
--   Prelude        the names all parts share: Boolean tests, lists, texts, maps, signed integers
--   Names          internal/proxy/validate.go, validateName
--   Combo          internal/proxy/combo.go, ComboRegistry, with the rows of internal/db/db.go
--   Custom         internal/proxy/custom.go, CustomRegistry
--   Auth           internal/auth/auth.go: the record of a key, MatchModel, IsModelAllowed, MaskKey
--   Auth.Manager   the methods of Manager
--   Auth.Gate      AuthMiddleware and AdminMiddleware
--   Route          internal/proxy/proxy.go, the rewriting of the model and the closure dispatch, with
--                  ExpandGrokAlias and IsGrokModel of internal/upstream/grok.go
--   Route.Handler  ProxyRequest as a whole
--   Circuit        internal/upstream/health.go: RecordRequest, CanRequest, checkGrok and checkCB
--   Login          login_limiter.go
--   Session        internal/auth/session_store.go
--   Csrf           csrf_guard.go
--   KeyApi         internal/handlers/handlers.go, HandleDeleteKey and HandleUpdateKey
--   Anthropic.Stream  internal/handlers/anthropic.go, streamWriter: the events it sends; Stream.Chunks
--                  has what a chunk does, and Stream.Bytes the lines; Stream.Grammar is the protocol
--                  of the events on its own
--   Anthropic.Request   the messages and their translation; Request.Body has the model, the tools and
--                  the whole body, and AnthropicAuthMiddleware
--   Anthropic.Captured  extractFromCapturedBody and extractUpstreamErrorMessage
--   Anthropic.Handler   HandleMessages
--   Upstream       internal/upstream/upstream.go, getClient and markProxyResult
--   Codebuddy      internal/upstream/codebuddy.go: the keys and CBKeyManager; Codebuddy.Proxy has the
--                  attempts of ProxyCodeBuddy, and Codebuddy.Events runs of the manager
--   Pool           internal/proxy/pool.go: entries, their validation and the state of the pool;
--                  Pool.Operations has the methods of the dashboard, Pool.Traffic those of requests
--   Grok           internal/upstream/grok.go: the accounts and GrokAccountManager; Grok.Proxy has the
--                  attempts of ProxyGrok
-- The modules below these hold the theorems, and Tests runs at concrete inputs.
--
-- How the code is read:
--   - A method that changes its receiver becomes a function from the state to the state and the result.
--     Most methods hold their lock from the first read to the last write and are one step; sequences
--     of steps are lists of events or operations. A handler calls several methods; here it runs
--     without another one between its calls.
--   - A Go string is the list of its bytes. A map is a list of entries with a write in place, and the
--     order of the list stands for the order of a range.
--   - What Redis, the upstreams, the random numbers and the clock answer is an argument of the method
--     that asks. `none` is an error.
--   - An int or int64 that can be negative or wrap is a ℤ, with the wrap-around written out; a uint64
--     is reduced modulo 2 ^ 64. Counters of requests and failures are natural numbers, which is exact
--     below 2 ^ 63. Times are nanoseconds.
--   - An index out of range and a write to a nil map are results of their own (panic, panicked).
--   - The retry loop of a combo is structural on the list of models, and the loops over the keys of
--     CodeBuddy and the accounts of Grok are structural on the number of attempts, which is the number
--     of keys or accounts as in the code.
--   - A float64 is a type parameter with the operations that the code applies to it. What
--     json.Unmarshal reads from a text is an argument, or a data type of what it may read.
--   - strings.ToLower leaves runes that are not ASCII alone, but for the two that turn into ASCII
--     letters; a pattern of package regexp is a test of each byte.
--
-- Not modelled: the bodies of the answers of the upstreams on their way through ProxyGrok and
-- ProxyCodeBuddy, the writes to Redis after a change of a key of CodeBuddy or an account of Grok, the
-- background workers, the stores of logs, the metrics, the tunnels and the pages of the dashboard,
-- which are input and output; the token bucket of internal/ratelimit, whose arithmetic is in floating
-- point; the bootstrap of keys and accounts from files and the environment.
pub mod Prelude
pub mod Names
pub mod Combo
pub mod Custom
pub mod Auth
pub mod Route
pub mod Circuit
pub mod Login
pub mod Pool
pub mod Session
pub mod Csrf
pub mod KeyApi
pub mod Anthropic
pub mod Upstream
pub mod Codebuddy
pub mod Grok
