-- ===== src/Lib.antt =====
-- OAuth 2.1 authorization server of kite-mcp-oauth, in front of an MCP server for the broker
-- Kite.
--
-- A client sends its user to `Authorize` (handlers_oauth.go), which registers or checks the
-- client, and answers with an authorization code at once if the user has a live dashboard session
-- and the server a usable Kite token, or sends the user to Kite. Kite sends the user back to
-- `HandleKiteOAuthCallback` (handlers_callback.go), which issues the code. The client redeems the
-- code at `Token` (handlers_oauth.go) with its PKCE verifier for an access token, a JWT (jwt.go),
-- and the middleware (middleware.go, handlers_admin_mfa.go) lets requests through that present
-- one. Codes and clients are kept in two stores with bounded maps (stores.go), each behind one
-- mutex.
--
-- The files and what they model:
-- - Prelude and its children: lists, texts and maps over the native numbers. Time: Go's clock.
-- - AuthCodes: `AuthCodeStore` of stores.go, one function for each method and for a tick of the
--   cleanup. AuthCodes/Schedule runs any sequence of such calls, which is what the mutex admits
--   of concurrent requests. AuthCodes/Capacity, Redemption and Closing are about one call each.
--   AuthCodes/Specification says what the store promises, as tickets without a cleanup, and
--   AuthCodes/Refinement relates the store to it. AuthCodes/Provenance: what a code is redeemed
--   for. AuthCodes/Cleanup: the loop of the goroutine, with AuthCodes/Cleanup/Termination.
-- - Clients: `ClientStore` of stores.go, with Eviction, Registration, Redirects and Loading, and
--   Clients/Reachable for the stores that any calls lead to, and Clients/Restoring for those that
--   a restart loads. Clients/Persistence: the calls of `SaveClient` that calls of the store make.
-- - Jwt: jwt.go. Jwt/Laws states the documented behaviour of golang-jwt (`JwtLaws`) that it
--   needs.
-- - Config: config.go. Random: `randomHex`. Http: the part of net/http and net/url that handlers
--   see, with Http/CookieValue for what is written of a cookie. Services: the interfaces of
--   handlers.go and the library functions that the code calls.
-- - Handler: `Handler` of handlers.go as its fixed fields and its state, and handlers as actions
--   that may return early with a response. Handler/Stores: the handlers' calls of the stores,
--   with random values, the clock and the write-through. Handler/Replies: shared responses and
--   cookies. Handler/Authorize, Handler/Token, Handler/EmailLookup and Handler/Callback: the
--   handlers of handlers_oauth.go and handlers_callback.go. Handler/Registration: `Register` and
--   the metadata endpoints. Handler/Mfa: enrollment and verification of handlers_admin_mfa.go.
--   Handler/AdminLogin: handlers_admin.go. Handler/Browser: handlers_browser.go. Handler/Google:
--   google_sso.go. Handler/Cookies: which cookies are set. Handler/SignedState: the OAuth state
--   from its signing to its recovery. Handler/Inversion: what a chain of actions did, from its
--   result. Handler/Setup: `NewHandler`, the setters, `LoadClientsFromDB` and `Close`;
--   Handler/Setup/Restart: a server that loads what another one saved. Handler/Token/Errors and
--   Refusal: error responses. Handler/Browser/Target: the target that a browser login signs.
--   Handler/Google/StateCookie: the cookie that a login with Google sets. Handler/Keeps: rules
--   for actions that keep the stores sound, applied to each handler in its child Soundness.
-- - Server: the endpoints together, with the cleanup, as a step relation on the handler's state.
--   The mux that routes to them is the program that uses this package. Server/Invariant: what
--   holds in every state that it reaches.
-- - Middleware: middleware.go, and the gate of handlers_admin_mfa.go.
-- - Flows: the handlers and the middleware from end to end, from a dashboard session, and in
--   Flows/KiteLogin from a login at Kite. Flows/Dashboard: the logins of the dashboard and what
--   their cookie opens.
-- - Examples: small stores, a small world, library and database, and a golang-jwt that satisfies
--   `JwtLaws`.
--
-- Correspondence. A store's map is an association list whose keys are distinct, the order in
-- which `range` visits a map is a parameter, a `time.Time` is a number of nanoseconds, and a Go
-- error that no caller tells apart from another is `none`. A handler's state is the two stores,
-- the cookies set so far and the world, which stands for the clock, the random bytes and
-- everything behind an interface. A call of a method of a store is one step, since it holds the
-- mutex for its work on the map; between two calls of one handler the theorems on schedules allow
-- any calls of others. The steps of Server are whole requests, one after another. All recursion
-- is over a list or a number, so no fuel is needed.
--
-- Parameters: golang-jwt, crypto/rand, sha256, base64, encoding/json, net/url, the signer, the
-- exchanger, the user store, the key registry, the persister and the TOTP functions of the
-- package users, golang.org/x/oauth2 and the HTTP client. Not modelled: logging (`SetLogger` with
-- it), HTML templates beyond whether they execute, deadlines of contexts, and response headers
-- other than those that a client acts on.
pub mod AuthCodes
pub mod Clients
pub mod Config
pub mod Examples
pub mod Flows
pub mod Handler
pub mod Http
pub mod Jwt
pub mod Middleware
pub mod Prelude
pub mod Random
pub mod Server
pub mod Services
pub mod Time
