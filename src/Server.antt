-- ===== src/Server.antt =====
-- The server as a whole: the endpoints of the package, each served on the state of one handler, the
-- cleanup of stores.go, and what happens outside between them.
pub mod Invariant
use kite_mcp_oauth.Prelude.{ℕ, String, Option, List, []}
use kite_mcp_oauth.AuthCodes.{cleanup_tick}
use kite_mcp_oauth.Http.{Request, Reply}
use kite_mcp_oauth.Services.{Library}
use kite_mcp_oauth.Handler.{Handler, State, Handling, serve}
use kite_mcp_oauth.Handler.Authorize.{authorize}
use kite_mcp_oauth.Handler.Token.{token}
use kite_mcp_oauth.Handler.Callback.{handle_kite_oauth_callback}
use kite_mcp_oauth.Handler.EmailLookup.{handle_email_lookup}
use kite_mcp_oauth.Handler.Registration.{handle_register}
use kite_mcp_oauth.Handler.Mfa.{handle_admin_mfa_enroll, handle_admin_mfa_verify}
use kite_mcp_oauth.Handler.AdminLogin.{handle_admin_login}
use kite_mcp_oauth.Handler.Browser.{handle_browser_login, handle_browser_auth_callback}
use kite_mcp_oauth.Handler.Google.{handle_google_login, handle_google_callback}
use kite_mcp_oauth.Handler.Setup.{new_state}

-- A request to one of the endpoints that may change the state, with what the router or the JSON
-- decoder hands over.
pub data Endpoint : Type 0 where
  authorizes grants looks_up enrolls verifies logs_in browses goes_to_google comes_from_google :
      Request → Endpoint
  registers : Request → Option (List String × String) → Endpoint
  calls_back returns_to_browser : Request → String → Endpoint

module _ {W : Type 0} (lib : Library W) (h : Handler W) where
  unfoldable pub handle : Endpoint → Handling W Reply
  handle (authorizes r) = authorize lib h r
  handle (grants r) = token lib h r
  handle (looks_up r) = handle_email_lookup lib h r
  handle (enrolls r) = handle_admin_mfa_enroll lib h r
  handle (verifies r) = handle_admin_mfa_verify lib h r
  handle (logs_in r) = handle_admin_login lib h r
  handle (browses r) = handle_browser_login lib h r
  handle (goes_to_google r) = handle_google_login lib h r
  handle (comes_from_google r) = handle_google_callback lib h r
  handle (registers r decoded) = handle_register lib h r decoded
  handle (calls_back r request_token) = handle_kite_oauth_callback lib h r request_token
  handle (returns_to_browser r request_token) = handle_browser_auth_callback lib h r request_token

  -- One event: a request is served, on a response with no cookies yet; a tick of the cleanup; or
  -- anything outside, the passing of time included.
  pub data Event (s : State W) : State W → Type 0 where
    serves : (e : Endpoint) → Event s (serve (handle e) (record s { cookies = [] })).1
    cleans : (now : ℕ) → Event s (record s { auth_codes = cleanup_tick now s.auth_codes })
    passes : (w : W) → Event s (record s { world = w })

  -- The states of a server that started with empty stores.
  pub data Reachable : State W → Type 0 where
    starts : (w : W) → Reachable (new_state w)
    goes_on : (s t : State W) → Reachable s → Event s t → Reachable t
