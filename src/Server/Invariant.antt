-- ===== src/Server/Invariant.antt =====
-- What holds of the stores in every state of the server.
use kite_mcp_oauth.Prelude.{[]}
use kite_mcp_oauth.AuthCodes.Capacity.{new_auth_code_store-IsBounded, cleanup_tick-IsBounded}
use kite_mcp_oauth.Clients.{new_client_store}
use kite_mcp_oauth.Clients.Reachable as ClientCalls
use kite_mcp_oauth.Clients.Reachable.{Reachable-IsBounded}
use kite_mcp_oauth.Services.{Library}
use kite_mcp_oauth.Handler.{Handler, State, serve}
use kite_mcp_oauth.Handler.Keeps.{IsSound, Keeps}
use kite_mcp_oauth.Handler.Keeps.Stores.{RuntimeLaws}
use kite_mcp_oauth.Handler.Authorize.Soundness.{Keeps-authorize}
use kite_mcp_oauth.Handler.Token.Soundness.{Keeps-token}
use kite_mcp_oauth.Handler.Callback.Soundness.{Keeps-handle_kite_oauth_callback}
use kite_mcp_oauth.Handler.EmailLookup.Soundness.{Keeps-handle_email_lookup}
use kite_mcp_oauth.Handler.Registration.Soundness.{Keeps-handle_register}
use kite_mcp_oauth.Handler.Mfa.Soundness.{
  Keeps-handle_admin_mfa_enroll, Keeps-handle_admin_mfa_verify,
}
use kite_mcp_oauth.Handler.AdminLogin.Soundness.{Keeps-handle_admin_login}
use kite_mcp_oauth.Handler.Browser.Soundness.{
  Keeps-handle_browser_login, Keeps-handle_browser_auth_callback,
}
use kite_mcp_oauth.Handler.Google.Soundness.{
  Keeps-handle_google_login, Keeps-handle_google_callback,
}
use kite_mcp_oauth.Handler.Setup.{new_state}
use kite_mcp_oauth.Server.{
  Endpoint, authorizes, grants, looks_up, enrolls, verifies, logs_in, browses, goes_to_google,
  comes_from_google, registers, calls_back, returns_to_browser, handle, Event, serves, cleans,
  passes, Reachable, starts, goes_on,
}

module _ {W : Type 0} (lib : Library W) (h : Handler W) (laws : RuntimeLaws lib) where
  Keeps-handle : (e : Endpoint) → Keeps (handle lib h e)
  unfolding handle
  Keeps-handle (authorizes r) = Keeps-authorize lib h laws r
  Keeps-handle (grants r) = Keeps-token lib h r
  Keeps-handle (looks_up r) = Keeps-handle_email_lookup lib h r
  Keeps-handle (enrolls r) = Keeps-handle_admin_mfa_enroll lib h r
  Keeps-handle (verifies r) = Keeps-handle_admin_mfa_verify lib h r
  Keeps-handle (logs_in r) = Keeps-handle_admin_login lib h r
  Keeps-handle (browses r) = Keeps-handle_browser_login lib h r
  Keeps-handle (goes_to_google r) = Keeps-handle_google_login lib h r
  Keeps-handle (comes_from_google r) = Keeps-handle_google_callback lib h r
  Keeps-handle (registers r decoded) = Keeps-handle_register lib h laws r decoded
  Keeps-handle (calls_back r request_token) = Keeps-handle_kite_oauth_callback lib h r request_token
  Keeps-handle (returns_to_browser r request_token) =
      Keeps-handle_browser_auth_callback lib h r request_token

  Event-IsSound : (s t : State W) → IsSound s → Event lib h s t → IsSound t
  unfolding serve
  Event-IsSound s t sound (serves e) =
      (Keeps-handle e).at (record s { cookies = [] })
        (record { codes = sound.codes; clients = sound.clients; few = sound.few })
  Event-IsSound s t sound (cleans now) = record {
    codes = cleanup_tick-IsBounded now s.auth_codes sound.codes;
    clients = sound.clients;
    few = sound.few;
  }
  Event-IsSound s t sound (passes w) = record {
    codes = sound.codes;
    clients = sound.clients;
    few = sound.few;
  }

  new_state-IsSound : (w : W) → IsSound (new_state w)
  unfolding new_state
  new_state-IsSound w =
      let (clients, few) = Reachable-IsBounded new_client_store ClientCalls.starts in
      record { codes = new_auth_code_store-IsBounded; clients = clients; few = few }

  -- In every state that requests to any endpoints, ticks of the cleanup and events outside lead a
  -- new server to that loads no clients, the stores are sound (`IsSound`): no more than `maxAuthCodes` codes are pending,
  -- and no more than `maxClients` clients are registered, whose ids are distinct and not empty and
  -- none of which has more than `maxRedirectURIs` redirect URIs. It relies on the run time as
  -- documented (`RuntimeLaws`).
  pub Reachable-IsSound : (s : State W) → Reachable lib h s → IsSound s
  Reachable-IsSound s (starts w) = new_state-IsSound w
  Reachable-IsSound t (goes_on s _ r e) = Event-IsSound s t (Reachable-IsSound s r) e
