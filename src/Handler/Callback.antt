-- ===== src/Handler/Callback.antt =====
-- `HandleKiteOAuthCallback` of handlers_callback.go: Kite sends the user back with a request token,
-- and the handler issues the authorization code for the client that the signed state names.
pub mod Issuing
pub mod Laws
pub mod Soundness
use kite_mcp_oauth.Prelude.{
  ℕ, String, Bool, true, false, not, ◌||◌, ◌&&◌, Option, none, some, List, [], ◌∷◌, ◌==◌, ◌<>◌, ltb,
  if◌then◌else◌,
}
use Prim.Native.String.{len}
use kite_mcp_oauth.AuthCodes.{AuthCodeEntry}
use kite_mcp_oauth.Clients.{is_kite_client}
use kite_mcp_oauth.Http.{Request, Reply, http_error, redirect, page, login_success, panic, Url}
use kite_mcp_oauth.Services.{OauthState, KeyRegistry, Library}
use kite_mcp_oauth.Handler.{
  Handler, State, Handling, Template, missing, parsed, pure, respond, gets, or_respond, outside,
  respond_if, ◌>>=◌, ◌>>◌,
}
use kite_mcp_oauth.Handler.Stores.{generate_code}
use kite_mcp_oauth.Handler.Replies.{code_redirect, client_ip, set_auth_cookie}
use kite_mcp_oauth.Handler.Authorize.{entry_for}

-- `mcpCode` and `ssoEmail`; the email is "" where the exchange is deferred.
abbrev pub Issued : Type 0
Issued = String × String

module _ {W : Type 0} (lib : Library W) (h : Handler W) where
  abbrev pub server_error : Reply
  server_error = http_error "server error" 500

  abbrev exchange_failed : Reply
  exchange_failed = http_error "failed to authenticate with Kite" 500

  -- The signed state of the `data` parameter.
  unfoldable pub recover_callback_state : String → Handling W OauthState
  unfolding ◌>>=◌
  recover_callback_state signed = do
    respond_if (signed == "") (http_error "missing data parameter" 400)
    verified ← gets (λ s. h.signer.verify s.world signed)
    encoded ← or_respond verified (http_error "invalid or expired callback data" 400)
    state_json ← or_respond (lib.url_decode encoded) (http_error "invalid state encoding" 400)
    or_respond (lib.unmarshal_state state_json) (http_error "invalid state data" 400)

  issue_for : OauthState → String → String → Handling W Issued
  unfolding ◌>>=◌ generate_code
  issue_for st email request_token = do
    generated ← generate_code lib h (entry_for st email request_token)
    code ← or_respond generated server_error
    pure (code, email)

  -- `ExchangeWithCredentials` with the stored secret of the client's API key, if there is one;
  -- `none` where there is none, or where the exchange fails.
  immediate_exchange : String → String → Option String → Handling W (Option String)
  immediate_exchange request_token client_id none = pure none
  immediate_exchange request_token client_id (some api_secret) =
      outside (h.exchanger.exchange_with_credentials request_token client_id api_secret)

  -- The client's own Kite app: an immediate exchange for a returning user, or a deferred one.
  issue_kite_client : String → OauthState → Handling W Issued
  unfolding ◌>>=◌ issue_for immediate_exchange
  issue_kite_client request_token st = do
    stored ← gets (λ s. h.exchanger.get_secret_by_api_key s.world st.client_id)
    exchanged ← immediate_exchange request_token st.client_id stored
    elim exchanged [ some email ↦ issue_for st email "" | none ↦ issue_for st "" request_token ]

  unfoldable pub registry_secret : String → State W → String
  registry_secret key s = elim h.registry [
    | none ↦ ""
    | some reg ↦ elim (reg.get_secret_by_api_key s.world key) [ none ↦ "" | some secret ↦ secret ]
  ]

  -- The app that the registry has for the user; the log line slices the key, which panics on a
  -- short one.
  issue_registry : String → OauthState → Handling W Issued
  unfolding ◌>>=◌ issue_for registry_secret
  issue_registry request_token st = do
    api_secret ← gets (registry_secret st.registry_key)
    respond_if (api_secret == "")
        (http_error "failed to authenticate: registry credentials not found" 500)
    exchanged ←
        outside (h.exchanger.exchange_with_credentials request_token st.registry_key api_secret)
    email ← or_respond exchanged exchange_failed
    issued ← issue_for st email ""
    respond_if (ltb (len st.registry_key) 8) panic
    pure issued

  -- The app of the server's configuration.
  issue_global : String → OauthState → Handling W Issued
  unfolding ◌>>=◌ issue_for
  issue_global request_token st = do
    exchanged ← outside (h.exchanger.exchange_request_token request_token)
    email ← or_respond exchanged exchange_failed
    issue_for st email ""

  unfoldable pub issue_code : String → OauthState → Handling W Issued
  unfolding ◌>>=◌ issue_kite_client issue_registry issue_global
  issue_code request_token st = do
    kite ← gets (λ s. is_kite_client st.client_id s.clients)
    if kite
        then issue_kite_client request_token st
        else if not (st.registry_key == "")
        then issue_registry request_token st
        else issue_global request_token st

  record_consent : Request → String → Handling W (Unit {0})
  unfolding ◌>>=◌ client_ip
  record_consent r email = elim h.consent_recorder [
    | none ↦ pure tt
    | some record_it ↦
        outside (λ w. (tt, record_it email (client_ip lib r) (r.header "User-Agent") w))
  ]

  -- The dashboard's session and the consent record, once the email is known.
  establish_session : Request → String → Handling W (Unit {0})
  unfolding ◌>>=◌ set_auth_cookie record_consent
  establish_session r email =
      if email == "" then pure tt else (do set_auth_cookie lib h email; record_consent r email)

  abbrev finish : String → Handling W Reply
  finish url = elim h.login_success_tmpl [
    | missing ↦ pure (redirect url)
    | parsed executes ↦ if executes then pure (page (login_success url)) else pure (redirect url)
  ]

  unfoldable pub handle_kite_oauth_callback : Request → String → Handling W Reply
  unfolding ◌>>=◌ recover_callback_state issue_code establish_session
  handle_kite_oauth_callback r request_token = do
    respond_if (request_token == "") (http_error "missing request_token" 400)
    st ← recover_callback_state (r.query "data")
    issued ← issue_code request_token st
    establish_session r issued.1
    url ← or_respond (lib.parse_url st.redirect_uri) (http_error "invalid redirect URI" 400)
    finish (code_redirect lib issued.0 st url)
