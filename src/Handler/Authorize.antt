-- ===== src/Handler/Authorize.antt =====
-- `Authorize` of handlers_oauth.go: GET /oauth/authorize checks the request, registers or checks the
-- client, and answers with a code at once for a live dashboard session, or sends the user to Kite.
pub mod Issuing
pub mod Laws
pub mod Soundness
use kite_mcp_oauth.Prelude.{
  ℕ, String, Bool, true, false, not, ◌||◌, ◌&&◌, Option, none, some, List, [], ◌∷◌, ◌==◌, ◌<>◌,
  if◌then◌else◌,
}
use kite_mcp_oauth.AuthCodes.{AuthCodeEntry}
use kite_mcp_oauth.Clients.{get, is_kite_client, validate_redirect_uri}
use kite_mcp_oauth.Jwt.{Claims, validate_token}
use kite_mcp_oauth.Http.{Request, Reply, http_error, redirect, page, email_prompt}
use kite_mcp_oauth.Services.{OauthState, KeyRegistry, Library}
use kite_mcp_oauth.Handler.{
  Handler, State, Handling, Template, missing, parsed, pure, respond, gets, or_respond, respond_if,
  set_cookie, ◌>>=◌, ◌>>◌,
}
use kite_mcp_oauth.Handler.Stores.{generate_code, register_kite, add_uri}
use kite_mcp_oauth.Handler.Replies.{
  method_not_allowed, internal_error, error_reply, described, cookie_name, csrf_cookie,
  code_redirect, generate_csrf_token,
}

-- What a form renders, if its template executes.
abbrev pub rendered : Bool → Reply → Reply
rendered true p = p
rendered false p = internal_error

-- The subject of a token of the dashboard, if it has one.
abbrev pub subject_of : Option Claims → Option String
subject_of none = none
subject_of (some claims) = if claims.subject == "" then none else some claims.subject

abbrev pub entry_for : OauthState → String → String → AuthCodeEntry
entry_for st email request_token = record {
  client_id = st.client_id;
  code_challenge = st.code_challenge;
  redirect_uri = st.redirect_uri;
  email = email;
  request_token = request_token;
  expires_at = 0;
}

abbrev pub state_of : Request → OauthState
state_of r = record {
  client_id = r.query "client_id";
  redirect_uri = r.query "redirect_uri";
  code_challenge = r.query "code_challenge";
  state = r.query "state";
  registry_key = "";
}

module _ {W : Type 0} (lib : Library W) (h : Handler W) where
  -- The state for the round trip through Kite, signed.
  unfoldable pub signed_state : OauthState → Handling W String
  unfolding ◌>>=◌
  signed_state st = do
    state_json ← or_respond (lib.marshal_state st) internal_error
    gets (λ s. h.signer.sign s.world (lib.url_encode state_json))

  abbrev pub kite_login_url : String → String → String
  kite_login_url api_key redirect_params =
      "https://kite.zerodha.com/connect/login?api_key="
      <> (api_key <> ("&v=3&redirect_params=" <> lib.query_escape redirect_params))

  unfoldable pub redirect_to_kite_login : String → OauthState → Handling W Reply
  unfolding ◌>>=◌ signed_state
  redirect_to_kite_login api_key st = do
    signed ← signed_state st
    pure (redirect (kite_login_url api_key ("flow=oauth&data=" <> lib.query_escape signed)))

  unfoldable pub render_email_prompt : Bool → OauthState → String → Handling W Reply
  unfolding ◌>>=◌ signed_state generate_csrf_token
  render_email_prompt executes st error_msg = do
    signed ← signed_state st
    drawn ← generate_csrf_token lib
    csrf_token ← or_respond drawn internal_error
    set_cookie (csrf_cookie "csrf_token" "/oauth/email-lookup" csrf_token)
    pure (rendered executes (page (email_prompt error_msg csrf_token signed)))

  unfoldable pub serve_email_prompt : OauthState → String → Handling W Reply
  unfolding render_email_prompt
  serve_email_prompt st error_msg = elim h.email_prompt_tmpl [
    | missing ↦ respond (http_error "email prompt page unavailable" 500)
    | parsed executes ↦ render_email_prompt executes st error_msg
  ]

  -- The email of the dashboard session that the request's cookie carries.
  unfoldable pub dashboard_email : Request → State W → Option String
  dashboard_email r s = elim (r.cookie cookie_name) [
    | none ↦ none
    | some token ↦
        if token == ""
        then none
        else subject_of (validate_token lib.jwt h.jwt (lib.now s.world) token ("dashboard" ∷ []))
  ]

  -- Whether the server has a usable Kite token for the email; without a checker it cannot tell.
  unfoldable pub has_kite_token : String → State W → Bool
  has_kite_token email s = elim h.kite_token_checker [
    | none ↦ false
    | some checker ↦ checker s.world email
  ]

  -- The redirect of the short-circuit, if a code was issued and the URI parses; else go on.
  send_code : OauthState → Option String → Handling W (Unit {0})
  send_code st none = pure tt
  send_code st (some code) = elim (lib.parse_url st.redirect_uri) [
    | none ↦ pure tt
    | some url ↦ respond (redirect (code_redirect lib code st url))
  ]

  issue_from_dashboard : OauthState → String → Handling W (Unit {0})
  unfolding ◌>>=◌ send_code generate_code
  issue_from_dashboard st email = do
    usable ← gets (has_kite_token email)
    if usable
        then (do code ← generate_code lib h (entry_for st email ""); send_code st code)
        else pure tt

  -- `shortCircuitFromDashboard`: it responds, or the caller goes on.
  unfoldable pub short_circuit_from_dashboard : Request → OauthState → Handling W (Unit {0})
  unfolding ◌>>=◌ issue_from_dashboard
  short_circuit_from_dashboard r st = do
    session ← gets (dashboard_email r)
    elim session [ none ↦ pure tt | some email ↦ issue_from_dashboard st email ]

  abbrev pub is_http : String → Bool
  is_http uri = elim (lib.parse_url uri) [
    | none ↦ false
    | some url ↦ url.scheme == "http" || url.scheme == "https"
  ]

  unfoldable pub check_request : Request → Handling W (Unit {0})
  unfolding ◌>>=◌
  check_request r = do
    respond_if (not (r.method == "GET")) method_not_allowed
    respond_if (not (r.query "response_type" == "code"))
        (error_reply 400 "unsupported_response_type")
    respond_if (r.query "client_id" == "" || r.query "redirect_uri" == "")
        (described 400 "invalid_request" "client_id and redirect_uri required")
    respond_if (not (r.query "code_challenge_method" == "S256"))
        (described 400 "invalid_request" "code_challenge_method must be S256")
    respond_if (r.query "code_challenge" == "")
        (described 400 "invalid_request" "code_challenge required")
    respond_if (not (is_http (r.query "redirect_uri")))
        (described 400 "invalid_request" "redirect_uri must use http or https scheme")

  -- An unknown client is registered as a Kite client; a Kite client gets the redirect URI.
  unfoldable pub admit_client : String → String → Handling W (Unit {0})
  unfolding ◌>>=◌ register_kite add_uri
  admit_client client_id uri = do
    known ← gets (λ s. get client_id s.clients)
    kite ← gets (λ s. is_kite_client client_id s.clients)
    elim known [
      | none ↦ (do register_kite lib h client_id (uri ∷ []); pure tt)
      | some _ ↦ if kite then (do add_uri lib h client_id uri; pure tt) else pure tt
    ]

  -- `h.registry != nil && h.registry.HasEntries()`
  unfoldable pub has_registry : State W → Bool
  has_registry s = elim h.registry [ none ↦ false | some reg ↦ reg.has_entries s.world ]

  with_global_key : OauthState → Handling W Reply
  unfolding ◌>>=◌ redirect_to_kite_login
  with_global_key st = do
    respond_if (h.config.kite_api_key == "") (
        described 400 "invalid_request"
          "No Kite API credentials configured. Set oauth_client_id and oauth_client_secret in your MCP client config.")
    redirect_to_kite_login h.config.kite_api_key st

  -- Where the user is sent to prove who he is.
  pub choose_login : OauthState → Handling W Reply
  unfolding ◌>>=◌ with_global_key redirect_to_kite_login serve_email_prompt
  choose_login st = do
    kite ← gets (λ s. is_kite_client st.client_id s.clients)
    registry ← gets has_registry
    if kite
        then redirect_to_kite_login st.client_id st
        else if registry
        then serve_email_prompt st ""
        else with_global_key st

  unfoldable pub authorize : Request → Handling W Reply
  unfolding ◌>>=◌ check_request admit_client short_circuit_from_dashboard choose_login
  authorize r = do
    check_request r
    admit_client (r.query "client_id") (r.query "redirect_uri")
    allowed ←
        gets (λ s. validate_redirect_uri (r.query "client_id") (r.query "redirect_uri") s.clients)
    respond_if (not allowed) (described 400 "invalid_request" "redirect_uri mismatch for client")
    short_circuit_from_dashboard r (state_of r)
    choose_login (state_of r)
