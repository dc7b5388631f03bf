-- ===== src/Handler/Authorize/Laws.antt =====
-- What `Authorize` of handlers_oauth.go promises about the codes that it issues.
use kite_mcp_oauth.Prelude.{String, ◌≡◌, ◌≢◌, ◌∙◌, true, not, some, arith, eq_iff, [], ◌∷◌}
use kite_mcp_oauth.Clients.{validate_redirect_uri}
use kite_mcp_oauth.Jwt.{Claims, validate_token}
use kite_mcp_oauth.Http.{Request, Reply, Url, redirect}
use kite_mcp_oauth.Services.{Library}
use kite_mcp_oauth.Handler.{Handler, State, go, stop, Handling, gets, respond_if, ◌>>=◌, ◌>>◌}
use kite_mcp_oauth.Handler.Inversion.{bind-go}
use kite_mcp_oauth.Handler.Replies.{cookie_name, described, code_redirect}
use kite_mcp_oauth.Handler.Authorize.Issuing.{
  issued_code, issued_codes, after_issue, generate_code-goes,
}
use kite_mcp_oauth.Handler.Authorize.{
  entry_for, state_of, dashboard_email, has_kite_token, send_code, issue_from_dashboard,
  short_circuit_from_dashboard, check_request, admit_client, choose_login, authorize, is_http,
}

module _ {W : Type 0} (lib : Library W) (h : Handler W) where
  pub check_request-same : (r : Request) (s : State W) → (check_request lib h r s).1 ≡ s
  unfolding check_request
  check_request-same r s = ground arith

  pub auth_codes-admit_client :
      (client_id uri : String) (s : State W)
      → (admit_client lib h client_id uri s).1.auth_codes ≡ s.auth_codes
  unfolding admit_client
  auth_codes-admit_client client_id uri s = ground arith

  admit_client-goes :
      (client_id uri : String) (s : State W)
      → admit_client lib h client_id uri s ≡ (go tt, (admit_client lib h client_id uri s).1)
  unfolding admit_client
  admit_client-goes client_id uri s = ground arith

  -- The state after the client of a request was admitted: registered, if it was unknown, or given the
  -- redirect URI, if it is a Kite client.
  abbrev pub admitted : Request → State W → State W
  admitted r s = (admit_client lib h (r.query "client_id") (r.query "redirect_uri") s).1

  -- The state in which a request is looked at, its session among the rest, and what is issued for it.
  pub record IssuedFor (r : Request) (u t : State W) : Type 0 where
    pub email : String
    pub allowed :
        validate_redirect_uri (r.query "client_id") (r.query "redirect_uri") u.clients ≡ true
    pub session : dashboard_email lib h r u ≡ some email
    pub usable : has_kite_token lib h email u ≡ true
    pub issued : t.auth_codes ≡ issued_codes lib h (entry_for (state_of r) email "") u

  -- What the handler does from the check of the redirect URI on.
  abbrev pub checked_rest : Request → Handling W Reply
  checked_rest r = do
    allowed ←
        gets (λ s. validate_redirect_uri (r.query "client_id") (r.query "redirect_uri") s.clients)
    respond_if (not allowed) (described 400 "invalid_request" "redirect_uri mismatch for client")
    short_circuit_from_dashboard lib h r (state_of r)
    choose_login lib h (state_of r)

  -- The requests that Authorize looks at: a GET for a code, with a client, a challenge of the method
  -- S256, and a redirect URI over HTTP.
  pub record WellFormed (r : Request) : Type 0 where
    pub got : r.method ≡ "GET"
    pub for_code : r.query "response_type" ≡ "code"
    pub client_given : r.query "client_id" ≢ ""
    pub uri_given : r.query "redirect_uri" ≢ ""
    pub hashed : r.query "code_challenge_method" ≡ "S256"
    pub challenged : r.query "code_challenge" ≢ ""
    pub over_http : is_http lib h (r.query "redirect_uri") ≡ true

  pub dashboard_email_accepts :
      (r : Request) (s : State W) (t : String) (c : Claims)
      → r.cookie cookie_name ≡ some t
      → t ≢ ""
      → validate_token lib.jwt h.jwt (lib.now s.world) t ("dashboard" ∷ []) ≡ some c
      → c.subject ≢ ""
      → dashboard_email lib h r s ≡ some c.subject
  unfolding dashboard_email
  dashboard_email_accepts r s t c found given valid named =
      ground (arith, eq_iff t "", eq_iff c.subject "")

  -- A request for the short-circuit, in the state after its client was admitted: the redirect URI is
  -- allowed and parses, the session is live, its email has a usable Kite token, and a code is drawn.
  pub record HasSession (r : Request) (u : State W) (email code : String) (url : Url) : Type 0 where
    pub allowed :
        validate_redirect_uri (r.query "client_id") (r.query "redirect_uri") u.clients ≡ true
    pub session : dashboard_email lib h r u ≡ some email
    pub usable : has_kite_token lib h email u ≡ true
    pub parses : lib.parse_url (r.query "redirect_uri") ≡ some url
    pub drawn : issued_code lib h (entry_for (state_of r) email "") u ≡ some code

  checked_rest-short_circuits :
      (r : Request) (u : State W) (email code : String) (url : Url)
      → HasSession r u email code url
      → checked_rest r u ≡ (
        stop (redirect (code_redirect lib code (state_of r) url)),
        after_issue lib h (entry_for (state_of r) email "") u,
      )
  unfolding ◌>>=◌ short_circuit_from_dashboard issue_from_dashboard send_code
  checked_rest-short_circuits r u email code url m =
      ground (arith, generate_code-goes lib h (entry_for (state_of r) email "") u)

  -- A request that passes the checks of its parameters and that has a session after its client was
  -- admitted is answered at once: with a redirect to its redirect URI with the code and its state.
  pub authorize_short_circuits :
      (r : Request) (s : State W) (email code : String) (url : Url)
      → let u : State W = (admit_client lib h (r.query "client_id") (r.query "redirect_uri") s).1 in
        check_request lib h r s ≡ (go tt, s)
        → HasSession r u email code url
        → authorize lib h r s ≡ (
          stop (redirect (code_redirect lib code (state_of r) url)),
          after_issue lib h (entry_for (state_of r) email "") u,
        )
  unfolding authorize
  authorize_short_circuits r s email code url passes m =
      bind-go (check_request lib h r) _ s s tt passes
      ∙ bind-go (admit_client lib h (r.query "client_id") (r.query "redirect_uri")) _ s _ tt
          (admit_client-goes (r.query "client_id") (r.query "redirect_uri") s)
      ∙ checked_rest-short_circuits r _ email code url m
