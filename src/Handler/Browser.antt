-- ===== src/Handler/Browser.antt =====
-- handlers_browser.go: the login of the dashboard in a browser, through Kite.
pub mod Laws
pub mod Soundness
pub mod Target
use kite_mcp_oauth.Prelude.{
  ℕ, String, Bool, true, false, not, Option, none, some, ◌==◌, ◌<>◌, is_relative, split_once,
  if◌then◌else◌,
}
use kite_mcp_oauth.Http.{Request, Reply, http_error, redirect, page, browser_login, login_choice}
use kite_mcp_oauth.Services.{KeyRegistry, RegistryEntry, Library}
use kite_mcp_oauth.Handler.{
  Handler, State, Handling, Template, missing, parsed, pure, respond, gets, or_respond, outside,
  respond_if, set_cookie, ◌>>=◌, ◌>>◌,
}
use kite_mcp_oauth.Handler.Replies.{
  internal_error, csrf_cookie, generate_csrf_token, set_auth_cookie_or_fail,
}
use kite_mcp_oauth.Handler.Authorize.{kite_login_url}
use kite_mcp_oauth.Handler.EmailLookup.{has_csrf, find_app}
use kite_mcp_oauth.Handler.Mfa.{safe_redirect}
use kite_mcp_oauth.Middleware.{cookie_claims}

-- The email, "" for none, and the target that the signed parameter of a callback holds.
abbrev pub Target : Type 0
Target = String × String

abbrev no_target : Target
no_target = ("", "/admin/ops")

abbrev or_no_target : Option Target → Target
or_no_target none = no_target
or_no_target (some p) = p

module _ {W : Type 0} (lib : Library W) (h : Handler W) where
  -- Without base64 it is a plain target.
  abbrev decoded_target : String → Option String → Target
  decoded_target decoded none = ("", decoded)
  decoded_target decoded (some raw) = or_no_target (split_once raw "::")

  unfoldable pub read_target : String → State W → Target
  unfolding split_once
  read_target signed s = if signed == "" then no_target else elim (h.signer.verify s.world signed) [
    | none ↦ no_target
    | some decoded ↦ decoded_target decoded (lib.raw_url_decode decoded)
  ]

  abbrev pub local_target : String → String
  local_target target = if not (is_relative target) then "/admin/ops" else target

  abbrev exchange_refused : Reply
  exchange_refused = http_error "Authentication failed" 401

  -- The exchange with the credentials that the server has for the email.
  exchange_stored : String → Option (String × String) → Handling W String
  unfolding ◌>>=◌
  exchange_stored request_token none =
      respond (http_error "Authentication failed: no credentials found" 401)
  exchange_stored request_token (some credentials) = do
    email ←
        outside (h.exchanger.exchange_with_credentials request_token credentials.0 credentials.1)
    or_respond email exchange_refused

  unfoldable pub exchange_for : String → String → Handling W String
  unfolding ◌>>=◌ exchange_stored
  exchange_for request_token dash_email =
      if not (dash_email == "")
      then (do
        credentials ← gets (λ s. h.exchanger.get_credentials s.world dash_email)
        exchange_stored request_token credentials)
      else (do
        email ← outside (h.exchanger.exchange_request_token request_token)
        or_respond email exchange_refused)

  unfoldable pub handle_browser_auth_callback : Request → String → Handling W Reply
  unfolding ◌>>=◌ read_target exchange_for set_auth_cookie_or_fail
  handle_browser_auth_callback r request_token = do
    respond_if (request_token == "") (http_error "missing request_token" 400)
    target ← gets (read_target (r.query "target"))
    email ← exchange_for request_token target.0
    set_auth_cookie_or_fail lib h email
    pure (redirect (local_target target.1))

  -- The email and the target, signed, in the parameters of Kite's login.
  abbrev pub signed_target : String → String → State W → String
  signed_target email target s =
      h.signer.sign s.world (lib.raw_url_encode_text (email <> ("::" <> target)))

  unfoldable pub generate_browser_login_url : String → String → String → State W → String
  generate_browser_login_url api_key email target s =
      let signed = signed_target email target s in
      kite_login_url lib h (if api_key == "" then h.config.kite_api_key else api_key)
        ("flow=browser&target=" <> lib.query_escape signed)

  render_choice : Bool → String → Reply
  render_choice executes target =
      if executes
      then page (login_choice target (elim h.google_sso [ none ↦ false | some _ ↦ true ]))
      else internal_error

  unfoldable pub handle_login_choice : Request → State W → Reply
  unfolding cookie_claims render_choice safe_redirect
  handle_login_choice r s =
      let target = safe_redirect (r.query "redirect") "/dashboard" in
      elim (cookie_claims lib h r s) [
        | some _ ↦ redirect target
        | none ↦ elim h.login_choice_tmpl [
          | missing ↦ http_error "Failed to load login page" 500
          | parsed executes ↦ render_choice executes target
        ]
      ]

  render_browser_login : Bool → String → String → String → Handling W Reply
  unfolding ◌>>=◌
  render_browser_login executes target err csrf = do
    set_cookie (csrf_cookie "csrf_token" "/auth/browser-login" csrf)
    pure (if executes then page (browser_login target err csrf) else internal_error)

  -- The form with a fresh CSRF token.
  unfoldable pub serve_browser_login : String → String → Handling W Reply
  unfolding ◌>>=◌ generate_csrf_token render_browser_login
  serve_browser_login target err = do
    drawn ← generate_csrf_token lib
    csrf ← or_respond drawn internal_error
    elim h.browser_login_tmpl [
      | missing ↦ respond (http_error "Failed to load login page" 500)
      | parsed executes ↦ render_browser_login executes target err csrf
    ]

  -- The API key for the email: of its stored credentials, or else of the registry.
  unfoldable pub key_for : String → State W → Option String
  unfolding find_app
  key_for email s = elim (h.exchanger.get_credentials s.world email) [
    | some credentials ↦ some credentials.0
    | none ↦ elim (find_app lib h email s) [ none ↦ none | some entry ↦ some entry.api_key ]
  ]

  abbrev no_credentials_text : String
  no_credentials_text =
      "No credentials found for this email. Please authenticate via your MCP client first."

  login_or_form : String → String → Option String → Handling W Reply
  unfolding ◌>>=◌ serve_browser_login
  login_or_form email target none = serve_browser_login target no_credentials_text
  login_or_form email target (some api_key) = do
    url ← gets (generate_browser_login_url api_key email target)
    pure (redirect url)

  abbrev or_dashboard : String → String
  or_dashboard target = if target == "" then "/dashboard" else target

  unfoldable pub handle_browser_login : Request → Handling W Reply
  unfolding ◌>>=◌ serve_browser_login login_or_form key_for
  handle_browser_login r =
      if r.method == "POST"
      then if not (has_csrf r)
        then serve_browser_login (or_dashboard (r.form "redirect"))
            "Invalid or missing CSRF token. Please try again."
        else if r.form "email" == ""
        then serve_browser_login (or_dashboard (r.form "redirect")) ""
        else (do
          key ← gets (key_for (r.form "email"))
          login_or_form (r.form "email") (or_dashboard (r.form "redirect")) key)
      else if r.query "email" == ""
      then serve_browser_login (or_dashboard (r.query "redirect")) ""
      else (do
        key ← gets (key_for (r.query "email"))
        login_or_form (r.query "email") (or_dashboard (r.query "redirect")) key)
