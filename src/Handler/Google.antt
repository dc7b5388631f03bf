-- ===== src/Handler/Google.antt =====
-- google_sso.go: the login of the dashboard with a Google account.
pub mod Laws
pub mod Soundness
pub mod Session
pub mod StateCookie
use kite_mcp_oauth.Prelude.{
  ℕ, String, Bool, true, false, not, ◌||◌, Option, none, some, List, ◌==◌, ◌<>◌, is_relative,
  split_once, leb, ◌&&◌, if◌then◌else◌, [], ◌∷◌,
}
use kite_mcp_oauth.Http.{Request, Reply, http_error, redirect, Cookie, seconds, expired, lax}
use kite_mcp_oauth.Http.CookieValue.{written}
use kite_mcp_oauth.Services.{
  AdminUserStore, RegistryEntry, GoogleSsoConfig, Oauth2Config, HttpClient, Library,
}
use kite_mcp_oauth.Handler.{
  Handler, State, Handling, pure, respond, gets, or_respond, outside, respond_if, set_cookie, ◌>>=◌,
  ◌>>◌,
}
use kite_mcp_oauth.Handler.Replies.{internal_error, set_auth_cookie_or_fail}
use kite_mcp_oauth.Handler.EmailLookup.{find_app}
use kite_mcp_oauth.Handler.Mfa.{safe_redirect}

abbrev google_user_info_url : String
google_user_info_url = "https://www.googleapis.com/oauth2/v2/userinfo"

-- `userInfoURL`
unfoldable pub user_info_url : GoogleSsoConfig → String
user_info_url g = if not (g.user_info_url == "") then g.user_info_url else google_user_info_url

abbrev default_endpoint : String × String → String → String × String
default_endpoint google endpoint =
    if not (endpoint == "") then (endpoint <> "/auth", endpoint <> "/token") else google

-- `oauthConfig`
abbrev pub oauth_config : {W : Type 0} → Library W → GoogleSsoConfig → Oauth2Config
oauth_config lib g =
    let (auth_url, token_url) = default_endpoint lib.google_endpoint g.endpoint in
    record {
      client_id = g.client_id;
      client_secret = g.client_secret;
      redirect_url = g.redirect_url;
      scopes = "openid" ∷ "email" ∷ "profile" ∷ [];
      auth_url = auth_url;
      token_url = token_url;
    }

abbrev pub google_state_cookie_name : String
google_state_cookie_name = "google_oauth_state"

abbrev pub google_state_cookie : String → Cookie
google_state_cookie value = record {
  name = google_state_cookie_name;
  value = value;
  path = "/auth/google/callback";
  max_age = seconds 300;
  http_only = true;
  secure = true;
  same_site = lax;
}

abbrev pub cleared_state_cookie : Cookie
cleared_state_cookie = record (google_state_cookie "") { max_age = expired }

unfoldable pub state_cookie_value : Request → Option String
state_cookie_value r = elim (r.cookie google_state_cookie_name) [
  | none ↦ none
  | some value ↦ if value == "" then none else some value
]

-- Where a login goes on to, for the role and the target of the state cookie.
unfoldable pub google_target : String → String → String
google_target role target =
    if not (is_relative target)
    then if role == "admin" then "/admin/ops" else "/dashboard"
    else target

module _ {W : Type 0} (lib : Library W) where
  -- The body of a response with a status of 200, for an email that is verified.
  unfoldable pub verified_email : Option (ℕ × String) → Option String
  verified_email none = none
  verified_email (some (status, body)) =
      if not (leb status 200 && leb 200 status) then none else elim (lib.decode_user_info body) [
        | none ↦ none
        | some (email, verified) ↦ if not verified then none else some email
      ]

  abbrev pub or_default : Option (HttpClient W) → HttpClient W
  or_default none = lib.default_client
  or_default (some client) = client

  abbrev pub or_google : String → String
  or_google info_url = if info_url == "" then google_user_info_url else info_url

  -- `fetchGoogleUserInfo`
  unfoldable pub fetch_google_user_info :
      String → Option (HttpClient W) → String → W → Option String × W
  unfolding verified_email
  fetch_google_user_info access_token http_client info_url w =
      if not (lib.accepts_url (or_google info_url))
      then (none, w)
      else (let (response, after) =
            (or_default http_client).get_authorized (or_google info_url) ("Bearer " <> access_token)
              w in
          (verified_email response, after))

module _ {W : Type 0} (lib : Library W) (h : Handler W) where
  abbrev pub not_configured : Reply
  not_configured = http_error "Google SSO not configured" 404

  unfoldable pub handle_google_login : Request → Handling W Reply
  unfolding ◌>>=◌ safe_redirect
  handle_google_login r = do
    sso ← or_respond h.google_sso not_configured
    drawn ← outside (lib.rand_read 32)
    bytes ← or_respond drawn internal_error
    set_cookie (
        written (
          google_state_cookie (
            lib.url_encode_bytes bytes
            <> ("|" <> safe_redirect (r.query "redirect") "/dashboard"))))
    pure (redirect (lib.auth_code_url (oauth_config lib sso) (lib.url_encode_bytes bytes)))

  -- The state cookie against the request: the target that the cookie holds.
  unfoldable pub check_state : Request → Handling W String
  unfolding ◌>>=◌ state_cookie_value split_once
  check_state r = do
    value ← or_respond (state_cookie_value r) (http_error "Invalid state: missing cookie" 400)
    parts ← or_respond (split_once value "|") (http_error "Invalid state: malformed cookie" 400)
    set_cookie cleared_state_cookie
    respond_if (not (r.query "error" == ""))
        (redirect ("/auth/admin-login?redirect=" <> lib.query_escape parts.1))
    respond_if (not (r.query "state" == parts.0)) (http_error "Invalid state parameter" 400)
    respond_if (r.query "code" == "") (http_error "Missing authorization code" 400)
    pure parts.1

  abbrev pub normalized : String → String
  normalized email = lib.trim_space (lib.to_lower email)

  -- The email that Google has verified for the code.
  unfoldable pub google_email : GoogleSsoConfig → Request → Handling W String
  unfolding ◌>>=◌ fetch_google_user_info user_info_url
  google_email sso r = do
    exchanged ← outside (lib.oauth_exchange h.http_client (oauth_config lib sso) (r.query "code"))
    token ← or_respond exchanged (http_error "Failed to exchange authorization code" 500)
    fetched ← outside (fetch_google_user_info lib token h.http_client (user_info_url sso))
    email ← or_respond fetched (http_error "Failed to fetch user info" 500)
    respond_if (normalized email == "") (http_error "No email returned from Google" 400)
    pure (normalized email)

  unfoldable pub set_admin :
      Option (String → String → W → Bool × W) → String → String → Handling W Bool
  set_admin none email admin = pure true
  set_admin (some set) email admin = outside (set email admin)

  unfoldable pub link_to : AdminUserStore W → String → Option RegistryEntry → Handling W Bool
  unfolding set_admin
  link_to users email none = pure true
  link_to users email (some entry) =
      if entry.registered_by == ""
      then pure true
      else set_admin users.set_admin_email email entry.registered_by

  -- The account is made if it is missing, linked to the administrator that registered an app for the
  -- email, an error of which is only logged, and must be active.
  unfoldable pub admit_account : AdminUserStore W → String → Handling W (Unit {0})
  unfolding ◌>>=◌ link_to find_app
  admit_account users email = do
    outside (λ w. (tt, users.ensure_google_user email w))
    app ← gets (find_app lib h email)
    link_to users email app
    status ← gets (λ s. users.get_status s.world email)
    respond_if (not (status == "active")) (http_error "Account is suspended or inactive." 403)

  unfoldable pub handle_google_callback : Request → Handling W Reply
  unfolding ◌>>=◌ check_state google_email admit_account set_auth_cookie_or_fail google_target
  handle_google_callback r = do
    sso ← or_respond h.google_sso not_configured
    target ← check_state r
    email ← google_email sso r
    users ← or_respond h.user_store (http_error "Login not configured" 500)
    admit_account users email
    set_auth_cookie_or_fail lib h email
    role ← gets (λ s. users.get_role s.world email)
    pure (redirect (google_target role target))
