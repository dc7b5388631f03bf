-- ===== src/Handler/AdminLogin.antt =====
-- handlers_admin.go: the login of administrators with a password.
pub mod Laws
pub mod Soundness
use kite_mcp_oauth.Prelude.{
  ℕ, String, Bool, true, false, not, ◌||◌, Option, none, some, ◌==◌, is_relative, if◌then◌else◌,
}
use kite_mcp_oauth.Http.{Request, Reply, http_error, redirect, page, admin_login}
use kite_mcp_oauth.Services.{AdminUserStore, Library}
use kite_mcp_oauth.Handler.{
  Handler, State, Handling, Template, missing, parsed, pure, respond, gets, or_respond, outside,
  set_cookie, ◌>>=◌, ◌>>◌,
}
use kite_mcp_oauth.Handler.Replies.{
  internal_error, csrf_cookie, generate_csrf_token, set_auth_cookie_or_fail,
}

abbrev pub admin_home : String
admin_home = "/admin/ops"

-- The form's target, if it is a path on the server.
unfoldable pub login_target : Request → String
login_target r =
    if r.form "redirect" == ""
    then admin_home
    else if not (is_relative (r.form "redirect"))
    then admin_home
    else r.form "redirect"

unfoldable pub has_admin_csrf : Request → Bool
has_admin_csrf r = elim (r.cookie "csrf_token_admin") [
  | none ↦ false
  | some value ↦ if value == "" then false else value == r.form "csrf_token"
]

-- Whether the password was verified; an error counts as no match.
abbrev is_match : Option Bool → Bool
is_match none = false
is_match (some match) = match

module _ {W : Type 0} (lib : Library W) (h : Handler W) where
  abbrev sso_enabled : Bool
  sso_enabled = elim h.google_sso [ none ↦ false | some _ ↦ true ]

  unfoldable pub render_login : Bool → String → String → String → Handling W Reply
  unfolding ◌>>=◌
  render_login executes target err csrf = do
    if csrf == ""
        then pure tt
        else set_cookie (csrf_cookie "csrf_token_admin" "/auth/admin-login" csrf)
    pure (if executes then page (admin_login target err csrf sso_enabled) else internal_error)

  unfoldable pub serve_admin_login_form : String → String → String → Handling W Reply
  unfolding render_login
  serve_admin_login_form target err csrf = elim h.admin_login_tmpl [
    | missing ↦ respond (http_error "Failed to load admin login page" 500)
    | parsed executes ↦ render_login executes target err csrf
  ]

  -- The form with a fresh CSRF token.
  unfoldable pub retry_login : String → String → Handling W Reply
  unfolding ◌>>=◌ generate_csrf_token serve_admin_login_form
  retry_login target err = do
    drawn ← generate_csrf_token lib
    csrf ← or_respond drawn internal_error
    serve_admin_login_form target err csrf

  -- The role, the status and the password of the account are all in order.
  unfoldable pub may_log_in : AdminUserStore W → String → String → State W → Bool
  may_log_in users email password s = not (
      not (is_match (users.verify_password s.world email password))
      || (not (users.get_role s.world email == "admin")
          || not (users.get_status s.world email == "active")))

  abbrev pub login_email : Request → String
  login_email r = lib.trim_space (lib.to_lower (r.form "email"))

  unfoldable pub log_in : AdminUserStore W → Request → Handling W Reply
  unfolding ◌>>=◌ retry_login set_auth_cookie_or_fail
  log_in users r = do
    allowed ← gets (may_log_in users (login_email r) (r.form "password"))
    if allowed
        then (do set_auth_cookie_or_fail lib h (login_email r); pure (redirect (login_target r)))
        else retry_login (login_target r) "Invalid email or password."

  unfoldable pub login_post : Request → Handling W Reply
  unfolding retry_login serve_admin_login_form log_in
  login_post r =
      if not (has_admin_csrf r)
      then retry_login (login_target r) "Invalid or missing CSRF token. Please try again."
      else elim h.user_store [
        | none ↦ serve_admin_login_form (login_target r) "Admin login not configured." ""
        | some users ↦ log_in users r
      ]

  unfoldable pub handle_admin_login : Request → Handling W Reply
  unfolding login_post retry_login
  handle_admin_login r =
      if r.method == "POST"
      then login_post r
      else retry_login (if r.query "redirect" == "" then admin_home else r.query "redirect") ""
