-- ===== src/Handler/Mfa.antt =====
-- Enrollment and verification of the second factor in handlers_admin_mfa.go: the two handlers that
-- set the MFA cookie.
pub mod Laws
pub mod Soundness
pub mod Verification
use kite_mcp_oauth.Prelude.{
  ℕ, ◌/◌, String, Bool, true, false, not, ◌||◌, Option, none, some, ◌==◌, ◌<>◌, is_relative,
  if◌then◌else◌,
}
use kite_mcp_oauth.Time.{second}
use kite_mcp_oauth.Http.{
  Request, Reply, http_error, redirect, page, mfa_enroll, mfa_verify, panic, Cookie, seconds, lax,
}
use kite_mcp_oauth.Services.{AdminUserStore, Library}
use kite_mcp_oauth.Handler.{
  Handler, State, Handling, Template, missing, parsed, pure, respond, gets, or_respond, outside,
  respond_if, set_cookie, ◌>>=◌, ◌>>◌,
}
use kite_mcp_oauth.Handler.Replies.{csrf_cookie, generate_csrf_token}
use kite_mcp_oauth.Middleware.{
  admin_mfa_cookie_name, admin_mfa_token_expiry, mint_admin_mfa_token, is_enrolled,
}

unfoldable pub safe_redirect : String → String → String
safe_redirect candidate fallback =
    if candidate == ""
    then fallback
    else if not (is_relative candidate)
    then fallback
    else candidate

abbrev pub admin_mfa_cookie : String → Cookie
admin_mfa_cookie token = record {
  name = admin_mfa_cookie_name;
  value = token;
  path = "/";
  max_age = seconds (admin_mfa_token_expiry / second);
  http_only = true;
  secure = true;
  same_site = lax;
}

abbrev pub csrf_name : String
csrf_name = "csrf_token_admin_mfa"

unfoldable pub check_admin_mfa_csrf : Request → Bool
check_admin_mfa_csrf r = elim (r.cookie csrf_name) [
  | none ↦ false
  | some value ↦
      if value == ""
      then false
      else if r.form "csrf_token" == ""
      then false
      else value == r.form "csrf_token"
]

abbrev internal : Reply
internal = http_error "internal error" 500

abbrev bad_csrf : String
bad_csrf = "Invalid or expired CSRF token. Please try again."

abbrev bad_code : String
bad_code = "Code did not match. Try again with the latest code from your authenticator."

-- Where the handlers go on to.
abbrev pub form_redirect : Request → String
form_redirect r = safe_redirect (r.form "redirect") "/admin/ops"

abbrev query_redirect : Request → String
query_redirect r = safe_redirect (r.query "redirect") "/admin/ops"

module _ {W : Type 0} (lib : Library W) (h : Handler W) where
  -- Draw a CSRF token, set its cookie, and render the form with it.
  unfoldable pub render_form : Bool → (String → Reply) → Handling W Reply
  unfolding ◌>>=◌ generate_csrf_token
  render_form executes form = do
    drawn ← generate_csrf_token lib
    csrf ← or_respond drawn internal
    set_cookie (csrf_cookie csrf_name "/auth/admin-mfa" csrf)
    pure (if executes then form csrf else internal)

  unfoldable pub serve_enroll_form : String → String → String → String → Handling W Reply
  unfolding render_form
  serve_enroll_form email secret target err = elim h.admin_mfa_enroll_tmpl [
    | missing ↦ respond (http_error "MFA enrollment template missing" 500)
    | parsed executes ↦ render_form executes (λ csrf. page (
        mfa_enroll email secret (lib.provisioning_uri secret "kite-mcp-server" email) target csrf
          err))
  ]

  unfoldable pub serve_verify_form : String → String → Handling W Reply
  unfolding render_form
  serve_verify_form target err = elim h.admin_mfa_verify_tmpl [
    | missing ↦ respond (http_error "MFA verify template missing" 500)
    | parsed executes ↦ render_form executes (λ csrf. page (mfa_verify target csrf err))
  ]

  -- The end of both handlers: mint the token, set its cookie, and go on.
  unfoldable pub grant_mfa : String → String → Handling W Reply
  unfolding ◌>>=◌
  grant_mfa email target = do
    minted ← gets (λ s. mint_admin_mfa_token lib h email (lib.now s.world))
    token ← or_respond minted internal
    set_cookie (admin_mfa_cookie token)
    pure (redirect target)

  -- What follows `SetTOTPSecret`, for its error.
  unfoldable pub after_persist : Request → String → Option String → Handling W Reply
  unfolding grant_mfa serve_enroll_form
  after_persist r email (some e) =
      serve_enroll_form email (r.form "secret") (form_redirect r)
        ("Could not save enrollment: " <> e)
  after_persist r email none = grant_mfa email (form_redirect r)

  -- `h.userStore.SetTOTPSecret` on a nil store panics.
  unfoldable pub persist_secret : Request → String → Handling W Reply
  unfolding ◌>>=◌ after_persist
  persist_secret r email = elim h.user_store [
    | none ↦ respond panic
    | some users ↦ (do
      failed ← outside (users.set_totp_secret email (r.form "secret"))
      after_persist r email failed)
  ]

  unfoldable pub enroll_post : Request → String → Handling W Reply
  unfolding ◌>>=◌ persist_secret serve_enroll_form
  enroll_post r email = do
    matches ← gets (λ s. lib.verify_totp_code (r.form "secret") (r.form "code") (lib.now s.world))
    if not (check_admin_mfa_csrf r)
        then serve_enroll_form email (r.form "secret") (form_redirect r) bad_csrf
        else if not matches
        then serve_enroll_form email (r.form "secret") (form_redirect r) bad_code
        else persist_secret r email

  unfoldable pub handle_admin_mfa_enroll : Request → Handling W Reply
  unfolding ◌>>=◌ enroll_post serve_enroll_form
  handle_admin_mfa_enroll r = do
    respond_if (r.context_email == "") (http_error "Unauthorized" 401)
    if r.method == "POST" then enroll_post r r.context_email else (do
      drawn ← outside lib.generate_totp_secret
      secret ← or_respond drawn internal
      serve_enroll_form r.context_email secret (query_redirect r) "")

  -- What follows `VerifyTOTP`, for its result.
  unfoldable pub after_verify : Request → String → Option Bool → Handling W Reply
  unfolding grant_mfa serve_verify_form
  after_verify r email none =
      serve_verify_form (form_redirect r) "Verification temporarily unavailable. Try again."
  after_verify r email (some false) = serve_verify_form (form_redirect r) bad_code
  after_verify r email (some true) = grant_mfa email (form_redirect r)

  unfoldable pub verify_post : AdminUserStore W → Request → String → Handling W Reply
  unfolding ◌>>=◌ after_verify serve_verify_form
  verify_post users r email = do
    verified ← gets (λ s. users.verify_totp s.world email (r.form "code"))
    if not (check_admin_mfa_csrf r)
        then serve_verify_form (form_redirect r) bad_csrf
        else after_verify r email verified

  unfoldable pub verify_enrolled : Request → Handling W Reply
  unfolding verify_post serve_verify_form
  verify_enrolled r = elim h.user_store [
    | none ↦ respond panic
    | some users ↦
        if r.method == "POST"
        then verify_post users r r.context_email
        else serve_verify_form (query_redirect r) ""
  ]

  unfoldable pub handle_admin_mfa_verify : Request → Handling W Reply
  unfolding ◌>>=◌ verify_enrolled
  handle_admin_mfa_verify r = do
    respond_if (r.context_email == "") (http_error "Unauthorized" 401)
    enrolled ← gets (is_enrolled lib h r.context_email)
    respond_if (not enrolled) (redirect ("/auth/admin-mfa/enroll?redirect=" <> query_redirect r))
    verify_enrolled r
