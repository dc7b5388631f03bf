-- ===== src/Examples/SecondFactor.antt =====
-- The second factor of handlers_admin_mfa.go on concrete requests.
use kite_mcp_oauth.Prelude.{
  ◌*◌, String, ◌≡◌, refl, true, ◌⊎◌, none, some, ◌==◌, differ, arith, is_relative, if◌then◌else◌,
}
use kite_mcp_oauth.Time.{second}
use kite_mcp_oauth.Jwt.{generate_token_with_expiry, new_jwt_manager}
use kite_mcp_oauth.Http.{Request, redirect, next}
use kite_mcp_oauth.Services.{AdminUserStore}
use kite_mcp_oauth.Handler.{Handler, State, go}
use kite_mcp_oauth.Middleware.{
  admin_mfa_cookie_name, admin_mfa_audience, admin_mfa_token_expiry, mint_admin_mfa_token,
  require_admin_mfa, is_enrolled,
}
use kite_mcp_oauth.Middleware.MfaGate.{mfa_token_passes_gate}
use kite_mcp_oauth.Handler.Mfa.{
  csrf_name, form_redirect, safe_redirect, check_admin_mfa_csrf, handle_admin_mfa_enroll,
  handle_admin_mfa_verify,
}
use kite_mcp_oauth.Handler.Mfa.Laws.{grants, Enrolled, handle_admin_mfa_enroll-Enrolled}
use kite_mcp_oauth.Handler.Mfa.Verification.{Verified, handle_admin_mfa_verify-Verified}
use kite_mcp_oauth.Examples.Writing.{write_text-ne-nil}
use kite_mcp_oauth.Examples.Tokens.{plain_jwt}
use kite_mcp_oauth.Examples.World.{World, small_library, small_handler, small_state}
use kite_mcp_oauth.Examples.Gates.{email, token_for, now_state, carrying, small-JwtLaws}

abbrev users : AdminUserStore World
users = record {
  get_role = λ w e. "admin";
  get_status = λ w e. "active";
  verify_password = λ w e p. none;
  ensure_google_user = λ e w. w;
  has_totp = λ w e. e == email;
  set_totp_secret = λ e secret w. (none, w);
  verify_totp = λ w e code. some (code == "123456");
  set_admin_email = none;
  clear_totp_secret = λ e w. (true, w);
}

abbrev mfa_handler : Handler World
mfa_handler = record small_handler { user_store = some users }

abbrev mfa_form : String → String
mfa_form k =
    if k == "csrf_token"
    then "0a"
    else if k == "code"
    then "123456"
    else if k == "secret"
    then "totp-secret"
    else "//evil.example"

abbrev mfa_post : Request
mfa_post = record (carrying csrf_name "0a") { method = "POST"; form = mfa_form }

abbrev enrolled_state : State World
enrolled_state = (handle_admin_mfa_enroll small_library mfa_handler mfa_post now_state).1

enroll_answers :
    handle_admin_mfa_enroll small_library mfa_handler mfa_post now_state
    ≡ (go (redirect "/admin/ops"), enrolled_state)
unfolding handle_admin_mfa_enroll small_library small_handler small_state check_admin_mfa_csrf
    mint_admin_mfa_token generate_token_with_expiry plain_jwt new_jwt_manager safe_redirect
enroll_answers = refl

handle_admin_mfa_enroll-Enrolled_example :
    (grants enrolled_state.cookies ≡ grants now_state.cookies)
    ⊎ Enrolled small_library mfa_handler mfa_post now_state enrolled_state
        (go (redirect "/admin/ops"))
      × (is_relative (form_redirect mfa_post) ≡ true)
handle_admin_mfa_enroll-Enrolled_example =
    handle_admin_mfa_enroll-Enrolled small_library mfa_handler mfa_post now_state enrolled_state
      (go (redirect "/admin/ops")) enroll_answers

abbrev verified_state : State World
verified_state = (handle_admin_mfa_verify small_library mfa_handler mfa_post now_state).1

verify_answers :
    handle_admin_mfa_verify small_library mfa_handler mfa_post now_state
    ≡ (go (redirect "/admin/ops"), verified_state)
unfolding handle_admin_mfa_verify is_enrolled small_library small_handler small_state
    check_admin_mfa_csrf mint_admin_mfa_token generate_token_with_expiry plain_jwt new_jwt_manager
    safe_redirect
verify_answers = refl

handle_admin_mfa_verify-Verified_example :
    (grants verified_state.cookies ≡ grants now_state.cookies)
    ⊎ Verified small_library mfa_handler mfa_post now_state verified_state
        (go (redirect "/admin/ops"))
      × (is_relative (form_redirect mfa_post) ≡ true)
handle_admin_mfa_verify-Verified_example =
    handle_admin_mfa_verify-Verified small_library mfa_handler mfa_post now_state verified_state
      (go (redirect "/admin/ops")) verify_answers

abbrev gate_request : Request
gate_request = carrying admin_mfa_cookie_name (token_for admin_mfa_audience admin_mfa_token_expiry)

mfa_token_passes_gate_example :
    require_admin_mfa small_library mfa_handler gate_request now_state ≡ next email
mfa_token_passes_gate_example =
    mfa_token_passes_gate small_library mfa_handler gate_request now_state
      (token_for admin_mfa_audience admin_mfa_token_expiry) (3 * second) small-JwtLaws
      (unfold mint_admin_mfa_token generate_token_with_expiry small_library small_handler
          new_jwt_manager plain_jwt in
        refl)
      (unfold small_library small_state plain_jwt in omega arith) (write_text-ne-nil "secret" _)
      (differ email "" refl) refl (unfold small_library in refl)
