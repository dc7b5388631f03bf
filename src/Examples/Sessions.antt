-- ===== src/Examples/Sessions.antt =====
-- An administrator who logs in with a password, and what the token of the session's cookie opens.
use kite_mcp_oauth.Prelude.{◌+◌, ◌*◌, ◌<◌, String, ◌≡◌, refl, true, some, arith, differ}
use kite_mcp_oauth.Time.{second}
use kite_mcp_oauth.Jwt.{claims_for, generate_token_with_expiry, new_jwt_manager}
use kite_mcp_oauth.Http.{redirect, next}
use kite_mcp_oauth.Handler.{State, go}
use kite_mcp_oauth.Handler.Cookies.{sets, held}
use kite_mcp_oauth.Handler.Replies.{cookie_name, dashboard_token_expiry, set_auth_cookie_or_fail}
use kite_mcp_oauth.Handler.AdminLogin.{
  login_email, login_target, has_admin_csrf, may_log_in, handle_admin_login,
}
use kite_mcp_oauth.Middleware.{invalid_token, require_auth, require_auth_browser}
use kite_mcp_oauth.Flows.Dashboard.{by_password, dashboard_cookie_scope}
use kite_mcp_oauth.Examples.Writing.{write_text-ne-nil}
use kite_mcp_oauth.Examples.Tokens.{plain_jwt, signed_text}
use kite_mcp_oauth.Examples.World.{World, small_library, small_handler, small_state}
use kite_mcp_oauth.Examples.Gates.{now_state, small-JwtLaws, bearing, carrying}
use kite_mcp_oauth.Examples.Administration.{
  staff_handler, login_request, logged_in_state, login_answers,
}

abbrev session_token : String
session_token =
    signed_text "secret"
      (claims_for plain_jwt "admin@example.com" "dashboard" (5 * second) dashboard_token_expiry)

abbrev next_state : State World
next_state = small_state (20 * second)

session_kept : held cookie_name logged_in_state.cookies ≡ some session_token
unfolding handle_admin_login may_log_in login_target has_admin_csrf set_auth_cookie_or_fail
    small_library small_handler small_state generate_token_with_expiry plain_jwt new_jwt_manager
session_kept = refl

session_set : sets cookie_name logged_in_state.cookies ≡ true
unfolding handle_admin_login may_log_in login_target has_admin_csrf set_auth_cookie_or_fail
    small_library small_handler small_state generate_token_with_expiry plain_jwt new_jwt_manager
session_set = refl

live :
    small_library.now next_state.world
    < small_library.jwt.new_numeric_date
        (small_library.now logged_in_state.world + dashboard_token_expiry)
unfolding handle_admin_login may_log_in login_target has_admin_csrf set_auth_cookie_or_fail
    small_library small_handler small_state generate_token_with_expiry plain_jwt new_jwt_manager
live = omega arith

dashboard_cookie_scope_example :
    (require_auth_browser small_library staff_handler
        (carrying cookie_name session_token)
        next_state
      ≡ next (login_email small_library staff_handler login_request))
    × (require_auth small_library staff_handler (bearing session_token) next_state
        ≡ invalid_token small_library staff_handler)
dashboard_cookie_scope_example =
    dashboard_cookie_scope small_library staff_handler now_state logged_in_state
      (login_email small_library staff_handler login_request) session_token
      (carrying cookie_name session_token) (bearing session_token) next_state small-JwtLaws
      (by_password login_request (go (redirect "/admin/ops")) login_answers
        (unfold small_state in refl) session_set)
      session_kept (write_text-ne-nil "secret" _) live refl refl (differ "GET" "OPTIONS" refl) refl
