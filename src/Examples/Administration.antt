-- ===== src/Examples/Administration.antt =====
-- The login of an administrator of handlers_admin.go, and the browser's callback of
-- handlers_browser.go, on concrete requests.
use kite_mcp_oauth.Prelude.{
  String, ◌≡◌, refl, true, ◌⊎◌, none, some, ◌==◌, is_relative, if◌then◌else◌,
}
use kite_mcp_oauth.Jwt.{generate_token_with_expiry, new_jwt_manager}
use kite_mcp_oauth.Http.{Request, redirect}
use kite_mcp_oauth.Services.{AdminUserStore}
use kite_mcp_oauth.Handler.{Handler, State, go}
use kite_mcp_oauth.Handler.Replies.{cookie_name, set_auth_cookie_or_fail}
use kite_mcp_oauth.Handler.Cookies.{sets}
use kite_mcp_oauth.Handler.AdminLogin.{login_target, has_admin_csrf, may_log_in, handle_admin_login}
use kite_mcp_oauth.Handler.AdminLogin.Laws.{LoggedIn, handle_admin_login-LoggedIn}
use kite_mcp_oauth.Prelude.{split_once}
use kite_mcp_oauth.Services.{KiteExchanger}
use kite_mcp_oauth.Handler.Browser.{read_target, exchange_for, handle_browser_auth_callback}
use kite_mcp_oauth.Handler.Browser.Laws.{SignedIn, handle_browser_auth_callback-eq-go}
use kite_mcp_oauth.Examples.Tokens.{plain_jwt}
use kite_mcp_oauth.Examples.World.{World, small_library, small_handler, small_state, blank}
use kite_mcp_oauth.Examples.Gates.{now_state, carrying}

abbrev staff : AdminUserStore World
staff = record {
  get_role = λ w e. if e == "admin@example.com" then "admin" else "trader";
  get_status = λ w e. "active";
  verify_password = λ w e p. some (p == "hunter2");
  ensure_google_user = λ e w. w;
  has_totp = λ w e. true;
  set_totp_secret = λ e secret w. (none, w);
  verify_totp = λ w e code. none;
  set_admin_email = none;
  clear_totp_secret = λ e w. (true, w);
}

abbrev pub staff_handler : Handler World
staff_handler = record small_handler { user_store = some staff }

abbrev login_form : String → String
login_form k =
    if k == "email"
    then "admin@example.com"
    else if k == "password"
    then "hunter2"
    else if k == "csrf_token"
    then "0a"
    else "//evil.example"

abbrev pub login_request : Request
login_request = record (carrying "csrf_token_admin" "0a") { method = "POST"; form = login_form }

abbrev pub logged_in_state : State World
logged_in_state = (handle_admin_login small_library staff_handler login_request now_state).1

pub login_answers :
    handle_admin_login small_library staff_handler login_request now_state
    ≡ (go (redirect "/admin/ops"), logged_in_state)
unfolding handle_admin_login may_log_in login_target has_admin_csrf set_auth_cookie_or_fail
    small_library small_handler small_state generate_token_with_expiry plain_jwt new_jwt_manager
login_answers = refl

handle_admin_login-LoggedIn_example :
    (sets cookie_name logged_in_state.cookies ≡ sets cookie_name now_state.cookies)
    ⊎ LoggedIn small_library staff_handler login_request now_state logged_in_state
        (go (redirect "/admin/ops"))
      × (is_relative (login_target login_request) ≡ true)
handle_admin_login-LoggedIn_example =
    handle_admin_login-LoggedIn small_library staff_handler login_request now_state logged_in_state
      (go (redirect "/admin/ops")) login_answers

-- A browser comes back from Kite, for an email with stored credentials.
abbrev keeping : KiteExchanger World
keeping = record small_handler.exchanger {
  get_credentials =
      λ w e. if e == "trader@example.com" then some ("api-key", "api-secret") else none;
  exchange_with_credentials = λ t key secret w. (some "trader@example.com", w);
}

abbrev pub keeping_handler : Handler World
keeping_handler = record small_handler { exchanger = keeping }

abbrev pub browser_request : Request
browser_request = record blank {
  query = λ k. if k == "target" then "trader@example.com::/portfolio" else "";
}

abbrev signed_in_state : State World
signed_in_state =
    (handle_browser_auth_callback small_library keeping_handler browser_request "token" now_state).1

browser_answers :
    handle_browser_auth_callback small_library keeping_handler browser_request "token" now_state
    ≡ (go (redirect "/portfolio"), signed_in_state)
unfolding handle_browser_auth_callback read_target exchange_for split_once set_auth_cookie_or_fail
    small_library small_handler small_state generate_token_with_expiry plain_jwt new_jwt_manager
browser_answers = refl

handle_browser_auth_callback-eq-go_example :
    SignedIn small_library keeping_handler browser_request "token" now_state signed_in_state
      (redirect "/portfolio")
handle_browser_auth_callback-eq-go_example =
    handle_browser_auth_callback-eq-go small_library keeping_handler browser_request "token"
      now_state signed_in_state (redirect "/portfolio") browser_answers
