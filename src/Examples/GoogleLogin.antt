-- ===== src/Examples/GoogleLogin.antt =====
-- The callback of Google in google_sso.go on a concrete request.
use kite_mcp_oauth.Prelude.{String, ◌≡◌, refl, true, none, some, ◌==◌, split_once, if◌then◌else◌}
use kite_mcp_oauth.Jwt.{generate_token_with_expiry, new_jwt_manager}
use kite_mcp_oauth.Http.{Request, redirect}
use kite_mcp_oauth.Services.{AdminUserStore, GoogleSsoConfig}
use kite_mcp_oauth.Handler.{Handler, State, go}
use kite_mcp_oauth.Handler.Replies.{set_auth_cookie_or_fail}
use kite_mcp_oauth.Handler.Google.{
  google_state_cookie_name, state_cookie_value, verified_email, fetch_google_user_info,
  user_info_url, check_state, google_email, admit_account, link_to, google_target,
  handle_google_callback,
}
use kite_mcp_oauth.Handler.EmailLookup.{find_app}
use kite_mcp_oauth.Handler.Google.Session.{GoogleSignedIn, handle_google_callback-eq-go}
use kite_mcp_oauth.Examples.Tokens.{plain_jwt}
use kite_mcp_oauth.Examples.World.{World, small_library, small_handler, small_state}
use kite_mcp_oauth.Examples.Gates.{now_state, carrying}

abbrev accounts : AdminUserStore World
accounts = record {
  get_role = λ w e. "trader";
  get_status = λ w e. "active";
  verify_password = λ w e p. none;
  ensure_google_user = λ e w. w;
  has_totp = λ w e. true;
  set_totp_secret = λ e secret w. (none, w);
  verify_totp = λ w e code. none;
  set_admin_email = none;
  clear_totp_secret = λ e w. (true, w);
}

abbrev pub sso : GoogleSsoConfig
sso = record {
  client_id = "google-client";
  client_secret = "google-secret";
  redirect_url = "https://mcp.example/auth/google/callback";
  endpoint = "";
  user_info_url = "";
}

abbrev pub google_handler : Handler World
google_handler = record small_handler { google_sso = some sso; user_store = some accounts }

abbrev google_query : String → String
google_query k = if k == "state" then "0a0b" else if k == "code" then "google-code" else ""

abbrev google_request : Request
google_request = record (carrying google_state_cookie_name "0a0b|/dashboard") {
  query = google_query;
}

abbrev google_state : State World
google_state = (handle_google_callback small_library google_handler google_request now_state).1

google_answers :
    handle_google_callback small_library google_handler google_request now_state
    ≡ (go (redirect "/dashboard"), google_state)
unfolding handle_google_callback check_state state_cookie_value verified_email
    fetch_google_user_info user_info_url google_email admit_account link_to find_app split_once
    google_target set_auth_cookie_or_fail small_library small_handler small_state
    generate_token_with_expiry plain_jwt new_jwt_manager
google_answers = refl

handle_google_callback-eq-go_example :
    GoogleSignedIn small_library google_handler google_request now_state google_state
      (redirect "/dashboard")
handle_google_callback-eq-go_example =
    handle_google_callback-eq-go small_library google_handler google_request now_state google_state
      (redirect "/dashboard") google_answers
