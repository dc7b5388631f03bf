-- ===== src/Examples/GoogleState.antt =====
-- A login with Google that is sent to Google and comes back with the state of its cookie.
use kite_mcp_oauth.Prelude.{
  ◌≡◌, refl, true, false, ◌⊎◌, some, [], ◌∷◌, ◌++◌, ◌==◌, differ, is_relative, split_once,
  if◌then◌else◌,
}
use kite_mcp_oauth.Random.{hex_encode}
use kite_mcp_oauth.Http.{Request, Reply, redirect}
use kite_mcp_oauth.Http.CookieValue.{is_cookie_char, sanitize_cookie_value}
use kite_mcp_oauth.Services.{GoogleSsoConfig}
use kite_mcp_oauth.Handler.{State, go}
use kite_mcp_oauth.Handler.Mfa.{safe_redirect}
use kite_mcp_oauth.Handler.Google.{
  google_state_cookie_name, cleared_state_cookie, google_target, handle_google_login, check_state,
  oauth_config,
}
use kite_mcp_oauth.Handler.Google.StateCookie.{google_login_returns}
use kite_mcp_oauth.Examples.World.{World, small_library, small_handler, small_state, blank}
use kite_mcp_oauth.Examples.Gates.{now_state, carrying}
use kite_mcp_oauth.Examples.GoogleLogin.{google_handler}

abbrev leaving : Request
leaving = record blank { query = λ k. if k == "redirect" then "/portfolio;today" else "" }

abbrev sent_state : State World
sent_state = (handle_google_login small_library google_handler leaving now_state).1

abbrev to_google : Reply
to_google = redirect "07"

login_answers :
    handle_google_login small_library google_handler leaving now_state ≡ (go to_google, sent_state)
unfolding handle_google_login small_library small_handler small_state safe_redirect hex_encode
    sanitize_cookie_value is_cookie_char
login_answers = refl

abbrev coming_back : Request
coming_back = record (carrying google_state_cookie_name "07|/portfoliotoday") {
  query = λ k. if k == "state" then "07" else if k == "code" then "google-code" else "";
}

google_login_returns_example :
    let target = sanitize_cookie_value (safe_redirect "/portfolio;today" "/dashboard") in
    ((sso : GoogleSsoConfig) × (google_handler.google_sso ≡ some sso)
      × (to_google
          ≡ redirect (
              small_library.auth_code_url
                (oauth_config small_library sso)
                (small_library.url_encode_bytes (7 ∷ [])))))
    × (check_state small_library google_handler coming_back now_state ≡ (
      go target,
      record now_state { cookies = now_state.cookies ++ cleared_state_cookie ∷ [] },
    ))
    × ((google_target "admin" target ≡ target) ⊎ (is_relative target ≡ false))
    × (is_relative (google_target "admin" target) ≡ true)
google_login_returns_example =
    google_login_returns small_library google_handler leaving coming_back now_state sent_state
      now_state to_google (7 ∷ []) "admin" (unfold small_library hex_encode split_once in refl)
      (unfold small_library hex_encode sanitize_cookie_value is_cookie_char in refl) login_answers
      (unfold small_library small_state in refl)
      (unfold handle_google_login small_library small_handler small_state safe_redirect hex_encode
          sanitize_cookie_value is_cookie_char in
        refl)
      (unfold small_library hex_encode in refl) refl (differ "google-code" "" refl)
