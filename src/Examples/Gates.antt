-- ===== src/Examples/Gates.antt =====
-- Tokens of jwt.go, and the gates of middleware.go and handlers_admin_mfa.go, on concrete requests.
use kite_mcp_oauth.Prelude.{
  ℕ, ◌+◌, ◌*◌, ◌<◌, String, ◌≡◌, ◌≢◌, refl, true, false, ◌⊎◌, none, some, List, [], ◌∷◌, contains,
  arith, ◌==◌, ◌<>◌, starts_with, trim_prefix, differ, if◌then◌else◌,
}
use kite_mcp_oauth.Time.{second}
use kite_mcp_oauth.Jwt.{
  Claims, JwtManager, claims_for, generate_token, generate_token_with_expiry, validate_token,
  new_jwt_manager, set_previous_secret, parse_with_key, with_audience,
}
use kite_mcp_oauth.Jwt.Laws.{
  validate_token-generate_token, rotation_keeps_sessions, validate_token_first_audience,
  validate_token-sign, JwtLaws, IsFor,
}
use kite_mcp_oauth.Http.{Request, next, redirect}
use kite_mcp_oauth.Handler.{State}
use kite_mcp_oauth.Handler.Replies.{cookie_name, dashboard_token_expiry}
use kite_mcp_oauth.Middleware.{
  bearer, kite_token_expired, require_auth, require_auth_browser, return_path, mint_admin_mfa_token,
  admin_mfa_audience, admin_mfa_cookie_name, admin_mfa_token_expiry, require_admin_mfa,
  is_dashboard_only, bearer_claims,
}
use kite_mcp_oauth.Middleware.Laws.{
  require_auth-eq-next, require_auth_accepts, require_auth_browser-eq-next,
  require_auth_browser_decides, require_auth_browser_accepts, mfa_token_is_bearer, Presents,
}
use kite_mcp_oauth.Middleware.MfaGate.{require_admin_mfa-eq-next, require_admin_mfa_accepts}
use kite_mcp_oauth.Examples.Writing.{read_text, write_text, write_text-ne-nil}
use kite_mcp_oauth.Examples.Tokens.{plain_jwt, plain_jwt-JwtLaws, signed_text}
use kite_mcp_oauth.Examples.World.{
  World, small_library, small_handler, small_state, token_life, blank,
}

abbrev pub email : String
email = "trader@example.com"

abbrev manager : JwtManager
manager = record { secret = "secret"; previous_secret = ""; token_expiry = token_life }

-- A token that was signed at second 3.
abbrev pub token_for : String → ℕ → String
token_for client_id expiry =
    signed_text "secret" (claims_for plain_jwt email client_id (3 * second) expiry)

validate_token-generate_token_example :
    (t : String) × (generate_token plain_jwt manager (3 * second) email "mcp-client" ≡ some t)
    × (validate_token plain_jwt manager (5 * second) t []
        ≡ some (claims_for plain_jwt email "mcp-client" (3 * second) token_life))
validate_token-generate_token_example =
    validate_token-generate_token plain_jwt plain_jwt-JwtLaws manager (5 * second) (3 * second)
      email "mcp-client" [] (unfold plain_jwt in omega arith) tt

validate_token_first_audience_example :
    validate_token plain_jwt manager
      (5 * second)
      (token_for "mcp-client" token_life)
      ("dashboard" ∷ "mcp-client" ∷ [])
    ≡ validate_token plain_jwt manager
        (5 * second)
        (token_for "mcp-client" token_life)
        ("dashboard" ∷ [])
validate_token_first_audience_example =
    validate_token_first_audience plain_jwt plain_jwt-JwtLaws manager (5 * second)
      (token_for "mcp-client" token_life) "dashboard" ("mcp-client" ∷ [])

rotated_key_refuses :
    parse_with_key plain_jwt
      (5 * second)
      (token_for "mcp-client" token_life)
      "fresh"
      (with_audience [])
    ≡ none
unfolding parse_with_key with_audience plain_jwt read_text write_text
rotated_key_refuses = refl

abbrev rotated : JwtManager
rotated = set_previous_secret "secret" (new_jwt_manager "fresh" token_life)

rotation_keeps_sessions_example :
    (validate_token plain_jwt rotated (5 * second) (token_for "mcp-client" token_life) []
      ≡ some (claims_for plain_jwt email "mcp-client" (3 * second) token_life))
    × (validate_token plain_jwt
          (set_previous_secret "" rotated)
          (5 * second)
          (token_for "mcp-client" token_life)
          []
        ≡ none)
rotation_keeps_sessions_example =
    rotation_keeps_sessions plain_jwt plain_jwt-JwtLaws manager "fresh" email "mcp-client"
      (token_for "mcp-client" token_life) (5 * second) (3 * second) token_life []
      (differ "secret" "" refl) (unfold generate_token_with_expiry plain_jwt in refl)
      rotated_key_refuses (unfold plain_jwt in omega arith) tt

-- The state at second 5.
abbrev pub now_state : State World
now_state = small_state (5 * second)

-- The handler takes a token of second 3 for what it was signed for.
pub taken :
    (client_id : String) (expiry : ℕ) (audiences : List String)
    → 5 * second < plain_jwt.new_numeric_date (3 * second + expiry)
    → IsFor client_id audiences
    → validate_token small_library.jwt small_handler.jwt
        (small_library.now now_state.world)
        (token_for client_id expiry)
        audiences
      ≡ some (claims_for plain_jwt email client_id (3 * second) expiry)
unfolding small_library small_handler small_state new_jwt_manager
taken client_id expiry audiences l w =
    validate_token-sign plain_jwt plain_jwt-JwtLaws manager (5 * second) (3 * second) expiry email
      client_id (token_for client_id expiry) audiences (unfold plain_jwt in refl) l w

pub small-JwtLaws : JwtLaws small_library.jwt
unfolding small_library
small-JwtLaws = plain_jwt-JwtLaws

pub fresh : kite_token_expired small_library small_handler email now_state ≡ false
unfolding kite_token_expired small_library small_handler small_state
fresh = refl

abbrev pub bearing : String → Request
bearing token = record blank { header = λ k. if k == "Authorization" then bearer <> token else "" }

abbrev pub carrying : String → String → Request
carrying name token = record blank {
  cookie = λ k. if k == name then some token else none;
  context_email = email;
}

bearing_is_let_through :
    require_auth small_library small_handler (bearing (token_for "mcp-client" token_life)) now_state
    ≡ next email
bearing_is_let_through =
    require_auth_accepts small_library small_handler (bearing (token_for "mcp-client" token_life))
      now_state (token_for "mcp-client" token_life)
      (claims_for plain_jwt email "mcp-client" (3 * second) token_life)
      (differ "GET" "OPTIONS" refl) refl
      (taken "mcp-client" token_life [] (unfold plain_jwt in omega arith) tt)
      (unfold is_dashboard_only in refl) fresh

require_auth-eq-next_example :
    (claims : Claims) × (starts_with (bearer <> token_for "mcp-client" token_life) bearer ≡ true)
    × (validate_token small_library.jwt small_handler.jwt
          (small_library.now now_state.world)
          (trim_prefix (bearer <> token_for "mcp-client" token_life) bearer)
          []
        ≡ some claims)
    × (claims.subject ≡ email)
    × (claims.audience ≢ "dashboard" ∷ [])
    × (kite_token_expired small_library small_handler email now_state ≡ false)
require_auth-eq-next_example =
    require_auth-eq-next small_library small_handler (bearing (token_for "mcp-client" token_life))
      now_state email bearing_is_let_through

mfa_token_is_bearer_example :
    require_auth small_library small_handler
      (bearing (token_for admin_mfa_audience admin_mfa_token_expiry))
      now_state
    ≡ next email
mfa_token_is_bearer_example =
    mfa_token_is_bearer small_library small_handler
      (bearing (token_for admin_mfa_audience admin_mfa_token_expiry)) now_state email
      (token_for admin_mfa_audience admin_mfa_token_expiry) (3 * second) small-JwtLaws
      (unfold mint_admin_mfa_token generate_token_with_expiry small_library small_handler
          new_jwt_manager plain_jwt in
        refl)
      (unfold small_library small_state plain_jwt in omega arith) (differ "GET" "OPTIONS" refl) refl
      fresh

abbrev dashboard_request : Request
dashboard_request = carrying cookie_name (token_for "dashboard" dashboard_token_expiry)

dashboard_session_is_let_through :
    require_auth_browser small_library small_handler dashboard_request now_state ≡ next email
dashboard_session_is_let_through =
    require_auth_browser_accepts small_library small_handler dashboard_request now_state
      (token_for "dashboard" dashboard_token_expiry)
      (claims_for plain_jwt email "dashboard" (3 * second) dashboard_token_expiry)
      (write_text-ne-nil "secret" _) (unfold bearer_claims in refl) refl
      (taken "dashboard" dashboard_token_expiry ("dashboard" ∷ []) (unfold plain_jwt in omega arith)
        refl)

require_auth_browser-eq-next_example :
    (c : Claims) × Presents small_library small_handler dashboard_request now_state c
    × (c.subject ≡ email)
    × (contains c.audience "dashboard" ≡ true)
require_auth_browser-eq-next_example =
    require_auth_browser-eq-next small_library small_handler dashboard_request now_state email
      small-JwtLaws dashboard_session_is_let_through

require_auth_browser_decides_example :
    ((c : Claims) × Presents small_library small_handler dashboard_request now_state c
      × (require_auth_browser small_library small_handler dashboard_request now_state
          ≡ next c.subject))
    ⊎ (¬ ((c : Claims) × Presents small_library small_handler dashboard_request now_state c))
      × (require_auth_browser small_library small_handler dashboard_request now_state
          ≡ redirect (
              small_handler.config.external_url
              <> ("/auth/login?redirect="
                  <> small_library.query_escape
                      (return_path small_library small_handler dashboard_request))))
require_auth_browser_decides_example =
    require_auth_browser_decides small_library small_handler dashboard_request now_state

abbrev mfa_request : Request
mfa_request = carrying admin_mfa_cookie_name (token_for admin_mfa_audience admin_mfa_token_expiry)

mfa_request_is_let_through :
    require_admin_mfa small_library small_handler mfa_request now_state ≡ next email
mfa_request_is_let_through =
    require_admin_mfa_accepts small_library small_handler mfa_request now_state
      (token_for admin_mfa_audience admin_mfa_token_expiry)
      (claims_for plain_jwt email admin_mfa_audience (3 * second) admin_mfa_token_expiry)
      (write_text-ne-nil "secret" _) (differ email "" refl) refl
      (taken admin_mfa_audience admin_mfa_token_expiry (admin_mfa_audience ∷ [])
        (unfold plain_jwt in omega arith) refl)
      (unfold small_library in refl)

require_admin_mfa-eq-next_example :
    (t : String) × (c : Claims) × (mfa_request.cookie admin_mfa_cookie_name ≡ some t)
    × (validate_token small_library.jwt small_handler.jwt
          (small_library.now now_state.world)
          t
          (admin_mfa_audience ∷ [])
        ≡ some c)
    × (contains c.audience admin_mfa_audience ≡ true)
    × (small_library.equal_fold c.subject email ≡ true)
    × (email ≡ mfa_request.context_email)
    × (email ≢ "")
require_admin_mfa-eq-next_example =
    require_admin_mfa-eq-next small_library small_handler mfa_request now_state email small-JwtLaws
      mfa_request_is_let_through
