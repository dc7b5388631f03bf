-- ===== src/Examples/Grants.antt =====
-- `Token` of handlers_oauth.go and the callback of handlers_callback.go on concrete requests, and the
-- flow from the session of the dashboard to the gates.
use kite_mcp_oauth.Prelude.{
  ◌+◌, ◌*◌, ◌<◌, String, ◌≡◌, refl, ap, inl, some, [], ◌∷◌, arith, subst, ◌==◌, differ,
  if◌then◌else◌, lookup, insert, delete, delete_if,
}
use kite_mcp_oauth.Time.{second}
use kite_mcp_oauth.Random.{random_hex, hex_encode}
use kite_mcp_oauth.AuthCodes.{
  new_auth_code_store, AuthCodeEntry, generate, consume, stamp, cleanup_tick, is_expired,
}
use kite_mcp_oauth.AuthCodes.Capacity.{IsBounded, new_auth_code_store-IsBounded, generate-IsBounded}
use kite_mcp_oauth.AuthCodes.Schedule.{ticks, run, step, run-IsBounded}
use kite_mcp_oauth.Clients.{
  ClientEntry, kite_client, get, is_kite_client, register_kite_client, make_room,
}
use kite_mcp_oauth.Jwt.{claims_for, generate_token, new_jwt_manager}
use kite_mcp_oauth.Http.{Request, next}
use kite_mcp_oauth.Handler.{State, go}
use kite_mcp_oauth.Handler.Stores.{register_kite, persist}
use kite_mcp_oauth.Handler.Authorize.{state_of, entry_for, admit_client}
use kite_mcp_oauth.Handler.Authorize.Issuing.{issued_codes}
use kite_mcp_oauth.Handler.Token.{token, token_reply}
use kite_mcp_oauth.Handler.Token.Inversion.{Grant, token-eq-go}
use kite_mcp_oauth.Handler.Token.Laws.{MayRedeem, token_once, token_succeeds}
use kite_mcp_oauth.Middleware.{
  kite_token_expired, require_auth, require_admin_mfa, admin_mfa_cookie_name,
}
use kite_mcp_oauth.Flows.{Session, issue_time, session_reaches_mcp, session_passes_mfa_gate}
use kite_mcp_oauth.Examples.Writing.{write_text-ne-nil}
use kite_mcp_oauth.Examples.Tokens.{plain_jwt, signed_text}
use kite_mcp_oauth.Examples.World.{
  World, small_library, small_handler, small_state, token_life, blank, client_uri, client_url,
}
use kite_mcp_oauth.Examples.Dashboard.{
  authorize_request, admitted, authorize_request_passes, authorize_request-HasSession,
}
use kite_mcp_oauth.Examples.Gates.{email, now_state, small-JwtLaws, bearing, carrying}

abbrev token_form : String → String
token_form k =
    if k == "grant_type"
    then "authorization_code"
    else if k == "code"
    then "07"
    else if k == "code_verifier"
    then "verifier"
    else if k == "client_id"
    then "admin-mfa"
    else ""

abbrev token_request : Request
token_request = record blank { method = "POST"; form = token_form }

-- The state at second 10, after the code was issued and a cleanup at second 9.
abbrev later_state : State World
later_state = record admitted {
  auth_codes = run (ticks (9 * second) ∷ []) (
      issued_codes small_library small_handler (entry_for (state_of authorize_request) email "")
        admitted);
  world = record { clock = 10 * second; draws = 8; saved_rows = [] };
}

abbrev access_token : String
access_token =
    signed_text "secret" (claims_for plain_jwt email "admin-mfa" (10 * second) token_life)

abbrev client : ClientEntry
client = kite_client "admin-mfa" (client_uri ∷ []) (5 * second)

abbrev code_entry : AuthCodeEntry
code_entry = stamp (5 * second) (entry_for (state_of authorize_request) email "")

token_request-MayRedeem :
    MayRedeem small_library small_handler token_request later_state client code_entry
unfolding admit_client register_kite persist small_library small_handler small_state get
    is_kite_client register_kite_client generate random_hex hex_encode insert lookup make_room
    new_auth_code_store consume run cleanup_tick delete delete_if is_expired step
token_request-MayRedeem = record {
  posted = refl;
  parses = refl;
  granted = refl;
  code_given = differ "07" "" refl;
  verifier_given = differ "verifier" "" refl;
  client_given = differ "admin-mfa" "" refl;
  registered = refl;
  authenticated = inl refl;
  redeemed = refl;
  same_client = refl;
  verified = refl;
  identified = differ email "" refl;
}

token_succeeds_example :
    (access_token : String) × (generate_token small_library.jwt small_handler.jwt
        (small_library.now later_state.world)
        email
        "admin-mfa"
      ≡ some access_token)
    × (token small_library small_handler token_request later_state ≡ (
      go (token_reply small_library small_handler access_token),
      record later_state {
        auth_codes = (consume "07" (small_library.now later_state.world) later_state.auth_codes).1;
      },
    ))
token_succeeds_example =
    token_succeeds small_library small_handler token_request later_state client code_entry
      token_request-MayRedeem small-JwtLaws

abbrev consumed : State World
consumed = record later_state {
  auth_codes = (consume "07" (small_library.now later_state.world) later_state.auth_codes).1;
}

signed_once :
    (t : String)
    → generate_token small_library.jwt small_handler.jwt
        (small_library.now later_state.world)
        email
        "admin-mfa"
      ≡ some t
    → t ≡ access_token
unfolding generate_token small_library small_handler new_jwt_manager plain_jwt
signed_once t e = cc e

token_answers :
    token small_library small_handler token_request later_state
    ≡ (go (token_reply small_library small_handler access_token), consumed)
token_answers =
    let (issued, signed, answered) =
      token_succeeds small_library small_handler token_request later_state client code_entry
        token_request-MayRedeem small-JwtLaws in
    subst
      (λ t.
        token small_library small_handler token_request later_state
        ≡ (go (token_reply small_library small_handler t), consumed))
      (signed_once issued signed) answered

token-eq-go_example :
    Grant small_library small_handler token_request later_state consumed
      (token_reply small_library small_handler access_token)
token-eq-go_example =
    token-eq-go small_library small_handler token_request later_state consumed
      (token_reply small_library small_handler access_token) token_answers

admitted-IsBounded : IsBounded admitted.auth_codes
unfolding admit_client register_kite persist small_library small_handler small_state get
    is_kite_client register_kite_client lookup new_auth_code_store
admitted-IsBounded = new_auth_code_store-IsBounded

later_state-IsBounded : IsBounded later_state.auth_codes
later_state-IsBounded =
    run-IsBounded (ticks (9 * second) ∷ []) _
      (generate-IsBounded _ _ _ admitted.auth_codes admitted-IsBounded)

token_once_example : ¬ (
    token small_library small_handler token_request consumed
    ≡ (go (token_reply small_library small_handler access_token), consumed))
token_once_example =
    token_once small_library small_handler token_request token_request later_state consumed consumed
      consumed (token_reply small_library small_handler access_token)
      (token_reply small_library small_handler access_token) [] later_state-IsBounded token_answers
      tt (unfold run in refl) refl

issued_at : issue_time small_library small_handler admitted ≡ 5 * second
unfolding admit_client register_kite persist small_library small_handler small_state get
    is_kite_client register_kite_client lookup random_hex
issued_at = refl

admin_flow :
    Session small_library small_handler authorize_request token_request now_state later_state email
      "07" client_url client
      (ticks (9 * second) ∷ [])
unfolding small_library small_state random_hex
admin_flow = record {
  passes = authorize_request_passes;
  bounded = new_auth_code_store-IsBounded;
  live = authorize_request-HasSession;
  spared = (omega (arith, issued_at), tt);
  between = refl;
  in_time = omega (arith, issued_at);
  posted = refl;
  parses = refl;
  granted = refl;
  code_given = differ "07" "" refl;
  verifier_given = differ "verifier" "" refl;
  client_given = differ "admin-mfa" "" refl;
  same_code = refl;
  same_client = refl;
  verified = token_request-MayRedeem.verified;
  registered = token_request-MayRedeem.registered;
  authenticated = inl refl;
  identified = differ email "" refl;
}

-- The request of the MCP client, and the one of an administrator, at second 20.
abbrev mcp_request : Request
mcp_request = bearing access_token

abbrev admin_request : Request
admin_request = carrying admin_mfa_cookie_name access_token

abbrev last_state : State World
last_state = small_state (20 * second)

live :
    small_library.now last_state.world
    < small_library.jwt.new_numeric_date
        (small_library.now later_state.world + small_handler.jwt.token_expiry)
unfolding small_library small_handler small_state plain_jwt new_jwt_manager
live = omega arith

session_reaches_mcp_example :
    require_auth small_library small_handler mcp_request last_state ≡ next email
session_reaches_mcp_example =
    session_reaches_mcp small_library small_handler authorize_request token_request now_state
      later_state email "07" client_url client (ticks (9 * second) ∷ []) admin_flow access_token
      mcp_request last_state small-JwtLaws (ap (λ p. p.0) token_answers) live
      (differ "GET" "OPTIONS" refl) refl (differ "admin-mfa" "dashboard" refl)
      (unfold kite_token_expired small_library small_handler small_state in refl)

session_passes_mfa_gate_example :
    require_admin_mfa small_library small_handler admin_request last_state ≡ next email
session_passes_mfa_gate_example =
    session_passes_mfa_gate small_library small_handler authorize_request token_request now_state
      later_state email "07" client_url client (ticks (9 * second) ∷ []) admin_flow access_token
      admin_request last_state small-JwtLaws (ap (λ p. p.0) token_answers) live
      (write_text-ne-nil "secret" _) refl refl refl (unfold small_library in refl)
