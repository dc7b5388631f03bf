-- ===== src/Examples/Dashboard.antt =====
-- `Authorize` of handlers_oauth.go on a concrete request: a dashboard session asks for a code for a
-- client that is not registered, named "admin-mfa".
use kite_mcp_oauth.Prelude.{
  ◌*◌, String, ◌≡◌, refl, some, [], ◌∷◌, arith, ◌==◌, differ, if◌then◌else◌, lookup, insert,
  contains,
}
use kite_mcp_oauth.Time.{second}
use kite_mcp_oauth.Random.{random_hex, hex_encode}
use kite_mcp_oauth.AuthCodes.{new_auth_code_store, generate}
use kite_mcp_oauth.Clients.{
  get, is_kite_client, register_kite_client, validate_redirect_uri, make_room,
}
use kite_mcp_oauth.Jwt.{claims_for}
use kite_mcp_oauth.Http.{Request, Reply, redirect}
use kite_mcp_oauth.Handler.{State, Flow, go, stop}
use kite_mcp_oauth.Handler.Stores.{register_kite, persist}
use kite_mcp_oauth.Handler.Replies.{cookie_name, dashboard_token_expiry, code_redirect}
use kite_mcp_oauth.Handler.Authorize.{
  state_of, entry_for, dashboard_email, has_kite_token, check_request, admit_client,
}
use kite_mcp_oauth.Handler.Authorize.Issuing.{after_issue}
use kite_mcp_oauth.Handler.Authorize.Laws
use kite_mcp_oauth.Handler.Authorize.Laws.{HasSession, dashboard_email_accepts}
use kite_mcp_oauth.Examples.Writing.{write_text-ne-nil}
use kite_mcp_oauth.Examples.Tokens.{plain_jwt}
use kite_mcp_oauth.Examples.World.{
  World, small_library, small_handler, small_state, client_uri, client_url,
}
use kite_mcp_oauth.Examples.Gates.{email, token_for, now_state, taken, carrying}

abbrev pub authorize_query : String → String
authorize_query k =
    if k == "response_type"
    then "code"
    else if k == "client_id"
    then "admin-mfa"
    else if k == "redirect_uri"
    then client_uri
    else if k == "code_challenge_method"
    then "S256"
    else if k == "code_challenge"
    then "08"
    else if k == "state"
    then "xyz"
    else ""

abbrev pub authorize_request : Request
authorize_request = record (carrying cookie_name (token_for "dashboard" dashboard_token_expiry)) {
  query = authorize_query;
}

-- The state after the client was registered.
abbrev pub admitted : State World
admitted = (admit_client small_library small_handler "admin-mfa" client_uri now_state).1

admitted_world : admitted.world ≡ now_state.world
unfolding admit_client register_kite persist small_library small_handler small_state get
    is_kite_client register_kite_client lookup
admitted_world = refl

session_email : dashboard_email small_library small_handler authorize_request admitted ≡ some email
session_email =
    dashboard_email_accepts small_library small_handler authorize_request admitted
      (token_for "dashboard" dashboard_token_expiry)
      (claims_for plain_jwt email "dashboard" (3 * second) dashboard_token_expiry) refl
      (write_text-ne-nil "secret" _)
      (rw admitted_world (
        taken "dashboard" dashboard_token_expiry ("dashboard" ∷ [])
          (unfold plain_jwt in omega arith) refl))
      (differ email "" refl)

pub authorize_request_passes :
    check_request small_library small_handler authorize_request now_state ≡ (go tt, now_state)
unfolding check_request small_library
authorize_request_passes = refl

pub authorize_request-HasSession :
    HasSession small_library small_handler authorize_request admitted email "07" client_url
unfolding admit_client register_kite persist small_library small_handler small_state get
    is_kite_client register_kite_client validate_redirect_uri has_kite_token generate random_hex
    hex_encode insert lookup contains make_room new_auth_code_store
authorize_request-HasSession = record {
  allowed = refl;
  session = session_email;
  usable = refl;
  parses = refl;
  drawn = refl;
}

abbrev answer : Flow Reply
answer = stop (redirect (code_redirect small_library "07" (state_of authorize_request) client_url))

abbrev after : State World
after =
    after_issue small_library small_handler (entry_for (state_of authorize_request) email "")
      admitted
