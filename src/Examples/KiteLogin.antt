-- ===== src/Examples/KiteLogin.antt =====
-- A login at Kite from the signed state to the access token, for a client with a secret.
use kite_mcp_oauth.Prelude.{
  ◌*◌, String, ◌≡◌, refl, inl, [], ◌==◌, if◌then◌else◌, lookup, insert, delete,
}
use kite_mcp_oauth.Time.{second}
use kite_mcp_oauth.Random.{random_hex, hex_encode}
use kite_mcp_oauth.AuthCodes.{new_auth_code_store, generate, consume}
use kite_mcp_oauth.AuthCodes.Capacity.{new_auth_code_store-IsBounded}
use kite_mcp_oauth.AuthCodes.Schedule.{run}
use kite_mcp_oauth.Clients.{get, is_kite_client}
use kite_mcp_oauth.Jwt.{claims_for, generate_token, generate_token_with_expiry, new_jwt_manager}
use kite_mcp_oauth.Http.{Request, Reply, redirect}
use kite_mcp_oauth.Handler.{State, go}
use kite_mcp_oauth.Handler.Stores.{generate_code}
use kite_mcp_oauth.Handler.Replies.{code_redirect, set_auth_cookie}
use kite_mcp_oauth.Handler.Callback.{handle_kite_oauth_callback, recover_callback_state, issue_code}
use kite_mcp_oauth.Handler.Callback.Issuing.{configured}
use kite_mcp_oauth.Handler.Callback.Laws.{Completed}
use kite_mcp_oauth.Handler.Token.{check_form, authenticate_client, redeem, token, token_reply}
use kite_mcp_oauth.Flows.KiteLogin.{LoginToken, access_is_for_kite_user}
use kite_mcp_oauth.Examples.Writing.{write_text, read_text}
use kite_mcp_oauth.Examples.Tokens.{plain_jwt, signed_text}
use kite_mcp_oauth.Examples.World.{
  World, small_library, small_handler, small_state, token_life, blank, client_state, client_url,
}
use kite_mcp_oauth.Examples.States.{
  state_library, state_handler, state_library-StateLaws, read_state, signed, state_signed,
  written_state,
}

abbrev returning : Request
returning = record blank { query = λ k. if k == "data" then signed else "" }

abbrev start : State World
start = small_state (6 * second)

abbrev finished : State World
finished = (handle_kite_oauth_callback state_library state_handler returning "kite-token" start).1

abbrev answer : Reply
answer = redirect (code_redirect state_library "07" client_state client_url)

unfoldable completed :
    Completed state_library state_handler returning "kite-token" start finished answer
unfolding handle_kite_oauth_callback recover_callback_state issue_code is_kite_client generate_code
    set_auth_cookie small_library small_handler small_state generate random_hex hex_encode lookup
    insert new_auth_code_store generate_token_with_expiry state_library read_state write_text
    read_text
completed = record {
  st = client_state;
  encoded = written_state client_state;
  state_json = written_state client_state;
  code = "07";
  email = "trader@example.com";
  url = client_url;
  verified = refl;
  decoded = refl;
  unmarshalled = refl;
  issued = record {
    kept = "";
    source = configured start.world refl refl refl refl;
    u = start;
    same = refl;
    drawn = refl;
    issued = refl;
  };
  parses = refl;
  replied = inl refl;
}

abbrev token_form : String → String
token_form k =
    if k == "grant_type"
    then "authorization_code"
    else if k == "code"
    then "07"
    else if k == "code_verifier"
    then "verifier"
    else if k == "client_id"
    then "mcp-client"
    else if k == "client_secret"
    then "client-secret"
    else ""

abbrev token_request : Request
token_request = record blank { method = "POST"; form = token_form }

abbrev granted : State World
granted = (token state_library state_handler token_request finished).1

abbrev access_token : String
access_token =
    signed_text "secret"
      (claims_for plain_jwt "trader@example.com" "mcp-client" (6 * second) token_life)

token_answers :
    token state_library state_handler token_request finished
    ≡ (go (token_reply state_library state_handler access_token), granted)
unfolding handle_kite_oauth_callback recover_callback_state issue_code is_kite_client generate_code
    set_auth_cookie small_library small_handler small_state generate random_hex hex_encode lookup
    insert new_auth_code_store generate_token_with_expiry state_library read_state write_text
    read_text token check_form authenticate_client redeem consume delete get generate_token
    plain_jwt new_jwt_manager
token_answers = refl

access_is_for_kite_user_example :
    LoginToken state_library state_handler "kite-token" "07" client_state token_request start
      finished granted answer
      (token_reply state_library state_handler access_token)
unfolding completed
access_is_for_kite_user_example =
    access_is_for_kite_user state_library state_handler returning "kite-token" start finished answer
      completed (λ w later. Unit {0}) client_state (small_state (5 * second))
      (small_state (5 * second)) finished granted token_request
      (token_reply state_library state_handler access_token) [] state_library-StateLaws state_signed
      tt (unfold small_state in new_auth_code_store-IsBounded) tt (unfold run in refl) refl
      token_answers
