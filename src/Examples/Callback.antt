-- ===== src/Examples/Callback.antt =====
-- The callback of handlers_callback.go on a concrete request: the client has no Kite app of its own,
-- and the exchange of the server's app gives the email.
use kite_mcp_oauth.Prelude.{◌*◌, ◌≡◌, refl, ◌==◌, if◌then◌else◌, lookup, insert}
use kite_mcp_oauth.Http.{Request, Reply, redirect}
use kite_mcp_oauth.Time.{second}
use kite_mcp_oauth.Random.{random_hex, hex_encode}
use kite_mcp_oauth.AuthCodes.{generate, new_auth_code_store}
use kite_mcp_oauth.Clients.{is_kite_client}
use kite_mcp_oauth.Jwt.{generate_token_with_expiry}
use kite_mcp_oauth.Handler.{State, go}
use kite_mcp_oauth.Handler.Stores.{generate_code}
use kite_mcp_oauth.Handler.Replies.{code_redirect, set_auth_cookie}
use kite_mcp_oauth.Handler.Callback.{handle_kite_oauth_callback, recover_callback_state, issue_code}
use kite_mcp_oauth.Handler.Callback.Laws.{Completed, handle_kite_oauth_callback-eq-go}
use kite_mcp_oauth.Examples.World.{
  World, small_library, small_handler, small_state, blank, client_state, client_url,
}

abbrev callback_request : Request
callback_request = record blank { query = λ k. if k == "data" then "signed" else "" }

abbrev start : State World
start = small_state (5 * second)

abbrev finished : State World
finished = (handle_kite_oauth_callback small_library small_handler callback_request "token" start).1

abbrev answer : Reply
answer = redirect (code_redirect small_library "07" client_state client_url)

callback_answers :
    handle_kite_oauth_callback small_library small_handler callback_request "token" start
    ≡ (go answer, finished)
unfolding handle_kite_oauth_callback recover_callback_state issue_code is_kite_client generate_code
    set_auth_cookie small_library small_handler small_state generate random_hex hex_encode lookup
    insert new_auth_code_store generate_token_with_expiry
callback_answers = refl

handle_kite_oauth_callback-eq-go_example :
    Completed small_library small_handler callback_request "token" start finished answer
handle_kite_oauth_callback-eq-go_example =
    handle_kite_oauth_callback-eq-go small_library small_handler callback_request "token" start
      finished answer callback_answers
