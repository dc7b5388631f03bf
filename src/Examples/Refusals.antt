-- ===== src/Examples/Refusals.antt =====
-- A registered client of `Token` in handlers_oauth.go that presents a code which was never issued.
use kite_mcp_oauth.Prelude.{◌*◌, String, ◌≡◌, refl, ◌==◌, if◌then◌else◌, lookup, delete}
use kite_mcp_oauth.Time.{second}
use kite_mcp_oauth.AuthCodes.{new_auth_code_store, consume}
use kite_mcp_oauth.Clients.{get}
use kite_mcp_oauth.Http.{Request, Reply}
use kite_mcp_oauth.Handler.{stop}
use kite_mcp_oauth.Handler.Replies.{described}
use kite_mcp_oauth.Handler.Token.{check_form, authenticate_client, redeem, token}
use kite_mcp_oauth.Handler.Token.Refusal.{Refused, token-Refused}
use kite_mcp_oauth.Examples.World.{small_library, small_handler, small_state, blank}

abbrev guessing_form : String → String
guessing_form k =
    if k == "grant_type"
    then "authorization_code"
    else if k == "code"
    then "guess"
    else if k == "code_verifier"
    then "verifier"
    else if k == "client_id"
    then "mcp-client"
    else if k == "client_secret"
    then "client-secret"
    else ""

abbrev guessing : Request
guessing = record blank { method = "POST"; form = guessing_form }

abbrev refusal : Reply
refusal = described 400 "invalid_grant" "code expired or already used"

guess_answers :
    token small_library small_handler guessing (small_state (10 * second))
    ≡ (stop refusal, small_state (10 * second))
unfolding token check_form authenticate_client redeem small_library small_handler small_state get
    lookup consume delete new_auth_code_store
guess_answers = refl

token-Refused_example :
    Refused small_library small_handler guessing
      (small_state (10 * second))
      (small_state (10 * second))
      refusal
token-Refused_example =
    token-Refused small_library small_handler guessing (small_state (10 * second))
      (small_state (10 * second)) refusal guess_answers
