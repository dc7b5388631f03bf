-- ===== src/Examples/Returns.antt =====
-- A browser that is sent to Kite with a signed target and comes back with it.
use kite_mcp_oauth.Prelude.{
  ◌*◌, String, ◌≡◌, refl, ap, some, ◌==◌, if◌then◌else◌, split_once, differ,
}
use kite_mcp_oauth.Time.{second}
use kite_mcp_oauth.Http.{Request, redirect}
use kite_mcp_oauth.Jwt.{generate_token_with_expiry, new_jwt_manager}
use kite_mcp_oauth.Handler.{Handler, State, go}
use kite_mcp_oauth.Handler.Replies.{set_auth_cookie_or_fail}
use kite_mcp_oauth.Handler.Browser.{
  signed_target, read_target, exchange_for, handle_browser_auth_callback,
}
use kite_mcp_oauth.Handler.Browser.Target.{TargetLaws, returns_to_target}
use kite_mcp_oauth.Examples.Writing.{write_text, read_text, read_text-write_text, write_text-ne-nil}
use kite_mcp_oauth.Examples.Tokens.{plain_jwt}
use kite_mcp_oauth.Examples.World.{World, small_library, small_handler, small_state, blank}
use kite_mcp_oauth.Examples.States.{marking}
use kite_mcp_oauth.Examples.Administration.{keeping_handler}

abbrev marking_handler : Handler World
marking_handler = record keeping_handler { signer = marking }

marking_handler-TargetLaws : TargetLaws small_library marking_handler (λ w later. Unit {0})
unfolding small_library
marking_handler-TargetLaws = record {
  signed = λ w t. write_text-ne-nil t "";
  verifies = λ w later t f. ap (λ (p : String × String). some p.0) (read_text-write_text t "");
  decodes = λ t. refl;
}

abbrev sent_state : State World
sent_state = small_state (5 * second)

abbrev sent : String
sent = signed_target small_library marking_handler "trader@example.com" "/portfolio" sent_state

abbrev returning : Request
returning = record blank { query = λ k. if k == "target" then sent else "" }

abbrev returned_state : State World
returned_state =
    (handle_browser_auth_callback small_library marking_handler returning "token" sent_state).1

return_answers :
    handle_browser_auth_callback small_library marking_handler returning "token" sent_state
    ≡ (go (redirect "/portfolio"), returned_state)
unfolding handle_browser_auth_callback read_target exchange_for split_once set_auth_cookie_or_fail
    small_library small_handler small_state generate_token_with_expiry plain_jwt new_jwt_manager
    write_text read_text
return_answers = refl

returns_to_target_example :
    (credentials : String × String) × (got : String) × (marking_handler.exchanger.get_credentials
        sent_state.world "trader@example.com"
      ≡ some credentials)
    × (marking_handler.exchanger.exchange_with_credentials "token" credentials.0 credentials.1
          sent_state.world
        ≡ (some got, returned_state.world))
    × (redirect "/portfolio" ≡ redirect "/portfolio")
returns_to_target_example =
    returns_to_target small_library marking_handler (λ w later. Unit {0}) marking_handler-TargetLaws
      "trader@example.com" "/portfolio" "token" returning sent_state sent_state returned_state
      (redirect "/portfolio") (unfold split_once in refl) (differ "trader@example.com" "" refl) refl
      tt refl return_answers
