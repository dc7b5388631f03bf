-- ===== src/Examples/Onboarding.antt =====
-- Registration, the email lookup and the signed state of handlers.go and handlers_oauth.go on concrete
-- requests.
use kite_mcp_oauth.Prelude.{
  ◌*◌, String, ◌≡◌, refl, true, Option, none, some, List, [], ◌∷◌, ◌==◌, insert, if◌then◌else◌,
}
use kite_mcp_oauth.Time.{second}
use kite_mcp_oauth.Random.{random_hex, hex_encode}
use kite_mcp_oauth.Clients.{register, make_room}
use kite_mcp_oauth.Http.{Request, Reply, redirect}
use kite_mcp_oauth.Services.{RegistryEntry, KeyRegistry}
use kite_mcp_oauth.Handler.{Handler, State, go}
use kite_mcp_oauth.Handler.Authorize.{kite_login_url, has_registry, redirect_to_kite_login}
use kite_mcp_oauth.Handler.EmailLookup.{
  has_csrf, recover_oauth_state, find_app, look_up, handle_email_lookup,
}
use kite_mcp_oauth.Handler.EmailLookup.Laws.{LookedUp, handle_email_lookup-eq-go}
use kite_mcp_oauth.Handler.Registration.{handle_register, registration_reply}
use kite_mcp_oauth.Handler.Registration.Laws.{Registration, handle_register-eq-go}
use kite_mcp_oauth.Handler.Stores.{persist}
use kite_mcp_oauth.Examples.World.{
  World, small_library, small_handler, small_state, blank, client_uri,
}

abbrev start : State World
start = small_state (5 * second)

abbrev app : RegistryEntry
app = record { api_key = "registered-key"; api_secret = "s"; registered_by = "admin@example.com" }

abbrev registry : KeyRegistry World
registry = record {
  has_entries = λ w. true;
  get_by_email = λ w email. if email == "trader@example.com" then some app else none;
  get_secret_by_api_key = λ w key. none;
}

abbrev registry_handler : Handler World
registry_handler = record small_handler { registry = some registry }

abbrev lookup_form : String → String
lookup_form k =
    if k == "email" then "trader@example.com" else if k == "csrf_token" then "0a" else "signed"

abbrev lookup_request : Request
lookup_request = record blank {
  method = "POST";
  form = lookup_form;
  cookie = λ k. if k == "csrf_token" then some "0a" else none;
}

abbrev login_url : String
login_url =
    kite_login_url small_library registry_handler "registered-key" "flow=oauth&data=mcp-client"

lookup_answers :
    handle_email_lookup small_library registry_handler lookup_request start
    ≡ (go (redirect login_url), start)
unfolding handle_email_lookup look_up find_app has_csrf recover_oauth_state has_registry
    redirect_to_kite_login small_library small_handler small_state
lookup_answers = refl

handle_email_lookup-eq-go_example :
    LookedUp small_library registry_handler lookup_request start start login_url
handle_email_lookup-eq-go_example =
    handle_email_lookup-eq-go small_library registry_handler lookup_request start start login_url
      lookup_answers

abbrev body : Option (List String × String)
body = some (client_uri ∷ [], "phone")

abbrev registration : Reply
registration = registration_reply "07" "08" (client_uri ∷ []) "phone"

abbrev joined_state : State World
joined_state =
    (handle_register small_library small_handler (record blank { method = "POST" }) body start).1

register_answers :
    handle_register small_library small_handler (record blank { method = "POST" }) body start
    ≡ (go registration, joined_state)
unfolding handle_register random_hex hex_encode persist register insert make_room small_library
    small_handler small_state
register_answers = refl

handle_register-eq-go_example :
    Registration small_library small_handler
      (record blank { method = "POST" })
      body
      start
      joined_state
      registration
handle_register-eq-go_example =
    handle_register-eq-go small_library small_handler (record blank { method = "POST" }) body start
      joined_state registration register_answers
