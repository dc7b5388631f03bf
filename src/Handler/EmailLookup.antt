-- ===== src/Handler/EmailLookup.antt =====
-- `HandleEmailLookup` of handlers_oauth.go: POST /oauth/email-lookup finds the user's app in the key
-- registry and sends the user to Kite with its key.
pub mod Laws
pub mod Soundness
use Prim.Native.String.{len}
use kite_mcp_oauth.Prelude.{
  ℕ, String, Bool, true, false, not, Option, none, some, List, [], ◌∷◌, ◌==◌, ltb, if◌then◌else◌,
}
use kite_mcp_oauth.Http.{Request, Reply, http_error, panic}
use kite_mcp_oauth.Services.{OauthState, RegistryEntry, KeyRegistry, Library}
use kite_mcp_oauth.Handler.{
  Handler, State, Handling, pure, respond, gets, or_respond, respond_if, ◌>>=◌, ◌>>◌,
}
use kite_mcp_oauth.Handler.Replies.{method_not_allowed}
use kite_mcp_oauth.Handler.Authorize.{redirect_to_kite_login, serve_email_prompt, has_registry}

-- The form's CSRF token is the cookie's, and not empty.
unfoldable pub has_csrf : Request → Bool
has_csrf r = elim (r.cookie "csrf_token") [
  | none ↦ false
  | some value ↦ if value == "" then false else value == r.form "csrf_token"
]

module _ {W : Type 0} (lib : Library W) (h : Handler W) where
  abbrev parse_state : Option String → Option OauthState
  parse_state none = none
  parse_state (some state_json) = lib.unmarshal_state state_json

  abbrev decode_state : Option String → Option OauthState
  decode_state none = none
  decode_state (some encoded) = parse_state (lib.url_decode encoded)

  unfoldable pub recover_oauth_state : String → State W → Option OauthState
  recover_oauth_state signed s =
      if signed == "" then none else decode_state (h.signer.verify s.world signed)

  unfoldable pub retry_form : Option OauthState → Handling W Reply
  unfolding serve_email_prompt
  retry_form none = respond (http_error "invalid or expired session" 400)
  retry_form (some st) = serve_email_prompt lib h st "Invalid or expired form. Please try again."

  -- The registry's app for the email; a nil registry has none, and is not asked.
  unfoldable pub find_app : String → State W → Option RegistryEntry
  find_app email s = elim h.registry [ none ↦ none | some reg ↦ reg.get_by_email s.world email ]

  -- The log line slices the key, which panics on a short one.
  unfoldable pub login_with : OauthState → RegistryEntry → Handling W Reply
  unfolding ◌>>=◌ redirect_to_kite_login
  login_with st entry = do
    respond_if (ltb (len entry.api_key) 8) panic
    redirect_to_kite_login lib h entry.api_key (record st { registry_key = entry.api_key })

  unfoldable pub login_or_retry : OauthState → Option RegistryEntry → Handling W Reply
  unfolding login_with serve_email_prompt
  login_or_retry st none =
      serve_email_prompt lib h st "No app registered for this email. Contact your admin."
  login_or_retry st (some entry) = login_with st entry

  unfoldable pub look_up : Request → OauthState → Handling W Reply
  unfolding ◌>>=◌ login_or_retry serve_email_prompt
  look_up r st =
      if lib.trim_space (r.form "email") == ""
      then serve_email_prompt lib h st "Please enter your email address."
      else (do
        configured ← gets (has_registry lib h)
        respond_if (not configured) (http_error "key registry not configured" 500)
        found ← gets (find_app (lib.trim_space (r.form "email")))
        login_or_retry st found)

  unfoldable pub handle_email_lookup : Request → Handling W Reply
  unfolding ◌>>=◌ retry_form look_up
  handle_email_lookup r = do
    respond_if (not (r.method == "POST")) method_not_allowed
    respond_if (not r.form_parses) (http_error "invalid form data" 400)
    recovered ← gets (recover_oauth_state (r.form "oauth_state"))
    if not (has_csrf r) then retry_form recovered else (do
      st ← or_respond recovered (http_error "invalid or expired OAuth state" 400)
      look_up r st)
