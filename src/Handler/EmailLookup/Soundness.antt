-- ===== src/Handler/EmailLookup/Soundness.antt =====
-- The email lookup of handlers_oauth.go keeps the stores sound.
use kite_mcp_oauth.Prelude.{Option, none, some}
use kite_mcp_oauth.Http.{Request}
use kite_mcp_oauth.Services.{Library, OauthState, RegistryEntry}
use kite_mcp_oauth.Handler.{Handler}
use kite_mcp_oauth.Handler.Keeps.{Keeps, keeps_rules}
use kite_mcp_oauth.Handler.EmailLookup.{
  retry_form, login_with, login_or_retry, look_up, handle_email_lookup,
}
use kite_mcp_oauth.Handler.Authorize.Soundness.{
  Keeps-redirect_to_kite_login, Keeps-serve_email_prompt,
}

module _ {W : Type 0} (lib : Library W) (h : Handler W) where
  Keeps-retry_form : (recovered : Option OauthState) → Keeps (retry_form lib h recovered)
  unfolding retry_form
  Keeps-retry_form none = search keeps_rules
  Keeps-retry_form (some st) = Keeps-serve_email_prompt lib h st _

  Keeps-login_with : (st : OauthState) (entry : RegistryEntry) → Keeps (login_with lib h st entry)
  unfolding login_with
  Keeps-login_with st entry = search (keeps_rules, Keeps-redirect_to_kite_login)

  Keeps-login_or_retry :
      (st : OauthState) (app : Option RegistryEntry) → Keeps (login_or_retry lib h st app)
  unfolding login_or_retry
  Keeps-login_or_retry st none = Keeps-serve_email_prompt lib h st _
  Keeps-login_or_retry st (some entry) = Keeps-login_with st entry

  Keeps-look_up : (r : Request) (st : OauthState) → Keeps (look_up lib h r st)
  unfolding look_up
  Keeps-look_up r st = search (keeps_rules, Keeps-serve_email_prompt, Keeps-login_or_retry)

  pub Keeps-handle_email_lookup : (r : Request) → Keeps (handle_email_lookup lib h r)
  unfolding handle_email_lookup
  Keeps-handle_email_lookup r = search (keeps_rules, Keeps-retry_form, Keeps-look_up) depth 12
