-- ===== src/Handler/Token/Soundness.antt =====
-- `Token` of handlers_oauth.go keeps the stores sound.
use kite_mcp_oauth.Prelude.{String}
use kite_mcp_oauth.AuthCodes.{AuthCodeEntry}
use kite_mcp_oauth.Http.{Request}
use kite_mcp_oauth.Services.{Library}
use kite_mcp_oauth.Handler.{Handler}
use kite_mcp_oauth.Handler.Keeps.{Keeps, keeps_rules}
use kite_mcp_oauth.Handler.Keeps.Stores.{Keeps-consume_code}
use kite_mcp_oauth.Handler.Token.{
  check_form, authenticate_client, redeem, deferred_secret, deferred_exchange, resolve_email, issue,
  token,
}

module _ {W : Type 0} (lib : Library W) (h : Handler W) (r : Request) where
  Keeps-check_form : Keeps (check_form lib h r)
  unfolding check_form
  Keeps-check_form = search keeps_rules

  Keeps-authenticate_client : Keeps (authenticate_client lib h r)
  unfolding authenticate_client
  Keeps-authenticate_client = search keeps_rules

  Keeps-redeem : Keeps (redeem lib h r)
  unfolding redeem
  Keeps-redeem = search (keeps_rules, Keeps-consume_code)

  Keeps-deferred_secret : Keeps (deferred_secret lib h r)
  unfolding deferred_secret
  Keeps-deferred_secret = search keeps_rules

  Keeps-deferred_exchange : (entry : AuthCodeEntry) → Keeps (deferred_exchange lib h r entry)
  unfolding deferred_exchange
  Keeps-deferred_exchange entry = search (keeps_rules, Keeps-deferred_secret)

  Keeps-resolve_email : (entry : AuthCodeEntry) → Keeps (resolve_email lib h r entry)
  unfolding resolve_email
  Keeps-resolve_email entry = search (keeps_rules, Keeps-deferred_exchange)

  Keeps-issue : (email : String) → Keeps (issue lib h r email)
  unfolding issue
  Keeps-issue email = search keeps_rules

  pub Keeps-token : Keeps (token lib h r)
  unfolding token
  Keeps-token = search (
    keeps_rules, Keeps-check_form, Keeps-authenticate_client, Keeps-redeem, Keeps-resolve_email,
    Keeps-issue,
  )
