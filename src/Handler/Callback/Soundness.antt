-- ===== src/Handler/Callback/Soundness.antt =====
-- `HandleKiteOAuthCallback` of handlers_callback.go keeps the stores sound.
use kite_mcp_oauth.Prelude.{String, Option, none, some}
use kite_mcp_oauth.Http.{Request}
use kite_mcp_oauth.Services.{Library, OauthState}
use kite_mcp_oauth.Handler.{Handler}
use kite_mcp_oauth.Handler.Keeps.{
  Keeps, keeps_rules, Keeps-option, Keeps-template, Keeps-pure, Keeps-outside,
}
use kite_mcp_oauth.Handler.Keeps.Stores.{Keeps-generate_code}
use kite_mcp_oauth.Handler.Callback.{
  recover_callback_state, issue_for, immediate_exchange, issue_kite_client, issue_registry,
  issue_global, issue_code, record_consent, establish_session, finish, handle_kite_oauth_callback,
  Issued,
}
use kite_mcp_oauth.Handler.Keeps.Cookies.{Keeps-set_auth_cookie}

module _ {W : Type 0} (lib : Library W) (h : Handler W) where
  Keeps-recover : (signed : String) → Keeps (recover_callback_state lib h signed)
  unfolding recover_callback_state
  Keeps-recover signed = search keeps_rules

  Keeps-issue_for :
      (st : OauthState) (email request_token : String)
      → Keeps (issue_for lib h st email request_token)
  unfolding issue_for
  Keeps-issue_for st email request_token = search (keeps_rules, Keeps-generate_code)

  Keeps-immediate :
      (request_token client_id : String) (secret : Option String)
      → Keeps (immediate_exchange lib h request_token client_id secret)
  unfolding immediate_exchange
  Keeps-immediate request_token client_id none = search keeps_rules
  Keeps-immediate request_token client_id (some secret) = search keeps_rules

  Keeps-issue_exchanged :
      (request_token : String) (st : OauthState) (exchanged : Option String)
      → Keeps {W = W} {A = Issued} (elim exchanged [
        | some email ↦ issue_for lib h st email ""
        | none ↦ issue_for lib h st "" request_token
      ])
  Keeps-issue_exchanged request_token st none = Keeps-issue_for st "" request_token
  Keeps-issue_exchanged request_token st (some email) = Keeps-issue_for st email ""

  Keeps-issue_kite_client :
      (request_token : String) (st : OauthState) → Keeps (issue_kite_client lib h request_token st)
  unfolding issue_kite_client
  Keeps-issue_kite_client request_token st =
      search (keeps_rules, Keeps-immediate, Keeps-issue_exchanged)

  Keeps-issue_registry :
      (request_token : String) (st : OauthState) → Keeps (issue_registry lib h request_token st)
  unfolding issue_registry
  Keeps-issue_registry request_token st = search (keeps_rules, Keeps-issue_for) depth 12

  Keeps-issue_global :
      (request_token : String) (st : OauthState) → Keeps (issue_global lib h request_token st)
  unfolding issue_global
  Keeps-issue_global request_token st = search (keeps_rules, Keeps-issue_for)

  Keeps-issue_code :
      (request_token : String) (st : OauthState) → Keeps (issue_code lib h request_token st)
  unfolding issue_code
  Keeps-issue_code request_token st =
      search (keeps_rules, Keeps-issue_kite_client, Keeps-issue_registry, Keeps-issue_global)

  Keeps-record_consent : (r : Request) (email : String) → Keeps (record_consent lib h r email)
  unfolding record_consent
  Keeps-record_consent r email =
      Keeps-option h.consent_recorder _ _ (Keeps-pure tt) (λ record_it. Keeps-outside _)

  Keeps-establish_session : (r : Request) (email : String) → Keeps (establish_session lib h r email)
  unfolding establish_session
  Keeps-establish_session r email =
      search (keeps_rules, Keeps-set_auth_cookie, Keeps-record_consent)

  Keeps-finish : (url : String) → Keeps (finish lib h url)
  Keeps-finish url =
      Keeps-template h.login_success_tmpl _ _ (Keeps-pure _) (λ executes. search keeps_rules)

  pub Keeps-handle_kite_oauth_callback :
      (r : Request) (request_token : String)
      → Keeps (handle_kite_oauth_callback lib h r request_token)
  unfolding handle_kite_oauth_callback
  Keeps-handle_kite_oauth_callback r request_token =
      search (keeps_rules, Keeps-recover, Keeps-issue_code, Keeps-establish_session, Keeps-finish)
        depth 12
