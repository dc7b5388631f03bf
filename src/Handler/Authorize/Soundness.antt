-- ===== src/Handler/Authorize/Soundness.antt =====
-- `Authorize` of handlers_oauth.go, and the forms and redirects that other handlers share with it,
-- keep the stores sound.
use kite_mcp_oauth.Prelude.{
  subst, sym, String, Bool, ◌≡◌, ◌≢◌, Option, none, some, [], ◌∷◌, arith, eq_iff, if◌then◌else◌,
}
use kite_mcp_oauth.Http.{Request}
use kite_mcp_oauth.Services.{Library, OauthState}
use kite_mcp_oauth.Handler.{Handler, State, go, Handling, pure, gets, ◌>>=◌}
use kite_mcp_oauth.Handler.Stores.{register_kite, add_uri}
use kite_mcp_oauth.Clients.{ClientEntry, get, is_kite_client}
use kite_mcp_oauth.Handler.Authorize.Laws.{checked_rest, check_request-same}
use kite_mcp_oauth.Handler.Keeps.{
  IsSound, Keeps, keeps_rules, Keeps-bind_after, Keeps-option, Keeps-template, Keeps-bind,
}
use kite_mcp_oauth.Handler.Keeps.Stores.{
  RuntimeLaws, Keeps-generate_code, Keeps-add_uri, Keeps-register_kite,
}
use kite_mcp_oauth.Handler.Authorize.{
  signed_state, redirect_to_kite_login, render_email_prompt, serve_email_prompt, send_code,
  issue_from_dashboard, short_circuit_from_dashboard, check_request, admit_client, with_global_key,
  choose_login, authorize,
}
use kite_mcp_oauth.Handler.Replies.{generate_csrf_token}

module _ {W : Type 0} (lib : Library W) (h : Handler W) where
  Keeps-signed_state : (st : OauthState) → Keeps (signed_state lib h st)
  unfolding signed_state
  Keeps-signed_state st = search keeps_rules

  pub Keeps-redirect_to_kite_login :
      (api_key : String) (st : OauthState) → Keeps (redirect_to_kite_login lib h api_key st)
  unfolding redirect_to_kite_login
  Keeps-redirect_to_kite_login api_key st = search (keeps_rules, Keeps-signed_state)

  Keeps-generate_csrf_token : Keeps (generate_csrf_token lib)
  unfolding generate_csrf_token
  Keeps-generate_csrf_token = search keeps_rules

  Keeps-render_email_prompt :
      (executes : Bool) (st : OauthState) (err : String)
      → Keeps (render_email_prompt lib h executes st err)
  unfolding render_email_prompt
  Keeps-render_email_prompt executes st err =
      search (keeps_rules, Keeps-signed_state, Keeps-generate_csrf_token)

  pub Keeps-serve_email_prompt :
      (st : OauthState) (err : String) → Keeps (serve_email_prompt lib h st err)
  unfolding serve_email_prompt
  Keeps-serve_email_prompt st err =
      Keeps-template h.email_prompt_tmpl _ _ (search keeps_rules)
        (λ executes. Keeps-render_email_prompt executes st err)

  Keeps-send_code : (st : OauthState) (code : Option String) → Keeps (send_code lib h st code)
  unfolding send_code
  Keeps-send_code st none = search keeps_rules
  Keeps-send_code st (some code) =
      Keeps-option (lib.parse_url st.redirect_uri) _ _ (search keeps_rules)
        (λ url. search keeps_rules)

  Keeps-issue_from_dashboard :
      (st : OauthState) (email : String) → Keeps (issue_from_dashboard lib h st email)
  unfolding issue_from_dashboard
  Keeps-issue_from_dashboard st email = search (keeps_rules, Keeps-generate_code, Keeps-send_code)

  Keeps-issue_for_session :
      (st : OauthState) (session : Option String)
      → Keeps {W = W} {A = Unit {0}}
          (elim session [ none ↦ pure tt | some email ↦ issue_from_dashboard lib h st email ])
  Keeps-issue_for_session st none = search keeps_rules
  Keeps-issue_for_session st (some email) = Keeps-issue_from_dashboard st email

  Keeps-short_circuit :
      (r : Request) (st : OauthState) → Keeps (short_circuit_from_dashboard lib h r st)
  unfolding short_circuit_from_dashboard
  Keeps-short_circuit r st = search (keeps_rules, Keeps-issue_for_session)

  Keeps-with_global_key : (st : OauthState) → Keeps (with_global_key lib h st)
  unfolding with_global_key
  Keeps-with_global_key st = search (keeps_rules, Keeps-redirect_to_kite_login)

  Keeps-choose_login : (st : OauthState) → Keeps (choose_login lib h st)
  unfolding choose_login
  Keeps-choose_login st =
      search
        (keeps_rules, Keeps-redirect_to_kite_login, Keeps-serve_email_prompt, Keeps-with_global_key)

  -- The end of `admit_client`, for the client that is known.
  abbrev admit_known : String → String → Option ClientEntry → Bool → Handling W (Unit {0})
  admit_known client_id uri known kite = elim known [
    | none ↦ register_kite lib h client_id (uri ∷ []) >>= λ _. pure tt
    | some _ ↦ if kite then (add_uri lib h client_id uri >>= λ _. pure tt) else pure tt
  ]

  module _ (laws : RuntimeLaws lib) where
    Keeps-admit_known :
        (client_id uri : String) (known : Option ClientEntry) (kite : Bool)
        → client_id ≢ ""
        → Keeps (admit_known client_id uri known kite)
    Keeps-admit_known client_id uri none kite n =
        search (keeps_rules, Keeps-register_kite lib h laws client_id uri n)
    Keeps-admit_known client_id uri (some c) kite n = search (keeps_rules, Keeps-add_uri)

    Keeps-check_request : (r : Request) → Keeps (check_request lib h r)
    Keeps-check_request r = record {
      at = λ s sound. subst IsSound (sym (check_request-same lib h r s)) sound;
    }

    check_request-named :
        (r : Request) (a : Unit {0}) (s u : State W)
        → check_request lib h r s ≡ (go a, u)
        → r.query "client_id" ≢ ""
    unfolding check_request
    check_request-named r a s u e n = ground (arith, eq_iff (r.query "client_id") "")

    Keeps-admit_client :
        (client_id uri : String) → client_id ≢ "" → Keeps (admit_client lib h client_id uri)
    unfolding admit_client
    Keeps-admit_client client_id uri n =
        Keeps-bind (gets (λ s. get client_id s.clients))
          (λ known.
            gets (λ s. is_kite_client client_id s.clients) >>= admit_known client_id uri known)
          (search keeps_rules)
          (λ known.
            Keeps-bind (gets (λ s. is_kite_client client_id s.clients))
              (admit_known client_id uri known) (search keeps_rules)
              (λ kite. Keeps-admit_known client_id uri known kite n))

    -- The rest of the handler, for a client id that is not empty.
    Keeps-rest :
        (r : Request)
        → r.query "client_id" ≢ ""
        → Keeps (
            admit_client lib h (r.query "client_id") (r.query "redirect_uri") >>= λ _.
            checked_rest lib h r)
    Keeps-rest r n =
        search (keeps_rules, Keeps-admit_client, Keeps-short_circuit, Keeps-choose_login)

    pub Keeps-authorize : (r : Request) → Keeps (authorize lib h r)
    unfolding authorize
    Keeps-authorize r =
        Keeps-bind_after (check_request lib h r)
          (λ _. admit_client lib h (r.query "client_id") (r.query "redirect_uri") >>= λ _.
            checked_rest lib h r)
          (Keeps-check_request r) (λ a s u e. Keeps-rest r (check_request-named r a s u e))
