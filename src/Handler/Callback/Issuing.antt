-- ===== src/Handler/Callback/Issuing.antt =====
-- Which email, and which request token, the code of a callback of Kite is issued with by
-- `HandleKiteOAuthCallback` of handlers_callback.go.
use kite_mcp_oauth.Prelude.{
  String, ◌≡◌, ◌≢◌, refl, ap, sym, subst, true, false, inl, inr, some, arith, eq_iff, ◌==◌,
  Option-cases, Bool-cases,
}
use kite_mcp_oauth.Clients.{is_kite_client}
use kite_mcp_oauth.Services.{OauthState, Library}
use kite_mcp_oauth.Handler.{Handler, State, go, ◌>>=◌}
use kite_mcp_oauth.Handler.Authorize.{entry_for}
use kite_mcp_oauth.Handler.Authorize.Issuing.{
  issued_code, issued_codes, after_issue, generate_code-goes,
}
use kite_mcp_oauth.Handler.Callback.{
  Issued, issue_for, issue_kite_client, registry_secret, issue_registry, issue_global, issue_code,
}

module _ {W : Type 0} (lib : Library W) (h : Handler W) where
  issue_for-eq-go :
      (st : OauthState) (email request_token : String) (s t : State W) (issued : Issued)
      → issue_for lib h st email request_token s ≡ (go issued, t)
      → (issued_code lib h (entry_for st email request_token) s ≡ some issued.0)
        × (issued.1 ≡ email)
        × (t ≡ after_issue lib h (entry_for st email request_token) s)
  unfolding issue_for
  issue_for-eq-go st email request_token s t issued e =
      elim (Option-cases (issued_code lib h (entry_for st email request_token) s)) [
        | inl full ↦
            absurd (ground (arith, generate_code-goes lib h (entry_for st email request_token) s))
        | inr (code, drawn) ↦
            ground (arith, generate_code-goes lib h (entry_for st email request_token) s)
      ]

  -- Where the email of a code comes from, if it is known, and what is kept for later if it is not.
  pub data Source (request_token : String) (st : OauthState) (s : State W) (email kept : String)
      : Type 0 where
    -- the client's own Kite app, with the secret that the server has for it
    immediate :
        (secret : String) (w : W)
        → is_kite_client st.client_id s.clients ≡ true
        → h.exchanger.get_secret_by_api_key s.world st.client_id ≡ some secret
        → h.exchanger.exchange_with_credentials request_token st.client_id secret s.world
          ≡ (some email, w)
        → kept ≡ ""
        → Source request_token st s email kept
    -- the client's own Kite app, for an exchange at the token endpoint
    deferred :
        is_kite_client st.client_id s.clients ≡ true
        → email ≡ ""
        → kept ≡ request_token
        → Source request_token st s email kept
    -- the app of the registry
    registered :
        (w : W)
        → is_kite_client st.client_id s.clients ≡ false
        → st.registry_key ≢ ""
        → registry_secret lib h st.registry_key s ≢ ""
        → h.exchanger.exchange_with_credentials request_token st.registry_key
            (registry_secret lib h st.registry_key s)
            s.world
          ≡ (some email, w)
        → kept ≡ ""
        → Source request_token st s email kept
    -- the app of the configuration
    configured :
        (w : W)
        → is_kite_client st.client_id s.clients ≡ false
        → st.registry_key ≡ ""
        → h.exchanger.exchange_request_token request_token s.world ≡ (some email, w)
        → kept ≡ ""
        → Source request_token st s email kept

  -- The code that was issued: for the client, redirect URI and challenge of the state.
  pub record CodeFor (request_token : String) (st : OauthState) (s t : State W)
      (code email : String) : Type 0 where
    pub kept : String
    pub source : Source request_token st s email kept
    pub u : State W
    pub same : u.auth_codes ≡ s.auth_codes
    pub drawn : issued_code lib h (entry_for st email kept) u ≡ some code
    pub issued : t.auth_codes ≡ issued_codes lib h (entry_for st email kept) u

  module _ (request_token : String) (st : OauthState) (s t : State W) (issued : Issued) where
    code_for :
        (email kept : String) (w : W)
        → Source request_token st s email kept
        → issue_for lib h st email kept (record s { world = w }) ≡ (go issued, t)
        → CodeFor request_token st s t issued.0 issued.1
    code_for email kept w source e =
        let (drawn, same, after) =
          issue_for-eq-go st email kept (record s { world = w }) t issued e in
        record {
          kept = kept;
          source = subst (λ x. Source request_token st s x kept) (sym same) source;
          u = record s { world = w };
          same = refl;
          drawn = rw same drawn;
          issued = rw same (ap (λ (v : State W). v.auth_codes) after);
        }

    issue_global-eq-go :
        is_kite_client st.client_id s.clients ≡ false
        → st.registry_key ≡ ""
        → issue_global lib h request_token st s ≡ (go issued, t)
        → CodeFor request_token st s t issued.0 issued.1
    unfolding issue_global ◌>>=◌
    issue_global-eq-go other plain e =
        let exchanged = h.exchanger.exchange_request_token request_token s.world in
        elim (Option-cases exchanged.0) [
          | inl failed ↦ absurd (ground arith)
          | inr (email, given) ↦
              code_for email "" exchanged.1 (configured exchanged.1 other plain (ground arith) refl)
                (unfold issue_for in ground arith)
        ]

    issue_registry-eq-go :
        is_kite_client st.client_id s.clients ≡ false
        → st.registry_key ≢ ""
        → issue_registry lib h request_token st s ≡ (go issued, t)
        → CodeFor request_token st s t issued.0 issued.1
    unfolding issue_registry ◌>>=◌
    issue_registry-eq-go other keyed e =
        let exchanged =
          h.exchanger.exchange_with_credentials request_token st.registry_key
            (registry_secret lib h st.registry_key s) s.world in
        elim (Option-cases exchanged.0) [
          | inl failed ↦ absurd (ground arith)
          | inr (email, given) ↦
              let u : State W = record s { world = exchanged.1 } in
              code_for email "" exchanged.1
                (registered exchanged.1 other keyed
                  (ground (arith, eq_iff (registry_secret lib h st.registry_key s) ""))
                  (ground arith) refl)
                (unfold issue_for in
                  ground (arith, generate_code-goes lib h (entry_for st email "") u))
        ]

    exchange_stored-eq-go :
        (secret : String)
        → is_kite_client st.client_id s.clients ≡ true
        → h.exchanger.get_secret_by_api_key s.world st.client_id ≡ some secret
        → issue_kite_client lib h request_token st s ≡ (go issued, t)
        → CodeFor request_token st s t issued.0 issued.1
    unfolding issue_kite_client ◌>>=◌
    exchange_stored-eq-go secret kite stored e =
        let exchanged =
          h.exchanger.exchange_with_credentials request_token st.client_id secret s.world in
        elim (Option-cases exchanged.0) [
          | inl failed ↦
              code_for "" request_token exchanged.1 (deferred kite refl refl)
                (unfold issue_for in ground arith)
          | inr (email, given) ↦
              code_for email "" exchanged.1
                (immediate secret exchanged.1 kite stored (ground arith) refl)
                (unfold issue_for in ground arith)
        ]

    issue_kite_client-eq-go :
        is_kite_client st.client_id s.clients ≡ true
        → issue_kite_client lib h request_token st s ≡ (go issued, t)
        → CodeFor request_token st s t issued.0 issued.1
    unfolding issue_kite_client ◌>>=◌
    issue_kite_client-eq-go kite e =
        elim (Option-cases (h.exchanger.get_secret_by_api_key s.world st.client_id)) [
          | inr (secret, stored) ↦ exchange_stored-eq-go secret kite stored e
          | inl unknown ↦
              code_for "" request_token s.world (deferred kite refl refl)
                (unfold issue_for in ground arith)
        ]

    pub issue_code-eq-go :
        issue_code lib h request_token st s ≡ (go issued, t)
        → CodeFor request_token st s t issued.0 issued.1
    unfolding issue_code
    issue_code-eq-go e = elim (Bool-cases (is_kite_client st.client_id s.clients)) [
      | inl kite ↦ issue_kite_client-eq-go kite (ground arith)
      | inr other ↦ elim (Bool-cases (st.registry_key == "")) [
        | inl plain ↦ issue_global-eq-go other ((eq_iff st.registry_key "").0 plain) (ground arith)
        | inr keyed ↦
            issue_registry-eq-go other (ground (arith, eq_iff st.registry_key "")) (ground arith)
      ]
    ]
