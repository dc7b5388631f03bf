-- ===== src/Flows.antt =====
-- The flows of handlers_oauth.go and middleware.go from end to end: a dashboard session gets a code
-- from `Authorize`, the code a token from `Token`, and the token passes the gates of the middleware.
pub mod KiteLogin
pub mod Dashboard
use kite_mcp_oauth.Prelude.{
  ℕ, ◌+◌, ◌≤◌, ◌<◌, String, ◌≡◌, ◌≢◌, ap, sym, ◌∙◌, subst, true, false, ◌⊎◌, some, List, [], ◌∷◌,
  All, arith, eq_iff, ◌<>◌, ok,
}
use kite_mcp_oauth.Random.{random_hex}
use kite_mcp_oauth.AuthCodes.{AuthCodeEntry, AuthCodeStore, generate, consume, stamp, code_lifetime}
use kite_mcp_oauth.AuthCodes.Capacity.{IsBounded}
use kite_mcp_oauth.AuthCodes.Schedule.{Call, run, Spares, issued_code_is_redeemable}
use kite_mcp_oauth.Clients.{ClientEntry, get}
use kite_mcp_oauth.Jwt.{claims_for, generate_token}
use kite_mcp_oauth.Jwt.Laws.{JwtLaws, validate_token-sign}
use kite_mcp_oauth.Http.{Request, Url, redirect, next}
use kite_mcp_oauth.Services.{Library}
use kite_mcp_oauth.Handler.{Handler, State, go, stop}
use kite_mcp_oauth.Handler.Replies.{code_redirect}
use kite_mcp_oauth.Handler.Authorize.{entry_for, state_of, admit_client, check_request, authorize}
use kite_mcp_oauth.Handler.Authorize.Issuing.{issued_code, issued_codes}
use kite_mcp_oauth.Handler.Authorize.Laws.{
  HasSession, authorize_short_circuits, auth_codes-admit_client,
}
use kite_mcp_oauth.Handler.Token.{challenge_of, token, token_reply}
use kite_mcp_oauth.Handler.Token.Laws.{MayRedeem, token_succeeds}
use kite_mcp_oauth.Middleware.{
  bearer, is_dashboard_only, kite_token_expired, require_auth, admin_mfa_cookie_name,
  admin_mfa_audience, require_admin_mfa,
}
use kite_mcp_oauth.Middleware.Laws.{require_auth_accepts}
use kite_mcp_oauth.Middleware.MfaGate.{require_admin_mfa_accepts}

module _ {W : Type 0} (lib : Library W) (h : Handler W) where
  -- When a code is issued: the clock after the random bytes are drawn.
  abbrev pub issue_time : State W → ℕ
  issue_time u = lib.now (random_hex lib 32 u.world).1

  pub generated_of_drawn :
      (entry : AuthCodeEntry) (u : State W) (code : String)
      → issued_code lib h entry u ≡ some code
      → generate (some code) (issue_time u) entry u.auth_codes
        ≡ (ok code, issued_codes lib h entry u)
  unfolding generate
  generated_of_drawn entry u code drawn = ground arith

  -- A session's request for a code, and a client's request for the token, in the state that the
  -- store is in when it comes: calls in between have not touched the code, it comes in time, from the
  -- client, with the verifier of the challenge.
  pub record Session (r r2 : Request) (s s2 : State W) (email code : String) (url : Url)
      (client : ClientEntry) (cs : List Call) : Type 0 where
    pub passes : check_request lib h r s ≡ (go tt, s)
    pub bounded : IsBounded s.auth_codes
    pub live :
        HasSession lib h r
          (admit_client lib h (r.query "client_id") (r.query "redirect_uri") s).1
          email
          code
          url
    pub spared :
        All
          (Spares code (
            issue_time (admit_client lib h (r.query "client_id") (r.query "redirect_uri") s).1
            + code_lifetime))
          cs
    pub between :
        s2.auth_codes
        ≡ run cs (
            issued_codes lib h
              (entry_for (state_of r) email "")
              (admit_client lib h (r.query "client_id") (r.query "redirect_uri") s).1)
    pub in_time :
        lib.now s2.world
        ≤ issue_time (admit_client lib h (r.query "client_id") (r.query "redirect_uri") s).1
          + code_lifetime
    pub posted : r2.method ≡ "POST"
    pub parses : r2.form_parses ≡ true
    pub granted : r2.form "grant_type" ≡ "authorization_code"
    pub code_given : r2.form "code" ≢ ""
    pub verifier_given : r2.form "code_verifier" ≢ ""
    pub client_given : r2.form "client_id" ≢ ""
    pub same_code : r2.form "code" ≡ code
    pub same_client : r2.form "client_id" ≡ r.query "client_id"
    pub verified : challenge_of lib h (r2.form "code_verifier") ≡ r.query "code_challenge"
    pub registered : get (r2.form "client_id") s2.clients ≡ some client
    pub authenticated :
        client.is_kite_api_key ≡ true ⊎ client.client_secret ≡ r2.form "client_secret"
    pub identified : email ≢ ""

  module _ (r r2 : Request) (s s2 : State W) (email code : String) (url : Url)
      (client : ClientEntry) (cs : List Call) (m : Session r r2 s s2 email code url client cs) where
    admitted : State W
    admitted = (admit_client lib h (r.query "client_id") (r.query "redirect_uri") s).1

    Session-redeemable :
        (consume (r2.form "code") (lib.now s2.world) s2.auth_codes).0
        ≡ some (stamp (issue_time admitted) (entry_for (state_of r) email ""))
    unfolding admitted
    Session-redeemable =
        let e =
          issued_code_is_redeemable code (issue_time admitted) (lib.now s2.world)
            (entry_for (state_of r) email "") cs admitted.auth_codes
            (issued_codes lib h (entry_for (state_of r) email "") admitted)
            (subst IsBounded
              (sym (auth_codes-admit_client lib h (r.query "client_id") (r.query "redirect_uri") s))
              m.bounded)
            (generated_of_drawn (entry_for (state_of r) email "") admitted code m.live.drawn)
            m.spared m.in_time in
        subst
          (λ (k : String).
            (consume k (lib.now s2.world) s2.auth_codes).0
            ≡ some (stamp (issue_time admitted) (entry_for (state_of r) email "")))
          (sym m.same_code)
          (subst
            (λ (a : AuthCodeStore).
              (consume code (lib.now s2.world) a).0
              ≡ some (stamp (issue_time admitted) (entry_for (state_of r) email "")))
            (sym m.between) e)

    Session-MayRedeem :
        MayRedeem lib h r2 s2 client (stamp (issue_time admitted) (entry_for (state_of r) email ""))
    Session-MayRedeem = record {
      posted = m.posted;
      parses = m.parses;
      granted = m.granted;
      code_given = m.code_given;
      verifier_given = m.verifier_given;
      client_given = m.client_given;
      registered = m.registered;
      authenticated = m.authenticated;
      redeemed = Session-redeemable;
      same_client = sym m.same_client;
      verified = m.verified;
      identified = m.identified;
    }

    -- The token of the flow: Authorize redirects with the code, and Token answers with a token that
    -- is signed for the session's email and the client.
    Session-token :
        JwtLaws lib.jwt
        → (access_token : String) × ((authorize lib h r s).0
            ≡ stop (redirect (code_redirect lib code (state_of r) url)))
          × (generate_token lib.jwt h.jwt (lib.now s2.world) email (r2.form "client_id")
              ≡ some access_token)
          × ((token lib h r2 s2).0 ≡ go (token_reply lib h access_token))
    unfolding admitted
    Session-token laws =
        let (access_token, signed, replied) =
          token_succeeds lib h r2 s2 client
            (stamp (issue_time admitted) (entry_for (state_of r) email "")) Session-MayRedeem
            laws in
        (
          access_token,
          ap (λ p. p.0) (authorize_short_circuits lib h r s email code url m.passes m.live),
          signed,
          ap (λ p. p.0) replied,
        )

    -- The token that the flow's token request answers with is signed for the email and the client.
    Session-signed :
        (access_token : String)
        → JwtLaws lib.jwt
        → (token lib h r2 s2).0 ≡ go (token_reply lib h access_token)
        → generate_token lib.jwt h.jwt (lib.now s2.world) email (r2.form "client_id")
          ≡ some access_token
    Session-signed access_token laws replied =
        let (issued, _, signed, answered) = Session-token laws in cc (signed, replied, answered)

    module _ (access_token : String) (r3 : Request) (s3 : State W) (laws : JwtLaws lib.jwt)
        (replied : (token lib h r2 s2).0 ≡ go (token_reply lib h access_token))
        (live : lib.now s3.world
          < lib.jwt.new_numeric_date (lib.now s2.world + h.jwt.token_expiry)) where
      -- A dashboard session asks Authorize for a code, its client redeems the code in time at Token
      -- with the verifier, whatever calls of the store come between (`Session`), and Token answers
      -- with an access token. With golang-jwt as documented (`JwtLaws`), a request for MCP with
      -- that token as its bearer token, no preflight, is handed on with the email of the session,
      -- until the token expires, if the client is not called "dashboard" and the email has no expired
      -- Kite token.
      pub session_reaches_mcp :
          r3.method ≢ "OPTIONS"
          → r3.header "Authorization" ≡ bearer <> access_token
          → r2.form "client_id" ≢ "dashboard"
          → kite_token_expired lib h email s3 ≡ false
          → require_auth lib h r3 s3 ≡ next email
      unfolding generate_token
      session_reaches_mcp n auth other fresh =
          require_auth_accepts lib h r3 s3 access_token
            (claims_for lib.jwt email (r2.form "client_id") (lib.now s2.world) h.jwt.token_expiry) n
            auth
            (validate_token-sign lib.jwt laws h.jwt (lib.now s3.world) (lib.now s2.world)
              h.jwt.token_expiry email (r2.form "client_id") access_token []
              (Session-signed access_token laws replied) live tt)
            (unfold is_dashboard_only in ground (arith, eq_iff (r2.form "client_id") "dashboard"))
            fresh

      -- A dashboard session asks Authorize for a code, its client redeems the code in time at Token
      -- with the verifier, whatever calls of the store come between (`Session`), and Token answers
      -- with an access token. With golang-jwt as documented (`JwtLaws`), if the client is called
      -- "admin-mfa", a request of the session's email with that token as its MFA cookie passes the
      -- gate of the administration, until the token expires: none of the conditions is that a code
      -- of a second factor was given.
      pub session_passes_mfa_gate :
          access_token ≢ ""
          → r3.cookie admin_mfa_cookie_name ≡ some access_token
          → r3.context_email ≡ email
          → r2.form "client_id" ≡ admin_mfa_audience
          → lib.equal_fold email email ≡ true
          → require_admin_mfa lib h r3 s3 ≡ next email
      unfolding generate_token
      session_passes_mfa_gate given cookie same named fold =
          require_admin_mfa_accepts lib h r3 s3 access_token
            (claims_for lib.jwt email (r2.form "client_id") (lib.now s2.world) h.jwt.token_expiry)
            given (λ e. m.identified (sym same ∙ e)) cookie
            (validate_token-sign lib.jwt laws h.jwt (lib.now s3.world) (lib.now s2.world)
              h.jwt.token_expiry email (r2.form "client_id") access_token (admin_mfa_audience ∷ [])
              (Session-signed access_token laws replied) live (sym named))
            (rw same fold)
          ∙ ap next same
