-- ===== src/Handler/Token/Laws.antt =====
-- What `Token` of handlers_oauth.go promises: who gets a token, and that a code gives one at most.
use kite_mcp_oauth.Prelude.{String, ◌≡◌, ◌≢◌, ap, ◌∙◌, true, ◌⊎◌, some, List, All, arith, eq_iff}
use kite_mcp_oauth.AuthCodes.{AuthCodeEntry, consume}
use kite_mcp_oauth.AuthCodes.Capacity.{IsBounded}
use kite_mcp_oauth.AuthCodes.Schedule.{Call, run, DoesNotIssue, consume_once}
use kite_mcp_oauth.Clients.{ClientEntry, get}
use kite_mcp_oauth.Jwt.{generate_token, claims_for}
use kite_mcp_oauth.Jwt.Laws.{JwtLaws}
use kite_mcp_oauth.Http.{Request, Reply}
use kite_mcp_oauth.Services.{Library}
use kite_mcp_oauth.Handler.{Handler, State, go}
use kite_mcp_oauth.Handler.Inversion.{bind-go}
use kite_mcp_oauth.Handler.Token.{
  check_form, authenticate_client, challenge_of, redeem, resolve_email, issue, token, token_reply,
}
use kite_mcp_oauth.Handler.Token.Exchange.{Resolves, known, exchanged}
use kite_mcp_oauth.Handler.Token.Inversion.{token-eq-go}

module _ {W : Type 0} (lib : Library W) (h : Handler W) where
  Resolves-auth_codes :
      (r : Request) (s t : State W) (entry : AuthCodeEntry) (email : String)
      → Resolves lib h r s t entry email
      → t.auth_codes ≡ s.auth_codes
  Resolves-auth_codes r s t entry email (known e same) = ap (λ (v : State W). v.auth_codes) same
  Resolves-auth_codes r s t entry email (exchanged secret n d source given same) =
      ap (λ (v : State W). v.auth_codes) same

  -- A code gives at most one token: on a well-formed store of codes, after a token request that
  -- succeeded, whatever calls the other requests and the cleanup make of the store, if none issues
  -- the code anew, no request that presents the code succeeds, from any client and with any
  -- verifier.
  pub token_once :
      (r r' : Request) (s t u v : State W) (reply reply' : Reply) (cs : List Call)
      → IsBounded s.auth_codes
      → token lib h r s ≡ (go reply, t)
      → All (DoesNotIssue (r.form "code")) cs
      → u.auth_codes ≡ run cs t.auth_codes
      → r'.form "code" ≡ r.form "code"
      → ¬ (token lib h r' u ≡ (go reply', v))
  token_once r r' s t u v reply reply' cs b first spared between same second =
      let g = token-eq-go lib h r s t reply first in
      let g' = token-eq-go lib h r' u v reply' second in
      let used = Resolves-auth_codes r _ t g.entry g.email g.resolved in
      cc (
        consume_once (r.form "code") (lib.now s.world) (lib.now u.world) cs s.auth_codes b spared,
        g'.redeemed,
        between,
        same,
        used,
      )

  -- A request that a client may make for a code: the checks of the form, the client's secret unless
  -- it is a Kite client, a code that is redeemable now and was issued to it for a known email, and
  -- the verifier of its challenge.
  pub record MayRedeem (r : Request) (s : State W) (client : ClientEntry) (entry : AuthCodeEntry)
      : Type 0 where
    pub posted : r.method ≡ "POST"
    pub parses : r.form_parses ≡ true
    pub granted : r.form "grant_type" ≡ "authorization_code"
    pub code_given : r.form "code" ≢ ""
    pub verifier_given : r.form "code_verifier" ≢ ""
    pub client_given : r.form "client_id" ≢ ""
    pub registered : get (r.form "client_id") s.clients ≡ some client
    pub authenticated :
        client.is_kite_api_key ≡ true ⊎ client.client_secret ≡ r.form "client_secret"
    pub redeemed : (consume (r.form "code") (lib.now s.world) s.auth_codes).0 ≡ some entry
    pub same_client : entry.client_id ≡ r.form "client_id"
    pub verified : challenge_of lib h (r.form "code_verifier") ≡ entry.code_challenge
    pub identified : entry.email ≢ ""

  module _ (r : Request) (s : State W) (client : ClientEntry) (entry : AuthCodeEntry)
      (m : MayRedeem r s client entry) where
    check_form_passes : check_form lib h r s ≡ (go tt, s)
    unfolding check_form
    check_form_passes = ground (
      arith,
      eq_iff r.method "POST",
      eq_iff (r.form "grant_type") "authorization_code",
      eq_iff (r.form "code") "",
      eq_iff (r.form "code_verifier") "",
      eq_iff (r.form "client_id") "",
    )

    authenticate_client_passes : authenticate_client lib h r s ≡ (go tt, s)
    unfolding authenticate_client
    authenticate_client_passes =
        ground (arith, eq_iff client.client_secret (r.form "client_secret"))

    redeem_passes : redeem lib h r s ≡ (
      go entry,
      record s { auth_codes = (consume (r.form "code") (lib.now s.world) s.auth_codes).1 },
    )
    unfolding redeem
    redeem_passes = ground (
      arith,
      eq_iff entry.client_id (r.form "client_id"),
      eq_iff (challenge_of lib h (r.form "code_verifier")) entry.code_challenge,
    )

    -- With golang-jwt as documented (`JwtLaws`), a request that may redeem its code (`MayRedeem`)
    -- succeeds: the response is a token that is signed for the code's email and the client, and
    -- nothing changes but that the code is consumed.
    pub token_succeeds :
        JwtLaws lib.jwt
        → (access_token : String) × (generate_token lib.jwt h.jwt
              (lib.now s.world)
              entry.email
              (r.form "client_id")
            ≡ some access_token)
          × (token lib h r s ≡ (
            go (token_reply lib h access_token),
            record s { auth_codes = (consume (r.form "code") (lib.now s.world) s.auth_codes).1 },
          ))
    unfolding token issue resolve_email generate_token
    token_succeeds laws =
        let (access_token, signed) = laws.signs h.jwt.secret (
          claims_for lib.jwt entry.email (r.form "client_id") (lib.now s.world)
            h.jwt.token_expiry) in
        (
          access_token,
          signed,
          bind-go (check_form lib h r) _ s s tt check_form_passes
              ∙ bind-go (authenticate_client lib h r) _ s s tt authenticate_client_passes
              ∙ bind-go (redeem lib h r) _ s _ entry redeem_passes
              ∙ ground (arith, eq_iff entry.email ""),
        )
