-- ===== src/Handler/Token/Inversion.antt =====
-- What each part of `Token` in handlers_oauth.go has established when it goes on.
use kite_mcp_oauth.Prelude.{
  subst, sym, String, ◌≡◌, ◌≢◌, true, ◌⊎◌, some, arith, eq_iff, Option-cases, inl, inr,
}
use kite_mcp_oauth.AuthCodes.{AuthCodeEntry, consume}
use kite_mcp_oauth.Clients.{ClientEntry, get}
use kite_mcp_oauth.Jwt.{generate_token}
use kite_mcp_oauth.Http.{Request, Reply}
use kite_mcp_oauth.Services.{Library}
use kite_mcp_oauth.Handler.{Handler, State, go}
use kite_mcp_oauth.Handler.Inversion.{bind-eq-go}
use kite_mcp_oauth.Handler.Token.Exchange.{Resolves, resolve_email-eq-go}
use kite_mcp_oauth.Handler.Token.{
  check_form, authenticate_client, challenge_of, redeem, resolve_email, issue, token, token_reply,
}

module _ {W : Type 0} (lib : Library W) (h : Handler W) (r : Request) where
  pub check_form-eq-go :
      (s t : State W)
      → check_form lib h r s ≡ (go tt, t)
      → (r.method ≡ "POST")
        × (r.form_parses ≡ true)
        × (r.form "grant_type" ≡ "authorization_code")
        × (r.form "code" ≢ "")
        × (r.form "code_verifier" ≢ "")
        × (r.form "client_id" ≢ "")
        × (t ≡ s)
  unfolding check_form
  check_form-eq-go s t e = ground (
    arith,
    eq_iff r.method "POST",
    eq_iff (r.form "grant_type") "authorization_code",
    eq_iff (r.form "code") "",
    eq_iff (r.form "code_verifier") "",
    eq_iff (r.form "client_id") "",
  )

  pub authenticate_client-eq-go :
      (s t : State W)
      → authenticate_client lib h r s ≡ (go tt, t)
      → (c : ClientEntry) × (get (r.form "client_id") s.clients ≡ some c)
        × (c.is_kite_api_key ≡ true ⊎ c.client_secret ≡ r.form "client_secret")
        × (t ≡ s)
  unfolding authenticate_client
  authenticate_client-eq-go s t e = elim (Option-cases (get (r.form "client_id") s.clients)) [
    | inl missing ↦ absurd (ground arith)
    | inr (c, found) ↦ (
      c,
      found,
      ground (arith, eq_iff c.client_secret (r.form "client_secret")),
      ground (arith, eq_iff c.client_secret (r.form "client_secret")),
    )
  ]

  pub redeem-eq-go :
      (s t : State W) (entry : AuthCodeEntry)
      → redeem lib h r s ≡ (go entry, t)
      → ((consume (r.form "code") (lib.now s.world) s.auth_codes).0 ≡ some entry)
        × (entry.client_id ≡ r.form "client_id")
        × (challenge_of lib h (r.form "code_verifier") ≡ entry.code_challenge)
        × (t ≡ record s { auth_codes = (consume (r.form "code") (lib.now s.world) s.auth_codes).1 })
  unfolding redeem
  redeem-eq-go s t entry e =
      elim (Option-cases (consume (r.form "code") (lib.now s.world) s.auth_codes).0) [
        | inl missing ↦ absurd (ground arith)
        | inr (x, found) ↦ ground (
          arith,
          eq_iff x.client_id (r.form "client_id"),
          eq_iff (challenge_of lib h (r.form "code_verifier")) x.code_challenge,
        )
      ]

  issue-eq-go :
      (s t : State W) (email : String) (reply : Reply)
      → issue lib h r email s ≡ (go reply, t)
      → (access_token : String) × (email ≢ "")
        × (generate_token lib.jwt h.jwt (lib.now s.world) email (r.form "client_id")
            ≡ some access_token)
        × (reply ≡ token_reply lib h access_token)
        × (t ≡ s)
  unfolding issue
  issue-eq-go s t email reply e =
      elim (Option-cases
        (generate_token lib.jwt h.jwt (lib.now s.world) email (r.form "client_id"))) [
          | inl failed ↦ absurd (ground arith)
          | inr (access_token, signed) ↦ (
            access_token,
            ground (arith, eq_iff email ""),
            signed,
            ground (arith, eq_iff email ""),
            ground (arith, eq_iff email ""),
          )
        ]

  -- What a successful token request has established.
  pub record Grant (s t : State W) (reply : Reply) : Type 0 where
    pub entry : AuthCodeEntry
    pub email : String
    pub client : ClientEntry
    pub access_token : String
    pub posted : r.method ≡ "POST"
    pub verifier_given : r.form "code_verifier" ≢ ""
    -- the client is registered, and it is a Kite client or gave its secret
    pub registered : get (r.form "client_id") s.clients ≡ some client
    pub authenticated :
        client.is_kite_api_key ≡ true ⊎ client.client_secret ≡ r.form "client_secret"
    -- the code is redeemed now, was issued to this client, and the verifier meets its challenge
    pub redeemed : (consume (r.form "code") (lib.now s.world) s.auth_codes).0 ≡ some entry
    pub same_client : entry.client_id ≡ r.form "client_id"
    pub verified : challenge_of lib h (r.form "code_verifier") ≡ entry.code_challenge
    pub resolved :
        Resolves lib h r
          (record s { auth_codes = (consume (r.form "code") (lib.now s.world) s.auth_codes).1 })
          t
          entry
          email
    -- and the response is a token for the email and the client
    pub identified : email ≢ ""
    pub signed :
        generate_token lib.jwt h.jwt (lib.now t.world) email (r.form "client_id")
        ≡ some access_token
    pub replied : reply ≡ token_reply lib h access_token

  -- A token request that succeeds has redeemed a code that was issued to this client, with a
  -- verifier for the challenge that it was issued with, from a client that is authenticated; the
  -- access token is for the email of the code or of its exchange, and for the client.
  pub token-eq-go :
      (s t : State W) (reply : Reply) → token lib h r s ≡ (go reply, t) → Grant s t reply
  unfolding token
  token-eq-go s t reply e =
      let (_, s1, e1, k1) = bind-eq-go (check_form lib h r) _ s t reply e in
      let (posted, _, _, _, verifier, _, same1) = check_form-eq-go s s1 e1 in
      let (_, s2, e2, k2) = bind-eq-go (authenticate_client lib h r) _ s1 t reply k1 in
      let (client, found, authentic, same2) =
        authenticate_client-eq-go s s2
          (subst (λ v. authenticate_client lib h r v ≡ (go tt, s2)) same1 e2) in
      let (entry, s3, e3, k3) = bind-eq-go (redeem lib h r) _ s2 t reply k2 in
      let (redeemed, same_client, verified, same3) =
        redeem-eq-go s s3 entry (subst (λ v. redeem lib h r v ≡ (go entry, s3)) same2 e3) in
      let (email, s4, e4, k4) = bind-eq-go (resolve_email lib h r entry) _ s3 t reply k3 in
      let (access_token, identified, signed, replied, same4) = issue-eq-go s4 t email reply k4 in
      record {
        entry = entry;
        email = email;
        client = client;
        access_token = access_token;
        posted = posted;
        verifier_given = verifier;
        registered = found;
        authenticated = authentic;
        redeemed = redeemed;
        same_client = same_client;
        verified = verified;
        resolved =
            subst (λ v. Resolves lib h r v t entry email) same3
              (resolve_email-eq-go lib h r s3 t entry email
                (subst (λ v. resolve_email lib h r entry s3 ≡ (go email, v)) (sym same4) e4));
        identified = identified;
        signed =
            subst
              (λ (v : State W).
                generate_token lib.jwt h.jwt (lib.now v.world) email (r.form "client_id")
                ≡ some access_token)
              (sym same4) signed;
        replied = replied;
      }
