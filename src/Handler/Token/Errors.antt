-- ===== src/Handler/Token/Errors.antt =====
-- The error responses of each part of `Token` in handlers_oauth.go: what each of them means, and what
-- it leaves of the state.
use kite_mcp_oauth.Prelude.{
  String, ◌≡◌, ◌≢◌, false, ◌⊎◌, Option, none, some, arith, eq_iff, Option-cases, Bool-cases, inl,
  inr, ◌==◌,
}
use kite_mcp_oauth.AuthCodes.{AuthCodeEntry, consume}
use kite_mcp_oauth.Clients.{ClientEntry, get}
use kite_mcp_oauth.Http.{Request, Reply}
use kite_mcp_oauth.Services.{Library}
use kite_mcp_oauth.Handler.{Handler, State, Flow, stop}
use kite_mcp_oauth.Handler.Replies.{method_not_allowed, error_reply, described}
use kite_mcp_oauth.Handler.Token.{
  check_form, authenticate_client, challenge_of, redeem, deferred_secret, deferred_exchange,
  resolve_email, issue,
}

module _ {W : Type 0} (lib : Library W) (h : Handler W) (r : Request) where
  -- A request that is not well formed.
  pub data FormError (reply : Reply) : Type 0 where
    wrong_method : r.method ≢ "POST" → reply ≡ method_not_allowed → FormError reply
    unparsed : r.form_parses ≡ false → reply ≡ error_reply 400 "invalid_request" → FormError reply
    wrong_grant :
        r.form "grant_type" ≢ "authorization_code"
        → reply ≡ error_reply 400 "unsupported_grant_type"
        → FormError reply
    incomplete :
        r.form "code" ≡ "" ⊎ r.form "code_verifier" ≡ "" ⊎ r.form "client_id" ≡ ""
        → reply ≡ described 400 "invalid_request" "code, code_verifier, and client_id required"
        → FormError reply

  pub check_form-eq-stop :
      (s t : State W) (reply : Reply)
      → check_form lib h r s ≡ (stop reply, t)
      → FormError reply × (t ≡ s)
  unfolding check_form
  check_form-eq-stop s t reply e = elim (Bool-cases (r.method == "POST")) [
    | inr other ↦
        (wrong_method (ground (arith, eq_iff r.method "POST")) (ground arith), ground arith)
    | inl posted ↦ elim (Bool-cases r.form_parses) [
      | inr garbled ↦ (unparsed garbled (ground arith), ground arith)
      | inl parses ↦ elim (Bool-cases (r.form "grant_type" == "authorization_code")) [
        | inr other ↦ (
          wrong_grant (ground (arith, eq_iff (r.form "grant_type") "authorization_code"))
              (ground arith),
          ground arith,
        )
        | inl granted ↦ elim (Bool-cases (r.form "code" == "")) [
          | inl no_code ↦ (
            incomplete (inl ((eq_iff (r.form "code") "").0 no_code)) (ground arith),
            ground arith,
          )
          | inr code ↦ elim (Bool-cases (r.form "code_verifier" == "")) [
            | inl no_verifier ↦ (
              incomplete (inr (inl ((eq_iff (r.form "code_verifier") "").0 no_verifier)))
                  (ground arith),
              ground arith,
            )
            | inr verifier ↦ (
              incomplete (inr (inr (ground (arith, eq_iff (r.form "client_id") ""))))
                  (ground arith),
              ground arith,
            )
          ]
        ]
      ]
    ]
  ]

  -- The client is not registered, or it has a secret that is not the request's.
  abbrev pub IsForeign : State W → Type 0
  IsForeign s =
      (c : ClientEntry)
      → get (r.form "client_id") s.clients ≡ some c
      → (c.is_kite_api_key ≡ false) × (c.client_secret ≢ r.form "client_secret")

  pub authenticate_client-eq-stop :
      (s t : State W) (reply : Reply)
      → authenticate_client lib h r s ≡ (stop reply, t)
      → (reply ≡ error_reply 401 "invalid_client") × IsForeign s × (t ≡ s)
  unfolding authenticate_client
  authenticate_client-eq-stop s t reply e =
      elim (Option-cases (get (r.form "client_id") s.clients)) [
        | inl missing ↦ (ground arith, (λ c found. cc (missing, found)), ground arith)
        | inr (x, there) ↦ (
          ground arith,
          λ c found.
              let same : c ≡ x = ground arith in
              (
                ground (arith, eq_iff x.client_secret (r.form "client_secret")),
                ground (arith, eq_iff x.client_secret (r.form "client_secret")),
              ),
          ground arith,
        )
      ]

  abbrev pub consumed : State W → Option AuthCodeEntry
  consumed s = (consume (r.form "code") (lib.now s.world) s.auth_codes).0

  -- A code that gives no token, in the state in which it was presented.
  pub data GrantError (s : State W) (reply : Reply) : Type 0 where
    unknown_code :
        consumed s ≡ none
        → reply ≡ described 400 "invalid_grant" "code expired or already used"
        → GrantError s reply
    other_client :
        (entry : AuthCodeEntry)
        → consumed s ≡ some entry
        → entry.client_id ≢ r.form "client_id"
        → reply ≡ described 400 "invalid_grant" "client_id mismatch"
        → GrantError s reply
    wrong_verifier :
        (entry : AuthCodeEntry)
        → consumed s ≡ some entry
        → challenge_of lib h (r.form "code_verifier") ≢ entry.code_challenge
        → reply ≡ described 400 "invalid_grant" "PKCE verification failed"
        → GrantError s reply
    -- a deferred exchange that has no secret, or that fails
    not_exchanged :
        (entry : AuthCodeEntry)
        → consumed s ≡ some entry
        → entry.email ≡ ""
        → entry.request_token ≢ ""
        → reply
            ≡ described 400 "invalid_request"
                "client_secret (Kite API secret) required for per-user authentication"
          ⊎ reply
            ≡ described 400 "invalid_grant"
                "Kite authentication failed — check your API key and secret"
        → GrantError s reply
    -- no email, or no signature
    failed :
        reply ≡ described 500 "server_error" "failed to determine user identity"
          ⊎ reply ≡ error_reply 500 "server_error"
        → GrantError s reply

  abbrev pub after_consume : State W → State W
  after_consume s = record s {
    auth_codes = (consume (r.form "code") (lib.now s.world) s.auth_codes).1;
  }

  pub redeem-eq-stop :
      (s t : State W) (reply : Reply)
      → redeem lib h r s ≡ (stop reply, t)
      → GrantError s reply × (t ≡ after_consume s)
  unfolding redeem
  redeem-eq-stop s t reply e = elim (Option-cases (consumed s)) [
    | inl missing ↦ (unknown_code missing (ground arith), ground arith)
    | inr (x, found) ↦ elim (Bool-cases (x.client_id == r.form "client_id")) [
      | inr other ↦ (
        other_client x found (ground (arith, eq_iff x.client_id (r.form "client_id")))
            (ground arith),
        ground arith,
      )
      | inl same ↦ (
        wrong_verifier x found
            (ground (arith, eq_iff (challenge_of lib h (r.form "code_verifier")) x.code_challenge))
            (ground arith),
        ground arith,
      )
    ]
  ]

  -- What a deferred exchange leaves alone.
  abbrev pub SameStores : State W → State W → Type 0
  SameStores s t = (t.auth_codes ≡ s.auth_codes) × (t.clients ≡ s.clients) × (t.cookies ≡ s.cookies)

  pub resolve_email-SameStores :
      (s t : State W) (entry : AuthCodeEntry) (f : Flow String)
      → resolve_email lib h r entry s ≡ (f, t)
      → SameStores s t
  unfolding resolve_email deferred_exchange deferred_secret
  resolve_email-SameStores s t entry f e =
      ground (arith, Option-cases (h.exchanger.get_secret_by_api_key s.world (r.form "client_id")))

  pub resolve_email-eq-stop :
      (s t : State W) (entry : AuthCodeEntry) (reply : Reply)
      → resolve_email lib h r entry s ≡ (stop reply, t)
      → (entry.email ≡ "")
        × (entry.request_token ≢ "")
        × (reply
              ≡ described 400 "invalid_request"
                  "client_secret (Kite API secret) required for per-user authentication"
            ⊎ reply
              ≡ described 400 "invalid_grant"
                  "Kite authentication failed — check your API key and secret")
  unfolding resolve_email deferred_exchange deferred_secret
  resolve_email-eq-stop s t entry reply e = ground (
    arith,
    eq_iff entry.email "",
    eq_iff entry.request_token "",
    eq_iff (r.form "client_secret") "",
    Option-cases (h.exchanger.get_secret_by_api_key s.world (r.form "client_id")),
  )

  pub issue-eq-stop :
      (s t : State W) (email : String) (reply : Reply)
      → issue lib h r email s ≡ (stop reply, t)
      → (reply ≡ described 500 "server_error" "failed to determine user identity"
          ⊎ reply ≡ error_reply 500 "server_error")
        × (t ≡ s)
  unfolding issue
  issue-eq-stop s t email reply e = ground (arith, eq_iff email "")
