-- ===== src/Middleware/Laws.antt =====
-- Whom the gates of middleware.go let through.
use kite_mcp_oauth.Prelude.{
  ℕ, ◌+◌, ◌<◌, String, ◌≡◌, ◌≢◌, refl, ap, subst, true, false, ◌⊎◌, inl, inr, some, none, [], ◌∷◌,
  arith, eq_iff, ◌<>◌, contains, starts_with, starts_with-append, trim_prefix, trim_prefix-append,
  Option-cases,
}
use kite_mcp_oauth.Jwt.{Claims, claims_for, generate_token_with_expiry, validate_token}
use kite_mcp_oauth.Jwt.Laws.{JwtLaws, validate_token-audience, validate_token-sign}
use kite_mcp_oauth.Http.{Request, next, redirect}
use kite_mcp_oauth.Services.{Library}
use kite_mcp_oauth.Handler.{Handler, State}
use kite_mcp_oauth.Handler.Replies.{cookie_name}
use kite_mcp_oauth.Middleware.{
  bearer, is_dashboard_only, admin_mfa_audience, admin_mfa_token_expiry, kite_token_expired,
  require_auth, bearer_claims, cookie_claims, return_path, require_auth_browser,
  mint_admin_mfa_token, invalid_token,
}

bearer-ne-nil : (t : String) → bearer <> t ≢ ""
bearer-ne-nil t e =
    let p : starts_with "" bearer ≡ true =
      subst (λ x. starts_with x bearer ≡ true) e (starts_with-append bearer t) in
    cc p

module _ {W : Type 0} (lib : Library W) (h : Handler W) (r : Request) (s : State W) where
  -- A request that RequireAuth hands on carries a bearer token that validates to its email, is not
  -- for the dashboard alone, and whose email has no expired Kite token.
  pub require_auth-eq-next :
      (email : String)
      → require_auth lib h r s ≡ next email
      → (claims : Claims) × (starts_with (r.header "Authorization") bearer ≡ true)
        × (validate_token lib.jwt h.jwt
              (lib.now s.world)
              (trim_prefix (r.header "Authorization") bearer)
              []
            ≡ some claims)
        × (claims.subject ≡ email)
        × (claims.audience ≢ "dashboard" ∷ [])
        × (kite_token_expired lib h email s ≡ false)
  unfolding require_auth
  require_auth-eq-next email e =
      elim (Option-cases (
        validate_token lib.jwt h.jwt (lib.now s.world)
          (trim_prefix (r.header "Authorization") bearer) [])) [
            | inl invalid ↦ absurd (ground arith)
            | inr (claims, valid) ↦ (
              claims,
              ground arith,
              valid,
              ground arith,
              λ d. ground (arith, eq_iff "dashboard" "dashboard", ap is_dashboard_only d),
              ground arith,
            )
          ]

  -- A bearer token that validates, for the dashboard alone, is refused.
  pub require_auth_refuses :
      (t : String) (claims : Claims)
      → r.method ≢ "OPTIONS"
      → r.header "Authorization" ≡ bearer <> t
      → validate_token lib.jwt h.jwt (lib.now s.world) t [] ≡ some claims
      → is_dashboard_only claims.audience ≡ true
      → require_auth lib h r s ≡ invalid_token lib h
  unfolding require_auth
  require_auth_refuses t claims n auth valid only = ground (
    arith,
    eq_iff r.method "OPTIONS",
    eq_iff (bearer <> t) "",
    bearer-ne-nil t,
    starts_with-append bearer t,
    trim_prefix-append bearer t,
  )

  -- A request with a bearer token that validates is handed on with the token's subject, if the token
  -- is not for the dashboard alone and the subject has no expired Kite token.
  pub require_auth_accepts :
      (t : String) (claims : Claims)
      → r.method ≢ "OPTIONS"
      → r.header "Authorization" ≡ bearer <> t
      → validate_token lib.jwt h.jwt (lib.now s.world) t [] ≡ some claims
      → is_dashboard_only claims.audience ≡ false
      → kite_token_expired lib h claims.subject s ≡ false
      → require_auth lib h r s ≡ next claims.subject
  unfolding require_auth
  require_auth_accepts t claims n auth valid other fresh = ground (
    arith,
    eq_iff r.method "OPTIONS",
    eq_iff (bearer <> t) "",
    bearer-ne-nil t,
    starts_with-append bearer t,
    trim_prefix-append bearer t,
  )

  -- Where the dashboard's claims come from: the request's bearer token, or its cookie.
  pub data Presents (claims : Claims) : Type 0 where
    by_header :
        (t : String)
        → validate_token lib.jwt h.jwt (lib.now s.world) t ("dashboard" ∷ []) ≡ some claims
        → starts_with (r.header "Authorization") bearer ≡ true
        → t ≡ trim_prefix (r.header "Authorization") bearer
        → Presents claims
    by_cookie :
        (t : String)
        → validate_token lib.jwt h.jwt (lib.now s.world) t ("dashboard" ∷ []) ≡ some claims
        → r.cookie cookie_name ≡ some t
        → t ≢ ""
        → Presents claims

  bearer_claims-Presents : (c : Claims) → bearer_claims lib h r s ≡ some c → Presents c
  unfolding bearer_claims
  bearer_claims-Presents c e =
      by_header (trim_prefix (r.header "Authorization") bearer) (ground arith) (ground arith) refl

  cookie_claims-Presents : (c : Claims) → cookie_claims lib h r s ≡ some c → Presents c
  unfolding cookie_claims
  cookie_claims-Presents c e = elim (Option-cases (r.cookie cookie_name)) [
    | inl missing ↦ absurd (ground arith)
    | inr (t, found) ↦ by_cookie t (ground arith) found (ground (arith, eq_iff t ""))
  ]

  Presents-audience :
      (c : Claims) → JwtLaws lib.jwt → Presents c → contains c.audience "dashboard" ≡ true
  Presents-audience c laws (by_header t valid _ _) =
      validate_token-audience lib.jwt laws h.jwt (lib.now s.world) t "dashboard" [] c valid
  Presents-audience c laws (by_cookie t valid _ _) =
      validate_token-audience lib.jwt laws h.jwt (lib.now s.world) t "dashboard" [] c valid

  -- With golang-jwt as documented (`JwtLaws`), a request that RequireAuthBrowser hands on presents,
  -- in its header or its cookie, a token that validates to its email and has the dashboard among
  -- its audiences.
  pub require_auth_browser-eq-next :
      (email : String)
      → JwtLaws lib.jwt
      → require_auth_browser lib h r s ≡ next email
      → (c : Claims) × Presents c × (c.subject ≡ email) × (contains c.audience "dashboard" ≡ true)
  unfolding require_auth_browser
  require_auth_browser-eq-next email laws e = elim (Option-cases (bearer_claims lib h r s)) [
    | inr (c, found) ↦
        let p = bearer_claims-Presents c found in (c, p, ground arith, Presents-audience c laws p)
    | inl none_there ↦ elim (Option-cases (cookie_claims lib h r s)) [
      | inr (c, found) ↦
          let p = cookie_claims-Presents c found in (c, p, ground arith, Presents-audience c laws p)
      | inl nowhere ↦ absurd (ground arith)
    ]
  ]

  pub require_auth_browser_accepts :
      (t : String) (c : Claims)
      → t ≢ ""
      → bearer_claims lib h r s ≡ none
      → r.cookie cookie_name ≡ some t
      → validate_token lib.jwt h.jwt (lib.now s.world) t ("dashboard" ∷ []) ≡ some c
      → require_auth_browser lib h r s ≡ next c.subject
  unfolding require_auth_browser cookie_claims
  require_auth_browser_accepts t c given no_header cookie valid = ground (arith, eq_iff t "")

  -- A token in either place is found.
  Presents-found :
      (c : Claims)
      → Presents c
      → (bearer_claims lib h r s ≢ none) ⊎ (cookie_claims lib h r s ≢ none)
  unfolding bearer_claims cookie_claims
  Presents-found c (by_header t valid starts same) = inl (λ none_there. ground arith)
  Presents-found c (by_cookie t valid found given) = inr (λ none_there. ground (arith, eq_iff t ""))

  -- The gate of the dashboard opens to exactly the requests that present a token for the dashboard, in
  -- the header or, whatever the header has, in the cookie (`Presents`): RequireAuthBrowser hands on a
  -- request that presents one, with the email of one that it presents, and sends a request that
  -- presents none to the login page, with the path to return to.
  pub require_auth_browser_decides :
      ((c : Claims) × Presents c × (require_auth_browser lib h r s ≡ next c.subject))
      ⊎ (¬ ((c : Claims) × Presents c))
        × (require_auth_browser lib h r s
            ≡ redirect (
                h.config.external_url
                <> ("/auth/login?redirect=" <> lib.query_escape (return_path lib h r))))
  unfolding require_auth_browser
  require_auth_browser_decides = elim (Option-cases (bearer_claims lib h r s)) [
    | inr (c, found) ↦ inl (c, bearer_claims-Presents c found, ground arith)
    | inl no_header ↦ elim (Option-cases (cookie_claims lib h r s)) [
      | inr (c, found) ↦ inl (c, cookie_claims-Presents c found, ground arith)
      | inl no_cookie ↦ inr (
        (λ (c, p). elim (Presents-found c p) [ inl n ↦ n no_header | inr n ↦ n no_cookie ]),
        ground arith,
      )
    ]
  ]

  -- With golang-jwt as documented (`JwtLaws`), a minted MFA token is a bearer token for MCP
  -- requests as well: until it expires, RequireAuth hands a request with it on, unless it is a
  -- preflight, if its email has no expired Kite token.
  pub mfa_token_is_bearer :
      (email t : String) (minted : ℕ)
      → JwtLaws lib.jwt
      → mint_admin_mfa_token lib h email minted ≡ some t
      → lib.now s.world < lib.jwt.new_numeric_date (minted + admin_mfa_token_expiry)
      → r.method ≢ "OPTIONS"
      → r.header "Authorization" ≡ bearer <> t
      → kite_token_expired lib h email s ≡ false
      → require_auth lib h r s ≡ next email
  unfolding mint_admin_mfa_token generate_token_with_expiry
  mfa_token_is_bearer email t minted laws signed live n auth fresh =
      require_auth_accepts t
        (claims_for lib.jwt email admin_mfa_audience minted admin_mfa_token_expiry) n auth
        (validate_token-sign lib.jwt laws h.jwt (lib.now s.world) minted admin_mfa_token_expiry
          email admin_mfa_audience t [] signed live tt)
        (unfold is_dashboard_only in refl) fresh
