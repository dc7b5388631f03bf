-- ===== src/Middleware/MfaGate.antt =====
-- Whom the gate of handlers_admin_mfa.go lets through, and that a minted MFA token passes it.
use kite_mcp_oauth.Prelude.{
  ℕ, ◌+◌, ◌<◌, String, ◌≡◌, ◌≢◌, refl, true, inl, inr, some, [], ◌∷◌, arith, eq_iff, contains,
  Option-cases,
}
use kite_mcp_oauth.Jwt.{Claims, claims_for, generate_token_with_expiry, validate_token}
use kite_mcp_oauth.Jwt.Laws.{JwtLaws, validate_token-audience, validate_token-sign}
use kite_mcp_oauth.Http.{Request, next}
use kite_mcp_oauth.Services.{Library}
use kite_mcp_oauth.Handler.{Handler, State}
use kite_mcp_oauth.Middleware.{
  admin_mfa_cookie_name, admin_mfa_audience, admin_mfa_token_expiry, mint_admin_mfa_token,
  has_passed_mfa, require_admin_mfa,
}

module _ {W : Type 0} (lib : Library W) (h : Handler W) (r : Request) (s : State W) where
  has_passed_mfa_lem :
      has_passed_mfa lib h r s ≡ true
      → (t : String) × (c : Claims) × (r.cookie admin_mfa_cookie_name ≡ some t)
        × (validate_token lib.jwt h.jwt (lib.now s.world) t (admin_mfa_audience ∷ []) ≡ some c)
        × (lib.equal_fold c.subject r.context_email ≡ true)
  unfolding has_passed_mfa
  has_passed_mfa_lem e = elim (Option-cases (r.cookie admin_mfa_cookie_name)) [
    | inl missing ↦ absurd (ground arith)
    | inr (t, found) ↦
        elim (Option-cases
          (validate_token lib.jwt h.jwt (lib.now s.world) t (admin_mfa_audience ∷ []))) [
            | inl invalid ↦ absurd (ground arith)
            | inr (c, valid) ↦ (t, c, found, valid, ground arith)
          ]
  ]

  require_admin_mfa_lem :
      (email : String)
      → require_admin_mfa lib h r s ≡ next email
      → (email ≡ r.context_email) × (email ≢ "") × (has_passed_mfa lib h r s ≡ true)
  unfolding require_admin_mfa
  require_admin_mfa_lem email e = ground (arith, eq_iff r.context_email "")

  -- With golang-jwt as documented (`JwtLaws`), a request that RequireAdminMFA hands on has an email
  -- in its context and an MFA cookie that validates, has the MFA audience, and was minted for an
  -- email that is the same up to case.
  pub require_admin_mfa-eq-next :
      (email : String)
      → JwtLaws lib.jwt
      → require_admin_mfa lib h r s ≡ next email
      → (t : String) × (c : Claims) × (r.cookie admin_mfa_cookie_name ≡ some t)
        × (validate_token lib.jwt h.jwt (lib.now s.world) t (admin_mfa_audience ∷ []) ≡ some c)
        × (contains c.audience admin_mfa_audience ≡ true)
        × (lib.equal_fold c.subject email ≡ true)
        × (email ≡ r.context_email)
        × (email ≢ "")
  unfolding require_admin_mfa
  require_admin_mfa-eq-next email laws e =
      let (here, given, passed) = require_admin_mfa_lem email e in
      let (t, c, found, valid, same) = has_passed_mfa_lem passed in
      (
        t,
        c,
        found,
        valid,
        validate_token-audience lib.jwt laws h.jwt (lib.now s.world) t admin_mfa_audience [] c
            valid,
        rw here same,
        here,
        given,
      )

  -- A request with an email in its context and an MFA cookie that validates to that email is handed
  -- on.
  pub require_admin_mfa_accepts :
      (t : String) (c : Claims)
      → t ≢ ""
      → r.context_email ≢ ""
      → r.cookie admin_mfa_cookie_name ≡ some t
      → validate_token lib.jwt h.jwt (lib.now s.world) t (admin_mfa_audience ∷ []) ≡ some c
      → lib.equal_fold c.subject r.context_email ≡ true
      → require_admin_mfa lib h r s ≡ next r.context_email
  unfolding require_admin_mfa
  require_admin_mfa_accepts t c nt ne found valid same =
      ground (arith, eq_iff r.context_email "", eq_iff t "")

  -- With golang-jwt as documented (`JwtLaws`), a minted MFA token passes the gate: until the
  -- numeric date of fifteen minutes after, RequireAdminMFA hands on a request of the email it was
  -- minted for that has it, not empty, as its MFA cookie, if that email is equal to itself up to
  -- case.
  pub mfa_token_passes_gate :
      (t : String) (minted : ℕ)
      → JwtLaws lib.jwt
      → mint_admin_mfa_token lib h r.context_email minted ≡ some t
      → lib.now s.world < lib.jwt.new_numeric_date (minted + admin_mfa_token_expiry)
      → t ≢ ""
      → r.context_email ≢ ""
      → r.cookie admin_mfa_cookie_name ≡ some t
      → lib.equal_fold r.context_email r.context_email ≡ true
      → require_admin_mfa lib h r s ≡ next r.context_email
  unfolding mint_admin_mfa_token generate_token_with_expiry
  mfa_token_passes_gate t minted laws signed live given named cookie fold =
      require_admin_mfa_accepts t
        (claims_for lib.jwt r.context_email admin_mfa_audience minted admin_mfa_token_expiry) given
        named cookie
        (validate_token-sign lib.jwt laws h.jwt (lib.now s.world) minted admin_mfa_token_expiry
          r.context_email admin_mfa_audience t (admin_mfa_audience ∷ []) signed live refl)
        fold
