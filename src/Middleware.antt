-- ===== src/Middleware.antt =====
-- middleware.go and the gate of handlers_admin_mfa.go: the checks in front of the handlers that serve
-- MCP requests, the dashboard and the administration. They read the state and change nothing.
pub mod Laws
pub mod MfaGate
use kite_mcp_oauth.Prelude.{
  ℕ, ◌*◌, String, Bool, true, false, not, ◌||◌, ◌&&◌, Option, none, some, List, [], ◌∷◌, ◌==◌, ◌<>◌,
  starts_with, trim_prefix, is_relative, if◌then◌else◌,
}
use kite_mcp_oauth.Time.{minute}
use kite_mcp_oauth.Jwt.{Claims, generate_token_with_expiry, validate_token}
use kite_mcp_oauth.Http.{Request, Reply, http_error, redirect, bare, next}
use kite_mcp_oauth.Services.{AdminUserStore, Library}
use kite_mcp_oauth.Handler.{Handler, State}
use kite_mcp_oauth.Handler.Replies.{cookie_name}

abbrev pub cors_preflight : Reply
cors_preflight = bare 204 (
    ("Access-Control-Allow-Origin", "*")
    ∷ ("Access-Control-Allow-Methods", "GET, POST, OPTIONS")
    ∷ (
      "Access-Control-Allow-Headers",
      "Content-Type, Authorization, Mcp-Session-Id, Mcp-Protocol-Version",
    )
    ∷ ("Access-Control-Max-Age", "86400")
    ∷ [])

abbrev pub bearer : String
bearer = "Bearer "

-- `len(claims.Audience) == 1 && claims.Audience[0] == "dashboard"`
unfoldable pub is_dashboard_only : List String → Bool
is_dashboard_only (a ∷ []) = a == "dashboard"
is_dashboard_only _ = false

abbrev pub admin_mfa_cookie_name : String
admin_mfa_cookie_name = "kite_admin_mfa"

abbrev pub admin_mfa_audience : String
admin_mfa_audience = "admin-mfa"

abbrev pub admin_mfa_token_expiry : ℕ
admin_mfa_token_expiry = 15 * minute

module _ {W : Type 0} (lib : Library W) (h : Handler W) where
  abbrev resource_metadata_url : String
  resource_metadata_url = h.config.external_url <> "/.well-known/oauth-protected-resource"

  abbrev unauthorized : String → Reply
  unauthorized challenge = bare 401 (
      ("WWW-Authenticate", challenge <> ("resource_metadata=\"" <> (resource_metadata_url <> "\"")))
      ∷ [])

  abbrev pub no_credentials : Reply
  no_credentials = unauthorized "Bearer "

  abbrev pub invalid_token : Reply
  invalid_token = unauthorized "Bearer error=\"invalid_token\", "

  -- `h.kiteTokenChecker != nil && !h.kiteTokenChecker(email)`
  unfoldable pub kite_token_expired : String → State W → Bool
  kite_token_expired email s = elim h.kite_token_checker [
    | none ↦ false
    | some checker ↦ not (checker s.world email)
  ]

  unfoldable pub require_auth : Request → State W → Reply
  unfolding is_dashboard_only
  require_auth r s =
      let auth = r.header "Authorization" in
      if r.method == "OPTIONS"
      then cors_preflight
      else if auth == "" || not (starts_with auth bearer)
      then no_credentials
      else elim (validate_token lib.jwt h.jwt (lib.now s.world) (trim_prefix auth bearer) []) [
        | none ↦ invalid_token
        | some claims ↦
            if is_dashboard_only claims.audience
            then invalid_token
            else if kite_token_expired claims.subject s
            then invalid_token
            else next claims.subject
      ]

  abbrev dashboard_claims : State W → String → Option Claims
  dashboard_claims s token = validate_token lib.jwt h.jwt (lib.now s.world) token ("dashboard" ∷ [])

  -- The bearer token of the request, if it is one for the dashboard.
  unfoldable pub bearer_claims : Request → State W → Option Claims
  bearer_claims r s =
      let auth = r.header "Authorization" in
      if starts_with auth bearer then dashboard_claims s (trim_prefix auth bearer) else none

  unfoldable pub cookie_claims : Request → State W → Option Claims
  cookie_claims r s = elim (r.cookie cookie_name) [
    | none ↦ none
    | some token ↦ if token == "" then none else dashboard_claims s token
  ]

  -- The page to return to after the login.
  unfoldable pub return_path : Request → String
  return_path r = if is_relative r.path then r.path else "/dashboard"

  unfoldable pub require_auth_browser : Request → State W → Reply
  unfolding bearer_claims cookie_claims return_path
  require_auth_browser r s = elim (bearer_claims r s) [
    | some claims ↦ next claims.subject
    | none ↦ elim (cookie_claims r s) [
      | some claims ↦ next claims.subject
      | none ↦
          redirect
            (h.config.external_url <> ("/auth/login?redirect=" <> lib.query_escape (return_path r)))
    ]
  ]

  unfoldable pub mint_admin_mfa_token : String → ℕ → Option String
  mint_admin_mfa_token email now =
      generate_token_with_expiry lib.jwt h.jwt now email admin_mfa_audience admin_mfa_token_expiry

  -- Whether the MFA cookie is valid for this email.
  unfoldable pub has_passed_mfa : Request → State W → Bool
  has_passed_mfa r s = elim (r.cookie admin_mfa_cookie_name) [
    | none ↦ false
    | some token ↦
        if token == ""
        then false
        else elim (validate_token lib.jwt h.jwt (lib.now s.world) token (admin_mfa_audience ∷ [])) [
          | none ↦ false
          | some claims ↦ lib.equal_fold claims.subject r.context_email
        ]
  ]

  -- `h.userStore != nil && h.userStore.HasTOTP(email)`
  unfoldable pub is_enrolled : String → State W → Bool
  is_enrolled email s = elim h.user_store [
    | none ↦ false
    | some users ↦ users.has_totp s.world email
  ]

  unfoldable pub require_admin_mfa : Request → State W → Reply
  unfolding has_passed_mfa
  require_admin_mfa r s =
      if r.context_email == ""
      then http_error "Unauthorized" 401
      else if has_passed_mfa r s
      then next r.context_email
      else redirect (
          (if is_enrolled r.context_email s
            then "/auth/admin-mfa/verify"
            else "/auth/admin-mfa/enroll")
          <> ("?redirect=" <> r.path))
