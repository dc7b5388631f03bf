-- ===== src/Flows/Dashboard.antt =====
-- The sessions of the dashboard from end to end: the logins of handlers_admin.go, google_sso.go and
-- handlers_browser.go, and the gates of middleware.go on what they give to the browser.
use kite_mcp_oauth.Prelude.{
  ◌+◌, ◌<◌, String, ◌≡◌, ◌≢◌, refl, ap, ◌∙◌, true, false, inl, inr, some, List, [], ◌∷◌, ◌<>◌,
  starts_with, ◌++◌,
}
use kite_mcp_oauth.Jwt.{claims_for, generate_token_with_expiry}
use kite_mcp_oauth.Jwt.Laws.{JwtLaws, validate_token-sign}
use kite_mcp_oauth.Http.{Request, Reply, Cookie, next}
use kite_mcp_oauth.Services.{Library}
use kite_mcp_oauth.Handler.{Handler, State, Flow, go}
use kite_mcp_oauth.Handler.Cookies.{sets, held, held-append}
use kite_mcp_oauth.Handler.Replies.{cookie_name, auth_cookie, dashboard_token_expiry}
use kite_mcp_oauth.Handler.AdminLogin.{login_email, handle_admin_login}
use kite_mcp_oauth.Handler.AdminLogin.Laws.{handle_admin_login-LoggedIn}
use kite_mcp_oauth.Handler.Google.{handle_google_callback}
use kite_mcp_oauth.Handler.Google.Session.{handle_google_callback-eq-go}
use kite_mcp_oauth.Handler.Browser.{handle_browser_auth_callback}
use kite_mcp_oauth.Handler.Browser.Laws.{handle_browser_auth_callback-eq-go}
use kite_mcp_oauth.Middleware.{
  bearer, bearer_claims, is_dashboard_only, invalid_token, require_auth, require_auth_browser,
}
use kite_mcp_oauth.Middleware.Laws.{require_auth_browser_accepts, require_auth_refuses}

module _ {W : Type 0} (lib : Library W) (h : Handler W) where
  -- A login that has succeeded, and for whom: with a password, of which the cookie tells, with
  -- Google, or with Kite.
  pub data DashboardLogin (s t : State W) : String → Type 0 where
    by_password :
        (r : Request) (f : Flow Reply)
        → handle_admin_login lib h r s ≡ (f, t)
        → sets cookie_name s.cookies ≡ false
        → sets cookie_name t.cookies ≡ true
        → DashboardLogin s t (login_email lib h r)
    by_google :
        (r : Request) (reply : Reply)
        → (e : handle_google_callback lib h r s ≡ (go reply, t))
        → DashboardLogin s t (handle_google_callback-eq-go lib h r s t reply e).email
    by_kite :
        (r : Request) (request_token : String) (reply : Reply)
        → (e : handle_browser_auth_callback lib h r request_token s ≡ (go reply, t))
        → DashboardLogin s t
            (handle_browser_auth_callback-eq-go lib h r request_token s t reply e).email

  -- The token that the browser has been given.
  record Given (t : State W) (email : String) : Type 0 where
    token : String
    kept : held cookie_name t.cookies ≡ some token
    signed :
        generate_token_with_expiry lib.jwt h.jwt
          (lib.now t.world)
          email
          "dashboard"
          dashboard_token_expiry
        ≡ some token

  cookie_kept :
      (cs : List Cookie) (t : State W) (email token : String)
      → t.cookies ≡ cs ++ auth_cookie token ∷ []
      → generate_token_with_expiry lib.jwt h.jwt
          (lib.now t.world)
          email
          "dashboard"
          dashboard_token_expiry
        ≡ some token
      → Given t email
  cookie_kept cs t email token after signed = record {
    token = token;
    kept = ap (held cookie_name) after ∙ held-append cookie_name cs (auth_cookie token) refl;
    signed = signed;
  }

  -- It is signed at the time of the response.
  signed_then :
      (s t : State W) (email token : String)
      → t.world ≡ s.world
      → generate_token_with_expiry lib.jwt h.jwt
          (lib.now s.world)
          email
          "dashboard"
          dashboard_token_expiry
        ≡ some token
      → generate_token_with_expiry lib.jwt h.jwt
          (lib.now t.world)
          email
          "dashboard"
          dashboard_token_expiry
        ≡ some token
  signed_then s t email token same signed = rw same signed

  DashboardLogin-Given : (s t : State W) (email : String) → DashboardLogin s t email → Given t email
  DashboardLogin-Given s t email (by_password r f e before after) =
      elim (handle_admin_login-LoggedIn lib h r s t f e) [
        | inl same ↦ absurd (cc (same, before, after))
        | inr (l, _) ↦
            cookie_kept s.cookies t (login_email lib h r) l.token
              (ap (λ (x : State W). x.cookies) l.after)
              (signed_then s t (login_email lib h r) l.token (ap (λ (x : State W). x.world) l.after)
                l.signed)
      ]
  DashboardLogin-Given s t email (by_google r reply e) =
      let g = handle_google_callback-eq-go lib h r s t reply e in
      cookie_kept g.s3.cookies t g.email g.token (ap (λ (x : State W). x.cookies) g.after)
        (signed_then g.s3 t g.email g.token (ap (λ (x : State W). x.world) g.after) g.signed)
  DashboardLogin-Given s t email (by_kite r request_token reply e) =
      let k = handle_browser_auth_callback-eq-go lib h r request_token s t reply e in
      cookie_kept s.cookies t k.email k.token (ap (λ (x : State W). x.cookies) k.after) k.signed

  -- What a login gives to the browser opens the dashboard and not MCP: whichever login it was, with
  -- golang-jwt as documented (`JwtLaws`), until the token of the cookie that the browser keeps
  -- expires, RequireAuthBrowser hands a request that has the cookie, and no bearer token, on with the
  -- email of the login, and RequireAuth refuses a request that has the token as its bearer token, if
  -- the token is not empty and the request no preflight.
  pub dashboard_cookie_scope :
      (s t : State W) (email token : String) (r3 r4 : Request) (s3 : State W)
      → JwtLaws lib.jwt
      → DashboardLogin s t email
      → held cookie_name t.cookies ≡ some token
      → token ≢ ""
      → lib.now s3.world < lib.jwt.new_numeric_date (lib.now t.world + dashboard_token_expiry)
      → starts_with (r3.header "Authorization") bearer ≡ false
      → r3.cookie cookie_name ≡ some token
      → r4.method ≢ "OPTIONS"
      → r4.header "Authorization" ≡ bearer <> token
      → (require_auth_browser lib h r3 s3 ≡ next email)
        × (require_auth lib h r4 s3 ≡ invalid_token lib h)
  unfolding generate_token_with_expiry bearer_claims is_dashboard_only
  dashboard_cookie_scope s t email token r3 r4 s3 laws login kept given live bare cookie n auth =
      let g = DashboardLogin-Given s t email login in
      let claims = claims_for lib.jwt email "dashboard" (lib.now t.world) dashboard_token_expiry in
      let same : g.token ≡ token = cc (g.kept, kept) in
      let signed : lib.jwt.sign h.jwt.secret claims ≡ some token = g.signed ∙ ap some same in
      (
        require_auth_browser_accepts lib h r3 s3 token claims given (rw bare refl) cookie (
            validate_token-sign lib.jwt laws h.jwt (lib.now s3.world) (lib.now t.world)
              dashboard_token_expiry email "dashboard" token ("dashboard" ∷ []) signed live refl),
        require_auth_refuses lib h r4 s3 token claims n auth
            (validate_token-sign lib.jwt laws h.jwt (lib.now s3.world) (lib.now t.world)
              dashboard_token_expiry email "dashboard" token [] signed live tt)
            refl,
      )
