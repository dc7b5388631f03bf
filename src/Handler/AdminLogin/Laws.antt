-- ===== src/Handler/AdminLogin/Laws.antt =====
-- Whom `HandleAdminLogin` of handlers_admin.go signs in.
use kite_mcp_oauth.Prelude.{
  String, ◌≡◌, refl, Bool, true, ◌⊎◌, inl, inr, some, [], ◌∷◌, ◌++◌, arith, eq_iff, ◌==◌,
  Option-cases, Bool-cases, is_relative, if◌then◌else◌,
}
use kite_mcp_oauth.Random.{hex_encode}
use kite_mcp_oauth.Jwt.{generate_token_with_expiry}
use kite_mcp_oauth.Http.{Request, Reply, redirect}
use kite_mcp_oauth.Services.{AdminUserStore, Library}
use kite_mcp_oauth.Handler.{Handler, Template-cases, State, Flow, go, ◌>>=◌}
use kite_mcp_oauth.Handler.Replies.{
  csrf_cookie, cookie_name, auth_cookie, dashboard_token_expiry, set_auth_cookie_or_fail,
}
use kite_mcp_oauth.Handler.Cookies.{sets, sets-append}
use kite_mcp_oauth.Handler.Mfa.{safe_redirect}
use kite_mcp_oauth.Handler.Mfa.Laws.{safe_redirect-is_relative}
use kite_mcp_oauth.Handler.AdminLogin.{
  admin_home, login_target, has_admin_csrf, render_login, serve_admin_login_form, retry_login,
  may_log_in, login_email, log_in, login_post, handle_admin_login,
}

pub login_target-is_relative : (r : Request) → is_relative (login_target r) ≡ true
unfolding login_target safe_redirect
login_target-is_relative r = safe_redirect-is_relative (r.form "redirect") admin_home refl

module _ {W : Type 0} (lib : Library W) (h : Handler W) where
  render_login-sets :
      (executes : Bool) (target err csrf : String) (s : State W)
      → sets cookie_name (render_login lib h executes target err csrf s).1.cookies
        ≡ sets cookie_name s.cookies
  unfolding render_login
  render_login-sets executes target err csrf s = elim (Bool-cases (csrf == "")) [
    | inl empty ↦ ground arith
    | inr given ↦ ground (
      arith,
      sets-append cookie_name s.cookies (csrf_cookie "csrf_token_admin" "/auth/admin-login" csrf),
    )
  ]

  serve_admin_login_form-sets :
      (target err csrf : String) (s : State W)
      → sets cookie_name (serve_admin_login_form lib h target err csrf s).1.cookies
        ≡ sets cookie_name s.cookies
  unfolding serve_admin_login_form
  serve_admin_login_form-sets target err csrf s = elim (Template-cases h.admin_login_tmpl) [
    | inl absent ↦ rw (absent, serve_admin_login_form) refl
    | inr (executes, there) ↦
        rw (there, serve_admin_login_form) (render_login-sets executes target err csrf s)
  ]

  retry_login-sets :
      (target err : String) (s : State W)
      → sets cookie_name (retry_login lib h target err s).1.cookies ≡ sets cookie_name s.cookies
  unfolding retry_login
  retry_login-sets target err s = elim (Option-cases (lib.rand_read 32 s.world).0) [
    | inl no_bytes ↦ ground arith
    | inr (bytes, drawn) ↦ ground (
      arith,
      serve_admin_login_form-sets target err (hex_encode bytes)
          (record s { world = (lib.rand_read 32 s.world).1 }),
    )
  ]

  -- What has let a request in.
  pub record LoggedIn (r : Request) (s t : State W) (f : Flow Reply) : Type 0 where
    pub users : AdminUserStore W
    pub store : h.user_store ≡ some users
    pub posted : r.method ≡ "POST"
    pub unforged : has_admin_csrf r ≡ true
    pub password :
        users.verify_password s.world (login_email lib h r) (r.form "password") ≡ some true
    pub admin : users.get_role s.world (login_email lib h r) ≡ "admin"
    pub active : users.get_status s.world (login_email lib h r) ≡ "active"
    pub token : String
    pub signed :
        generate_token_with_expiry lib.jwt h.jwt
          (lib.now s.world)
          (login_email lib h r)
          "dashboard"
          dashboard_token_expiry
        ≡ some token
    pub after : t ≡ record s { cookies = s.cookies ++ auth_cookie token ∷ [] }
    pub replied : f ≡ go (redirect (login_target r))

  may_log_in_lem :
      (users : AdminUserStore W) (email password : String) (s : State W)
      → may_log_in lib h users email password s ≡ true
      → (users.verify_password s.world email password ≡ some true)
        × (users.get_role s.world email ≡ "admin")
        × (users.get_status s.world email ≡ "active")
  unfolding may_log_in
  may_log_in_lem users email password s e =
      elim (Option-cases (users.verify_password s.world email password)) [
        | inl failed ↦ absurd (ground arith)
        | inr (match, verified) ↦ ground (
          arith,
          eq_iff (users.get_role s.world email) "admin",
          eq_iff (users.get_status s.world email) "active",
        )
      ]

  log_in-LoggedIn :
      (users : AdminUserStore W) (r : Request) (s t : State W) (f : Flow Reply)
      → h.user_store ≡ some users
      → r.method ≡ "POST"
      → has_admin_csrf r ≡ true
      → log_in lib h users r s ≡ (f, t)
      → (sets cookie_name t.cookies ≡ sets cookie_name s.cookies) ⊎ LoggedIn r s t f
  unfolding log_in set_auth_cookie_or_fail ◌>>=◌
  log_in-LoggedIn users r s t f store posted unforged e =
      elim (Bool-cases (may_log_in lib h users (login_email lib h r) (r.form "password") s)) [
        | inr refused ↦
            inl (ground (arith, retry_login-sets (login_target r) "Invalid email or password." s))
        | inl allowed ↦
            let (password, admin, active) =
              may_log_in_lem users (login_email lib h r) (r.form "password") s allowed in
            elim (Option-cases (
              generate_token_with_expiry lib.jwt h.jwt (lib.now s.world) (login_email lib h r)
                "dashboard" dashboard_token_expiry)) [
                  | inl failed ↦ inl (ground arith)
                  | inr (token, signed) ↦ inr (record {
                    users = users;
                    store = store;
                    posted = posted;
                    unforged = unforged;
                    password = password;
                    admin = admin;
                    active = active;
                    token = token;
                    signed = signed;
                    after = ground arith;
                    replied = ground arith;
                  })
                ]
      ]

  login_post-LoggedIn :
      (r : Request) (s t : State W) (f : Flow Reply)
      → r.method ≡ "POST"
      → login_post lib h r s ≡ (f, t)
      → (sets cookie_name t.cookies ≡ sets cookie_name s.cookies) ⊎ LoggedIn r s t f
  unfolding login_post
  login_post-LoggedIn r s t f posted e = elim (Bool-cases (has_admin_csrf r)) [
    | inr forged ↦ inl (
        ground (
          arith,
          retry_login-sets (login_target r) "Invalid or missing CSRF token. Please try again." s,
        ))
    | inl unforged ↦ elim (Option-cases h.user_store) [
      | inl absent ↦ inl (
          ground (
            arith,
            serve_admin_login_form-sets (login_target r) "Admin login not configured." "" s,
          ))
      | inr (users, store) ↦ log_in-LoggedIn users r s t f store posted unforged (ground arith)
    ]
  ]

  -- HandleAdminLogin leaves it as it is whether the dashboard's cookie is set, but in one case: a
  -- POST with a CSRF token that its cookie has too, for an account that is an active
  -- administrator's, with its password. The token of the cookie is then for the email of the form,
  -- trimmed and in lower case, nothing else changes, and the response redirects to a path on the
  -- server.
  pub handle_admin_login-LoggedIn :
      (r : Request) (s t : State W) (f : Flow Reply)
      → handle_admin_login lib h r s ≡ (f, t)
      → (sets cookie_name t.cookies ≡ sets cookie_name s.cookies)
        ⊎ LoggedIn r s t f × (is_relative (login_target r) ≡ true)
  unfolding handle_admin_login
  handle_admin_login-LoggedIn r s t f e = elim (Bool-cases (r.method == "POST")) [
    | inr other ↦ inl (
        ground (
          arith,
          retry_login-sets (if r.query "redirect" == "" then admin_home else r.query "redirect") ""
              s,
        ))
    | inl posted ↦
        elim (login_post-LoggedIn r s t f ((eq_iff r.method "POST").0 posted) (ground arith)) [
          | inl same ↦ inl same
          | inr logged_in ↦ inr (logged_in, login_target-is_relative r)
        ]
  ]
