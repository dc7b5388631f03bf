-- ===== src/Handler/AdminLogin/Soundness.antt =====
-- The password login of handlers_admin.go keeps the stores sound.
use kite_mcp_oauth.Prelude.{String, Bool, Option, none, some}
use kite_mcp_oauth.Http.{Request, Reply}
use kite_mcp_oauth.Services.{Library, AdminUserStore}
use kite_mcp_oauth.Handler.{Handler}
use kite_mcp_oauth.Handler.Keeps.{Keeps, keeps_rules, Keeps-template, Keeps-if}
use kite_mcp_oauth.Handler.AdminLogin.{
  render_login, serve_admin_login_form, retry_login, log_in, login_post, handle_admin_login,
  login_target,
}
use kite_mcp_oauth.Handler.Keeps.Cookies.{Keeps-generate_csrf_token, Keeps-set_auth_cookie_or_fail}

module _ {W : Type 0} (lib : Library W) (h : Handler W) where
  Keeps-render_login :
      (executes : Bool) (target err csrf : String)
      → Keeps (render_login lib h executes target err csrf)
  unfolding render_login
  Keeps-render_login executes target err csrf = search keeps_rules

  Keeps-serve_admin_login_form :
      (target err csrf : String) → Keeps (serve_admin_login_form lib h target err csrf)
  unfolding serve_admin_login_form
  Keeps-serve_admin_login_form target err csrf =
      Keeps-template h.admin_login_tmpl _ _ (search keeps_rules)
        (λ executes. Keeps-render_login executes target err csrf)

  Keeps-retry_login : (target err : String) → Keeps (retry_login lib h target err)
  unfolding retry_login
  Keeps-retry_login target err =
      search (keeps_rules, Keeps-generate_csrf_token, Keeps-serve_admin_login_form)

  Keeps-log_in : (users : AdminUserStore W) (r : Request) → Keeps (log_in lib h users r)
  unfolding log_in
  Keeps-log_in users r = search (keeps_rules, Keeps-retry_login, Keeps-set_auth_cookie_or_fail)

  Keeps-login_stored :
      (r : Request) (users : Option (AdminUserStore W))
      → Keeps {W = W} {A = Reply} (elim users [
        | none ↦ serve_admin_login_form lib h (login_target r) "Admin login not configured." ""
        | some users ↦ log_in lib h users r
      ])
  Keeps-login_stored r none = Keeps-serve_admin_login_form _ _ _
  Keeps-login_stored r (some users) = Keeps-log_in users r

  Keeps-login_post : (r : Request) → Keeps (login_post lib h r)
  unfolding login_post
  Keeps-login_post r = Keeps-if _ _ _ (Keeps-retry_login _ _) (Keeps-login_stored r h.user_store)

  pub Keeps-handle_admin_login : (r : Request) → Keeps (handle_admin_login lib h r)
  unfolding handle_admin_login
  Keeps-handle_admin_login r = search (keeps_rules, Keeps-login_post, Keeps-retry_login)
