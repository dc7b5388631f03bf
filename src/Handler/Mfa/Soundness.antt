-- ===== src/Handler/Mfa/Soundness.antt =====
-- Enrollment and verification of handlers_admin_mfa.go keep the stores sound.
use kite_mcp_oauth.Prelude.{String, Bool, true, false, Option, none, some}
use kite_mcp_oauth.Http.{Request, Reply}
use kite_mcp_oauth.Services.{Library, AdminUserStore}
use kite_mcp_oauth.Handler.{Handler, outside, ◌>>=◌}
use kite_mcp_oauth.Handler.Keeps.{Keeps, keeps_rules, Keeps-option, Keeps-template}
use kite_mcp_oauth.Handler.Mfa.{
  render_form, serve_enroll_form, serve_verify_form, grant_mfa, after_persist, persist_secret,
  enroll_post, handle_admin_mfa_enroll, after_verify, verify_post, verify_enrolled,
  handle_admin_mfa_verify,
}
use kite_mcp_oauth.Handler.Keeps.Cookies.{Keeps-generate_csrf_token}

module _ {W : Type 0} (lib : Library W) (h : Handler W) where
  Keeps-render_form :
      (executes : Bool) (form : String → Reply) → Keeps (render_form lib h executes form)
  unfolding render_form
  Keeps-render_form executes form = search (keeps_rules, Keeps-generate_csrf_token)

  Keeps-serve_enroll_form :
      (email secret target err : String) → Keeps (serve_enroll_form lib h email secret target err)
  unfolding serve_enroll_form
  Keeps-serve_enroll_form email secret target err =
      Keeps-template h.admin_mfa_enroll_tmpl _ _ (search keeps_rules)
        (λ executes. Keeps-render_form executes _)

  Keeps-serve_verify_form : (target err : String) → Keeps (serve_verify_form lib h target err)
  unfolding serve_verify_form
  Keeps-serve_verify_form target err =
      Keeps-template h.admin_mfa_verify_tmpl _ _ (search keeps_rules)
        (λ executes. Keeps-render_form executes _)

  Keeps-grant_mfa : (email target : String) → Keeps (grant_mfa lib h email target)
  unfolding grant_mfa
  Keeps-grant_mfa email target = search keeps_rules

  Keeps-after_persist :
      (r : Request) (email : String) (err : Option String) → Keeps (after_persist lib h r email err)
  unfolding after_persist
  Keeps-after_persist r email none = Keeps-grant_mfa email _
  Keeps-after_persist r email (some e) = Keeps-serve_enroll_form email _ _ _

  Keeps-persist_with :
      (users : AdminUserStore W) (r : Request) (email : String)
      → Keeps
          (outside (users.set_totp_secret email (r.form "secret")) >>= after_persist lib h r email)
  Keeps-persist_with users r email = search (keeps_rules, Keeps-after_persist)

  Keeps-persist_secret : (r : Request) (email : String) → Keeps (persist_secret lib h r email)
  unfolding persist_secret
  Keeps-persist_secret r email =
      Keeps-option h.user_store _ _ (search keeps_rules) (λ users. Keeps-persist_with users r email)

  Keeps-enroll_post : (r : Request) (email : String) → Keeps (enroll_post lib h r email)
  unfolding enroll_post
  Keeps-enroll_post r email = search (keeps_rules, Keeps-serve_enroll_form, Keeps-persist_secret)

  pub Keeps-handle_admin_mfa_enroll : (r : Request) → Keeps (handle_admin_mfa_enroll lib h r)
  unfolding handle_admin_mfa_enroll
  Keeps-handle_admin_mfa_enroll r = search (keeps_rules, Keeps-enroll_post, Keeps-serve_enroll_form)

  Keeps-after_verify :
      (r : Request) (email : String) (verified : Option Bool)
      → Keeps (after_verify lib h r email verified)
  unfolding after_verify
  Keeps-after_verify r email none = Keeps-serve_verify_form _ _
  Keeps-after_verify r email (some false) = Keeps-serve_verify_form _ _
  Keeps-after_verify r email (some true) = Keeps-grant_mfa email _

  Keeps-verify_post :
      (users : AdminUserStore W) (r : Request) (email : String)
      → Keeps (verify_post lib h users r email)
  unfolding verify_post
  Keeps-verify_post users r email =
      search (keeps_rules, Keeps-serve_verify_form, Keeps-after_verify)

  Keeps-verify_enrolled : (r : Request) → Keeps (verify_enrolled lib h r)
  unfolding verify_enrolled
  Keeps-verify_enrolled r =
      Keeps-option h.user_store _ _ (search keeps_rules)
        (λ users. search (keeps_rules, Keeps-verify_post, Keeps-serve_verify_form))

  pub Keeps-handle_admin_mfa_verify : (r : Request) → Keeps (handle_admin_mfa_verify lib h r)
  unfolding handle_admin_mfa_verify
  Keeps-handle_admin_mfa_verify r = search (keeps_rules, Keeps-verify_enrolled)
