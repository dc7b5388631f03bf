-- ===== src/Handler/Google/Soundness.antt =====
-- The Google login of google_sso.go keeps the stores sound.
use kite_mcp_oauth.Prelude.{String, Bool, true, Option, none, some}
use kite_mcp_oauth.Http.{Request}
use kite_mcp_oauth.Services.{Library, RegistryEntry, GoogleSsoConfig, AdminUserStore}
use kite_mcp_oauth.Handler.{Handler}
use kite_mcp_oauth.Handler.Keeps.{Keeps, keeps_rules, Keeps-pure, Keeps-outside}
use kite_mcp_oauth.Handler.Google.{
  handle_google_login, check_state, google_email, set_admin, link_to, admit_account,
  handle_google_callback,
}
use kite_mcp_oauth.Handler.Keeps.Cookies.{Keeps-set_auth_cookie_or_fail}

module _ {W : Type 0} (lib : Library W) (h : Handler W) where
  pub Keeps-handle_google_login : (r : Request) → Keeps (handle_google_login lib h r)
  unfolding handle_google_login
  Keeps-handle_google_login r = search keeps_rules

  Keeps-check_state : (r : Request) → Keeps (check_state lib h r)
  unfolding check_state
  Keeps-check_state r = search keeps_rules depth 12

  Keeps-google_email : (sso : GoogleSsoConfig) (r : Request) → Keeps (google_email lib h sso r)
  unfolding google_email
  Keeps-google_email sso r = search keeps_rules depth 12

  Keeps-set_admin :
      (set : Option (String → String → W → Bool × W)) (email admin : String)
      → Keeps (set_admin lib h set email admin)
  unfolding set_admin
  Keeps-set_admin none email admin = Keeps-pure true
  Keeps-set_admin (some set) email admin = Keeps-outside (set email admin)

  Keeps-link_to :
      (users : AdminUserStore W) (email : String) (app : Option RegistryEntry)
      → Keeps (link_to lib h users email app)
  unfolding link_to
  Keeps-link_to users email none = Keeps-pure true
  Keeps-link_to users email (some entry) = search (keeps_rules, Keeps-set_admin)

  Keeps-admit_account :
      (users : AdminUserStore W) (email : String) → Keeps (admit_account lib h users email)
  unfolding admit_account
  Keeps-admit_account users email = search (keeps_rules, Keeps-link_to) depth 12

  pub Keeps-handle_google_callback : (r : Request) → Keeps (handle_google_callback lib h r)
  unfolding handle_google_callback
  Keeps-handle_google_callback r =
      search
        (
          keeps_rules, Keeps-check_state, Keeps-google_email, Keeps-admit_account,
          Keeps-set_auth_cookie_or_fail,
        )
        depth 12
