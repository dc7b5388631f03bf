-- ===== src/Handler/Keeps/Cookies.antt =====
-- The CSRF token and the cookies of handlers.go leave the stores sound.
use kite_mcp_oauth.Prelude.{String, Option, none, some}
use kite_mcp_oauth.Services.{Library}
use kite_mcp_oauth.Handler.{Handler}
use kite_mcp_oauth.Handler.Keeps.{Keeps, keeps_rules, Keeps-pure}
use kite_mcp_oauth.Handler.Replies.{
  generate_csrf_token, set_auth_cookie, set_auth_cookie_or_fail, set_token,
}

module _ {W : Type 0} (lib : Library W) where
  pub Keeps-generate_csrf_token : Keeps (generate_csrf_token lib)
  unfolding generate_csrf_token
  Keeps-generate_csrf_token = search keeps_rules

  Keeps-set_token : (token : Option String) → Keeps (set_token lib token)
  Keeps-set_token none = Keeps-pure tt
  Keeps-set_token (some token) = search keeps_rules

  module _ (h : Handler W) (email : String) where
    pub Keeps-set_auth_cookie_or_fail : Keeps (set_auth_cookie_or_fail lib h email)
    unfolding set_auth_cookie_or_fail
    Keeps-set_auth_cookie_or_fail = search keeps_rules

    pub Keeps-set_auth_cookie : Keeps (set_auth_cookie lib h email)
    unfolding set_auth_cookie
    Keeps-set_auth_cookie = search (keeps_rules, Keeps-set_token)
