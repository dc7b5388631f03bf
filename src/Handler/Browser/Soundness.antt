-- ===== src/Handler/Browser/Soundness.antt =====
-- The browser logins of handlers_browser.go keep the stores sound.
use kite_mcp_oauth.Prelude.{String, Bool, Option, none, some}
use kite_mcp_oauth.Http.{Request, Reply, http_error}
use kite_mcp_oauth.Services.{Library}
use kite_mcp_oauth.Handler.{Handler, Template, missing, parsed, Handling, ◌>>=◌, respond}
use kite_mcp_oauth.Handler.Keeps.{Keeps, keeps_rules, Keeps-bind}
use kite_mcp_oauth.Handler.Browser.{
  exchange_stored, exchange_for, handle_browser_auth_callback, render_browser_login,
  serve_browser_login, login_or_form, handle_browser_login,
}
use kite_mcp_oauth.Handler.Keeps.Cookies.{Keeps-generate_csrf_token, Keeps-set_auth_cookie_or_fail}
use kite_mcp_oauth.Handler.{or_respond}
use kite_mcp_oauth.Handler.Replies.{generate_csrf_token, internal_error}

module _ {W : Type 0} (lib : Library W) (h : Handler W) where
  Keeps-exchange_stored :
      (request_token : String) (credentials : Option (String × String))
      → Keeps (exchange_stored lib h request_token credentials)
  unfolding exchange_stored
  Keeps-exchange_stored request_token none = search keeps_rules
  Keeps-exchange_stored request_token (some credentials) = search keeps_rules

  Keeps-exchange_for :
      (request_token email : String) → Keeps (exchange_for lib h request_token email)
  unfolding exchange_for
  Keeps-exchange_for request_token email = search (keeps_rules, Keeps-exchange_stored)

  pub Keeps-handle_browser_auth_callback :
      (r : Request) (request_token : String)
      → Keeps (handle_browser_auth_callback lib h r request_token)
  unfolding handle_browser_auth_callback
  Keeps-handle_browser_auth_callback r request_token =
      search (keeps_rules, Keeps-exchange_for, Keeps-set_auth_cookie_or_fail)

  Keeps-render_browser_login :
      (executes : Bool) (target err csrf : String)
      → Keeps (render_browser_login lib h executes target err csrf)
  unfolding render_browser_login
  Keeps-render_browser_login executes target err csrf = search keeps_rules

  -- The end of the handler's form, for the template.
  abbrev browser_form : String → String → Template → String → Handling W Reply
  browser_form target err t csrf = elim t [
    | missing ↦ respond (http_error "Failed to load login page" 500)
    | parsed executes ↦ render_browser_login lib h executes target err csrf
  ]

  Keeps-render_template :
      (target err csrf : String) (t : Template) → Keeps (browser_form target err t csrf)
  Keeps-render_template target err csrf missing = search keeps_rules
  Keeps-render_template target err csrf (parsed executes) =
      Keeps-render_browser_login executes target err csrf

  Keeps-serve_browser_login : (target err : String) → Keeps (serve_browser_login lib h target err)
  unfolding serve_browser_login
  Keeps-serve_browser_login target err =
      Keeps-bind (generate_csrf_token lib)
        (λ drawn. or_respond drawn internal_error >>= browser_form target err h.browser_login_tmpl)
        (Keeps-generate_csrf_token lib)
        (λ drawn.
          Keeps-bind (or_respond drawn internal_error)
            (browser_form target err h.browser_login_tmpl) (search keeps_rules)
            (λ csrf. Keeps-render_template target err csrf h.browser_login_tmpl))

  Keeps-login_or_form :
      (email target : String) (key : Option String) → Keeps (login_or_form lib h email target key)
  unfolding login_or_form
  Keeps-login_or_form email target none = Keeps-serve_browser_login target _
  Keeps-login_or_form email target (some key) = search keeps_rules

  pub Keeps-handle_browser_login : (r : Request) → Keeps (handle_browser_login lib h r)
  unfolding handle_browser_login
  Keeps-handle_browser_login r =
      search (keeps_rules, Keeps-serve_browser_login, Keeps-login_or_form)
