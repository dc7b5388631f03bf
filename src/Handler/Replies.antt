-- ===== src/Handler/Replies.antt =====
-- Responses that several handlers of handlers.go, handlers_oauth.go and handlers_callback.go write,
-- and the cookies of the dashboard session and of the forms.
use kite_mcp_oauth.Prelude.{
  ℕ, ◌*◌, String, true, Option, none, some, [], ◌∷◌, ◌==◌, not, if◌then◌else◌,
}
use kite_mcp_oauth.Time.{hour}
use kite_mcp_oauth.Random.{random_hex}
use kite_mcp_oauth.Jwt.{generate_token_with_expiry}
use kite_mcp_oauth.Http.{
  Request, Reply, http_error, json, text, Cookie, session, seconds, lax, strict, Url, Values,
  set_value,
}
use kite_mcp_oauth.Services.{OauthState, Library}
use kite_mcp_oauth.Handler.{Handler, Handling, pure, gets, or_respond, outside, set_cookie, ◌>>=◌}

abbrev pub method_not_allowed : Reply
method_not_allowed = http_error "method not allowed" 405

abbrev pub internal_error : Reply
internal_error = http_error "Internal server error" 500

abbrev pub error_reply : ℕ → String → Reply
error_reply status name = json status (("error", text name) ∷ [])

abbrev pub described : ℕ → String → String → Reply
described status name description =
    json status (("error", text name) ∷ ("error_description", text description) ∷ [])

abbrev pub cookie_name : String
cookie_name = "kite_jwt"

abbrev pub dashboard_token_expiry : ℕ
dashboard_token_expiry = 7 * 24 * hour

abbrev pub auth_cookie : String → Cookie
auth_cookie token = record {
  name = cookie_name;
  value = token;
  path = "/";
  max_age = seconds 604800;
  http_only = true;
  secure = true;
  same_site = lax;
}

-- The cookie of a form's CSRF token.
abbrev pub csrf_cookie : String → String → String → Cookie
csrf_cookie name path token = record {
  name = name;
  value = token;
  path = path;
  max_age = session;
  http_only = true;
  secure = true;
  same_site = strict;
}

-- `params.Set("code", …)`, and `params.Set("state", …)` if the client gave a state.
unfoldable pub with_code : String → OauthState → Values → Values
unfolding set_value
with_code code st params =
    let coded = set_value "code" code params in
    if st.state == "" then coded else set_value "state" st.state coded

module _ {W : Type 0} (lib : Library W) where
  -- The client's redirect URI with the code and the state in its query.
  unfoldable pub code_redirect : String → OauthState → Url → String
  code_redirect code st parsed = lib.url_string (record {
    scheme = parsed.scheme;
    host = parsed.host;
    path = parsed.path;
    raw_query = lib.encode_values (with_code code st (lib.url_query parsed));
  })

  unfoldable pub client_ip : Request → String
  client_ip r =
      if not (r.header "Fly-Client-IP" == "")
      then r.header "Fly-Client-IP"
      else elim (lib.split_host_port r.remote_addr) [ none ↦ r.remote_addr | some host ↦ host ]

  unfoldable pub generate_csrf_token : Handling W (Option String)
  unfolding random_hex
  generate_csrf_token = outside (random_hex lib 32)

  abbrev pub set_token : Option String → Handling W (Unit {0})
  set_token none = pure tt
  set_token (some token) = set_cookie (auth_cookie token)

  -- `SetAuthCookie`, and the response to its error.
  unfoldable pub set_auth_cookie_or_fail : Handler W → String → Handling W (Unit {0})
  unfolding ◌>>=◌
  set_auth_cookie_or_fail h email = do
    signed ← gets (λ s.
        generate_token_with_expiry lib.jwt h.jwt (lib.now s.world) email "dashboard"
          dashboard_token_expiry)
    token ← or_respond signed (http_error "Failed to set auth cookie" 500)
    set_cookie (auth_cookie token)

  -- `SetAuthCookie`, with its error ignored, as the callback does.
  unfoldable pub set_auth_cookie : Handler W → String → Handling W (Unit {0})
  unfolding ◌>>=◌
  set_auth_cookie h email = do
    signed ← gets (λ s.
        generate_token_with_expiry lib.jwt h.jwt (lib.now s.world) email "dashboard"
          dashboard_token_expiry)
    set_token signed
