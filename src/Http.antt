-- ===== src/Http.antt =====
-- The part of Go's `net/http` and `net/url` that the handlers read and write: requests, cookies,
-- the responses that end a handler, and URLs with their query values.
pub mod CookieValue
use kite_mcp_oauth.Prelude.{ℕ, String, Bool, Option, List, [], ◌∷◌, Dict, insert}

-- `Query().Get`, `FormValue` and `Header.Get` give "" for what is not there.
pub record Request : Type 0 where
  pub method : String
  pub path : String
  pub query : String → String
  -- whether `ParseForm` succeeds, the limit on the body's size included
  pub form_parses : Bool
  pub form : String → String
  pub header : String → String
  -- `r.Cookie(name)`, `none` for its error
  pub cookie : String → Option String
  pub remote_addr : String
  -- the email in the request's context, "" for none
  pub context_email : String

pub data SameSite : Type 0 where
  lax strict : SameSite

-- `MaxAge` of a cookie: not given, a number of seconds, or negative, which deletes the cookie.
pub data MaxAge : Type 0 where
  session : MaxAge
  seconds : ℕ → MaxAge
  expired : MaxAge

-- `HttpOnly` and `Secure` are set on every cookie that the code writes.
pub record Cookie : Type 0 where
  pub name : String
  pub value : String
  pub path : String
  pub max_age : MaxAge
  pub http_only : Bool
  pub secure : Bool
  pub same_site : SameSite

pub data Json : Type 0 where
  text : String → Json
  number : ℕ → Json
  texts : List String → Json

-- The pages that are rendered from templates, with the data they are given.
pub data Page : Type 0 where
  login_success : String → Page
  -- the error, the CSRF token and the signed OAuth state
  email_prompt : String → String → String → Page
  -- the account, the secret, its URI, the target, the CSRF token and the error
  mfa_enroll : String → String → String → String → String → String → Page
  -- the target, the CSRF token and the error
  mfa_verify : String → String → String → Page
  -- the target, the error and the CSRF token
  browser_login : String → String → String → Page
  -- the target, and whether Google SSO is offered
  login_choice : String → Bool → Page
  -- the target, the error, the CSRF token and whether Google SSO is offered
  admin_login : String → String → String → Bool → Page

-- How a handler ends.
pub data Reply : Type 0 where
  -- `http.Error(w, message, status)`
  http_error : String → ℕ → Reply
  -- `writeJSON(w, status, map)`
  json : ℕ → List (String × Json) → Reply
  -- `http.Redirect(w, r, url, http.StatusFound)`
  redirect : String → Reply
  page : Page → Reply
  -- `WriteHeader(status)` with the headers that are set
  bare : ℕ → List (String × String) → Reply
  -- `next.ServeHTTP` with the email in the context
  next : String → Reply
  -- a run-time panic, such as a slice out of range
  panic : Reply

pub record Url : Type 0 where
  pub scheme : String
  pub host : String
  pub path : String
  pub raw_query : String

-- `url.Values`
abbrev pub Values : Type 0
Values = Dict (List String)

-- `Values.Set`
unfoldable pub set_value : String → String → Values → Values
set_value key value values = insert key (value ∷ []) values
