-- ===== src/Handler.antt =====
-- `Handler` of handlers.go: the fields that no request changes, the state that requests change, and
-- the handlers as actions that read and change it and may write a response and return early.
pub mod Inversion
pub mod Stores
pub mod Replies
pub mod Authorize
pub mod Callback
pub mod Token
pub mod Mfa
pub mod Cookies
pub mod AdminLogin
pub mod Browser
pub mod Google
pub mod SignedState
pub mod EmailLookup
pub mod Registration
pub mod Setup
pub mod Keeps
use kite_mcp_oauth.Prelude.{ℕ, String, Bool, true, false, Option, none, some, List, [], ◌∷◌, ◌++◌}
use kite_mcp_oauth.Prelude.{◌≡◌, refl, ◌⊎◌, inl, inr}
use kite_mcp_oauth.Config.{Config}
use kite_mcp_oauth.Http.{Cookie, Reply}
use kite_mcp_oauth.AuthCodes.{AuthCodeStore}
use kite_mcp_oauth.Clients.{ClientStore}
use kite_mcp_oauth.Jwt.{JwtManager}
use kite_mcp_oauth.Services.{
  GoogleSsoConfig, HttpClient, AdminUserStore, Signer, KiteExchanger, ClientPersister, KeyRegistry,
  Library,
}

-- A template that did not parse, and one that does, with whether `ExecuteTemplate` succeeds.
pub data Template : Type 0 where
  missing : Template
  parsed : Bool → Template

pub Template-cases : (t : Template) → (t ≡ missing) ⊎ ((executes : Bool) × (t ≡ parsed executes))
Template-cases missing = inl refl
Template-cases (parsed executes) = inr (executes, refl)

-- A nil interface or function is `none`.
pub record Handler (W : Type 0) : Type 0 where
  pub config : Config
  pub jwt : JwtManager
  pub signer : Signer W
  pub exchanger : KiteExchanger W
  pub kite_token_checker : Option (W → String → Bool)
  -- the email, the address and the user agent
  pub consent_recorder : Option (String → String → String → W → W)
  pub user_store : Option (AdminUserStore W)
  pub registry : Option (KeyRegistry W)
  pub persister : Option (ClientPersister W)
  pub google_sso : Option GoogleSsoConfig
  -- `none` is the default
  pub http_client : Option (HttpClient W)
  pub login_success_tmpl : Template
  pub email_prompt_tmpl : Template
  pub browser_login_tmpl : Template
  pub login_choice_tmpl : Template
  pub admin_login_tmpl : Template
  pub admin_mfa_enroll_tmpl : Template
  pub admin_mfa_verify_tmpl : Template

pub record State (W : Type 0) : Type 0 where
  pub auth_codes : AuthCodeStore
  pub clients : ClientStore
  -- the cookies that are set on the response so far
  pub cookies : List Cookie
  pub world : W

-- A step goes on with a value, or the handler has returned with a response.
pub data Flow {ℓ} (A : Type ℓ) : Type ℓ where
  go : A → Flow A
  stop : Reply → Flow A

abbrev pub Handling : Type 0 → Type 0 → Type 0
Handling W A = State W → Flow A × State W

module _ {W A : Type 0} where
  pub pure : A → Handling W A
  pure a s = (go a, s)

  -- Write a response and return.
  pub respond : Reply → Handling W A
  respond r s = (stop r, s)

  pub gets : (State W → A) → Handling W A
  gets f s = (go (f s), s)

  -- `v, ok := …; if !ok { … return }`
  pub or_respond : Option A → Reply → Handling W A
  or_respond none r s = (stop r, s)
  or_respond (some a) r s = (go a, s)

  -- A call of something outside.
  pub outside : (W → A × W) → Handling W A
  outside f s = let (a, w) = f s.world in (go a, record s { world = w })

module _ {W : Type 0} where
  -- `if cond { … return }`
  pub respond_if : Bool → Reply → Handling W (Unit {0})
  respond_if true r s = (stop r, s)
  respond_if false r s = (go tt, s)

  -- `http.SetCookie` of a cookie as it is written. The tokens in base64 or hexadecimal that the code
  -- sets are written as they are; a value with any other text goes through `written` first.
  pub set_cookie : Cookie → Handling W (Unit {0})
  set_cookie c s = (go tt, record s { cookies = s.cookies ++ c ∷ [] })

-- One call of a method of a store, which locks the store for its work.
module _ {W A : Type 0} where
  pub with_codes : (AuthCodeStore → A × AuthCodeStore) → Handling W A
  with_codes f s = let (a, codes) = f s.auth_codes in (go a, record s { auth_codes = codes })

  pub with_clients : (ClientStore → A × ClientStore) → Handling W A
  with_clients f s = let (a, clients) = f s.clients in (go a, record s { clients = clients })

module _ {W A B : Type 0} where
  abbrev continue : Flow A → (A → Handling W B) → Handling W B
  continue (go a) f s = f a s
  continue (stop r) f s = (stop r, s)

  infixl 10 ◌>>=◌ ◌>>◌
  -- Opening this opens the ways to build an action too.
  unfoldable pub ◌>>=◌ : Handling W A → (A → Handling W B) → Handling W B
  unfolding pure respond gets or_respond outside respond_if set_cookie with_codes with_clients
  ◌>>=◌ m f s = let (r, s') = m s in continue r f s'

  abbrev pub ◌>>◌ : Handling W A → Handling W B → Handling W B
  m >> n = m >>= λ _. n

-- The response of a handler.
unfoldable pub response : Flow Reply → Reply
response (go r) = r
response (stop r) = r

unfoldable pub serve : {W : Type 0} → Handling W Reply → State W → Reply × State W
unfolding response
serve m s = let (r, s') = m s in (response r, s')
