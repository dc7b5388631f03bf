-- ===== src/Services.antt =====
-- What the handlers of handlers.go are given: the interfaces that it declares, and the library and
-- run-time functions that it calls. `W` is the state of everything outside: the clock, the source
-- of random bytes, the broker's sessions, the user store, the key registry and the database.
use kite_mcp_oauth.Prelude.{ℕ, String, Bool, Option, List, Dict}
use kite_mcp_oauth.Http.{Url, Values}
use kite_mcp_oauth.Clients.{ClientEntry, ClientLoadEntry}
use kite_mcp_oauth.Jwt.{JwtLibrary}

-- `oauthState`
pub record OauthState : Type 0 where
  pub client_id : String
  pub redirect_uri : String
  pub code_challenge : String
  pub state : String
  pub registry_key : String

-- `Signer`; a signature may carry a time, and a verification may look at the clock.
pub record Signer (W : Type 0) : Type 0 where
  pub sign : W → String → String
  pub verify : W → String → Option String

-- `KiteExchanger`; an exchange caches the access token. An error is `none`.
pub record KiteExchanger (W : Type 0) : Type 0 where
  pub exchange_request_token : String → W → Option String × W
  -- the request token, the API key and the API secret
  pub exchange_with_credentials : String → String → String → W → Option String × W
  pub get_credentials : W → String → Option (String × String)
  pub get_secret_by_api_key : W → String → Option String

-- `ClientPersister`; `true` is success.
pub record ClientPersister (W : Type 0) : Type 0 where
  pub save_client : ClientLoadEntry → W → Bool × W
  pub load_clients : W → Option (List ClientLoadEntry) × W

-- `AdminUserStore`; an error is `none`, or `false` where there is no other result.
pub record AdminUserStore (W : Type 0) : Type 0 where
  pub get_role : W → String → String
  pub get_status : W → String → String
  pub verify_password : W → String → String → Option Bool
  pub ensure_google_user : String → W → W
  pub has_totp : W → String → Bool
  -- the error's text, `none` for no error
  pub set_totp_secret : String → String → W → Option String × W
  pub verify_totp : W → String → String → Option Bool
  -- the method that the callback of Google asks the store for, if it has it
  pub set_admin_email : Option (String → String → W → Bool × W)
  pub clear_totp_secret : String → W → Bool × W

-- `RegistryEntry`
pub record RegistryEntry : Type 0 where
  pub api_key : String
  pub api_secret : String
  pub registered_by : String

-- `KeyRegistry`
pub record KeyRegistry (W : Type 0) : Type 0 where
  pub has_entries : W → Bool
  pub get_by_email : W → String → Option RegistryEntry
  pub get_secret_by_api_key : W → String → Option String

-- `GoogleSSOConfig` of google_sso.go
pub record GoogleSsoConfig : Type 0 where
  pub client_id : String
  pub client_secret : String
  pub redirect_url : String
  pub endpoint : String
  pub user_info_url : String

-- `oauth2.Config` of golang.org/x/oauth2
pub record Oauth2Config : Type 0 where
  pub client_id : String
  pub client_secret : String
  pub redirect_url : String
  pub scopes : List String
  pub auth_url : String
  pub token_url : String

-- An `http.Client`: a GET of a URL with an `Authorization` header; the status and the body of the
-- response, if there is one.
pub record HttpClient (W : Type 0) : Type 0 where
  pub get_authorized : String → String → W → Option (ℕ × String) × W

-- Library functions: hashing, encodings, URLs, golang-jwt, and the run time's random bytes, clock
-- and order of a `range` over a map.
pub record Library (W : Type 0) : Type 0 where
  pub jwt : JwtLibrary
  pub now : W → ℕ
  pub rand_read : ℕ → W → Option (List ℕ) × W
  pub range_clients : W → Dict ClientEntry → Dict ClientEntry
  pub sha256 : String → List ℕ
  pub raw_url_encode : List ℕ → String
  pub url_encode : String → String
  pub url_decode : String → Option String
  pub marshal_state : OauthState → Option String
  pub unmarshal_state : String → Option OauthState
  pub marshal_uris : List String → String
  pub unmarshal_uris : String → Option (List String)
  pub parse_url : String → Option Url
  pub url_query : Url → Values
  pub encode_values : Values → String
  pub url_string : Url → String
  pub query_escape : String → String
  -- `strings.EqualFold`
  pub equal_fold : String → String → Bool
  -- `strings.ToLower` and `strings.TrimSpace`
  pub to_lower : String → String
  -- `base64.URLEncoding` of bytes
  pub url_encode_bytes : List ℕ → String
  -- `google.Endpoint` of golang.org/x/oauth2: the URLs for the code and for the token
  pub google_endpoint : String × String
  -- `AuthCodeURL` and `Exchange` of golang.org/x/oauth2, the latter with the client of its context
  pub auth_code_url : Oauth2Config → String → String
  pub oauth_exchange : Option (HttpClient W) → Oauth2Config → String → W → Option String × W
  -- `http.DefaultClient`, whether `http.NewRequestWithContext` takes a URL, and the JSON decoding of
  -- an email and whether it is verified
  pub default_client : HttpClient W
  pub accepts_url : String → Bool
  pub decode_user_info : String → Option (String × Bool)
  -- `base64.RawURLEncoding` on a text
  pub raw_url_encode_text : String → String
  pub raw_url_decode : String → Option String
  pub trim_space : String → String
  -- `VerifyTOTPCode` with the skew `TOTPSkewSteps`, `GenerateTOTPSecret` and `ProvisioningURI` of the
  -- package users
  pub verify_totp_code : String → String → ℕ → Bool
  pub generate_totp_secret : W → Option String × W
  pub provisioning_uri : String → String → String → String
  -- the host of `net.SplitHostPort`
  pub split_host_port : String → Option String
