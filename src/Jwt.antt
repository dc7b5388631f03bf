-- ===== src/Jwt.antt =====
-- jwt.go: tokens for an email and a client, and their validation with two keys. The library
-- golang-jwt and the clock's reading are parameters. A key is the text of its bytes, and the empty
-- key stands for a nil one. Every error of a validation is `none`: no caller tells them apart.
pub mod Laws
use kite_mcp_oauth.Prelude.{
  ℕ, ◌+◌, String, Bool, true, false, Option, none, some, List, [], ◌∷◌, contains, ◌==◌,
  if◌then◌else◌, not, ◌&&◌,
}

pub record Claims : Type 0 where
  pub subject : String
  pub audience : List String
  pub expires_at : ℕ
  pub issued_at : ℕ
  pub issuer : String

-- What the key function is shown of a token: its signing method.
pub data SigningMethod : Type 0 where
  hmac other : SigningMethod

-- `WithValidMethods` and, where it is given, `WithAudience`.
pub record ParserOptions : Type 0 where
  pub valid_methods : List String
  pub audience : Option String

pub record ParsedToken : Type 0 where
  pub claims : Claims
  pub valid : Bool

-- What the code calls of golang-jwt.
pub record JwtLibrary : Type 0 where
  pub new_numeric_date : ℕ → ℕ
  -- `NewWithClaims(SigningMethodHS256, claims).SignedString(key)`
  pub sign : String → Claims → Option String
  -- `ParseWithClaims` at a time, with the key function and the options
  pub parse_with_claims :
      ℕ → String → (SigningMethod → Option String) → ParserOptions → Option ParsedToken

pub record JwtManager : Type 0 where
  pub secret : String
  pub previous_secret : String
  pub token_expiry : ℕ

unfoldable pub new_jwt_manager : String → ℕ → JwtManager
new_jwt_manager secret expiry = record {
  secret = secret;
  previous_secret = "";
  token_expiry = expiry;
}

unfoldable pub set_previous_secret : String → JwtManager → JwtManager
set_previous_secret previous j =
    if previous == ""
    then record j { previous_secret = "" }
    else record j { previous_secret = previous }

unfoldable pub key_func : String → SigningMethod → Option String
key_func key hmac = some key
key_func key other = none

unfoldable pub with_audience : List String → ParserOptions
with_audience [] = record { valid_methods = "HS256" ∷ []; audience = none }
with_audience (a ∷ _) = record { valid_methods = "HS256" ∷ []; audience = some a }

-- The two loops over the wanted audiences and over the token's.
unfoldable pub matches_any : List String → List String → Bool
matches_any [] token_audience = false
matches_any (aud ∷ audiences) token_audience =
    if contains token_audience aud then true else matches_any audiences token_audience

-- `len(audiences) > 1`
abbrev pub has_more : List String → Bool
has_more (_ ∷ _ ∷ _) = true
has_more _ = false

abbrev checked : ParsedToken → Option Claims
checked token = if token.valid then some token.claims else none

module _ (lib : JwtLibrary) where
  open lib use {new_numeric_date, sign, parse_with_claims}

  abbrev pub claims_for : String → String → ℕ → ℕ → Claims
  claims_for email client_id now expiry = record {
    subject = email;
    audience = client_id ∷ [];
    expires_at = new_numeric_date (now + expiry);
    issued_at = new_numeric_date now;
    issuer = "kite-mcp-server";
  }

  unfoldable pub generate_token : JwtManager → ℕ → String → String → Option String
  generate_token j now email client_id =
      sign j.secret (claims_for email client_id now j.token_expiry)

  unfoldable pub generate_token_with_expiry : JwtManager → ℕ → String → String → ℕ → Option String
  generate_token_with_expiry j now email client_id expiry =
      sign j.secret (claims_for email client_id now expiry)

  unfoldable pub parse_with_key : ℕ → String → String → ParserOptions → Option Claims
  unfolding key_func
  parse_with_key now token key opts = elim (parse_with_claims now token (key_func key) opts) [
    | none ↦ none
    | some parsed ↦ checked parsed
  ]

  -- The second chance with the previous key.
  unfoldable pub parse_dual : JwtManager → ℕ → String → ParserOptions → Option Claims
  parse_dual j now token opts = elim (parse_with_key now token j.secret opts) [
    | some claims ↦ some claims
    | none ↦
        if not (j.previous_secret == "")
        then parse_with_key now token j.previous_secret opts
        else none
  ]

  unfoldable pub validate_token : JwtManager → ℕ → String → List String → Option Claims
  unfolding with_audience matches_any
  validate_token j now token audiences = elim (parse_dual j now token (with_audience audiences)) [
    | none ↦ none
    | some claims ↦
        if has_more audiences && not (matches_any audiences claims.audience)
        then none
        else some claims
  ]
