-- ===== src/Handler/Token.antt =====
-- `Token` of handlers_oauth.go: POST /oauth/token exchanges an authorization code and its PKCE
-- verifier for an access token.
pub mod Exchange
pub mod Inversion
pub mod Laws
pub mod Soundness
pub mod Errors
pub mod Refusal
use kite_mcp_oauth.Prelude.{ℕ, String, not, ◌||◌, ◌&&◌, [], ◌∷◌, ◌==◌, ◌/◌, if◌then◌else◌}
use kite_mcp_oauth.Time.{second}
use kite_mcp_oauth.AuthCodes.{AuthCodeEntry}
use kite_mcp_oauth.Clients.{get}
use kite_mcp_oauth.Jwt.{generate_token}
use kite_mcp_oauth.Http.{Request, Reply, http_error, json, text, number}
use kite_mcp_oauth.Services.{Library}
use kite_mcp_oauth.Handler.{
  Handler, Handling, pure, gets, or_respond, outside, respond_if, ◌>>=◌, ◌>>◌,
}
use kite_mcp_oauth.Handler.Stores.{consume_code}
use kite_mcp_oauth.Handler.Replies.{method_not_allowed, error_reply, described}
use kite_mcp_oauth.Prelude.{String, [], ◌∷◌}

module _ {W : Type 0} (lib : Library W) (h : Handler W) where
  -- The form's checks; the code and the client's id.
  unfoldable pub check_form : Request → Handling W (Unit {0})
  unfolding ◌>>=◌
  check_form r = do
    respond_if (not (r.method == "POST")) method_not_allowed
    respond_if (not r.form_parses) (error_reply 400 "invalid_request")
    respond_if (not (r.form "grant_type" == "authorization_code"))
        (error_reply 400 "unsupported_grant_type")
    respond_if (r.form "code" == "" || (r.form "code_verifier" == "" || r.form "client_id" == ""))
        (described 400 "invalid_request" "code, code_verifier, and client_id required")

  unfoldable pub authenticate_client : Request → Handling W (Unit {0})
  unfolding ◌>>=◌
  authenticate_client r = do
    found ← gets (λ s. get (r.form "client_id") s.clients)
    client ← or_respond found (error_reply 401 "invalid_client")
    respond_if (not client.is_kite_api_key && not (client.client_secret == r.form "client_secret"))
        (error_reply 401 "invalid_client")

  -- The S256 challenge of a verifier.
  abbrev pub challenge_of : String → String
  challenge_of verifier = lib.raw_url_encode (lib.sha256 verifier)

  unfoldable pub redeem : Request → Handling W AuthCodeEntry
  unfolding ◌>>=◌ consume_code
  redeem r = do
    consumed ← consume_code lib h (r.form "code")
    entry ← or_respond consumed (described 400 "invalid_grant" "code expired or already used")
    respond_if (not (entry.client_id == r.form "client_id"))
        (described 400 "invalid_grant" "client_id mismatch")
    respond_if (not (challenge_of (r.form "code_verifier") == entry.code_challenge))
        (described 400 "invalid_grant" "PKCE verification failed")
    pure entry

  -- The API secret of a deferred exchange: the request's, or else the stored one.
  deferred_secret : Request → Handling W String
  unfolding ◌>>=◌
  deferred_secret r =
      if r.form "client_secret" == ""
      then (do
        stored ← gets (λ s. h.exchanger.get_secret_by_api_key s.world (r.form "client_id"))
        or_respond stored (
            described 400 "invalid_request"
              "client_secret (Kite API secret) required for per-user authentication"))
      else pure (r.form "client_secret")

  deferred_exchange : Request → AuthCodeEntry → Handling W String
  unfolding ◌>>=◌ deferred_secret
  deferred_exchange r entry = do
    secret ← deferred_secret r
    email ←
        outside
          (h.exchanger.exchange_with_credentials entry.request_token (r.form "client_id") secret)
    or_respond email
        (described 400 "invalid_grant" "Kite authentication failed — check your API key and secret")

  pub resolve_email : Request → AuthCodeEntry → Handling W String
  unfolding deferred_exchange
  resolve_email r entry =
      if entry.email == "" && not (entry.request_token == "")
      then deferred_exchange r entry
      else pure entry.email

  abbrev pub token_reply : String → Reply
  token_reply access_token = json 200 (
      ("access_token", text access_token)
      ∷ ("token_type", text "Bearer")
      ∷ ("expires_in", number (h.config.token_expiry / second))
      ∷ [])

  pub issue : Request → String → Handling W Reply
  unfolding ◌>>=◌
  issue r email = do
    respond_if (email == "") (described 500 "server_error" "failed to determine user identity")
    signed ← gets (λ s. generate_token lib.jwt h.jwt (lib.now s.world) email (r.form "client_id"))
    access_token ← or_respond signed (error_reply 500 "server_error")
    pure (token_reply access_token)

  unfoldable pub token : Request → Handling W Reply
  unfolding ◌>>=◌ check_form authenticate_client redeem resolve_email issue
  token r = do
    check_form r
    authenticate_client r
    entry ← redeem r
    email ← resolve_email r entry
    issue r email
