-- ===== src/Handler/Registration.antt =====
-- `Register` of handlers.go, dynamic client registration, and the two metadata endpoints. The decoded
-- JSON body of a request, the redirect URIs and the name, is an argument; `none` is an error.
pub mod Laws
pub mod Soundness
use kite_mcp_oauth.Prelude.{
  ℕ, String, Bool, true, false, not, Option, none, some, List, [], ◌∷◌, ◌==◌, ◌<>◌, length, leb,
  ltb, if◌then◌else◌,
}
use kite_mcp_oauth.Http.{Request, Reply, json, text, texts}
use kite_mcp_oauth.Services.{Library}
use kite_mcp_oauth.Handler.{Handler, State, Handling, pure, or_respond, respond_if, ◌>>=◌, ◌>>◌}
use kite_mcp_oauth.Handler.Stores.{register_client}
use kite_mcp_oauth.Handler.Replies.{method_not_allowed, error_reply, described}

abbrev pub registration_reply : String → String → List String → String → Reply
registration_reply client_id client_secret uris name = json 201 (
    ("client_id", text client_id)
    ∷ ("client_secret", text client_secret)
    ∷ ("redirect_uris", texts uris)
    ∷ ("client_name", text name)
    ∷ ("grant_types", texts ("authorization_code" ∷ []))
    ∷ ("response_types", texts ("code" ∷ []))
    ∷ ("token_endpoint_auth_method", text "client_secret_post")
    ∷ [])

module _ {W : Type 0} (lib : Library W) (h : Handler W) where
  unfoldable pub handle_register : Request → Option (List String × String) → Handling W Reply
  unfolding ◌>>=◌ register_client
  handle_register r decoded = do
    respond_if (not (r.method == "POST")) method_not_allowed
    body ← or_respond decoded (described 400 "invalid_request" "invalid JSON body")
    respond_if (leb (length body.0) 0) (described 400 "invalid_request" "redirect_uris required")
    respond_if (ltb 10 (length body.0))
        (described 400 "invalid_request" "too many redirect_uris (max 10)")
    registered ← register_client lib h body.0 body.1
    client ← or_respond registered (error_reply 500 "server_error")
    pure (registration_reply client.0 client.1 body.0 body.1)

  unfoldable pub resource_metadata : Request → Reply
  resource_metadata r =
      if not (r.method == "GET")
      then method_not_allowed
      else json 200 (
          ("resource", text (h.config.external_url <> "/mcp"))
          ∷ ("authorization_servers", texts (h.config.external_url ∷ []))
          ∷ [])

  unfoldable pub auth_server_metadata : Request → Reply
  auth_server_metadata r =
      if not (r.method == "GET")
      then method_not_allowed
      else json 200 (
          ("issuer", text h.config.external_url)
          ∷ ("authorization_endpoint", text (h.config.external_url <> "/oauth/authorize"))
          ∷ ("token_endpoint", text (h.config.external_url <> "/oauth/token"))
          ∷ ("registration_endpoint", text (h.config.external_url <> "/oauth/register"))
          ∷ ("response_types_supported", texts ("code" ∷ []))
          ∷ ("grant_types_supported", texts ("authorization_code" ∷ []))
          ∷ ("code_challenge_methods_supported", texts ("S256" ∷ []))
          ∷ ("token_endpoint_auth_methods_supported", texts ("client_secret_post" ∷ []))
          ∷ [])
