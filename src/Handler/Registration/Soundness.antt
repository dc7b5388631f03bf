-- ===== src/Handler/Registration/Soundness.antt =====
-- `Register` of handlers.go keeps the stores sound: its limit of ten redirect URIs is that of a client.
use kite_mcp_oauth.Prelude.{String, ◌≤◌, Option, List, arith, length, ltb}
use kite_mcp_oauth.Http.{Request, Reply}
use kite_mcp_oauth.Services.{Library}
use kite_mcp_oauth.Handler.{Handler, Handling, pure, ◌>>=◌}
use kite_mcp_oauth.Handler.Keeps.{Keeps, keeps_rules, Keeps-guard, Keeps-bind}
use kite_mcp_oauth.Handler.Keeps.Stores.{RuntimeLaws, Keeps-register_client}
use kite_mcp_oauth.Handler.Registration.{handle_register, registration_reply}
use kite_mcp_oauth.Clients.{max_redirect_uris}
use kite_mcp_oauth.Handler.Stores.{register_client}
use kite_mcp_oauth.Handler.{respond_if, or_respond}
use kite_mcp_oauth.Handler.Replies.{described, error_reply}

module _ {W : Type 0} (lib : Library W) (h : Handler W) (laws : RuntimeLaws lib) where
  -- What follows the checks.
  abbrev join : List String × String → Handling W Reply
  join body = do
    registered ← register_client lib h body.0 body.1
    client ← or_respond registered (error_reply 500 "server_error")
    pure (registration_reply client.0 client.1 body.0 body.1)

  Keeps-join : (body : List String × String) → length body.0 ≤ max_redirect_uris → Keeps (join body)
  Keeps-join body l =
      Keeps-bind (register_client lib h body.0 body.1)
        (λ registered. or_respond registered (error_reply 500 "server_error") >>= λ client.
          pure (registration_reply client.0 client.1 body.0 body.1))
        (Keeps-register_client lib h laws body.0 body.1 l) (λ registered. search keeps_rules)

  Keeps-limited :
      (body : List String × String)
      → Keeps (
          respond_if
            (ltb 10 (length body.0))
            (described 400 "invalid_request" "too many redirect_uris (max 10)")
          >>= λ _. join body)
  Keeps-limited body = Keeps-guard _ _ _ (λ few. Keeps-join body (ground arith))

  pub Keeps-handle_register :
      (r : Request) (decoded : Option (List String × String))
      → Keeps (handle_register lib h r decoded)
  unfolding handle_register
  Keeps-handle_register r decoded = search (keeps_rules, Keeps-limited)
