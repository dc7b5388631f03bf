-- ===== src/Handler/Token/Exchange.antt =====
-- Which email `Token` of handlers_oauth.go grants a token to, for a code with an email and for a
-- deferred one.
use kite_mcp_oauth.Prelude.{
  subst, Option, String, ◌≡◌, ◌≢◌, not, ◌&&◌, ◌⊎◌, some, arith, eq_iff, ◌==◌, Option-cases,
  Bool-cases, inl, inr,
}
use kite_mcp_oauth.AuthCodes.{AuthCodeEntry}
use kite_mcp_oauth.Http.{Request, Reply}
use kite_mcp_oauth.Services.{Library}
use kite_mcp_oauth.Handler.{Handler, State, go, outside, or_respond, ◌>>=◌}
use kite_mcp_oauth.Handler.Inversion.{bind-eq-go}
use kite_mcp_oauth.Handler.Token.{deferred_secret, resolve_email, deferred_exchange}

module _ {W : Type 0} (lib : Library W) (h : Handler W) (r : Request) where
  -- The email of a grant: the one the code was issued with, or, for a deferred code, the one that
  -- the exchange of its request token gives, with the secret of the request or the stored one.
  pub data Resolves (s t : State W) (entry : AuthCodeEntry) (email : String) : Type 0 where
    known : entry.email ≡ email → t ≡ s → Resolves s t entry email
    exchanged :
        (secret : String)
        → entry.email ≡ ""
        → entry.request_token ≢ ""
        → (secret ≡ r.form "client_secret")
          ⊎ (r.form "client_secret" ≡ "")
            × (h.exchanger.get_secret_by_api_key s.world (r.form "client_id") ≡ some secret)
        → h.exchanger.exchange_with_credentials entry.request_token
            (r.form "client_id")
            secret
            s.world
          ≡ (some email, t.world)
        → t ≡ record s { world = t.world }
        → Resolves s t entry email

  deferred_secret-eq-go :
      (s t : State W) (secret : String)
      → deferred_secret lib h r s ≡ (go secret, t)
      → ((secret ≡ r.form "client_secret")
          ⊎ (r.form "client_secret" ≡ "")
            × (h.exchanger.get_secret_by_api_key s.world (r.form "client_id") ≡ some secret))
        × (t ≡ s)
  unfolding deferred_secret
  deferred_secret-eq-go s t secret e = ground (
    arith,
    eq_iff (r.form "client_secret") "",
    Option-cases (h.exchanger.get_secret_by_api_key s.world (r.form "client_id")),
  )

  or_respond-outside-eq-go :
      (f : W → Option String × W) (reply : Reply) (s t : State W) (email : String)
      → (outside f >>= λ x. or_respond x reply) s ≡ (go email, t)
      → (f s.world ≡ (some email, t.world)) × (t ≡ record s { world = t.world })
  unfolding ◌>>=◌
  or_respond-outside-eq-go f reply s t email e = elim (Option-cases (f s.world).0) [
    | inl failed ↦ absurd (ground arith)
    | inr (x, found) ↦ (ground arith, ground arith)
  ]

  deferred_exchange-eq-go :
      (s t : State W) (entry : AuthCodeEntry) (email : String)
      → entry.email ≡ ""
      → entry.request_token ≢ ""
      → deferred_exchange lib h r entry s ≡ (go email, t)
      → Resolves s t entry email
  unfolding deferred_exchange
  deferred_exchange-eq-go s t entry email none_yet deferred e =
      let (secret, u, drawn, rest) = bind-eq-go (deferred_secret lib h r) _ s t email e in
      let (source, same) = deferred_secret-eq-go s u secret drawn in
      let (given, kept) =
        or_respond-outside-eq-go
          (h.exchanger.exchange_with_credentials entry.request_token (r.form "client_id") secret) _
          u t email rest in
      exchanged secret none_yet deferred source
        (subst
          (λ (v : State W).
            h.exchanger.exchange_with_credentials entry.request_token (r.form "client_id") secret
              v.world
            ≡ (some email, t.world))
          same given)
        (subst (λ (v : State W). t ≡ record v { world = t.world }) same kept)

  pub resolve_email-eq-go :
      (s t : State W) (entry : AuthCodeEntry) (email : String)
      → resolve_email lib h r entry s ≡ (go email, t)
      → Resolves s t entry email
  unfolding resolve_email
  resolve_email-eq-go s t entry email e =
      elim (Bool-cases (entry.email == "" && not (entry.request_token == ""))) [
        | inr direct ↦ known (ground arith) (ground arith)
        | inl deferred ↦
            deferred_exchange-eq-go s t entry email
              (ground (arith, eq_iff entry.email "", eq_iff entry.request_token ""))
              (ground (arith, eq_iff entry.email "", eq_iff entry.request_token "")) (ground arith)
      ]
