-- ===== src/Handler/Token/Refusal.antt =====
-- What an error response of `Token` in handlers_oauth.go tells a client.
use kite_mcp_oauth.Prelude.{subst, sym, ap, ◌≡◌, true, ◌⊎◌, some}
use kite_mcp_oauth.AuthCodes.{AuthCodeEntry, consume}
use kite_mcp_oauth.Clients.{ClientEntry, get}
use kite_mcp_oauth.Http.{Request, Reply}
use kite_mcp_oauth.Services.{Library}
use kite_mcp_oauth.Handler.{Handler, State, go, stop, ◌>>=◌}
use kite_mcp_oauth.Handler.Replies.{error_reply}
use kite_mcp_oauth.Handler.Inversion.{bind-cases, stopped, went_on}
use kite_mcp_oauth.Handler.Token.Inversion.{
  check_form-eq-go, authenticate_client-eq-go, redeem-eq-go,
}
use kite_mcp_oauth.Handler.Token.Errors.{
  FormError, GrantError, failed, not_exchanged, IsForeign, consumed, after_consume, SameStores,
  check_form-eq-stop, authenticate_client-eq-stop, redeem-eq-stop, resolve_email-SameStores,
  resolve_email-eq-stop, issue-eq-stop,
}
use kite_mcp_oauth.Handler.Token.{
  check_form, authenticate_client, redeem, resolve_email, issue, token,
}

module _ {W : Type 0} (lib : Library W) (h : Handler W) (r : Request) where
  -- After the redemption.
  granting-eq-stop :
      (s t : State W) (entry : AuthCodeEntry) (reply : Reply)
      → consumed lib h r s ≡ some entry
      → (resolve_email lib h r entry >>= issue lib h r) (after_consume lib h r s) ≡ (stop reply, t)
      → GrantError lib h r s reply × SameStores lib h r (after_consume lib h r s) t
  granting-eq-stop s t entry reply found e =
      elim (bind-cases (resolve_email lib h r entry) (issue lib h r) (after_consume lib h r s) t
        (stop reply) e) [
          | stopped answer at same ↦
              let at_reply : resolve_email lib h r entry (after_consume lib h r s)
                  ≡ (stop reply, t) =
                cc (at, same) in
              let (no_email, deferred, why) =
                resolve_email-eq-stop lib h r (after_consume lib h r s) t entry reply at_reply in
              (
                not_exchanged entry found no_email deferred why,
                resolve_email-SameStores lib h r (after_consume lib h r s) t entry (stop reply)
                    at_reply,
              )
          | went_on email u at rest ↦
              let (why, same) = issue-eq-stop lib h r u t email reply rest in
              let (codes, clients, cookies) =
                resolve_email-SameStores lib h r (after_consume lib h r s) u entry (go email) at in
              (
                failed why,
                subst (SameStores lib h r (after_consume lib h r s)) (sym same)
                    (codes, clients, cookies),
              )
        ]

  -- What an error response of a token request tells: the request was not well formed, or its client
  -- is not registered or has another secret, and then nothing has changed; or the code was presented
  -- by an authenticated client, and then it is spent, whatever came of it, and no store has changed
  -- otherwise.
  pub data Refused (s t : State W) (reply : Reply) : Type 0 where
    malformed : FormError lib h r reply → t ≡ s → Refused s t reply
    foreign :
        reply ≡ error_reply 401 "invalid_client" → IsForeign lib h r s → t ≡ s → Refused s t reply
    spent :
        (c : ClientEntry)
        → get (r.form "client_id") s.clients ≡ some c
        → c.is_kite_api_key ≡ true ⊎ c.client_secret ≡ r.form "client_secret"
        → GrantError lib h r s reply
        → t.auth_codes ≡ (consume (r.form "code") (lib.now s.world) s.auth_codes).1
        → t.clients ≡ s.clients
        → t.cookies ≡ s.cookies
        → Refused s t reply

  redeeming-eq-stop :
      (s t : State W) (c : ClientEntry) (reply : Reply)
      → get (r.form "client_id") s.clients ≡ some c
      → c.is_kite_api_key ≡ true ⊎ c.client_secret ≡ r.form "client_secret"
      → (redeem lib h r >>= λ entry. resolve_email lib h r entry >>= issue lib h r) s
        ≡ (stop reply, t)
      → Refused s t reply
  redeeming-eq-stop s t c reply found authentic e =
      elim (bind-cases (redeem lib h r) _ s t (stop reply) e) [
        | stopped answer at same ↦
            let (why, after) = redeem-eq-stop lib h r s t reply (cc (at, same)) in
            spent c found authentic why (ap (λ (v : State W). v.auth_codes) after)
              (ap (λ (v : State W). v.clients) after) (ap (λ (v : State W). v.cookies) after)
        | went_on entry u at rest ↦
            let (redeemed, _, _, after) = redeem-eq-go lib h r s u entry at in
            let (why, (codes, clients, cookies)) = granting-eq-stop s t entry reply redeemed (
              subst (λ v. (resolve_email lib h r entry >>= issue lib h r) v ≡ (stop reply, t)) after
                rest) in
            spent c found authentic why codes clients cookies
      ]

  authenticating-eq-stop :
      (s t : State W) (reply : Reply)
      → (authenticate_client lib h r >>= λ _.
            redeem lib h r >>= λ entry. resolve_email lib h r entry >>= issue lib h r)
          s
        ≡ (stop reply, t)
      → Refused s t reply
  authenticating-eq-stop s t reply e =
      elim (bind-cases (authenticate_client lib h r) _ s t (stop reply) e) [
        | stopped answer at same ↦
            let (why, stranger, after) =
              authenticate_client-eq-stop lib h r s t reply (cc (at, same)) in
            foreign why stranger after
        | went_on a u at rest ↦
            let (c, found, authentic, after) = authenticate_client-eq-go lib h r s u at in
            redeeming-eq-stop s t c reply found authentic (
              subst
                (λ v.
                  (redeem lib h r >>= λ entry. resolve_email lib h r entry >>= issue lib h r) v
                  ≡ (stop reply, t))
                after rest)
      ]

  -- Every error response of Token is one of its kinds (`Refused`): a request that is not well formed
  -- or whose client is not authenticated is refused before the code is looked at, and changes
  -- nothing; a code that an authenticated client presents is spent even if it gives no token, and
  -- nothing else in the stores changes, and no cookie is set.
  pub token-Refused :
      (s t : State W) (reply : Reply) → token lib h r s ≡ (stop reply, t) → Refused s t reply
  unfolding token
  token-Refused s t reply e = elim (bind-cases (check_form lib h r) _ s t (stop reply) e) [
    | stopped answer at same ↦
        let (why, after) = check_form-eq-stop lib h r s t reply (cc (at, same)) in
        malformed why after
    | went_on a u at rest ↦
        let (_, _, _, _, _, _, after) = check_form-eq-go lib h r s u at in
        authenticating-eq-stop s t reply (
          subst
            (λ v.
              (authenticate_client lib h r >>= λ _.
              redeem lib h r >>= λ entry. resolve_email lib h r entry >>= issue lib h r)
                v
              ≡ (stop reply, t))
            after rest)
  ]
