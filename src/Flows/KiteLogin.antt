-- ===== src/Flows/KiteLogin.antt =====
-- A login at Kite from end to end: the state that handlers_oauth.go signs, the callback of
-- handlers_callback.go that issues the code, and the token that the client redeems it for.
use kite_mcp_oauth.Prelude.{
  String, ◌≡◌, ◌≢◌, ◌⊎◌, refl, ap, sym, ◌∙◌, subst, true, some, List, All, arith,
}
use kite_mcp_oauth.AuthCodes.{AuthCodeEntry, AuthCodeStore, consume, stamp}
use kite_mcp_oauth.AuthCodes.Capacity.{IsBounded}
use kite_mcp_oauth.AuthCodes.Provenance.{redeemed_is_issued}
use kite_mcp_oauth.AuthCodes.Schedule.{Call, run, DoesNotIssue}
use kite_mcp_oauth.Clients.{is_kite_client}
use kite_mcp_oauth.Jwt.{generate_token}
use kite_mcp_oauth.Http.{Request, Reply, Url, redirect, page, login_success}
use kite_mcp_oauth.Services.{OauthState, Library}
use kite_mcp_oauth.Handler.{Handler, State, go}
use kite_mcp_oauth.Handler.Replies.{code_redirect}
use kite_mcp_oauth.Handler.Authorize.{signed_state, entry_for}
use kite_mcp_oauth.Handler.Authorize.Issuing.{issued_codes}
use kite_mcp_oauth.Handler.Callback.{recover_callback_state}
use kite_mcp_oauth.Handler.Callback.Issuing.{Source, immediate, deferred, registered, configured}
use kite_mcp_oauth.Handler.Callback.Laws.{Completed}
use kite_mcp_oauth.Handler.SignedState.{StateLaws, recover_callback_state-signed_state}
use kite_mcp_oauth.Handler.Token.{challenge_of, token, token_reply}
use kite_mcp_oauth.Handler.Token.Exchange.{Resolves, known, exchanged}
use kite_mcp_oauth.Handler.Token.Inversion.{token-eq-go}
use kite_mcp_oauth.Flows.{issue_time, generated_of_drawn}

module _ {W : Type 0} (lib : Library W) (h : Handler W) where
  -- The email is the one that Kite gave for the request token: to the callback, or to Token for a
  -- client with its own Kite app.
  pub data KiteEmail (request_token : String) (st : OauthState) (s1 s2 : State W) (email : String)
      : Type 0 where
    at_callback : Source lib h request_token st s1 email "" → KiteEmail request_token st s1 s2 email
    at_token :
        (secret : String) (w : W)
        → is_kite_client st.client_id s1.clients ≡ true
        → h.exchanger.exchange_with_credentials request_token st.client_id secret s2.world
          ≡ (some email, w)
        → KiteEmail request_token st s1 s2 email

  Source-KiteEmail :
      (request_token : String) (st : OauthState) (s1 s2 : State W) (email kept : String)
      → Source lib h request_token st s1 email kept
      → email ≢ ""
      → KiteEmail request_token st s1 s2 email
  Source-KiteEmail request_token st s1 s2 email kept (immediate secret w kite found given e) n =
      at_callback (immediate secret w kite found given refl)
  Source-KiteEmail request_token st s1 s2 email kept (deferred kite e same) n = absurd (n e)
  Source-KiteEmail request_token st s1 s2 email kept (registered w other keyed found given e) n =
      at_callback (registered w other keyed found given refl)
  Source-KiteEmail request_token st s1 s2 email kept (configured w other unkeyed given e) n =
      at_callback (configured w other unkeyed given refl)

  kept_later :
      (request_token : String) (st : OauthState) (s : State W) (email kept : String)
      → Source lib h request_token st s email kept
      → kept ≢ ""
      → (is_kite_client st.client_id s.clients ≡ true) × (kept ≡ request_token)
  kept_later request_token st s email kept (immediate secret w kite found given e) n = absurd (n e)
  kept_later request_token st s email kept (deferred kite e same) n = (kite, same)
  kept_later request_token st s email kept (registered w other keyed found given e) n = absurd (n e)
  kept_later request_token st s email kept (configured w other unkeyed given e) n = absurd (n e)

  Resolves-KiteEmail :
      (r2 : Request) (request_token : String) (st : OauthState) (s1 s2 s3 t2 : State W)
      (entry : AuthCodeEntry) (email : String)
      → Source lib h request_token st s1 entry.email entry.request_token
      → r2.form "client_id" ≡ st.client_id
      → s3.world ≡ s2.world
      → Resolves lib h r2 s3 t2 entry email
      → email ≢ ""
      → KiteEmail request_token st s1 s2 email
  Resolves-KiteEmail r2 request_token st s1 s2 s3 t2 entry email source client world
        (known same unchanged) n =
      subst (KiteEmail request_token st s1 s2) same (
        Source-KiteEmail request_token st s1 s2 entry.email entry.request_token source
          (λ e. n (sym same ∙ e)))
  Resolves-KiteEmail r2 request_token st s1 s2 s3 t2 entry email source client world
        (exchanged secret no_email given from done after) n =
      let (kite, kept) =
        kept_later request_token st s1 entry.email entry.request_token source given in
      at_token secret t2.world kite (cc (kept, client, world, done))

  -- What the token of a login is: for the client and the challenge of the state that was signed, and
  -- for the email that Kite gave.
  pub record LoginToken (request_token code : String) (st : OauthState) (r2 : Request)
      (s1 s2 t2 : State W) (reply1 reply2 : Reply) : Type 0 where
    -- the code was sent to the redirect URI of the state
    pub url : Url
    pub parses : lib.parse_url st.redirect_uri ≡ some url
    pub sent :
        reply1 ≡ redirect (code_redirect lib code st url)
        ⊎ reply1 ≡ page (login_success (code_redirect lib code st url))
    -- and redeemed by the client that the state names, with the verifier of its challenge
    pub same_client : r2.form "client_id" ≡ st.client_id
    pub verified : challenge_of lib h (r2.form "code_verifier") ≡ st.code_challenge
    pub email : String
    pub access_token : String
    pub identified : email ≢ ""
    pub from_kite : KiteEmail request_token st s1 s2 email
    pub signed :
        generate_token lib.jwt h.jwt (lib.now t2.world) email st.client_id ≡ some access_token
    pub replied : reply2 ≡ token_reply lib h access_token

module _ {W : Type 0} (lib : Library W) (h : Handler W) (r1 : Request) (request_token : String)
    (s1 t1 : State W) (reply1 : Reply) (c : Completed lib h r1 request_token s1 t1 reply1) where
  Completed-state :
      (fresh : W → W → Type 0) (st : OauthState) (s0 u0 : State W)
      → StateLaws lib h fresh
      → signed_state lib h st s0 ≡ (go (r1.query "data"), u0)
      → fresh s0.world s1.world
      → c.st ≡ st
  unfolding recover_callback_state
  Completed-state fresh st s0 u0 laws e f =
      let (back, _) =
        recover_callback_state-signed_state lib h fresh laws st s0 u0 s1 (r1.query "data") e f in
      ground (arith, back, c.verified, c.decoded, c.unmarshalled)

  -- The entry that the code is redeemed for, after any calls that do not issue it anew.
  Completed-redeemed :
      (r2 : Request) (s2 : State W) (cs : List Call) (e : AuthCodeEntry)
      → IsBounded s1.auth_codes
      → All (DoesNotIssue c.code) cs
      → s2.auth_codes ≡ run cs t1.auth_codes
      → r2.form "code" ≡ c.code
      → (consume (r2.form "code") (lib.now s2.world) s2.auth_codes).0 ≡ some e
      → e ≡ stamp (issue_time lib h c.issued.u) (entry_for c.st c.email c.issued.kept)
  Completed-redeemed r2 s2 cs e b spared between presented redeemed =
      let entry = entry_for c.st c.email c.issued.kept in
      redeemed_is_issued c.code (issue_time lib h c.issued.u) (lib.now s2.world) entry e cs
        c.issued.u.auth_codes (issued_codes lib h entry c.issued.u)
        (subst IsBounded (sym c.issued.same) b)
        (generated_of_drawn lib h entry c.issued.u c.code c.issued.drawn) spared
        (subst (λ (a : AuthCodeStore). (consume c.code (lib.now s2.world) a).0 ≡ some e)
          (between ∙ ap (run cs) c.issued.issued)
          (subst (λ (k : String). (consume k (lib.now s2.world) s2.auth_codes).0 ≡ some e) presented
            redeemed))

  -- A login at Kite, from the state that the server signed for a client's request to the access
  -- token: if the callback came with that state, while its signature was fresh, and was answered with
  -- a code (`Completed`), and Token answers a request that presents the code, whatever calls that do
  -- not issue it anew come between, then the code was sent to the redirect URI of the request, its
  -- client and the verifier of its challenge redeemed it, and the access token is for that client and
  -- for the email that Kite gave for the callback's request token. It relies on a signer and
  -- encodings as documented (`StateLaws`), and starts from a well-formed store.
  pub access_is_for_kite_user :
      (fresh : W → W → Type 0) (st : OauthState) (s0 u0 s2 t2 : State W) (r2 : Request)
      (reply2 : Reply) (cs : List Call)
      → StateLaws lib h fresh
      → signed_state lib h st s0 ≡ (go (r1.query "data"), u0)
      → fresh s0.world s1.world
      → IsBounded s1.auth_codes
      → All (DoesNotIssue c.code) cs
      → s2.auth_codes ≡ run cs t1.auth_codes
      → r2.form "code" ≡ c.code
      → token lib h r2 s2 ≡ (go reply2, t2)
      → LoginToken lib h request_token c.code st r2 s1 s2 t2 reply1 reply2
  access_is_for_kite_user fresh st s0 u0 s2 t2 r2 reply2 cs laws e f b spared between presented
        answered =
      let g = token-eq-go lib h r2 s2 t2 reply2 answered in
      let spent : State W = record s2 {
        auth_codes = (consume (r2.form "code") (lib.now s2.world) s2.auth_codes).1;
      } in
      let same = Completed-state fresh st s0 u0 laws e f in
      let entry = Completed-redeemed r2 s2 cs g.entry b spared between presented g.redeemed in
      let client : r2.form "client_id" ≡ st.client_id =
        sym g.same_client
        ∙ ap (λ (x : AuthCodeEntry). x.client_id) entry
        ∙ ap (λ (x : OauthState). x.client_id) same in
      record {
        url = c.url;
        parses =
            subst (λ (x : OauthState). lib.parse_url x.redirect_uri ≡ some c.url) same c.parses;
        sent =
            subst
              (λ x.
                reply1 ≡ redirect (code_redirect lib c.code x c.url)
                ⊎ reply1 ≡ page (login_success (code_redirect lib c.code x c.url)))
              same c.replied;
        same_client = client;
        verified =
            g.verified
            ∙ ap (λ (x : AuthCodeEntry). x.code_challenge) entry
            ∙ ap (λ (x : OauthState). x.code_challenge) same;
        email = g.email;
        access_token = g.access_token;
        identified = g.identified;
        from_kite =
            Resolves-KiteEmail lib h r2 request_token st s1 s2 spent t2
              (stamp (issue_time lib h c.issued.u) (entry_for c.st c.email c.issued.kept)) g.email
              (subst (λ x. Source lib h request_token x s1 c.email c.issued.kept) same
                c.issued.source)
              client refl (subst (λ x. Resolves lib h r2 spent t2 x g.email) entry g.resolved)
              g.identified;
        signed =
            subst
              (λ (k : String).
                generate_token lib.jwt h.jwt (lib.now t2.world) g.email k ≡ some g.access_token)
              client g.signed;
        replied = g.replied;
      }
