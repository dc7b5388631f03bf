-- ===== src/Handler/Callback/Laws.antt =====
-- What a callback of Kite has established when `HandleKiteOAuthCallback` of handlers_callback.go
-- answers with a code.
use kite_mcp_oauth.Prelude.{
  String, ◌≡◌, ap, ◌∙◌, subst, ◌⊎◌, inl, inr, Option, some, arith, ◌==◌, Option-cases,
}
use kite_mcp_oauth.Http.{Request, Reply, Url, http_error, redirect, page, login_success}
use kite_mcp_oauth.Services.{OauthState, Library}
use kite_mcp_oauth.Handler.{Handler, State, go, or_respond, respond_if, ◌>>=◌}
use kite_mcp_oauth.Handler.Inversion.{bind-eq-go}
use kite_mcp_oauth.Handler.Replies.{code_redirect}
use kite_mcp_oauth.Handler.Callback.Issuing.{CodeFor, issue_code-eq-go}
use kite_mcp_oauth.Handler.Callback.{
  Issued, recover_callback_state, issue_code, establish_session, handle_kite_oauth_callback, finish,
}

abbrev bad_redirect : Reply
bad_redirect = http_error "invalid redirect URI" 400

module _ {W : Type 0} (lib : Library W) (h : Handler W) where
  recover_callback_state-eq-go :
      (signed : String) (s t : State W) (st : OauthState)
      → recover_callback_state lib h signed s ≡ (go st, t)
      → (encoded : String) × (state_json : String) × (h.signer.verify s.world signed ≡ some encoded)
        × (lib.url_decode encoded ≡ some state_json)
        × (lib.unmarshal_state state_json ≡ some st)
        × (t ≡ s)
  unfolding recover_callback_state
  recover_callback_state-eq-go signed s t st e =
      elim (Option-cases (h.signer.verify s.world signed)) [
        | inl forged ↦ absurd (ground arith)
        | inr (encoded, verified) ↦ elim (Option-cases (lib.url_decode encoded)) [
          | inl garbled ↦ absurd (ground arith)
          | inr (state_json, decoded) ↦
              (encoded, state_json, verified, decoded, ground arith, ground arith)
        ]
      ]

  auth_codes-establish_session :
      (r : Request) (email : String) (s t : State W)
      → establish_session lib h r email s ≡ (go tt, t)
      → t.auth_codes ≡ s.auth_codes
  unfolding establish_session
  auth_codes-establish_session r email s t e = ground arith

  finish-eq-go :
      (url : String) (s t : State W) (reply : Reply)
      → finish lib h url s ≡ (go reply, t)
      → (reply ≡ redirect url ⊎ reply ≡ page (login_success url)) × (t ≡ s)
  unfolding ◌>>=◌
  finish-eq-go url s t reply e = ground arith

  pub or_respond-eq-go :
      {A : Type 0} (o : Option A) (reply : Reply) (s t : State W) (a : A)
      → or_respond o reply s ≡ (go a, t)
      → (o ≡ some a) × (t ≡ s)
  unfolding or_respond
  or_respond-eq-go o reply s t a e = ground arith

  -- What a successful callback has established.
  pub record Completed (r : Request) (request_token : String) (s t : State W) (reply : Reply)
      : Type 0 where
    pub st : OauthState
    pub encoded : String
    pub state_json : String
    pub code : String
    pub email : String
    pub url : Url
    -- the state is what was signed
    pub verified : h.signer.verify s.world (r.query "data") ≡ some encoded
    pub decoded : lib.url_decode encoded ≡ some state_json
    pub unmarshalled : lib.unmarshal_state state_json ≡ some st
    -- a code was issued for it
    pub issued : CodeFor lib h request_token st s t code email
    -- and the response sends it to the redirect URI of the state
    pub parses : lib.parse_url st.redirect_uri ≡ some url
    pub replied :
        reply ≡ redirect (code_redirect lib code st url)
        ⊎ reply ≡ page (login_success (code_redirect lib code st url))

  callback_rest :
      (r : Request) (request_token : String) (s s2 t : State W) (st : OauthState) (issued : Issued)
      (reply : Reply)
      → CodeFor lib h request_token st s s2 issued.0 issued.1
      → (establish_session lib h r issued.1 >>= λ _.
            or_respond (lib.parse_url st.redirect_uri) bad_redirect >>= λ url.
            finish lib h (code_redirect lib issued.0 st url))
          s2
        ≡ (go reply, t)
      → CodeFor lib h request_token st s t issued.0 issued.1
        × (url : Url) × (lib.parse_url st.redirect_uri ≡ some url)
        × (reply ≡ redirect (code_redirect lib issued.0 st url)
            ⊎ reply ≡ page (login_success (code_redirect lib issued.0 st url)))
  callback_rest r request_token s s2 t st issued reply c e =
      let (_, u, e1, k1) = bind-eq-go (establish_session lib h r issued.1) _ s2 t reply e in
      let (url, v, e2, k2) =
        bind-eq-go (or_respond (lib.parse_url st.redirect_uri) bad_redirect) _ u t reply k1 in
      let (parses, same2) = or_respond-eq-go (lib.parse_url st.redirect_uri) _ u v url e2 in
      let (replied, same3) = finish-eq-go (code_redirect lib issued.0 st url) v t reply k2 in
      let codes : t.auth_codes ≡ s2.auth_codes =
        ap (λ (x : State W). x.auth_codes) (same3 ∙ same2)
        ∙ auth_codes-establish_session r issued.1 s2 u e1 in
      (
        record {
          kept = c.kept;
          source = c.source;
          u = c.u;
          same = c.same;
          drawn = c.drawn;
          issued = codes ∙ c.issued;
        },
        url,
        parses,
        replied,
      )

  -- A callback that is answered with a code came with a state that the server signed; the code is
  -- bound to that state's client, redirect URI and challenge, and to the email that the exchange of
  -- the request token gave, or, for a client with its own Kite app only, to the request token itself;
  -- and it is sent to that state's redirect URI.
  pub handle_kite_oauth_callback-eq-go :
      (r : Request) (request_token : String) (s t : State W) (reply : Reply)
      → handle_kite_oauth_callback lib h r request_token s ≡ (go reply, t)
      → Completed r request_token s t reply
  unfolding handle_kite_oauth_callback
  handle_kite_oauth_callback-eq-go r request_token s t reply e =
      let (_, s0, e0, k0) =
        bind-eq-go (respond_if (request_token == "") (http_error "missing request_token" 400)) _ s t
          reply e in
      let start : s0 ≡ s = ground arith in
      let (st, s1, e1, k1) =
        bind-eq-go (recover_callback_state lib h (r.query "data")) _ s0 t reply k0 in
      let (encoded, state_json, verified, decoded, unmarshalled, same1) =
        recover_callback_state-eq-go (r.query "data") s0 s1 st e1 in
      let (issued, s2, e2, k2) = bind-eq-go (issue_code lib h request_token st) _ s1 t reply k1 in
      let (c, url, parses, replied) =
        callback_rest r request_token s1 s2 t st issued reply
          (issue_code-eq-go lib h request_token st s1 s2 issued e2) k2 in
      record {
        st = st;
        encoded = encoded;
        state_json = state_json;
        code = issued.0;
        email = issued.1;
        url = url;
        verified =
            subst (λ (x : State W). h.signer.verify x.world (r.query "data") ≡ some encoded) start
              verified;
        decoded = decoded;
        unmarshalled = unmarshalled;
        issued =
            subst (λ x. CodeFor lib h request_token st x t issued.0 issued.1) (same1 ∙ start) c;
        parses = parses;
        replied = replied;
      }
