-- ===== src/Handler/Browser/Laws.antt =====
-- What a browser's callback from Kite has established in `HandleBrowserAuthCallback` of
-- handlers_browser.go.
use kite_mcp_oauth.Prelude.{
  String, ◌≡◌, ◌≢◌, refl, ap, sym, ◌∙◌, true, inl, inr, some, [], ◌∷◌, ◌++◌, arith, eq_iff, ◌==◌,
  Option-cases, Bool-cases, is_relative,
}
use kite_mcp_oauth.Jwt.{generate_token_with_expiry}
use kite_mcp_oauth.Http.{Request, Reply, redirect}
use kite_mcp_oauth.Services.{Library}
use kite_mcp_oauth.Handler.{Handler, State, go, pure, ◌>>=◌}
use kite_mcp_oauth.Handler.Inversion.{bind-eq-go}
use kite_mcp_oauth.Handler.Replies.{auth_cookie, dashboard_token_expiry, set_auth_cookie_or_fail}
use kite_mcp_oauth.Handler.Browser.{
  read_target, local_target, exchange_stored, exchange_for, handle_browser_auth_callback,
}

module _ {W : Type 0} (lib : Library W) (h : Handler W) where
  -- Where the email of a session comes from: the exchange with the credentials that are stored for
  -- the email of the signed target, or the exchange of the server's own app.
  pub data Exchanged (request_token dash_email email : String) (s : State W) (w : W) : Type 0 where
    stored :
        (credentials : String × String)
        → dash_email ≢ ""
        → h.exchanger.get_credentials s.world dash_email ≡ some credentials
        → h.exchanger.exchange_with_credentials request_token credentials.0 credentials.1 s.world
          ≡ (some email, w)
        → Exchanged request_token dash_email email s w
    global :
        dash_email ≡ ""
        → h.exchanger.exchange_request_token request_token s.world ≡ (some email, w)
        → Exchanged request_token dash_email email s w

  exchange_for-eq-go :
      (request_token dash_email email : String) (s t : State W)
      → exchange_for lib h request_token dash_email s ≡ (go email, t)
      → Exchanged request_token dash_email email s t.world × (t ≡ record s { world = t.world })
  unfolding exchange_for exchange_stored ◌>>=◌
  exchange_for-eq-go request_token dash_email email s t e = elim (Bool-cases (dash_email == "")) [
    | inl absent ↦
        let exchanged = h.exchanger.exchange_request_token request_token s.world in
        elim (Option-cases exchanged.0) [
          | inl failed ↦ absurd (ground arith)
          | inr (x, given) ↦ (global ((eq_iff dash_email "").0 absent) (ground arith), ground arith)
        ]
    | inr there ↦ elim (Option-cases (h.exchanger.get_credentials s.world dash_email)) [
      | inl unknown ↦ absurd (ground arith)
      | inr (credentials, known) ↦
          let exchanged =
            h.exchanger.exchange_with_credentials request_token credentials.0 credentials.1
              s.world in
          elim (Option-cases exchanged.0) [
            | inl failed ↦ absurd (ground arith)
            | inr (x, given) ↦ (
              stored credentials (ground (arith, eq_iff dash_email "")) known (ground arith),
              ground arith,
            )
          ]
    ]
  ]

  local_target-is_relative : (target : String) → is_relative (local_target lib h target) ≡ true
  local_target-is_relative target = elim (Bool-cases (is_relative target)) [
    | inl good ↦ rw good good
    | inr bad ↦ rw bad refl
  ]

  pub set_auth_cookie_or_fail-eq-go :
      (email : String) (s t : State W)
      → set_auth_cookie_or_fail lib h email s ≡ (go tt, t)
      → (token : String) × (generate_token_with_expiry lib.jwt h.jwt
            (lib.now s.world)
            email
            "dashboard"
            dashboard_token_expiry
          ≡ some token)
        × (t ≡ record s { cookies = s.cookies ++ auth_cookie token ∷ [] })
  unfolding set_auth_cookie_or_fail ◌>>=◌
  set_auth_cookie_or_fail-eq-go email s t e =
      elim (Option-cases (
        generate_token_with_expiry lib.jwt h.jwt (lib.now s.world) email "dashboard"
          dashboard_token_expiry)) [
            | inl failed ↦ absurd (ground arith)
            | inr (token, signed) ↦ (token, signed, ground arith)
          ]

  pub pure-eq-go :
      (a : Reply) (s t : State W) (b : Reply) → pure a s ≡ (go b, t) → (b ≡ a) × (t ≡ s)
  unfolding pure
  pure-eq-go a s t b e = (ground arith, ground arith)

  -- What a callback that succeeds has established.
  pub record SignedIn (r : Request) (request_token : String) (s t : State W) (reply : Reply)
      : Type 0 where
    pub email : String
    pub token : String
    pub given : request_token ≢ ""
    pub exchanged :
        Exchanged request_token (read_target lib h (r.query "target") s).0 email s t.world
    pub signed :
        generate_token_with_expiry lib.jwt h.jwt
          (lib.now t.world)
          email
          "dashboard"
          dashboard_token_expiry
        ≡ some token
    pub after : t ≡ record s { cookies = s.cookies ++ auth_cookie token ∷ []; world = t.world }
    pub replied : reply ≡ redirect (local_target lib h (read_target lib h (r.query "target") s).1)
    pub relative :
        is_relative (local_target lib h (read_target lib h (r.query "target") s).1) ≡ true

  after_target :
      (r : Request) (request_token : String) (s t : State W) (reply : Reply)
      → request_token ≢ ""
      → (exchange_for lib h request_token (read_target lib h (r.query "target") s).0 >>= λ email.
            set_auth_cookie_or_fail lib h email >>= λ _.
            pure (redirect (local_target lib h (read_target lib h (r.query "target") s).1)))
          s
        ≡ (go reply, t)
      → SignedIn r request_token s t reply
  after_target r request_token s t reply given e =
      let target = read_target lib h (r.query "target") s in
      let (email, u, e1, k1) =
        bind-eq-go (exchange_for lib h request_token target.0) _ s t reply e in
      let (exchanged, same1) = exchange_for-eq-go request_token target.0 email s u e1 in
      let (_, v, e2, k2) = bind-eq-go (set_auth_cookie_or_fail lib h email) _ u t reply k1 in
      let (token, signed, same2) = set_auth_cookie_or_fail-eq-go email u v e2 in
      let (replied, same3) = pure-eq-go (redirect (local_target lib h target.1)) v t reply k2 in
      let world : t.world ≡ u.world = ap (λ (x : State W). x.world) (same3 ∙ same2) in
      record {
        email = email;
        token = token;
        given = given;
        exchanged = rw world exchanged;
        signed = rw world signed;
        after =
            same3
            ∙ same2
            ∙ ap (λ (x : State W). record x { cookies = x.cookies ++ auth_cookie token ∷ [] }) same1
            ∙ ap (λ (w : W). record s { cookies = s.cookies ++ auth_cookie token ∷ []; world = w })
                (sym world);
        replied = replied;
        relative = local_target-is_relative target.1;
      }

  -- A browser's callback that succeeds has exchanged its request token for an email, with the
  -- credentials that are stored for the email of the signed target or, if it holds none, with the
  -- server's app. It sets a dashboard session for the email of the exchange and changes neither
  -- store, and it redirects to the signed target if that is a path on the server, and to /admin/ops
  -- if not.
  pub handle_browser_auth_callback-eq-go :
      (r : Request) (request_token : String) (s t : State W) (reply : Reply)
      → handle_browser_auth_callback lib h r request_token s ≡ (go reply, t)
      → SignedIn r request_token s t reply
  unfolding handle_browser_auth_callback
  handle_browser_auth_callback-eq-go r request_token s t reply e =
      elim (Bool-cases (request_token == "")) [
        | inl empty ↦ absurd (unfold ◌>>=◌ in ground arith)
        | inr given ↦
            after_target r request_token s t reply (ground (arith, eq_iff request_token ""))
              (unfold ◌>>=◌ in ground arith)
      ]
