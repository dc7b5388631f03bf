-- ===== src/Handler/Google/Session.antt =====
-- The session that the callback of Google in google_sso.go sets.
use kite_mcp_oauth.Prelude.{
  String, ◌≡◌, sym, ◌∙◌, subst, true, some, [], ◌∷◌, ◌++◌, arith, eq_iff, is_relative,
}
use kite_mcp_oauth.Jwt.{generate_token_with_expiry}
use kite_mcp_oauth.Http.{Request, Reply, http_error, redirect}
use kite_mcp_oauth.Services.{AdminUserStore, GoogleSsoConfig, Library}
use kite_mcp_oauth.Handler.{Handler, State, go, gets, pure, or_respond, ◌>>=◌}
use kite_mcp_oauth.Handler.Inversion.{bind-eq-go}
use kite_mcp_oauth.Handler.Replies.{auth_cookie, dashboard_token_expiry, set_auth_cookie_or_fail}
use kite_mcp_oauth.Handler.Browser.Laws.{set_auth_cookie_or_fail-eq-go}
use kite_mcp_oauth.Handler.Callback.Laws.{or_respond-eq-go}
use kite_mcp_oauth.Handler.EmailLookup.{find_app}
use kite_mcp_oauth.Handler.Google.{
  google_target, check_state, google_email, admit_account, handle_google_callback, not_configured,
}
use kite_mcp_oauth.Handler.Google.Laws.{
  StateMatches, GoogleVerifies, check_state-eq-go, google_email-eq-go, link_to-goes,
  google_target-is_relative,
}

module _ {W : Type 0} (lib : Library W) (h : Handler W) where
  admit_account-eq-go :
      (users : AdminUserStore W) (email : String) (s t : State W)
      → admit_account lib h users email s ≡ (go tt, t)
      → (users.get_status t.world email ≡ "active") × (t ≡ record s { world = t.world })
  unfolding admit_account ◌>>=◌
  admit_account-eq-go users email s t e =
      let made : State W = record s { world = users.ensure_google_user email s.world } in
      let (b, w, linked) = link_to-goes lib h users email (find_app lib h email made) made in
      (
        ground (arith, eq_iff (users.get_status w email) "active"),
        ground (arith, eq_iff (users.get_status w email) "active"),
      )

  -- What a callback of Google that succeeds has established; the states are those after the check of
  -- the state cookie, after Google's answers, and after the account was admitted.
  pub record GoogleSignedIn (r : Request) (s t : State W) (reply : Reply) : Type 0 where
    pub sso : GoogleSsoConfig
    pub users : AdminUserStore W
    pub target : String
    pub email : String
    pub token : String
    pub s1 : State W
    pub s2 : State W
    pub s3 : State W
    pub configured : h.google_sso ≡ some sso
    pub matched : StateMatches lib h r s s1 target
    pub verified : GoogleVerifies lib h sso r s1 s2 email
    pub store : h.user_store ≡ some users
    pub active : users.get_status s3.world email ≡ "active"
    pub admitted : s3 ≡ record s2 { world = s3.world }
    pub signed :
        generate_token_with_expiry lib.jwt h.jwt
          (lib.now s3.world)
          email
          "dashboard"
          dashboard_token_expiry
        ≡ some token
    pub after : t ≡ record s3 { cookies = s3.cookies ++ auth_cookie token ∷ [] }
    pub replied : reply ≡ redirect (google_target (users.get_role t.world email) target)
    pub relative : is_relative (google_target (users.get_role t.world email) target) ≡ true

  role_reply-eq-go :
      (users : AdminUserStore W) (email target : String) (s t : State W) (reply : Reply)
      → (gets (λ (x : State W). users.get_role x.world email) >>= λ role.
            pure (redirect (google_target role target)))
          s
        ≡ (go reply, t)
      → (reply ≡ redirect (google_target (users.get_role s.world email) target)) × (t ≡ s)
  unfolding ◌>>=◌
  role_reply-eq-go users email target s t reply e = (ground arith, ground arith)

  -- A callback of Google that succeeds came with a state that the state cookie holds too, and the
  -- cookie is cleared; Google gave the email for the code, and says that it is verified; the account
  -- of that email, trimmed and in lower case, is active. The response sets a dashboard session for
  -- that email, and redirects to a path on the server.
  pub handle_google_callback-eq-go :
      (r : Request) (s t : State W) (reply : Reply)
      → handle_google_callback lib h r s ≡ (go reply, t)
      → GoogleSignedIn r s t reply
  unfolding handle_google_callback
  handle_google_callback-eq-go r s t reply e =
      let (sso, s0, e0, k0) =
        bind-eq-go (or_respond h.google_sso (not_configured lib h)) _ s t reply e in
      let (configured, start) = or_respond-eq-go lib h h.google_sso _ s s0 sso e0 in
      let (target, s1, e1, k1) = bind-eq-go (check_state lib h r) _ s0 t reply k0 in
      let (email, s2, e2, k2) = bind-eq-go (google_email lib h sso r) _ s1 t reply k1 in
      let (users, s2', e3, k3) =
        bind-eq-go (or_respond h.user_store (http_error "Login not configured" 500)) _ s2 t reply
          k2 in
      let (store, same) = or_respond-eq-go lib h h.user_store _ s2 s2' users e3 in
      let (_, s3, e4, k4) = bind-eq-go (admit_account lib h users email) _ s2' t reply k3 in
      let (active, admitted) = admit_account-eq-go users email s2' s3 e4 in
      let (_, s4, e5, k5) = bind-eq-go (set_auth_cookie_or_fail lib h email) _ s3 t reply k4 in
      let (token, signed, cookie) = set_auth_cookie_or_fail-eq-go lib h email s3 s4 e5 in
      let (replied, last) = role_reply-eq-go users email target s4 t reply k5 in
      record {
        sso = sso;
        users = users;
        target = target;
        email = email;
        token = token;
        s1 = s1;
        s2 = s2;
        s3 = s3;
        configured = configured;
        matched =
            subst (λ x. StateMatches lib h r x s1 target) start
              (check_state-eq-go lib h r s0 s1 target e1);
        verified = google_email-eq-go lib h sso r s1 s2 email e2;
        store = store;
        active = active;
        admitted = subst (λ (x : State W). s3 ≡ record x { world = s3.world }) same admitted;
        signed = signed;
        after = last ∙ cookie;
        replied =
            subst
              (λ (x : State W).
                reply ≡ redirect (google_target (users.get_role x.world email) target))
              (sym last) replied;
        relative = google_target-is_relative (users.get_role t.world email) target;
      }
