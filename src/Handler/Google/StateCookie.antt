-- ===== src/Handler/Google/StateCookie.antt =====
-- The state and the target that `HandleGoogleLogin` of google_sso.go keeps in a cookie, and what the
-- callback makes of them.
use kite_mcp_oauth.Prelude.{
  ℕ, String, ◌≡◌, ◌≢◌, refl, ap, subst, ◌∙◌, true, none, some, List, [], ◌∷◌, ◌++◌, arith, eq_iff,
  ◌<>◌, Option-cases, inl, inr, ◌⊎◌, false, Bool-cases, is_relative, split_once,
  split_once_bar-append,
}
use kite_mcp_oauth.Http.{Request, Reply, redirect}
use kite_mcp_oauth.Http.CookieValue.{written, sanitize_cookie_value, sanitize_cookie_value-bar}
use kite_mcp_oauth.Services.{GoogleSsoConfig, Library}
use kite_mcp_oauth.Handler.{Handler, State, go, ◌>>=◌}
use kite_mcp_oauth.Handler.Cookies.{held, held-append}
use kite_mcp_oauth.Handler.Mfa.{safe_redirect}
use kite_mcp_oauth.Handler.Google.Laws.{google_target-is_relative}
use kite_mcp_oauth.Handler.Google.{
  google_state_cookie_name, google_state_cookie, cleared_state_cookie, state_cookie_value,
  google_target, handle_google_login, check_state, oauth_config,
}

module _ {W : Type 0} (lib : Library W) (h : Handler W) where
  -- What a login has sent to Google and to the browser.
  pub record GoogleSent (r : Request) (s t : State W) (reply : Reply) : Type 0 where
    pub sso : GoogleSsoConfig
    pub bytes : List ℕ
    pub configured : h.google_sso ≡ some sso
    pub drawn : (lib.rand_read 32 s.world).0 ≡ some bytes
    pub sent :
        reply ≡ redirect (lib.auth_code_url (oauth_config lib sso) (lib.url_encode_bytes bytes))
    pub kept :
        t.cookies
        ≡ s.cookies
          ++ written (
              google_state_cookie (
                lib.url_encode_bytes bytes
                <> ("|" <> safe_redirect (r.query "redirect") "/dashboard")))
            ∷ []

  pub handle_google_login-eq-go :
      (r : Request) (s t : State W) (reply : Reply)
      → handle_google_login lib h r s ≡ (go reply, t)
      → GoogleSent r s t reply
  unfolding handle_google_login ◌>>=◌
  handle_google_login-eq-go r s t reply e = elim (Option-cases h.google_sso) [
    | inl absent ↦ absurd (ground arith)
    | inr (sso, there) ↦ elim (Option-cases (lib.rand_read 32 s.world).0) [
      | inl failed ↦ absurd (ground arith)
      | inr (bytes, drawn) ↦ record {
        sso = sso;
        bytes = bytes;
        configured = there;
        drawn = drawn;
        sent = ground arith;
        kept = ground arith;
      }
    ]
  ]

  -- A cookie value that splits is not empty.
  splits-ne-nil :
      (value : String) (p : String × String) → split_once value "|" ≡ some p → value ≢ ""
  unfolding split_once
  splits-ne-nil value p e empty = cc (e, ap (λ (v : String). split_once v "|") empty)

  check_state_passes :
      (r2 : Request) (s2 : State W) (value state target : String)
      → r2.cookie google_state_cookie_name ≡ some value
      → split_once value "|" ≡ some (state, target)
      → r2.query "state" ≡ state
      → r2.query "error" ≡ ""
      → r2.query "code" ≢ ""
      → check_state lib h r2 s2
        ≡ (go target, record s2 { cookies = s2.cookies ++ cleared_state_cookie ∷ [] })
  unfolding check_state state_cookie_value ◌>>=◌
  check_state_passes r2 s2 value state target cookie split same no_error given = ground (
    arith,
    eq_iff value "",
    splits-ne-nil value (state, target) split,
    eq_iff (r2.query "error") "",
    eq_iff (r2.query "state") state,
    eq_iff (r2.query "code") "",
  )

  google_target-kept_or_home :
      (role target : String) → (google_target role target ≡ target) ⊎ (is_relative target ≡ false)
  unfolding google_target
  google_target-kept_or_home role target = elim (Bool-cases (is_relative target)) [
    | inl local ↦ inl (rw local refl)
    | inr elsewhere ↦ inr elsewhere
  ]

  -- A login with Google comes back to where it was to lead, as far as a cookie can hold that:
  -- HandleGoogleLogin redirects to Google with the state that it has drawn, and if the browser comes
  -- back with that state, a code and no error, and with the cookie as it was written, the callback's
  -- check of the state passes, clears the cookie and gives the target of the login without the
  -- characters that a cookie value cannot hold; the callback redirects to that, whatever the role
  -- is, unless it is no path on the server without them, and to a path on the server in any case. It
  -- relies on base64 giving a text that a cookie can hold and that has no bar.
  pub google_login_returns :
      (r r2 : Request) (s t s2 : State W) (reply : Reply) (bytes : List ℕ) (role : String)
      → split_once (lib.url_encode_bytes bytes) "|" ≡ none
      → sanitize_cookie_value (lib.url_encode_bytes bytes) ≡ lib.url_encode_bytes bytes
      → handle_google_login lib h r s ≡ (go reply, t)
      → (lib.rand_read 32 s.world).0 ≡ some bytes
      → r2.cookie google_state_cookie_name ≡ held google_state_cookie_name t.cookies
      → r2.query "state" ≡ lib.url_encode_bytes bytes
      → r2.query "error" ≡ ""
      → r2.query "code" ≢ ""
      → let target = sanitize_cookie_value (safe_redirect (r.query "redirect") "/dashboard") in
        ((sso : GoogleSsoConfig) × (h.google_sso ≡ some sso)
          × (reply
              ≡ redirect (lib.auth_code_url (oauth_config lib sso) (lib.url_encode_bytes bytes))))
        × (check_state lib h r2 s2
            ≡ (go target, record s2 { cookies = s2.cookies ++ cleared_state_cookie ∷ [] }))
        × ((google_target role target ≡ target) ⊎ (is_relative target ≡ false))
        × (is_relative (google_target role target) ≡ true)
  google_login_returns r r2 s t s2 reply bytes role plain fits e drawn cookie same no_error given =
      let g = handle_google_login-eq-go r s t reply e in
      let asked = safe_redirect (r.query "redirect") "/dashboard" in
      let state = lib.url_encode_bytes bytes in
      let target = sanitize_cookie_value asked in
      let one : g.bytes ≡ bytes = cc (g.drawn, drawn) in
      let kept : t.cookies
          ≡ s.cookies ++ written (google_state_cookie (state <> ("|" <> asked))) ∷ [] =
        subst
          (λ (b : List ℕ).
            t.cookies
            ≡ s.cookies
              ++ written (google_state_cookie (lib.url_encode_bytes b <> ("|" <> asked))) ∷ [])
          one g.kept in
      let value : sanitize_cookie_value (state <> ("|" <> asked)) ≡ state <> ("|" <> target) =
        sanitize_cookie_value-bar state asked ∙ ap (λ (x : String). x <> ("|" <> target)) fits in
      (
        (
          g.sso,
          g.configured,
          g.sent
              ∙ ap
                  (λ (b : List ℕ).
                    redirect (lib.auth_code_url (oauth_config lib g.sso) (lib.url_encode_bytes b)))
                  one,
        ),
        check_state_passes r2 s2 (state <> ("|" <> target)) state target
            (cookie
              ∙ ap (held google_state_cookie_name) kept
              ∙ held-append google_state_cookie_name s.cookies
                  (written (google_state_cookie (state <> ("|" <> asked)))) refl
              ∙ ap (λ (x : String). some x) value)
            (split_once_bar-append state target plain) same no_error given,
        google_target-kept_or_home role target,
        google_target-is_relative role target,
      )
