-- ===== src/Handler/Mfa/Laws.antt =====
-- When the handlers of handlers_admin_mfa.go set the MFA cookie.
use kite_mcp_oauth.Prelude.{
  String, ◌≡◌, ◌≢◌, refl, Bool, true, ◌||◌, ◌⊎◌, inl, inr, none, some, List, [], ◌∷◌, ◌++◌, arith,
  eq_iff, ◌==◌, ◌<>◌, Option-cases, Bool-cases, is_relative,
}
use kite_mcp_oauth.Http.{Request, Reply, Cookie, redirect}
use kite_mcp_oauth.Services.{AdminUserStore, Library}
use kite_mcp_oauth.Handler.{Handler, Template-cases, State, Flow, go, ◌>>=◌}
use kite_mcp_oauth.Random.{hex_encode}
use kite_mcp_oauth.Handler.Replies.{csrf_cookie}
use kite_mcp_oauth.Middleware.{admin_mfa_cookie_name, mint_admin_mfa_token}
use kite_mcp_oauth.Handler.Cookies.{sets, sets-append}
use kite_mcp_oauth.Handler.Mfa.{
  bad_csrf, bad_code, csrf_name, safe_redirect, admin_mfa_cookie, check_admin_mfa_csrf,
  form_redirect, render_form, serve_enroll_form, serve_verify_form, grant_mfa, after_persist,
  persist_secret, enroll_post, handle_admin_mfa_enroll,
}

-- Whether the MFA cookie is among the cookies.
abbrev pub grants : List Cookie → Bool
grants cs = sets admin_mfa_cookie_name cs

grants-append :
    (cs : List Cookie) (c : Cookie)
    → grants (cs ++ c ∷ []) ≡ (grants cs || c.name == admin_mfa_cookie_name)
grants-append cs c = sets-append admin_mfa_cookie_name cs c

-- A target of a redirect is a path on this server.
pub safe_redirect-is_relative :
    (candidate fallback : String)
    → is_relative fallback ≡ true
    → is_relative (safe_redirect candidate fallback) ≡ true
unfolding safe_redirect
safe_redirect-is_relative candidate fallback h = elim (Bool-cases (is_relative candidate)) [
  | inl good ↦ ground arith
  | inr bad ↦ ground arith
]

module _ {W : Type 0} (lib : Library W) (h : Handler W) where
  render_form-grants :
      (executes : Bool) (form : String → Reply) (s : State W)
      → grants (render_form lib h executes form s).1.cookies ≡ grants s.cookies
  unfolding render_form
  render_form-grants executes form s = elim (Option-cases (lib.rand_read 32 s.world).0) [
    | inl no_bytes ↦ ground arith
    | inr (bytes, drawn) ↦ ground (
      arith,
      grants-append s.cookies (csrf_cookie csrf_name "/auth/admin-mfa" (hex_encode bytes)),
    )
  ]

  serve_enroll_form-grants :
      (email secret target err : String) (s : State W)
      → grants (serve_enroll_form lib h email secret target err s).1.cookies ≡ grants s.cookies
  unfolding serve_enroll_form
  serve_enroll_form-grants email secret target err s =
      elim (Template-cases h.admin_mfa_enroll_tmpl) [
        | inl absent ↦ rw (absent, serve_enroll_form) refl
        | inr (executes, there) ↦ rw (there, serve_enroll_form) (render_form-grants executes _ s)
      ]

  pub serve_verify_form-grants :
      (target err : String) (s : State W)
      → grants (serve_verify_form lib h target err s).1.cookies ≡ grants s.cookies
  unfolding serve_verify_form
  serve_verify_form-grants target err s = elim (Template-cases h.admin_mfa_verify_tmpl) [
    | inl absent ↦ rw (absent, serve_verify_form) refl
    | inr (executes, there) ↦ rw (there, serve_verify_form) (render_form-grants executes _ s)
  ]

  -- What the end of both handlers does: it leaves the cookies as they are, or it sets the MFA cookie
  -- with a token that is minted for the email, and redirects.
  pub data Granted (email target : String) (s t : State W) (f : Flow Reply) : Type 0 where
    quiet : grants t.cookies ≡ grants s.cookies → Granted email target s t f
    granted :
        (token : String)
        → mint_admin_mfa_token lib h email (lib.now s.world) ≡ some token
        → t ≡ record s { cookies = s.cookies ++ admin_mfa_cookie token ∷ [] }
        → f ≡ go (redirect target)
        → Granted email target s t f

  pub grant_mfa-Granted :
      (email target : String) (s t : State W) (f : Flow Reply)
      → grant_mfa lib h email target s ≡ (f, t)
      → Granted email target s t f
  unfolding grant_mfa
  grant_mfa-Granted email target s t f e =
      elim (Option-cases (mint_admin_mfa_token lib h email (lib.now s.world))) [
        | inl failed ↦ quiet (ground arith)
        | inr (token, minted) ↦ granted token minted (ground arith) (ground arith)
      ]

  -- What has let a request through enrollment.
  pub record Enrolled (r : Request) (s t : State W) (f : Flow Reply) : Type 0 where
    pub users : AdminUserStore W
    pub store : h.user_store ≡ some users
    pub posted : r.method ≡ "POST"
    pub identified : r.context_email ≢ ""
    pub unforged : check_admin_mfa_csrf r ≡ true
    pub matches : lib.verify_totp_code (r.form "secret") (r.form "code") (lib.now s.world) ≡ true
    pub saved : users.set_totp_secret r.context_email (r.form "secret") s.world ≡ (none, t.world)
    pub token : String
    pub minted : mint_admin_mfa_token lib h r.context_email (lib.now t.world) ≡ some token
    pub cookies : t.cookies ≡ s.cookies ++ admin_mfa_cookie token ∷ []
    pub replied : f ≡ go (redirect (form_redirect r))

  persist_secret-Enrolled :
      (r : Request) (s t : State W) (f : Flow Reply)
      → r.method ≡ "POST"
      → r.context_email ≢ ""
      → check_admin_mfa_csrf r ≡ true
      → lib.verify_totp_code (r.form "secret") (r.form "code") (lib.now s.world) ≡ true
      → persist_secret lib h r r.context_email s ≡ (f, t)
      → (grants t.cookies ≡ grants s.cookies) ⊎ Enrolled r s t f
  unfolding persist_secret ◌>>=◌ after_persist
  persist_secret-Enrolled r s t f posted named unforged matches e =
      elim (Option-cases h.user_store) [
        | inl absent ↦ inl (ground arith)
        | inr (users, store) ↦
            let saved = users.set_totp_secret r.context_email (r.form "secret") s.world in
            elim (Option-cases saved.0) [
              | inr (err, failed) ↦ inl (
                  ground (
                    arith,
                    serve_enroll_form-grants r.context_email (r.form "secret") (form_redirect r)
                        ("Could not save enrollment: " <> err) (record s { world = saved.1 }),
                  ))
              | inl fine ↦
                  elim (grant_mfa-Granted r.context_email (form_redirect r)
                    (record s { world = saved.1 }) t f (ground arith)) [
                      | quiet same ↦ inl same
                      | granted token minted at replied ↦ inr (record {
                        users = users;
                        store = store;
                        posted = posted;
                        identified = named;
                        unforged = unforged;
                        matches = matches;
                        saved = ground arith;
                        token = token;
                        minted = ground arith;
                        cookies = ground arith;
                        replied = replied;
                      })
                    ]
            ]
      ]

  enroll_post-Enrolled :
      (r : Request) (s t : State W) (f : Flow Reply)
      → r.method ≡ "POST"
      → r.context_email ≢ ""
      → enroll_post lib h r r.context_email s ≡ (f, t)
      → (grants t.cookies ≡ grants s.cookies) ⊎ Enrolled r s t f
  unfolding enroll_post ◌>>=◌
  enroll_post-Enrolled r s t f posted named e = elim (Bool-cases (check_admin_mfa_csrf r)) [
    | inr forged ↦ inl (
        ground (
          arith,
          serve_enroll_form-grants r.context_email (r.form "secret") (form_redirect r) bad_csrf s,
        ))
    | inl unforged ↦
        elim (Bool-cases
          (lib.verify_totp_code (r.form "secret") (r.form "code") (lib.now s.world))) [
            | inr wrong ↦ inl (
                ground (
                  arith,
                  serve_enroll_form-grants r.context_email (r.form "secret") (form_redirect r)
                      bad_code s,
                ))
            | inl right ↦ persist_secret-Enrolled r s t f posted named unforged right (ground arith)
          ]
  ]

  -- The form of a GET, with a fresh secret.
  enroll_get-grants :
      (r : Request) (s t : State W) (f : Flow Reply)
      → r.context_email ≢ ""
      → r.method ≢ "POST"
      → handle_admin_mfa_enroll lib h r s ≡ (f, t)
      → grants t.cookies ≡ grants s.cookies
  unfolding handle_admin_mfa_enroll ◌>>=◌
  enroll_get-grants r s t f named other e =
      elim (Option-cases (lib.generate_totp_secret s.world).0) [
        | inl failed ↦ ground (arith, eq_iff r.context_email "", eq_iff r.method "POST")
        | inr (secret, drawn) ↦ ground (
          arith,
          eq_iff r.context_email "",
          eq_iff r.method "POST",
          serve_enroll_form-grants r.context_email secret
              (safe_redirect (r.query "redirect") "/admin/ops") ""
              (record s { world = (lib.generate_totp_secret s.world).1 }),
        )
      ]

  -- HandleAdminMFAEnroll leaves it as it is whether an MFA cookie is set, but in one case: a POST
  -- with an email in its context and a CSRF token that its cookie has too, whose code is right for
  -- the secret of its form at the time of the request, and whose secret the user store took for
  -- that email. The cookie is then minted for the email, and the response redirects to a path on
  -- the server.
  pub handle_admin_mfa_enroll-Enrolled :
      (r : Request) (s t : State W) (f : Flow Reply)
      → handle_admin_mfa_enroll lib h r s ≡ (f, t)
      → (grants t.cookies ≡ grants s.cookies)
        ⊎ Enrolled r s t f × (is_relative (form_redirect r) ≡ true)
  unfolding handle_admin_mfa_enroll ◌>>=◌
  handle_admin_mfa_enroll-Enrolled r s t f e = elim (Bool-cases (r.context_email == "")) [
    | inl nobody ↦ inl (ground arith)
    | inr somebody ↦
        let named : r.context_email ≢ "" = ground (arith, eq_iff r.context_email "") in
        elim (Bool-cases (r.method == "POST")) [
          | inr other ↦
              inl (enroll_get-grants r s t f named (ground (arith, eq_iff r.method "POST")) e)
          | inl posted ↦
              elim (enroll_post-Enrolled r s t f ((eq_iff r.method "POST").0 posted) named
                (ground arith)) [
                  | inl same ↦ inl same
                  | inr enrolled ↦
                      inr
                        (enrolled, safe_redirect-is_relative (r.form "redirect") "/admin/ops" refl)
                ]
        ]
  ]
