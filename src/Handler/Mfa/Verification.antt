-- ===== src/Handler/Mfa/Verification.antt =====
-- `HandleAdminMFAVerify` of handlers_admin_mfa.go.
use kite_mcp_oauth.Prelude.{
  String, ◌≡◌, ◌≢◌, refl, Bool, true, false, ◌⊎◌, inl, inr, Option, none, some, [], ◌∷◌, ◌++◌,
  arith, eq_iff, ◌==◌, Option-cases, Bool-cases, is_relative,
}
use kite_mcp_oauth.Http.{Request, Reply, redirect}
use kite_mcp_oauth.Services.{AdminUserStore, Library}
use kite_mcp_oauth.Handler.{Handler, State, Flow, go, ◌>>=◌}
use kite_mcp_oauth.Middleware.{mint_admin_mfa_token, is_enrolled}
use kite_mcp_oauth.Handler.Mfa.{
  bad_csrf, bad_code, safe_redirect, admin_mfa_cookie, check_admin_mfa_csrf, form_redirect,
  after_verify, verify_post, verify_enrolled, handle_admin_mfa_verify,
}
use kite_mcp_oauth.Handler.Mfa.Laws.{
  grants, safe_redirect-is_relative, serve_verify_form-grants, quiet, granted, grant_mfa-Granted,
}

module _ {W : Type 0} (lib : Library W) (h : Handler W) where
  -- What has let a request through verification.
  pub record Verified (r : Request) (s t : State W) (f : Flow Reply) : Type 0 where
    pub users : AdminUserStore W
    pub store : h.user_store ≡ some users
    pub enrolled : users.has_totp s.world r.context_email ≡ true
    pub posted : r.method ≡ "POST"
    pub identified : r.context_email ≢ ""
    pub unforged : check_admin_mfa_csrf r ≡ true
    pub verified : users.verify_totp s.world r.context_email (r.form "code") ≡ some true
    pub token : String
    pub minted : mint_admin_mfa_token lib h r.context_email (lib.now s.world) ≡ some token
    pub after : t ≡ record s { cookies = s.cookies ++ admin_mfa_cookie token ∷ [] }
    pub replied : f ≡ go (redirect (form_redirect r))

  Bool_option-cases : (o : Option Bool) → (o ≡ some true) ⊎ ((o ≡ none) ⊎ (o ≡ some false))
  Bool_option-cases none = inr (inl refl)
  Bool_option-cases (some true) = inl refl
  Bool_option-cases (some false) = inr (inr refl)

  verify_post-Verified :
      (users : AdminUserStore W) (r : Request) (s t : State W) (f : Flow Reply)
      → h.user_store ≡ some users
      → users.has_totp s.world r.context_email ≡ true
      → r.method ≡ "POST"
      → r.context_email ≢ ""
      → verify_post lib h users r r.context_email s ≡ (f, t)
      → (grants t.cookies ≡ grants s.cookies) ⊎ Verified r s t f
  unfolding verify_post ◌>>=◌ after_verify
  verify_post-Verified users r s t f store enrolled posted named e =
      elim (Bool-cases (check_admin_mfa_csrf r)) [
        | inr forged ↦
            inl (ground (arith, serve_verify_form-grants lib h (form_redirect r) bad_csrf s))
        | inl unforged ↦
            elim (Bool_option-cases (users.verify_totp s.world r.context_email (r.form "code"))) [
              | inr (inl failed) ↦ inl (
                  ground (
                    arith,
                    serve_verify_form-grants lib h (form_redirect r)
                        "Verification temporarily unavailable. Try again." s,
                  ))
              | inr (inr wrong) ↦
                  inl (ground (arith, serve_verify_form-grants lib h (form_redirect r) bad_code s))
              | inl right ↦
                  elim (grant_mfa-Granted lib h r.context_email (form_redirect r) s t f
                    (ground arith)) [
                      | quiet same ↦ inl same
                      | granted token minted after replied ↦ inr (record {
                        users = users;
                        store = store;
                        enrolled = enrolled;
                        posted = posted;
                        identified = named;
                        unforged = unforged;
                        verified = right;
                        token = token;
                        minted = minted;
                        after = after;
                        replied = replied;
                      })
                    ]
            ]
      ]

  verify_enrolled-Verified :
      (r : Request) (s t : State W) (f : Flow Reply)
      → is_enrolled lib h r.context_email s ≡ true
      → r.context_email ≢ ""
      → verify_enrolled lib h r s ≡ (f, t)
      → (grants t.cookies ≡ grants s.cookies) ⊎ Verified r s t f
  unfolding verify_enrolled is_enrolled
  verify_enrolled-Verified r s t f enrolled named e = elim (Option-cases h.user_store) [
    | inl absent ↦ absurd (ground arith)
    | inr (users, store) ↦ elim (Bool-cases (r.method == "POST")) [
      | inr other ↦ inl (
          ground (
            arith,
            serve_verify_form-grants lib h (safe_redirect (r.query "redirect") "/admin/ops") "" s,
          ))
      | inl posted ↦
          verify_post-Verified users r s t f store (ground arith)
            ((eq_iff r.method "POST").0 posted) named (ground arith)
    ]
  ]

  -- HandleAdminMFAVerify leaves it as it is whether an MFA cookie is set, but in one case: a POST
  -- with an email in its context that is enrolled, and a CSRF token that its cookie has too, whose
  -- code the user store verifies for that email. The cookie is then minted for the email, nothing
  -- else changes, and the response redirects to a path on the server.
  pub handle_admin_mfa_verify-Verified :
      (r : Request) (s t : State W) (f : Flow Reply)
      → handle_admin_mfa_verify lib h r s ≡ (f, t)
      → (grants t.cookies ≡ grants s.cookies)
        ⊎ Verified r s t f × (is_relative (form_redirect r) ≡ true)
  unfolding handle_admin_mfa_verify ◌>>=◌
  handle_admin_mfa_verify-Verified r s t f e = elim (Bool-cases (r.context_email == "")) [
    | inl nobody ↦ inl (ground arith)
    | inr somebody ↦ elim (Bool-cases (is_enrolled lib h r.context_email s)) [
      | inr not_enrolled ↦ inl (ground arith)
      | inl enrolled ↦
          elim (verify_enrolled-Verified r s t f enrolled
            (ground (arith, eq_iff r.context_email "")) (ground arith)) [
              | inl same ↦ inl same
              | inr verified ↦
                  inr (verified, safe_redirect-is_relative (r.form "redirect") "/admin/ops" refl)
            ]
    ]
  ]
