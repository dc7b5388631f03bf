-- ===== src/Handler/Google/Laws.antt =====
-- Whom the callback of Google in google_sso.go signs in.
use kite_mcp_oauth.Prelude.{
  ℕ, String, ◌≡◌, ◌≢◌, refl, Bool, true, Option, none, some, [], ◌∷◌, ◌++◌, arith, eq_iff, ◌==◌,
  ◌<>◌, Option-cases, Bool-cases, inl, inr, is_relative, split_once,
}
use kite_mcp_oauth.Http.{Request}
use kite_mcp_oauth.Services.{AdminUserStore, RegistryEntry, GoogleSsoConfig, Library}
use kite_mcp_oauth.Handler.{Handler, State, go, ◌>>=◌}
use kite_mcp_oauth.Handler.Google.{
  user_info_url, cleared_state_cookie, verified_email, state_cookie_value, google_target,
  check_state, normalized, google_email, set_admin, link_to, oauth_config, or_default, or_google,
  fetch_google_user_info,
}

pub google_target-is_relative :
    (role target : String) → is_relative (google_target role target) ≡ true
unfolding google_target
google_target-is_relative role target = elim (Bool-cases (is_relative target)) [
  | inl good ↦ rw (good, google_target) good
  | inr bad ↦ elim (Bool-cases (role == "admin")) [
    | inl admin ↦ rw (bad, google_target) (rw (admin, google_target) refl)
    | inr other ↦ rw (bad, google_target) (rw (other, google_target) refl)
  ]
]

module _ {W : Type 0} (lib : Library W) (h : Handler W) where
  -- The state cookie and the request agree, and the cookie is cleared.
  pub record StateMatches (r : Request) (s t : State W) (target : String) : Type 0 where
    pub value : String
    pub state : String
    pub cookie : state_cookie_value r ≡ some value
    pub parts : split_once value "|" ≡ some (state, target)
    pub same_state : r.query "state" ≡ state
    pub code_given : r.query "code" ≢ ""
    pub cleared : t ≡ record s { cookies = s.cookies ++ cleared_state_cookie ∷ [] }

  pub check_state-eq-go :
      (r : Request) (s t : State W) (target : String)
      → check_state lib h r s ≡ (go target, t)
      → StateMatches r s t target
  unfolding check_state ◌>>=◌
  check_state-eq-go r s t target e = elim (Option-cases (state_cookie_value r)) [
    | inl absent ↦ absurd (ground arith)
    | inr (value, cookie) ↦ elim (Option-cases (split_once value "|")) [
      | inl malformed ↦ absurd (ground arith)
      | inr (parts, split) ↦ record {
        value = value;
        state = parts.0;
        cookie = cookie;
        parts = ground (arith, eq_iff (r.query "state") parts.0);
        same_state = ground (arith, eq_iff (r.query "state") parts.0);
        code_given = ground (arith, eq_iff (r.query "code") "");
        cleared = ground arith;
      }
    ]
  ]

  -- Google has verified the email for the code.
  pub record GoogleVerifies (sso : GoogleSsoConfig) (r : Request) (s t : State W) (email : String)
      : Type 0 where
    pub token : String
    pub between : W
    pub response : Option (ℕ × String)
    pub google_name : String
    pub exchanged :
        lib.oauth_exchange h.http_client (oauth_config lib sso) (r.query "code") s.world
        ≡ (some token, between)
    -- the answer to a request that is authorized by the token
    pub asked :
        (or_default lib h.http_client).get_authorized
          (or_google lib (user_info_url sso))
          ("Bearer " <> token)
          between
        ≡ (response, t.world)
    pub verified : verified_email lib response ≡ some google_name
    pub same : email ≡ normalized lib h google_name
    pub named : email ≢ ""
    pub outside_only : t ≡ record s { world = t.world }

  fetch_google_user_info-eq-some :
      (token url name : String) (w after : W)
      → fetch_google_user_info lib token h.http_client url w ≡ (some name, after)
      → let asked =
          (or_default lib h.http_client).get_authorized
            (or_google lib url)
            ("Bearer " <> token)
            w in
        (asked.1 ≡ after) × (verified_email lib asked.0 ≡ some name)
  unfolding fetch_google_user_info
  fetch_google_user_info-eq-some token url name w after e = ground arith

  pub google_email-eq-go :
      (sso : GoogleSsoConfig) (r : Request) (s t : State W) (email : String)
      → google_email lib h sso r s ≡ (go email, t)
      → GoogleVerifies sso r s t email
  unfolding google_email ◌>>=◌
  google_email-eq-go sso r s t email e =
      let exchanged =
        lib.oauth_exchange h.http_client (oauth_config lib sso) (r.query "code") s.world in
      elim (Option-cases exchanged.0) [
        | inl refused ↦ absurd (ground arith)
        | inr (token, given) ↦
            let fetched =
              fetch_google_user_info lib token h.http_client (user_info_url sso) exchanged.1 in
            elim (Option-cases fetched.0) [
              | inl unverified ↦ absurd (ground arith)
              | inr (name, found) ↦
                  let asked =
                    (or_default lib h.http_client).get_authorized
                      (or_google lib (user_info_url sso)) ("Bearer " <> token) exchanged.1 in
                  let (after, verified) =
                    fetch_google_user_info-eq-some token (user_info_url sso) name exchanged.1
                      fetched.1 (ground arith) in
                  record {
                    token = token;
                    between = exchanged.1;
                    response = asked.0;
                    google_name = name;
                    exchanged = ground arith;
                    asked = ground arith;
                    verified = verified;
                    same = ground arith;
                    named = ground (arith, eq_iff (normalized lib h name) "");
                    outside_only = ground arith;
                  }
            ]
      ]

  pub link_to-goes :
      (users : AdminUserStore W) (email : String) (app : Option RegistryEntry) (s : State W)
      → (b : Bool) × (w : W) × (link_to lib h users email app s ≡ (go b, record s { world = w }))
  unfolding link_to set_admin ◌>>=◌
  link_to-goes users email none s = (true, s.world, refl)
  link_to-goes users email (some entry) s = elim (Bool-cases (entry.registered_by == "")) [
    | inl nobody ↦ (true, s.world, ground arith)
    | inr somebody ↦ elim (Option-cases users.set_admin_email) [
      | inl absent ↦ (true, s.world, rw (somebody, link_to) (rw (absent, link_to) refl))
      | inr (set, there) ↦
          let set_now = set email entry.registered_by s.world in
          (set_now.0, set_now.1, rw (somebody, link_to) (rw (there, link_to) refl))
    ]
  ]
