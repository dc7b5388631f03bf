-- ===== src/Handler/EmailLookup/Laws.antt =====
-- Whom `HandleEmailLookup` of handlers_oauth.go sends to Kite, and with what.
use Prim.Native.String.{len}
use kite_mcp_oauth.Prelude.{
  ◌≤◌, String, ◌≡◌, ap, true, some, arith, eq_iff, Option-cases, Bool-cases, inl, inr, ◌==◌, ◌<>◌,
}
use kite_mcp_oauth.Http.{Request, Reply, redirect}
use kite_mcp_oauth.Services.{OauthState, RegistryEntry, Library}
use kite_mcp_oauth.Handler.{Handler, State, go, Template-cases, ◌>>=◌}
use kite_mcp_oauth.Handler.Replies.{generate_csrf_token}
use kite_mcp_oauth.Handler.Authorize.{
  signed_state, kite_login_url, redirect_to_kite_login, serve_email_prompt, render_email_prompt,
}
use kite_mcp_oauth.Handler.EmailLookup.{
  has_csrf, recover_oauth_state, retry_form, find_app, login_with, login_or_retry, look_up,
  handle_email_lookup,
}

abbrev target_of : Reply → String
target_of (redirect url) = url
target_of _ = ""

module _ {W : Type 0} (lib : Library W) (h : Handler W) where
  redirect_to_kite_login-eq-go :
      (api_key : String) (st : OauthState) (s t : State W) (reply : Reply)
      → redirect_to_kite_login lib h api_key st s ≡ (go reply, t)
      → (signed : String) × (signed_state lib h st s ≡ (go signed, s))
        × (reply
            ≡ redirect
                (kite_login_url lib h api_key ("flow=oauth&data=" <> lib.query_escape signed)))
        × (t ≡ s)
  unfolding redirect_to_kite_login signed_state ◌>>=◌
  redirect_to_kite_login-eq-go api_key st s t reply e = elim (Option-cases (lib.marshal_state st)) [
    | inl failed ↦ absurd (ground arith)
    | inr (state_json, marshalled) ↦ (
      h.signer.sign s.world (lib.url_encode state_json),
      ground arith,
      ground arith,
      ground arith,
    )
  ]

  serve_email_prompt_no_redirect :
      (st : OauthState) (msg url : String) (s t : State W)
      → ¬ (serve_email_prompt lib h st msg s ≡ (go (redirect url), t))
  unfolding serve_email_prompt render_email_prompt signed_state generate_csrf_token ◌>>=◌
  serve_email_prompt_no_redirect st msg url s t e = elim (Template-cases h.email_prompt_tmpl) [
    | inl absent ↦ ground arith
    | inr (executes, there) ↦ elim (Option-cases (lib.marshal_state st)) [
      | inl failed ↦ ground arith
      | inr (state_json, marshalled) ↦ elim (Option-cases (lib.rand_read 32 s.world).0) [
        | inl no_bytes ↦ ground arith
        | inr (bytes, drawn) ↦ elim (Bool-cases executes) [
          | inl runs ↦ ground arith
          | inr fails ↦ ground arith
        ]
      ]
    ]
  ]

  -- A lookup that was answered with a redirect.
  pub record LookedUp (r : Request) (s t : State W) (url : String) : Type 0 where
    pub entry : RegistryEntry
    pub st : OauthState
    pub signed : String
    pub posted : r.method ≡ "POST"
    pub unforged : has_csrf r ≡ true
    pub recovered : recover_oauth_state lib h (r.form "oauth_state") s ≡ some st
    pub found : find_app lib h (lib.trim_space (r.form "email")) s ≡ some entry
    pub long : 8 ≤ len entry.api_key
    -- the state is what was recovered, with the app's key in it
    pub resigned :
        signed_state lib h (record st { registry_key = entry.api_key }) s ≡ (go signed, s)
    pub target :
        url ≡ kite_login_url lib h entry.api_key ("flow=oauth&data=" <> lib.query_escape signed)
    pub same : t ≡ s

  look_up-cases :
      (r : Request) (st : OauthState) (s t : State W) (url : String)
      → look_up lib h r st s ≡ (go (redirect url), t)
      → (entry : RegistryEntry) × (find_app lib h (lib.trim_space (r.form "email")) s ≡ some entry)
        × (8 ≤ len entry.api_key)
        × (redirect_to_kite_login lib h entry.api_key (record st { registry_key = entry.api_key }) s
            ≡ (go (redirect url), t))
  unfolding look_up ◌>>=◌ login_or_retry login_with
  look_up-cases r st s t url e = elim (Bool-cases (lib.trim_space (r.form "email") == "")) [
    | inl empty ↦ absurd (
        serve_email_prompt_no_redirect st "Please enter your email address." url s t (ground arith))
    | inr given ↦ elim (Option-cases (find_app lib h (lib.trim_space (r.form "email")) s)) [
      | inl missing_app ↦ absurd (
          serve_email_prompt_no_redirect st "No app registered for this email. Contact your admin."
            url s t (ground arith))
      | inr (entry, found) ↦ (entry, found, ground arith, ground arith)
    ]
  ]

  kite_login_target :
      (api_key signed url : String)
      → redirect url
        ≡ redirect (kite_login_url lib h api_key ("flow=oauth&data=" <> lib.query_escape signed))
      → url ≡ kite_login_url lib h api_key ("flow=oauth&data=" <> lib.query_escape signed)
  kite_login_target api_key signed url e = ap target_of e

  look_up-LookedUp :
      (r : Request) (st : OauthState) (s t : State W) (url : String)
      → r.method ≡ "POST"
      → has_csrf r ≡ true
      → recover_oauth_state lib h (r.form "oauth_state") s ≡ some st
      → look_up lib h r st s ≡ (go (redirect url), t)
      → LookedUp r s t url
  look_up-LookedUp r st s t url posted unforged recovered e =
      let (entry, found, long, sent) = look_up-cases r st s t url e in
      let (signed, resigned, target, same) =
        redirect_to_kite_login-eq-go entry.api_key (record st { registry_key = entry.api_key }) s t
          (redirect url) sent in
      record {
        entry = entry;
        st = st;
        signed = signed;
        posted = posted;
        unforged = unforged;
        recovered = recovered;
        found = found;
        long = long;
        resigned = resigned;
        target = kite_login_target entry.api_key signed url target;
        same = same;
      }

  -- A lookup that is answered with a redirect came with a CSRF token that its cookie has too and an
  -- OAuth state that the server signed, for an email that the key registry has an app for. It goes to
  -- Kite's login with the app's key, and with the same state signed again with that key in it, and it
  -- has changed nothing.
  pub handle_email_lookup-eq-go :
      (r : Request) (s t : State W) (url : String)
      → handle_email_lookup lib h r s ≡ (go (redirect url), t)
      → LookedUp r s t url
  unfolding handle_email_lookup ◌>>=◌ retry_form
  handle_email_lookup-eq-go r s t url e = elim (Bool-cases (has_csrf r)) [
    | inr forged ↦ elim (Option-cases (recover_oauth_state lib h (r.form "oauth_state") s)) [
      | inl lost ↦ absurd (ground arith)
      | inr (st, recovered) ↦ absurd (
          serve_email_prompt_no_redirect st "Invalid or expired form. Please try again." url s t
            (ground arith))
    ]
    | inl unforged ↦ elim (Option-cases (recover_oauth_state lib h (r.form "oauth_state") s)) [
      | inl lost ↦ absurd (ground arith)
      | inr (st, recovered) ↦
          look_up-LookedUp r st s t url (ground (arith, eq_iff r.method "POST")) unforged recovered
            (ground arith)
    ]
  ]
