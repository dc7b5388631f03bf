-- ===== src/Handler/Browser/Target.antt =====
-- The email and the path that a browser login of handlers_browser.go signs for Kite to send along, and
-- what the callback makes of them.
use kite_mcp_oauth.Prelude.{
  String, ◌≡◌, ◌≢◌, refl, ap, ◌∙◌, true, none, some, arith, eq_iff, ◌<>◌, split_once,
  split_once-append, is_relative, subst,
}
use kite_mcp_oauth.Http.{Request, Reply, redirect}
use kite_mcp_oauth.Services.{Library}
use kite_mcp_oauth.Handler.{Handler, State, go}
use kite_mcp_oauth.Handler.Browser.Laws.{
  Exchanged, stored, global, handle_browser_auth_callback-eq-go,
}
use kite_mcp_oauth.Handler.Browser.{
  local_target, signed_target, read_target, handle_browser_auth_callback,
}

-- The documented behaviour of the signer and of base64: what is signed is not empty and verifies to
-- what it was made from, as long as `fresh` says that it has not expired; base64 decodes what it
-- encodes.
pub record TargetLaws {W : Type 0} (lib : Library W) (h : Handler W) (fresh : W → W → Type 0)
    : Type 0 where
  pub signed : (w : W) (text : String) → h.signer.sign w text ≢ ""
  pub verifies :
      (w later : W) (text : String)
      → fresh w later
      → h.signer.verify later (h.signer.sign w text) ≡ some text
  pub decodes : (text : String) → lib.raw_url_decode (lib.raw_url_encode_text text) ≡ some text

module _ {W : Type 0} (lib : Library W) (h : Handler W) (fresh : W → W → Type 0)
    (laws : TargetLaws lib h fresh) where
  -- With a signer and base64 as documented (`TargetLaws`), the email and the path that a login signs
  -- are what the callback reads, as long as the signature is fresh and the email with a colon behind
  -- it has no two colons next to each other, whatever the path is.
  pub read_target-signed_target :
      (email target : String) (s later : State W)
      → split_once (email <> ":") "::" ≡ none
      → fresh s.world later.world
      → read_target lib h (signed_target lib h email target s) later ≡ (email, target)
  unfolding read_target
  read_target-signed_target email target s later plain f =
      let raw = lib.raw_url_encode_text (email <> ("::" <> target)) in
      ground (
        arith,
        eq_iff (signed_target lib h email target s) "",
        laws.signed s.world raw,
        laws.verifies s.world later.world raw f,
        laws.decodes (email <> ("::" <> target)),
        split_once-append email target plain,
      )

  stored_credentials :
      (request_token email got : String) (s : State W) (w : W)
      → email ≢ ""
      → Exchanged lib h request_token email got s w
      → (credentials : String × String) × (h.exchanger.get_credentials s.world email
          ≡ some credentials)
        × (h.exchanger.exchange_with_credentials request_token credentials.0 credentials.1 s.world
            ≡ (some got, w))
  stored_credentials request_token email got s w named (stored credentials _ known given) =
      (credentials, known, given)
  stored_credentials request_token email got s w named (global none_there _) =
      absurd (named none_there)

  -- With a signer and base64 as documented (`TargetLaws`), a browser comes back from Kite to where
  -- its login was to lead: if the callback has the email and the path that the login signed, the
  -- signature is fresh, the email is not empty and with a colon behind it has no two colons next to
  -- each other, and the path is one on the server, then a callback that succeeds has exchanged its
  -- request token with the credentials that are stored for that email, and redirects to that path.
  pub returns_to_target :
      (email target request_token : String) (r : Request) (s later t : State W) (reply : Reply)
      → split_once (email <> ":") "::" ≡ none
      → email ≢ ""
      → is_relative target ≡ true
      → fresh s.world later.world
      → r.query "target" ≡ signed_target lib h email target s
      → handle_browser_auth_callback lib h r request_token later ≡ (go reply, t)
      → (credentials : String × String) × (got : String) × (h.exchanger.get_credentials later.world
            email
          ≡ some credentials)
        × (h.exchanger.exchange_with_credentials request_token credentials.0 credentials.1
              later.world
            ≡ (some got, t.world))
        × (reply ≡ redirect target)
  returns_to_target email target request_token r s later t reply plain named local f sent e =
      let signed_in = handle_browser_auth_callback-eq-go lib h r request_token later t reply e in
      let read : read_target lib h (r.query "target") later ≡ (email, target) =
        ap (λ (q : String). read_target lib h q later) sent
        ∙ read_target-signed_target email target s later plain f in
      let (credentials, known, given) =
        stored_credentials request_token email signed_in.email later t.world named (
          subst
            (λ (p : String × String).
              Exchanged lib h request_token p.0 signed_in.email later t.world)
            read signed_in.exchanged) in
      (
        credentials,
        signed_in.email,
        known,
        given,
        signed_in.replied
            ∙ ap (λ (p : String × String). redirect (local_target lib h p.1)) read
            ∙ ap redirect (rw local refl),
      )
