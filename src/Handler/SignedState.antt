-- ===== src/Handler/SignedState.antt =====
-- The OAuth state that handlers_oauth.go signs, and that it and handlers_callback.go recover.
use kite_mcp_oauth.Prelude.{String, ◌≡◌, ◌≢◌, some, arith, eq_iff, Option-cases, inl, inr}
use kite_mcp_oauth.Services.{OauthState, Library}
use kite_mcp_oauth.Handler.{Handler, State, go, ◌>>=◌}
use kite_mcp_oauth.Handler.Authorize.{signed_state}
use kite_mcp_oauth.Handler.Callback.{recover_callback_state}
use kite_mcp_oauth.Handler.EmailLookup.{recover_oauth_state}

-- The documented behaviour of the signer and the encodings: what is signed is not empty and verifies
-- to what it was made from, as long as `fresh` says that it has not expired; base64 and JSON decode
-- what they encode.
pub record StateLaws {W : Type 0} (lib : Library W) (h : Handler W) (fresh : W → W → Type 0)
    : Type 0 where
  pub signed : (w : W) (text : String) → h.signer.sign w text ≢ ""
  pub verifies :
      (w later : W) (text : String)
      → fresh w later
      → h.signer.verify later (h.signer.sign w text) ≡ some text
  pub decodes : (text : String) → lib.url_decode (lib.url_encode text) ≡ some text
  pub unmarshals :
      (st : OauthState) (text : String)
      → lib.marshal_state st ≡ some text
      → lib.unmarshal_state text ≡ some st

module _ {W : Type 0} (lib : Library W) (h : Handler W) (fresh : W → W → Type 0)
    (laws : StateLaws lib h fresh) where
  -- With a signer and encodings as documented (`StateLaws`), the state that is sent along through
  -- Kite or in the form of the email prompt comes back as it was: as long as its signature is
  -- fresh, both the callback and the email lookup recover from it the client, redirect URI,
  -- challenge, state and registry key that were signed.
  pub recover_callback_state-signed_state :
      (st : OauthState) (s t later : State W) (signed : String)
      → signed_state lib h st s ≡ (go signed, t)
      → fresh s.world later.world
      → (recover_callback_state lib h signed later ≡ (go st, later))
        × (recover_oauth_state lib h signed later ≡ some st)
  unfolding signed_state recover_callback_state recover_oauth_state ◌>>=◌
  recover_callback_state-signed_state st s t later signed e f =
      elim (Option-cases (lib.marshal_state st)) [
        | inl failed ↦ absurd (ground arith)
        | inr (text, marshalled) ↦
            let token = h.signer.sign s.world (lib.url_encode text) in
            (
              ground (
                arith,
                eq_iff token "",
                laws.signed s.world (lib.url_encode text),
                laws.verifies s.world later.world (lib.url_encode text) f,
                laws.decodes text,
                laws.unmarshals st text marshalled,
              ),
              ground (
                arith,
                eq_iff token "",
                laws.signed s.world (lib.url_encode text),
                laws.verifies s.world later.world (lib.url_encode text) f,
                laws.decodes text,
                laws.unmarshals st text marshalled,
              ),
            )
      ]
