-- ===== src/Examples/States.antt =====
-- A signer and an encoding of the OAuth state that can be undone, and a state that makes the round
-- trip of handlers_oauth.go and handlers_callback.go.
use kite_mcp_oauth.Prelude.{◌*◌, String, ◌≡◌, refl, ap, sym, ◌∙◌, some}
use kite_mcp_oauth.Time.{second}
use kite_mcp_oauth.Services.{OauthState, Signer, Library}
use kite_mcp_oauth.Handler.{Handler, go}
use kite_mcp_oauth.Handler.Authorize.{signed_state}
use kite_mcp_oauth.Handler.Callback.{recover_callback_state}
use kite_mcp_oauth.Handler.EmailLookup.{recover_oauth_state}
use kite_mcp_oauth.Handler.SignedState.{StateLaws, recover_callback_state-signed_state}
use kite_mcp_oauth.Examples.Writing.{write_text, read_text, read_text-write_text, write_text-ne-nil}
use kite_mcp_oauth.Examples.World.{World, small_library, small_handler, small_state, client_state}

abbrev pub written_state : OauthState → String
written_state st = write_text st.client_id (
    write_text st.redirect_uri
      (write_text st.code_challenge (write_text st.state (write_text st.registry_key ""))))

unfoldable pub read_state : String → OauthState
read_state t =
    let (client_id, t1) = read_text t in
    let (redirect_uri, t2) = read_text t1 in
    let (code_challenge, t3) = read_text t2 in
    let (state, t4) = read_text t3 in
    record {
      client_id = client_id;
      redirect_uri = redirect_uri;
      code_challenge = code_challenge;
      state = state;
      registry_key = (read_text t4).0;
    }

read_state-written_state : (st : OauthState) → read_state (written_state st) ≡ st
unfolding read_state
read_state-written_state st = simp read_text-write_text

unfoldable pub state_library : Library World
unfolding read_state
state_library = record small_library {
  marshal_state = λ st. some (written_state st);
  unmarshal_state = λ t. some (read_state t);
}

abbrev pub marking : Signer World
marking = record { sign = λ w t. write_text t ""; verify = λ w t. some (read_text t).0 }

abbrev pub state_handler : Handler World
state_handler = record small_handler { signer = marking }

pub state_library-StateLaws : StateLaws state_library state_handler (λ w later. Unit {0})
unfolding small_library state_library
state_library-StateLaws = record {
  signed = λ w t. write_text-ne-nil t "";
  verifies = λ w later t f. ap (λ (p : String × String). some p.0) (read_text-write_text t "");
  decodes = λ t. refl;
  unmarshals = λ st t e. written_once st t e;
}
  where
    written_once :
        (st : OauthState) (t : String)
        → some (written_state st) ≡ some t
        → some (read_state t) ≡ some st
    written_once st t e =
        let same : written_state st ≡ t = cc e in
        ap some (ap read_state (sym same) ∙ read_state-written_state st)

abbrev pub signed : String
signed = write_text (written_state client_state) ""

pub state_signed :
    signed_state state_library state_handler client_state (small_state (5 * second))
    ≡ (go signed, small_state (5 * second))
unfolding signed_state small_library state_library
state_signed = refl

recover_callback_state-signed_state_example :
    (recover_callback_state state_library state_handler signed (small_state (60 * second))
      ≡ (go client_state, small_state (60 * second)))
    × (recover_oauth_state state_library state_handler signed (small_state (60 * second))
        ≡ some client_state)
recover_callback_state-signed_state_example =
    recover_callback_state-signed_state state_library state_handler (λ w later. Unit {0})
      state_library-StateLaws client_state (small_state (5 * second)) (small_state (5 * second))
      (small_state (60 * second)) signed state_signed tt
