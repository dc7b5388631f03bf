-- ===== src/Handler/Setup.antt =====
-- How handlers.go puts a handler together: `NewHandler`, the setters, `LoadClientsFromDB` with
-- `LoadFromDB` of stores.go, and `Close`.
pub mod Restart
use kite_mcp_oauth.Prelude.{String, Bool, true, false, Option, none, some, List, [], ◌∷◌}
use kite_mcp_oauth.Config.{Config}
use kite_mcp_oauth.AuthCodes.{new_auth_code_store, close}
use kite_mcp_oauth.Clients.{ClientLoadEntry, new_client_store, load_from_db}
use kite_mcp_oauth.Jwt.{new_jwt_manager}
use kite_mcp_oauth.Services.{
  AdminUserStore, ClientPersister, GoogleSsoConfig, HttpClient, KeyRegistry, KiteExchanger, Library,
  Signer,
}
use kite_mcp_oauth.Handler.{
  Handler, State, Template, Handling, pure, outside, with_clients, ◌>>=◌, ◌>>◌,
}

-- `template.ParseFS` of the embedded files, which are not in this repository. With an error it gives
-- a nil template, which is `missing`; the error is only logged.
abbrev pub ParseFs : Type 0
ParseFs = List String → Template

module _ {W : Type 0} where
  unfoldable pub new_handler : ParseFs → Config → Signer W → KiteExchanger W → Handler W
  unfolding new_jwt_manager
  new_handler parse_fs cfg signer exchanger = record {
    config = cfg;
    jwt = new_jwt_manager cfg.jwt_secret cfg.token_expiry;
    signer = signer;
    exchanger = exchanger;
    kite_token_checker = none;
    consent_recorder = none;
    user_store = none;
    registry = none;
    persister = none;
    google_sso = none;
    http_client = none;
    login_success_tmpl = parse_fs ("base.html" ∷ "login_success.html" ∷ []);
    email_prompt_tmpl = parse_fs ("base.html" ∷ "email_prompt.html" ∷ []);
    browser_login_tmpl = parse_fs ("base.html" ∷ "browser_login.html" ∷ []);
    login_choice_tmpl = parse_fs ("base.html" ∷ "login_choice.html" ∷ []);
    admin_login_tmpl = parse_fs ("base.html" ∷ "admin_login.html" ∷ []);
    admin_mfa_enroll_tmpl = parse_fs ("base.html" ∷ "admin_mfa_enroll.html" ∷ []);
    admin_mfa_verify_tmpl = parse_fs ("base.html" ∷ "admin_mfa_verify.html" ∷ []);
  }

  -- The stores of a new handler.
  unfoldable pub new_state : W → State W
  unfolding new_auth_code_store new_client_store
  new_state w = record {
    auth_codes = new_auth_code_store;
    clients = new_client_store;
    cookies = [];
    world = w;
  }

  -- The setters; a nil argument is `none`.
  unfoldable pub set_client_persister : Option (ClientPersister W) → Handler W → Handler W
  set_client_persister p h = record h { persister = p }

  unfoldable pub set_kite_token_checker : Option (W → String → Bool) → Handler W → Handler W
  set_kite_token_checker checker h = record h { kite_token_checker = checker }

  unfoldable pub set_consent_recorder :
      Option (String → String → String → W → W) → Handler W → Handler W
  set_consent_recorder rec h = record h { consent_recorder = rec }

  unfoldable pub set_registry : Option (KeyRegistry W) → Handler W → Handler W
  set_registry r h = record h { registry = r }

  unfoldable pub set_user_store : Option (AdminUserStore W) → Handler W → Handler W
  set_user_store store h = record h { user_store = store }

  unfoldable pub set_google_sso : Option GoogleSsoConfig → Handler W → Handler W
  set_google_sso cfg h = record h { google_sso = cfg }

  unfoldable pub set_http_client : Option (HttpClient W) → Handler W → Handler W
  set_http_client c h = record h { http_client = c }

  -- `Close` of the handler; `none` is a panic.
  unfoldable pub close_handler : State W → Option (State W)
  unfolding close
  close_handler s = elim (close s.auth_codes) [
    | none ↦ none
    | some codes ↦ some (record s { auth_codes = codes })
  ]

module _ {W : Type 0} (lib : Library W) where
  -- The rows that `LoadClients` gave, unless it failed: `false` is its error.
  put_rows : Option (List ClientLoadEntry) → Handling W Bool
  unfolding ◌>>=◌
  put_rows none = pure false
  put_rows (some entries) = with_clients (λ s. (true, load_from_db lib.unmarshal_uris entries s))

  load_rows : Option (ClientPersister W) → Handling W Bool
  unfolding ◌>>=◌ put_rows
  load_rows none = pure true
  load_rows (some p) = do entries ← outside p.load_clients; put_rows entries

  -- `LoadClientsFromDB`
  unfoldable pub load_clients_from_db : Handler W → Handling W Bool
  unfolding load_rows
  load_clients_from_db h = load_rows h.persister
