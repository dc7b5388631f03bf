-- ===== src/Examples/World.antt =====
-- A world, a library and a configured handler on which the flows of the handlers are run.
use Prim.Native.String.{len}
use kite_mcp_oauth.Prelude.{ℕ, suc, ◌*◌, String, true, none, some, List, [], ◌∷◌, ◌==◌, ◌<>◌}
use kite_mcp_oauth.Time.{second}
use kite_mcp_oauth.Random.{hex_encode}
use kite_mcp_oauth.AuthCodes.{new_auth_code_store}
use kite_mcp_oauth.Clients.{ClientEntry, ClientLoadEntry, registered}
use kite_mcp_oauth.Jwt.{new_jwt_manager}
use kite_mcp_oauth.Http.{Request, Url, Values}
use kite_mcp_oauth.Services.{OauthState, Signer, KiteExchanger, Library}
use kite_mcp_oauth.Handler.{missing, Handler, State}
use kite_mcp_oauth.Examples.Tokens.{plain_jwt, write_list, read_list}

-- The clock, how many random values were drawn, and the rows that were saved, the newest first.
pub record World : Type 0 where
  pub clock : ℕ
  pub draws : ℕ
  pub saved_rows : List ClientLoadEntry

abbrev pub client_uri : String
client_uri = "https://client.example/cb"

abbrev pub client_url : Url
client_url = record { scheme = "https"; host = "client.example"; path = "/cb"; raw_query = "" }

abbrev pub first_value : Values → String
first_value ((k, v ∷ vs) ∷ rest) = "code=" <> v
first_value _ = ""

-- The state that a client's request for a code leads to.
abbrev pub client_state : OauthState
client_state = record {
  client_id = "mcp-client";
  redirect_uri = client_uri;
  code_challenge = "08";
  state = "xyz";
  registry_key = "";
}

unfoldable pub small_library : Library World
unfolding hex_encode plain_jwt
small_library = record {
  jwt = plain_jwt;
  now = λ w. w.clock;
  rand_read = λ n w. (some (w.draws ∷ []), record w { draws = suc w.draws });
  range_clients = λ w m. m;
  sha256 = λ s. len s ∷ [];
  raw_url_encode = hex_encode;
  url_encode = λ s. s;
  url_decode = λ s. some s;
  marshal_state = λ st. some st.client_id;
  unmarshal_state = λ s. some client_state;
  marshal_uris = write_list;
  unmarshal_uris = read_list;
  parse_url = λ s. some client_url;
  url_query = λ u. [];
  encode_values = first_value;
  url_string = λ u. u.scheme <> ("://" <> (u.host <> (u.path <> ("?" <> u.raw_query))));
  query_escape = λ s. s;
  equal_fold = λ a b. a == b;
  to_lower = λ s. s;
  url_encode_bytes = hex_encode;
  google_endpoint =
      ("https://accounts.google.com/o/oauth2/auth", "https://oauth2.googleapis.com/token");
  auth_code_url = λ sso state. state;
  oauth_exchange = λ client sso code w. (some "google-token", w);
  default_client = record { get_authorized = λ url authorization w. (some (200, "{}"), w) };
  accepts_url = λ url. true;
  decode_user_info = λ body. some ("trader@example.com", true);
  raw_url_encode_text = λ s. s;
  raw_url_decode = λ s. some s;
  trim_space = λ s. s;
  verify_totp_code = λ secret code now. code == "123456";
  generate_totp_secret = λ w. (some "totp-secret", w);
  provisioning_uri = λ secret issuer email. secret;
  split_host_port = λ s. some s;
}

abbrev small_signer : Signer World
small_signer = record { sign = λ w s. s; verify = λ w s. some s }

abbrev small_exchanger : KiteExchanger World
small_exchanger = record {
  exchange_request_token = λ t w. (some "trader@example.com", w);
  exchange_with_credentials = λ t k secret w. (some "trader@example.com", w);
  get_credentials = λ w e. none;
  get_secret_by_api_key = λ w k. none;
}

abbrev pub token_life : ℕ
token_life = 60 * second

unfoldable pub small_handler : Handler World
unfolding new_jwt_manager
small_handler = record {
  config = record {
    kite_api_key = "global-key";
    jwt_secret = "secret";
    external_url = "https://mcp.example";
    token_expiry = token_life;
  };
  jwt = new_jwt_manager "secret" token_life;
  signer = small_signer;
  exchanger = small_exchanger;
  kite_token_checker = some (λ w email. email == "trader@example.com");
  consent_recorder = none;
  user_store = none;
  registry = none;
  persister = none;
  google_sso = none;
  http_client = none;
  login_success_tmpl = missing;
  email_prompt_tmpl = missing;
  browser_login_tmpl = missing;
  login_choice_tmpl = missing;
  admin_login_tmpl = missing;
  admin_mfa_enroll_tmpl = missing;
  admin_mfa_verify_tmpl = missing;
}

-- A client with a secret, and no codes.
abbrev pub small_client : ClientEntry
small_client = registered (client_uri ∷ []) "client" "client-secret" 0

unfoldable pub small_state : ℕ → State World
unfolding new_auth_code_store
small_state clock = record {
  auth_codes = new_auth_code_store;
  clients = ("mcp-client", small_client) ∷ [];
  cookies = [];
  world = record { clock = clock; draws = 7; saved_rows = [] };
}

-- A request without parameters.
abbrev pub blank : Request
blank = record {
  method = "GET";
  path = "/mcp";
  query = λ k. "";
  form_parses = true;
  form = λ k. "";
  header = λ k. "";
  cookie = λ k. none;
  remote_addr = "203.0.113.9:4711";
  context_email = "";
}
