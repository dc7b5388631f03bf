-- ===== src/Examples/Configuration.antt =====
-- Configurations of config.go.
use kite_mcp_oauth.Prelude.{◌*◌, ◌≡◌, ◌≢◌, refl, false, some, leb, if◌then◌else◌}
use kite_mcp_oauth.Time.{hour}
use kite_mcp_oauth.Config.{Config, trim_right_slashes, validate}
use kite_mcp_oauth.Config.Laws.{ends_with_slash, validate-eq-some}

abbrev given : Config
given = record {
  kite_api_key = "";
  jwt_secret = "secret";
  external_url = "https://mcp.example//";
  token_expiry = 0;
}

abbrev validated : Config
validated = record given { external_url = "https://mcp.example"; token_expiry = 24 * hour }

given_validates : validate given ≡ some validated
unfolding validate trim_right_slashes
given_validates = refl

validate-eq-some_example :
    (validated.jwt_secret ≢ "")
    × (given.external_url ≢ "")
    × (validated.jwt_secret ≡ given.jwt_secret)
    × (validated.kite_api_key ≡ given.kite_api_key)
    × (validated.external_url ≡ trim_right_slashes given.external_url)
    × (ends_with_slash validated.external_url ≡ false)
    × (validated.token_expiry
        ≡ (if leb given.token_expiry 0 then 24 * hour else given.token_expiry))
    × (validated.token_expiry ≢ 0)
validate-eq-some_example = validate-eq-some given validated given_validates
