-- ===== src/Config.antt =====
-- `Config` of config.go and its `Validate`.
pub mod Laws
use Prim.Native.String
use kite_mcp_oauth.Prelude.{ℕ, ◌*◌, String, ◌==◌, ◌&&◌, Option, none, some, leb, if◌then◌else◌}
use kite_mcp_oauth.Time.{hour}

pub record Config : Type 0 where
  pub kite_api_key : String
  pub jwt_secret : String
  pub external_url : String
  pub token_expiry : ℕ

-- `strings.TrimRight(s, "/")`
unfoldable pub trim_right_slashes : String → String
trim_right_slashes String.[] = ""
trim_right_slashes (String.◌∷◌ c s) =
    let rest = trim_right_slashes s in
    if rest == "" && (String.◌∷◌ c "") == "/" then "" else String.◌∷◌ c rest

-- `Validate` changes the configuration; an error is `none`.
unfoldable pub validate : Config → Option Config
validate c =
    if c.jwt_secret == ""
    then none
    else if c.external_url == ""
    then none
    else some (record c {
      external_url = trim_right_slashes c.external_url;
      token_expiry = if leb c.token_expiry 0 then 24 * hour else c.token_expiry;
    })
