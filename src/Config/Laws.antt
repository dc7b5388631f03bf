-- ===== src/Config/Laws.antt =====
-- What a validated configuration of config.go is.
use kite_mcp_oauth.Prelude.{
  ◌*◌, String, ◌≡◌, ◌≢◌, refl, Bool, false, ◌==◌, ◌&&◌, none, some, arith, eq_iff, leb, Bool-cases,
  inl, inr, ◌⊎◌, ◌↔◌, if◌then◌else◌,
}
use kite_mcp_oauth.Time.{hour}
use kite_mcp_oauth.Config.{Config, trim_right_slashes, validate}

-- Whether the text ends with a slash.
unfoldable pub ends_with_slash : String → Bool
ends_with_slash String.[] = false
ends_with_slash (String.◌∷◌ c s) =
    let rest = ends_with_slash s in if s == "" then (String.◌∷◌ c "") == "/" else rest

trim_right_slashes-ends_with_slash : (s : String) → ends_with_slash (trim_right_slashes s) ≡ false
unfolding ends_with_slash trim_right_slashes
trim_right_slashes-ends_with_slash String.[] = refl
trim_right_slashes-ends_with_slash (String.◌∷◌ c s) =
    elim (Bool-cases (trim_right_slashes s == "" && (String.◌∷◌ c "") == "/")) [
      | inl gone ↦ rw (gone, trim_right_slashes) refl
      | inr stays ↦
          rw (stays, trim_right_slashes) (ground (arith, trim_right_slashes-ends_with_slash s))
    ]

pub validate-eq-none :
    (c : Config) → validate c ≡ none ↔ (c.jwt_secret ≡ "") ⊎ (c.external_url ≡ "")
unfolding validate
validate-eq-none c = ground (arith, eq_iff c.jwt_secret "", eq_iff c.external_url "")

-- A configuration that is validated has a secret and had a URL; the secret and the API key stay as
-- they are, the URL has no slash at its end any more, and the expiry is the one given or, if that is
-- zero, a day, so that it is never zero.
pub validate-eq-some :
    (c d : Config)
    → validate c ≡ some d
    → (d.jwt_secret ≢ "")
      × (c.external_url ≢ "")
      × (d.jwt_secret ≡ c.jwt_secret)
      × (d.kite_api_key ≡ c.kite_api_key)
      × (d.external_url ≡ trim_right_slashes c.external_url)
      × (ends_with_slash d.external_url ≡ false)
      × (d.token_expiry ≡ (if leb c.token_expiry 0 then 24 * hour else c.token_expiry))
      × (d.token_expiry ≢ 0)
unfolding validate
validate-eq-some c d e = ground (
  arith,
  eq_iff c.jwt_secret "",
  eq_iff c.external_url "",
  trim_right_slashes-ends_with_slash c.external_url,
)
