-- ===== src/Random.antt =====
-- `randomHex` of stores.go: random bytes as hexadecimal text.
use kite_mcp_oauth.Prelude.{ℕ, ◌/◌, ◌%◌, String, Option, none, some, List, [], ◌∷◌, get_or, ◌<>◌}
use kite_mcp_oauth.Services.{Library}

abbrev pub hex_digits : List String
hex_digits =
    "0" ∷ "1" ∷ "2" ∷ "3" ∷ "4" ∷ "5" ∷ "6" ∷ "7" ∷ "8" ∷ "9" ∷ "a" ∷ "b" ∷ "c" ∷ "d" ∷ "e" ∷ "f"
    ∷ []

-- `hex.EncodeToString`
unfoldable pub hex_encode : List ℕ → String
hex_encode [] = ""
hex_encode (b ∷ bytes) =
    get_or hex_digits (b / 16) "" <> (get_or hex_digits (b % 16) "" <> hex_encode bytes)

abbrev encoded : Option (List ℕ) → Option String
encoded none = none
encoded (some bytes) = some (hex_encode bytes)

unfoldable pub random_hex : {W : Type 0} → Library W → ℕ → W → Option String × W
random_hex lib n w = let (bytes, w') = lib.rand_read n w in (encoded bytes, w')
