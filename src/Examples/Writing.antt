-- ===== src/Examples/Writing.antt =====
-- Texts and numbers written one after the other so that they can be read back: the form of the tokens
-- of the tests. A mark stands in front of each character and each unit, and another one at the end.
use Prim.Native.String.{String, [], ◌∷◌}
use kite_mcp_oauth.Prelude.{ℕ, zero, suc, ◌≡◌, ◌≢◌, refl, ap, ◌==◌, if◌then◌else◌}

unfoldable pub write_text : String → String → String
write_text [] rest = "0" ∷ rest
write_text (c ∷ s) rest = "1" ∷ (c ∷ write_text s rest)

-- The text and the rest.
unfoldable pub read_text : String → String × String
read_text [] = ("", "")
read_text (mark ∷ []) = ("", "")
read_text (mark ∷ (c ∷ s)) =
    let (text, rest) = read_text s in if (mark ∷ []) == "1" then (c ∷ text, rest) else ("", c ∷ s)

unfoldable pub write_number : ℕ → String → String
write_number zero rest = "0" ∷ rest
write_number (suc n) rest = "1" ∷ write_number n rest

unfoldable pub read_number : String → ℕ × String
read_number [] = (0, "")
read_number (mark ∷ s) =
    let (n, rest) = read_number s in if (mark ∷ []) == "1" then (suc n, rest) else (0, s)

pub read_text-write_text : (s rest : String) → read_text (write_text s rest) ≡ (s, rest)
unfolding read_text write_text
read_text-write_text [] [] = refl
read_text-write_text [] (c ∷ rest) = refl
read_text-write_text (c ∷ s) rest = ap (λ p. (c ∷ p.0, p.1)) (read_text-write_text s rest)

pub read_number-write_number :
    (n : ℕ) (rest : String) → read_number (write_number n rest) ≡ (n, rest)
unfolding read_number write_number
read_number-write_number zero rest = refl
read_number-write_number (suc n) rest = ap (λ p. (suc p.0, p.1)) (read_number-write_number n rest)

pub write_text-ne-nil : (s rest : String) → write_text s rest ≢ ""
unfolding write_text
write_text-ne-nil [] rest e = cc e
write_text-ne-nil (c ∷ s) rest e = cc e
