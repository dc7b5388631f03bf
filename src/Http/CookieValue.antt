-- ===== src/Http/CookieValue.antt =====
-- The value that `http.SetCookie` writes for a cookie: `net/http` drops the bytes that a cookie value
-- cannot hold. It puts a value with a space or a comma in quotes, which `r.Cookie` takes off again.
use Prim.Native.Char.{Char, code}
use Prim.Native.String.append
use Prim.Native.String.{◌∷◌}
use kite_mcp_oauth.Prelude.{
  ℕ, String, Bool, not, ◌&&◌, ◌||◌, ◌≡◌, refl, ap, sym, true, false, ◌∙◌, ◌<>◌, leb, ltb,
  if◌then◌else◌,
}
use kite_mcp_oauth.Http.{Cookie}

abbrev same : ℕ → ℕ → Bool
same m n = leb m n && leb n m

-- `validCookieValueByte`: the double quote, the semicolon and the backslash are 34, 59 and 92. No
-- byte of a character beyond ASCII is valid.
unfoldable pub is_cookie_char : Char → Bool
is_cookie_char c =
    let b = code c in leb 32 b && (ltb b 127 && not (same b 34 || (same b 59 || same b 92)))

-- `sanitizeCookieValue`, less its quotes
unfoldable pub sanitize_cookie_value : String → String
unfolding is_cookie_char
sanitize_cookie_value String.[] = ""
sanitize_cookie_value (String.◌∷◌ c s) =
    let rest = sanitize_cookie_value s in if is_cookie_char c then c ∷ rest else rest

-- The cookie as a browser gets it.
abbrev pub written : Cookie → Cookie
written c = record c { value = sanitize_cookie_value c.value }

sanitized_bar : sanitize_cookie_value "|" ≡ "|"
unfolding sanitize_cookie_value is_cookie_char
sanitized_bar = refl

kept_or_dropped :
    (valid : Bool) (c : Char) (whole first rest : String)
    → whole ≡ first <> rest
    → (if valid then c ∷ whole else whole) ≡ (if valid then c ∷ first else first) <> rest
kept_or_dropped true c whole first rest e =
    ap (λ (t : String). c ∷ t) e ∙ sym (append.cons c first rest)
kept_or_dropped false c whole first rest e = e

pub sanitize_cookie_value-append :
    (a b : String)
    → sanitize_cookie_value (a <> b) ≡ sanitize_cookie_value a <> sanitize_cookie_value b
unfolding sanitize_cookie_value
sanitize_cookie_value-append String.[] b =
    ap sanitize_cookie_value (append.nil b) ∙ sym (append.nil (sanitize_cookie_value b))
sanitize_cookie_value-append (String.◌∷◌ c a) b =
    ap sanitize_cookie_value (append.cons c a b)
    ∙ kept_or_dropped (is_cookie_char c) c (sanitize_cookie_value (a <> b))
        (sanitize_cookie_value a) (sanitize_cookie_value b) (sanitize_cookie_value-append a b)

-- Two texts with a bar between them keep it.
pub sanitize_cookie_value-bar :
    (a b : String)
    → sanitize_cookie_value (a <> ("|" <> b))
      ≡ sanitize_cookie_value a <> ("|" <> sanitize_cookie_value b)
sanitize_cookie_value-bar a b =
    sanitize_cookie_value-append a ("|" <> b)
    ∙ ap (λ (t : String). sanitize_cookie_value a <> t)
        (sanitize_cookie_value-append "|" b
          ∙ ap (λ (t : String). t <> sanitize_cookie_value b) sanitized_bar)
