-- ===== src/Examples/Tokens.antt =====
-- A golang-jwt for the tests: a token is the text of its key and claims, the times in whole seconds.
use kite_mcp_oauth.Prelude.{
  ℕ, zero, suc, ◌*◌, ◌/◌, ◌≤◌, ◌<◌, String, ◌≡◌, refl, ap, sym, ◌∙◌, Bool, true, ◌&&◌, Option, none,
  some, List, [], ◌∷◌, length, contains, ltb, arith, eq_iff, ◌==◌, if◌then◌else◌, Option-cases, inl,
  inr,
}
use kite_mcp_oauth.Time.{second}
use kite_mcp_oauth.Jwt.{
  Claims, SigningMethod, hmac, ParserOptions, ParsedToken, JwtLibrary, key_func,
}
use kite_mcp_oauth.Jwt.Laws.{JwtLaws, Admits}
use kite_mcp_oauth.Examples.Writing.{
  write_text, read_text, write_number, read_number, read_text-write_text, read_number-write_number,
}

abbrev write_texts : List String → String
write_texts [] = ""
write_texts (a ∷ l) = write_text a (write_texts l)

read_texts : ℕ → String → List String
read_texts zero s = []
read_texts (suc n) s = let (a, rest) = read_text s in a ∷ read_texts n rest

read_texts-write_texts : (l : List String) → read_texts (length l) (write_texts l) ≡ l
unfolding read_texts
read_texts-write_texts [] = refl
read_texts-write_texts (a ∷ l) =
    rw (read_text-write_text a (write_texts l)) (ap (λ m. a ∷ m) (read_texts-write_texts l))

-- A list of texts, with its length in front.
abbrev pub write_list : List String → String
write_list l = write_number (length l) (write_texts l)

unfoldable pub read_list : String → Option (List String)
unfolding read_texts
read_list t = let (n, rest) = read_number t in some (read_texts n rest)

pub read_list-write_list : (l : List String) → read_list (write_list l) ≡ some l
unfolding read_list
read_list-write_list l = simp (read_number-write_number, read_texts-write_texts)

abbrev pub signed_text : String → Claims → String
signed_text key c = write_text key (
    write_text c.subject (
      write_text c.issuer (
        write_number (c.expires_at / second) (
          write_number (c.issued_at / second)
            (write_number (length c.audience) (write_texts c.audience))))))

unfoldable read_token : String → String × Claims
read_token t =
    let (key, t1) = read_text t in
    let (subject, t2) = read_text t1 in
    let (issuer, t3) = read_text t2 in
    let (expires, t4) = read_number t3 in
    let (issued, t5) = read_number t4 in
    let (count, t6) = read_number t5 in
    (
      key,
      record {
        subject = subject;
        audience = read_texts count t6;
        expires_at = expires * second;
        issued_at = issued * second;
        issuer = issuer;
      },
    )

-- The claims that are read back: the times are whole seconds.
abbrev in_seconds : Claims → Claims
in_seconds c = record c {
  expires_at = (c.expires_at / second) * second;
  issued_at = (c.issued_at / second) * second;
}

read_token-signed_text :
    (key : String) (c : Claims) → read_token (signed_text key c) ≡ (key, in_seconds c)
unfolding read_token
read_token-signed_text key c =
    simp (read_text-write_text, read_number-write_number, read_texts-write_texts)

abbrev has_audience : Option String → List String → Bool
has_audience none audience = true
has_audience (some a) audience = contains audience a

abbrev accepts : ℕ → String → ParserOptions → String → Claims → Bool
accepts now key opts signer c =
    (signer == key)
    && (contains opts.valid_methods "HS256"
        && (ltb now c.expires_at && has_audience opts.audience c.audience))

parse : ℕ → String → (SigningMethod → Option String) → ParserOptions → Option ParsedToken
parse now t k opts = elim (k hmac) [
  | none ↦ none
  | some key ↦
      let (signer, c) = read_token t in
      if accepts now key opts signer c then some (record { claims = c; valid = true }) else none
]

unfoldable pub plain_jwt : JwtLibrary
unfolding parse read_token read_texts
plain_jwt = record {
  new_numeric_date = λ t. (t / second) * second;
  sign = λ key c. some (signed_text key c);
  parse_with_claims = parse;
}

-- Claims with the times that a token has are read back as they were written.
in_seconds-same :
    (c : Claims) (expiry issued : ℕ)
    → c.expires_at ≡ (expiry / second) * second
    → c.issued_at ≡ (issued / second) * second
    → in_seconds c ≡ c
in_seconds-same c expiry issued e i =
    ap (λ x. record c { expires_at = x; issued_at = (c.issued_at / second) * second })
      (omega (arith, e))
    ∙ ap (λ x. record c { issued_at = x }) (omega (arith, i))

read_token-same :
    (key t : String) (expiry issued : ℕ) (c : Claims)
    → some (signed_text key c) ≡ some t
    → c.expires_at ≡ (expiry / second) * second
    → c.issued_at ≡ (issued / second) * second
    → read_token t ≡ (key, c)
read_token-same key t expiry issued c s e i =
    ap read_token (sym (signed_text-same s))
    ∙ read_token-signed_text key c
    ∙ ap (λ x. (key, x)) (in_seconds-same c expiry issued e i)
  where
    signed_text-same : some (signed_text key c) ≡ some t → signed_text key c ≡ t
    signed_text-same p = cc p

plain_jwt-parses :
    (key t : String) (now expiry issued : ℕ) (c : Claims) (opts : ParserOptions)
    → some (signed_text key c) ≡ some t
    → c.expires_at ≡ (expiry / second) * second
    → c.issued_at ≡ (issued / second) * second
    → now < c.expires_at
    → Admits opts c
    → parse now t (key_func key) opts ≡ some (record { claims = c; valid = true })
unfolding parse key_func
plain_jwt-parses key t now expiry issued c opts s e i l a =
    rw (read_token-same key t expiry issued c s e i) (elim (Option-cases opts.audience) [
      | inl free ↦ ground (arith, eq_iff key key, a.0)
      | inr (x, wanted) ↦ ground (arith, eq_iff key key, a.0, a.1 x wanted)
    ])

plain_jwt-expires :
    (key t : String) (now : ℕ) (c : Claims) (opts : ParserOptions)
    → some (signed_text key c) ≡ some t
    → c.expires_at ≤ now
    → parse now t (key_func key) opts ≡ none
unfolding parse key_func
plain_jwt-expires key t now c opts s l =
    let e : signed_text key c ≡ t = cc s in
    rw (sym e) (rw (read_token-signed_text key c) (ground arith))

plain_jwt-requires_audience :
    (t : String) (now : ℕ) (k : SigningMethod → Option String) (opts : ParserOptions) (a : String)
    (p : ParsedToken)
    → parse now t k opts ≡ some p
    → opts.audience ≡ some a
    → contains p.claims.audience a ≡ true
unfolding parse
plain_jwt-requires_audience t now k opts a p e w = elim (Option-cases (k hmac)) [
  | inl none_there ↦ absurd (ground arith)
  | inr (key, given) ↦ ground arith
]

pub plain_jwt-JwtLaws : JwtLaws plain_jwt
unfolding plain_jwt
plain_jwt-JwtLaws = record {
  signs = λ key c. (signed_text key c, refl);
  parses = plain_jwt-parses;
  expires = plain_jwt-expires;
  requires_audience = plain_jwt-requires_audience;
}
