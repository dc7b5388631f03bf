-- ===== src/Jwt/Laws.antt =====
-- What jwt.go guarantees, from the documented behaviour of golang-jwt.
use kite_mcp_oauth.Prelude.{
  ◌&&◌, not, ℕ, ◌+◌, ◌≤◌, ◌<◌, String, ◌≡◌, ◌≢◌, refl, true, false, Option, none, some, List, [],
  ◌∷◌, contains, arith, eq_iff, Option-cases, inl, inr,
}
use kite_mcp_oauth.Jwt.{
  Claims, SigningMethod, ParserOptions, ParsedToken, JwtLibrary, JwtManager, key_func,
  with_audience, matches_any, has_more, claims_for, generate_token, generate_token_with_expiry,
  parse_with_key, parse_dual, validate_token, new_jwt_manager, set_previous_secret,
}

-- The options accept HS256 and ask for no audience that the claims lack.
abbrev pub Admits : ParserOptions → Claims → Type 0
Admits opts c =
    (contains opts.valid_methods "HS256" ≡ true)
    × ((a : String) → opts.audience ≡ some a → contains c.audience a ≡ true)

-- The documented behaviour of golang-jwt on which the theorems rest.
pub record JwtLaws (lib : JwtLibrary) : Type 0 where
  -- signing with HS256 and a byte key never fails
  pub signs : (key : String) (c : Claims) → (t : String) × (lib.sign key c ≡ some t)
  -- a token parses with its key, before its expiry, to the claims that were signed, whose times
  -- are numeric dates
  pub parses :
      (key t : String) (now expiry issued : ℕ) (c : Claims) (opts : ParserOptions)
      → lib.sign key c ≡ some t
      → c.expires_at ≡ lib.new_numeric_date expiry
      → c.issued_at ≡ lib.new_numeric_date issued
      → now < c.expires_at
      → Admits opts c
      → lib.parse_with_claims now t (key_func key) opts ≡ some (record { claims = c; valid = true })
  -- and from its expiry on it does not
  pub expires :
      (key t : String) (now : ℕ) (c : Claims) (opts : ParserOptions)
      → lib.sign key c ≡ some t
      → c.expires_at ≤ now
      → lib.parse_with_claims now t (key_func key) opts ≡ none
  -- `WithAudience`: the audience is required
  pub requires_audience :
      (t : String) (now : ℕ) (k : SigningMethod → Option String) (opts : ParserOptions) (a : String)
      (p : ParsedToken)
      → lib.parse_with_claims now t k opts ≡ some p
      → opts.audience ≡ some a
      → contains p.claims.audience a ≡ true

-- The first audience that is asked for, if any is, is the client.
abbrev pub IsFor : String → List String → Type 0
IsFor client_id [] = Unit
IsFor client_id (a ∷ _) = a ≡ client_id

with_audience-Admits :
    (audiences : List String) (client_id : String) (c : Claims)
    → IsFor client_id audiences
    → c.audience ≡ client_id ∷ []
    → Admits (with_audience audiences) c
unfolding with_audience contains
with_audience-Admits [] client_id c w e = (refl, λ a h. cc)
with_audience-Admits (b ∷ rest) client_id c w e =
    (refl, λ a h. rw e (unfold contains in ground (arith, eq_iff client_id a)))

matches_any_first :
    (audiences : List String) (client_id : String)
    → IsFor client_id audiences
    → (has_more audiences && not (matches_any audiences (client_id ∷ []))) ≡ false
unfolding matches_any contains
matches_any_first [] client_id w = refl
matches_any_first (a ∷ []) client_id w = refl
matches_any_first (a ∷ b ∷ rest) client_id w = ground (arith, eq_iff client_id a)

module _ (lib : JwtLibrary) (laws : JwtLaws lib) where
  parse_with_key-audience :
      (now : ℕ) (t key a : String) (rest : List String) (c : Claims)
      → parse_with_key lib now t key (with_audience (a ∷ rest)) ≡ some c
      → contains c.audience a ≡ true
  unfolding parse_with_key with_audience
  parse_with_key-audience now t key a rest c h =
      elim (Option-cases (lib.parse_with_claims now t (key_func key) (with_audience (a ∷ rest)))) [
        | inl e ↦ ground arith
        | inr (p, e) ↦ ground (
          arith,
          laws.requires_audience t now (key_func key) (with_audience (a ∷ rest)) a p e refl,
        )
      ]

  pub parse_dual-audience :
      (j : JwtManager) (now : ℕ) (t a : String) (rest : List String) (c : Claims)
      → parse_dual lib j now t (with_audience (a ∷ rest)) ≡ some c
      → contains c.audience a ≡ true
  unfolding parse_dual
  parse_dual-audience j now t a rest c h = ground (
    arith,
    parse_with_key-audience now t j.secret a rest c,
    parse_with_key-audience now t j.previous_secret a rest c,
  )

  -- A token that validates for a list of audiences is for the first of them, whatever the others.
  pub validate_token-audience :
      (j : JwtManager) (now : ℕ) (t a : String) (rest : List String) (c : Claims)
      → validate_token lib j now t (a ∷ rest) ≡ some c
      → contains c.audience a ≡ true
  unfolding validate_token
  validate_token-audience j now t a rest c h = parse_dual-audience j now t a rest c (ground arith)

  -- With golang-jwt as documented (`JwtLaws`), the audiences behind the first change nothing: with
  -- them a token validates exactly when it validates for the first alone, and to the same claims.
  pub validate_token_first_audience :
      (j : JwtManager) (now : ℕ) (t a : String) (rest : List String)
      → validate_token lib j now t (a ∷ rest) ≡ validate_token lib j now t (a ∷ [])
  unfolding validate_token with_audience
  validate_token_first_audience j now t a [] = refl
  validate_token_first_audience j now t a (b ∷ rest) =
      elim (Option-cases (parse_dual lib j now t (with_audience (a ∷ b ∷ rest)))) [
        | inl e ↦ ground arith
        | inr (c, e) ↦ ground (arith, parse_dual-audience j now t a (b ∷ rest) c e)
      ]

  parse_with_key-sign :
      (now issued expiry : ℕ) (key email client_id t : String) (audiences : List String)
      → lib.sign key (claims_for lib email client_id issued expiry) ≡ some t
      → now < lib.new_numeric_date (issued + expiry)
      → IsFor client_id audiences
      → parse_with_key lib now t key (with_audience audiences)
        ≡ some (claims_for lib email client_id issued expiry)
  unfolding parse_with_key
  parse_with_key-sign now issued expiry key email client_id t audiences h l w = ground (
    arith,
    laws.parses key t now (issued + expiry) issued (claims_for lib email client_id issued expiry)
        (with_audience audiences) h refl refl l
        (with_audience-Admits audiences client_id (claims_for lib email client_id issued expiry) w
          refl),
  )

  -- A token that is signed with the manager's key validates, before its expiry, to what it was
  -- signed for.
  pub validate_token-sign :
      (j : JwtManager) (now issued expiry : ℕ) (email client_id t : String)
      (audiences : List String)
      → lib.sign j.secret (claims_for lib email client_id issued expiry) ≡ some t
      → now < lib.new_numeric_date (issued + expiry)
      → IsFor client_id audiences
      → validate_token lib j now t audiences ≡ some (claims_for lib email client_id issued expiry)
  unfolding validate_token parse_dual
  validate_token-sign j now issued expiry email client_id t audiences h l w = ground (
    arith,
    parse_with_key-sign now issued expiry j.secret email client_id t audiences h l w,
    matches_any_first audiences client_id w,
  )

  -- With golang-jwt as documented (`JwtLaws`), a token of GenerateToken validates under the manager
  -- that signed it, until its expiry, with no audience asked for or with the client as the first
  -- one asked for, and gives the email, the client as the only audience, and the times it was
  -- signed with.
  pub validate_token-generate_token :
      (j : JwtManager) (now issued : ℕ) (email client_id : String) (audiences : List String)
      → now < lib.new_numeric_date (issued + j.token_expiry)
      → IsFor client_id audiences
      → (t : String) × (generate_token lib j issued email client_id ≡ some t)
        × (validate_token lib j now t audiences
            ≡ some (claims_for lib email client_id issued j.token_expiry))
  unfolding generate_token
  validate_token-generate_token j now issued email client_id audiences l w =
      let (t, h) = laws.signs j.secret (claims_for lib email client_id issued j.token_expiry) in
      (t, h, validate_token-sign j now issued j.token_expiry email client_id t audiences h l w)

  parse_with_key-expired :
      (now issued expiry : ℕ) (key email client_id t : String) (opts : ParserOptions)
      → lib.sign key (claims_for lib email client_id issued expiry) ≡ some t
      → lib.new_numeric_date (issued + expiry) ≤ now
      → parse_with_key lib now t key opts ≡ none
  unfolding parse_with_key
  parse_with_key-expired now issued expiry key email client_id t opts h l =
      ground (arith, laws.expires key t now (claims_for lib email client_id issued expiry) opts h l)

  -- Rotation, with golang-jwt as documented (`JwtLaws`), if the manager's secret, which is not
  -- empty, is replaced and set as the previous one, a token that was issued before and that the new
  -- key does not verify still validates, until its expiry, to what it was issued for; and when the
  -- previous secret is cleared, it does not validate any more.
  pub rotation_keeps_sessions :
      (j : JwtManager) (fresh email client_id t : String) (now issued expiry : ℕ)
      (audiences : List String)
      → j.secret ≢ ""
      → generate_token_with_expiry lib j issued email client_id expiry ≡ some t
      → parse_with_key lib now t fresh (with_audience audiences) ≡ none
      → now < lib.new_numeric_date (issued + expiry)
      → IsFor client_id audiences
      → let rotated : JwtManager =
          set_previous_secret j.secret (new_jwt_manager fresh j.token_expiry) in
        (validate_token lib rotated now t audiences
          ≡ some (claims_for lib email client_id issued expiry))
        × (validate_token lib (set_previous_secret "" rotated) now t audiences ≡ none)
  unfolding generate_token_with_expiry validate_token parse_dual set_previous_secret new_jwt_manager
  rotation_keeps_sessions j fresh email client_id t now issued expiry audiences n h f l w = (
    ground (
      arith,
      parse_with_key-sign now issued expiry j.secret email client_id t audiences h l w,
      matches_any_first audiences client_id w,
      eq_iff j.secret "",
    ),
    ground (arith, eq_iff j.secret ""),
  )
