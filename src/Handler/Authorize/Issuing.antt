-- ===== src/Handler/Authorize/Issuing.antt =====
-- The code that the store of codes gives for a handler of handlers_oauth.go, and when a dashboard session
-- gets one from `Authorize`.
use kite_mcp_oauth.Prelude.{
  String, ◌≡◌, refl, true, ◌⊎◌, inl, inr, Option, some, none, arith, Option-cases, Bool-cases,
  if◌then◌else◌,
}
use kite_mcp_oauth.Random.{random_hex}
use kite_mcp_oauth.AuthCodes.{AuthCodeEntry, AuthCodeStore, generate}
use kite_mcp_oauth.Http.{Request}
use kite_mcp_oauth.Services.{OauthState, Library}
use kite_mcp_oauth.Handler.{Handler, State, go, ◌>>=◌}
use kite_mcp_oauth.Handler.Stores.{generate_code, code_of}
use kite_mcp_oauth.Handler.Authorize.{
  entry_for, dashboard_email, has_kite_token, send_code, issue_from_dashboard,
  short_circuit_from_dashboard,
}

module _ {W : Type 0} (lib : Library W) (h : Handler W) where
  -- The store of codes after a code was generated for the entry.
  abbrev pub issued_codes : AuthCodeEntry → State W → AuthCodeStore
  issued_codes entry s =
      (generate (random_hex lib 32 s.world).0 (lib.now (random_hex lib 32 s.world).1) entry
        s.auth_codes).1

  -- The code, unless the store is full or no random bytes are given.
  abbrev pub issued_code : AuthCodeEntry → State W → Option String
  issued_code entry s =
      code_of
        (generate (random_hex lib 32 s.world).0 (lib.now (random_hex lib 32 s.world).1) entry
          s.auth_codes).0

  abbrev pub after_issue : AuthCodeEntry → State W → State W
  after_issue entry s = record s {
    auth_codes = issued_codes entry s;
    world = (random_hex lib 32 s.world).1;
  }

  pub generate_code-goes :
      (entry : AuthCodeEntry) (s : State W)
      → generate_code lib h entry s ≡ (go (issued_code entry s), after_issue entry s)
  unfolding generate_code
  generate_code-goes entry s = ground arith

  send_code-same :
      (st : OauthState) (code : Option String) (s : State W) → (send_code lib h st code s).1 ≡ s
  unfolding send_code ◌>>=◌
  send_code-same st none s = refl
  send_code-same st (some code) s = ground arith

  auth_codes-issue_from_dashboard :
      (st : OauthState) (email : String) (s : State W)
      → (issue_from_dashboard lib h st email s).1.auth_codes ≡ (
          if has_kite_token lib h email s
          then issued_codes (entry_for st email "") s
          else s.auth_codes)
  unfolding issue_from_dashboard send_code
  auth_codes-issue_from_dashboard st email s = elim (Bool-cases (has_kite_token lib h email s)) [
    | inl usable ↦ ground (
      arith,
      generate_code-goes (entry_for st email "") s,
      send_code-same st (issued_code (entry_for st email "") s)
          (after_issue (entry_for st email "") s),
    )
    | inr unusable ↦ ground arith
  ]

  pub auth_codes-short_circuit :
      (r : Request) (st : OauthState) (s : State W)
      → ((short_circuit_from_dashboard lib h r st s).1.auth_codes ≡ s.auth_codes)
        ⊎ (email : String) × (dashboard_email lib h r s ≡ some email)
          × (has_kite_token lib h email s ≡ true)
          × ((short_circuit_from_dashboard lib h r st s).1.auth_codes
              ≡ issued_codes (entry_for st email "") s)
  unfolding short_circuit_from_dashboard ◌>>=◌
  auth_codes-short_circuit r st s = elim (Option-cases (dashboard_email lib h r s)) [
    | inl none_there ↦ inl (rw (none_there, short_circuit_from_dashboard) refl)
    | inr (email, session) ↦ elim (Bool-cases (has_kite_token lib h email s)) [
      | inr unusable ↦ inl (ground (arith, auth_codes-issue_from_dashboard st email s))
      | inl usable ↦
          inr (email, session, usable, ground (arith, auth_codes-issue_from_dashboard st email s))
    ]
  ]
