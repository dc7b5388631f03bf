-- ===== src/AuthCodes/Schedule.antt =====
-- The calls that concurrent requests and the cleanup goroutine make on the store of stores.go, in
-- whatever order the mutex admits them.
use kite_mcp_oauth.Prelude.{
  subst, ℕ, ◌≤◌, ◌+◌, String, ◌≡◌, ◌≢◌, refl, Option, none, some, List, [], ◌∷◌, arith, eq_iff,
  lookup, lookup-insert, lookup-delete_if, All, ok,
}
use kite_mcp_oauth.AuthCodes.{
  AuthCodeEntry, AuthCodeStore, generate, stamp, code_lifetime, consume, is_expired, cleanup_tick,
  new_auth_code_store,
}
use kite_mcp_oauth.AuthCodes.Capacity.{
  IsBounded, generate-IsBounded, consume-IsBounded, cleanup_tick-IsBounded,
  new_auth_code_store-IsBounded,
}
use kite_mcp_oauth.AuthCodes.Redemption.{consume-eq-redeemable, lookup-consume, lookup-generate}

pub data Call : Type 0 where
  generates : Option String → ℕ → AuthCodeEntry → Call
  consumes : String → ℕ → Call
  ticks : ℕ → Call

unfoldable pub step : Call → AuthCodeStore → AuthCodeStore
step (generates code now entry) s = (generate code now entry s).1
step (consumes code now) s = (consume code now s).1
step (ticks now) s = cleanup_tick now s

unfoldable pub run : List Call → AuthCodeStore → AuthCodeStore
unfolding step
run [] s = s
run (c ∷ cs) s = run cs (step c s)

pub step-IsBounded : (c : Call) (s : AuthCodeStore) → IsBounded s → IsBounded (step c s)
unfolding step
step-IsBounded (generates code now entry) s h = generate-IsBounded code now entry s h
step-IsBounded (consumes code now) s h = consume-IsBounded code now s h
step-IsBounded (ticks now) s h = cleanup_tick-IsBounded now s h

pub run-IsBounded : (cs : List Call) (s : AuthCodeStore) → IsBounded s → IsBounded (run cs s)
unfolding run
run-IsBounded [] s h = h
run-IsBounded (c ∷ cs) s h = run-IsBounded cs (step c s) (step-IsBounded c s h)

-- After any calls on a new store its map is well formed and within `maxAuthCodes`.
pub run-new-IsBounded : (cs : List Call) → IsBounded (run cs new_auth_code_store)
run-new-IsBounded cs = run-IsBounded cs new_auth_code_store new_auth_code_store-IsBounded

-- The call does not issue the code anew.
abbrev pub DoesNotIssue : String → Call → Type 0
DoesNotIssue code (generates drawn now entry) = drawn ≢ some code
DoesNotIssue code _ = Unit

step_absent :
    (code : String) (c : Call) (s : AuthCodeStore)
    → IsBounded s
    → DoesNotIssue code c
    → lookup code s.entries ≡ none
    → lookup code (step c s).entries ≡ none
unfolding step
step_absent code (generates none now entry) s b n h = unfold generate in h
step_absent code (generates (some k) now entry) s b n h =
    ground (arith, lookup-generate k code now entry s, eq_iff k code)
step_absent code (consumes k now) s b n h = ground (arith, lookup-consume k code now s)
step_absent code (ticks now) s b n h =
    unfold cleanup_tick in ground (arith, lookup-delete_if (is_expired now) code s.entries)

run_absent :
    (code : String) (cs : List Call) (s : AuthCodeStore)
    → IsBounded s
    → All (DoesNotIssue code) cs
    → lookup code s.entries ≡ none
    → lookup code (run cs s).entries ≡ none
unfolding run
run_absent code [] s b n h = h
run_absent code (c ∷ cs) s b n h =
    run_absent code cs (step c s) (step-IsBounded c s b) n.1 (step_absent code c s b n.0 h)

-- One-time use under any schedule: on a well-formed store, once a code was presented to Consume,
-- whatever came of it, no later Consume returns an entry for it, whatever calls come between, if
-- none issues the code anew.
pub consume_once :
    (code : String) (first later : ℕ) (cs : List Call) (s : AuthCodeStore)
    → IsBounded s
    → All (DoesNotIssue code) cs
    → (consume code later (run cs (consume code first s).1)).0 ≡ none
consume_once code first later cs s b n = rw consume-eq-redeemable (rw gone refl)
  where
    gone : lookup code (run cs (consume code first s).1).entries ≡ none
    gone =
        run_absent code cs (consume code first s).1 (consume-IsBounded code first s b) n
          (ground (arith, lookup-consume code code first s, eq_iff code code))

-- The call neither presents the code nor issues it anew, and a tick comes before its expiry.
abbrev pub Spares : String → ℕ → Call → Type 0
Spares code expiry (generates drawn now entry) = drawn ≢ some code
Spares code expiry (consumes k now) = k ≢ code
Spares code expiry (ticks now) = now ≤ expiry

step_present :
    (code : String) (e : AuthCodeEntry) (c : Call) (s : AuthCodeStore)
    → IsBounded s
    → Spares code e.expires_at c
    → lookup code s.entries ≡ some e
    → lookup code (step c s).entries ≡ some e
unfolding step
step_present code e (generates none now entry) s b n h = unfold generate in h
step_present code e (generates (some k) now entry) s b n h =
    ground (arith, lookup-generate k code now entry s, eq_iff k code)
step_present code e (consumes k now) s b n h =
    ground (arith, lookup-consume k code now s, eq_iff k code)
step_present code e (ticks now) s b n h =
    unfold cleanup_tick is_expired in
    ground (arith, lookup-delete_if (is_expired now) code s.entries)

pub run_present :
    (code : String) (e : AuthCodeEntry) (cs : List Call) (s : AuthCodeStore)
    → IsBounded s
    → All (Spares code e.expires_at) cs
    → lookup code s.entries ≡ some e
    → lookup code (run cs s).entries ≡ some e
unfolding run
run_present code e [] s b n h = h
run_present code e (c ∷ cs) s b n h =
    run_present code e cs (step c s) (step-IsBounded c s b) n.1 (step_present code e c s b n.0 h)

-- An issued code is still there for its client: if Generate issues it at `now` on a well-formed
-- store, and the calls that come between neither present nor issue it and no tick among them comes
-- after its expiry, a Consume within ten minutes returns the entry, stamped with the expiry.
pub issued_code_is_redeemable :
    (code : String) (now later : ℕ) (entry : AuthCodeEntry) (cs : List Call) (s t : AuthCodeStore)
    → IsBounded s
    → generate (some code) now entry s ≡ (ok code, t)
    → All (Spares code (now + code_lifetime)) cs
    → later ≤ now + code_lifetime
    → (consume code later (run cs t)).0 ≡ some (stamp now entry)
issued_code_is_redeemable code now later entry cs s t b h n l =
    rw consume-eq-redeemable (rw kept (unfold is_expired in ground arith))
  where
    issued : lookup code t.entries ≡ some (stamp now entry)
    issued =
        unfold generate in
        ground (arith, lookup-insert code code (stamp now entry) s.entries, eq_iff code code)

    bounded : IsBounded t
    bounded = subst (λ r. IsBounded r.1) h (generate-IsBounded (some code) now entry s b)

    kept : lookup code (run cs t).entries ≡ some (stamp now entry)
    kept = run_present code (stamp now entry) cs t bounded n issued
