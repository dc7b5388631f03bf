-- ===== src/AuthCodes/Provenance.antt =====
-- What a code of `AuthCodeStore` of stores.go can be redeemed for: nothing, or the entry that it was
-- issued with.
use kite_mcp_oauth.Prelude.{
  ℕ, String, ◌≡◌, ◌⊎◌, inr, none, some, List, [], ◌∷◌, All, ok, arith, eq_iff, subst, lookup,
  lookup-insert, lookup-delete_if,
}
use kite_mcp_oauth.AuthCodes.{
  AuthCodeEntry, AuthCodeStore, stamp, is_expired, generate, consume, cleanup_tick,
}
use kite_mcp_oauth.AuthCodes.Capacity.{IsBounded, generate-IsBounded}
use kite_mcp_oauth.AuthCodes.Redemption.{lookup-consume, lookup-generate, consume-eq-redeemable}
use kite_mcp_oauth.AuthCodes.Schedule.{
  Call, generates, consumes, ticks, step, run, step-IsBounded, DoesNotIssue,
}

abbrev MayHold : String → AuthCodeEntry → AuthCodeStore → Type 0
MayHold code e s = (lookup code s.entries ≡ none) ⊎ (lookup code s.entries ≡ some e)

step-MayHold :
    (code : String) (e : AuthCodeEntry) (c : Call) (s : AuthCodeStore)
    → IsBounded s
    → DoesNotIssue code c
    → MayHold code e s
    → MayHold code e (step c s)
unfolding step
step-MayHold code e (generates none now entry) s b n h = unfold generate in h
step-MayHold code e (generates (some k) now entry) s b n h =
    ground (arith, lookup-generate k code now entry s, eq_iff k code)
step-MayHold code e (consumes k now) s b n h = ground (arith, lookup-consume k code now s)
step-MayHold code e (ticks now) s b n h =
    unfold cleanup_tick in ground (arith, lookup-delete_if (is_expired now) code s.entries)

run-MayHold :
    (code : String) (e : AuthCodeEntry) (cs : List Call) (s : AuthCodeStore)
    → IsBounded s
    → All (DoesNotIssue code) cs
    → MayHold code e s
    → MayHold code e (run cs s)
unfolding run
run-MayHold code e [] s b n h = h
run-MayHold code e (c ∷ cs) s b n h =
    run-MayHold code e cs (step c s) (step-IsBounded c s b) n.1 (step-MayHold code e c s b n.0 h)

-- Whenever a code is redeemed, after whatever calls that do not issue it anew, it gives the entry
-- that it was issued with.
pub redeemed_is_issued :
    (code : String) (now later : ℕ) (entry e : AuthCodeEntry) (cs : List Call) (s t : AuthCodeStore)
    → IsBounded s
    → generate (some code) now entry s ≡ (ok code, t)
    → All (DoesNotIssue code) cs
    → (consume code later (run cs t)).0 ≡ some e
    → e ≡ stamp now entry
redeemed_is_issued code now later entry e cs s t b h n redeemed =
    unfold is_expired in ground (arith, held, consume-eq-redeemable code later (run cs t))
  where
    issued : lookup code t.entries ≡ some (stamp now entry)
    issued =
        unfold generate in
        ground (arith, lookup-insert code code (stamp now entry) s.entries, eq_iff code code)

    bounded : IsBounded t
    bounded = subst (λ r. IsBounded r.1) h (generate-IsBounded (some code) now entry s b)

    held : MayHold code (stamp now entry) (run cs t)
    held = run-MayHold code (stamp now entry) cs t bounded n (inr issued)
