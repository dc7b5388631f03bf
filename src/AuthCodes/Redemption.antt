-- ===== src/AuthCodes/Redemption.antt =====
-- What `Generate`, `Consume` and the cleanup of stores.go do to one authorization code.
use kite_mcp_oauth.Prelude.{
  ℕ, ◌≤◌, ◌+◌, String, ◌≡◌, Option, none, some, arith, eq_iff, lookup, delete, keep_unless,
  lookup-insert, lookup-delete, lookup-delete_if, ltb, if◌then◌else◌, ok, ◌==◌, leb, length,
}
use kite_mcp_oauth.AuthCodes.{
  AuthCodeEntry, AuthCodeStore, max_auth_codes, generate, stamp, code_lifetime, consume, is_expired,
  cleanup_tick,
}
use kite_mcp_oauth.AuthCodes.Capacity.{IsBounded}

-- What a redemption of the code at the time would return: the abstract view of the store.
abbrev pub redeemable : AuthCodeStore → String → ℕ → Option AuthCodeEntry
redeemable s code now = keep_unless (is_expired now) (lookup code s.entries)

pub consume-eq-redeemable :
    (code : String) (now : ℕ) (s : AuthCodeStore) → (consume code now s).0 ≡ redeemable s code now
unfolding consume
consume-eq-redeemable code now s = ground arith

pub entries-consume :
    (code : String) (now : ℕ) (s : AuthCodeStore)
    → (consume code now s).1 ≡ record s { entries = delete code s.entries }
unfolding consume
entries-consume code now s = ground arith

pub lookup-consume :
    (code k : String) (now : ℕ) (s : AuthCodeStore)
    → lookup k (consume code now s).1.entries ≡ (if code == k then none else lookup k s.entries)
lookup-consume code k now s = rw entries-consume (lookup-delete code k s.entries)

-- Where a Generate puts its entry.
pub lookup-generate :
    (code k : String) (now : ℕ) (entry : AuthCodeEntry) (s : AuthCodeStore)
    → lookup k (generate (some code) now entry s).1.entries ≡ (
        if leb max_auth_codes (length s.entries)
        then lookup k s.entries
        else if code == k
        then some (stamp now entry)
        else lookup k s.entries)
unfolding generate
lookup-generate code k now entry s =
    ground (arith, lookup-insert code k (stamp now entry) s.entries)

-- A code that Generate has issued is redeemed for the entry it was issued with, stamped with the
-- expiry, up to ten minutes after, and for nothing later than that.
pub consume-generate :
    (code : String) (now later : ℕ) (entry : AuthCodeEntry) (s t : AuthCodeStore)
    → generate (some code) now entry s ≡ (ok code, t)
    → (consume code later t).0
      ≡ (if ltb (now + code_lifetime) later then none else some (stamp now entry))
unfolding generate consume
consume-generate code now later entry s t h =
    ground (arith, lookup-insert code code (stamp now entry) s.entries, eq_iff code code)

-- A cleanup tick is invisible on a well-formed store: whatever code is redeemed at the tick's time
-- or later, the result is the same with the tick as without it.
pub consume-cleanup_tick :
    (code : String) (now later : ℕ) (s : AuthCodeStore)
    → IsBounded s
    → now ≤ later
    → (consume code later (cleanup_tick now s)).0 ≡ (consume code later s).0
unfolding cleanup_tick consume
consume-cleanup_tick code now later s b h =
    ground (arith, lookup-delete_if (is_expired now) code s.entries)
