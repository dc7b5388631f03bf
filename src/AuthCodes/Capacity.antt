-- ===== src/AuthCodes/Capacity.antt =====
-- The bound on pending codes in stores.go, `maxAuthCodes`.
use kite_mcp_oauth.Prelude.{
  ℕ, ◌≤◌, String, Option, none, some, arith, length, IsDict, length-insert-le, length-delete-le,
  length-delete_if-le, insert-IsDict, delete-IsDict, delete_if-IsDict,
}
use kite_mcp_oauth.AuthCodes.{
  AuthCodeEntry, AuthCodeStore, stamp, max_auth_codes, new_auth_code_store, generate, consume,
  is_expired, cleanup_tick,
}

-- The map has distinct keys, and not more of them than the limit.
pub record IsBounded (s : AuthCodeStore) : Type 0 where
  pub distinct : IsDict s.entries
  pub within : length s.entries ≤ max_auth_codes

pub new_auth_code_store-IsBounded : IsBounded new_auth_code_store
unfolding new_auth_code_store
new_auth_code_store-IsBounded = record { distinct = tt; within = omega arith }

pub generate-IsBounded :
    (code : Option String) (now : ℕ) (entry : AuthCodeEntry) (s : AuthCodeStore)
    → IsBounded s
    → IsBounded (generate code now entry s).1
unfolding generate
generate-IsBounded none now entry s h = h
generate-IsBounded (some code) now entry s h = ground (
  arith,
  length-insert-le code (stamp now entry) s.entries,
  insert-IsDict code (stamp now entry) s.entries,
)

pub consume-IsBounded :
    (code : String) (now : ℕ) (s : AuthCodeStore) → IsBounded s → IsBounded (consume code now s).1
unfolding consume
consume-IsBounded code now s h =
    ground (arith, length-delete-le code s.entries, delete-IsDict code s.entries)

pub cleanup_tick-IsBounded :
    (now : ℕ) (s : AuthCodeStore) → IsBounded s → IsBounded (cleanup_tick now s)
unfolding cleanup_tick
cleanup_tick-IsBounded now s h = record {
  distinct = delete_if-IsDict (is_expired now) s.entries h.distinct;
  within = omega (arith, length-delete_if-le (is_expired now) s.entries);
}
