-- ===== src/AuthCodes.antt =====
-- `AuthCodeStore` of stores.go: the authorization codes that are issued and not yet redeemed. Each
-- method holds the mutex for its whole work on the map, so it is one step on the store.
-- The random code and the clock's reading are arguments: `randomHex(32)` and `time.Now()`.
pub mod Capacity
pub mod Redemption
pub mod Schedule
pub mod Closing
pub mod Specification
pub mod Refinement
pub mod Provenance
pub mod Cleanup
use kite_mcp_oauth.Prelude.{
  ℕ, ◌+◌, ◌*◌, String, Bool, true, false, Option, none, some, [], Dict, lookup, insert, delete,
  delete_if, length, ltb, leb, if◌then◌else◌, Result, ok, err,
}
use kite_mcp_oauth.Time.{minute}

pub record AuthCodeEntry : Type 0 where
  pub client_id : String
  pub code_challenge : String
  pub redirect_uri : String
  pub email : String
  pub request_token : String
  pub expires_at : ℕ

abbrev pub max_auth_codes : ℕ
max_auth_codes = 10000

-- `make(chan struct{})`, which is closed once.
pub data Channel : Type 0 where
  opened closed : Channel

-- `close(ch)` panics on a closed channel: `none`.
unfoldable pub close_channel : Channel → Option Channel
close_channel opened = some closed
close_channel closed = none

pub record AuthCodeStore : Type 0 where
  pub entries : Dict AuthCodeEntry
  pub done : Channel
  -- whether `closeOnce` has run its function
  pub close_once : Bool

unfoldable pub new_auth_code_store : AuthCodeStore
new_auth_code_store = record { entries = []; done = opened; close_once = false }

-- `Close`; `none` is a panic.
unfoldable pub close : AuthCodeStore → Option AuthCodeStore
unfolding close_channel
close s = if s.close_once then some s else elim (close_channel s.done) [
  | none ↦ none
  | some c ↦ some (record s { done = c; close_once = true })
]

pub data GenerateError : Type 0 where
  no_random auth_code_store_full : GenerateError

abbrev pub code_lifetime : ℕ
code_lifetime = 10 * minute

abbrev pub stamp : ℕ → AuthCodeEntry → AuthCodeEntry
stamp now entry = record entry { expires_at = now + code_lifetime }

unfoldable pub generate :
    Option String → ℕ → AuthCodeEntry → AuthCodeStore → Result GenerateError String × AuthCodeStore
generate none now entry s = (err no_random, s)
generate (some code) now entry s =
    if leb max_auth_codes (length s.entries)
    then (err auth_code_store_full, s)
    else (ok code, record s { entries = insert code (stamp now entry) s.entries })

-- `now.After(entry.ExpiresAt)`
unfoldable pub is_expired : ℕ → AuthCodeEntry → Bool
is_expired now entry = ltb entry.expires_at now

-- `Consume`: every path deletes the code.
unfoldable pub consume : String → ℕ → AuthCodeStore → Option AuthCodeEntry × AuthCodeStore
unfolding is_expired
consume code now s = elim (lookup code s.entries) [
  | none ↦ (none, record s { entries = delete code s.entries })
  | some entry ↦
      if is_expired now entry
      then (none, record s { entries = delete code s.entries })
      else (some entry, record s { entries = delete code s.entries })
]

-- The body of `cleanup` at a tick of its ticker.
unfoldable pub cleanup_tick : ℕ → AuthCodeStore → AuthCodeStore
unfolding is_expired
cleanup_tick now s = record s { entries = delete_if (is_expired now) s.entries }
