-- ===== src/AuthCodes/Closing.antt =====
-- `Close` of stores.go, which may be called any number of times.
use kite_mcp_oauth.Prelude.{ℕ, zero, suc, ◌≡◌, refl, true, Option, none, some, arith}
use kite_mcp_oauth.AuthCodes.{AuthCodeStore, closed, close, new_auth_code_store}

-- `n` calls of `Close` in a row; `none` is a panic.
unfoldable pub close_times : ℕ → AuthCodeStore → Option AuthCodeStore
close_times zero s = some s
close_times (suc n) s = elim (close s) [ none ↦ none | some t ↦ close_times n t ]

close_again : (n : ℕ) (s : AuthCodeStore) → s.close_once ≡ true → close_times n s ≡ some s
unfolding close_times close
close_again zero s h = refl
close_again (suc n) s h = ground (arith, close_again n s h)

-- On a new store any number of calls of Close from one on leave the store with its channel closed,
-- and none of them panics on the closed channel.
pub close_times_lem :
    (n : ℕ)
    → close_times (suc n) new_auth_code_store
      ≡ some (record new_auth_code_store { done = closed; close_once = true })
unfolding close_times close new_auth_code_store
close_times_lem n = close_again n _ refl
