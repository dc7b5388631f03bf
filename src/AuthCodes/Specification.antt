-- ===== src/AuthCodes/Specification.antt =====
-- What `AuthCodeStore` of stores.go promises to its callers: tickets that are handed out, and
-- redeemed once and in time. There is no cleanup here, and nothing is deleted but by a redemption.
use kite_mcp_oauth.Prelude.{
  ℕ, ◌≤◌, String, ◌≡◌, ◌≢◌, Option, none, some, List, [], ◌∷◌, Result, ok, err, keep_unless, length,
  All, if◌then◌else◌, ◌==◌,
}
use kite_mcp_oauth.AuthCodes.{
  AuthCodeEntry, AuthCodeStore, GenerateError, no_random, auth_code_store_full, max_auth_codes,
  stamp, is_expired, generate, consume,
}
use kite_mcp_oauth.AuthCodes.Schedule.{Call, generates, consumes, ticks, step}

abbrev pub Tickets : Type 0
Tickets = String → Option AuthCodeEntry

abbrev pub assign : String → Option AuthCodeEntry → Tickets → Tickets
assign code entry tickets k = if code == k then entry else tickets k

abbrev pub AreDistinct : List String → Type 0
AreDistinct [] = Unit
AreDistinct (code ∷ codes) = All (λ k. k ≢ code) codes × AreDistinct codes

-- What a caller is told.
pub data Answer : Type 0 where
  issued : Result GenerateError String → Answer
  redeemed : Option AuthCodeEntry → Answer
  swept : Answer

-- The calls that the tickets admit, with their answers.
pub data Admits (tickets : Tickets) : Call → Answer → Tickets → Type 0 where
  issues :
      (code : String) (now : ℕ) (entry : AuthCodeEntry)
      → Admits tickets
          (generates (some code) now entry)
          (issued (ok code))
          (assign code (some (stamp now entry)) tickets)
  -- only if that many tickets were handed out and not redeemed
  refuses :
      (code : String) (now : ℕ) (entry : AuthCodeEntry) (pending : List String)
      → AreDistinct pending
      → All (λ k. tickets k ≢ none) pending
      → length pending ≡ max_auth_codes
      → Admits tickets (generates (some code) now entry) (issued (err auth_code_store_full)) tickets
  fails :
      (now : ℕ) (entry : AuthCodeEntry)
      → Admits tickets (generates none now entry) (issued (err no_random)) tickets
  redeems :
      (code : String) (now : ℕ)
      → Admits tickets
          (consumes code now)
          (redeemed (keep_unless (is_expired now) (tickets code)))
          (assign code none tickets)
  sweeps : (now : ℕ) → Admits tickets (ticks now) swept tickets

pub data Accepts : Tickets → List Call → List Answer → Type 0 where
  done : (tickets : Tickets) → Accepts tickets [] []
  next :
      (tickets after : Tickets) (c : Call) (cs : List Call) (a : Answer) (answers : List Answer)
      → Admits tickets c a after
      → Accepts after cs answers
      → Accepts tickets (c ∷ cs) (a ∷ answers)

-- What the store answers to a call, and to a schedule of calls.
unfoldable pub answer : Call → AuthCodeStore → Answer
answer (generates code now entry) s = issued (generate code now entry s).0
answer (consumes code now) s = redeemed (consume code now s).0
answer (ticks now) s = swept

unfoldable pub answers : List Call → AuthCodeStore → List Answer
unfolding answer step
answers [] s = []
answers (c ∷ cs) s = answer c s ∷ answers cs (step c s)

-- Consume and the cleanup read the clock while they hold the mutex, so their times do not go back;
-- Generate reads it before.
abbrev pub clock_after : ℕ → Call → ℕ
clock_after now (generates code at entry) = now
clock_after now (consumes code at) = at
clock_after now (ticks at) = at

abbrev pub IsChronological : ℕ → List Call → Type 0
IsChronological now [] = Unit
IsChronological now (c ∷ cs) = (now ≤ clock_after now c) × IsChronological (clock_after now c) cs
