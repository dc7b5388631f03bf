-- ===== src/AuthCodes/Cleanup.antt =====
-- The goroutine of stores.go that `NewAuthCodeStore` starts: it waits for the ticker or for `Close`,
-- whichever it receives from first.
pub mod Termination
use kite_mcp_oauth.Prelude.{
  ℕ, zero, suc, String, Bool, true, false, ◌≡◌, Option, none, some, ◌&&◌, if◌then◌else◌,
}
use kite_mcp_oauth.AuthCodes.{
  AuthCodeEntry, AuthCodeStore, Channel, opened, closed, generate, consume, cleanup_tick,
}

pub data Phase : Type 0 where
  waiting returned : Phase

-- The store, whether a tick is in the ticker's channel, which has room for one, and the goroutine.
pub record Cleanup : Type 0 where
  pub store : AuthCodeStore
  pub tick : Bool
  pub phase : Phase

-- The cases of the `select`.
pub data Case : Type 0 where
  receives_done receives_tick : Case

abbrev pub is_waiting : Phase → Bool
is_waiting waiting = true
is_waiting returned = false

-- A closed channel can be received from at any time, an open one that nothing is sent on never.
abbrev pub is_closed : Channel → Bool
is_closed opened = false
is_closed closed = true

-- One turn of the loop with that case; `none` where the case is not ready, or after the return.
unfoldable pub select : Case → ℕ → Cleanup → Option Cleanup
select receives_done now c =
    if is_waiting c.phase && is_closed c.store.done
    then some (record c { phase = returned })
    else none
select receives_tick now c =
    if is_waiting c.phase && c.tick
    then some (record c { store = cleanup_tick now c.store; tick = false })
    else none

-- What may happen from a state on: the ticker fires, which it does not twice before it is received
-- from; others call the store; the goroutine takes a turn. The numbers count the first and the last.
pub data Run (c : Cleanup) : ℕ → ℕ → Cleanup → Type 0 where
  starts : Run c 0 0 c
  fires :
      (fired turns : ℕ) (d : Cleanup)
      → Run c fired turns d
      → Run c (suc fired) turns (record d { tick = true })
  generates :
      (fired turns : ℕ) (d : Cleanup) (code : Option String) (now : ℕ) (entry : AuthCodeEntry)
      → Run c fired turns d
      → Run c fired turns (record d { store = (generate code now entry d.store).1 })
  consumes :
      (fired turns : ℕ) (d : Cleanup) (code : String) (now : ℕ)
      → Run c fired turns d
      → Run c fired turns (record d { store = (consume code now d.store).1 })
  takes_turn :
      (fired turns : ℕ) (d e : Cleanup) (k : Case) (now : ℕ)
      → Run c fired turns d
      → select k now d ≡ some e
      → Run c fired (suc turns) e
