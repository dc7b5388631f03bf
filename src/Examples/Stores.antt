-- ===== src/Examples/Stores.antt =====
-- The two stores of stores.go at small sizes.
use kite_mcp_oauth.Prelude.{
  ℕ, ◌+◌, String, ◌≡◌, refl, false, none, some, List, [], ◌∷◌, ok, lookup, insert, arith, true,
  differ, ◌⊎◌, delete_if, ◌≤◌, some_differ,
}
use kite_mcp_oauth.AuthCodes.{
  AuthCodeEntry, AuthCodeStore, opened, generate, consume, cleanup_tick, stamp, new_auth_code_store,
  closed, close,
}
use kite_mcp_oauth.AuthCodes.Capacity.{IsBounded}
use kite_mcp_oauth.AuthCodes.Cleanup.{
  waiting, returned, Cleanup, receives_done, receives_tick, select, Run, starts, takes_turn,
}
use kite_mcp_oauth.AuthCodes.Cleanup.Termination.{close_ends_cleanup}
use kite_mcp_oauth.AuthCodes.Schedule.{
  Call, generates, consumes, ticks, run, consume_once, issued_code_is_redeemable,
}
use kite_mcp_oauth.AuthCodes.Specification.{Accepts, answers}
use kite_mcp_oauth.AuthCodes.Refinement.{store_refines}

abbrev entry : String → ℕ → AuthCodeEntry
entry client expiry = record {
  client_id = client;
  code_challenge = "challenge";
  redirect_uri = "https://client.example/cb";
  email = "trader@example.com";
  request_token = "";
  expires_at = expiry;
}

-- One code that is live until 100, and one until 7.
abbrev two_codes : AuthCodeStore
two_codes = record {
  entries = ("c1", entry "mcp" 100) ∷ ("c2", entry "other" 7) ∷ [];
  done = opened;
  close_once = false;
}

two_codes-IsBounded : IsBounded two_codes
unfolding lookup
two_codes-IsBounded = record { distinct = (refl, (refl, tt)); within = omega arith }

-- The codes of a store after `c3` was issued at 5.
abbrev three_codes : AuthCodeStore
three_codes = record two_codes {
  entries =
      ("c1", entry "mcp" 100) ∷ ("c2", entry "other" 7) ∷ ("c3", stamp 5 (entry "mcp" 0)) ∷ [];
}

three_codes_issued : generate (some "c3") 5 (entry "mcp" 0) two_codes ≡ (ok "c3", three_codes)
unfolding generate insert
three_codes_issued = refl

-- A second code, a failed draw, a cleanup and a stranger's attempt.
abbrev traffic : List Call
traffic =
    generates (some "c4") 6 (entry "third" 0)
    ∷ generates none 8 (entry "third" 0)
    ∷ ticks 9
    ∷ consumes "c2" 10
    ∷ []

store_refines_example : Accepts (λ k. none) traffic (answers traffic new_auth_code_store)
store_refines_example =
    store_refines traffic (omega arith, (omega arith, (omega arith, (omega arith, tt))))

consume_once_example : (consume "c1" 30 (run traffic (consume "c1" 20 two_codes).1)).0 ≡ none
consume_once_example =
    consume_once "c1" 20 30 traffic two_codes two_codes-IsBounded
      (some_differ "c4" "c1" refl, ((λ e. cc e), (tt, (tt, tt))))

issued_code_is_redeemable_example :
    (consume "c3" 30 (run traffic three_codes)).0 ≡ some (stamp 5 (entry "mcp" 0))
issued_code_is_redeemable_example =
    issued_code_is_redeemable "c3" 5 30 (entry "mcp" 0) traffic two_codes three_codes
      two_codes-IsBounded three_codes_issued
      (some_differ "c4" "c3" refl, ((λ e. cc e), (omega arith, (differ "c2" "c3" refl, tt))))
      (omega arith)

-- The goroutine of a new store, once the ticker has fired.
abbrev ticked : Cleanup
ticked = record { store = new_auth_code_store; tick = true; phase = waiting }

abbrev closed_store : AuthCodeStore
closed_store = record { entries = []; done = closed; close_once = true }

abbrev ended : Cleanup
ended = record { store = closed_store; tick = false; phase = returned }

-- After `Close` it receives the tick first, and then returns.
ticked_once : Run (record ticked { store = closed_store }) 0 2 ended
unfolding select cleanup_tick delete_if
ticked_once =
    takes_turn 0 1 _ ended receives_done 9
      (takes_turn 0 0 _ (record ticked { store = closed_store; tick = false }) receives_tick 9
        starts refl)
      refl

close_ends_cleanup_example :
    (2 ≤ 0 + 2)
    × ((ended.phase ≡ returned)
        ⊎ (select receives_done 9 ended ≡ some (record ended { phase = returned })))
close_ends_cleanup_example =
    close_ends_cleanup ticked ended closed_store 0 2 9 (unfold new_auth_code_store in refl)
      (unfold new_auth_code_store close in refl) ticked_once
