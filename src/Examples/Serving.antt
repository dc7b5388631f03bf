-- ===== src/Examples/Serving.antt =====
-- A server with a conforming run time that registers a client, is asked for a token and is cleaned up.
use kite_mcp_oauth.Prelude.{
  ℕ, zero, suc, ◌<◌, ◌≡◌, refl, some, List, [], ◌∷◌, All, length, arith, subst,
}
use kite_mcp_oauth.Http.{Request}
use kite_mcp_oauth.Services.{Library}
use kite_mcp_oauth.Handler.{State}
use kite_mcp_oauth.Handler.Keeps.{IsSound}
use kite_mcp_oauth.Handler.Keeps.Stores.{RuntimeLaws}
use kite_mcp_oauth.Server.{registers, grants, serves, cleans, passes, Reachable, starts, goes_on}
use kite_mcp_oauth.Server.Invariant.{Reachable-IsSound}
use kite_mcp_oauth.Examples.World.{World, small_library, small_handler, blank, client_uri}

abbrev sevens : ℕ → List ℕ
sevens zero = []
sevens (suc n) = 7 ∷ sevens n

sevens-filled : (n : ℕ) → (length (sevens n) ≡ n) × All (λ b. b < 256) (sevens n)
sevens-filled zero = (refl, tt)
sevens-filled (suc n) =
    let (long, bytes) = sevens-filled n in (omega (arith, long), (omega arith, bytes))

-- It fills its random bytes with sevens.
unfoldable filling_library : Library World
filling_library = record small_library {
  rand_read = λ n w. (some (sevens n), record w { draws = suc w.draws });
}

filling_library-RuntimeLaws : RuntimeLaws filling_library
unfolding filling_library small_library
filling_library-RuntimeLaws = record {
  filled = λ n w bytes e.
      subst (λ bs. (length bs ≡ n) × All (λ b. b < 256) bs) (same_bytes n bytes e)
        (sevens-filled n);
  visits = λ w s d. record { once = d; same = λ k. refl };
}
  where
    same_bytes : (n : ℕ) (bytes : List ℕ) → some (sevens n) ≡ some bytes → sevens n ≡ bytes
    same_bytes n bytes e = cc e

abbrev first_world : World
first_world = record { clock = 5; draws = 0; saved_rows = [] }

abbrev posted : Request
posted = record blank { method = "POST" }

-- What a registration, a request without a code and a tick of the cleanup lead to.
served : (s : State World) × Reachable filling_library small_handler s
served =
    let registers_one =
      goes_on _ _ (starts first_world)
        (serves (registers posted (some (client_uri ∷ [], "phone")))) in
    let refuses_one = goes_on _ _ registers_one (serves (grants posted)) in
    (
      _,
      goes_on _ _ (goes_on _ _ refuses_one (passes (record first_world { clock = 9 }))) (cleans 9),
    )

Reachable-IsSound_example : IsSound served.0
Reachable-IsSound_example =
    Reachable-IsSound filling_library small_handler filling_library-RuntimeLaws served.0 served.1
