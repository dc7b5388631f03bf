-- ===== src/Examples/Database.antt =====
-- A small database: saves are noted, and the newest row of each client is loaded. On it, the
-- theorems on a restart at concrete clients.
use kite_mcp_oauth.Prelude.{
  String, true, false, ◌≡◌, ◌≢◌, refl, none, some, List, [], ◌∷◌, arith, eq_iff, ◌==◌,
  if◌then◌else◌, lookup, insert, contains, All, differ,
}
use kite_mcp_oauth.Clients.{
  make_room, ClientEntry, ClientLoadEntry, SavedClient, registered, register, add_redirect_uri, get,
  with_uri, new_client_store, validate_redirect_uri,
}
use kite_mcp_oauth.Clients.Loading.{HasDistinctIds}
use kite_mcp_oauth.Clients.Reachable.{registers, adds_uri}
use kite_mcp_oauth.Clients.Persistence.{Saves, none_yet, saves}
use kite_mcp_oauth.Services.{ClientPersister}
use kite_mcp_oauth.Handler.{Handler}
use kite_mcp_oauth.Handler.Setup.{set_client_persister}
use kite_mcp_oauth.Handler.Setup.Restart.{
  find_row, KeepsRows, restarted, restart_keeps_clients, saves_out_of_order,
}
use kite_mcp_oauth.Examples.Tokens.{read_list-write_list}
use kite_mcp_oauth.Examples.Clients.{callback_uri, one_client, grown, new_client_store-Visits}
use kite_mcp_oauth.Examples.World.{World, small_library, small_handler}

without : String → List ClientLoadEntry → List ClientLoadEntry
without k [] = []
without k (e ∷ es) = let kept = without k es in if e.client_id == k then kept else e ∷ kept

newest : List ClientLoadEntry → List ClientLoadEntry
newest [] = []
newest (e ∷ es) = e ∷ without e.client_id (newest es)

find_row-without :
    (k j : String) (es : List ClientLoadEntry)
    → find_row j (without k es) ≡ (if k == j then none else find_row j es)
unfolding without
find_row-without k j [] = ground arith
find_row-without k j (e ∷ es) =
    ground (arith, eq_iff k j, eq_iff e.client_id k, eq_iff e.client_id j, find_row-without k j es)

without-absent :
    (k : String) (es : List ClientLoadEntry) → All (λ x. x.client_id ≢ k) (without k es)
unfolding without
without-absent k [] = tt
without-absent k (e ∷ es) = ground (arith, eq_iff e.client_id k, without-absent k es)

All-without :
    (j k : String) (es : List ClientLoadEntry)
    → All (λ x. x.client_id ≢ j) es
    → All (λ x. x.client_id ≢ j) (without k es)
unfolding without
All-without j k [] a = tt
All-without j k (e ∷ es) a = ground (arith, All-without j k es)

without-HasDistinctIds :
    (k : String) (es : List ClientLoadEntry) → HasDistinctIds es → HasDistinctIds (without k es)
unfolding without
without-HasDistinctIds k [] d = tt
without-HasDistinctIds k (e ∷ es) d =
    ground (arith, without-HasDistinctIds k es, All-without e.client_id k es)

newest-HasDistinctIds : (es : List ClientLoadEntry) → HasDistinctIds (newest es)
unfolding newest
newest-HasDistinctIds [] = tt
newest-HasDistinctIds (e ∷ es) = (
  without-absent e.client_id (newest es),
  without-HasDistinctIds e.client_id (newest es) (newest-HasDistinctIds es),
)

abbrev database : ClientPersister World
database = record {
  save_client = λ r w. (true, record w { saved_rows = r ∷ w.saved_rows });
  load_clients = λ w. (some (newest w.saved_rows), w);
}

database-KeepsRows : KeepsRows database
unfolding newest
database-KeepsRows = record {
  rows = λ w. newest w.saved_rows;
  loads = λ w. refl;
  distinct = λ w. newest-HasDistinctIds w.saved_rows;
  saved = λ r w k.
      ground (arith, eq_iff r.client_id k, find_row-without r.client_id k (newest w.saved_rows));
}

abbrev with_database : Handler World
with_database = set_client_persister (some database) small_handler

-- No row was saved yet.
abbrev fresh : World
fresh = record { clock = 0; draws = 0; saved_rows = [] }

abbrev desktop : ClientEntry
desktop = registered (callback_uri ∷ []) "desktop" "s1" 3

abbrev new_uri : String
new_uri = "https://client.example/new"

-- A registration and one more URI.
abbrev two_saves : List SavedClient
two_saves =
    record { client_id = "a"; entry = with_uri new_uri desktop }
    ∷ record { client_id = "a"; entry = desktop }
    ∷ []

grown-Saves : Saves grown two_saves
unfolding register add_redirect_uri lookup insert make_room new_client_store contains
grown-Saves =
    saves one_client grown (record { client_id = "a"; entry = desktop } ∷ [])
      (saves new_client_store one_client [] none_yet (
        registers "a" "s1" 3 [] (callback_uri ∷ []) "desktop" new_client_store-Visits
          (differ "a" "" refl) (omega arith)))
      (adds_uri "a" new_uri)

with_database-persister : with_database.persister ≡ some database
unfolding set_client_persister
with_database-persister = refl

small_library-decodes :
    (uris : List String)
    → small_library.unmarshal_uris (small_library.marshal_uris uris) ≡ some uris
unfolding small_library
small_library-decodes uris = read_list-write_list uris

fresh-rows : database-KeepsRows.rows fresh ≡ []
unfolding database-KeepsRows newest
fresh-rows = refl

grown-get : get "a" grown ≡ some (with_uri new_uri desktop)
unfolding get register add_redirect_uri lookup insert make_room new_client_store contains
grown-get = refl

restart_keeps_clients_example :
    get "a" (restarted small_library with_database two_saves fresh)
    ≡ some (with_uri new_uri desktop)
restart_keeps_clients_example =
    restart_keeps_clients small_library with_database database with_database-persister
      database-KeepsRows small_library-decodes grown two_saves fresh "a" (with_uri new_uri desktop)
      grown-Saves fresh-rows grown-get

abbrev other_uri : String
other_uri = "https://client.example/other"

abbrev first_save : SavedClient
first_save = record { client_id = "a"; entry = with_uri new_uri desktop }

abbrev second_save : SavedClient
second_save = record { client_id = "a"; entry = with_uri other_uri (with_uri new_uri desktop) }

first_saved : (add_redirect_uri "a" new_uri one_client).0 ≡ some first_save
unfolding register add_redirect_uri lookup insert make_room new_client_store contains
first_saved = refl

second_saved :
    (add_redirect_uri "a" other_uri (add_redirect_uri "a" new_uri one_client).1).0
    ≡ some second_save
unfolding register add_redirect_uri lookup insert make_room new_client_store contains
second_saved = refl

saves_out_of_order_example :
    (validate_redirect_uri "a" other_uri
        (add_redirect_uri "a" other_uri (add_redirect_uri "a" new_uri one_client).1).1
      ≡ true)
    × (validate_redirect_uri "a" other_uri
          (restarted small_library with_database (first_save ∷ second_save ∷ []) fresh)
        ≡ false)
    × (validate_redirect_uri "a" other_uri
          (add_redirect_uri "a" other_uri
            (restarted small_library with_database (first_save ∷ second_save ∷ []) fresh)).1
        ≡ true)
saves_out_of_order_example =
    saves_out_of_order small_library with_database database with_database-persister
      database-KeepsRows small_library-decodes one_client "a" new_uri other_uri first_save
      second_save [] fresh first_saved second_saved fresh-rows
