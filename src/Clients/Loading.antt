-- ===== src/Clients/Loading.antt =====
-- Loading the clients of stores.go from the persister.
use kite_mcp_oauth.Prelude.{
  ◌+◌, String, ◌≡◌, ◌≢◌, Option, none, List, [], ◌∷◌, arith, eq_iff, insert, lookup, length,
  lookup-insert, All,
}
use kite_mcp_oauth.Clients.{ClientLoadEntry, ClientStore, ClientEntry, loaded, load_from_db}

abbrev pub HasDistinctIds : List ClientLoadEntry → Type 0
HasDistinctIds [] = Unit
HasDistinctIds (e ∷ es) = All (λ x. x.client_id ≢ e.client_id) es × HasDistinctIds es

length-insert_absent :
    (k : String) (c : ClientEntry) (s : ClientStore)
    → lookup k s ≡ none
    → length (insert k c s) ≡ length s + 1
unfolding insert lookup
length-insert_absent k c [] h = omega arith
length-insert_absent k c ((j, d) ∷ s) h = ground (arith, length-insert_absent k c s)

All-absent_insert :
    (k : String) (c : ClientEntry) (es : List ClientLoadEntry) (s : ClientStore)
    → All (λ x. x.client_id ≢ k) es
    → All (λ x. lookup x.client_id s ≡ none) es
    → All (λ x. lookup x.client_id (insert k c s) ≡ none) es
All-absent_insert k c [] s n a = tt
All-absent_insert k c (e ∷ es) s n a = (
  ground (arith, lookup-insert k e.client_id c s, eq_iff k e.client_id),
  All-absent_insert k c es s n.1 a.1,
)

module _ (unmarshal : String → Option (List String)) where
  -- LoadFromDB puts in every row, however many there are: rows with distinct ids, none of them in
  -- the store, make it larger by their number, and `maxClients` is no bound on the result.
  pub length-load_from_db :
      (es : List ClientLoadEntry) (s : ClientStore)
      → HasDistinctIds es
      → All (λ x. lookup x.client_id s ≡ none) es
      → length (load_from_db unmarshal es s) ≡ length s + length es
  unfolding load_from_db
  length-load_from_db [] s d a = omega arith
  length-load_from_db (e ∷ es) s d a = omega (
    arith,
    length-load_from_db es (insert e.client_id (loaded unmarshal e) s) d.1
        (All-absent_insert e.client_id _ es s d.0 a.1),
    length-insert_absent e.client_id (loaded unmarshal e) s a.0,
  )
