-- ===== src/Clients/Restoring.antt =====
-- The clients of stores.go across a restart: what was handed to the persister, loaded again.
use kite_mcp_oauth.Prelude.{
  String, ◌≡◌, ◌≢◌, refl, ap, sym, ◌∙◌, Option, none, some, List, [], ◌∷◌, ◌++◌, arith, eq_iff,
  IsDict, lookup, insert,
}
use kite_mcp_oauth.Clients.{
  ClientEntry, ClientLoadEntry, ClientStore, row, loaded, load_from_db, new_client_store,
}

-- The rows of a table that holds each client of the store.
abbrev pub rows : (List String → String) → ClientStore → List ClientLoadEntry
rows marshal [] = []
rows marshal ((id, c) ∷ s) = row marshal (record { client_id = id; entry = c }) ∷ rows marshal s

insert_absent :
    (k : String) (c : ClientEntry) (s : ClientStore)
    → lookup k s ≡ none
    → insert k c s ≡ s ++ (k, c) ∷ []
unfolding insert lookup
insert_absent k c [] h = refl
insert_absent k c ((j, d) ∷ s) h = ground (arith, insert_absent k c s)

lookup-append :
    (k j : String) (c : ClientEntry) (s : ClientStore)
    → lookup k s ≡ none
    → j ≢ k
    → lookup k (s ++ (j, c) ∷ []) ≡ none
unfolding lookup
lookup-append k j c [] h n = ground (arith, eq_iff j k)
lookup-append k j c ((i, d) ∷ s) h n = ground (arith, lookup-append k j c s)

append_assoc :
    (a : ClientStore) (x : String × ClientEntry) (b : ClientStore) → (a ++ x ∷ []) ++ b ≡ a ++ x ∷ b
append_assoc [] x b = refl
append_assoc (y ∷ a) x b = ap (λ l. y ∷ l) (append_assoc a x b)

-- No key of the first store is one of the second.
abbrev Apart : ClientStore → ClientStore → Type 0
Apart [] acc = Unit
Apart ((k, c) ∷ s) acc = (lookup k acc ≡ none) × Apart s acc

Apart-append :
    (s acc : ClientStore) (k : String) (c : ClientEntry)
    → lookup k s ≡ none
    → Apart s acc
    → Apart s (acc ++ (k, c) ∷ [])
unfolding lookup
Apart-append [] acc k c h a = tt
Apart-append ((j, d) ∷ s) acc k c h a = (
  lookup-append j k c acc a.0 (ground (arith, eq_iff j k)),
  Apart-append s acc k c (ground arith) a.1,
)

Apart-nil : (s : ClientStore) → Apart s []
unfolding lookup
Apart-nil [] = tt
Apart-nil ((k, c) ∷ s) = (refl, Apart-nil s)

module _ (marshal : List String → String) (unmarshal : String → Option (List String))
    (decodes : (uris : List String) → unmarshal (marshal uris) ≡ some uris) where
  loaded-row :
      (id : String) (c : ClientEntry)
      → loaded unmarshal (row marshal (record { client_id = id; entry = c })) ≡ c
  loaded-row id c = rw (decodes c.redirect_uris) refl

  load_from_db-append :
      (s acc : ClientStore)
      → IsDict s
      → Apart s acc
      → load_from_db unmarshal (rows marshal s) acc ≡ acc ++ s
  unfolding load_from_db
  load_from_db-append [] acc d a = sym (append_nil acc)
    where
      append_nil : (l : ClientStore) → l ++ [] ≡ l
      append_nil [] = refl
      append_nil (x ∷ l) = ap (λ m. x ∷ m) (append_nil l)
  load_from_db-append ((k, c) ∷ s) acc d a =
      ap (λ e. load_from_db unmarshal (rows marshal s) (insert k e acc)) (loaded-row k c)
      ∙ ap (load_from_db unmarshal (rows marshal s)) (insert_absent k c acc a.0)
      ∙ load_from_db-append s (acc ++ (k, c) ∷ []) d.1 (Apart-append s acc k c d.0 a.1)
      ∙ append_assoc acc (k, c) s

  -- A restart keeps the clients: if JSON decodes the redirect URIs that it encodes, a new store that
  -- loads the rows of all clients of a store is that store again, whatever the number of clients.
  pub load_from_db-rows :
      (s : ClientStore) → IsDict s → load_from_db unmarshal (rows marshal s) new_client_store ≡ s
  unfolding new_client_store
  load_from_db-rows s d = load_from_db-append s [] d (Apart-nil s)
