-- ===== src/Handler/Setup/Restart.antt =====
-- The clients of handlers.go and stores.go across a restart of the server, by way of the database.
use kite_mcp_oauth.Prelude.{
  String, Bool, true, false, ◌≡◌, ◌≢◌, refl, ap, sym, ◌∙◌, Option, none, some, List, [], ◌∷◌, ◌==◌,
  arith, eq_iff, if◌then◌else◌, lookup, insert, lookup-insert, All, contains, contains-append,
}
use kite_mcp_oauth.Clients.{
  ClientEntry, ClientLoadEntry, ClientStore, SavedClient, new_client_store, add_redirect_uri, get,
  validate_redirect_uri, load_from_db, loaded, row, with_uri,
}
use kite_mcp_oauth.Clients.Loading.{HasDistinctIds}
use kite_mcp_oauth.Clients.Redirects.{has_room, validate_redirect_uri-add_redirect_uri}
use kite_mcp_oauth.Clients.Persistence.{
  Saves, latest, Saves-latest, add_redirect_uri-Appends, validate-found,
}
use kite_mcp_oauth.Services.{ClientPersister, Library}
use kite_mcp_oauth.Handler.{Handler, State, Flow, go}
use kite_mcp_oauth.Handler.Stores.{save}
use kite_mcp_oauth.Handler.Setup.{load_clients_from_db, new_state}

-- The first row of a client.
abbrev pub find_row : String → List ClientLoadEntry → Option ClientLoadEntry
find_row k [] = none
find_row k (e ∷ es) = if e.client_id == k then some e else find_row k es

-- A database that works: it holds one row for a client, the one that was saved last.
pub record KeepsRows {W : Type 0} (p : ClientPersister W) : Type 0 where
  pub rows : W → List ClientLoadEntry
  pub loads : (w : W) → p.load_clients w ≡ (some (rows w), w)
  pub distinct : (w : W) → HasDistinctIds (rows w)
  pub saved :
      (r : ClientLoadEntry) (w : W) (k : String)
      → find_row k (rows (p.save_client r w).1)
        ≡ (if r.client_id == k then some r else find_row k (rows w))

find_row-absent :
    (k : String) (es : List ClientLoadEntry) → All (λ x. x.client_id ≢ k) es → find_row k es ≡ none
find_row-absent k [] a = refl
find_row-absent k (e ∷ es) a = ground (arith, eq_iff e.client_id k, find_row-absent k es a.1)

abbrev loaded_or :
    (String → Option (List String))
    → Option ClientEntry
    → Option ClientLoadEntry
    → Option ClientEntry
loaded_or unmarshal old none = old
loaded_or unmarshal old (some e) = some (loaded unmarshal e)

-- After loading, the client of a row is what is found.
lookup-load_from_db :
    (unmarshal : String → Option (List String)) (es : List ClientLoadEntry) (s : ClientStore)
    (k : String)
    → HasDistinctIds es
    → lookup k (load_from_db unmarshal es s) ≡ loaded_or unmarshal (lookup k s) (find_row k es)
unfolding load_from_db
lookup-load_from_db unmarshal [] s k d = refl
lookup-load_from_db unmarshal (e ∷ es) s k d =
    lookup-load_from_db unmarshal es (insert e.client_id (loaded unmarshal e) s) k d.1
    ∙ ground (
      arith,
      lookup-insert e.client_id k (loaded unmarshal e) s,
      eq_iff e.client_id k,
      find_row-absent e.client_id es d.0,
    )

module _ {W : Type 0} (lib : Library W) (h : Handler W) where
  -- The database after the saves, the newest first.
  abbrev pub after_saves : List SavedClient → W → W
  after_saves [] w = w
  after_saves (c ∷ log) w = (save lib h h.persister c (after_saves log w)).1

  -- The clients of a new server, once it has loaded what the saves left.
  abbrev pub restarted : List SavedClient → W → ClientStore
  restarted log w = (load_clients_from_db lib h (new_state (after_saves log w))).1.clients

abbrev row_of : (List String → String) → String → Option ClientEntry → Option ClientLoadEntry
row_of marshal k none = none
row_of marshal k (some c) = some (row marshal (record { client_id = k; entry = c }))

module _ {W : Type 0} (lib : Library W) (h : Handler W) (p : ClientPersister W)
    (wired : h.persister ≡ some p) (db : KeepsRows p) where
  save-wired :
      (c : SavedClient) (w : W)
      → save lib h h.persister c w ≡ p.save_client (row lib.marshal_uris c) w
  unfolding save
  save-wired c w = rw wired refl

  find_row-after_saves :
      (log : List SavedClient) (w : W) (k : String)
      → db.rows w ≡ []
      → find_row k (db.rows (after_saves lib h log w)) ≡ row_of lib.marshal_uris k (latest k log)
  find_row-after_saves [] w k empty = rw empty refl
  find_row-after_saves (c ∷ log) w k empty =
      ap (λ (r : Bool × W). find_row k (db.rows r.1)) (save-wired c (after_saves lib h log w))
      ∙ db.saved (row lib.marshal_uris c) (after_saves lib h log w) k
      ∙ ground (arith, eq_iff c.client_id k, find_row-after_saves log w k empty)

  load-wired :
      (t : State W)
      → load_clients_from_db lib h t ≡ (
        go true,
        record t { clients = load_from_db lib.unmarshal_uris (db.rows t.world) t.clients },
      )
  unfolding load_clients_from_db
  load-wired t = rw wired (ground (arith, db.loads t.world))

  module _
      (decodes : (uris : List String)
        → lib.unmarshal_uris (lib.marshal_uris uris) ≡ some uris) where
    loaded_or-row_of :
        (k : String) (o : Option ClientEntry)
        → loaded_or lib.unmarshal_uris none (row_of lib.marshal_uris k o) ≡ o
    loaded_or-row_of k none = refl
    loaded_or-row_of k (some c) = rw (decodes c.redirect_uris) refl

    get-restarted :
        (log : List SavedClient) (w : W) (k : String)
        → db.rows w ≡ []
        → get k (restarted lib h log w) ≡ latest k log
    unfolding get new_state new_client_store lookup
    get-restarted log w k empty =
        ap (λ (r : Flow Bool × State W). get k r.1.clients)
          (load-wired (new_state (after_saves lib h log w)))
        ∙ lookup-load_from_db lib.unmarshal_uris (db.rows (after_saves lib h log w)) [] k
            (db.distinct (after_saves lib h log w))
        ∙ ap (loaded_or lib.unmarshal_uris none) (find_row-after_saves log w k empty)
        ∙ loaded_or-row_of k (latest k log)

    -- A restart keeps the clients, whatever calls led to them: if the redirect URIs survive their
    -- encoding and the database was empty at the start, works (`KeepsRows`) and was given the saves
    -- in the order of the calls, a new server that loads it finds every client of the old one, with
    -- its secret, redirect URIs, name and kind.
    pub restart_keeps_clients :
        (s : ClientStore) (log : List SavedClient) (w : W) (k : String) (c : ClientEntry)
        → Saves s log
        → db.rows w ≡ []
        → get k s ≡ some c
        → get k (restarted lib h log w) ≡ some c
    restart_keeps_clients s log w k c run empty there =
        get-restarted log w k empty ∙ Saves-latest s log run k c there

    -- Each method saves after it has released the mutex, so two saves may change places. Two calls of
    -- AddRedirectURI for one client both save a new URI, and the save of the second comes first. If
    -- the redirect URIs survive their encoding and the database was empty at the start and works
    -- (`KeepsRows`), then the URI of the second call is allowed for the client after the two calls, is
    -- refused by a server that has restarted and loaded the clients, and is allowed there once
    -- AddRedirectURI adds it again, as Authorize does before it checks the URI of a Kite client.
    pub saves_out_of_order :
        (s : ClientStore) (k first second : String) (x y : SavedClient) (log : List SavedClient)
        (w : W)
        → (add_redirect_uri k first s).0 ≡ some x
        → (add_redirect_uri k second (add_redirect_uri k first s).1).0 ≡ some y
        → db.rows w ≡ []
        → (validate_redirect_uri k second
              (add_redirect_uri k second (add_redirect_uri k first s).1).1
            ≡ true)
          × (validate_redirect_uri k second (restarted lib h (x ∷ y ∷ log) w) ≡ false)
          × (validate_redirect_uri k second
                (add_redirect_uri k second (restarted lib h (x ∷ y ∷ log) w)).1
              ≡ true)
    saves_out_of_order s k first second x y log w e1 e2 empty =
        let a = add_redirect_uri-Appends k first s x e1 in
        let b = add_redirect_uri-Appends k second (add_redirect_uri k first s).1 y e2 in
        let one = with_uri first a.client in
        let two = with_uri second b.client in
        let again = restarted lib h (x ∷ y ∷ log) w in
        let same : b.client ≡ one =
          ground (arith, b.found, a.after, lookup-insert k k one s, eq_iff k k) in
        let loaded_one : get k again ≡ some one =
          get-restarted (x ∷ y ∷ log) w k empty ∙ ground (arith, a.saved, eq_iff k k) in
        let room : has_room k again ≡ true = ground (arith, b.room, same, loaded_one) in
        (
          validate-found k second two (add_redirect_uri k second (add_redirect_uri k first s).1).1 (
                ap (get k) b.after
                ∙ (unfold get in
                    ground
                      (arith, lookup-insert k k two (add_redirect_uri k first s).1, eq_iff k k)))
              ∙ ground (
                arith,
                contains-append b.client.redirect_uris second second,
                eq_iff second second,
              ),
          validate-found k second one again loaded_one
              ∙ ap (λ (c : ClientEntry). contains c.redirect_uris second) (sym same)
              ∙ b.is_new,
          validate_redirect_uri-add_redirect_uri k second k second again
              ∙ ground (arith, room, eq_iff k k, eq_iff second second),
        )
