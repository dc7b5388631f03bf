-- ===== src/Examples/Clients.antt =====
-- The client store of stores.go at a small size.
use kite_mcp_oauth.Prelude.{
  ◌+◌, String, ◌≡◌, refl, false, ◌||◌, ◌&&◌, none, some, [], ◌∷◌, lookup, length, arith, ◌==◌,
  eq_iff, Bool-cases, inl, inr, subst, differ,
}
use kite_mcp_oauth.Clients.{
  ClientEntry, ClientLoadEntry, ClientStore, registered, register, get, validate_redirect_uri,
  add_redirect_uri, load_from_db, new_client_store,
}
use kite_mcp_oauth.Clients.Eviction.{Visits}
use kite_mcp_oauth.Clients.Registration.{IsBounded, Kept, get-register}
use kite_mcp_oauth.Clients.Redirects.{has_room, validate_redirect_uri-add_redirect_uri}
use kite_mcp_oauth.Clients.Loading.{length-load_from_db}

abbrev pub callback_uri : String
callback_uri = "https://client.example/cb"

abbrev older : ClientEntry
older = registered (callback_uri ∷ []) "desktop" "s1" 3

abbrev newer : ClientEntry
newer = registered (callback_uri ∷ []) "editor" "s2" 9

abbrev two_clients : ClientStore
two_clients = ("b", newer) ∷ ("a", older) ∷ []

-- The map as `range` may visit it, in the other order.
abbrev visited : ClientStore
visited = ("a", older) ∷ ("b", newer) ∷ []

visited-Visits : Visits visited two_clients
unfolding lookup
visited-Visits = record {
  once = (refl, (refl, tt));
  same = λ k. elim (Bool-cases ("a" == k)) [
    | inl e ↦ subst (λ j. lookup j visited ≡ lookup j two_clients) ((eq_iff "a" k).0 e) refl
    | inr e ↦ ground arith
  ];
}

two_clients-IsBounded : IsBounded two_clients
unfolding lookup
two_clients-IsBounded = record { distinct = (refl, (refl, tt)); named = refl; within = omega arith }

get-register_example :
    (get "c" (register "c" "s3" 12 visited (callback_uri ∷ []) "phone" two_clients).1
      ≡ some (registered (callback_uri ∷ []) "phone" "s3" 12))
    × Kept two_clients (register "c" "s3" 12 visited (callback_uri ∷ []) "phone" two_clients).1 "a"
get-register_example =
    get-register visited two_clients visited-Visits two_clients-IsBounded "c" "s3" 12
      (callback_uri ∷ []) "phone" "a" (differ "a" "c" refl)

validate_redirect_uri-add_redirect_uri_example :
    validate_redirect_uri "a" "https://client.example/new"
      (add_redirect_uri "a" "https://client.example/new" two_clients).1
    ≡ (validate_redirect_uri "a" "https://client.example/new" two_clients
        || ("a" == "a"
            && ("https://client.example/new" == "https://client.example/new"
                && has_room "a" two_clients)))
validate_redirect_uri-add_redirect_uri_example =
    validate_redirect_uri-add_redirect_uri "a" "https://client.example/new" "a"
      "https://client.example/new" two_clients

abbrev stored : String → ClientLoadEntry
stored id = record {
  client_id = id;
  client_secret = "s";
  redirect_uris = "[]";
  client_name = "stored";
  created_at = 1;
  is_kite_api_key = false;
}

length-load_from_db_example :
    length (load_from_db (λ _. none) (stored "c" ∷ stored "d" ∷ []) two_clients)
    ≡ length two_clients + length (stored "c" ∷ stored "d" ∷ [])
unfolding lookup
length-load_from_db_example =
    length-load_from_db (λ _. none) (stored "c" ∷ stored "d" ∷ []) two_clients
      ((differ "d" "c" refl, tt), (tt, tt)) (refl, (refl, tt))

-- A new store after a registration, and after one more URI.
abbrev pub one_client : ClientStore
one_client = (register "a" "s1" 3 [] (callback_uri ∷ []) "desktop" new_client_store).1

abbrev pub grown : ClientStore
grown = (add_redirect_uri "a" "https://client.example/new" one_client).1

pub new_client_store-Visits : Visits [] new_client_store
unfolding new_client_store
new_client_store-Visits = record { once = tt; same = λ k. refl }
