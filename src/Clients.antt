-- ===== src/Clients.antt =====
-- `ClientStore` of stores.go: the registered OAuth clients. Each method holds the mutex for its work
-- on the map, so it is one step on the store. Random values, the clock's reading and the order in
-- which `range` visits the map are arguments. What a method hands to the `ClientPersister` after it
-- has released the mutex is its result.
pub mod Eviction
pub mod Registration
pub mod Redirects
pub mod Loading
pub mod Reachable
pub mod Restoring
pub mod Persistence
use Prim.Native.String.{len, slice}
use kite_mcp_oauth.Prelude.{
  ℕ, String, Bool, true, false, ◌||◌, ◌&&◌, Option, none, some, List, [], ◌∷◌, ◌++◌, Dict, lookup,
  insert, delete, length, ltb, leb, if◌then◌else◌, contains, ◌==◌, ◌<>◌,
}

pub record ClientEntry : Type 0 where
  pub client_secret : String
  pub redirect_uris : List String
  pub client_name : String
  pub created_at : ℕ
  pub is_kite_api_key : Bool

-- A row of the persister, `redirect_uris` as JSON.
pub record ClientLoadEntry : Type 0 where
  pub client_id : String
  pub client_secret : String
  pub redirect_uris : String
  pub client_name : String
  pub created_at : ℕ
  pub is_kite_api_key : Bool

-- The arguments of a `SaveClient` call, before `redirectURIs` is marshalled.
pub record SavedClient : Type 0 where
  pub client_id : String
  pub entry : ClientEntry

abbrev pub max_clients : ℕ
max_clients = 10000

abbrev pub max_redirect_uris : ℕ
max_redirect_uris = 10

abbrev pub ClientStore : Type 0
ClientStore = Dict ClientEntry

unfoldable pub new_client_store : ClientStore
new_client_store = []

-- The loop of `evictOldest` over `oldestID` and `oldestTime`.
unfoldable pub scan_oldest : String → ℕ → Dict ClientEntry → String
scan_oldest oldest_id oldest_time [] = oldest_id
scan_oldest oldest_id oldest_time ((id, c) ∷ m) =
    let earlier = oldest_id == "" || ltb c.created_at oldest_time in
    scan_oldest (if earlier then id else oldest_id) (if earlier then c.created_at else oldest_time)
      m

unfoldable pub evict_oldest : Dict ClientEntry → ClientStore → ClientStore
unfolding scan_oldest
evict_oldest visited s =
    let oldest_id = scan_oldest "" 0 visited in if oldest_id == "" then s else delete oldest_id s

-- `if len(s.clients) >= maxClients { s.evictOldest() }`
unfoldable pub make_room : Dict ClientEntry → ClientStore → ClientStore
make_room visited s = if leb max_clients (length s) then evict_oldest visited s else s

abbrev pub registered : List String → String → String → ℕ → ClientEntry
registered redirect_uris client_name client_secret now = record {
  client_secret = client_secret;
  redirect_uris = redirect_uris;
  client_name = client_name;
  created_at = now;
  is_kite_api_key = false;
}

-- `Register`, after the two random values are drawn.
unfoldable pub register :
    String
    → String
    → ℕ
    → Dict ClientEntry
    → List String
    → String
    → ClientStore
    → SavedClient × ClientStore
register client_id client_secret now visited redirect_uris client_name s =
    let entry = registered redirect_uris client_name client_secret now in
    (record { client_id = client_id; entry = entry }, insert client_id entry (make_room visited s))

-- `Get` returns a copy, which is the value here.
unfoldable pub get : String → ClientStore → Option ClientEntry
get client_id s = lookup client_id s

unfoldable pub validate_redirect_uri : String → String → ClientStore → Bool
validate_redirect_uri client_id uri s = elim (lookup client_id s) [
  | none ↦ false
  | some c ↦ contains c.redirect_uris uri
]

-- The slice drops a character that the eighth byte cuts, where Go keeps its first bytes.
unfoldable pub kite_client_name : String → String
kite_client_name client_id =
    if leb 8 (len client_id) then "kite-user-" <> slice client_id 0 8 else "kite-user"

abbrev pub kite_client : String → List String → ℕ → ClientEntry
kite_client client_id redirect_uris now = record {
  client_secret = "";
  redirect_uris = redirect_uris;
  client_name = kite_client_name client_id;
  created_at = now;
  is_kite_api_key = true;
}

unfoldable pub register_kite_client :
    ℕ → Dict ClientEntry → String → List String → ClientStore → Option SavedClient × ClientStore
register_kite_client now visited client_id redirect_uris s = elim (lookup client_id s) [
  | some _ ↦ (none, s)
  | none ↦
      let entry = kite_client client_id redirect_uris now in
      (
        some (record { client_id = client_id; entry = entry }),
        insert client_id entry (make_room visited s),
      )
]

unfoldable pub is_kite_client : String → ClientStore → Bool
is_kite_client client_id s = elim (lookup client_id s) [ none ↦ false | some c ↦ c.is_kite_api_key ]

abbrev pub with_uri : String → ClientEntry → ClientEntry
with_uri uri c = record c { redirect_uris = c.redirect_uris ++ uri ∷ [] }

-- The entry is shared with the map, so the append is an update of the map.
unfoldable pub add_redirect_uri : String → String → ClientStore → Option SavedClient × ClientStore
add_redirect_uri client_id uri s = elim (lookup client_id s) [
  | none ↦ (none, s)
  | some c ↦
      if leb max_redirect_uris (length c.redirect_uris)
      then (none, s)
      else if contains c.redirect_uris uri
      then (none, s)
      else (
        some (record { client_id = client_id; entry = with_uri uri c }),
        insert client_id (with_uri uri c) s,
      )
]

abbrev or_nil : Option (List String) → List String
or_nil none = []
or_nil (some uris) = uris

-- A row as an entry, for the `json.Unmarshal` of the redirect URIs; an error leaves none.
abbrev pub loaded : (String → Option (List String)) → ClientLoadEntry → ClientEntry
loaded unmarshal e = record {
  client_secret = e.client_secret;
  redirect_uris = or_nil (unmarshal e.redirect_uris);
  client_name = e.client_name;
  created_at = e.created_at;
  is_kite_api_key = e.is_kite_api_key;
}

-- The loop of `LoadFromDB` over the rows.
unfoldable pub load_from_db :
    (String → Option (List String)) → List ClientLoadEntry → ClientStore → ClientStore
load_from_db unmarshal [] s = s
load_from_db unmarshal (e ∷ es) s =
    load_from_db unmarshal es (insert e.client_id (loaded unmarshal e) s)

-- The row that `SaveClient` is given.
abbrev pub row : (List String → String) → SavedClient → ClientLoadEntry
row marshal c = record {
  client_id = c.client_id;
  client_secret = c.entry.client_secret;
  redirect_uris = marshal c.entry.redirect_uris;
  client_name = c.entry.client_name;
  created_at = c.entry.created_at;
  is_kite_api_key = c.entry.is_kite_api_key;
}
