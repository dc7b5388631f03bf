-- ===== src/Handler/Stores.antt =====
-- The calls that the handlers make of the two stores of stores.go, with the random values, the clock
-- and the write-through to the persister.
use kite_mcp_oauth.Prelude.{String, Bool, true, Option, none, some, List, Result, ok, err}
use kite_mcp_oauth.Random.{random_hex}
use kite_mcp_oauth.AuthCodes.{AuthCodeEntry, GenerateError, generate, consume}
use kite_mcp_oauth.Clients.{
  ClientStore, SavedClient, register, register_kite_client, add_redirect_uri, row,
}
use kite_mcp_oauth.Services.{ClientPersister, Library}
use kite_mcp_oauth.Handler.{
  Handler, State, Handling, pure, gets, outside, with_codes, with_clients, ◌>>=◌, ◌>>◌,
}

abbrev pub code_of : Result GenerateError String → Option String
code_of (ok code) = some code
code_of (err e) = none

module _ {W : Type 0} (lib : Library W) (h : Handler W) where
  unfoldable pub generate_code : AuthCodeEntry → Handling W (Option String)
  unfolding ◌>>=◌ random_hex
  generate_code entry = do
    code ← outside (random_hex lib 32)
    now ← gets (λ s. lib.now s.world)
    r ← with_codes (generate code now entry)
    pure (code_of r)

  unfoldable pub consume_code : String → Handling W (Option AuthCodeEntry)
  unfolding ◌>>=◌
  consume_code code = do now ← gets (λ s. lib.now s.world); with_codes (consume code now)

  -- `SaveClient` after the mutex is released; an error is only logged.
  unfoldable pub save : Option (ClientPersister W) → SavedClient → W → Bool × W
  save none c w = (true, w)
  save (some p) c w = p.save_client (row lib.marshal_uris c) w

  unfoldable pub persist : Option SavedClient → Handling W Bool
  unfolding save
  persist none = pure true
  persist (some c) = outside (save h.persister c)

  abbrev visited : State W → ClientStore
  visited s = lib.range_clients s.world s.clients

  unfoldable pub register_drawn :
      Option String → Option String → List String → String → Handling W (Option (String × String))
  unfolding ◌>>=◌ persist
  register_drawn none client_secret redirect_uris client_name = pure none
  register_drawn (some client_id) none redirect_uris client_name = pure none
  register_drawn (some client_id) (some client_secret) redirect_uris client_name = do
    now ← gets (λ s. lib.now s.world)
    order ← gets visited
    saved ← with_clients (register client_id client_secret now order redirect_uris client_name)
    persist (some saved)
    pure (some (client_id, client_secret))

  abbrev pub draw_secret : Option String → Handling W (Option String)
  draw_secret none = pure none
  draw_secret (some _) = outside (random_hex lib 32)

  -- `Register`; `none` is its error.
  unfoldable pub register_client : List String → String → Handling W (Option (String × String))
  unfolding ◌>>=◌ register_drawn random_hex
  register_client redirect_uris client_name = do
    client_id ← outside (random_hex lib 16)
    client_secret ← draw_secret client_id
    register_drawn client_id client_secret redirect_uris client_name

  unfoldable pub register_kite : String → List String → Handling W Bool
  unfolding ◌>>=◌ persist
  register_kite client_id redirect_uris = do
    now ← gets (λ s. lib.now s.world)
    order ← gets visited
    saved ← with_clients (register_kite_client now order client_id redirect_uris)
    persist saved

  unfoldable pub add_uri : String → String → Handling W Bool
  unfolding ◌>>=◌ persist
  add_uri client_id uri = do saved ← with_clients (add_redirect_uri client_id uri); persist saved
