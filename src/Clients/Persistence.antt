-- ===== src/Clients/Persistence.antt =====
-- The write-through of the client store of stores.go: what `SaveClient` was called with, newest
-- first, and what `LoadFromDB` makes of it after a restart.
use kite_mcp_oauth.Prelude.{
  ltb, length, true, ℕ, String, false, ◌≡◌, ◌≢◌, refl, ap, sym, ◌∙◌, inl, inr, Option, none, some,
  List, [], ◌∷◌, ◌==◌, arith, eq_iff, if◌then◌else◌, lookup, insert, lookup-insert, Option-cases,
  Bool-cases, contains,
}
use kite_mcp_oauth.Clients.{
  max_redirect_uris, ClientEntry, ClientStore, SavedClient, new_client_store, register,
  register_kite_client, add_redirect_uri, get, validate_redirect_uri, with_uri, registered,
  kite_client,
}
use kite_mcp_oauth.Clients.Registration.{
  IsBounded, Kept, kept, evicted, register_lem, register_kite_client_lem,
}
use kite_mcp_oauth.Clients.Reachable.{
  Step, registers, registers_kite, adds_uri, Reachable, starts, steps, Reachable-IsBounded,
}
use kite_mcp_oauth.Clients.Eviction.{Visits}

-- The `SaveClient` call that a call of the store makes.
abbrev pub saved_by : (s t : ClientStore) → Step s t → Option SavedClient
saved_by s t (registers client_id secret now visited uris name v n l) =
    some (register client_id secret now visited uris name s).0
saved_by s t (registers_kite now visited client_id uri v n) =
    (register_kite_client now visited client_id (uri ∷ []) s).0
saved_by s t (adds_uri client_id uri) = (add_redirect_uri client_id uri s).0

abbrev pub noted : Option SavedClient → List SavedClient → List SavedClient
noted none log = log
noted (some c) log = c ∷ log

-- A store that calls lead to from an empty one, with the saves that they make, one after another.
pub data Saves : ClientStore → List SavedClient → Type 0 where
  none_yet : Saves new_client_store []
  saves :
      (s t : ClientStore) (log : List SavedClient)
      → Saves s log
      → (m : Step s t) → Saves t (noted (saved_by s t m) log)

Saves-Reachable : (s : ClientStore) (log : List SavedClient) → Saves s log → Reachable s
Saves-Reachable s log none_yet = starts
Saves-Reachable t log (saves s _ older h m) = steps s t (Saves-Reachable s older h) m

-- What was saved last for a client.
abbrev pub latest : String → List SavedClient → Option ClientEntry
latest k [] = none
latest k (c ∷ log) = if c.client_id == k then some c.entry else latest k log

register-saved :
    (s : ClientStore) (id secret : String) (now : ℕ) (visited : ClientStore) (uris : List String)
    (name : String)
    → (register id secret now visited uris name s).0
      ≡ record { client_id = id; entry = registered uris name secret now }
unfolding register
register-saved s id secret now visited uris name = refl

kite-present :
    (s : ClientStore) (now : ℕ) (visited : ClientStore) (id : String) (uris : List String)
    (old : ClientEntry)
    → get id s ≡ some old
    → register_kite_client now visited id uris s ≡ (none, s)
unfolding register_kite_client get
kite-present s now visited id uris old there = ground arith

kite-absent :
    (s : ClientStore) (now : ℕ) (visited : ClientStore) (id : String) (uris : List String)
    → get id s ≡ none
    → (register_kite_client now visited id uris s).0
      ≡ some (record { client_id = id; entry = kite_client id uris now })
unfolding register_kite_client get
kite-absent s now visited id uris absent = ground arith

module _ (s t : ClientStore) (log : List SavedClient) (b : IsBounded s)
    (before : (k : String) (c : ClientEntry) → get k s ≡ some c → latest k log ≡ some c) where
  -- A client that is still there was there before, or is the one that was saved.
  latest-Kept :
      (k : String) (c : ClientEntry) → Kept s t k → get k t ≡ some c → latest k log ≡ some c
  latest-Kept k c (kept same) h = before k c (sym same ∙ h)
  latest-Kept k c (evicted _ _ gone) h = cc (gone, h)

  -- A client was written and the others were kept.
  latest-write :
      (id : String) (entry : ClientEntry)
      → get id t ≡ some entry
      → ((k : String) → k ≢ id → Kept s t k)
      → (k : String) (c : ClientEntry) → get k t ≡ some c
      → (if id == k then some entry else latest k log) ≡ some c
  latest-write id entry new others k c h = elim (Bool-cases (id == k)) [
    | inl same ↦ rw same (sym new ∙ ap (λ j. get j t) ((eq_iff id k).0 same) ∙ h)
    | inr other ↦ rw other (latest-Kept k c (others k (λ e. ground (arith, eq_iff id k))) h)
  ]

module _ (s : ClientStore) (log : List SavedClient) (b : IsBounded s)
    (before : (k : String) (c : ClientEntry) → get k s ≡ some c → latest k log ≡ some c) where
  latest-register_kite_client :
      (now : ℕ) (visited : ClientStore) (id uri : String)
      → Visits visited s
      → let r = register_kite_client now visited id (uri ∷ []) s in
        (k : String) (c : ClientEntry) → get k r.1 ≡ some c → latest k (noted r.0 log) ≡ some c
  latest-register_kite_client now visited id uri v k c h =
      let (new, others) = register_kite_client_lem visited s v b now id (uri ∷ []) in
      elim (Option-cases (get id s)) [
        | inr (old, there) ↦
            let same = kite-present s now visited id (uri ∷ []) old there in
            rw same
              (before k c (ap (λ (r : Option SavedClient × ClientStore). get k r.1) (sym same) ∙ h))
        | inl absent ↦ rw (kite-absent s now visited id (uri ∷ []) absent) (
            latest-write s (register_kite_client now visited id (uri ∷ []) s).1 log b before id
              (kite_client id (uri ∷ []) now) (new ∙ rw absent refl) others k c h)
      ]

  latest-add_redirect_uri :
      (id uri k : String) (c : ClientEntry)
      → get k (add_redirect_uri id uri s).1 ≡ some c
      → latest k (noted (add_redirect_uri id uri s).0 log) ≡ some c
  unfolding add_redirect_uri get
  latest-add_redirect_uri id uri k c h = elim (Option-cases (lookup id s)) [
    | inl absent ↦ ground (arith, before k c)
    | inr (old, there) ↦
        ground
          (arith, before k c, before id old, lookup-insert id k (with_uri uri old) s, eq_iff id k)
  ]

latest-Step :
    (s t : ClientStore) (log : List SavedClient)
    → IsBounded s
    → ((k : String) (c : ClientEntry) → get k s ≡ some c → latest k log ≡ some c)
    → (m : Step s t) (k : String) (c : ClientEntry) → get k t ≡ some c
    → latest k (noted (saved_by s t m) log) ≡ some c
latest-Step s t log b before (registers id secret now visited uris name v n l) k c h =
    let (new, others) = register_lem visited s v b id secret now uris name in
    rw (register-saved s id secret now visited uris name)
      (latest-write s t log b before id (registered uris name secret now) new others k c h)
latest-Step s t log b before (registers_kite now visited id uri v n) k c h =
    latest-register_kite_client s log b before now visited id uri v k c h
latest-Step s t log b before (adds_uri id uri) k c h =
    latest-add_redirect_uri s log b before id uri k c h

-- The last save of every client in the store is that client.
pub Saves-latest :
    (s : ClientStore) (log : List SavedClient)
    → Saves s log
    → (k : String) (c : ClientEntry) → get k s ≡ some c
    → latest k log ≡ some c
Saves-latest s log none_yet k c h = absurd (unfold get new_client_store lookup in cc h)
Saves-latest t log (saves s _ older h m) k c e =
    latest-Step s t older (Reachable-IsBounded s (Saves-Reachable s older h)).0
      (Saves-latest s older h) m k c e

-- What an AddRedirectURI that saves has found and done.
pub record Appends (k uri : String) (s t : ClientStore) (x : SavedClient) : Type 0 where
  pub client : ClientEntry
  pub found : lookup k s ≡ some client
  pub is_new : contains client.redirect_uris uri ≡ false
  pub room : ltb (length client.redirect_uris) max_redirect_uris ≡ true
  pub saved : x ≡ record { client_id = k; entry = with_uri uri client }
  pub after : t ≡ insert k (with_uri uri client) s

pub add_redirect_uri-Appends :
    (k uri : String) (s : ClientStore) (x : SavedClient)
    → (add_redirect_uri k uri s).0 ≡ some x
    → Appends k uri s (add_redirect_uri k uri s).1 x
unfolding add_redirect_uri
add_redirect_uri-Appends k uri s x e = elim (Option-cases (lookup k s)) [
  | inl absent ↦ absurd (ground arith)
  | inr (c, there) ↦ record {
    client = c;
    found = there;
    is_new = ground arith;
    room = ground arith;
    saved = ground arith;
    after = ground arith;
  }
]

-- What the URI of a client is allowed by: its entry.
pub validate-found :
    (k uri : String) (c : ClientEntry) (s : ClientStore)
    → get k s ≡ some c
    → validate_redirect_uri k uri s ≡ contains c.redirect_uris uri
unfolding validate_redirect_uri get
validate-found k uri c s h = ground arith
