-- ===== src/Clients/Registration.antt =====
-- Registration in stores.go: what `Register` and `RegisterKiteClient` add, and what they keep.
use kite_mcp_oauth.Prelude.{
  subst, ◌==◌, ℕ, ◌≤◌, ◌<◌, String, ◌≡◌, ◌≢◌, refl, inl, inr, none, some, List, [], ◌∷◌, arith,
  eq_iff, IsDict, lookup, length, length-insert-le, length-delete, insert-IsDict, delete-IsDict,
  lookup-insert, lookup-delete, Bool-cases, leb, delete, insert, Option-cases,
}
use kite_mcp_oauth.Clients.{
  ClientEntry, ClientStore, make_room, max_clients, register, registered, get, register_kite_client,
  kite_client, new_client_store,
}
use kite_mcp_oauth.Clients.Eviction.{Visits, IsOldest, evict_oldest-IsOldest}

-- The map has distinct keys, none of them empty, and at most `maxClients` of them.
pub record IsBounded (s : ClientStore) : Type 0 where
  pub distinct : IsDict s
  pub named : lookup "" s ≡ none
  pub within : length s ≤ max_clients

pub new_client_store-IsBounded : IsBounded new_client_store
unfolding new_client_store lookup
new_client_store-IsBounded = record { distinct = tt; named = refl; within = omega arith }

-- The two ways in which a store makes room for one more client: there is room, or it evicts one of
-- the oldest clients.
pub data Vacancy (visited s : ClientStore) : Type 0 where
  free : length s < max_clients → make_room visited s ≡ s → Vacancy visited s
  evicts :
      (id : String)
      → max_clients ≤ length s
      → IsOldest id s
      → make_room visited s ≡ delete id s
      → Vacancy visited s

visited_nonempty :
    (visited s : ClientStore) (id : String) (c : ClientEntry)
    → Visits visited s
    → lookup id s ≡ some c
    → length visited ≢ 0
unfolding lookup
visited_nonempty [] s id c v h = cc (v.same id)
visited_nonempty (x ∷ xs) s id c v h = omega arith

has_client :
    (s : ClientStore)
    → max_clients ≤ length s
    → IsDict s
    → (id : String) × (c : ClientEntry) × (lookup id s ≡ some c)
unfolding lookup
has_client [] h d = absurd (omega arith)
has_client ((k, c) ∷ s) h d = (k, c, ground (arith, eq_iff k k))

pub make_room-Vacancy :
    (visited s : ClientStore) → Visits visited s → IsBounded s → Vacancy visited s
unfolding make_room
make_room-Vacancy visited s v b = elim (Bool-cases (leb max_clients (length s))) [
  | inr room ↦ free (ground arith) (ground arith)
  | inl full ↦
      let (k, c, h) = has_client s (ground arith) b.distinct in
      let (id, oldest, e) =
        evict_oldest-IsOldest visited s v b.named (visited_nonempty visited s k c v h) in
      evicts id (ground arith) oldest (ground arith)
]

Vacancy-IsBounded :
    (visited s : ClientStore)
    → IsBounded s
    → Vacancy visited s
    → IsBounded (make_room visited s) × (length (make_room visited s) < max_clients)
Vacancy-IsBounded visited s b (free room e) = rw e (b, room)
Vacancy-IsBounded visited s b (evicts id full oldest e) = rw e (
  record {
    distinct = delete-IsDict id s b.distinct;
    named = ground (arith, lookup-delete id "" s, b.named);
    within = omega (arith, length-delete id oldest.entry s oldest.present, b.within);
  },
  omega (arith, length-delete id oldest.entry s oldest.present, b.within),
)

insert-IsBounded :
    (k : String) (c : ClientEntry) (s : ClientStore)
    → k ≢ ""
    → IsBounded s
    → length s < max_clients
    → IsBounded (insert k c s)
insert-IsBounded k c s n b room = record {
  distinct = insert-IsDict k c s b.distinct;
  named = ground (arith, lookup-insert k "" c s, eq_iff k "", b.named);
  within = omega (arith, length-insert-le k c s);
}

module _ (visited s : ClientStore) (v : Visits visited s) (b : IsBounded s) where
  pub register-IsBounded :
      (client_id client_secret : String) (now : ℕ) (redirect_uris : List String)
      (client_name : String)
      → client_id ≢ ""
      → IsBounded (register client_id client_secret now visited redirect_uris client_name s).1
  unfolding register
  register-IsBounded client_id client_secret now redirect_uris client_name n =
      let (b', room) = Vacancy-IsBounded visited s b (make_room-Vacancy visited s v b) in
      insert-IsBounded client_id _ _ n b' room

  pub register_kite_client-IsBounded :
      (now : ℕ) (client_id : String) (redirect_uris : List String)
      → client_id ≢ ""
      → IsBounded (register_kite_client now visited client_id redirect_uris s).1
  unfolding register_kite_client
  register_kite_client-IsBounded now client_id redirect_uris n =
      elim (Option-cases (lookup client_id s)) [
        | inl e ↦
            rw (e, register_kite_client)
              (let (b', room) = Vacancy-IsBounded visited s b (make_room-Vacancy visited s v b) in
                insert-IsBounded client_id _ _ n b' room)
        | inr (c, e) ↦ rw (e, register_kite_client) b
      ]

-- What a client of a store may become when another client is added: it is kept as it is, or it was
-- one of the oldest clients of a full store and is gone.
pub data Kept (s t : ClientStore) (k : String) : Type 0 where
  kept : get k t ≡ get k s → Kept s t k
  evicted : max_clients ≤ length s → IsOldest k s → get k t ≡ none → Kept s t k

Kept-insert :
    (visited s : ClientStore) (id k : String) (c : ClientEntry)
    → Vacancy visited s
    → k ≢ id
    → Kept s (insert id c (make_room visited s)) k
unfolding get
Kept-insert visited s id k c (free room e) n =
    kept (rw e (ground (arith, lookup-insert id k c s, eq_iff id k)))
Kept-insert visited s id k c (evicts old full oldest e) n = elim (Bool-cases (old == k)) [
  | inl same ↦ evicted full (subst (λ j. IsOldest j s) ((eq_iff old k).0 same) oldest) (
      rw e
        (ground (arith, lookup-insert id k c (delete old s), eq_iff id k, lookup-delete old k s)))
  | inr other ↦ kept (
      rw e
        (ground (arith, lookup-insert id k c (delete old s), eq_iff id k, lookup-delete old k s)))
]

module _ (visited s : ClientStore) (v : Visits visited s) (b : IsBounded s) where
  pub register_lem :
      (client_id client_secret : String) (now : ℕ) (uris : List String) (name : String)
      → let t : ClientStore = (register client_id client_secret now visited uris name s).1 in
        (get client_id t ≡ some (registered uris name client_secret now))
        × ((k : String) → k ≢ client_id → Kept s t k)
  unfolding register get
  register_lem client_id client_secret now uris name = (
    ground (
      arith,
      lookup-insert client_id client_id (registered uris name client_secret now)
          (make_room visited s),
      eq_iff client_id client_id,
    ),
    λ k n. Kept-insert visited s client_id k _ (make_room-Vacancy visited s v b) n,
  )

  pub register_kite_client_lem :
      (now : ℕ) (client_id : String) (uris : List String)
      → let t : ClientStore = (register_kite_client now visited client_id uris s).1 in
        (get client_id t ≡ elim (get client_id s) [
          | some c ↦ some c
          | none ↦ some (kite_client client_id uris now)
        ])
        × ((k : String) → k ≢ client_id → Kept s t k)
  unfolding register_kite_client get
  register_kite_client_lem now client_id uris = elim (Option-cases (lookup client_id s)) [
    | inl e ↦
        rw (e, register_kite_client)
          (
            ground (
              arith,
              lookup-insert client_id client_id (kite_client client_id uris now)
                  (make_room visited s),
              eq_iff client_id client_id,
            ),
            λ k n. Kept-insert visited s client_id k _ (make_room-Vacancy visited s v b) n,
          )
    | inr (c, e) ↦ rw (e, register_kite_client) (e, λ k n. kept refl)
  ]

  -- Register on a well-formed store: the new client is found with the secret, URIs, name and time
  -- it was registered with and is no Kite client, and any other client is kept, unless the store
  -- was full and it was one of the oldest.
  pub get-register :
      (client_id client_secret : String) (now : ℕ) (uris : List String) (name k : String)
      → k ≢ client_id
      → let t : ClientStore = (register client_id client_secret now visited uris name s).1 in
        (get client_id t ≡ some (registered uris name client_secret now)) × Kept s t k
  get-register client_id client_secret now uris name k n =
      let (found, others) = register_lem client_id client_secret now uris name in
      (found, others k n)

  -- RegisterKiteClient on a well-formed store: afterwards the client is the one that had the id
  -- before, unchanged, or else a Kite client without a secret, with the URIs given; and any other
  -- client is kept, unless the store was full and it was one of the oldest.
  pub get-register_kite_client :
      (now : ℕ) (client_id : String) (uris : List String) (k : String)
      → k ≢ client_id
      → let t : ClientStore = (register_kite_client now visited client_id uris s).1 in
        (get client_id t ≡ elim (get client_id s) [
          | some c ↦ some c
          | none ↦ some (kite_client client_id uris now)
        ])
        × Kept s t k
  get-register_kite_client now client_id uris k n =
      let (found, others) = register_kite_client_lem now client_id uris in (found, others k n)
