-- ===== src/Clients/Reachable.antt =====
-- The client stores of stores.go that the calls of its methods lead to, from an empty one, in any
-- order and with any order of visiting the map. Loading from the persister is not among the calls.
use kite_mcp_oauth.Prelude.{
  ℕ, ◌≤◌, String, ◌≡◌, ◌≢◌, ap, sym, ◌∙◌, inl, inr, some, List, [], ◌∷◌, arith, eq_iff, length,
  lookup, Bool-cases, Option-cases, ◌==◌, insert, insert-IsDict, lookup-insert,
}
use kite_mcp_oauth.Clients.{
  ClientEntry, ClientStore, max_redirect_uris, register, registered, register_kite_client,
  add_redirect_uri, get, new_client_store, with_uri,
}
use kite_mcp_oauth.Clients.Eviction.{Visits}
use kite_mcp_oauth.Clients.Registration.{
  IsBounded, Kept, kept, evicted, register_lem, register_kite_client_lem, register-IsBounded,
  register_kite_client-IsBounded, new_client_store-IsBounded,
}
use kite_mcp_oauth.Clients.Redirects.{HasFewUris, add_redirect_uri-HasFewUris}

-- One call, with what its caller ensures: an id is not empty, and not more redirect URIs are
-- registered than the limit.
pub data Step (s : ClientStore) : ClientStore → Type 0 where
  registers :
      (client_id client_secret : String) (now : ℕ) (visited : ClientStore) (uris : List String)
      (name : String)
      → Visits visited s
      → client_id ≢ ""
      → length uris ≤ max_redirect_uris
      → Step s (register client_id client_secret now visited uris name s).1
  registers_kite :
      (now : ℕ) (visited : ClientStore) (client_id uri : String)
      → Visits visited s
      → client_id ≢ ""
      → Step s (register_kite_client now visited client_id (uri ∷ []) s).1
  adds_uri : (client_id uri : String) → Step s (add_redirect_uri client_id uri s).1

pub data Reachable : ClientStore → Type 0 where
  starts : Reachable new_client_store
  steps : (s t : ClientStore) → Reachable s → Step s t → Reachable t

-- A client that is kept or gone has not got more URIs.
Kept-few :
    (s t : ClientStore) (k : String) (c : ClientEntry)
    → HasFewUris s
    → Kept s t k
    → get k t ≡ some c
    → length c.redirect_uris ≤ max_redirect_uris
Kept-few s t k c few (kept same) h = few k c (sym same ∙ h)
Kept-few s t k c few (evicted _ _ gone) h = cc (gone, h)

module _ (visited s : ClientStore) (v : Visits visited s) (b : IsBounded s)
    (few : HasFewUris s) where
  register-HasFewUris :
      (client_id client_secret : String) (now : ℕ) (uris : List String) (name : String)
      → length uris ≤ max_redirect_uris
      → HasFewUris (register client_id client_secret now visited uris name s).1
  register-HasFewUris client_id client_secret now uris name l k c h =
      let (new, others) = register_lem visited s v b client_id client_secret now uris name in
      elim (Bool-cases (k == client_id)) [
        | inl same ↦
            (let e : some (registered uris name client_secret now) ≡ some c =
                sym new
                ∙ ap (λ j. get j (register client_id client_secret now visited uris name s).1)
                    (sym ((eq_iff k client_id).0 same))
                ∙ h in
              ground (arith, e))
        | inr other ↦ Kept-few s _ k c few (others k (λ e. ground (arith, eq_iff k client_id))) h
      ]

  register_kite_client-HasFewUris :
      (now : ℕ) (client_id uri : String)
      → HasFewUris (register_kite_client now visited client_id (uri ∷ []) s).1
  register_kite_client-HasFewUris now client_id uri k c h =
      let (new, others) = register_kite_client_lem visited s v b now client_id (uri ∷ []) in
      elim (Bool-cases (k == client_id)) [
        | inl same ↦
            (let e =
                sym new
                ∙ ap (λ j. get j (register_kite_client now visited client_id (uri ∷ []) s).1)
                    (sym ((eq_iff k client_id).0 same))
                ∙ h in
              elim (Option-cases (get client_id s)) [
                | inl absent ↦ ground (arith, e)
                | inr (old, there) ↦ few client_id c (ground (arith, e))
              ])
        | inr other ↦ Kept-few s _ k c few (others k (λ e. ground (arith, eq_iff k client_id))) h
      ]

length-insert_present :
    (k : String) (c d : ClientEntry) (s : ClientStore)
    → lookup k s ≡ some d
    → length (insert k c s) ≡ length s
unfolding insert lookup
length-insert_present k c d [] h = cc
length-insert_present k c d ((j, x) ∷ s) h = ground (arith, length-insert_present k c d s)

add_redirect_uri-IsBounded :
    (client_id uri : String) (s : ClientStore)
    → IsBounded s
    → IsBounded (add_redirect_uri client_id uri s).1
unfolding add_redirect_uri
add_redirect_uri-IsBounded client_id uri s b = elim (Option-cases (lookup client_id s)) [
  | inl absent ↦ rw (absent, add_redirect_uri) b
  | inr (c, there) ↦ record {
    distinct = ground (arith, b.distinct, insert-IsDict client_id (with_uri uri c) s);
    named =
        ground (arith, b.named, lookup-insert client_id "" (with_uri uri c) s, eq_iff client_id "");
    within = ground (arith, b.within, length-insert_present client_id (with_uri uri c) c s);
  }
]

pub Step-IsBounded :
    (s t : ClientStore) → IsBounded s × HasFewUris s → Step s t → IsBounded t × HasFewUris t
Step-IsBounded s t (b, few) (registers client_id secret now visited uris name v n l) = (
  register-IsBounded visited s v b client_id secret now uris name n,
  register-HasFewUris visited s v b few client_id secret now uris name l,
)
Step-IsBounded s t (b, few) (registers_kite now visited client_id uri v n) = (
  register_kite_client-IsBounded visited s v b now client_id (uri ∷ []) n,
  register_kite_client-HasFewUris visited s v b few now client_id uri,
)
Step-IsBounded s t (b, few) (adds_uri client_id uri) =
    (add_redirect_uri-IsBounded client_id uri s b, add_redirect_uri-HasFewUris client_id uri s few)

-- Every reachable store has distinct, nonempty client ids, at most `maxClients` of them, and no
-- client with more than `maxRedirectURIs` redirect URIs.
pub Reachable-IsBounded : (s : ClientStore) → Reachable s → IsBounded s × HasFewUris s
Reachable-IsBounded s starts =
    (new_client_store-IsBounded, λ k c h. absurd (unfold get new_client_store lookup in cc h))
Reachable-IsBounded t (steps s _ r m) = Step-IsBounded s t (Reachable-IsBounded s r) m
