-- ===== src/Clients/Redirects.antt =====
-- The redirect URIs of a client in stores.go, and their limit.
use kite_mcp_oauth.Prelude.{
  ◌≤◌, String, ◌≡◌, inl, inr, Bool, false, ◌||◌, ◌&&◌, none, some, arith, eq_iff, lookup, length,
  length-append, lookup-insert, ltb, contains-append, Option-cases, ◌==◌, [], ◌∷◌,
}
use kite_mcp_oauth.Clients.{
  ClientEntry, ClientStore, max_redirect_uris, add_redirect_uri, validate_redirect_uri, with_uri,
  get,
}

-- No client has more redirect URIs than `maxRedirectURIs`.
abbrev pub HasFewUris : ClientStore → Type 0
HasFewUris s =
    (k : String) (c : ClientEntry) → get k s ≡ some c → length c.redirect_uris ≤ max_redirect_uris

pub add_redirect_uri-HasFewUris :
    (client_id uri : String) (s : ClientStore)
    → HasFewUris s
    → HasFewUris (add_redirect_uri client_id uri s).1
unfolding add_redirect_uri get
add_redirect_uri-HasFewUris client_id uri s few k c h = elim (Option-cases (lookup client_id s)) [
  | inl e ↦ few k c (ground arith)
  | inr (old, e) ↦ ground (
    arith,
    few k c,
    few client_id old,
    lookup-insert client_id k (with_uri uri old) s,
    length-append old.redirect_uris (uri ∷ []),
    eq_iff client_id k,
  )
]

-- The client is registered and has room for one more URI.
abbrev pub has_room : String → ClientStore → Bool
has_room client_id s = elim (get client_id s) [
  | none ↦ false
  | some c ↦ ltb (length c.redirect_uris) max_redirect_uris
]

-- After AddRedirectURI the URI is allowed for the client exactly when it was allowed before, or the
-- client is registered and had fewer than `maxRedirectURIs` URIs; for another client, or another
-- URI, nothing changes.
pub validate_redirect_uri-add_redirect_uri :
    (client_id uri k u : String) (s : ClientStore)
    → validate_redirect_uri k u (add_redirect_uri client_id uri s).1
      ≡ (validate_redirect_uri k u s || (client_id == k && (uri == u && has_room client_id s)))
unfolding validate_redirect_uri add_redirect_uri get
validate_redirect_uri-add_redirect_uri client_id uri k u s =
    elim (Option-cases (lookup client_id s)) [
      | inl e ↦ ground arith
      | inr (c, e) ↦ ground (
        arith,
        eq_iff client_id k,
        eq_iff uri u,
        lookup-insert client_id k (with_uri uri c) s,
        contains-append c.redirect_uris uri u,
      )
    ]
