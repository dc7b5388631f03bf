-- ===== src/Handler/Registration/Laws.antt =====
-- What a client gets from `Register` of handlers.go.
use kite_mcp_oauth.Prelude.{
  ℕ, ◌≤◌, String, ◌≡◌, ◌≢◌, ap, ◌∙◌, Option, some, List, arith, eq_iff, length, Option-cases, inl,
  inr, ◌==◌, not, leb, ltb, subst, lookup-insert,
}
use kite_mcp_oauth.Random.{random_hex}
use kite_mcp_oauth.Clients.{ClientEntry, max_redirect_uris, register, registered, get, make_room}
use kite_mcp_oauth.Http.{Request, Reply}
use kite_mcp_oauth.Services.{Library}
use kite_mcp_oauth.Handler.{Handler, State, go, respond_if, or_respond, ◌>>=◌}
use kite_mcp_oauth.Handler.Inversion.{bind-eq-go}
use kite_mcp_oauth.Handler.Replies.{method_not_allowed, described}
use kite_mcp_oauth.Handler.Stores.{register_client, register_drawn, persist}
use kite_mcp_oauth.Handler.Registration.{handle_register, registration_reply}

module _ {W : Type 0} (lib : Library W) (h : Handler W) where
  -- A client that was drawn and registered.
  pub record Joined (uris : List String) (name : String) (s t : State W) (id secret : String)
      : Type 0 where
    pub now : ℕ
    pub found : get id t.clients ≡ some (registered uris name secret now)
    pub same_codes : t.auth_codes ≡ s.auth_codes

  -- The registration proper, whatever the persister does.
  register_drawn-Joined :
      (id secret : String) (uris : List String) (name : String) (s t : State W) (a b : String)
      → register_drawn lib h (some id) (some secret) uris name s ≡ (go (some (a, b)), t)
      → (a ≡ id) × (b ≡ secret) × Joined uris name s t id secret
  unfolding register_drawn register get persist ◌>>=◌
  register_drawn-Joined id secret uris name s t a b e =
      let clients = make_room (lib.range_clients s.world s.clients) s.clients in
      let entry : ClientEntry = registered uris name secret (lib.now s.world) in
      let stored = lookup-insert id id entry clients in
      (
        ground arith,
        ground arith,
        record {
          now = lib.now s.world;
          found = ground (arith, stored, eq_iff id id);
          same_codes = ground arith;
        },
      )

  register_client-Joined :
      (uris : List String) (name : String) (s t : State W) (id secret : String)
      → register_client lib h uris name s ≡ (go (some (id, secret)), t)
      → Joined uris name s t id secret
  unfolding register_client register get persist
  register_client-Joined uris name s t id secret e =
      let first = random_hex lib 16 s.world in
      let second = random_hex lib 32 first.1 in
      elim (Option-cases first.0) [
        | inl failed ↦ absurd (ground arith)
        | inr (x, drawn) ↦ elim (Option-cases second.0) [
          | inl failed ↦ absurd (ground arith)
          | inr (y, also_drawn) ↦
              (let (same_id, same_secret, joined) =
                  register_drawn-Joined x y uris name (record s { world = second.1 }) t id secret
                    (ground arith) in
                rw (same_id, same_secret)
                  (record {
                    now = joined.now;
                    found = joined.found;
                    same_codes = joined.same_codes;
                  }))
        ]
      ]

  -- What a registration has established.
  pub record Registration (r : Request) (decoded : Option (List String × String)) (s t : State W)
      (reply : Reply) : Type 0 where
    pub uris : List String
    pub name : String
    pub id : String
    pub secret : String
    pub posted : r.method ≡ "POST"
    pub body : decoded ≡ some (uris, name)
    pub some_uri : length uris ≢ 0
    pub few : length uris ≤ max_redirect_uris
    pub joined : Joined uris name s t id secret
    pub replied : reply ≡ registration_reply id secret uris name

  -- A registration that succeeds came with one to ten redirect URIs, as many as a client may have;
  -- the client that it answers with is in the store afterwards, with the secret, the redirect URIs
  -- and the name of the answer and as no Kite client, and no authorization code has changed.
  pub handle_register-eq-go :
      (r : Request) (decoded : Option (List String × String)) (s t : State W) (reply : Reply)
      → handle_register lib h r decoded s ≡ (go reply, t)
      → Registration r decoded s t reply
  unfolding handle_register
  handle_register-eq-go r decoded s t reply e =
      let (_, s1, e1, k1) =
        bind-eq-go (respond_if (not (r.method == "POST")) method_not_allowed) _ s t reply e in
      let (body, s2, e2, k2) =
        bind-eq-go (or_respond decoded (described 400 "invalid_request" "invalid JSON body")) _ s1 t
          reply k1 in
      let (_, s3, e3, k3) =
        bind-eq-go
          (respond_if (leb (length body.0) 0)
            (described 400 "invalid_request" "redirect_uris required"))
          _ s2 t reply k2 in
      let (_, s4, e4, k4) =
        bind-eq-go
          (respond_if (ltb 10 (length body.0))
            (described 400 "invalid_request" "too many redirect_uris (max 10)"))
          _ s3 t reply k3 in
      let (drawn, s5, e5, k5) = bind-eq-go (register_client lib h body.0 body.1) _ s4 t reply k4 in
      let start : s4 ≡ s = ground arith in
      elim (Option-cases drawn) [
        | inl failed ↦ absurd (unfold ◌>>=◌ in ground arith)
        | inr (client, registered_now) ↦ record {
          uris = body.0;
          name = body.1;
          id = client.0;
          secret = client.1;
          posted = ground (arith, eq_iff r.method "POST");
          body = ground arith;
          some_uri = ground arith;
          few = ground arith;
          joined =
              subst (λ x. Joined body.0 body.1 x t client.0 client.1) start
                (subst (λ x. Joined body.0 body.1 s4 x client.0 client.1)
                  (unfold ◌>>=◌ in ground arith)
                  (register_client-Joined body.0 body.1 s4 s5 client.0 client.1
                    (e5 ∙ ap (λ o. (go o, s5)) registered_now)));
          replied = unfold ◌>>=◌ in ground arith;
        }
      ]
