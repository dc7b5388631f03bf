-- ===== src/Handler/Keeps/Stores.antt =====
-- The calls that the handlers make of the two stores of stores.go keep them sound.
use kite_mcp_oauth.Prelude.{
  ℕ, ◌≤◌, ◌<◌, String, true, ◌≡◌, ◌≢◌, refl, ap, subst, Option, none, some, List, [], ◌∷◌, zero,
  suc, ◌/◌, ◌%◌, arith, length, IsDict, All, Option-cases, inl, inr, ◌<>◌, get_or,
}
use Prim.Native.String.{len}
use text.Mathlib.TextPositions.{len-append}
use kite_mcp_oauth.Random.{hex_digits, hex_encode, random_hex}
use kite_mcp_oauth.AuthCodes.{AuthCodeEntry}
use kite_mcp_oauth.AuthCodes.Capacity.{generate-IsBounded, consume-IsBounded}
use kite_mcp_oauth.Clients.{
  ClientStore, SavedClient, max_redirect_uris, register, register_kite_client, add_redirect_uri,
}
use kite_mcp_oauth.Clients.Eviction.{Visits}
use kite_mcp_oauth.Clients.Reachable.{Step, registers, registers_kite, adds_uri, Step-IsBounded}
use kite_mcp_oauth.Services.{Library}
use kite_mcp_oauth.Handler.{Handler, State, pure}
use kite_mcp_oauth.Handler.Stores.{
  generate_code, consume_code, persist, draw_secret, register_drawn, register_client, register_kite,
  add_uri,
}
use kite_mcp_oauth.Handler.Keeps.{IsSound, Keeps, Keeps-pure, Keeps-outside, Keeps-bind}

-- What the code relies on of the run time: `rand.Read` fills the bytes, and `range` visits each
-- binding of a map once.
pub record RuntimeLaws {W : Type 0} (lib : Library W) : Type 0 where
  pub filled :
      (n : ℕ) (w : W) (bytes : List ℕ)
      → (lib.rand_read n w).0 ≡ some bytes
      → (length bytes ≡ n) × All (λ b. b < 256) bytes
  pub visits : (w : W) (s : ClientStore) → IsDict s → Visits (lib.range_clients w s) s

get_or_nonempty :
    (l : List String) (i : ℕ) → All (λ d. 0 < len d) l → i < length l → 0 < len (get_or l i "")
get_or_nonempty [] i a h = absurd (omega arith)
get_or_nonempty (d ∷ l) zero a h = a.0
get_or_nonempty (d ∷ l) (suc i) a h = get_or_nonempty l i a.1 (omega arith)

-- Bytes, one at least, are no empty text.
hex_encode-ne-nil :
    (bytes : List ℕ) → All (λ b. b < 256) bytes → 0 < length bytes → hex_encode bytes ≢ ""
unfolding hex_encode
hex_encode-ne-nil [] a h e = absurd (omega arith)
hex_encode-ne-nil (b ∷ bytes) a h e =
    let first = get_or hex_digits (b / 16) "" in
    absurd (
      omega (
        arith,
        get_or_nonempty hex_digits (b / 16) (omega arith) (omega arith),
        len-append first (get_or hex_digits (b % 16) "" <> hex_encode bytes),
        ap len e,
      ))

module _ {W : Type 0} (lib : Library W) (h : Handler W) where
  pub Keeps-generate_code : (entry : AuthCodeEntry) → Keeps (generate_code lib h entry)
  unfolding generate_code
  Keeps-generate_code entry = record {
    at = λ s sound. record {
      codes =
          generate-IsBounded (random_hex lib 32 s.world).0 (lib.now (random_hex lib 32 s.world).1)
            entry s.auth_codes sound.codes;
      clients = sound.clients;
      few = sound.few;
    };
  }

  pub Keeps-consume_code : (code : String) → Keeps (consume_code lib h code)
  unfolding consume_code
  Keeps-consume_code code = record {
    at = λ s sound. record {
      codes = consume-IsBounded code (lib.now s.world) s.auth_codes sound.codes;
      clients = sound.clients;
      few = sound.few;
    };
  }

  Keeps-persist : (c : Option SavedClient) → Keeps (persist lib h c)
  unfolding persist
  Keeps-persist none = Keeps-pure true
  Keeps-persist (some c) = Keeps-outside _

  -- A call of the client store, as one of its steps.
  after-Step :
      (s : State W) (t : ClientStore)
      → IsSound s
      → Step s.clients t
      → IsSound (record s { clients = t })
  after-Step s t sound m =
      let (bounded, few) = Step-IsBounded s.clients t (sound.clients, sound.few) m in
      record { codes = sound.codes; clients = bounded; few = few }

  pub Keeps-add_uri : (client_id uri : String) → Keeps (add_uri lib h client_id uri)
  unfolding add_uri
  Keeps-add_uri client_id uri = record {
    at = λ s sound.
        let r = add_redirect_uri client_id uri s.clients in
        (Keeps-persist r.0).at (record s { clients = r.1 })
          (after-Step s r.1 sound (adds_uri client_id uri));
  }

  module _ (laws : RuntimeLaws lib) where
    pub Keeps-register_kite :
        (client_id uri : String) → client_id ≢ "" → Keeps (register_kite lib h client_id (uri ∷ []))
    unfolding register_kite
    Keeps-register_kite client_id uri n = record {
      at = λ s sound.
          let order = lib.range_clients s.world s.clients in
          let now = lib.now s.world in
          let r = register_kite_client now order client_id (uri ∷ []) s.clients in
          (Keeps-persist r.0).at (record s { clients = r.1 })
            (after-Step s r.1 sound (
              registers_kite now order client_id uri
                (laws.visits s.world s.clients sound.clients.distinct) n));
    }

    Keeps-register_drawn :
        (client_id client_secret : String) (uris : List String) (name : String)
        → client_id ≢ ""
        → length uris ≤ max_redirect_uris
        → Keeps (register_drawn lib h (some client_id) (some client_secret) uris name)
    unfolding register_drawn
    Keeps-register_drawn client_id client_secret uris name n l = record {
      at = λ s sound.
          let order = lib.range_clients s.world s.clients in
          let now = lib.now s.world in
          let r = register client_id client_secret now order uris name s.clients in
          (Keeps-bind {B = Option (String × String)} (persist lib h (some r.0))
              (λ _. pure (some (client_id, client_secret))) (Keeps-persist (some r.0))
              (λ _. Keeps-pure _)).at
            (record s { clients = r.1 })
            (after-Step s r.1 sound (
              registers client_id client_secret now order uris name
                (laws.visits s.world s.clients sound.clients.distinct) n l));
    }

    random_hex-ne-nil :
        (n : ℕ) (w : W) (id : String) → (random_hex lib (suc n) w).0 ≡ some id → id ≢ ""
    unfolding random_hex
    random_hex-ne-nil n w id e = elim (Option-cases (lib.rand_read (suc n) w).0) [
      | inl failed ↦ absurd (ground arith)
      | inr (bytes, read) ↦
          let (size, small) = laws.filled (suc n) w bytes read in
          subst (λ (t : String). t ≢ "") (ground arith)
            (hex_encode-ne-nil bytes small (omega (arith, size)))
    ]

    Keeps-drawn :
        (client_id client_secret : Option String) (uris : List String) (name : String)
        → ((id : String) → client_id ≡ some id → id ≢ "")
        → length uris ≤ max_redirect_uris
        → Keeps (register_drawn lib h client_id client_secret uris name)
    Keeps-drawn none client_secret uris name n l = unfold register_drawn in Keeps-pure none
    Keeps-drawn (some id) none uris name n l = unfold register_drawn in Keeps-pure none
    Keeps-drawn (some id) (some secret) uris name n l =
        Keeps-register_drawn id secret uris name (n id refl) l

    Keeps-draw_secret : (client_id : Option String) → Keeps (draw_secret lib h client_id)
    Keeps-draw_secret none = Keeps-pure none
    Keeps-draw_secret (some id) = Keeps-outside (random_hex lib 32)

    pub Keeps-register_client :
        (uris : List String) (name : String)
        → length uris ≤ max_redirect_uris
        → Keeps (register_client lib h uris name)
    unfolding register_client
    Keeps-register_client uris name l = record {
      at = λ s sound.
          let first = random_hex lib 16 s.world in
          (Keeps-bind (draw_secret lib h first.0)
              (λ secret. register_drawn lib h first.0 secret uris name) (Keeps-draw_secret first.0)
              (λ secret. Keeps-drawn first.0 secret uris name (random_hex-ne-nil 15 s.world) l)).at
            (record s { world = first.1 })
            (record { codes = sound.codes; clients = sound.clients; few = sound.few });
    }
