-- ===== src/Handler/Keeps.antt =====
-- Which actions of the handlers keep the two stores of stores.go well formed and within their bounds:
-- one rule for each way to build an action, and one for each call of a store.
pub mod Stores
pub mod Cookies
use kite_mcp_oauth.Prelude.{
  ℕ, ◌≤◌, ◌<◌, String, Bool, true, false, ◌≡◌, ◌≢◌, refl, ap, Option, none, some, List, [], ◌∷◌,
  arith, eq_iff, if◌then◌else◌, length, IsDict, All, Option-cases, inl, inr, ◌==◌, ◌<>◌, get_or,
}
use kite_mcp_oauth.Random.{hex_encode, random_hex}
use kite_mcp_oauth.Http.{Cookie, Reply}
use kite_mcp_oauth.AuthCodes.{AuthCodeEntry, AuthCodeStore}
use kite_mcp_oauth.AuthCodes.Capacity
use kite_mcp_oauth.AuthCodes.Capacity.{generate-IsBounded, consume-IsBounded}
use kite_mcp_oauth.Clients.{ClientStore, max_redirect_uris}
use kite_mcp_oauth.Clients.Eviction.{Visits}
use kite_mcp_oauth.Clients.Registration
use kite_mcp_oauth.Clients.Redirects.{HasFewUris}
use kite_mcp_oauth.Services.{Library}
use kite_mcp_oauth.Handler.{
  Handler, State, Template, missing, parsed, Flow, go, stop, Handling, continue, pure, respond,
  gets, or_respond, outside, respond_if, set_cookie, ◌>>=◌,
}
use kite_mcp_oauth.Handler.Stores.{
  generate_code, consume_code, persist, register_drawn, register_client, register_kite, add_uri,
}

-- The codes and the clients have distinct keys, are not more than their limits, and no client has an
-- empty id or more redirect URIs than the limit.
pub record IsSound {W : Type 0} (s : State W) : Type 0 where
  pub codes : Capacity.IsBounded s.auth_codes
  pub clients : Registration.IsBounded s.clients
  pub few : HasFewUris s.clients

-- The action keeps the stores sound, whether it goes on or responds.
pub record Keeps {W A : Type 0} (m : Handling W A) : Type 0 where
  pub at : (s : State W) → IsSound s → IsSound (m s).1

module _ {W A : Type 0} where
  pub Keeps-pure : (a : A) → Keeps {W = W} (pure a)
  unfolding pure
  Keeps-pure a = record { at = λ s h. h }

  pub Keeps-respond : (r : Reply) → Keeps {W = W} {A = A} (respond r)
  unfolding respond
  Keeps-respond r = record { at = λ s h. h }

  pub Keeps-gets : (f : State W → A) → Keeps (gets f)
  unfolding gets
  Keeps-gets f = record { at = λ s h. h }

  pub Keeps-or_respond : (o : Option A) (r : Reply) → Keeps {W = W} (or_respond o r)
  unfolding or_respond
  Keeps-or_respond none r = record { at = λ s h. h }
  Keeps-or_respond (some a) r = record { at = λ s h. h }

  pub Keeps-outside : (f : W → A × W) → Keeps (outside f)
  unfolding outside
  Keeps-outside f = record {
    at = λ s h. record { codes = h.codes; clients = h.clients; few = h.few };
  }

  pub Keeps-if : (b : Bool) (m n : Handling W A) → Keeps m → Keeps n → Keeps (if b then m else n)
  Keeps-if true m n km kn = km
  Keeps-if false m n km kn = kn

module _ {W A B : Type 0} where
  pub Keeps-option :
      (o : Option A) (m : Handling W B) (f : A → Handling W B)
      → Keeps m
      → ((a : A) → Keeps (f a))
      → Keeps (elim o [ none ↦ m | some a ↦ f a ])
  Keeps-option none m f km kf = km
  Keeps-option (some a) m f km kf = kf a

module _ {W A : Type 0} where
  pub Keeps-template :
      (t : Template) (m : Handling W A) (f : Bool → Handling W A)
      → Keeps m
      → ((executes : Bool) → Keeps (f executes))
      → Keeps (elim t [ missing ↦ m | parsed executes ↦ f executes ])
  Keeps-template missing m f km kf = km
  Keeps-template (parsed executes) m f km kf = kf executes

module _ {W : Type 0} where
  pub Keeps-respond_if : (b : Bool) (r : Reply) → Keeps {W = W} (respond_if b r)
  unfolding respond_if
  Keeps-respond_if true r = record { at = λ s h. h }
  Keeps-respond_if false r = record { at = λ s h. h }

  pub Keeps-set_cookie : (c : Cookie) → Keeps {W = W} (set_cookie c)
  unfolding set_cookie
  Keeps-set_cookie c = record {
    at = λ s h. record { codes = h.codes; clients = h.clients; few = h.few };
  }

module _ {W A B : Type 0} where
  Keeps-continue :
      (r : Flow A) (f : A → Handling W B) (s : State W)
      → ((a : A) → Keeps (f a))
      → IsSound s
      → IsSound (continue r f s).1
  Keeps-continue (go a) f s kf h = (kf a).at s h
  Keeps-continue (stop r) f s kf h = h

  pub Keeps-bind :
      (m : Handling W A) (f : A → Handling W B)
      → Keeps m
      → ((a : A) → Keeps (f a))
      → Keeps (m >>= f)
  unfolding ◌>>=◌
  Keeps-bind m f km kf = record { at = λ s h. Keeps-continue (m s).0 f (m s).1 kf (km.at s h) }

module _ {W A B : Type 0} where
  Keeps-continue_after :
      (m : Handling W A) (f : A → Handling W B) (s : State W) (r : Flow A) (u : State W)
      → m s ≡ (r, u)
      → ((a : A) → m s ≡ (go a, u) → Keeps (f a))
      → IsSound u
      → IsSound (continue r f u).1
  Keeps-continue_after m f s (go a) u e kf h = (kf a e).at u h
  Keeps-continue_after m f s (stop r) u e kf h = h

  -- The rest of a block may use that its beginning went on.
  pub Keeps-bind_after :
      (m : Handling W A) (f : A → Handling W B)
      → Keeps m
      → ((a : A) (s u : State W) → m s ≡ (go a, u) → Keeps (f a))
      → Keeps (m >>= f)
  unfolding ◌>>=◌
  Keeps-bind_after m f km kf = record {
    at = λ s h.
        Keeps-continue_after m f s (m s).0 (m s).1 refl (λ a e. kf a s (m s).1 e) (km.at s h);
  }

module _ {W B : Type 0} where
  -- The rest of a block may use that its guard let it pass.
  pub Keeps-guard :
      (b : Bool) (r : Reply) (f : Unit {0} → Handling W B)
      → (b ≡ false → Keeps (f tt))
      → Keeps (respond_if b r >>= f)
  unfolding ◌>>=◌ respond_if
  Keeps-guard true r f kf = record { at = λ s h. h }
  Keeps-guard false r f kf = record { at = λ s h. (kf refl).at s h }

pub ruleset keeps_rules = (
  Keeps-pure, Keeps-respond, Keeps-gets, Keeps-or_respond, Keeps-outside, Keeps-if,
  Keeps-respond_if, Keeps-set_cookie, Keeps-bind,
)
