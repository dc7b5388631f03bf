-- ===== src/Handler/Inversion.antt =====
-- Inversion of actions that go on: what each of their parts gave.
use kite_mcp_oauth.Prelude.{◌≡◌, refl, ap}
use kite_mcp_oauth.Http.{Reply}
use kite_mcp_oauth.Handler.{State, Flow, go, stop, Handling, continue, ◌>>=◌}

module _ {W A B : Type 0} where
  continue-eq-go :
      (r : Flow A) (f : A → Handling W B) (s t : State W) (b : B)
      → continue r f s ≡ (go b, t)
      → (a : A) × (r ≡ go a) × (f a s ≡ (go b, t))
  continue-eq-go (go a) f s t b h = (a, refl, h)
  continue-eq-go (stop r) f s t b h = cc

  pub bind-eq-go :
      (m : Handling W A) (f : A → Handling W B) (s t : State W) (b : B)
      → (m >>= f) s ≡ (go b, t)
      → (a : A) × (u : State W) × (m s ≡ (go a, u)) × (f a u ≡ (go b, t))
  unfolding ◌>>=◌
  bind-eq-go m f s t b h =
      let (a, e, k) = continue-eq-go (m s).0 f (m s).1 t b h in (a, (m s).1, cc, k)

  pub bind-go :
      (m : Handling W A) (f : A → Handling W B) (s u : State W) (a : A)
      → m s ≡ (go a, u)
      → (m >>= f) s ≡ f a u
  unfolding ◌>>=◌
  bind-go m f s u a h = ap (λ (p : Flow A × State W). continue p.0 f p.1) h

  pub bind-stop :
      (m : Handling W A) (f : A → Handling W B) (s u : State W) (reply : Reply)
      → m s ≡ (stop reply, u)
      → (m >>= f) s ≡ (stop reply, u)
  unfolding ◌>>=◌
  bind-stop m f s u reply h = ap (λ (p : Flow A × State W). continue p.0 f p.1) h

  -- The two ways in which a sequence of actions runs.
  pub data Bound (m : Handling W A) (f : A → Handling W B) (s t : State W) (r : Flow B)
      : Type 0 where
    stopped : (reply : Reply) → m s ≡ (stop reply, t) → r ≡ stop reply → Bound m f s t r
    went_on : (a : A) (u : State W) → m s ≡ (go a, u) → f a u ≡ (r, t) → Bound m f s t r

  continue-cases :
      (m : Handling W A) (f : A → Handling W B) (s t : State W) (r : Flow B) (p : Flow A)
      → (m s).0 ≡ p
      → continue p f (m s).1 ≡ (r, t)
      → Bound m f s t r
  continue-cases m f s t r (go a) e h = went_on a (m s).1 (cc) h
  continue-cases m f s t r (stop reply) e h = stopped reply (cc) (cc)

  pub bind-cases :
      (m : Handling W A) (f : A → Handling W B) (s t : State W) (r : Flow B)
      → (m >>= f) s ≡ (r, t)
      → Bound m f s t r
  unfolding ◌>>=◌
  bind-cases m f s t r h = continue-cases m f s t r (m s).0 refl h
