-- ===== src/Prelude/Maps.antt =====
-- Go's `map[string]V`: a list of bindings with distinct keys, in an order that no result depends on.
use Prim.Native.Nat.{◌+◌, ◌≤◌}
use Prim.Native.String.{String}
use mathlib.Core.Path.{◌≡◌, refl}
use mathlib.Core.Bool.{Bool}
use mathlib.Core.Option.{Option, none, some}
use mathlib.Core.List.{List, [], ◌∷◌}
use native.Mathlib.Omega.{arith}
use text.Mathlib.Text.{◌==◌}
use text.Mathlib.TextEquality.{eq_iff}
use package.kite_mcp_oauth.Prelude.Tests.{if◌then◌else◌}
use package.kite_mcp_oauth.Prelude.Lists.{length}

abbrev pub Dict {ℓ} : Type ℓ → Type ℓ
Dict V = List (String × V)

module _ {ℓ} {V : Type ℓ} where
  -- `m[k]`
  unfoldable pub lookup : String → Dict V → Option V
  lookup key [] = none
  lookup key ((at, value) ∷ rest) = if at == key then some value else lookup key rest

  -- `m[k] = v`
  unfoldable pub insert : String → V → Dict V → Dict V
  insert key value [] = (key, value) ∷ []
  insert key value ((at, old) ∷ rest) =
      if at == key then (key, value) ∷ rest else (at, old) ∷ insert key value rest

  -- `delete(m, k)`
  unfoldable pub delete : String → Dict V → Dict V
  delete key [] = []
  delete key ((at, old) ∷ rest) =
      let kept = delete key rest in if at == key then kept else (at, old) ∷ kept

  -- `for k, v := range m { if drop(v) { delete(m, k) } }`
  unfoldable pub delete_if : (V → Bool) → Dict V → Dict V
  delete_if drop [] = []
  delete_if drop ((at, old) ∷ rest) =
      let kept = delete_if drop rest in if drop old then kept else (at, old) ∷ kept

  -- No key has two bindings.
  abbrev pub IsDict : Dict V → Type ℓ
  IsDict [] = Unit
  IsDict ((key, value) ∷ rest) = (lookup key rest ≡ none) × IsDict rest

  pub lookup-insert :
      (key at : String) (value : V) (rest : Dict V)
      → lookup at (insert key value rest) ≡ (if key == at then some value else lookup at rest)
  unfolding lookup insert
  lookup-insert key at value [] = refl
  lookup-insert key at value ((first, old) ∷ rest) =
      ground
        (arith, eq_iff key at, eq_iff first key, eq_iff first at, lookup-insert key at value rest)

  pub lookup-delete :
      (key at : String) (rest : Dict V)
      → lookup at (delete key rest) ≡ (if key == at then none else lookup at rest)
  unfolding lookup delete
  lookup-delete key at [] = ground arith
  lookup-delete key at ((first, old) ∷ rest) =
      ground (arith, eq_iff key at, eq_iff first key, eq_iff first at, lookup-delete key at rest)

  pub length-insert-le :
      (key : String) (value : V) (rest : Dict V) → length (insert key value rest) ≤ length rest + 1
  unfolding insert
  length-insert-le key value [] = omega arith
  length-insert-le key value ((at, old) ∷ rest) = ground (arith, length-insert-le key value rest)

  pub length-delete-le : (key : String) (rest : Dict V) → length (delete key rest) ≤ length rest
  unfolding delete
  length-delete-le key [] = omega arith
  length-delete-le key ((at, old) ∷ rest) = ground (arith, length-delete-le key rest)

  pub length-delete :
      (key : String) (value : V) (rest : Dict V)
      → lookup key rest ≡ some value
      → length (delete key rest) + 1 ≤ length rest
  unfolding lookup delete
  length-delete key value [] h = cc
  length-delete key value ((at, old) ∷ rest) h =
      ground (arith, length-delete key value rest, length-delete-le key rest)

  pub length-delete_if-le : (p : V → Bool) (rest : Dict V) → length (delete_if p rest) ≤ length rest
  unfolding delete_if
  length-delete_if-le p [] = omega arith
  length-delete_if-le p ((at, old) ∷ rest) = ground (arith, length-delete_if-le p rest)

  pub insert-IsDict :
      (key : String) (value : V) (rest : Dict V) → IsDict rest → IsDict (insert key value rest)
  unfolding insert
  insert-IsDict key value [] h = (unfold lookup in refl, tt)
  insert-IsDict key value ((at, old) ∷ rest) h = ground (
    arith,
    insert-IsDict key value rest,
    lookup-insert key at value rest,
    eq_iff at key,
    eq_iff key at,
  )

  pub delete-IsDict : (key : String) (rest : Dict V) → IsDict rest → IsDict (delete key rest)
  unfolding delete
  delete-IsDict key [] h = tt
  delete-IsDict key ((at, old) ∷ rest) h =
      ground (arith, delete-IsDict key rest, lookup-delete key at rest)

  -- Deleting by a test on the value keeps exactly the bindings that fail the test.
  lookup-delete_if-none :
      (p : V → Bool) (key : String) (rest : Dict V)
      → lookup key rest ≡ none
      → lookup key (delete_if p rest) ≡ none
  unfolding lookup delete_if
  lookup-delete_if-none p key [] h = refl
  lookup-delete_if-none p key ((at, old) ∷ rest) h =
      ground (arith, lookup-delete_if-none p key rest)

  abbrev pub keep_unless : (V → Bool) → Option V → Option V
  keep_unless p none = none
  keep_unless p (some value) = if p value then none else some value

  pub lookup-delete_if :
      (p : V → Bool) (key : String) (rest : Dict V)
      → IsDict rest
      → lookup key (delete_if p rest) ≡ keep_unless p (lookup key rest)
  unfolding lookup delete_if
  lookup-delete_if p key [] h = refl
  lookup-delete_if p key ((at, old) ∷ rest) h =
      ground (arith, lookup-delete_if p key rest, lookup-delete_if-none p at rest, eq_iff at key)

  pub delete_if-IsDict : (p : V → Bool) (rest : Dict V) → IsDict rest → IsDict (delete_if p rest)
  unfolding delete_if
  delete_if-IsDict p [] h = tt
  delete_if-IsDict p ((at, old) ∷ rest) h =
      ground (arith, delete_if-IsDict p rest, lookup-delete_if-none p at rest)
