-- ===== src/Base/Dicts.antt =====
-- A Python dict as an association list. The order of entries is not modelled.
use mathlib.Core.Path.{◌≡◌, refl}
use mathlib.Core.List.{List, [], ◌∷◌}
use mathlib.Core.Option.{Option, none, some}
use native.Mathlib.Omega.{arith}
use django_auth_with_scoped.Base.Tests.{if◌then◌else◌, HasEq, ◌==◌}

abbrev pub Dict {ℓ κ} : Type ℓ → Type κ → Type (ℓ ⊔ κ)
Dict K V = List (K × V)

module _ {ℓ κ} {K : Type ℓ} {V : Type κ} ⦃e : HasEq K⦄ where
  -- `d.get(k)`
  unfoldable pub lookup : K → Dict K V → Option V
  lookup k [] = none
  lookup k ((j, v) ∷ d) = if j == k then some v else lookup k d

  -- `d.pop(k, None)`
  unfoldable pub pop : K → Dict K V → Dict K V
  pop k [] = []
  pop k ((j, v) ∷ d) = let rest = pop k d in if j == k then rest else (j, v) ∷ rest

  -- `d[k] = v`
  unfoldable pub put : K → V → Dict K V → Dict K V
  put k v d = (k, v) ∷ pop k d

  pub lookup-pop :
      (k j : K) (d : Dict K V) → lookup j (pop k d) ≡ (if k == j then none else lookup j d)
  unfolding lookup pop
  lookup-pop k j [] = ground arith
  lookup-pop k j ((i, v) ∷ d) =
      ground (arith, lookup-pop k j d, e.same_iff i k, e.same_iff i j, e.same_iff k j)

  pub lookup-put :
      (k j : K) (v : V) (d : Dict K V)
      → lookup j (put k v d) ≡ (if k == j then some v else lookup j d)
  unfolding lookup put
  lookup-put k j v d = ground (arith, lookup-pop k j d)

  pub lookup-put_self : (k : K) (v : V) (d : Dict K V) → lookup k (put k v d) ≡ some v
  lookup-put_self k v d = ground (arith, lookup-put k k v d, (e.same_iff k k).1 refl)
