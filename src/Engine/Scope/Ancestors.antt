-- ===== src/Engine/Scope/Ancestors.antt =====
-- `iter_ancestors` (scoped_access/engine.py) against the relation "is above".
use mathlib.Core.List.Memᴰ
use django_auth_with_scoped.Base.{
  ℕ, zero, suc, ◌<◌, ◌≤◌, ◌≡◌, refl, sym, ◌↔◌, inl, inr, some, Memᴰ, arith, Option-cases, subst,
}
use django_auth_with_scoped.World.{Obj}
use django_auth_with_scoped.Config.{Env}
use django_auth_with_scoped.Engine.Scope.{parent_of, walk, iter_ancestors}

-- The parent links of the host's nodes do not run in circles: each one goes to a smaller depth.
abbrev pub HasFiniteDepth : Env → Type 0
HasFiniteDepth env = (n up : Obj) → parent_of env n ≡ some up → env.depth up < env.depth n

-- `IsAncestor env n a`: `a` is `n`, or is above it.
pub data IsAncestor (env : Env) : Obj → Obj → Type 0 where
  itself : {n : Obj} → IsAncestor env n n
  above : {n up a : Obj} → parent_of env n ≡ some up → IsAncestor env up a → IsAncestor env n a

pub IsAncestor-trans :
    {env : Env} {n m a : Obj} → IsAncestor env n m → IsAncestor env m a → IsAncestor env n a
IsAncestor-trans itself k = k
IsAncestor-trans (above p h) k = above p (IsAncestor-trans h k)

module _ (env : Env) where
  walk_sound : (fuel : ℕ) (n a : Obj) → Memᴰ a (walk env fuel n) → IsAncestor env n a
  unfolding walk
  walk_sound zero n a m = elim m [ ]
  walk_sound (suc fuel) n a m = elim (Memᴰ.cases_cons m) [
    | inl e ↦ subst (IsAncestor env n) (sym e) itself
    | inr r ↦ elim (Option-cases (parent_of env n)) [
      | inl top ↦ elim (rw (top, walk) at r) [ ]
      | inr (up, e) ↦ above e (walk_sound fuel up a (rw (e, walk) at r))
    ]
  ]

  module _ (finite : HasFiniteDepth env) where
    walk_complete :
        (fuel : ℕ) {n a : Obj} → IsAncestor env n a → env.depth n < fuel → Memᴰ a (walk env fuel n)
    unfolding walk
    walk_complete zero h lt = absurd (omega arith)
    walk_complete (suc fuel) itself lt = Memᴰ.head refl
    walk_complete (suc fuel) (above {n} {up} e h) lt =
        Memᴰ.tail (rw e (walk_complete fuel h (omega (arith, finite n up e))))

    -- The walk gives exactly the node and those above it. It holds where parents lead to smaller
    -- depths (HasFiniteDepth).
    pub iter_ancestors_iff : (n a : Obj) → Memᴰ a (iter_ancestors env n) ↔ IsAncestor env n a
    unfolding iter_ancestors
    iter_ancestors_iff n a =
        (walk_sound (suc (env.depth n)) n a, λ h. walk_complete (suc (env.depth n)) h (omega arith))

  pub IsAncestor-depth-le :
      HasFiniteDepth env → {n a : Obj} → IsAncestor env n a → env.depth a ≤ env.depth n
  IsAncestor-depth-le finite itself = omega arith
  IsAncestor-depth-le finite (above {n} {up} e h) =
      omega (arith, finite n up e, IsAncestor-depth-le finite h)
