-- ===== src/Engine/Decision/Admission.antt =====
-- The scope-only admission `user_covers` (scoped_access/engine.py), and that every permission on
-- an object comes with it.
use django_auth_with_scoped.Base.{
  ℕ, ◌≡◌, refl, ◌↔◌, ◌⊎◌, inl, inr, Bool, true, false, ◌&&◌, Option, some, List, [], ◌∷◌, String,
  arith, nat_eq, string_eq, any, any_sound, any_complete, Bool-cases,
}
use django_auth_with_scoped.World.{Obj}
use django_auth_with_scoped.Models.{User, Granted, Db}
use django_auth_with_scoped.Config.{Env}
use django_auth_with_scoped.Engine.Scope.{
  Anchor, node, global, denied, unregistered, resolve_anchor, assignment_is_valid, covers_anchor,
}
use django_auth_with_scoped.Engine.Scope.Ancestors.{HasFiniteDepth}
use django_auth_with_scoped.Engine.Scope.Coverage.{covers_anchor_iff}
use django_auth_with_scoped.Engine.Decision.{
  effective_assignments, anchor_of, has_perm, any_covers, user_covers,
}
use django_auth_with_scoped.Engine.Decision.Access.{
  IsCovered, IsAuthorized, mem-effective_assignments, has_perm_iff,
}

module _ (env : Env) (db : Db) where
  -- what the scope admission asks for, of an active user who is no superuser
  abbrev pub IsAdmitted : User → Option ℕ → Anchor → Type 0
  IsAdmitted user at global = Unit {0}
  IsAdmitted user at anchor = IsCovered env db user at anchor

  covers_test : Anchor → Granted → Bool
  covers_test anchor g = assignment_is_valid env g && covers_anchor env g.assignment anchor

  any_covers_node :
      (n : Obj) (gs : List Granted) → any_covers env db (node n) gs ≡ any (covers_test (node n)) gs
  unfolding any_covers any covers_test covers_anchor
  any_covers_node n [] = refl
  any_covers_node n (g ∷ gs) = ground (arith, any_covers_node n gs)

  any_covers_denied :
      (gs : List Granted) → any_covers env db denied gs ≡ any (covers_test denied) gs
  unfolding any_covers any covers_test covers_anchor
  any_covers_denied [] = refl
  any_covers_denied (g ∷ gs) = ground (arith, any_covers_denied gs)

  module _ (finite : HasFiniteDepth env) where
    any_covers_iff :
        (user : User) (at : Option ℕ) (anchor : Anchor)
        → (any (covers_test anchor) (effective_assignments env db user at) ≡ true)
          ↔ IsCovered env db user at anchor
    unfolding covers_test
    any_covers_iff user at anchor = (
      λ h.
          let (g, m, q) = any_sound (covers_test anchor) _ h in
          (
            g,
            (mem-effective_assignments env db user at g).0 (m, ground arith),
            (covers_anchor_iff env finite g.assignment anchor).0 (ground arith),
          ),
      λ (g, inforce, c).
          any_complete (covers_test anchor)
            ((mem-effective_assignments env db user at g).1 inforce).0
            (rw (inforce.valid, (covers_anchor_iff env finite g.assignment anchor).1 c) refl),
    )

    IsAdmitted-iff :
        (user : User) (at : Option ℕ) (anchor : Anchor)
        → (elim anchor [
          | global ↦ true
          | unregistered ↦ false
          | node n ↦ any_covers env db (node n) (effective_assignments env db user at)
          | denied ↦ any_covers env db denied (effective_assignments env db user at)
        ]
            ≡ true)
          ↔ IsAdmitted user at anchor
    IsAdmitted-iff user at global = ground arith
    IsAdmitted-iff user at unregistered = (λ h. absurd (ground arith), λ (_, _, c). absurd c)
    IsAdmitted-iff user at denied = rw any_covers_denied (any_covers_iff user at denied)
    IsAdmitted-iff user at (node n) = rw any_covers_node (any_covers_iff user at (node n))

    -- A user is admitted to an object exactly when the account is active, and it is a
    -- superuser's, or the object is global, or some assignment in force covers the object's
    -- anchor. It holds where parents lead to smaller depths (HasFiniteDepth).
    pub user_covers_iff :
        (user : User) (obj : Obj) (at : Option ℕ)
        → (user_covers env db user obj at ≡ true) ↔ (
            (user.is_active ≡ true)
            × ((user.is_superuser ≡ true) ⊎ IsAdmitted user at (resolve_anchor env obj)))
    unfolding user_covers
    user_covers_iff user obj at =
        let iff = IsAdmitted-iff user at (resolve_anchor env obj) in
        (
          λ h. elim (Bool-cases user.is_active) [
            | inr e ↦ absurd (ground arith)
            | inl e ↦ elim (Bool-cases user.is_superuser) [
              | inl s ↦ (e, inl s)
              | inr s ↦ (e, inr (iff.0 (rw (e, s) at h)))
            ]
          ],
          λ (e, who). elim who [
            | inl s ↦ ground arith
            | inr in_scope ↦ elim (Bool-cases user.is_superuser) [
              | inl s ↦ ground arith
              | inr s ↦ rw (e, s) (iff.1 in_scope)
            ]
          ],
        )

    IsAuthorized-IsAdmitted :
        (user : User) (perm : String) (at : Option ℕ) (anchor : Anchor)
        → IsAuthorized env db user perm at anchor
        → IsAdmitted user at anchor
    IsAuthorized-IsAdmitted user perm at global _ = tt
    IsAuthorized-IsAdmitted user perm at denied (g, inforce, c, _) = (g, inforce, c)
    IsAuthorized-IsAdmitted user perm at unregistered (g, inforce, c, _) = (g, inforce, c)
    IsAuthorized-IsAdmitted user perm at (node n) (g, inforce, c, _) = (g, inforce, c)

    -- Whoever has some permission on an object is admitted to it: the object check of a view
    -- never lets a user act outside the scope that the write guard enforces. It holds where
    -- parents lead to smaller depths (HasFiniteDepth).
    pub has_perm-user_covers :
        (user : User) (perm : String) (obj : Obj) (at : Option ℕ)
        → has_perm env db user perm (some obj) at ≡ true
        → user_covers env db user obj at ≡ true
    unfolding anchor_of
    has_perm-user_covers user perm obj at h =
        let (e, who) = (has_perm_iff env db finite user perm (some obj) at).0 h in
        (user_covers_iff user obj at).1 (
          e,
          elim who [
            | inl s ↦ inl s
            | inr auth ↦ inr (IsAuthorized-IsAdmitted user perm at (resolve_anchor env obj) auth)
          ],
        )
