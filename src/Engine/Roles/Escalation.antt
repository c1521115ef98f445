-- ===== src/Engine/Roles/Escalation.antt =====
-- Nobody delegates authority that they lack (scoped_access/engine.py: `can_grant_permission`,
-- `can_assign_role`), and inactive accounts have none.
use django_auth_with_scoped.Base.{
  ℕ, ◌≡◌, inl, inr, true, false, Option, none, some, String, arith, string_eq, contains,
  subset_sound, Option-cases,
}
use django_auth_with_scoped.World.{Obj}
use django_auth_with_scoped.Models.{User, Role, Db, role_perms, role_with}
use django_auth_with_scoped.Config.{Env, Policy}
use django_auth_with_scoped.Engine.Scope.{resolve_anchor}
use django_auth_with_scoped.Engine.Scope.Ancestors.{HasFiniteDepth}
use django_auth_with_scoped.Engine.Decision.{has_perm, user_covers, anchor_of}
use django_auth_with_scoped.Engine.Decision.Access.{IsAuthorized, user_permissions_iff}
use django_auth_with_scoped.Engine.Roles.{
  role_visible, owner_of, grantable, can_grant_permission, can_manage_role, can_manage_assignment,
  delegable, can_assign_row, can_assign_role,
}
use django_auth_with_scoped.Engine.Roles.Authority.{IsRootAuthorized, collect_root_iff}

module _ (env : Env) (db : Db) where
  -- The actor holds the permission where it would act: at the node, or globally.
  abbrev pub Holds : User → String → Option Obj → Option ℕ → Type 0
  Holds actor perm none at = IsRootAuthorized env db actor perm at
  Holds actor perm (some n) at = IsAuthorized env db actor perm at (resolve_anchor env n)

  module _ (finite : HasFiniteDepth env) where
    -- Under the policy "self", an actor who is no superuser may add to a role only a permission
    -- that the actor holds: at the owner of a custom role, globally for a system role. It holds
    -- where parents lead to smaller depths (HasFiniteDepth).
    pub can_grant_permission_self :
        (actor : User) (role : Role) (perm : String) (at : Option ℕ)
        → env.grantable_permissions ≡ Policy.self
        → actor.is_superuser ≡ false
        → can_grant_permission env db actor role perm at ≡ true
        → (owner : Option Obj) × (owner_of env db role ≡ some owner) × Holds actor perm owner at
    unfolding can_grant_permission grantable anchor_of
    can_grant_permission_self actor role perm at policy s h =
        elim (Option-cases (owner_of env db role)) [
          | inl e ↦ absurd (ground arith)
          | inr (none, e) ↦ (none, e, (collect_root_iff env db actor perm at).0 (ground arith))
          | inr (some owner, e) ↦ (
            some owner,
            e,
            ((user_permissions_iff env db finite actor perm (some owner) at).0 (ground arith)).1,
          )
        ]

    delegable_self :
        (actor : User) (role : Role) (scope : Option Obj) (at : Option ℕ) (perm : String)
        → delegable env db Policy.self actor role scope at ≡ true
        → contains perm (role_perms db role) ≡ true
        → Holds actor perm scope at
    unfolding delegable anchor_of
    delegable_self actor role none at perm h p =
        (collect_root_iff env db actor perm at).0 (subset_sound perm _ _ h p)
    delegable_self actor role (some n) at perm h p =
        ((user_permissions_iff env db finite actor perm (some n) at).0
          (subset_sound perm _ _ h p)).1

    -- Under the policy "self", an actor who is no superuser may assign a role only if every
    -- permission of the role's stored row is one that the actor holds at the target scope. It
    -- holds where parents lead to smaller depths (HasFiniteDepth).
    pub can_assign_role_self :
        (actor : User) (role : Role) (level : Option ℕ) (scope : Option Obj) (at : Option ℕ)
        → env.grantable_permissions ≡ Policy.self
        → actor.is_superuser ≡ false
        → can_assign_role env db (some actor) role level scope at ≡ true
        → (pk : ℕ) × (row : Role) × (role.pk ≡ some pk)
          × (role_with db pk ≡ some row)
          × ((perm : String) → contains perm (role_perms db row) ≡ true → Holds actor perm scope at)
    unfolding can_assign_role can_assign_row
    can_assign_role_self actor role level scope at policy s h = elim (Option-cases role.pk) [
      | inl e ↦ absurd (ground arith)
      | inr (pk, e) ↦ elim (Option-cases (role_with db pk)) [
        | inl e' ↦ absurd (ground arith)
        | inr (row, e') ↦
            (pk, row, e, e', λ perm p. delegable_self actor row scope at perm (ground arith) p)
      ]
    ]

  -- An inactive account is refused everything, superuser or not, and so is a missing actor.
  pub inactive_refused :
      (user : User) (perm : String) (role : Role) (obj : Option Obj) (o : Obj) (level : Option ℕ)
      (at : Option ℕ)
      → user.is_active ≡ false
      → (has_perm env db user perm obj at ≡ false)
        × (user_covers env db user o at ≡ false)
        × (role_visible env db user role at ≡ false)
        × (can_grant_permission env db user role perm at ≡ false)
        × (can_manage_role env db (some user) role at ≡ false)
        × (can_manage_assignment env db (some user) obj at ≡ false)
        × (can_assign_role env db (some user) role level obj at ≡ false)
        × (can_manage_role env db none role at ≡ false)
        × (can_manage_assignment env db none obj at ≡ false)
        × (can_assign_role env db none role level obj at ≡ false)
  unfolding has_perm user_covers role_visible can_grant_permission can_manage_role
      can_manage_assignment can_assign_role
  inactive_refused user perm role obj o level at e = ground arith
