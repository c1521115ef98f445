-- ===== src/Engine/Roles.antt =====
-- Roles and ownership (scoped_access/engine.py): who sees, manages, extends and assigns a role.
-- `actor` is `None` where the caller gives none.
pub mod Authority
pub mod Escalation
use Prim.Native.String.{◌++◌}
use django_auth_with_scoped.Base.{
  ℕ, Bool, true, false, not, ◌&&◌, Option, none, some, List, [], ◌∷◌, String, if◌then◌else◌,
  string_eq, is_some, any, all, contains, union, subset,
}
use django_auth_with_scoped.World.{Obj}
use django_auth_with_scoped.Models.{User, Role, Granted, Db, is_root_scope, role_perms, role_with}
use django_auth_with_scoped.Config.{Env, Policy}
use django_auth_with_scoped.Engine.Scope.{
  role_owner_or_none, role_assignable, assignment_is_valid, covers,
}
use django_auth_with_scoped.Engine.Decision.{effective_assignments, user_permissions, has_perm}

-- `f"{app_label}.{codename}"`
abbrev pub permission : String → String → String
permission app codename = app ++ ("." ++ codename)

module _ (env : Env) (db : Db) where
  -- `role_visible` (R1)
  unfoldable pub role_visible : User → Role → Option ℕ → Bool
  role_visible user role at =
      if not user.is_active
      then false
      else if not (is_some role.owner_id)
      then true
      else elim (role_owner_or_none env role) [
        | none ↦ false
        | some owner ↦
            if user.is_superuser
            then true
            else any (λ g. covers env g owner) (effective_assignments env db user at)
      ]

  -- the loops that gather what the actor holds by root assignments
  unfoldable pub collect_root : List String → List Granted → List String
  collect_root held [] = held
  collect_root held (g ∷ gs) =
      collect_root
        (if assignment_is_valid env g && is_root_scope g.assignment
          then union held (role_perms db g.role)
          else held)
        gs

  -- the root test in `can_manage_role` and `can_manage_assignment`
  unfoldable pub holds_at_root : User → String → Option ℕ → Bool
  holds_at_root actor perm at =
      any
        (λ g.
          assignment_is_valid env g
          && (is_root_scope g.assignment && contains perm (role_perms db g.role)))
        (effective_assignments env db actor at)

  -- the owner of a role: none for a system role; `none` outside if a custom role's is missing
  unfoldable pub owner_of : Role → Option (Option Obj)
  owner_of role = elim role.owner_id [
    | none ↦ some none
    | some _ ↦ elim (role_owner_or_none env role) [ none ↦ none | some owner ↦ some (some owner) ]
  ]

  -- `can_grant_permission` (R5), under the policy
  unfoldable pub grantable : Policy → User → Role → Option Obj → String → Option ℕ → Bool
  grantable Policy.any actor role owner perm at = true
  grantable (Policy.listed perms) actor role owner perm at = contains perm perms
  grantable (Policy.callable policy) actor role owner perm at = policy actor role perm at
  grantable Policy.self actor role none perm at =
      contains perm (collect_root [] (effective_assignments env db actor at))
  grantable Policy.self actor role (some owner) perm at =
      contains perm (user_permissions env db actor (some owner) at)

  unfoldable pub can_grant_permission : User → Role → String → Option ℕ → Bool
  can_grant_permission actor role perm at =
      if not actor.is_active then false else elim (owner_of role) [
        | none ↦ false
        | some owner ↦
            if actor.is_superuser
            then true
            else grantable env.grantable_permissions actor role owner perm at
      ]

  -- the permission that `can_manage_role` asks for, for a system and for a custom role
  unfoldable pub manages_role : User → Option Obj → Option ℕ → Bool
  manages_role actor none at =
      holds_at_root actor (permission env.role_app "manage_global_roles") at
  manages_role actor (some owner) at =
      has_perm env db actor (permission env.role_app "manage_roles") (some owner) at

  -- `can_manage_role` (R4)
  unfoldable pub can_manage_role : Option User → Role → Option ℕ → Bool
  can_manage_role none role at = false
  can_manage_role (some actor) role at =
      if not actor.is_active then false else elim (owner_of role) [
        | none ↦ false
        | some owner ↦ if actor.is_superuser then true else manages_role actor owner at
      ]

  -- the permission that `can_manage_assignment` asks for, globally and at a node
  unfoldable pub manages_assignments : User → Option Obj → Option ℕ → Bool
  manages_assignments actor none at =
      holds_at_root actor (permission env.assignment_app "manage_assignments") at
  manages_assignments actor (some n) at =
      has_perm env db actor (permission env.assignment_app "manage_assignments") (some n) at

  -- `can_manage_assignment`
  unfoldable pub can_manage_assignment : Option User → Option Obj → Option ℕ → Bool
  can_manage_assignment none scope at = false
  can_manage_assignment (some actor) scope at =
      if not actor.is_active
      then false
      else if actor.is_superuser
      then true
      else manages_assignments actor scope at

  -- the policy part of `can_assign_role` (R7)
  unfoldable pub delegable : Policy → User → Role → Option Obj → Option ℕ → Bool
  delegable Policy.any actor role scope at = true
  delegable (Policy.listed perms) actor role scope at = subset (role_perms db role) perms
  delegable (Policy.callable policy) actor role scope at =
      all (λ perm. policy actor role perm at) (role_perms db role)
  delegable Policy.self actor role none at =
      subset (role_perms db role) (collect_root [] (effective_assignments env db actor at))
  delegable Policy.self actor role (some n) at =
      subset (role_perms db role) (user_permissions env db actor (some n) at)

  -- `can_assign_role`, from the role's persisted row on
  unfoldable pub can_assign_row : User → Role → Option ℕ → Option Obj → Option ℕ → Bool
  can_assign_row actor role level_name scope at =
      if not (role_assignable env role level_name scope)
      then false
      else if actor.is_superuser
      then true
      else if not (role_visible actor role at)
      then false
      else delegable env.grantable_permissions actor role scope at

  unfoldable pub can_assign_role : Option User → Role → Option ℕ → Option Obj → Option ℕ → Bool
  can_assign_role none role level_name scope at = false
  can_assign_role (some actor) role level_name scope at =
      if not actor.is_active then false else elim role.pk [
        | none ↦ false
        | some pk ↦ elim (role_with db pk) [
          | none ↦ false
          | some row ↦ can_assign_row actor row level_name scope at
        ]
      ]
