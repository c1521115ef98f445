-- ===== src/Rest/Permissions.antt =====
-- The permission classes (scoped_access/drf/permissions.py).
use django_auth_with_scoped.Base.{
  ℕ, Bool, true, not, Option, none, some, List, [], ◌∷◌, String, Dict, all, if◌then◌else◌,
}
use django_auth_with_scoped.World.{Obj}
use django_auth_with_scoped.Models.{User, Db}
use django_auth_with_scoped.Config.{Env}
use django_auth_with_scoped.Engine.Decision.{has_perm, user_covers}
use django_auth_with_scoped.Reauth
use django_auth_with_scoped.Rest.{
  Answer, ok, raised, then_do, permission_denied, outside_scope, reauth_required,
}

-- `perms_map`: the templates of the permissions that a method needs
abbrev pub PermsMap : Type 0
PermsMap = Dict String (List String)

-- `ScopedModelPermission.perms_map`
abbrev pub perms_map : PermsMap
perms_map =
    ("GET", "%(app_label)s.view_%(model_name)s" ∷ [])
    ∷ ("OPTIONS", [])
    ∷ ("HEAD", "%(app_label)s.view_%(model_name)s" ∷ [])
    ∷ ("POST", "%(app_label)s.add_%(model_name)s" ∷ [])
    ∷ ("PUT", "%(app_label)s.change_%(model_name)s" ∷ [])
    ∷ ("PATCH", "%(app_label)s.change_%(model_name)s" ∷ [])
    ∷ ("DELETE", "%(app_label)s.delete_%(model_name)s" ∷ [])
    ∷ []

-- `get_required_permissions` of Django REST framework: the permissions that a map gives for a
-- method and a model, or `MethodNotAllowed`
abbrev pub Required : Type 0
Required = PermsMap → String → ℕ → Answer (List String)

module _ (env : Env) (db : Db) (user : User) where
  module _ (required : Required) where
    -- `ScopedModelPermission.has_object_permission`
    unfoldable pub model_has_object_permission : PermsMap → String → Obj → Answer Bool
    unfolding all
    model_has_object_permission perms method obj =
        then_do (required perms method obj.model) (λ permissions.
          if all (λ permission. has_perm env db user permission (some obj) none) permissions
          then ok true
          else raised permission_denied)

  -- `ScopeObjectPermission.has_object_permission`
  unfoldable pub scope_has_object_permission : Obj → Answer Bool
  scope_has_object_permission obj =
      if user_covers env db user obj none then ok true else raised outside_scope

  -- what `_assert_target_scope` asks of an object, with the required permissions
  unfoldable pub target_allowed : List String → Obj → Bool
  unfolding all
  target_allowed [] obj = user_covers env db user obj none
  target_allowed (p ∷ ps) obj = all (λ q. has_perm env db user q (some obj) none) (p ∷ ps)

-- `RequireReAuth.has_permission` and, with `fresh`, that of `RequireFreshReAuth`; the token is that
-- of the header
module _ (secrets : ℕ → ℕ) (settings : Reauth.Settings) (enabled : Bool) where
  unfoldable pub reauth_has_permission :
      Bool → Option ℕ → User → Reauth.State → Answer Bool × Reauth.State
  reauth_has_permission fresh token user s =
      let (accepted, after) = Reauth.consume secrets settings token user none fresh s in
      if not enabled
      then (ok true, s)
      else if not accepted
      then (raised reauth_required, after)
      else (ok true, after)
