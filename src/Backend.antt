-- ===== src/Backend.antt =====
-- The authentication backend (scoped_access/backends.py: `ScopedPermissionBackend`).
use Prim.Native.Char.{code}
use Prim.Native.String.{◌++◌}
use django_auth_with_scoped.Base.{
  ◌≡◌, ◌↔◌, ◌⊎◌, inl, inr, Bool, true, false, not, ◌&&◌, Option, none, List, arith, String,
  if◌then◌else◌, ◌==◌, nat_eq, string_eq, any, any_sound, any_complete, contains-mem, mem-contains,
  Bool-cases,
}
use django_auth_with_scoped.World.{Obj}
use django_auth_with_scoped.Models.{User, Db}
use django_auth_with_scoped.Config.{Env}
use django_auth_with_scoped.Engine.Decision.{has_perm, user_permissions}

-- `text.startswith(prefix)`
unfoldable pub startswith : String → String → Bool
startswith String.[] text = true
startswith (String.◌∷◌ c prefix) String.[] = false
startswith (String.◌∷◌ c prefix) (String.◌∷◌ d text) = code c == code d && startswith prefix text

-- `f"{app_label}."`
abbrev pub app_prefix : String → String
app_prefix app_label = app_label ++ "."

-- `authenticate`: credentials are for another backend
unfoldable pub authenticate : Option User
authenticate = none

module _ (env : Env) (db : Db) (user : User) where
  -- `has_perm`
  unfoldable pub backend_has_perm : String → Option Obj → Bool
  backend_has_perm perm obj = has_perm env db user perm obj none

  unfoldable pub get_all_permissions : Option Obj → List String
  get_all_permissions obj = user_permissions env db user obj none

  unfoldable pub has_module_perms : String → Bool
  unfolding any
  has_module_perms app_label =
      if not user.is_active
      then false
      else if user.is_superuser
      then true
      else any (λ p. startswith (app_prefix app_label) p) (user_permissions env db user none none)

  -- Who has permissions in an app has one of them: `has_module_perms` says yes exactly to an active
  -- user who is a superuser, or to whom `has_perm`, without an object, grants a permission whose
  -- name starts with the label of the app and a dot.
  pub has_module_perms_iff :
      (app_label : String)
      → (has_module_perms app_label ≡ true) ↔ (
          (user.is_active ≡ true)
          × ((user.is_superuser ≡ true)
              ⊎ ((p : String) × (startswith (app_prefix app_label) p ≡ true)
                  × (backend_has_perm p none ≡ true))))
  unfolding has_module_perms backend_has_perm has_perm
  has_module_perms_iff app_label = (
    λ h. elim (Bool-cases user.is_active) [
      | inr inactive ↦ absurd (ground (arith, inactive, h))
      | inl active ↦ elim (Bool-cases user.is_superuser) [
        | inl super ↦ (active, inl super)
        | inr plain ↦
            let (p, m, starts) =
              any_sound (λ p. startswith (app_prefix app_label) p)
                (user_permissions env db user none none) (ground (arith, active, plain, h)) in
            (active, inr (p, starts, ground (arith, active, plain, mem-contains m)))
      ]
    ],
    λ (active, who). elim (Bool-cases user.is_superuser) [
      | inl super ↦ ground (arith, active, super)
      | inr plain ↦ elim who [
        | inl super ↦ absurd (ground (arith, plain, super))
        | inr (p, starts, has) ↦
            let m =
              contains-mem p (user_permissions env db user none none)
                (ground (arith, active, plain, has)) in
            ground (
              arith,
              active,
              plain,
              any_complete (λ q. startswith (app_prefix app_label) q) m starts,
            )
      ]
    ],
  )
