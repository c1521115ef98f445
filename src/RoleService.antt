-- ===== src/RoleService.antt =====
-- Changes of roles and of their permissions (scoped_access/services.py: `RoleService`;
-- scoped_access/models.py: `_validate_owner`, `save`, `grant_permissions`, `revoke_permissions`).
-- A role instance is a value that goes in and comes out; `role.owner` is read from its reference.
pub mod Outcome
pub mod Edits
use django_auth_with_scoped.Base.{
  ℕ, Bool, true, false, not, ◌&&◌, ◌||◌, Option, none, some, List, [], ◌∷◌, ◌++◌, map, String,
  if◌then◌else◌, ◌==◌, nat_eq, option_eq, is_some, any, filter, contains, get_or,
}
use django_auth_with_scoped.World.{Obj, Fetched}
use django_auth_with_scoped.Models.{User, Permission, label, Role, Db, Assignment}
use django_auth_with_scoped.Config.{Env}
use django_auth_with_scoped.Engine.Decision.{sorted}
use django_auth_with_scoped.Engine.Roles.{can_manage_role, can_grant_permission}
use django_auth_with_scoped.Cache.{invalidate_all}
use django_auth_with_scoped.Exec.{
  Error, role_management, role_ownership, type_error, value_error, does_not_exist, integrity_error,
  protected_error, receiver_error, Result, ok, err, Exec, ensure, continue, ◌>>=◌, ◌>>◌,
}
use django_auth_with_scoped.Transaction.{all, RoleEvent, Session, atomic}
use django_auth_with_scoped.Granting.{sql_eq, only_name, matching_levels, refresh_for_mutation}

-- The changes given to `RoleService.update`; `unknown` are the names of other fields.
pub record Edit : Type 0 where
  pub name : Option ℕ
  pub description : Option String
  pub owner : Option (Option Obj)
  pub owner_level : Option (Option ℕ)
  pub unknown : List ℕ

-- two roles that the unique constraints on names refuse
unfoldable pub same_name : Role → Role → Bool
same_name a b =
    a.name == b.name
    && ((sql_eq a.owner_ct_id b.owner_ct_id && sql_eq a.owner_id b.owner_id)
        || (not (is_some a.owner_id) && not (is_some b.owner_id)))

-- the rows of other roles
unfoldable pub others : Option ℕ → List Role → List Role
others pk roles = filter (λ r. not (r.pk == pk)) roles

-- `super().save()`: a role with no key gets one; no row may break a constraint
unfoldable pub write_role : Role → Exec Session Role
write_role role s =
    if any (same_name role) (others role.pk s.db.roles)
    then (err integrity_error, s)
    else (ok role, record s { db = record s.db { roles = role ∷ others role.pk s.db.roles } })

-- `cache.invalidate_all`, now and on commit
unfoldable pub invalidate_roles : Session → Session
invalidate_roles s = record s {
  cache = invalidate_all s.in_atomic_block s.cache;
  on_commit = s.on_commit ++ all ∷ [];
}

-- the role's rows in the table of `role.permissions`
unfoldable pub is_row_of : Role → Permission → ℕ × Permission → Bool
is_row_of role p (r, q) = some r == role.pk && q.pk == p.pk

unfoldable pub holds_row : Db → Role → Permission → Bool
holds_row db role p = any (is_row_of role p) db.role_permissions

-- `permissions.add(*perms)`: those that are not there yet
unfoldable pub add_permissions : ℕ → List Permission → List (ℕ × Permission) → List (ℕ × Permission)
add_permissions r [] rows = rows
add_permissions r (p ∷ ps) rows =
    add_permissions r ps
      (if any (λ (k, q). k == r && q.pk == p.pk) rows then rows else rows ++ (r, p) ∷ [])

-- `permissions.remove(*perms)`
unfoldable pub remove_permissions :
    ℕ → List Permission → List (ℕ × Permission) → List (ℕ × Permission)
remove_permissions r ps rows = filter (λ (k, q). not (k == r && any (λ p. p.pk == q.pk) ps)) rows

module _ (env : Env) where
  -- `_validate_owner`, once the owner's level is known
  unfoldable pub with_owner_level : Role → ℕ → Result Role
  with_owner_level role name =
      if contains name env.role_owner_levels
      then ok (record role { owner_level = some name })
      else err role_ownership

  -- `_validate_owner`, once the owner is read
  unfoldable pub validate_level : Role → Option ℕ → Obj → Result Role
  validate_level role none owner = elim (only_name (matching_levels env owner)) [
    | none ↦ err role_ownership
    | some name ↦ with_owner_level role name
  ]
  validate_level role (some name) owner =
      if any (λ l. l.name == name) (matching_levels env owner)
      then with_owner_level role name
      else err role_ownership

  unfoldable pub validate_fetched : Role → Fetched → Result Role
  validate_fetched role (Fetched.found owner) = validate_level role role.owner_level owner
  validate_fetched role Fetched.absent = err role_ownership
  validate_fetched role Fetched.raised = err value_error

  -- `_validate_owner`, which may set the owner's level
  unfoldable pub validate_owner : Role → Result Role
  validate_owner role =
      if not (is_some role.owner_id)
      then (if is_some role.owner_ct_id || is_some role.owner_level
          then err role_ownership
          else ok role)
      else if not (is_some role.owner_ct_id)
      then err role_ownership
      else validate_fetched role (env.generic_get role.owner_ct_id role.owner_id)

  unfoldable pub validate : Role → Exec Session Role
  validate role s = (validate_owner role, s)

  -- `if not engine.can_manage_role(by, role): raise`
  unfoldable pub ensure_manages : Option User → Role → Exec Session (Unit {0})
  ensure_manages by role s = ensure (can_manage_role env s.db by role none) role_management s

  -- `role.save()`
  unfoldable pub save : Role → Exec Session Role
  save role = do valid ← validate role; write_role valid

  -- the labels that the actor may not add
  unfoldable pub forbidden : Db → Option User → Role → List Permission → List Permission
  forbidden db none role ps = ps
  forbidden db (some actor) role ps =
      filter (λ p. not (can_grant_permission env db actor role (label p) none)) ps

  module _ (raises : RoleEvent → Bool) where
    -- `cache.invalidate_all()` and the signal, if anything has changed
    unfoldable pub announce_change :
        Role → List Permission → List Permission → Option User → Exec Session (Unit {0})
    announce_change role [] [] by s = (ok tt, s)
    announce_change role added removed by s =
        let event : RoleEvent = record {
          role = role;
          added = sorted (map label added);
          removed = sorted (map label removed);
          actor = elim by [ none ↦ none | some u ↦ some u.pk ];
        } in
        let s' = invalidate_roles s in
        (
          if raises event then err receiver_error else ok tt,
          record s' { role_events = s'.role_events ++ event ∷ [] },
        )

    -- `grant_permissions`, once the labels that the actor may not add are known
    unfoldable pub add_unless :
        List Permission
        → List Permission
        → List Permission
        → Option User
        → Role
        → Exec Session (Unit {0})
    add_unless (_ ∷ _) added perms by role s = (err role_management, s)
    add_unless [] added perms by role s = announce_change role added [] by (record s {
      db = record s.db {
        role_permissions = add_permissions (get_or role.pk 0) perms s.db.role_permissions;
      };
    })

    -- `grant_permissions`, once the actor may manage the role
    unfoldable pub add_checked : List Permission → Option User → Role → Exec Session (Unit {0})
    add_checked perms by role s =
        let added = filter (λ p. not (holds_row s.db role p)) perms in
        add_unless (forbidden s.db by role added) added perms by role s

    unfoldable pub add_managed : List Permission → Option User → Role → Exec Session (Unit {0})
    add_managed perms by role = ensure_manages by role >> add_checked perms by role

    -- `grant_permissions`
    unfoldable pub grant_permissions :
        Role → List Permission → Option User → Exec Session (Unit {0})
    grant_permissions role perms by = atomic (refresh_for_mutation role >>= add_managed perms by)

    -- `revoke_permissions`, once the actor may manage the role
    unfoldable pub remove_checked : List Permission → Option User → Role → Exec Session (Unit {0})
    remove_checked perms by role s =
        announce_change role [] (filter (holds_row s.db role) perms) by (record s {
          db = record s.db {
            role_permissions = remove_permissions (get_or role.pk 0) perms s.db.role_permissions;
          };
        })

    unfoldable pub remove_managed : List Permission → Option User → Role → Exec Session (Unit {0})
    remove_managed perms by role = ensure_manages by role >> remove_checked perms by role

    -- `revoke_permissions`
    unfoldable pub revoke_permissions :
        Role → List Permission → Option User → Exec Session (Unit {0})
    revoke_permissions role perms by =
        atomic (refresh_for_mutation role >>= remove_managed perms by)

  -- `role.delete()`: assignments protect their role; the rows of its permissions go with it
  unfoldable pub delete_row : Role → Exec Session (Unit {0})
  delete_row role s =
      if any (λ a. some a.role_id == role.pk) s.db.assignments then (err protected_error, s) else (
        ok tt,
        record s {
          db = record s.db {
            roles = others role.pk s.db.roles;
            role_permissions = filter (λ (r, _). not (some r == role.pk)) s.db.role_permissions;
          };
        },
      )

  unfoldable pub delete_managed : Option User → Role → Exec Session (Unit {0})
  delete_managed by role = ensure_manages by role >> delete_row role

  -- `RoleService.delete`
  unfoldable pub delete : Role → Option User → Exec Session (Unit {0})
  delete role by = atomic (refresh_for_mutation role >>= delete_managed by)

  -- the changes of `RoleService.update`; `owner` and `owner_level` may be given as `None`
  unfoldable pub apply_edit : Edit → Role → Role
  apply_edit edit role =
      let role' = record role {
        name = get_or edit.name role.name;
        description = get_or edit.description role.description;
      } in
      set_level edit.owner edit.owner_level (set_owner edit.owner role')
    where
      set_owner : Option (Option Obj) → Role → Role
      set_owner none r = r
      set_owner (some none) r = record r { owner_ct_id = none; owner_id = none }
      set_owner (some (some o)) r = record r {
        owner_ct_id = some (env.content_type o.model);
        owner_id = o.pk;
      }

      set_level : Option (Option Obj) → Option (Option ℕ) → Role → Role
      set_level owner (some given) r = record r { owner_level = given }
      set_level (some none) none r = record r { owner_level = none }
      set_level _ none r = r

  -- `update`, once the changed instance is validated
  unfoldable pub save_valid : Option User → Role → Exec Session Role
  save_valid by role = ensure_manages by role >> save role

  unfoldable pub save_edited : Option User → Edit → Role → Exec Session Role
  save_edited by edit role = validate (apply_edit edit role) >>= save_valid by

  -- `cache.invalidate_all()` at the end of `update`
  unfoldable pub flush : Role → Exec Session Role
  flush role s = (ok role, record s { cache = invalidate_all s.in_atomic_block s.cache })

  unfoldable pub update_managed : Option User → Edit → Role → Exec Session Role
  update_managed by edit role = ensure_manages by role >> (save_edited by edit role >>= flush)

  unfoldable pub update_keywords : Option User → Edit → List ℕ → Role → Exec Session Role
  update_keywords by edit (_ ∷ _) role s = (err type_error, s)
  update_keywords by edit [] role s = (refresh_for_mutation role >>= update_managed by edit) s

  -- `RoleService.update`
  unfoldable pub update : Role → Option User → Edit → Exec Session Role
  update role by edit = atomic (update_keywords by edit edit.unknown role)

  module _ (raises : RoleEvent → Bool) (next_role_pk : Db → ℕ) where
    -- the insertion of a new role, under the key that the database gives
    unfoldable pub insert_role : Role → Exec Session Role
    insert_role role s = save (record role { pk = some (next_role_pk s.db) }) s

    unfoldable pub grant_first : List Permission → Option User → Role → Exec Session Role
    grant_first [] by role s = (ok role, s)
    grant_first (p ∷ ps) by role s =
        (do grant_permissions raises role (p ∷ ps) by; λ t. (ok role, t)) s

    unfoldable pub create_valid : Option User → List Permission → Role → Exec Session Role
    create_valid by perms role =
        ensure_manages by role >> (insert_role role >>= grant_first perms by)

    -- `RoleService.create`, of an instance that is not saved yet
    unfoldable pub create : Role → Option User → List Permission → Exec Session Role
    create role by perms = atomic (validate (record role { pk = none }) >>= create_valid by perms)
