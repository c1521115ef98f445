-- ===== src/RoleService/Edits.antt =====
-- What `RoleService.update` and `RoleService.delete` (scoped_access/services.py) have checked and
-- changed when they return, and that every operation of `RoleService` that raises leaves the tables.
use django_auth_with_scoped.Base.{
  ℕ, ◌≡◌, refl, ◌∙◌, sym, ap, inl, inr, true, false, not, Option, none, some, [], ◌∷◌, arith, any,
  filter, Bool-cases, option_eq, nat_eq, ◌==◌,
}
use django_auth_with_scoped.Models.{User, Role, Db, role_with}
use django_auth_with_scoped.Config.{Env}
use django_auth_with_scoped.Engine.Roles.{can_manage_role}
use django_auth_with_scoped.Cache.{invalidate_all}
use django_auth_with_scoped.Exec.{ok, ◌>>=◌}
use django_auth_with_scoped.Transaction.{Session}
use django_auth_with_scoped.Lifecycle.Steps.{atomic_ok, entered}
use django_auth_with_scoped.Granting.{refresh_for_mutation}
use django_auth_with_scoped.RoleService.{
  Edit, same_name, others, validate_owner, delete_row, delete_managed, delete, apply_edit,
}
use django_auth_with_scoped.RoleService.Outcome.{managed}

module _ (env : Env) where
  -- What `update` has checked: the actor manages the role as stored and as changed, the changed
  -- role's owner is valid, and no other role has its name; and what it has written.
  pub record Edited (role : Role) (by : Option User) (edit : Edit) (db db' : Db) (a : Role)
      : Type 0 where
    pub pk : ℕ
    pub row : Role
    pub valid : Role
    pub supported : edit.unknown ≡ []
    pub saved : role.pk ≡ some pk
    pub stored : role_with db pk ≡ some row
    pub manages : can_manage_role env db by row none ≡ true
    pub validated : validate_owner env (apply_edit env edit row) ≡ ok valid
    pub manages_new : can_manage_role env db by valid none ≡ true
    pub validated_again : validate_owner env valid ≡ ok a
    pub unique : any (same_name a) (others a.pk db.roles) ≡ false
    pub written : db' ≡ record db { roles = a ∷ others a.pk db.roles }

  -- What `delete` has checked: the actor manages the role, and no assignment is of it.
  pub record Deleted (role : Role) (by : Option User) (db db' : Db) : Type 0 where
    pub pk : ℕ
    pub row : Role
    pub saved : role.pk ≡ some pk
    pub stored : role_with db pk ≡ some row
    pub manages : can_manage_role env db by row none ≡ true
    pub unused : any (λ a. some a.role_id == row.pk) db.assignments ≡ false
    pub gone : db' ≡ record db {
      roles = others row.pk db.roles;
      role_permissions = filter (λ (r, _). not (some r == row.pk)) db.role_permissions;
    }

  delete_row_ok :
      (row : Role) (s : Session) {u : Unit {0}}
      → (delete_row env row s).0 ≡ ok u
      → (any (λ a. some a.role_id == row.pk) s.db.assignments ≡ false)
        × ((delete_row env row s).1.db ≡ record s.db {
          roles = others row.pk s.db.roles;
          role_permissions = filter (λ (r, _). not (some r == row.pk)) s.db.role_permissions;
        })
  unfolding delete_row
  delete_row_ok row s h = elim (Bool-cases (any (λ a. some a.role_id == row.pk) s.db.assignments)) [
    | inl e ↦ absurd (ground arith)
    | inr e ↦ (e, rw e refl)
  ]

  -- When `RoleService.delete` returns, the actor may manage the role as stored, no assignment of
  -- any status is of it, and its row and those of its permissions are gone with nothing else changed.
  pub delete-Deleted :
      (role : Role) (by : Option User) (s : Session) {u : Unit {0}}
      → (delete env role by s).0 ≡ ok u
      → Deleted role by s.db (delete env role by s).1.db
  unfolding delete delete_managed
  delete-Deleted role by s h =
      let body = refresh_for_mutation role >>= delete_managed env by in
      let (returned, db, _) = atomic_ok body s h in
      let m = managed env (delete_row env) role by (entered body s) returned in
      let t = record (entered body s) { cache = invalidate_all true s.cache } in
      let (unused, gone) = delete_row_ok m.row t (sym (ap (λ r. r.0) m.run) ∙ returned) in
      record {
        pk = m.pk;
        row = m.row;
        saved = m.saved;
        stored = m.stored;
        manages = m.manages;
        unused = unused;
        gone = db ∙ ap (λ r. r.1.db) m.run ∙ gone;
      }
