-- ===== src/RoleService/Outcome.antt =====
-- What the operations on roles (scoped_access/services.py, scoped_access/models.py) have checked
-- and changed when they return, and what they leave when they raise.
use django_auth_with_scoped.Base.{
  ℕ, ◌≡◌, refl, ◌∙◌, sym, ap, inl, inr, Bool, true, false, not, Option, none, some, List, [], ◌∷◌,
  Memᴰ, arith, filter, filter-mem, get_or, Bool-cases, subst, nat_eq, option_eq,
}
use django_auth_with_scoped.World.{Obj}
use django_auth_with_scoped.Models.{User, Role, Permission, label, Db, role_with}
use django_auth_with_scoped.Config.{Env, Policy}
use django_auth_with_scoped.Engine.Roles.{owner_of, can_manage_role, can_grant_permission}
use django_auth_with_scoped.Engine.Scope.Ancestors.{HasFiniteDepth}
use django_auth_with_scoped.Engine.Roles.Escalation.{Holds, can_grant_permission_self}
use django_auth_with_scoped.Cache.{invalidate_all}
use django_auth_with_scoped.Exec.{role_management, Result, ok, Exec, ◌>>=◌, ◌>>◌}
use django_auth_with_scoped.Transaction.{RoleEvent, Session}
use django_auth_with_scoped.Lifecycle.Steps.{>>=-eq-ok, atomic_ok, entered, ensure_ok}
use django_auth_with_scoped.Granting.{refresh_for_mutation}
use django_auth_with_scoped.Granting.Outcome.{refresh_for_mutation_ok}
use django_auth_with_scoped.RoleService.{
  holds_row, add_permissions, remove_permissions, ensure_manages, forbidden, announce_change,
  add_unless, add_checked, add_managed, grant_permissions, remove_checked, remove_managed,
  revoke_permissions, invalidate_roles,
}

module _ (env : Env) where
  -- The run of a body on the refreshed role, once the actor may manage it.
  pub record Managed {A : Type 0} (body : Role → Exec Session A) (role : Role) (by : Option User)
      (s : Session) (r : Result A × Session) : Type 0 where
    pub pk : ℕ
    pub row : Role
    pub saved : role.pk ≡ some pk
    pub stored : role_with s.db pk ≡ some row
    pub manages : can_manage_role env s.db by row none ≡ true
    pub run : r ≡ body row (record s { cache = invalidate_all s.in_atomic_block s.cache })

  -- What the guard shared by the operations on a stored role has checked.
  pub managed :
      {A : Type 0} (body : Role → Exec Session A) (role : Role) (by : Option User) (s : Session)
      {a : A}
      → ((refresh_for_mutation role >>= λ row. ensure_manages env by row >> body row) s).0 ≡ ok a
      → Managed body role by s
          ((refresh_for_mutation role >>= λ row. ensure_manages env by row >> body row) s)
  unfolding ensure_manages
  managed {A = A} body role by s h =
      let rest : Role → Exec Session A = λ row. ensure_manages env by row >> body row in
      let (row, refreshed, run) = >>=-eq-ok (refresh_for_mutation role) rest s h in
      let (pk, saved, stored, now) = refresh_for_mutation_ok role s refreshed in
      let t = record s { cache = invalidate_all s.in_atomic_block s.cache } in
      let run₁ = run ∙ ap (rest row) now in
      let (_, checked, run₂) =
        >>=-eq-ok (ensure_manages env by row) (λ _. body row) t (sym (ap (λ r. r.0) run₁) ∙ h) in
      let (manages, same) =
        ensure_ok t (can_manage_role env s.db by row none) role_management checked in
      record {
        pk = pk;
        row = row;
        saved = saved;
        stored = stored;
        manages = manages;
        run = run₁ ∙ run₂ ∙ ap (body row) same;
      }

  no_forbidden :
      (db : Db) (actor : User) (role : Role) (added : List Permission)
      → forbidden env db (some actor) role added ≡ []
      → (p : Permission) → Memᴰ p added
      → can_grant_permission env db actor role (label p) none ≡ true
  unfolding forbidden
  no_forbidden db actor role added h p m =
      elim (Bool-cases (can_grant_permission env db actor role (label p) none)) [
        | inl e ↦ e
        | inr e ↦
            elim (subst (λ ps. Memᴰ p ps) h
              (filter-mem (λ q. not (can_grant_permission env db actor role (label q) none)) m
                (rw e refl))) [ ]
      ]

  module _ (raises : RoleEvent → Bool) where
    announce_change_ok :
        (role : Role) (added removed : List Permission) (by : Option User) (s : Session)
        {u : Unit {0}}
        → (announce_change env raises role added removed by s).0 ≡ ok u
        → (announce_change env raises role added removed by s).1.db ≡ s.db
    unfolding announce_change invalidate_roles
    announce_change_ok role [] [] by s h = refl
    announce_change_ok role (p ∷ ps) removed by s h = refl
    announce_change_ok role [] (p ∷ ps) by s h = refl

    add_unless_ok :
        (refused added perms : List Permission) (by : Option User) (role : Role) (s : Session)
        {u : Unit {0}}
        → (add_unless env raises refused added perms by role s).0 ≡ ok u
        → (refused ≡ [])
          × ((add_unless env raises refused added perms by role s).1.db ≡ record s.db {
            role_permissions = add_permissions (get_or role.pk 0) perms s.db.role_permissions;
          })
    unfolding add_unless
    add_unless_ok (_ ∷ _) added perms by role s h = absurd (ground arith)
    add_unless_ok [] added perms by role s h = (refl, announce_change_ok role added [] by _ h)

    -- What `grant_permissions` has checked on the tables as they were, and what it has added.
    pub record Added (role : Role) (perms : List Permission) (by : Option User) (db db' : Db)
        : Type 0 where
      pub pk : ℕ
      pub row : Role
      pub saved : role.pk ≡ some pk
      pub stored : role_with db pk ≡ some row
      pub manages : can_manage_role env db by row none ≡ true
      pub grants :
          (actor : User)
          → by ≡ some actor
          → (p : Permission) → Memᴰ p perms
          → holds_row db row p ≡ false
          → can_grant_permission env db actor row (label p) none ≡ true
      pub added : db' ≡ record db {
        role_permissions = add_permissions (get_or row.pk 0) perms db.role_permissions;
      }

    -- When `grant_permissions` returns, the actor may manage the role as stored, and may grant each
    -- permission that the role did not have; the rows of the permissions are added to the table of
    -- role permissions, and nothing else in the tables changes.
    pub grant_permissions-Added :
        (role : Role) (perms : List Permission) (by : Option User) (s : Session) {u : Unit {0}}
        → (grant_permissions env raises role perms by s).0 ≡ ok u
        → Added role perms by s.db (grant_permissions env raises role perms by s).1.db
    unfolding grant_permissions add_managed add_checked
    grant_permissions-Added role perms by s h =
        let body = refresh_for_mutation role >>= add_managed env raises perms by in
        let (returned, db, _) = atomic_ok body s h in
        let m = managed (add_checked env raises perms by) role by (entered body s) returned in
        let missing = filter (λ p. not (holds_row s.db m.row p)) perms in
        let t = record (entered body s) { cache = invalidate_all true s.cache } in
        let (none_refused, now) =
          add_unless_ok (forbidden env s.db by m.row missing) missing perms by m.row t
            (sym (ap (λ r. r.0) m.run) ∙ returned) in
        record {
          pk = m.pk;
          row = m.row;
          saved = m.saved;
          stored = m.stored;
          manages = m.manages;
          grants = λ actor e p mem absent.
              no_forbidden s.db actor m.row missing (rw e at none_refused) p
                (filter-mem (λ q. not (holds_row s.db m.row q)) mem (rw absent refl));
          added = db ∙ ap (λ r. r.1.db) m.run ∙ now;
        }

    -- Under the policy "self", an actor who is no superuser and whose `grant_permissions`
    -- returns holds each permission that the role did not have: at the owner of a custom role,
    -- globally for a system role. It holds where parents lead to smaller depths
    -- (HasFiniteDepth).
    pub grant_permissions_self :
        HasFiniteDepth env
        → (role : Role) (perms : List Permission) (actor : User) (s : Session) {u : Unit {0}}
        → env.grantable_permissions ≡ Policy.self
        → actor.is_superuser ≡ false
        → (grant_permissions env raises role perms (some actor) s).0 ≡ ok u
        → (row : Role) × ((pk : ℕ) × (role.pk ≡ some pk) × (role_with s.db pk ≡ some row))
          × ((p : Permission)
              → Memᴰ p perms
              → holds_row s.db row p ≡ false
              → (owner : Option Obj) × (owner_of env s.db row ≡ some owner)
                × Holds env s.db actor (label p) owner none)
    grant_permissions_self finite role perms actor s policy plain h =
        let a = grant_permissions-Added role perms (some actor) s h in
        (
          a.row,
          (a.pk, a.saved, a.stored),
          λ p m absent.
              can_grant_permission_self env s.db finite actor a.row (label p) none policy plain
                (a.grants actor refl p m absent),
        )

    -- What `revoke_permissions` has checked and removed.
    pub record Removed (role : Role) (perms : List Permission) (by : Option User) (db db' : Db)
        : Type 0 where
      pub pk : ℕ
      pub row : Role
      pub saved : role.pk ≡ some pk
      pub stored : role_with db pk ≡ some row
      pub manages : can_manage_role env db by row none ≡ true
      pub removed : db' ≡ record db {
        role_permissions = remove_permissions (get_or row.pk 0) perms db.role_permissions;
      }

    -- When `revoke_permissions` returns, the actor may manage the role as stored, the role's rows of
    -- these permissions are gone from the table, and nothing else in the tables changes.
    pub revoke_permissions-Removed :
        (role : Role) (perms : List Permission) (by : Option User) (s : Session) {u : Unit {0}}
        → (revoke_permissions env raises role perms by s).0 ≡ ok u
        → Removed role perms by s.db (revoke_permissions env raises role perms by s).1.db
    unfolding revoke_permissions remove_managed remove_checked
    revoke_permissions-Removed role perms by s h =
        let body = refresh_for_mutation role >>= remove_managed env raises perms by in
        let (returned, db, _) = atomic_ok body s h in
        let m = managed (remove_checked env raises perms by) role by (entered body s) returned in
        let t = record (entered body s) { cache = invalidate_all true s.cache } in
        let now =
          announce_change_ok m.row [] (filter (holds_row s.db m.row) perms) by
            (record t {
              db = record s.db {
                role_permissions =
                    remove_permissions (get_or m.row.pk 0) perms s.db.role_permissions;
              };
            })
            (sym (ap (λ r. r.0) m.run) ∙ returned) in
        record {
          pk = m.pk;
          row = m.row;
          saved = m.saved;
          stored = m.stored;
          manages = m.manages;
          removed = db ∙ ap (λ r. r.1.db) m.run ∙ now;
        }
