-- ===== src/Granting.antt =====
-- The creation of assignments (scoped_access/models.py): `ScopeAssignmentQuerySet.grant`, with the
-- unique constraints of the table.
pub mod Unique
pub mod Outcome
use django_auth_with_scoped.Base.{
  ℕ, Bool, true, false, not, ◌&&◌, ◌||◌, Option, none, some, List, [], ◌∷◌, ◌++◌, map,
  if◌then◌else◌, ◌==◌, nat_eq, option_eq, leb, is_some, any, filter, get_or,
}
use django_auth_with_scoped.World.{Obj}
use django_auth_with_scoped.Registry
use django_auth_with_scoped.Registry.{Level}
use django_auth_with_scoped.Models.{
  User, Role, active, revoked, status_eq, Assignment, Db, role_with,
}
use django_auth_with_scoped.Config.{Env}
use django_auth_with_scoped.Engine.Scope.{role_assignable}
use django_auth_with_scoped.Engine.Roles.{can_manage_assignment, can_assign_role}
use django_auth_with_scoped.Cache.{invalidate_user, invalidate_all}
use django_auth_with_scoped.Exec.{
  Error, assignment_management, role_assignment, assignment_scope, type_error, value_error,
  does_not_exist, integrity_error, receiver_error, Result, ok, err, Exec, ensure, continue, ◌>>=◌,
  ◌>>◌,
}
use django_auth_with_scoped.Transaction.{user, Event, assignment_granted, Session, atomic}

-- The arguments of `grant`; `unsupported` are the names of further keyword arguments.
pub record Request : Type 0 where
  pub user_pk : ℕ
  pub role : Role
  pub by : Option User
  pub level : Option ℕ
  pub scope : Option Obj
  pub valid_from : Option ℕ
  pub valid_until : Option ℕ
  pub unsupported : List ℕ

-- equality of two columns where NULL is distinct from all
abbrev pub sql_eq : Option ℕ → Option ℕ → Bool
sql_eq x y = is_some x && x == y

abbrev pub is_live : Assignment → Bool
is_live a = not (a.status == revoked)

-- the columns of the three unique constraints, under the condition of each
unfoldable pub same_columns : Assignment → Assignment → Bool
same_columns a b =
    (sql_eq a.level b.level && sql_eq a.scope_ct_id b.scope_ct_id && sql_eq a.scope_id b.scope_id)
    || (sql_eq a.level b.level && not (is_some a.scope_id) && not (is_some b.scope_id))
    || (not (is_some a.level)
        && not (is_some b.level)
        && not (is_some a.scope_id)
        && not (is_some b.scope_id))

-- the user, the role, and those columns
unfoldable pub same_key : Assignment → Assignment → Bool
same_key a b = a.user_id == b.user_id && a.role_id == b.role_id && same_columns a b

-- two rows that no table holds together
unfoldable pub conflicts : Assignment → Assignment → Bool
conflicts a b = is_live a && is_live b && same_key a b

-- the window check
unfoldable pub window_is_empty : Option ℕ → Option ℕ → Bool
window_is_empty (some from) (some until) = leb until from
window_is_empty _ _ = false

-- the name of the only level, if there is just one
unfoldable pub only_name : List Level → Option ℕ
only_name (l ∷ []) = some l.name
only_name _ = none

-- the query of `_refresh_for_mutation`, for the row with the key
unfoldable pub locked : Db → Option ℕ → Option Role
locked db none = none
locked db (some pk) = role_with db pk

-- what is left of it once the row is read
unfoldable pub refreshed : Option Role → Exec Session Role
refreshed none s = (err does_not_exist, s)
refreshed (some row) s = (ok row, record s { cache = invalidate_all s.in_atomic_block s.cache })

-- `role._refresh_for_mutation()`
unfoldable pub refresh_for_mutation : Role → Exec Session Role
refresh_for_mutation role s = refreshed (locked s.db role.pk) s

module _ (env : Env) where
  unfoldable pub matching_levels : Obj → List Level
  matching_levels scope =
      filter (λ l. Registry.has_row env.world l scope.pk)
        (Registry.levels_for_model env.world env.hierarchy scope.model)

  -- the level of the new row
  unfoldable pub level_of : Option ℕ → Option Obj → Result (Option ℕ)
  level_of none none = ok none
  level_of (some name) none =
      if get_or (Registry.is_root_name env.hierarchy (some name)) false
      then ok (some name)
      else err assignment_scope
  level_of none (some scope) = elim (only_name (matching_levels scope)) [
    | none ↦ err assignment_scope
    | some name ↦ ok (some name)
  ]
  level_of (some name) (some scope) =
      if any (λ l. l.name == name) (matching_levels scope)
      then ok (some name)
      else err assignment_scope

  -- the row of `self.create(...)`, under the key that the database gives
  unfoldable pub new_row : Request → Role → Option ℕ → ℕ → Assignment
  new_row q role level pk = record {
    pk = some pk;
    user_id = q.user_pk;
    role_id = get_or role.pk 0;
    level = level;
    scope_ct_id = elim q.scope [ none ↦ none | some o ↦ some (env.content_type o.model) ];
    scope_id = elim q.scope [ none ↦ none | some o ↦ o.pk ];
    status = active;
    valid_from = q.valid_from;
    valid_until = q.valid_until;
    granted_by = elim q.by [ none ↦ none | some u ↦ some u.pk ];
    granted_at = env.now;
    revoked_by = none;
    revoked_at = none;
    reason = "";
  }

  -- The database refuses a row that breaks a unique constraint. A table has no order, so the new
  -- row stands first.
  unfoldable pub insert : Assignment → Exec Session Assignment
  insert a s =
      if any (conflicts a) s.db.assignments
      then (err integrity_error, s)
      else (ok a, record s { db = record s.db { assignments = a ∷ s.db.assignments } })

  -- the three checks on the refreshed role and the actor
  unfoldable pub check : Request → Role → Option ℕ → Exec Session (Unit {0})
  check q role level s =
      if not (role_assignable env role level q.scope)
      then (err role_assignment, s)
      else if not (can_manage_assignment env s.db q.by q.scope none)
      then (err assignment_management, s)
      else if not (can_assign_role env s.db q.by role level q.scope none)
      then (err role_assignment, s)
      else (ok tt, s)

  module _ (raises : Event → Bool) (next_pk : Db → ℕ) where
    -- what follows the creation: the cache of the user, now and on commit, and the signal
    unfoldable pub announce : Request → Assignment → Exec Session Assignment
    announce q a s =
        let event : Event = record {
          signal = assignment_granted;
          assignment = a;
          actor = a.granted_by;
          reason = "";
        } in
        (
          if raises event then err receiver_error else ok a,
          record s {
            cache = invalidate_user s.in_atomic_block q.user_pk s.cache;
            on_commit = s.on_commit ++ user q.user_pk ∷ [];
            events = s.events ++ event ∷ [];
          },
        )

    unfoldable pub create : Request → Role → Option ℕ → Exec Session Assignment
    create q role level s = insert (new_row q role level (next_pk s.db)) s

    unfoldable pub checked_create : Request → Option ℕ → Role → Exec Session Assignment
    checked_create q level role = do check q role level; a ← create q role level; announce q a

    -- from the refresh of the role on
    unfoldable pub grant_at : Request → Option ℕ → Exec Session Assignment
    grant_at q level = do role ← refresh_for_mutation q.role; checked_create q level role

    -- from the check of the window on
    unfoldable pub grant_level : Request → Result (Option ℕ) → Exec Session Assignment
    grant_level q (err e) s = (err e, s)
    grant_level q (ok level) s =
        if window_is_empty q.valid_from q.valid_until
        then (err value_error, s)
        else grant_at q level s

    -- from the check of the keywords on
    unfoldable pub grant_keywords : Request → List ℕ → Exec Session Assignment
    grant_keywords q (_ ∷ _) s = (err type_error, s)
    grant_keywords q [] s = grant_level q (level_of q.level q.scope) s

    unfoldable pub grant_body : Request → Exec Session Assignment
    grant_body q = grant_keywords q q.unsupported

    -- `grant`
    unfoldable pub grant : Request → Exec Session Assignment
    grant q = atomic (grant_body q)
