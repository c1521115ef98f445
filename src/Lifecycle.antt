-- ===== src/Lifecycle.antt =====
-- The lifecycle of assignments (scoped_access/models.py): `suspend`, `reactivate` and `revoke` of
-- one instance, over the tables, the request cache, the open transaction and the signals.
pub mod Steps
pub mod Outcomes
pub mod History
use django_auth_with_scoped.Base.{
  ℕ, Bool, true, false, not, ◌&&◌, Option, none, some, List, [], ◌∷◌, ◌++◌, map, String,
  if◌then◌else◌, ◌==◌, nat_eq, option_eq, is_some, filter, first, contains, length,
}
use django_auth_with_scoped.World.{Obj, Fetched}
use django_auth_with_scoped.Models.{
  User, Role, Status, active, suspended, revoked, status_eq, Assignment, Db, role_with,
}
use django_auth_with_scoped.Config.{Env}
use django_auth_with_scoped.Engine.Roles.{can_manage_assignment, can_assign_role}
use django_auth_with_scoped.Cache.{Cache, invalidate_user, invalidate_all}
use django_auth_with_scoped.Transaction.{
  Callback, user, all, Signal, assignment_granted, assignment_suspended, assignment_reactivated,
  assignment_revoked, Event, RoleEvent, Session, call, run_callbacks, leave_atomic, atomic,
}
use django_auth_with_scoped.Exec.{
  Error, invalid_transition, assignment_management, role_assignment, value_error, does_not_exist,
  receiver_error, Result, ok, err, Exec, pure, raise, ensure, continue, ◌>>=◌, ◌>>◌,
}

-- the row with the given key
unfoldable pub row_with : Option ℕ → List Assignment → Option Assignment
row_with pk rows = first (filter (λ a. a.pk == pk) rows)

-- the test of `filter(pk=self.pk, status__in=allowed_from)`
abbrev pub is_candidate : Option ℕ → List Status → Assignment → Bool
is_candidate pk allowed a = a.pk == pk && contains a.status allowed

-- `QuerySet.update` on the rows that pass the test
unfoldable pub update :
    (Assignment → Bool) → (Assignment → Assignment) → List Assignment → List Assignment
update test change [] = []
update test change (a ∷ rows) = (if test a then change a else a) ∷ update test change rows

-- the fields that `revoke` sets beside the status
pub record Changes : Type 0 where
  pub revoked_by : Option ℕ
  pub revoked_at : Option ℕ
  pub reason : String

-- the `changes` of a transition, on a row or on the instance
abbrev pub apply_changes : Status → Option Changes → Assignment → Assignment
apply_changes target none a = record a { status = target }
apply_changes target (some c) a = record a {
  status = target;
  revoked_by = c.revoked_by;
  revoked_at = c.revoked_at;
  reason = c.reason;
}

-- `_transition`, after the update: how many rows changed, and what to make of it
unfoldable pub after_update : Status → Option Changes → ℕ → Exec Session (Unit {0})
after_update target changes updated s =
    if updated == 1
    then (ok tt, record s { self = apply_changes target changes s.self })
    else elim (row_with s.self.pk s.db.assignments) [
      | none ↦ (err does_not_exist, s)
      | some row ↦
          (err invalid_transition, record s { self = record s.self { status = row.status } })
    ]

unfoldable pub transition : Status → List Status → Option Changes → Exec Session (Unit {0})
transition target allowed changes s =
    if not (is_some s.self.pk)
    then (err invalid_transition, s)
    else let test = is_candidate s.self.pk allowed in
      let rows = s.db.assignments in
      let s' = record s {
        db = record s.db { assignments = update test (apply_changes target changes) rows };
      } in
      after_update target changes (length (filter test rows)) s'

-- `_snapshot_transition_fields` and `_restore_transition_fields`
abbrev pub restore : Assignment → Assignment → Assignment
restore snapshot a = record a {
  status = snapshot.status;
  revoked_by = snapshot.revoked_by;
  revoked_at = snapshot.revoked_at;
  reason = snapshot.reason;
}

-- `cache.invalidate_user`, now and on commit
unfoldable pub invalidate : Exec Session (Unit {0})
invalidate s =
    let u = s.self.user_id in
    (
      ok tt,
      record s {
        cache = invalidate_user s.in_atomic_block u s.cache;
        on_commit = s.on_commit ++ user u ∷ [];
      },
    )

-- `self.refresh_from_db()`
unfoldable pub refresh_from_db : Exec Session (Unit {0})
refresh_from_db s = elim (row_with s.self.pk s.db.assignments) [
  | none ↦ (err does_not_exist, s)
  | some row ↦ (ok tt, record s { self = row })
]

-- `self.role._refresh_for_mutation()`: the role's row, with every user's cache dropped
unfoldable pub refresh_role : Exec Session Role
refresh_role s = elim (role_with s.db s.self.role_id) [
  | none ↦ (err does_not_exist, s)
  | some role ↦ (ok role, record s { cache = invalidate_all s.in_atomic_block s.cache })
]

module _ (env : Env) where
  -- `self.scope if self.scope_id is not None else None`, which may raise
  unfoldable pub scope_of : Assignment → Result (Option Obj)
  scope_of a =
      if not (is_some a.scope_id)
      then ok none
      else elim (env.generic_get a.scope_ct_id a.scope_id) [
        | Fetched.found o ↦ ok (some o)
        | Fetched.absent ↦ ok none
        | Fetched.raised ↦ err value_error
      ]

  unfoldable pub fetch_scope : Exec Session (Option Obj)
  fetch_scope s = (scope_of s.self, s)

  -- `_authorize_transition`, on the refreshed instance; a scope that is gone is managed globally,
  -- as no scope is
  unfoldable pub authorize_scope : Option User → Exec Session (Unit {0})
  authorize_scope by = do
    scope ← fetch_scope
    λ s. ensure (can_manage_assignment env s.db by scope none) assignment_management s

  unfoldable pub authorize_row : Option User → Exec Session (Unit {0})
  authorize_row by = refresh_from_db >> authorize_scope by

  unfoldable pub authorize : Option User → Exec Session (Unit {0})
  authorize by s =
      if not (is_some s.self.pk) then (err invalid_transition, s) else authorize_row by s

  -- the check of the persisted status in `reactivate`
  unfoldable pub ensure_suspended : Exec Session (Unit {0})
  ensure_suspended s =
      ensure
        (elim (row_with s.self.pk s.db.assignments) [
          | none ↦ false
          | some row ↦ row.status == suspended
        ])
        invalid_transition s

  -- the check of the refreshed role's delegation in `reactivate`
  unfoldable pub delegate_at : Option User → Role → Option Obj → Exec Session (Unit {0})
  delegate_at by role scope s =
      ensure (can_assign_role env s.db by role s.self.level scope none) role_assignment s

  unfoldable pub delegate_role : Option User → Role → Exec Session (Unit {0})
  delegate_role by role = do scope ← fetch_scope; delegate_at by role scope

  unfoldable pub delegate : Option User → Exec Session (Unit {0})
  delegate by = do role ← refresh_role; delegate_role by role

  -- the receivers of the signals: whether one of them raises at the event
  module _ (raises : Event → Bool) where
    -- `signal.send`, with the handler that restores the instance
    unfoldable pub send : Signal → Option User → String → Assignment → Exec Session (Unit {0})
    send signal by reason snapshot s =
        let event : Event = record {
          signal = signal;
          assignment = s.self;
          actor = elim by [ none ↦ none | some u ↦ some u.pk ];
          reason = reason;
        } in
        let sent = record s { events = s.events ++ event ∷ [] } in
        if raises event
        then (err receiver_error, record sent { self = restore snapshot s.self })
        else (ok tt, sent)

    -- what the three methods share once the actor is authorized
    unfoldable pub move :
        Status
        → List Status
        → Option Changes
        → Signal
        → Option User
        → String
        → Exec Session (Unit {0})
    move target allowed changes signal by reason s =
        (do transition target allowed changes; invalidate; send signal by reason s.self) s

    unfoldable pub suspend_body : Option User → String → Exec Session (Unit {0})
    suspend_body by reason = do
      authorize by
      move suspended (active ∷ []) none assignment_suspended by reason

    -- `suspend`
    unfoldable pub suspend : Option User → String → Exec Session (Unit {0})
    suspend by reason = atomic (suspend_body by reason)

    unfoldable pub reactivate_body : Option User → String → Exec Session (Unit {0})
    reactivate_body by reason = do
      authorize by
      ensure_suspended
      delegate by
      move active (suspended ∷ []) none assignment_reactivated by reason

    -- `reactivate`
    unfoldable pub reactivate : Option User → String → Exec Session (Unit {0})
    reactivate by reason = atomic (reactivate_body by reason)

    unfoldable pub revocation : Option User → String → Changes
    revocation by reason = record {
      revoked_by = elim by [ none ↦ none | some u ↦ some u.pk ];
      revoked_at = some env.now;
      reason = reason;
    }

    unfoldable pub revoke_body : Option User → String → Exec Session (Unit {0})
    revoke_body by reason = do
      authorize by
      move revoked (active ∷ suspended ∷ []) (some (revocation by reason)) assignment_revoked by
          reason

    -- `revoke`
    unfoldable pub revoke : Option User → String → Exec Session (Unit {0})
    revoke by reason = atomic (revoke_body by reason)
