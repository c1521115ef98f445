-- ===== src/Lifecycle/Steps.antt =====
-- What each part of a lifecycle method does when it returns (scoped_access/models.py).
use django_auth_with_scoped.Base.{
  ◌≡◌, refl, ◌∙◌, sym, ap, ◌⊎◌, inl, inr, Bool, true, false, Option, none, some, List, arith,
  String, nat_eq, option_eq, is_some, filter, length, Bool-cases, Option-cases,
}
use django_auth_with_scoped.World.{Obj}
use django_auth_with_scoped.Models.{User, Role, Status, status_eq, Assignment, Db, role_with}
use django_auth_with_scoped.Config.{Env}
use django_auth_with_scoped.Engine.Roles.{can_manage_assignment, can_assign_role}
use django_auth_with_scoped.Cache.{invalidate_all}
use django_auth_with_scoped.Exec.{
  Error, assignment_management, role_assignment, invalid_transition, Result, ok, err, Exec, ensure,
  continue, ◌>>=◌,
}
use django_auth_with_scoped.Transaction.{Event, Session, Signal, leave_atomic, atomic}
use django_auth_with_scoped.Lifecycle.{
  Changes, row_with, is_candidate, update, apply_changes, ensure_suspended, delegate_at,
  delegate_role, delegate, after_update, transition, invalidate, refresh_from_db, refresh_role,
  scope_of, fetch_scope, authorize_scope, authorize_row, authorize, send, move,
}

-- A result is a value or an exception.
pub Result-cases {ℓ} :
    {A : Type ℓ} (r : Result A) → ((a : A) × (r ≡ ok a)) ⊎ ((e : Error) × (r ≡ err e))
Result-cases (ok a) = inl (a, refl)
Result-cases (err e) = inr (e, refl)

module _ {A B : Type 0} where
  -- Inversion of a block that returned.
  pub >>=-eq-ok :
      (m : Exec Session A) (f : A → Exec Session B) (s : Session) {b : B}
      → ((m >>= f) s).0 ≡ ok b
      → (a : A) × ((m s).0 ≡ ok a) × ((m >>= f) s ≡ f a (m s).1)
  >>=-eq-ok m f s h = elim (Result-cases (m s).0) [
    | inl (a, e) ↦ (a, e, ap (λ r. continue f r (m s).1) e)
    | inr (e, q) ↦ absurd (ground arith)
  ]

module _ {A : Type 0} (m : Exec Session A) (s : Session) where
  abbrev pub entered : Session
  entered = record s { in_atomic_block = true }

  leave_atomic_err :
      (r : Result A) (t : Session) {e : Error}
      → (leave_atomic s r t).0 ≡ err e
      → (leave_atomic s r t).1.db ≡ s.db
  unfolding leave_atomic
  leave_atomic_err (ok a) t h = cc
  leave_atomic_err (err e) t h = refl

  leave_atomic_ok :
      (r : Result A) (t : Session) {a : A}
      → (leave_atomic s r t).0 ≡ ok a
      → (r ≡ ok a) × ((leave_atomic s r t).1.db ≡ t.db) × ((leave_atomic s r t).1.self ≡ t.self)
  unfolding leave_atomic
  leave_atomic_ok (ok a) t h = ground arith
  leave_atomic_ok (err e) t h = cc

  -- A transaction that raised leaves the tables as they were.
  pub atomic_err : {e : Error} → (atomic m s).0 ≡ err e → (atomic m s).1.db ≡ s.db
  unfolding atomic
  atomic_err h = leave_atomic_err (m entered).0 (m entered).1 h

  pub atomic_ok :
      {a : A}
      → (atomic m s).0 ≡ ok a
      → ((m entered).0 ≡ ok a)
        × ((atomic m s).1.db ≡ (m entered).1.db)
        × ((atomic m s).1.self ≡ (m entered).1.self)
  unfolding atomic
  atomic_ok h = leave_atomic_ok (m entered).0 (m entered).1 h

module _ (s : Session) where
  pub ensure_ok :
      (b : Bool) (e : Error) {u : Unit {0}}
      → (ensure b e s).0 ≡ ok u
      → (b ≡ true) × ((ensure b e s).1 ≡ s)
  ensure_ok true e h = (refl, refl)
  ensure_ok false e h = cc

  -- the tables after a transition of the instance's row
  abbrev pub moved_db : Status → List Status → Option Changes → Db
  moved_db target allowed changes = record s.db {
    assignments =
        update (is_candidate s.self.pk allowed) (apply_changes target changes) s.db.assignments;
  }

  abbrev pub candidates : List Status → List Assignment
  candidates allowed = filter (is_candidate s.self.pk allowed) s.db.assignments

  transition_ok :
      (target : Status) (allowed : List Status) (changes : Option Changes) {u : Unit {0}}
      → (transition target allowed changes s).0 ≡ ok u
      → (length (candidates allowed) ≡ 1)
        × ((transition target allowed changes s).1.db ≡ moved_db target allowed changes)
        × ((transition target allowed changes s).1.self ≡ apply_changes target changes s.self)
  unfolding transition after_update
  transition_ok target allowed changes h = (ground arith, ground arith, ground arith)

  -- A refresh that returns has read the instance's row, and changed nothing else.
  refresh_from_db_ok :
      {u : Unit {0}}
      → (refresh_from_db s).0 ≡ ok u
      → (row : Assignment) × (row_with s.self.pk s.db.assignments ≡ some row)
        × ((refresh_from_db s).1 ≡ record s { self = row })
  unfolding refresh_from_db
  refresh_from_db_ok h = elim (Option-cases (row_with s.self.pk s.db.assignments)) [
    | inl e ↦ absurd (ground arith)
    | inr (row, e) ↦ (row, e, rw (e, refresh_from_db))
  ]

  -- The role's row is read, and only the cache changes.
  refresh_role_ok :
      {role : Role}
      → (refresh_role s).0 ≡ ok role
      → (role_with s.db s.self.role_id ≡ some role)
        × ((refresh_role s).1 ≡ record s { cache = invalidate_all s.in_atomic_block s.cache })
  unfolding refresh_role
  refresh_role_ok h = elim (Option-cases (role_with s.db s.self.role_id)) [
    | inl e ↦ absurd (ground arith)
    | inr (row, e) ↦ (ground arith, rw (e, refresh_role))
  ]

  fetch_scope_ok :
      (env : Env) {scope : Option Obj}
      → (fetch_scope env s).0 ≡ ok scope
      → (scope_of env s.self ≡ ok scope) × ((fetch_scope env s).1 ≡ s)
  unfolding fetch_scope
  fetch_scope_ok env h = (h, refl)

  send_ok :
      (env : Env) (raises : Event → Bool) (signal : Signal) (by : Option User) (reason : String)
      (snapshot : Assignment) {u : Unit {0}}
      → (send env raises signal by reason snapshot s).0 ≡ ok u
      → ((send env raises signal by reason snapshot s).1.db ≡ s.db)
        × ((send env raises signal by reason snapshot s).1.self ≡ s.self)
  unfolding send
  send_ok env raises signal by reason snapshot h = (ground arith, ground arith)

module _ (env : Env) (raises : Event → Bool) (s : Session) where
  -- A move that returns has changed exactly one row, and the instance like it.
  pub move_ok :
      (target : Status) (allowed : List Status) (changes : Option Changes) (signal : Signal)
      (by : Option User) (reason : String) {u : Unit {0}}
      → (move env raises target allowed changes signal by reason s).0 ≡ ok u
      → (length (candidates s allowed) ≡ 1)
        × ((move env raises target allowed changes signal by reason s).1.db
            ≡ moved_db s target allowed changes)
        × ((move env raises target allowed changes signal by reason s).1.self
            ≡ apply_changes target changes s.self)
  unfolding move invalidate
  move_ok target allowed changes signal by reason h =
      let (_, moved, run) = >>=-eq-ok (transition target allowed changes) _ s h in
      let (one, db, self) = transition_ok s target allowed changes moved in
      let t = (transition target allowed changes s).1 in
      let t' = (invalidate t).1 in
      let sent = send_ok t' env raises signal by reason s.self (sym (ap (λ r. r.0) run) ∙ h) in
      (one, ap (λ r. r.1.db) run ∙ sent.0 ∙ db, ap (λ r. r.1.self) run ∙ sent.1 ∙ self)

  authorize_scope_ok :
      (by : Option User) (t : Session) {u : Unit {0}}
      → (authorize_scope env by t).0 ≡ ok u
      → (scope : Option Obj) × (scope_of env t.self ≡ ok scope)
        × (can_manage_assignment env t.db by scope none ≡ true)
        × ((authorize_scope env by t).1 ≡ t)
  unfolding authorize_scope fetch_scope
  authorize_scope_ok by t h =
      let (scope, fetched, run) = >>=-eq-ok (fetch_scope env) _ t h in
      let gate =
        ensure_ok t (can_manage_assignment env t.db by scope none) assignment_management
          (sym (ap (λ r. r.0) run) ∙ h) in
      (scope, fetched, gate.0, ap (λ r. r.1) run ∙ gate.1)

  authorize_row_ok :
      (by : Option User) {u : Unit {0}}
      → (authorize_row env by s).0 ≡ ok u
      → (row : Assignment) × (scope : Option Obj) × (row_with s.self.pk s.db.assignments ≡ some row)
        × (scope_of env row ≡ ok scope)
        × (can_manage_assignment env s.db by scope none ≡ true)
        × ((authorize_row env by s).1 ≡ record s { self = row })
  unfolding authorize_row
  authorize_row_ok by h =
      let (_, refreshed, run) = >>=-eq-ok refresh_from_db (λ _. authorize_scope env by) s h in
      let (row, found, now) = refresh_from_db_ok s refreshed in
      let run' = run ∙ ap (authorize_scope env by) now in
      let (scope, fetched, allowed, same) =
        authorize_scope_ok by (record s { self = row }) (sym (ap (λ r. r.0) run') ∙ h) in
      (row, scope, found, fetched, allowed, ap (λ r. r.1) run' ∙ same)

  -- An authorization that returns has read the instance's row, and the actor may manage
  -- assignments at its scope.
  pub authorize_ok :
      (by : Option User) {u : Unit {0}}
      → (authorize env by s).0 ≡ ok u
      → (row : Assignment) × (scope : Option Obj) × (row_with s.self.pk s.db.assignments ≡ some row)
        × (scope_of env row ≡ ok scope)
        × (can_manage_assignment env s.db by scope none ≡ true)
        × ((authorize env by s).1 ≡ record s { self = row })
  unfolding authorize
  authorize_ok by h = elim (Bool-cases (is_some s.self.pk)) [
    | inr e ↦ absurd (ground arith)
    | inl e ↦ rw e (authorize_row_ok by (rw e at h))
  ]

  -- The check of the persisted status changes nothing.
  pub ensure_suspended_ok :
      {u : Unit {0}} → (ensure_suspended env s).0 ≡ ok u → (ensure_suspended env s).1 ≡ s
  unfolding ensure_suspended
  ensure_suspended_ok h = (ensure_ok s _ invalid_transition h).1

  delegate_role_ok :
      (by : Option User) (role : Role) (t : Session) {u : Unit {0}}
      → (delegate_role env by role t).0 ≡ ok u
      → (scope : Option Obj) × (scope_of env t.self ≡ ok scope)
        × (can_assign_role env t.db by role t.self.level scope none ≡ true)
        × ((delegate_role env by role t).1 ≡ t)
  unfolding delegate_role delegate_at fetch_scope
  delegate_role_ok by role t h =
      let (scope, fetched, run) = >>=-eq-ok (fetch_scope env) _ t h in
      let (_, now) = fetch_scope_ok t env fetched in
      let gate =
        ensure_ok t (can_assign_role env t.db by role t.self.level scope none) role_assignment
          (sym (ap (λ r. r.0) run) ∙ h) in
      (scope, (fetch_scope_ok t env fetched).0, gate.0, ap (λ r. r.1) run ∙ gate.1)

  -- A delegation check that returns has read the role's row, and the actor may assign that role
  -- at the instance's level and scope.
  pub delegate_ok :
      (by : Option User) {u : Unit {0}}
      → (delegate env by s).0 ≡ ok u
      → (role : Role) × (scope : Option Obj) × (role_with s.db s.self.role_id ≡ some role)
        × (scope_of env s.self ≡ ok scope)
        × (can_assign_role env s.db by role s.self.level scope none ≡ true)
        × ((delegate env by s).1 ≡ record s { cache = invalidate_all s.in_atomic_block s.cache })
  unfolding delegate
  delegate_ok by h =
      let (role, refreshed, run) = >>=-eq-ok refresh_role (delegate_role env by) s h in
      let (found, now) = refresh_role_ok s refreshed in
      let run' = run ∙ ap (delegate_role env by role) now in
      let (scope, fetched, allowed, same) =
        delegate_role_ok by role (record s { cache = invalidate_all s.in_atomic_block s.cache })
          (sym (ap (λ r. r.0) run') ∙ h) in
      (role, scope, found, fetched, allowed, ap (λ r. r.1) run' ∙ same)
