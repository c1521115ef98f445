-- ===== src/Lifecycle/Outcomes.antt =====
-- The outcome of `suspend`, `reactivate` and `revoke` (scoped_access/models.py), on every branch.
use django_auth_with_scoped.Base.{
  ◌≡◌, ◌≢◌, refl, ◌∙◌, sym, ap, Bool, true, Option, none, some, List, [], ◌∷◌, arith, String,
  filter, length, subst,
}
use django_auth_with_scoped.World.{Obj}
use django_auth_with_scoped.Models.{
  User, Role, Status, active, suspended, revoked, status_eq, Assignment, Db, role_with,
}
use django_auth_with_scoped.Config.{Env}
use django_auth_with_scoped.Engine.Roles.{can_manage_assignment, can_assign_role}
use django_auth_with_scoped.Exec.{Error, ok, err, Exec, ◌>>◌}
use django_auth_with_scoped.Cache.{invalidate_all}
use django_auth_with_scoped.Transaction.{
  Event, Session, Signal, assignment_suspended, assignment_reactivated, assignment_revoked, atomic,
}
use django_auth_with_scoped.Lifecycle.{
  Changes, row_with, is_candidate, update, apply_changes, scope_of, authorize, move, suspend_body,
  suspend, ensure_suspended, delegate, reactivate_body, reactivate, revocation, revoke_body, revoke,
}
use django_auth_with_scoped.Lifecycle.Steps.{
  >>=-eq-ok, atomic_err, atomic_ok, entered, move_ok, authorize_ok, ensure_suspended_ok,
  delegate_ok,
}

-- the three methods, each with the status it sets, those it starts from, and what else it sets
pub data Method : Type 0 where
  suspends reactivates revokes : Method

abbrev pub target : Method → Status
target suspends = suspended
target reactivates = active
target revokes = revoked

abbrev pub allowed_from : Method → List Status
allowed_from suspends = active ∷ []
allowed_from reactivates = suspended ∷ []
allowed_from revokes = active ∷ suspended ∷ []

module _ (env : Env) (raises : Event → Bool) where
  unfoldable pub perform : Method → Option User → String → Exec Session (Unit {0})
  perform suspends by reason = suspend env raises by reason
  perform reactivates by reason = reactivate env raises by reason
  perform revokes by reason = revoke env raises by reason

  abbrev pub changes : Method → Option User → String → Option Changes
  changes revokes by reason = some (revocation env raises by reason)
  changes _ by reason = none

  -- the actor may assign the row's role, as stored, at the row's level and scope
  pub MayDelegate : Option User → Db → Assignment → Option Obj → Type 0
  MayDelegate by db row scope =
      (role : Role) × (role_with db row.role_id ≡ some role)
      × (can_assign_role env db by role row.level scope none ≡ true)

  -- What a method that returns has done: it has read the instance's row, the actor may manage
  -- assignments at that row's scope, and exactly one row has changed, from an allowed status.
  pub record Outcome (m : Method) (by : Option User) (reason : String) (s : Session) (db : Db)
      (self : Assignment) : Type 0 where
    pub row : Assignment
    pub scope : Option Obj
    pub found : row_with s.self.pk s.db.assignments ≡ some row
    pub fetched : scope_of env row ≡ ok scope
    pub allowed : can_manage_assignment env s.db by scope none ≡ true
    pub one : length (filter (is_candidate row.pk (allowed_from m)) s.db.assignments) ≡ 1
    pub moved : db ≡ record s.db {
      assignments =
          update
            (is_candidate row.pk (allowed_from m))
            (apply_changes (target m) (changes m by reason))
            s.db.assignments;
    }
    pub delegated : m ≡ reactivates → MayDelegate by s.db row scope
    pub instance_moved : self ≡ apply_changes (target m) (changes m by reason) row

  module _ (by : Option User) (reason : String) (s : Session) where
    outcome :
        (m : Method) (t : Session) (row : Assignment) (scope : Option Obj) {u : Unit {0}}
        → row_with s.self.pk s.db.assignments ≡ some row
        → scope_of env row ≡ ok scope
        → can_manage_assignment env s.db by scope none ≡ true
        → (m ≡ reactivates → MayDelegate by s.db row scope)
        → t.db ≡ s.db
        → t.self ≡ row
        → (sig : Signal)
        → (move env raises (target m) (allowed_from m) (changes m by reason) sig by reason t).0
          ≡ ok u
        → let end =
            (move env raises (target m) (allowed_from m) (changes m by reason) sig by reason t).1 in
          Outcome m by reason s end.db end.self
    outcome m t row scope found fetched allowed delegated db self sig h =
        let (one, moved, instance_moved) =
          move_ok env raises t (target m) (allowed_from m) (changes m by reason) sig by reason h in
        record {
          row = row;
          scope = scope;
          found = found;
          fetched = fetched;
          allowed = allowed;
          delegated = delegated;
          one = rw (db, self) at one;
          moved = moved ∙ rw (db, self);
          instance_moved =
              instance_moved ∙ ap (apply_changes (target m) (changes m by reason)) self;
        }

    from_authorized :
        (m : Method) (sig : Signal) {u : Unit {0}}
        → m ≢ reactivates
        → let rest =
            move env raises (target m) (allowed_from m) (changes m by reason) sig by reason in
          ((authorize env by >> rest) s).0 ≡ ok u
          → Outcome m by reason s
              ((authorize env by >> rest) s).1.db
              ((authorize env by >> rest) s).1.self
    from_authorized m sig other h =
        let rest =
          move env raises (target m) (allowed_from m) (changes m by reason) sig by reason in
        let (_, authorized, run) = >>=-eq-ok (authorize env by) (λ _. rest) s h in
        let (row, scope, found, fetched, allowed, now) = authorize_ok env raises s by authorized in
        let run' = run ∙ ap rest now in
        subst (λ r. Outcome m by reason s r.1.db r.1.self) (sym run')
          (outcome m (record s { self = row }) row scope found fetched allowed
            (λ same. absurd (other same)) refl refl sig (sym (ap (λ r. r.0) run') ∙ h))

    moves : Exec Session (Unit {0})
    moves = move env raises active (suspended ∷ []) none assignment_reactivated by reason

    -- what `reactivate` does after its checks of the row
    from_delegated :
        (row : Assignment) (scope : Option Obj) {u : Unit {0}}
        → row_with s.self.pk s.db.assignments ≡ some row
        → scope_of env row ≡ ok scope
        → can_manage_assignment env s.db by scope none ≡ true
        → let start = record s { self = row } in
          ((delegate env by >> moves) start).0 ≡ ok u
          → let end = ((delegate env by >> moves) start).1 in
            Outcome reactivates by reason s end.db end.self
    unfolding moves MayDelegate
    from_delegated row scope found fetched allowed h =
        let start = record s { self = row } in
        let (_, delegated, run) = >>=-eq-ok (delegate env by) (λ _. moves) start h in
        let (role, scope', found_role, fetched', may, now) =
          delegate_ok env raises start by delegated in
        let run' = run ∙ ap moves now in
        let same : scope' ≡ scope = cc in
        subst (λ r. Outcome reactivates by reason s r.1.db r.1.self) (sym run')
          (outcome reactivates (record start { cache = invalidate_all s.in_atomic_block s.cache })
            row scope found fetched allowed
            (λ _. (
              role,
              found_role,
              subst (λ o. can_assign_role env s.db by role row.level o none ≡ true) same may,
            ))
            refl refl assignment_reactivated (sym (ap (λ r. r.0) run') ∙ h))

    from_reactivated :
        {u : Unit {0}}
        → (reactivate_body env raises by reason s).0 ≡ ok u
        → let end = (reactivate_body env raises by reason s).1 in
          Outcome reactivates by reason s end.db end.self
    unfolding reactivate_body moves
    from_reactivated h =
        let rest₂ = delegate env by >> moves in
        let rest₁ = ensure_suspended env >> rest₂ in
        let (_, authorized, run₁) = >>=-eq-ok (authorize env by) (λ _. rest₁) s h in
        let (row, scope, found, fetched, allowed, now₁) = authorize_ok env raises s by authorized in
        let start = record s { self = row } in
        let to₁ = run₁ ∙ ap rest₁ now₁ in
        let (_, ensured, run₂) =
          >>=-eq-ok (ensure_suspended env) (λ _. rest₂) start (sym (ap (λ r. r.0) to₁) ∙ h) in
        let to₂ = to₁ ∙ run₂ ∙ ap rest₂ (ensure_suspended_ok env raises start ensured) in
        subst (λ r. Outcome reactivates by reason s r.1.db r.1.self) (sym to₂)
          (from_delegated row scope found fetched allowed (sym (ap (λ r. r.0) to₂) ∙ h))

  from_atomic :
      (m : Method) (by : Option User) (reason : String) (s : Session)
      (body : Exec Session (Unit {0})) {u : Unit {0}}
      → ((body (entered body s)).0 ≡ ok u
          → Outcome m by reason
              (entered body s)
              (body (entered body s)).1.db
              (body (entered body s)).1.self)
      → (atomic body s).0 ≡ ok u
      → Outcome m by reason s (atomic body s).1.db (atomic body s).1.self
  from_atomic m by reason s body out h =
      let (returned, db, self) = atomic_ok body s h in
      let o = out returned in
      record {
        row = o.row;
        scope = o.scope;
        found = o.found;
        fetched = o.fetched;
        allowed = o.allowed;
        delegated = o.delegated;
        one = o.one;
        moved = db ∙ o.moved;
        instance_moved = self ∙ o.instance_moved;
      }

  -- When `suspend`, `reactivate` or `revoke` returns, then the instance's row was stored, its scope
  -- could be fetched, the actor may manage assignments at that scope, exactly one row had the
  -- instance's key and a status the method starts from, that row and the instance have moved to
  -- the method's status with nothing else in the tables changed, and for `reactivate` the actor
  -- may assign the row's role at its level and scope.
  pub perform-Outcome :
      (m : Method) (by : Option User) (reason : String) (s : Session) {u : Unit {0}}
      → (perform m by reason s).0 ≡ ok u
      → Outcome m by reason s (perform m by reason s).1.db (perform m by reason s).1.self
  unfolding perform suspend reactivate revoke suspend_body revoke_body
  perform-Outcome suspends by reason s h =
      from_atomic suspends by reason s (suspend_body env raises by reason)
        (from_authorized by reason (entered (suspend_body env raises by reason) s) suspends
          assignment_suspended (ground arith))
        h
  perform-Outcome reactivates by reason s h =
      from_atomic reactivates by reason s (reactivate_body env raises by reason)
        (from_reactivated by reason (entered (reactivate_body env raises by reason) s)) h
  perform-Outcome revokes by reason s h =
      from_atomic revokes by reason s (revoke_body env raises by reason)
        (from_authorized by reason (entered (revoke_body env raises by reason) s) revokes
          assignment_revoked (ground arith))
        h

  -- When `suspend`, `reactivate` or `revoke` raises, at whatever point, the tables are as before.
  pub perform_err :
      (m : Method) (by : Option User) (reason : String) (s : Session) {e : Error}
      → (perform m by reason s).0 ≡ err e
      → (perform m by reason s).1.db ≡ s.db
  unfolding perform suspend reactivate revoke
  perform_err suspends by reason s h = atomic_err (suspend_body env raises by reason) s h
  perform_err reactivates by reason s h = atomic_err (reactivate_body env raises by reason) s h
  perform_err revokes by reason s h = atomic_err (revoke_body env raises by reason) s h
