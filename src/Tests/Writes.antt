-- ===== src/Tests/Writes.antt =====
-- The writes of scoped_access/models.py, and the cache of scoped_access/cache.py, on the small deployment.
use mathlib.Core.List.Memᴰ
use django_auth_with_scoped.Base.{
  ℕ, ◌≡◌, ◌≢◌, inl, inr, refl, sym, ap, subst, nat_eq, nat_beq, Bool-cases, true, false, Option,
  none, some, [], ◌∷◌, Memᴰ, arith, contains, string_eq, filter, lookup, any, all, union, subset,
  get_elem?,
}
use django_auth_with_scoped.Registry
use django_auth_with_scoped.Models
use django_auth_with_scoped.Models.{Assignment, Db}
use django_auth_with_scoped.Engine.Scope
use django_auth_with_scoped.Engine.Decision
use django_auth_with_scoped.Engine.Roles
use django_auth_with_scoped.Cache
use django_auth_with_scoped.Cache.Course.{
  Request, start, write_user, begin, rollback, Reach, here, next,
}
use django_auth_with_scoped.Exec.{
  ok, err, assignment_management, integrity_error, invalid_transition, assignment_scope,
  role_assignment,
}
use django_auth_with_scoped.Lifecycle
use django_auth_with_scoped.Transaction.{Session}
use django_auth_with_scoped.Lifecycle.Outcomes.{
  suspends, reactivates, revokes, perform, Outcome, perform-Outcome,
}
use django_auth_with_scoped.Lifecycle.History.{Course, Evolves, course-Evolves}
use django_auth_with_scoped.Transaction
use django_auth_with_scoped.Granting
use django_auth_with_scoped.Granting.Unique.{Operations, IsUnique, no_rows, more, live_unique}
use django_auth_with_scoped.Tests.{
  env, db, person, manager, at_org, at_root, at_clinic, session, quiet, next_pk,
}

-- user 1 gives the custom role at a clinic of the organization, at another, and again at the organization to user 1
abbrev request_at : ℕ → Option ℕ → ℕ → ℕ → Granting.Request
request_at user level model pk = record {
  user_pk = user;
  role = manager;
  by = some (person 1);
  level = level;
  scope = some (record { model = model; pk = some pk; handle = pk });
  valid_from = none;
  valid_until = some 150;
  unsupported = [];
}

abbrev new_row : Assignment
new_row = Granting.new_row env (request_at 4 none 1 5) manager (some 2) 50

runs :
    ((perform env quiet revokes (some (person 1)) "left" (session at_org)).0 ≡ ok tt)
    × ((perform env quiet reactivates (some (person 1)) "back" (session at_clinic)).0 ≡ ok tt)
    × ((perform env quiet suspends (some (person 1)) "no" (session at_root)).0
        ≡ err assignment_management)
    × ((perform env quiet suspends (some (person 1)) "no" (session at_clinic)).0
        ≡ err invalid_transition)
    × ((Granting.grant env quiet next_pk (request_at 4 none 1 5) (session at_org)).0 ≡ ok new_row)
    × ((Granting.grant env quiet next_pk (request_at 4 none 1 6) (session at_org)).0
        ≡ err role_assignment)
    × ((Granting.grant env quiet next_pk (request_at 1 (some 1) 0 1) (session at_org)).0
        ≡ err integrity_error)
    × ((Granting.grant env quiet next_pk (request_at 4 (some 1) 1 5) (session at_org)).0
        ≡ err assignment_scope)
unfolding Decision.has_perm contains Decision.user_permissions Decision.user_covers
    Decision.any_covers Decision.is_unregistered Decision.anchor_of Scope.resolve_anchor
    Registry.is_node_model Registry.is_global Registry.anchor_for Scope.follow Decision.collect
    Decision.effective_assignments Decision.fetch_effective Models.select_related Models.effective
    Models.is_effective Models.role_with Scope.assignment_is_valid lookup any filter union subset
    Scope.any_same_node Scope.assignment_scope_is_valid Scope.assignment_scope_or_none
    Scope.covers_anchor Scope.covers Scope.follow_parts Scope.found_or_none Scope.is_owner
    Scope.iter_ancestors Scope.level_holds Scope.node_shape_is_valid Scope.owner_above
    Scope.parent_of Scope.role_assignable Scope.role_owner_or_none Scope.root_shape_is_valid
    Scope.same_node Scope.walk Models.label Models.permissions_of Models.role_perms Registry.by_name
    Registry.index Registry.rank Registry.first_parent Registry.has_row Registry.is_root
    Registry.is_root_name Registry.level Registry.levels_for_model Registry.model
    Registry.parent_accessor_for_model Registry.queryset Roles.can_manage_role Roles.manages_role
    Roles.owner_of Roles.can_grant_permission Roles.grantable Roles.collect_root
    Roles.can_assign_role Roles.can_assign_row Roles.delegable Roles.role_visible
    Roles.can_manage_assignment Roles.manages_assignments Roles.holds_at_root all perform
    Lifecycle.suspend Lifecycle.suspend_body Lifecycle.reactivate Lifecycle.reactivate_body
    Lifecycle.revoke Lifecycle.revoke_body Lifecycle.revocation Lifecycle.delegate
    Lifecycle.delegate_role Lifecycle.delegate_at Lifecycle.ensure_suspended Lifecycle.authorize
    Lifecycle.authorize_row Lifecycle.authorize_scope Lifecycle.fetch_scope Lifecycle.scope_of
    Lifecycle.refresh_role Lifecycle.refresh_from_db Lifecycle.invalidate Lifecycle.transition
    Lifecycle.after_update Lifecycle.update Lifecycle.row_with Transaction.atomic
    Transaction.leave_atomic Transaction.run_callbacks Lifecycle.send Lifecycle.move
    Cache.invalidate_user Cache.invalidate_all Cache.mark_transaction_dirty Granting.grant
    Granting.grant_body Granting.grant_keywords Granting.grant_level Granting.grant_at
    Granting.checked_create Granting.create Granting.announce Granting.check Granting.insert
    Granting.new_row Granting.level_of Granting.matching_levels Granting.only_name
    Granting.refresh_for_mutation Granting.refreshed Granting.locked Granting.window_is_empty
    Granting.conflicts Granting.same_key Granting.same_columns
runs = (refl, refl, refl, refl, refl, refl, refl, refl)

perform-Outcome_example :
    let end = (perform env quiet revokes (some (person 1)) "left" (session at_org)).1 in
    Outcome env quiet revokes (some (person 1)) "left" (session at_org) end.db end.self
perform-Outcome_example =
    perform-Outcome env quiet revokes (some (person 1)) "left" (session at_org) runs.0

-- user 1 suspends its own assignment and then tries to revoke one that it may not
abbrev suspended_session : Session
suspended_session = (perform env quiet suspends (some (person 1)) "" (session at_org)).1

abbrev course :
    Course env quiet
      (session at_org)
      (perform env quiet revokes (some (person 1)) "" suspended_session).1
course =
    Course.call suspended_session revokes (some (person 1)) ""
      (Course.call (session at_org) suspends (some (person 1)) "" Course.start refl) refl

course-Evolves_example :
    Evolves db.assignments
      (perform env quiet revokes (some (person 1)) "" suspended_session).1.db.assignments
course-Evolves_example = course-Evolves env quiet course

apart_at_org :
    (b : Assignment) → Memᴰ b (at_root ∷ at_clinic ∷ []) → Granting.conflicts at_org b ≡ false
unfolding Granting.conflicts Granting.same_key
apart_at_org b m = elim (Memᴰ.cases_cons m) [
  | inl q ↦ subst (λ x. Granting.conflicts at_org x ≡ false) (sym q) refl
  | inr k ↦ elim (Memᴰ.cases_cons k) [
    | inl q ↦ subst (λ x. Granting.conflicts at_org x ≡ false) (sym q) refl
    | inr none_left ↦ elim none_left [ ]
  ]
]

apart_at_root : (b : Assignment) → Memᴰ b (at_clinic ∷ []) → Granting.conflicts at_root b ≡ false
unfolding Granting.conflicts Granting.same_key
apart_at_root b m = elim (Memᴰ.cases_cons m) [
  | inl q ↦ subst (λ x. Granting.conflicts at_root x ≡ false) (sym q) refl
  | inr none_left ↦ elim none_left [ ]
]

IsUnique-rows : IsUnique db.assignments
IsUnique-rows =
    more (λ h. (refl, refl)) apart_at_org
      (more (λ h. cc) apart_at_root (more (λ h. (refl, refl)) (λ b m. elim m [ ]) no_rows))

abbrev granted_session : Session
granted_session = (Granting.grant env quiet next_pk (request_at 4 none 1 5) (session at_org)).1

granted_rows : granted_session.db.assignments ≡ new_row ∷ at_org ∷ at_root ∷ at_clinic ∷ []
unfolding Decision.has_perm contains Decision.user_permissions Decision.user_covers
    Decision.any_covers Decision.is_unregistered Decision.anchor_of Scope.resolve_anchor
    Registry.is_node_model Registry.is_global Registry.anchor_for Scope.follow Decision.collect
    Decision.effective_assignments Decision.fetch_effective Models.select_related Models.effective
    Models.is_effective Models.role_with Scope.assignment_is_valid lookup any filter union subset
    Scope.any_same_node Scope.assignment_scope_is_valid Scope.assignment_scope_or_none
    Scope.covers_anchor Scope.covers Scope.follow_parts Scope.found_or_none Scope.is_owner
    Scope.iter_ancestors Scope.level_holds Scope.node_shape_is_valid Scope.owner_above
    Scope.parent_of Scope.role_assignable Scope.role_owner_or_none Scope.root_shape_is_valid
    Scope.same_node Scope.walk Models.label Models.permissions_of Models.role_perms Registry.by_name
    Registry.index Registry.rank Registry.first_parent Registry.has_row Registry.is_root
    Registry.is_root_name Registry.level Registry.levels_for_model Registry.model
    Registry.parent_accessor_for_model Registry.queryset Roles.can_manage_role Roles.manages_role
    Roles.owner_of Roles.can_grant_permission Roles.grantable Roles.collect_root
    Roles.can_assign_role Roles.can_assign_row Roles.delegable Roles.role_visible
    Roles.can_manage_assignment Roles.manages_assignments Roles.holds_at_root all perform
    Lifecycle.suspend Lifecycle.suspend_body Lifecycle.reactivate Lifecycle.reactivate_body
    Lifecycle.revoke Lifecycle.revoke_body Lifecycle.revocation Lifecycle.delegate
    Lifecycle.delegate_role Lifecycle.delegate_at Lifecycle.ensure_suspended Lifecycle.authorize
    Lifecycle.authorize_row Lifecycle.authorize_scope Lifecycle.fetch_scope Lifecycle.scope_of
    Lifecycle.refresh_role Lifecycle.refresh_from_db Lifecycle.invalidate Lifecycle.transition
    Lifecycle.after_update Lifecycle.update Lifecycle.row_with Transaction.atomic
    Transaction.leave_atomic Transaction.run_callbacks Lifecycle.send Lifecycle.move
    Cache.invalidate_user Cache.invalidate_all Cache.mark_transaction_dirty Granting.grant
    Granting.grant_body Granting.grant_keywords Granting.grant_level Granting.grant_at
    Granting.checked_create Granting.create Granting.announce Granting.check Granting.insert
    Granting.new_row Granting.level_of Granting.matching_levels Granting.only_name
    Granting.refresh_for_mutation Granting.refreshed Granting.locked Granting.window_is_empty
    Granting.conflicts Granting.same_key Granting.same_columns
granted_rows = refl

second_row : get_elem? granted_session.db.assignments 1 ≡ some at_org
second_row = ap (λ rows. get_elem? rows 1) granted_rows

live_unique_example : ◌≡◌ {A = ℕ} 1 1
live_unique_example =
    live_unique env quiet next_pk {s = session at_org} {t = granted_session}
      (Operations.grants (session at_org) (request_at 4 none 1 5) Operations.start refl)
      IsUnique-rows 1 1 at_org at_org second_row second_row refl refl
      (record { user_id = refl; role_id = refl; level = refl; scope_ct_id = refl; scope_id = refl })

abbrev without_user_1 : Db
without_user_1 = record db { assignments = at_root ∷ at_clinic ∷ [] }

same_loads : (other : ℕ) → 1 ≢ other → Cache.load db other ≡ Cache.load without_user_1 other
unfolding Cache.load filter Models.select_related Models.role_with
same_loads other h =
    let apart : nat_beq 1 other ≡ false = ground (arith, nat_eq.same_iff 1 other) in
    elim (Bool-cases (nat_beq 2 other)) [
      | inl e ↦ elim (Bool-cases (nat_beq 3 other)) [
        | inl e' ↦ rw (apart, e, e') refl
        | inr e' ↦ rw (apart, e, e') refl
      ]
      | inr e ↦ elim (Bool-cases (nat_beq 3 other)) [
        | inl e' ↦ rw (apart, e, e') refl
        | inr e' ↦ rw (apart, e, e') refl
      ]
    ]

abbrev opened : Request
opened = record (start db) { saved = some db }

abbrev written : Request
written = record opened { db = without_user_1; cache = Cache.invalidate_user true 1 opened.cache }

-- in a transaction user 1's assignment goes, and then the transaction rolls back
abbrev rolled_back : Request
rolled_back = record written { db = db; saved = none }

abbrev course_of_request : Reach (start db) rolled_back
course_of_request =
    next (next (next here (begin refl)) (write_user 1 without_user_1 same_loads)) (rollback db refl)
