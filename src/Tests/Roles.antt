-- ===== src/Tests/Roles.antt =====
-- `RoleService` (scoped_access/services.py) on the small deployment.
use django_auth_with_scoped.Base.{
  ℕ, ◌≡◌, refl, Bool, false, Option, none, some, [], ◌∷◌, Memᴰ, contains, string_eq, filter, lookup,
  any, all, union, subset,
}
use django_auth_with_scoped.World.{Obj}
use django_auth_with_scoped.Registry
use django_auth_with_scoped.Models
use django_auth_with_scoped.Models.{Role, Permission, Db}
use django_auth_with_scoped.Engine.Scope
use django_auth_with_scoped.Engine.Decision
use django_auth_with_scoped.Engine.Roles
use django_auth_with_scoped.Engine.Roles.Escalation.{Holds}
use django_auth_with_scoped.Cache
use django_auth_with_scoped.Exec.{ok, err, role_management, protected_error}
use django_auth_with_scoped.Transaction
use django_auth_with_scoped.Granting
use django_auth_with_scoped.RoleService
use django_auth_with_scoped.RoleService.Outcome.{
  Added, grant_permissions-Added, grant_permissions_self,
}
use django_auth_with_scoped.RoleService.Edits.{Deleted, delete-Deleted}
use django_auth_with_scoped.Tests.{
  env, db, person, manager, auditor, assistant, view_note, at_org, session, finite_depth,
}

abbrev calm : Transaction.RoleEvent → Bool
calm e = false

abbrev next_role_pk : Db → ℕ
next_role_pk d = 60

abbrev rename : RoleService.Edit
rename = record {
  name = some 77;
  description = none;
  owner = none;
  owner_level = none;
  unknown = [];
}

abbrev renamed : Role
renamed = record manager { name = 77 }

abbrev to_system : RoleService.Edit
to_system = record rename { owner = some none }

runs :
    ((RoleService.grant_permissions env calm assistant
        (view_note ∷ [])
        (some (person 1))
        (session at_org)).0
      ≡ ok tt)
    × ((RoleService.revoke_permissions env calm manager
          (view_note ∷ [])
          (some (person 1))
          (session at_org)).0
        ≡ ok tt)
    × ((RoleService.update env manager (some (person 1)) rename (session at_org)).0 ≡ ok renamed)
    × ((RoleService.delete env assistant (some (person 1)) (session at_org)).0 ≡ ok tt)
    × ((RoleService.delete env manager (some (person 1)) (session at_org)).0 ≡ err protected_error)
    × ((RoleService.update env manager (some (person 1)) to_system (session at_org)).0
        ≡ err role_management)
    × ((RoleService.create env calm next_role_pk
          (record assistant { name = 80 })
          (some (person 1))
          (view_note ∷ [])
          (session at_org)).0
        ≡ ok (record assistant { name = 80; pk = some 60 }))
    × ((RoleService.grant_permissions env calm auditor
          (view_note ∷ [])
          (some (person 1))
          (session at_org)).0
        ≡ err role_management)
unfolding Decision.has_perm contains Decision.user_permissions Decision.user_covers
    Decision.any_covers Decision.is_unregistered Decision.anchor_of Scope.resolve_anchor
    Registry.is_node_model Registry.is_global Registry.anchor_for Scope.follow Decision.collect
    Decision.effective_assignments Decision.fetch_effective Models.select_related Models.effective
    Models.is_effective Models.role_with Scope.assignment_is_valid lookup any filter union subset
    Scope.any_same_node Scope.assignment_scope_is_valid Scope.assignment_scope_or_none
    Scope.covers_anchor Scope.covers Scope.follow_parts Scope.found_or_none Scope.is_owner
    Scope.iter_ancestors Scope.level_holds Scope.node_shape_is_valid Scope.owner_above
    Scope.parent_of Scope.role_assignable Scope.role_owner_or_none Scope.root_shape_is_valid
    Scope.same_node Scope.walk Models.label Models.permissions_of Models.role_perms Registry.by_name
    Registry.index Registry.rank Registry.first_parent Registry.has_row Registry.is_root
    Registry.is_root_name Registry.level Registry.levels_for_model Registry.model
    Registry.parent_accessor_for_model Registry.queryset Roles.can_manage_role Roles.manages_role
    Roles.owner_of Roles.can_grant_permission Roles.grantable Roles.collect_root
    Roles.can_assign_role Roles.can_assign_row Roles.delegable Roles.role_visible
    Roles.can_manage_assignment Roles.manages_assignments Roles.holds_at_root all Decision.sorted
    Decision.insert_sorted Transaction.atomic Transaction.leave_atomic Transaction.run_callbacks
    Cache.invalidate_all Cache.mark_transaction_dirty Granting.matching_levels Granting.only_name
    Granting.refresh_for_mutation Granting.refreshed Granting.locked RoleService.same_name
    RoleService.others RoleService.write_role RoleService.invalidate_roles RoleService.is_row_of
    RoleService.holds_row RoleService.add_permissions RoleService.remove_permissions
    RoleService.with_owner_level RoleService.validate_level RoleService.validate_fetched
    RoleService.validate_owner RoleService.validate RoleService.ensure_manages RoleService.save
    RoleService.forbidden RoleService.announce_change RoleService.add_unless RoleService.add_checked
    RoleService.add_managed RoleService.grant_permissions RoleService.remove_checked
    RoleService.remove_managed RoleService.revoke_permissions RoleService.delete_row
    RoleService.delete_managed RoleService.delete RoleService.apply_edit RoleService.save_valid
    RoleService.save_edited RoleService.flush RoleService.update_managed RoleService.update_keywords
    RoleService.update RoleService.insert_role RoleService.grant_first RoleService.create_valid
    RoleService.create
runs = (refl, refl, refl, refl, refl, refl, refl, refl)

grant_permissions-Added_example :
    Added env calm assistant
      (view_note ∷ [])
      (some (person 1))
      db
      (RoleService.grant_permissions env calm assistant
        (view_note ∷ [])
        (some (person 1))
        (session at_org)).1.db
grant_permissions-Added_example =
    grant_permissions-Added env calm assistant (view_note ∷ []) (some (person 1)) (session at_org)
      runs.0

grant_permissions_self_example :
    (row : Role) × ((pk : ℕ) × (some 3 ≡ some pk) × (Models.role_with db pk ≡ some row))
    × ((p : Permission)
        → Memᴰ p (view_note ∷ [])
        → RoleService.holds_row db row p ≡ false
        → (owner : Option Obj) × (Roles.owner_of env db row ≡ some owner)
          × Holds env db (person 1) (Models.label p) owner none)
grant_permissions_self_example =
    grant_permissions_self env calm finite_depth assistant (view_note ∷ []) (person 1)
      (session at_org) refl refl runs.0

delete-Deleted_example :
    Deleted env assistant
      (some (person 1))
      db
      (RoleService.delete env assistant (some (person 1)) (session at_org)).1.db
delete-Deleted_example = delete-Deleted env assistant (some (person 1)) (session at_org) runs.3
