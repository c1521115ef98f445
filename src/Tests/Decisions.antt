-- ===== src/Tests/Decisions.antt =====
-- The decisions of scoped_access/engine.py, scoped_access/registry.py and scoped_access/models.py on the small deployment.
use django_auth_with_scoped.Base.{
  ℕ, ◌≡◌, refl, ◌↔◌, ◌⊎◌, true, false, Option, none, some, List, [], ◌∷◌, map, String, contains,
  string_eq, filter, lookup, any, all, union, subset,
}
use django_auth_with_scoped.World.{Obj}
use django_auth_with_scoped.Registry
use django_auth_with_scoped.Models
use django_auth_with_scoped.Registry.Anchors
use django_auth_with_scoped.Registry.Anchors.{status-run}
use django_auth_with_scoped.Engine.Scope
use django_auth_with_scoped.Engine.Scope.{node}
use django_auth_with_scoped.Engine.Scope.Coverage.{CoversAnchor, covers_iff}
use django_auth_with_scoped.Engine.Scope.Tenancy.{InOwnerSubtree, covers_tenant}
use django_auth_with_scoped.Engine.Decision
use django_auth_with_scoped.Engine.Decision.Access.{IsAuthorized, has_perm_iff}
use django_auth_with_scoped.Engine.Decision.Admission.{
  IsAdmitted, user_covers_iff, has_perm-user_covers,
}
use django_auth_with_scoped.Engine.Decision.Listing.{access_summary_lem}
use django_auth_with_scoped.Engine.Roles
use django_auth_with_scoped.Engine.Roles.Authority.{
  ManagesRole, ManagesAssignments, can_manage_role_iff, can_manage_assignment_iff,
}
use django_auth_with_scoped.Engine.Roles.Escalation.{Holds, can_assign_role_self}
use django_auth_with_scoped.Engine.Filters
use django_auth_with_scoped.Tests.{
  org, clinic, other_clinic, note, env, db, hierarchy, world, person, managed, manager, auditor,
  at_org, at_clinic, finite_depth, sound_references, distinct_content_types, stable_parents,
}

-- Runs of the engine: what user 1, 2 and 3 may do, and the facts that the examples below use.
runs :
    (Decision.has_perm env db (person 1) "clinical.view_note" (some note) none ≡ true)
    × (Decision.has_perm env db (person 1) "clinical.view_note" (some other_clinic) none ≡ false)
    × (Decision.has_perm env db (person 2) "clinical.view_note" (some other_clinic) none ≡ true)
    × (Decision.has_perm env db (person 3) "clinical.view_note" (some clinic) none ≡ false)
    × (Decision.has_perm env db (person 1) "clinical.view_note" (some note) (some 200) ≡ false)
    × (Decision.user_covers env db (person 1) clinic none ≡ true)
    × (Scope.iter_ancestors env clinic ≡ clinic ∷ org ∷ [])
    × (Registry.rank hierarchy 2 ≡ some 2)
    × (Registry.rank hierarchy 7 ≡ none)
    × (Scope.covers env managed note ≡ true)
    × (Scope.covers env managed org ≡ true)
    × (Scope.resolve_anchor env note ≡ node clinic)
    × (Scope.parent_of env clinic ≡ some org)
    × (Scope.role_assignable env manager (some 2) (some clinic) ≡ true)
    × (Roles.can_grant_permission env db (person 1) manager "clinical.view_note" none ≡ true)
    × (Roles.can_assign_role env db (some (person 1)) manager (some 2) (some clinic) none ≡ true)
    × (Registry.is_node_model world hierarchy 0 ≡ true)
    × (Registry.is_node_model world hierarchy 1 ≡ true)
    × (Scope.assignment_scope_or_none env (at_clinic) ≡ some clinic)
    × (Filters.accessible_nodes env db (person 1) 2 none (some "clinical.view_note")
        ≡ some (clinic ∷ []))
    × (Filters.accessible_nodes env db (person 1) 2 none none ≡ some (clinic ∷ []))
    × (Filters.accessible_nodes env db (person 2) 2 none none ≡ some (clinic ∷ other_clinic ∷ []))
    × (Filters.accessible_nodes env db (person 3) 2 none none ≡ some [])
unfolding Decision.has_perm contains all Decision.user_permissions Decision.user_covers
    Decision.any_covers Decision.is_unregistered Decision.anchor_of Scope.resolve_anchor
    Registry.is_node_model Registry.is_global Registry.anchor_for Scope.follow Decision.collect
    Decision.effective_assignments Decision.fetch_effective Models.select_related Models.effective
    Models.is_effective Models.role_with Scope.assignment_is_valid lookup any filter union subset
    Scope.any_same_node Scope.assignment_scope_is_valid Scope.assignment_scope_or_none
    Scope.covers_anchor Scope.covers Scope.follow_parts Scope.found_or_none Scope.is_owner
    Scope.iter_ancestors Scope.level_holds Scope.node_shape_is_valid Scope.owner_above
    Scope.parent_of Scope.role_assignable Scope.role_owner_or_none Scope.root_shape_is_valid
    Scope.same_node Scope.walk Models.label Models.permissions_of Models.role_perms Registry.by_name
    Registry.index Registry.rank Registry.first_parent Registry.has_row Registry.is_root
    Registry.is_root_name Registry.level Registry.levels_for_model Registry.model
    Registry.parent_accessor_for_model Registry.queryset Roles.can_manage_role Roles.manages_role
    Roles.owner_of Roles.can_grant_permission Roles.grantable Roles.collect_root
    Roles.can_assign_role Roles.can_assign_row Roles.delegable Roles.role_visible
    Roles.can_manage_assignment Roles.manages_assignments Roles.holds_at_root
    Filters.accessible_nodes Filters.up_path Filters.rank_or_none Filters.holds Filters.lacks
    Filters.add_scope Filters.turn Filters.assignment_loop Filters.node_condition
runs = (
  refl, refl, refl, refl, refl, refl, refl, refl, refl, refl, refl, refl, refl, refl, refl, refl,
  refl, refl, refl, refl, refl, refl, refl,
)

-- an inactive superuser, an assignment at a clinic, and a course of calls of the registry
abbrev retired : Models.User
retired = record { pk = 8; is_active = false; is_superuser = true }

abbrev audited : Models.Granted
audited = record { assignment = at_clinic; role = auditor }

abbrev calls : List Anchors.Call
calls = Anchors.register 2 (1 ∷ []) ∷ Anchors.register_global 2 ∷ Anchors.unregister 3 ∷ []

has_perm_iff_example :
    (Decision.has_perm env db (person 1) "clinical.view_note" (some note) none ≡ true) ↔ (
      (true ≡ true)
      × ((false ≡ true)
          ⊎ IsAuthorized env db
              (person 1)
              "clinical.view_note"
              none
              (Decision.anchor_of env db (some note))))
has_perm_iff_example =
    has_perm_iff env db finite_depth (person 1) "clinical.view_note" (some note) none

user_covers_iff_example : (Decision.user_covers env db (person 1) note none ≡ true) ↔ (
    (true ≡ true)
    × ((false ≡ true) ⊎ IsAdmitted env db (person 1) none (Scope.resolve_anchor env note)))
user_covers_iff_example = user_covers_iff env db finite_depth (person 1) note none

has_perm-user_covers_example : Decision.user_covers env db (person 1) note none ≡ true
has_perm-user_covers_example =
    has_perm-user_covers env db finite_depth (person 1) "clinical.view_note" note none runs.0

covers_iff_example : (Scope.covers env managed note ≡ true) ↔ (
    (Scope.assignment_is_valid env managed ≡ true)
    × CoversAnchor env at_org (Scope.resolve_anchor env note))
covers_iff_example = covers_iff env finite_depth managed note

covers_tenant_example : InOwnerSubtree env manager clinic
covers_tenant_example =
    covers_tenant env finite_depth sound_references distinct_content_types stable_parents managed 1
      note clinic refl runs.11 runs.9

access_summary_lem_example :
    ((p : String)
      → contains p (Decision.access_summary env db (person 1) none).permissions
        ≡ contains p (Decision.user_permissions env db (person 1) none none))
    × ((Decision.access_summary env db (person 1) none).assignments
        ≡ map (Decision.entry env db) (
            filter
              (Scope.assignment_is_valid env)
              (Decision.effective_assignments env db (person 1) none)))
access_summary_lem_example = access_summary_lem env db (person 1) none

can_manage_role_iff_example :
    (Roles.can_manage_role env db (some (person 1)) manager none ≡ true) ↔ (
      (true ≡ true)
      × (owner : Option Obj) × (Roles.owner_of env db manager ≡ some owner)
      × ((false ≡ true) ⊎ ManagesRole env db (person 1) owner none))
can_manage_role_iff_example = can_manage_role_iff env db finite_depth (person 1) manager none

can_manage_assignment_iff_example :
    (Roles.can_manage_assignment env db (some (person 1)) (some clinic) none ≡ true)
    ↔ ((true ≡ true) × ((false ≡ true) ⊎ ManagesAssignments env db (person 1) (some clinic) none))
can_manage_assignment_iff_example =
    can_manage_assignment_iff env db finite_depth (person 1) (some clinic) none

can_assign_role_self_example :
    (pk : ℕ) × (row : Models.Role) × (some 1 ≡ some pk)
    × (Models.role_with db pk ≡ some row)
    × ((perm : String)
        → contains perm (Models.role_perms db row) ≡ true
        → Holds env db (person 1) perm (some clinic) none)
can_assign_role_self_example =
    can_assign_role_self env db finite_depth (person 1) manager (some 2) (some clinic) none refl
      refl runs.15

status-run_example :
    Anchors.IsDisjoint (Anchors.run calls)
    × (Anchors.status (Anchors.run calls) ≡ Anchors.status_from (λ _. Anchors.unknown) calls)
status-run_example = status-run calls
