-- ===== src/Tests/Visibility.antt =====
-- The filters of collections (scoped_access/engine.py) on the small deployment.
use django_auth_with_scoped.Base.{
  ◌≡◌, refl, false, some, none, [], ◌∷◌, contains, string_eq, filter, lookup, any, union,
}
use django_auth_with_scoped.Registry
use django_auth_with_scoped.Models
use django_auth_with_scoped.Engine.Scope
use django_auth_with_scoped.Engine.Decision
use django_auth_with_scoped.Engine.Filters
use django_auth_with_scoped.Engine.Filters.Agreement.{allows, accessible_nodes_lem}
use django_auth_with_scoped.Engine.Visibility
use django_auth_with_scoped.Engine.Visibility.Agreement.{visible_resources_lem}
use django_auth_with_scoped.Tests.{
  clinic, other_clinic, note, env, db, person, clinic_level, hierarchy, distinct_names,
}
use django_auth_with_scoped.Tests.Host.{host, parents, valid_anchors}

runs :
    (Registry.level hierarchy 2 ≡ some clinic_level)
    × (Visibility.visible_resources env db (person 1) none (some "clinical.view_note") 2
        ≡ some (note ∷ []))
    × (Visibility.visible_resources env db (person 1) none (some "clinical.add_note") 2 ≡ some [])
    × (Visibility.visible_resources env db (person 3) none none 2 ≡ some [])
    × (Visibility.visible_resources env db (person 1) none none 1 ≡ some (clinic ∷ []))
    × (Visibility.visible_resources env db (person 2) none none 1
        ≡ some (clinic ∷ other_clinic ∷ []))
    × (Registry.is_root clinic_level ≡ false)
unfolding Visibility.visible_resources Visibility.scope_filter_q Visibility.resource_filter
    Visibility.node_levels Visibility.global_filter Visibility.add_levels Visibility.with_ranks
    Visibility.anchor_target_levels Visibility.related contains Decision.user_permissions
    Scope.resolve_anchor Registry.is_node_model Registry.is_global Registry.anchor_for Scope.follow
    Decision.effective_assignments Decision.fetch_effective Models.select_related Models.effective
    Models.is_effective Models.role_with Scope.assignment_is_valid lookup any filter union
    Scope.assignment_scope_is_valid Scope.assignment_scope_or_none Scope.follow_parts
    Scope.found_or_none Scope.is_owner Scope.iter_ancestors Scope.level_holds
    Scope.node_shape_is_valid Scope.owner_above Scope.parent_of Scope.role_assignable
    Scope.role_owner_or_none Scope.root_shape_is_valid Scope.walk Models.label Models.permissions_of
    Models.role_perms Registry.by_name Registry.index Registry.rank Registry.first_parent
    Registry.has_row Registry.is_root Registry.is_root_name Registry.level Registry.levels_for_model
    Registry.model Registry.parent_accessor_for_model Registry.queryset Filters.accessible_nodes
    Filters.up_path Filters.rank_or_none Filters.holds Filters.lacks Filters.add_scope Filters.turn
    Filters.assignment_loop Filters.node_condition
runs = (refl, refl, refl, refl, refl, refl, refl)

accessible_nodes_lem_example :
    Filters.accessible_nodes env db (person 1) 2 none (some "clinical.view_note")
    ≡ some (
        filter
          (allows env db (person 1) none (some "clinical.view_note"))
          (Registry.queryset env.world clinic_level))
accessible_nodes_lem_example =
    accessible_nodes_lem env db host parents (person 1) 2 none (some "clinical.view_note")
      clinic_level runs.0 runs.6

visible_resources_lem_example :
    Visibility.visible_resources env db (person 1) none (some "clinical.view_note") 2
    ≡ some (filter (allows env db (person 1) none (some "clinical.view_note")) (note ∷ []))
visible_resources_lem_example =
    visible_resources_lem env db host distinct_names parents (person 1) none
      (some "clinical.view_note") valid_anchors 2
