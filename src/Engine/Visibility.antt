-- ===== src/Engine/Visibility.antt =====
-- Filters of resources (scoped_access/engine.py): `scope_filter_q` and `visible_resources`.
pub mod Levels
pub mod Reach
pub mod Anchored
pub mod Agreement
use mathlib.Core.List.{◌++◌}
use django_auth_with_scoped.Base.{
  ℕ, Bool, true, false, not, Option, none, some, List, [], ◌∷◌, String, if◌then◌else◌, ◌-◌,
  string_eq, ltb, filter, contains,
}
use django_auth_with_scoped.World.{Obj, Accessor, Field}
use django_auth_with_scoped.Registry
use django_auth_with_scoped.Registry.{Level}
use django_auth_with_scoped.Models.{User, Assignment, Db}
use django_auth_with_scoped.Config.{Env}
use django_auth_with_scoped.Engine.Decision.{effective_assignments, user_permissions}
use django_auth_with_scoped.Engine.Filters.{
  Q, nothing, everything, at_path, pk_in, either, up_path, holds, assignment_loop, accessible_nodes,
}

module _ (env : Env) where
  -- the loop of `_anchor_target_levels`: the model at the end of a path; what has no related model
  -- has no `_meta` for the next part, and no levels if it is the last
  unfoldable pub related : ℕ → Accessor → Option (Option ℕ)
  related current [] = some (some current)
  related current (part ∷ parts) = elim (env.get_field current part) [
    | Field.missing ↦ none
    | Field.plain ↦ elim parts [ [] ↦ some none | _ ∷ _ ↦ none ]
    | Field.leads_to next ↦ related next parts
  ]

  -- the list that `_anchor_target_levels` returns; `none` is an exception
  unfoldable pub with_ranks : List Level → Option (List (ℕ × Level))
  with_ranks [] = some []
  with_ranks (l ∷ ls) = elim (Registry.rank env.hierarchy l.name) [
    | none ↦ none
    | some rank ↦ elim (with_ranks ls) [ none ↦ none | some rest ↦ some ((rank, l) ∷ rest) ]
  ]

  -- `_anchor_target_levels`, of a model with this anchor; no model has a field of the empty name
  unfoldable pub anchor_target_levels : ℕ → Accessor → Option (List (ℕ × Level))
  anchor_target_levels model [] = none
  anchor_target_levels model (part ∷ parts) = elim (related model (part ∷ parts)) [
    | none ↦ none
    | some none ↦ some []
    | some (some last) ↦ with_ranks (Registry.levels_for_model env.world env.hierarchy last)
  ]

  -- the inner loop of `scope_filter_q`, for an assignment with a scope at a known rank
  unfoldable pub add_levels : Accessor → List (ℕ × Level) → Assignment → ℕ → Q → Option Q
  add_levels anchor [] a a_rank q = some q
  add_levels anchor ((rank, l) ∷ levels) a a_rank q = elim (ltb rank a_rank) [
    | true ↦ add_levels anchor levels a a_rank q
    | false ↦ elim (up_path env.hierarchy.levels rank (rank - a_rank)) [
      | none ↦ none
      | some up ↦ add_levels anchor levels a a_rank (either q (at_path (anchor ++ up) a.scope_id))
    ]
  ]

  module _ (db : Db) where
    module _ (user : User) (at : Option ℕ) (permission : Option String) where
      -- the loop of `_hierarchy_node_filter_q`
      unfoldable pub node_levels : Q → List Level → Option Q
      node_levels q [] = some q
      node_levels q (l ∷ ls) = elim (accessible_nodes env db user l.name at permission) [
        | none ↦ none
        | some rows ↦ node_levels (either q (pk_in rows)) ls
      ]

      -- a model whose rows belong to no node: all of them, or none
      unfoldable pub global_filter : Q
      global_filter = elim permission [
        | none ↦ everything
        | some perm ↦
            if contains perm (user_permissions env db user none at) then everything else nothing
      ]

      -- `scope_filter_q` for a model that stores no nodes; `none` is an exception
      unfoldable pub resource_filter : ℕ → Option Q
      resource_filter model =
          if user.is_superuser
          then some everything
          else if Registry.is_global env.resources model
          then some global_filter
          else elim (Registry.anchor_for env.resources model) [
            | none ↦ if env.strict_registration then some nothing else some global_filter
            | some anchor ↦ elim (anchor_target_levels model anchor) [
              | none ↦ none
              | some levels ↦
                  assignment_loop env db (add_levels anchor levels) permission nothing
                    (effective_assignments env db user at)
            ]
          ]

      -- `scope_filter_q`, with `_hierarchy_node_filter_q`
      unfoldable pub scope_filter_q : ℕ → Option Q
      scope_filter_q model =
          if not user.is_active
          then some nothing
          else elim (Registry.levels_for_model env.world env.hierarchy model) [
            | [] ↦ resource_filter model
            | l ∷ ls ↦ node_levels nothing (l ∷ ls)
          ]

      -- `visible_resources`
      unfoldable pub visible_resources : ℕ → Option (List Obj)
      visible_resources model = elim (scope_filter_q model) [
        | none ↦ none
        | some q ↦ some (filter (holds env q) (env.all_rows model))
      ]
