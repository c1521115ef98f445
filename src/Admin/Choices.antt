-- ===== src/Admin/Choices.antt =====
-- What the admin pages offer for a foreign key (scoped_access/admin.py: `_scoped_choices`).
use django_auth_with_scoped.Base.{
  ℕ, ◌≡◌, refl, ◌∙◌, sym, ap, inl, inr, Bool, true, ◌||◌, Option, none, some, List, [], ◌∷◌, arith,
  String, filter, filter-congr, Option-cases, nat_eq, option_eq,
}
use django_auth_with_scoped.World.{Obj, Accessor}
use django_auth_with_scoped.Registry
use django_auth_with_scoped.Registry.{Level}
use django_auth_with_scoped.Models.{User, Db}
use django_auth_with_scoped.Config.{Env}
use django_auth_with_scoped.Registry.Ranks.{HasDistinctNames}
use django_auth_with_scoped.Engine.Decision.{has_perm}
use django_auth_with_scoped.Engine.Filters.{Q, nothing, either, pk_in, holds, accessible_nodes}
use django_auth_with_scoped.Engine.Filters.Paths.{IsHost, HasParents}
use django_auth_with_scoped.Engine.Filters.Agreement.{allows}
use django_auth_with_scoped.Engine.Visibility.{node_levels}
use django_auth_with_scoped.Engine.Visibility.Anchored.{HasValidAnchors}
use django_auth_with_scoped.Engine.Visibility.Agreement.{node_filter_lem, visible_resources_lem}
use django_auth_with_scoped.Rest.{ok}
use django_auth_with_scoped.Admin.{Site, action_nodes, level_nodes, scoped_choices}

module _ (env : Env) (db : Db) (user : User) (site : Site) (model : ℕ) where
  -- the filter of a model that stores nodes, for an action on the model of the page
  abbrev nodes_for : String → Q → List Level → Option Q
  nodes_for action q ls = node_levels env db user none (some (site.perm model action)) q ls

  -- The nodes for two actions are those for the one and those for the other.
  level_nodes-either :
      (ls : List Level) (q a c a' c' : Q)
      → nodes_for "add" a ls ≡ some a'
      → nodes_for "change" c ls ≡ some c'
      → ((row : Obj) → holds env q row ≡ (holds env a row || holds env c row))
      → (q' : Q) × (level_nodes env db user site model q ls ≡ ok q')
        × ((row : Obj) → holds env q' row ≡ (holds env a' row || holds env c' row))
  unfolding level_nodes action_nodes node_levels holds
  level_nodes-either [] q a c a' c' adds changes same =
      (q, refl, λ row. same row ∙ ground (arith, adds, changes))
  level_nodes-either (l ∷ ls) q a c a' c' adds changes same =
      elim (Option-cases
        (accessible_nodes env db user l.name none (some (site.perm model "add")))) [
          | inl failed ↦ absurd (ground (arith, adds, failed))
          | inr (to_add, added) ↦
              elim (Option-cases
                (accessible_nodes env db user l.name none (some (site.perm model "change")))) [
                  | inl failed ↦ absurd (ground (arith, changes, failed))
                  | inr (to_change, changed) ↦
                      let (q', built, agrees) =
                        level_nodes-either ls (either (either q (pk_in to_add)) (pk_in to_change))
                          (either a (pk_in to_add)) (either c (pk_in to_change)) a' c'
                          (ground (arith, adds, added)) (ground (arith, changes, changed))
                          (λ row. ground (arith, same row)) in
                      (q', ground (arith, added, changed, built), agrees)
                ]
        ]

module _ (env : Env) (db : Db) (host : IsHost env) (names : HasDistinctNames env.hierarchy)
    (parents : HasParents env.hierarchy.levels) (valid : HasValidAnchors env) (user : User)
    (site : Site) (model related : ℕ) where
  -- whether the user has the permission for an action on a model, on a row
  abbrev may : ℕ → String → Obj → Bool
  may m action row = has_perm env db user (site.perm m action) (some row) none

  choices_of_nodes :
      (l : Level) (ls : List Level)
      → Registry.levels_for_model env.world env.hierarchy related ≡ l ∷ ls
      → scoped_choices env db user site model related
        ≡ ok (
            some (
              filter (λ row. may model "add" row || may model "change" row) (env.all_rows related)))
  unfolding scoped_choices allows Registry.is_node_model holds
  choices_of_nodes l ls levels =
      let node : Registry.is_node_model env.world env.hierarchy related ≡ true =
        rw (Registry.is_node_model, levels) refl in
      let (a, adds, may_add) =
        node_filter_lem env db host names parents user none (some (site.perm model "add"))
          related in
      let (c, changes, may_change) =
        node_filter_lem env db host names parents user none (some (site.perm model "change"))
          related in
      let (q, built, agrees) =
        level_nodes-either env db user site model (l ∷ ls) nothing nothing nothing a c
          (ap (node_levels env db user none (some (site.perm model "add")) nothing) (sym levels)
            ∙ adds)
          (ap (node_levels env db user none (some (site.perm model "change")) nothing) (sym levels)
            ∙ changes)
          (λ row. refl) in
      let same : filter (holds env q) (env.all_rows related)
          ≡ filter (λ row. may model "add" row || may model "change" row) (env.all_rows related) =
        filter-congr (holds env q) (λ row. may model "add" row || may model "change" row)
          (env.all_rows related)
          (λ row m. agrees row ∙ ground (arith, may_add row node m, may_change row node m)) in
      ground (arith, levels, built, same)

  -- The choices for a foreign key never fail, and are: of a model that stores nodes, exactly the
  -- rows where the user may add or may change the model of the page; of a registered resource,
  -- exactly the rows that the user may view; and no restriction for any other model. It is so on a
  -- host that is as documented, with a hierarchy as the system checks ask.
  pub scoped_choices_lem :
      ((l : Level) (ls : List Level)
        → Registry.levels_for_model env.world env.hierarchy related ≡ l ∷ ls
        → scoped_choices env db user site model related
          ≡ ok (
              some (
                filter
                  (λ row. may model "add" row || may model "change" row)
                  (env.all_rows related))))
      × ((anchor : Accessor)
          → Registry.levels_for_model env.world env.hierarchy related ≡ []
          → Registry.anchor_for env.resources related ≡ some anchor
          → scoped_choices env db user site model related
            ≡ ok (some (filter (may related "view") (env.all_rows related))))
      × (Registry.levels_for_model env.world env.hierarchy related ≡ []
          → Registry.anchor_for env.resources related ≡ none
          → scoped_choices env db user site model related ≡ ok none)
  unfolding scoped_choices allows
  scoped_choices_lem = (
    choices_of_nodes,
    λ anchor levels registered. ground (
      arith,
      levels,
      registered,
      visible_resources_lem env db host names parents user none (some (site.perm related "view"))
          valid related,
    ),
    λ levels other. ground (arith, levels, other),
  )
