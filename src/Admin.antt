-- ===== src/Admin.antt =====
-- The admin pages (scoped_access/admin.py: `ScopedModelAdmin`), for one model and one request.
pub mod Rows
pub mod Choices
use django_auth_with_scoped.Base.{
  ℕ, Bool, true, false, not, ◌&&◌, Option, none, some, List, [], ◌∷◌, String, if◌then◌else◌, ◌==◌,
  nat_eq, option_eq, any, filter, first,
}
use django_auth_with_scoped.World.{Obj}
use django_auth_with_scoped.Registry
use django_auth_with_scoped.Registry.{Level}
use django_auth_with_scoped.Models.{User, Db}
use django_auth_with_scoped.Config.{Env}
use django_auth_with_scoped.Engine.Filters.{Q, nothing, pk_in, either, holds, accessible_nodes}
use django_auth_with_scoped.Engine.Visibility.{scope_filter_q, visible_resources}
use django_auth_with_scoped.Rest.{
  Answer, ok, raised, then_do, from_engine, outside_scope, target_outside_scope,
  selection_outside_scope,
}

-- What the pages ask of Django: the name of the permission for an action on a model, the answer of
-- `user.has_perm` over all backends, and what the class of Django would say without an object.
pub record Site : Type 0 where
  pub perm : ℕ → String → String  -- `_perm`, by `get_permission_codename`
  pub user_has_perm : String → Obj → Bool
  pub without_object : String → Bool

module _ (env : Env) (db : Db) (user : User) (site : Site) where
  -- `self.model._default_manager.filter(engine.scope_filter_q(...))`
  unfoldable pub scoped_rows : ℕ → String → Answer (List Obj)
  unfolding filter
  scoped_rows model action =
      then_do (from_engine (scope_filter_q env db user none (some (site.perm model action)) model))
        (λ q. ok (filter (holds env q) (env.all_rows model)))

  -- `pk__in=rows.values("pk")`
  unfoldable pub is_among : List Obj → Obj → Bool
  unfolding any
  is_among rows row = any (λ o. o.pk == row.pk) rows

  -- `get_queryset`, of the rows that the class of Django would show
  unfoldable pub admin_queryset : ℕ → List Obj → Answer (List Obj)
  unfolding filter
  admin_queryset model rows =
      then_do (scoped_rows model "view") (λ allowed. ok (filter (is_among allowed) rows))

  -- `has_view_permission`, `has_change_permission` and `has_delete_permission`
  unfoldable pub has_object_perm : ℕ → String → Option Obj → Bool
  has_object_perm model action none = site.without_object action
  has_object_perm model action (some obj) = site.user_has_perm (site.perm model action) obj

  -- what the class of Django does to save or delete, on tables of any kind
  module _ {T : Type 0} where
    -- `save_model`
    unfoldable pub save_model :
        (Obj → T → Answer (Unit {0}) × T) → ℕ → Obj → Bool → T → Answer (Unit {0}) × T
    unfolding filter
    save_model save model obj change tables =
        let perm = site.perm model (if change then "change" else "add") in
        if not (site.user_has_perm perm obj)
        then (raised target_outside_scope, tables)
        else if not change
        then save obj tables
        else elim (first (filter (λ row. row.pk == obj.pk) (env.all_rows model))) [
          | none ↦ (raised outside_scope, tables)
          | some stored ↦
              if not (site.user_has_perm perm stored)
              then (raised outside_scope, tables)
              else save obj tables
        ]

    -- `delete_queryset`
    unfoldable pub delete_queryset :
        (List Obj → T → Answer (Unit {0}) × T) → ℕ → List Obj → T → Answer (Unit {0}) × T
    unfolding any
    delete_queryset delete model rows tables = elim (scoped_rows model "delete") [
      | raised e ↦ (raised e, tables)
      | ok deletable ↦
          if any (λ row. not (is_among deletable row)) rows
          then (raised selection_outside_scope, tables)
          else delete rows tables
    ]

  -- the inner loop of `_scoped_choices`
  unfoldable pub action_nodes : ℕ → Level → Q → List String → Answer Q
  action_nodes model l q [] = ok q
  action_nodes model l q (action ∷ actions) =
      then_do
        (from_engine (accessible_nodes env db user l.name none (some (site.perm model action))))
        (λ nodes. action_nodes model l (either q (pk_in nodes)) actions)

  unfoldable pub level_nodes : ℕ → Q → List Level → Answer Q
  level_nodes model q [] = ok q
  level_nodes model q (l ∷ ls) =
      then_do (action_nodes model l q ("add" ∷ "change" ∷ [])) (λ r. level_nodes model r ls)

  -- `_scoped_choices`, for the pages of a model and a related model
  unfoldable pub scoped_choices : ℕ → ℕ → Answer (Option (List Obj))
  unfolding filter
  scoped_choices model related = elim (Registry.levels_for_model env.world env.hierarchy related) [
    | l ∷ ls ↦
        then_do (level_nodes model nothing (l ∷ ls))
          (λ q. ok (some (filter (holds env q) (env.all_rows related))))
    | [] ↦ elim (Registry.anchor_for env.resources related) [
      | none ↦ ok none
      | some _ ↦
          then_do
            (from_engine
              (visible_resources env db user none (some (site.perm related "view")) related))
            (λ rows. ok (some rows))
    ]
  ]

  -- `formfield_for_foreignkey`: the queryset of the field, where one is set
  unfoldable pub field_queryset : ℕ → ℕ → Option (List Obj) → Answer (Option (List Obj))
  field_queryset model related (some given) = ok (some given)
  field_queryset model related none = scoped_choices model related
