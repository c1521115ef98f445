-- ===== src/Rest/Discovery.antt =====
-- The filter of view querysets (scoped_access/drf/mixins.py): which permissions a view requires,
-- and `ScopeQuerySetMixin`.
use django_auth_with_scoped.Base.{
  ℕ, suc, Bool, true, false, not, ◌||◌, Option, none, some, List, [], ◌∷◌, ◌++◌, String, Dict,
  lookup, put, filter, contains, if◌then◌else◌, ◌==◌, nat_eq, string_eq, option_eq, pair_eq,
}
use django_auth_with_scoped.World.{Obj}
use django_auth_with_scoped.Models.{User, Db}
use django_auth_with_scoped.Config.{Env}
use django_auth_with_scoped.Engine.Filters.{Q, both, holds}
use django_auth_with_scoped.Engine.Visibility.{scope_filter_q}
use django_auth_with_scoped.Rest.{
  Answer, ok, raised, then_do, from_engine, improperly_configured, no_request,
}
use django_auth_with_scoped.Rest.Permissions.{PermsMap, Required}

-- a permission of a view: an instance of `ScopedModelPermission` (with its map), of
-- `ScopeObjectPermission` or of another class, AND, OR and NOT of instances, and what has to be
-- called first to be an instance, which is a class or an operand holder of them
pub data Gate : Type 0 where
  model_permission : PermsMap → Gate
  object_permission other_permission : Gate
  all_of any_of : Gate → Gate → Gate
  none_of : Gate → Gate
  uncalled : Gate → Gate

-- A view: what `get_permissions` returns or raises, given what `get_queryset` shows it if it asks.
pub record View : Type 0 where
  pub scope_filter_all_actions : Bool
  pub action : Option String
  pub permission_classes : List Gate
  pub get_permissions : Option (List Obj → Answer (List Gate))

-- the attributes that the mixins set on a view, and the warnings given
pub record State : Type 0 where
  pub discovering : Bool
  pub cache : Dict (String × ℕ) (List String)
  pub warnings : ℕ

-- what `get_queryset` returns to code that is called by `get_permissions`
abbrev pub no_rows : List Obj
no_rows = []

-- `_get_view_permissions`
unfoldable pub view_permissions : View → State → Answer (List Gate)
view_permissions view s =
    if s.discovering then ok view.permission_classes else elim view.get_permissions [
      | some get_permissions ↦ get_permissions no_rows
      | none ↦ ok view.permission_classes
    ]

-- `if leaves and not isinstance(permission, AND): raise`
abbrev pub no_leaves : List PermsMap → Answer (List PermsMap)
no_leaves [] = ok []
no_leaves (_ ∷ _) = raised improperly_configured

-- `_scoped_permission_leaves`
unfoldable pub leaves : Gate → Answer (List PermsMap)
leaves (model_permission perms) = ok (perms ∷ [])
leaves object_permission = ok []
leaves other_permission = ok []
leaves (all_of g h) = then_do (leaves g) (λ ls. then_do (leaves h) (λ ks. ok (ls ++ ks)))
leaves (any_of g h) = then_do (leaves g) (λ ls. then_do (leaves h) (λ ks. no_leaves (ls ++ ks)))
leaves (none_of g) = then_do (leaves g) no_leaves
leaves (uncalled g) = leaves g

-- `dict.fromkeys`: the first of every name
unfoldable pub without_repeats : List String → List String → List String
without_repeats seen [] = []
without_repeats seen (p ∷ ps) =
    if contains p seen then without_repeats seen ps else p ∷ without_repeats (p ∷ seen) ps

module _ (required : Required) where
  -- the inner loop of `_required_scoped_permissions`
  unfoldable pub required_by_leaves : String → ℕ → List PermsMap → Answer (List String)
  required_by_leaves method model [] = ok []
  required_by_leaves method model (perms ∷ rest) =
      then_do (required perms method model)
        (λ ps. then_do (required_by_leaves method model rest) (λ qs. ok (ps ++ qs)))

  unfoldable pub required_by_gates : String → ℕ → List Gate → Answer (List String)
  required_by_gates method model [] = ok []
  required_by_gates method model (g ∷ gs) = then_do (leaves g) (λ ls.
      then_do (required_by_leaves method model ls)
        (λ ps. then_do (required_by_gates method model gs) (λ qs. ok (ps ++ qs))))

  -- `_required_scoped_permissions`, for the method of a request, or without a request
  unfoldable pub required_permissions :
      View → Option String → ℕ → State → Answer (List String) × State
  unfolding lookup
  required_permissions view none model s = (ok [], s)
  required_permissions view (some method) model s =
      if s.discovering
      then (raised improperly_configured, s)
      else elim (lookup (method, model) s.cache) [
        | some permissions ↦ (ok permissions, s)
        | none ↦ elim (then_do (view_permissions view s) (required_by_gates method model)) [
          | raised e ↦ (raised e, s)
          | ok permissions ↦
              let result = without_repeats [] permissions in
              (ok result, record s { cache = put (method, model) result s.cache })
        ]
      ]

-- the loop of `_warn_if_detail_routes_are_unprotected`: whether a permission checks objects
unfoldable pub is_object_check : Gate → Bool
is_object_check object_permission = true
is_object_check (uncalled object_permission) = true
is_object_check _ = false

unfoldable pub checks_objects : List Gate → Answer Bool
checks_objects [] = ok false
checks_objects (g ∷ gs) = then_do (leaves g) (λ ls. elim ls [
  | _ ∷ _ ↦ ok true
  | [] ↦ if is_object_check g then ok true else checks_objects gs
])

-- `_warn_if_detail_routes_are_unprotected`
unfoldable pub warn_if_unprotected : View → State → Answer (Unit {0}) × State
warn_if_unprotected view s =
    if view.scope_filter_all_actions
    then (ok tt, s)
    else elim (then_do (view_permissions view s)
        (λ gates. checks_objects (view.permission_classes ++ gates))) [
          | raised e ↦ (raised e, s)
          | ok true ↦ (ok tt, s)
          | ok false ↦ (ok tt, record s { warnings = suc s.warnings })
        ]

module _ (env : Env) (db : Db) (user : User) (required : Required) where
  -- `filters &= ...` over the permissions after the first
  unfoldable pub and_filters : Q → ℕ → List String → Answer Q
  and_filters q model [] = ok q
  and_filters q model (p ∷ ps) =
      then_do (from_engine (scope_filter_q env db user none (some p) model))
        (λ r. and_filters (both q r) model ps)

  unfoldable pub filters_for : ℕ → List String → Answer Q
  filters_for model [] = from_engine (scope_filter_q env db user none none model)
  filters_for model (p ∷ ps) =
      then_do (from_engine (scope_filter_q env db user none (some p) model))
        (λ q. and_filters q model ps)

  -- the rows that pass the filters; without a request there is no user to ask for
  unfoldable pub filtered : Option String → ℕ → List String → List Obj → Answer (List Obj)
  unfolding filter
  filtered none model permissions rows = raised no_request
  filtered (some method) model permissions rows =
      then_do (filters_for model permissions) (λ q. ok (filter (holds env q) rows))

  -- `ScopeQuerySetMixin.get_queryset`, over the rows of the view's queryset for a model
  unfoldable pub get_queryset :
      View → Option String → ℕ → List Obj → State → Answer (List Obj) × State
  get_queryset view method model rows s =
      let (warning, warned) = warn_if_unprotected view s in
      let (permissions, after) = required_permissions required view method model warned in
      if s.discovering then (ok no_rows, s) else elim warning [
        | raised e ↦ (raised e, warned)
        | ok _ ↦
            if not (view.scope_filter_all_actions || view.action == some "list")
            then (ok rows, warned)
            else elim permissions [
              | raised e ↦ (raised e, after)
              | ok ps ↦ (filtered method model ps rows, after)
            ]
      ]
