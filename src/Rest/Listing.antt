-- ===== src/Rest/Listing.antt =====
-- The querysets of views (scoped_access/drf/mixins.py: `ScopeQuerySetMixin`) against the object
-- checks of the permission classes.
use django_auth_with_scoped.Base.{
  ℕ, ◌≡◌, true, false, ◌||◌, some, List, Memᴰ, pair_eq, nat_eq, arith, String, filter, filter-congr,
  string_eq, option_eq, ◌==◌,
}
use django_auth_with_scoped.World.{Obj}
use django_auth_with_scoped.Models.{User, Db}
use django_auth_with_scoped.Config.{Env}
use django_auth_with_scoped.Registry.Ranks.{HasDistinctNames}
use django_auth_with_scoped.Engine.Filters.{holds}
use django_auth_with_scoped.Engine.Filters.Paths.{IsHost, HasParents}
use django_auth_with_scoped.Engine.Visibility.Anchored.{HasValidAnchors}
use django_auth_with_scoped.Rest.{ok}
use django_auth_with_scoped.Rest.Permissions.{Required, target_allowed}
use django_auth_with_scoped.Rest.Discovery.{
  View, State, warn_if_unprotected, required_permissions, filtered, get_queryset,
}
use django_auth_with_scoped.Rest.Filters.{filters_for_lem}

module _ (env : Env) (db : Db) (host : IsHost env) (names : HasDistinctNames env.hierarchy)
    (parents : HasParents env.hierarchy.levels) (valid : HasValidAnchors env) (user : User)
    (required : Required) where
  module _ (view : View) (method : String) (model : ℕ) (rows : List Obj) (s : State) where
    -- The queryset of a list is exactly the rows of the view on which the user has every permission
    -- that the view requires, or, where it requires none, the rows in the user's scope; the
    -- permissions are those of the cache or are worked out anew. It is so for a view outside
    -- discovery whose permissions can be found, and rows of the model's table, on a host that is as
    -- documented, with a hierarchy as the system checks ask.
    pub get_queryset_lem :
        (ps : List String)
        → s.discovering ≡ false
        → (warn_if_unprotected view s).0 ≡ ok tt
        → (view.scope_filter_all_actions || view.action == some "list") ≡ true
        → (required_permissions required view (some method) model (warn_if_unprotected view s).1).0
          ≡ ok ps
        → ((row : Obj) → Memᴰ row rows → Memᴰ row (env.all_rows model))
        → get_queryset env db user required view (some method) model rows s ≡ (
          ok (filter (target_allowed env db user ps) rows),
          (required_permissions required view (some method) model (warn_if_unprotected view s).1).1,
        )
    unfolding get_queryset filtered
    get_queryset_lem ps active warns lists requires inside =
        let (q, built, agrees) =
          filters_for_lem env db host names parents valid user required model ps in
        let same : filter (holds env q) rows ≡ filter (target_allowed env db user ps) rows =
          filter-congr (holds env q) (target_allowed env db user ps) rows
            (λ row m. agrees row (inside row m)) in
        ground (arith, active, warns, lists, requires, built, same)
