-- ===== src/Rest/Filters.antt =====
-- The filters of view querysets (scoped_access/drf/mixins.py: `get_queryset`) against what the write
-- guard asks.
use django_auth_with_scoped.Base.{
  ℕ, ◌≡◌, refl, ◌∙◌, ◌&&◌, Option, none, some, List, [], ◌∷◌, Memᴰ, pair_eq, nat_eq, arith, String,
  all, string_eq, option_eq,
}
use django_auth_with_scoped.World.{Obj}
use django_auth_with_scoped.Models.{User, Db}
use django_auth_with_scoped.Config.{Env}
use django_auth_with_scoped.Registry.Ranks.{HasDistinctNames}
use django_auth_with_scoped.Engine.Decision.{has_perm}
use django_auth_with_scoped.Engine.Filters.{Q, both, holds}
use django_auth_with_scoped.Engine.Filters.Paths.{IsHost, HasParents}
use django_auth_with_scoped.Engine.Filters.Agreement.{allows}
use django_auth_with_scoped.Engine.Visibility.{scope_filter_q}
use django_auth_with_scoped.Engine.Visibility.Anchored.{HasValidAnchors}
use django_auth_with_scoped.Engine.Visibility.Agreement.{scope_filter_q_lem}
use django_auth_with_scoped.Rest.{ok}
use django_auth_with_scoped.Rest.Permissions.{Required, target_allowed}
use django_auth_with_scoped.Rest.Discovery.{and_filters, filters_for}

module _ (env : Env) (db : Db) (host : IsHost env) (names : HasDistinctNames env.hierarchy)
    (parents : HasParents env.hierarchy.levels) (valid : HasValidAnchors env) (user : User)
    (required : Required) where
  -- The filter for one permission, or for none.
  filter_of :
      (model : ℕ) (permission : Option String)
      → (q : Q) × (scope_filter_q env db user none permission model ≡ some q)
        × ((row : Obj)
            → Memᴰ row (env.all_rows model)
            → holds env q row ≡ allows env db user none permission row)
  filter_of model permission =
      scope_filter_q_lem env db host names parents user none permission valid model

  and_filters_lem :
      (model : ℕ) (ps : List String) (q : Q)
      → (r : Q) × (and_filters env db user required q model ps ≡ ok r)
        × ((row : Obj)
            → Memᴰ row (env.all_rows model)
            → holds env r row
              ≡ (holds env q row && all (λ p. has_perm env db user p (some row) none) ps))
  unfolding and_filters all holds allows
  and_filters_lem model [] q = (q, refl, λ row m. ground arith)
  and_filters_lem model (p ∷ ps) q =
      let (r, built, agrees) = filter_of model (some p) in
      let (t, rest, all_agree) = and_filters_lem model ps (both q r) in
      (
        t,
        rw (and_filters, built) rest,
        λ row m. all_agree row m ∙ with_one row p ps q r (agrees row m),
      )
    where
      with_one :
          (row : Obj) (p : String) (ps : List String) (q r : Q)
          → holds env r row ≡ allows env db user none (some p) row
          → (holds env (both q r) row && all (λ p. has_perm env db user p (some row) none) ps)
            ≡ (holds env q row && all (λ p. has_perm env db user p (some row) none) (p ∷ ps))
      with_one row p ps q r same = ground (arith, same)

  -- The filters of a view always exist, and a row meets them exactly when the write guard, with the
  -- same permissions, would let it be written.
  pub filters_for_lem :
      (model : ℕ) (ps : List String)
      → (q : Q) × (filters_for env db user required model ps ≡ ok q)
        × ((row : Obj)
            → Memᴰ row (env.all_rows model)
            → holds env q row ≡ target_allowed env db user ps row)
  unfolding filters_for target_allowed allows all
  filters_for_lem model [] =
      let (q, built, agrees) = filter_of model none in (q, rw (filters_for, built) refl, agrees)
  filters_for_lem model (p ∷ ps) =
      let (q, built, agrees) = filter_of model (some p) in
      let (r, rest, all_agree) = and_filters_lem model ps q in
      (
        r,
        rw (filters_for, built) rest,
        λ row m. all_agree row m ∙ first_of row p ps q (agrees row m),
      )
    where
      first_of :
          (row : Obj) (p : String) (ps : List String) (q : Q)
          → holds env q row ≡ allows env db user none (some p) row
          → (holds env q row && all (λ p. has_perm env db user p (some row) none) ps)
            ≡ target_allowed env db user (p ∷ ps) row
      first_of row p ps q same = ground (arith, same)
