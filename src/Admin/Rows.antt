-- ===== src/Admin/Rows.antt =====
-- The rows that the admin pages show, save and delete (scoped_access/admin.py) against the
-- per-object decision.
use mathlib.Core.List.Memᴰ
use django_auth_with_scoped.Base.{
  ℕ, ◌≡◌, refl, ◌∙◌, sym, ap, Bool, true, not, none, some, List, [], ◌∷◌, Memᴰ, arith, String,
  filter, filter-congr, mem-filter, filter-mem, any, any_sound, any_complete, all, Bool-iff, ◌==◌,
  nat_eq, option_eq, if◌then◌else◌,
}
use django_auth_with_scoped.World.{Obj}
use django_auth_with_scoped.Models.{User, Db}
use django_auth_with_scoped.Config.{Env}
use django_auth_with_scoped.Registry.Ranks.{HasDistinctNames}
use django_auth_with_scoped.Engine.Decision.{has_perm}
use django_auth_with_scoped.Engine.Filters.{holds}
use django_auth_with_scoped.Engine.Filters.Paths.{IsHost, HasParents}
use django_auth_with_scoped.Engine.Filters.Agreement.{allows}
use django_auth_with_scoped.Engine.Visibility.Anchored.{HasValidAnchors}
use django_auth_with_scoped.Engine.Visibility.Agreement.{scope_filter_q_lem}
use django_auth_with_scoped.Rest.{Answer, ok, raised, selection_outside_scope}
use django_auth_with_scoped.Admin.{Site, scoped_rows, is_among, admin_queryset, delete_queryset}

any-not {ℓ} :
    {A : Type ℓ} (f g : A → Bool) (xs : List A)
    → ((x : A) → Memᴰ x xs → f x ≡ g x)
    → any (λ x. not (f x)) xs ≡ not (all g xs)
unfolding any all
any-not f g [] same = refl
any-not f g (x ∷ xs) same =
    ground (arith, same x (Memᴰ.head refl), any-not f g xs (λ y m. same y (Memᴰ.tail m)))

module _ (env : Env) (db : Db) (host : IsHost env) (names : HasDistinctNames env.hierarchy)
    (parents : HasParents env.hierarchy.levels) (valid : HasValidAnchors env) (user : User)
    (site : Site) (model : ℕ) where
  -- whether the user has the permission for an action on a row
  abbrev may : String → Obj → Bool
  may action row = has_perm env db user (site.perm model action) (some row) none

  scoped_rows_lem :
      (action : String)
      → scoped_rows env db user site model action ≡ ok (filter (may action) (env.all_rows model))
  unfolding scoped_rows allows
  scoped_rows_lem action =
      let (q, built, agrees) =
        scope_filter_q_lem env db host names parents user none (some (site.perm model action)) valid
          model in
      rw (scoped_rows, built)
        (ap ok (filter-congr (holds env q) (may action) (env.all_rows model) agrees))

  is_among_lem :
      (action : String) (row : Obj)
      → Memᴰ row (env.all_rows model)
      → is_among env db user site (filter (may action) (env.all_rows model)) row ≡ may action row
  unfolding is_among
  is_among_lem action row stored =
      Bool-iff (is_among env db user site (filter (may action) (env.all_rows model)) row)
        (may action row) {P = may action row ≡ true}
        (
          λ h.
              let (o, m, same) =
                any_sound (λ (x : Obj). x.pk == row.pk) (filter (may action) (env.all_rows model))
                  h in
              let (stored_o, allowed) = mem-filter (may action) (env.all_rows model) m in
              let is_row : o ≡ row =
                host.unique_keys model o row stored_o stored
                  (((option_eq {A = ℕ}).same_iff o.pk row.pk).0 same) in
              ap (may action) (sym is_row) ∙ allowed,
          λ allowed.
              any_complete (λ (x : Obj). x.pk == row.pk) (filter-mem (may action) stored allowed)
                (((option_eq {A = ℕ}).same_iff row.pk row.pk).1 refl),
        )
        (λ h. h, λ h. h)

  -- The change list shows exactly the rows of the class of Django on which the user may view, and a
  -- bulk delete deletes exactly when the user may delete every selected row: otherwise it raises and
  -- nothing is deleted. Both hold for rows of the model's table, on a host that is as documented,
  -- with a hierarchy as the system checks ask.
  pub admin_rows_lem :
      {T : Type 0} (delete : List Obj → T → Answer (Unit {0}) × T) (rows : List Obj) (tables : T)
      → ((row : Obj) → Memᴰ row rows → Memᴰ row (env.all_rows model))
      → (admin_queryset env db user site model rows ≡ ok (filter (may "view") rows))
        × (delete_queryset env db user site delete model rows tables ≡ (
            if all (may "delete") rows
            then delete rows tables
            else (raised selection_outside_scope, tables)))
  unfolding admin_queryset delete_queryset
  admin_rows_lem delete rows tables inside = (
    rw (admin_queryset, scoped_rows_lem "view")
        (ap ok (
          filter-congr (is_among env db user site (filter (may "view") (env.all_rows model)))
            (may "view") rows (λ row m. is_among_lem "view" row (inside row m)))),
    ground (
      arith,
      scoped_rows_lem "delete",
      any-not (is_among env db user site (filter (may "delete") (env.all_rows model)))
          (may "delete") rows (λ row m. is_among_lem "delete" row (inside row m)),
    ),
  )
