-- ===== src/Engine/Visibility/Agreement.antt =====
-- `visible_resources` (scoped_access/engine.py) against the per-object decisions.
use mathlib.Core.List.Memᴰ
use django_auth_with_scoped.Base.{
  ℕ, ◌≡◌, refl, ◌∙◌, sym, ap, ◌↔◌, ◌⊎◌, inl, inr, true, false, not, ◌&&◌, Option, some, List, [],
  ◌∷◌, Memᴰ, arith, String, ◌==◌, nat_eq, option_eq, filter, any_sound, any_complete, mem-filter,
  filter-mem, mem-get_elem?, get_elem?-mem, filter-congr, Bool-iff, Bool-cases, subst,
}
use django_auth_with_scoped.World.{Obj}
use django_auth_with_scoped.Registry
use django_auth_with_scoped.Registry.{Level}
use django_auth_with_scoped.Registry.Ranks.{HasDistinctNames, rank_complete}
use django_auth_with_scoped.Models.{User, Db}
use django_auth_with_scoped.Config.{Env}
use django_auth_with_scoped.Engine.Filters.{
  Q, nothing, everything, pk_in, either, holds, accessible_nodes,
}
use django_auth_with_scoped.Engine.Filters.Loop.{either_holds}
use django_auth_with_scoped.Engine.Filters.Paths.{IsHost, HasParents}
use django_auth_with_scoped.Engine.Filters.Reach.{mem-queryset}
use django_auth_with_scoped.Engine.Filters.Agreement.{allows, accessible_nodes_lem}
use django_auth_with_scoped.Engine.Visibility.{
  node_levels, resource_filter, scope_filter_q, visible_resources,
}
use django_auth_with_scoped.Engine.Visibility.Anchored.{
  HasValidAnchors, allows_inactive, allows_superuser, resource_filter_lem,
}

module _ (env : Env) (db : Db) (host : IsHost env) (names : HasDistinctNames env.hierarchy)
    (parents : HasParents env.hierarchy.levels) (user : User) (at : Option ℕ)
    (permission : Option String) where
  -- a row with this key is allowed at one of the levels
  abbrev IsAllowedAt : List Level → Obj → Type 0
  IsAllowedAt ls row =
      (l : Level) × Memᴰ l ls
      × (n : Obj) × Memᴰ n (Registry.queryset env.world l)
      × (allows env db user at permission n ≡ true)
      × (n.pk ≡ row.pk)

  pk_in_iff :
      (l : Level) (row : Obj)
      → (holds env
            (pk_in (filter (allows env db user at permission) (Registry.queryset env.world l)))
            row
          ≡ true)
        ↔ ((n : Obj) × Memᴰ n (Registry.queryset env.world l)
            × (allows env db user at permission n ≡ true)
            × (n.pk ≡ row.pk))
  unfolding holds
  pk_in_iff l row = (
    λ h.
        let (n, mem, same) = any_sound (λ (o : Obj). o.pk == row.pk) _ h in
        let (stored, ok) =
          mem-filter (allows env db user at permission) (Registry.queryset env.world l) mem in
        (n, stored, ok, ((option_eq {A = ℕ}).same_iff n.pk row.pk).0 same),
    λ (n, stored, ok, same).
        any_complete (λ (o : Obj). o.pk == row.pk)
          (filter-mem (allows env db user at permission) stored ok)
          (((option_eq {A = ℕ}).same_iff n.pk row.pk).1 same),
  )

  node_levels_iff :
      (ls : List Level)
      → ((l : Level) → Memᴰ l ls → Memᴰ l env.hierarchy.levels × (Registry.is_root l ≡ false))
      → (q : Q)
      → (q' : Q) × (node_levels env db user at permission q ls ≡ some q')
        × ((row : Obj)
            → (holds env q' row ≡ true) ↔ ((holds env q row ≡ true) ⊎ IsAllowedAt ls row))
  unfolding node_levels
  node_levels_iff [] inside q = (
    q,
    refl,
    λ row.
        (λ m. inl m, λ m. elim m [ inl old ↦ old | inr (_, never, _, _, _, _) ↦ elim never [ ] ]),
  )
  node_levels_iff (l ∷ ls) inside q =
      let (mem, plain) = inside l (Memᴰ.head refl) in
      let (i, at_i) = mem-get_elem? mem in
      let (found, _) = rank_complete env.hierarchy names i l at_i in
      let rows = filter (allows env db user at permission) (Registry.queryset env.world l) in
      let listed : accessible_nodes env db user l.name at permission ≡ some rows =
        accessible_nodes_lem env db host parents user l.name at permission l found plain in
      let (q', rest, iff) =
        node_levels_iff ls (λ k m. inside k (Memᴰ.tail m)) (either q (pk_in rows)) in
      (
        q',
        rw (node_levels, listed) rest,
        λ row. (
          λ m. elim ((iff row).0 m) [
            | inr (k, k_mem, n, n_mem, ok, same) ↦ inr (k, Memᴰ.tail k_mem, n, n_mem, ok, same)
            | inl now ↦ elim ((either_holds env q (pk_in rows) row).0 now) [
              | inl old ↦ inl old
              | inr new ↦
                  let (n, n_mem, ok, same) = (pk_in_iff l row).0 new in
                  inr (l, Memᴰ.head refl, n, n_mem, ok, same)
            ]
          ],
          λ m. (iff row).1 (elim m [
            | inl old ↦ inl ((either_holds env q (pk_in rows) row).1 (inl old))
            | inr (k, k_mem, n, n_mem, ok, same) ↦ elim (Memᴰ.cases_cons k_mem) [
              | inr later ↦ inr (k, later, n, n_mem, ok, same)
              | inl here ↦
                  let n_mem' : Memᴰ n (Registry.queryset env.world l) =
                    subst (λ x. Memᴰ n (Registry.queryset env.world x)) here n_mem in
                  inl (
                    (either_holds env q (pk_in rows) row).1
                      (inr ((pk_in_iff l row).1 (n, n_mem', ok, same))))
            ]
          ]),
        ),
      )

  -- the filter of a model that stores nodes
  pub node_filter_lem :
      (model : ℕ)
      → (q : Q) × (node_levels env db user at permission nothing
            (Registry.levels_for_model env.world env.hierarchy model)
          ≡ some q)
        × ((row : Obj)
            → Registry.is_node_model env.world env.hierarchy model ≡ true
            → Memᴰ row (env.all_rows model)
            → holds env q row ≡ allows env db user at permission row)
  unfolding holds Registry.levels_for_model
  node_filter_lem model =
      let test =
        λ (k : Level). not (Registry.is_root k) && (Registry.model env.world k == some model) in
      let (q, built, iff) =
        node_levels_iff (Registry.levels_for_model env.world env.hierarchy model)
          (λ l m. let (mem, ok) = mem-filter test env.hierarchy.levels m in (mem, ground arith))
          nothing in
      (
        q,
        built,
        λ row is_node mem.
            let typed : row.model ≡ model = host.typed_rows model row mem in
            Bool-iff (holds env q row) (allows env db user at permission row)
              {P = allows env db user at permission row ≡ true}
              (
                λ h. elim ((iff row).0 h) [
                  | inl never ↦ absurd (ground arith)
                  | inr (l, l_mem, n, n_mem, ok, same) ↦
                      let (_, l_ok) = mem-filter test env.hierarchy.levels l_mem in
                      let (m, l_model, n_row) = mem-queryset env l n n_mem in
                      let m_is : m ≡ model = ground (
                        arith,
                        l_model,
                        (option_eq {A = ℕ}).same_iff (Registry.model env.world l) (some model),
                      ) in
                      let n_row' : Memᴰ n (env.all_rows model) =
                        subst (λ k. Memᴰ n (env.all_rows k)) m_is n_row in
                      ap (allows env db user at permission)
                        (host.unique_keys model row n mem n_row' (sym same))
                      ∙ ok
                ],
                λ ok.
                    let (l, at_l, plain, l_model, stored) =
                      host.layers.leveled row
                        (ap (Registry.is_node_model env.world env.hierarchy) typed ∙ is_node) in
                    let l_mem =
                      filter-mem test
                        (get_elem?-mem env.hierarchy.levels (host.layers.rank_of row) at_l)
                        (ground (
                          arith,
                          plain,
                          typed,
                          (option_eq {A = ℕ}).same_iff (Registry.model env.world l) (some model),
                        )) in
                    (iff row).1 (
                      inr (
                        l,
                        l_mem,
                        row,
                        stored (subst (λ k. Memᴰ row (env.all_rows k)) (sym typed) mem),
                        ok,
                        refl,
                      )),
              )
              (λ a. a, λ a. a),
      )

  module _ (valid : HasValidAnchors env) where
    resource_filter-total :
        (model : ℕ)
        → user.is_active ≡ true
        → Registry.is_node_model env.world env.hierarchy model ≡ false
        → (q : Q) × (resource_filter env db user at permission model ≡ some q)
          × ((row : Obj)
              → row.model ≡ model
              → holds env q row ≡ allows env db user at permission row)
    unfolding resource_filter holds
    resource_filter-total model active other = elim (Bool-cases user.is_superuser) [
      | inl super ↦ (
        everything,
        ground arith,
        λ row same. sym (allows_superuser env db user at permission row active super),
      )
      | inr plain ↦
          resource_filter_lem env db host names user at permission active plain parents valid model
            other
    ]

    -- `scope_filter_q` is built, and a row meets it exactly when the per-object decision allows it.
    pub scope_filter_q_lem :
        (model : ℕ)
        → (q : Q) × (scope_filter_q env db user at permission model ≡ some q)
          × ((row : Obj)
              → Memᴰ row (env.all_rows model)
              → holds env q row ≡ allows env db user at permission row)
    unfolding scope_filter_q holds Registry.is_node_model
    scope_filter_q_lem model = elim (Bool-cases user.is_active) [
      | inr e ↦
          (nothing, ground arith, λ row mem. sym (allows_inactive env db user at permission row e))
      | inl e ↦ by_levels (Registry.levels_for_model env.world env.hierarchy model) refl e
    ]
      where
        by_levels :
            (ls : List Level)
            → Registry.levels_for_model env.world env.hierarchy model ≡ ls
            → user.is_active ≡ true
            → (q : Q) × (scope_filter_q env db user at permission model ≡ some q)
              × ((row : Obj)
                  → Memᴰ row (env.all_rows model)
                  → holds env q row ≡ allows env db user at permission row)
        by_levels [] levels e =
            let (q, built, agrees) =
              resource_filter-total model e (rw (Registry.is_node_model, levels) refl) in
            (
              q,
              ground (arith, levels, built),
              λ row mem. agrees row (host.typed_rows model row mem),
            )
        by_levels (l ∷ ls) levels e =
            let (q, built, agrees) = node_filter_lem model in
            let built' : node_levels env db user at permission nothing (l ∷ ls) ≡ some q =
              ap (node_levels env db user at permission nothing) (sym levels) ∙ built in
            (
              q,
              ground (arith, levels, built'),
              λ row mem. agrees row (rw (Registry.is_node_model, levels) refl) mem,
            )

    -- `visible_resources` always returns, for every model, and returns exactly the model's rows
    -- that the per-object decision allows: `has_perm` for a permission, `user_covers` without. It
    -- holds for a host that is as documented and whose nodes stand in levels (IsHost), with
    -- distinct level names, an accessor at every level below a modelled one, and valid anchors
    -- (HasDistinctNames, HasParents, HasValidAnchors: what the system checks ask).
    pub visible_resources_lem :
        (model : ℕ)
        → visible_resources env db user at permission model
          ≡ some (filter (allows env db user at permission) (env.all_rows model))
    unfolding visible_resources
    visible_resources_lem model =
        let (q, built, agrees) = scope_filter_q_lem model in
        rw (visible_resources, built)
          (ap some (
            filter-congr (holds env q) (allows env db user at permission) (env.all_rows model)
              agrees))
