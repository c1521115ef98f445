-- ===== src/Engine/Visibility/Reach.antt =====
-- Which assignments take a resource in (scoped_access/engine.py: `scope_filter_q`): those that cover
-- its anchor.
use mathlib.Core.List.{◌++◌}
use django_auth_with_scoped.Base.{
  ℕ, ◌≡◌, refl, ◌∙◌, sym, ap, ◌↔◌, inl, inr, true, false, not, ◌&&◌, Option, none, some, List, [],
  ◌∷◌, Memᴰ, arith, String, ◌==◌, nat_eq, string_eq, option_eq, mem-filter, filter-mem, get_elem?,
  get_elem?-mem, Bool-cases,
}
use django_auth_with_scoped.World.{Obj, Accessor}
use django_auth_with_scoped.Registry
use django_auth_with_scoped.Registry.{Level}
use django_auth_with_scoped.Registry.Ranks.{HasDistinctNames}
use django_auth_with_scoped.Models.{Granted, Db, is_root_scope}
use django_auth_with_scoped.Config.{Env}
use django_auth_with_scoped.Engine.Scope.{
  node, denied, follow_parts, parent_of, assignment_is_valid,
}
use django_auth_with_scoped.Engine.Scope.Ancestors.{IsAncestor, itself, above}
use django_auth_with_scoped.Engine.Scope.Coverage.{InScope, CoversAnchor}
use django_auth_with_scoped.Engine.Filters.{rank_or_none, lacks}
use django_auth_with_scoped.Engine.Filters.Loop.{Takes}
use django_auth_with_scoped.Engine.Filters.Paths.{IsHost, follow_parts_split, follow_parts-append}
use django_auth_with_scoped.Engine.Filters.Reach.{
  Climbs-InScope, InScope-Climbs, matches_iff, modeled_rank, ranked, scope_model, is_node_model_lem,
}
use django_auth_with_scoped.Engine.Visibility.{add_levels}
use django_auth_with_scoped.Engine.Visibility.Levels.{Reaches}

no_parent_top : {env : Env} {n top : Obj} → IsAncestor env n top → parent_of env n ≡ none → n ≡ top
no_parent_top itself h = refl
no_parent_top (above parent up) h = absurd (ground arith)

module _ (env : Env) (db : Db) (host : IsHost env) (names : HasDistinctNames env.hierarchy) where
  not_node :
      (n : Obj)
      → Registry.is_node_model env.world env.hierarchy n.model ≡ false
      → parent_of env n ≡ none
  unfolding Registry.is_node_model parent_of Registry.parent_accessor_for_model
  not_node n h =
      let empty : Registry.levels_for_model env.world env.hierarchy n.model ≡ [] =
        no_levels (Registry.levels_for_model env.world env.hierarchy n.model) h in
      rw (parent_of, Registry.parent_accessor_for_model, empty, Registry.first_parent) refl
    where
      no_levels : (ls : List Level) → (elim ls [ [] ↦ false | _ ∷ _ ↦ true ]) ≡ false → ls ≡ []
      no_levels [] k = refl
      no_levels (x ∷ ls) k = cc

  module _ (row mid : Obj) (anchor : Accessor) (last : ℕ) (levels : List (ℕ × Level))
      (permission : Option String) (leads : follow_parts env row anchor ≡ some mid)
      (model : mid.model ≡ last)
      (levels_iff : (rank : ℕ) (l : Level)
        → Memᴰ (rank, l) levels ↔ (
            Memᴰ l (Registry.levels_for_model env.world env.hierarchy last)
            × (get_elem? env.hierarchy.levels rank ≡ some l))) where
    Reaches-InScope :
        (g : Granted) (a_rank : ℕ)
        → assignment_is_valid env g ≡ true
        → is_root_scope g.assignment ≡ false
        → rank_or_none env.hierarchy g.assignment ≡ some a_rank
        → Reaches env anchor levels row g.assignment a_rank
        → InScope env g.assignment mid
    unfolding Registry.levels_for_model
    Reaches-InScope g a_rank valid scoped r (rank, l, mem, le, up, climbs, found) =
        let (mem', at) = (levels_iff rank l).0 mem in
        let (_, test) =
          mem-filter
            (λ (k : Level). not (Registry.is_root k) && (Registry.model env.world k == some last))
            env.hierarchy.levels mem' in
        let l_model : Registry.model env.world l ≡ some mid.model =
          ground
            (arith, model, (option_eq {A = ℕ}).same_iff (Registry.model env.world l) (some last)) in
        let (top, follows, pk) = (matches_iff env (anchor ++ up) g.scope_id row).0 found in
        let follows' : follow_parts env mid up ≡ some top =
          sym (follow_parts-append env anchor up row mid leads) ∙ follows in
        Climbs-InScope env host.sound_references host.chained g mid rank a_rank l at l_model valid
          scoped r (le, up, climbs, (matches_iff env up g.scope_id mid).1 (top, follows', pk))

    InScope-Reaches :
        (g : Granted) (a_rank : ℕ)
        → assignment_is_valid env g ≡ true
        → is_root_scope g.assignment ≡ false
        → rank_or_none env.hierarchy g.assignment ≡ some a_rank
        → InScope env g.assignment mid
        → Reaches env anchor levels row g.assignment a_rank
    unfolding Registry.levels_for_model
    InScope-Reaches g a_rank valid scoped r inside =
        elim (Bool-cases (Registry.is_node_model env.world env.hierarchy mid.model)) [
          | inl is_node ↦
              let (l, at, plain, l_model, _) = host.layers.leveled mid is_node in
              let mem =
                filter-mem
                  (λ (k : Level).
                    not (Registry.is_root k) && (Registry.model env.world k == some last))
                  (get_elem?-mem env.hierarchy.levels (host.layers.rank_of mid) at)
                  (ground (
                    arith,
                    plain,
                    model,
                    (option_eq {A = ℕ}).same_iff (Registry.model env.world l) (some last),
                  )) in
              let (le, up, climbs, found) =
                InScope-Climbs env host g mid a_rank valid scoped r refl inside in
              let (top, follows, pk) = (matches_iff env up g.scope_id mid).0 found in
              (
                host.layers.rank_of mid,
                l,
                (levels_iff (host.layers.rank_of mid) l).1 (mem, at),
                le,
                up,
                climbs,
                (matches_iff env (anchor ++ up) g.scope_id row).1
                    (top, follow_parts-append env anchor up row mid leads ∙ follows, pk),
              )
          | inr other ↦
              let (top, ancestor, _, ct) = inside in
              let here : mid ≡ top = no_parent_top ancestor (not_node mid other) in
              let (k, at_k, k_model) =
                scope_model env host g mid a_rank valid scoped r
                  (ap (λ (o : Obj). some (env.content_type o.model)) here ∙ ct) in
              let (k', at_k', plain) = modeled_rank env g a_rank valid scoped r in
              let same : k' ≡ k = ground arith in
              absurd (
                ground (
                  arith,
                  is_node_model_lem env a_rank k mid.model at_k
                      (ap Registry.is_root (sym same) ∙ plain) k_model,
                ))
        ]

    pub Takes-iff :
        (g : Granted)
        → Takes env db
            (add_levels env anchor levels)
            permission
            row
            (Reaches env anchor levels row)
            g
          ↔ ((assignment_is_valid env g ≡ true)
              × (lacks db permission g ≡ false)
              × CoversAnchor env g.assignment (node mid))
    Takes-iff g = (
      λ t. (
        t.valid,
        t.permitted,
        elim t.reaches [
          | inl root ↦ inl (ground (arith, root))
          | inr (scoped, rank, r, c) ↦ inr (Reaches-InScope g rank t.valid scoped r c)
        ],
      ),
      λ (valid, permitted, c). record {
        valid = valid;
        permitted = permitted;
        reaches = elim (Bool-cases (is_root_scope g.assignment)) [
          | inl root ↦ inl root
          | inr scoped ↦
              let (rank, r) = ranked env g valid scoped in
              inr (
                scoped,
                rank,
                r,
                InScope-Reaches g rank valid scoped r
                    (elim c [ inl root ↦ absurd (ground arith) | inr inside ↦ inside ]),
              )
        ];
      },
    )

  -- an object whose anchor path leads nowhere is covered by root assignments only
  pub Takes-denied :
      (row : Obj) (anchor : Accessor) (levels : List (ℕ × Level)) (permission : Option String)
      → follow_parts env row anchor ≡ none
      → (g : Granted)
      → Takes env db (add_levels env anchor levels) permission row (Reaches env anchor levels row) g
        ↔ ((assignment_is_valid env g ≡ true)
            × (lacks db permission g ≡ false)
            × CoversAnchor env g.assignment denied)
  Takes-denied row anchor levels permission nowhere g = (
    λ t. (
      t.valid,
      t.permitted,
      elim t.reaches [
        | inl root ↦ ground (arith, root)
        | inr (scoped, rank, r, reached) ↦
            let (_, _, _, _, up, _, found) = reached in
            let (top, follows, _) = (matches_iff env (anchor ++ up) g.scope_id row).0 found in
            let (mid, first, _) = follow_parts_split env anchor up row top follows in
            absurd (ground (arith, nowhere, first))
      ],
    ),
    λ (valid, permitted, root). record {
      valid = valid;
      permitted = permitted;
      reaches = inl (ground (arith, root));
    },
  )
