-- ===== src/Engine/Visibility/Anchored.antt =====
-- The filter of a model that stores no nodes (scoped_access/engine.py: `scope_filter_q`) against the
-- per-object decisions.
use django_auth_with_scoped.Base.{
  ℕ, ◌≡◌, refl, ◌∙◌, sym, ap, ◌↔◌, inl, inr, true, false, not, ◌&&◌, Option, none, some, List, ◌∷◌,
  Memᴰ, arith, String, ◌==◌, nat_eq, string_eq, option_eq, if◌then◌else◌, mem-filter, get_elem?,
  contains, Bool-iff, Bool-cases, Option-cases,
}
use django_auth_with_scoped.World.{Obj, Accessor}
use django_auth_with_scoped.Registry
use django_auth_with_scoped.Registry.{Level}
use django_auth_with_scoped.Registry.Ranks.{HasDistinctNames}
use django_auth_with_scoped.Models.{User, Granted, Db}
use django_auth_with_scoped.Config.{Env}
use django_auth_with_scoped.Engine.Scope.{
  Anchor, node, global, denied, unregistered, follow, follow_parts, resolve_anchor,
}
use django_auth_with_scoped.Engine.Decision.{
  effective_assignments, anchor_of, is_unregistered, has_perm, user_covers, user_permissions,
}
use django_auth_with_scoped.Engine.Filters.{Q, nothing, holds, lacks, assignment_loop}
use django_auth_with_scoped.Engine.Filters.Loop.{assignment_loop-total}
use django_auth_with_scoped.Engine.Filters.Paths.{IsHost, HasParents}
use django_auth_with_scoped.Engine.Scope.Coverage.{CoversAnchor}
use django_auth_with_scoped.Engine.Decision.Access.{IsInForce}
use django_auth_with_scoped.Engine.Filters.Reach.{modeled_rank}
use django_auth_with_scoped.Engine.Filters.Agreement.{allows, IsShown, allows_iff, shown_iff}
use django_auth_with_scoped.Engine.Visibility.{
  related, anchor_target_levels, add_levels, global_filter, resource_filter,
}
use django_auth_with_scoped.Engine.Visibility.Levels.{
  related_sound, with_ranks_iff, Reaches, add_levels_iff, add_levels-total,
}
use django_auth_with_scoped.Engine.Visibility.Reach.{Takes-iff, Takes-denied}

-- The anchor of every registered model is a path of relations that leads to a model (the check
-- E008).
abbrev pub HasValidAnchors : Env → Type 0
HasValidAnchors env =
    (model : ℕ) (anchor : Accessor)
    → Registry.anchor_for env.resources model ≡ some anchor
    → (part : ℕ) × (parts : Accessor) × (last : ℕ) × (anchor ≡ part ∷ parts)
      × (related env model anchor ≡ some (some last))

module _ (env : Env) (db : Db) (user : User) (at : Option ℕ) (permission : Option String)
    (row : Obj) where
  pub allows_inactive : user.is_active ≡ false → allows env db user at permission row ≡ false
  unfolding allows user_covers has_perm
  allows_inactive e = none_or_some permission
    where
      none_or_some : (p : Option String) → allows env db user at p row ≡ false
      none_or_some none = ground arith
      none_or_some (some perm) = ground arith

  pub allows_superuser :
      user.is_active ≡ true → user.is_superuser ≡ true → allows env db user at permission row ≡ true
  unfolding allows user_covers has_perm
  allows_superuser e s = none_or_some permission
    where
      none_or_some : (p : Option String) → allows env db user at p row ≡ true
      none_or_some none = ground arith
      none_or_some (some perm) = ground arith

  -- a resource that belongs to no node
  allows_global :
      user.is_active ≡ true
      → user.is_superuser ≡ false
      → resolve_anchor env row ≡ global
      → holds env (global_filter env db user at permission) row
        ≡ allows env db user at permission row
  unfolding allows user_covers has_perm global_filter holds user_permissions anchor_of
  allows_global e s anchor = none_or_some permission
    where
      none_or_some :
          (p : Option String)
          → holds env (global_filter env db user at p) row ≡ allows env db user at p row
      none_or_some none = ground (arith)
      none_or_some (some perm) = ground arith

  allows_unregistered :
      user.is_superuser ≡ false
      → resolve_anchor env row ≡ unregistered
      → allows env db user at permission row ≡ false
  unfolding allows user_covers has_perm user_permissions anchor_of is_unregistered contains
  allows_unregistered s anchor = none_or_some permission
    where
      none_or_some : (p : Option String) → allows env db user at p row ≡ false
      none_or_some none = ground arith
      none_or_some (some perm) = ground arith

module _ (env : Env) (db : Db) (host : IsHost env) (names : HasDistinctNames env.hierarchy)
    (user : User) (at : Option ℕ) (permission : Option String) where
  module _ (active : user.is_active ≡ true) (plain : user.is_superuser ≡ false) where
    shown_agrees :
        (row : Obj) (anchor : Anchor) (q : Q)
        → (holds env q row ≡ true) ↔ (
            (g : Granted) × IsInForce env db user at g
            × (lacks db permission g ≡ false)
            × CoversAnchor env g.assignment anchor)
        → (allows env db user at permission row ≡ true)
          ↔ IsShown env db host user at permission anchor
        → holds env q row ≡ allows env db user at permission row
    shown_agrees row anchor q taken allowed =
        Bool-iff (holds env q row) (allows env db user at permission row) taken (
          λ a. elim (allowed.0 a).1 [ inl super ↦ absurd (ground arith) | inr shown ↦ shown ],
          λ shown. allowed.1 (active, inr shown),
        )

    -- the model of the row stores no nodes, is not global, and has this anchor
    module _ (row : Obj) (part : ℕ) (parts : Accessor)
        (not_node : Registry.is_node_model env.world env.hierarchy row.model ≡ false)
        (not_global : Registry.is_global env.resources row.model ≡ false)
        (registered : Registry.anchor_for env.resources row.model ≡ some (part ∷ parts)) where
      resolve_anchored :
          resolve_anchor env row
          ≡ elim (follow_parts env row (part ∷ parts)) [ none ↦ denied | some n ↦ node n ]
      unfolding resolve_anchor follow
      resolve_anchored = rw (resolve_anchor, not_node, not_global, registered) refl

      anchored_agrees :
          (last : ℕ) (levels : List (ℕ × Level)) (q : Q)
          → related env row.model (part ∷ parts) ≡ some (some last)
          → ((rank : ℕ) (l : Level)
              → Memᴰ (rank, l) levels ↔ (
                  Memᴰ l (Registry.levels_for_model env.world env.hierarchy last)
                  × (get_elem? env.hierarchy.levels rank ≡ some l)))
          → assignment_loop env db
              (add_levels env (part ∷ parts) levels)
              permission
              nothing
              (effective_assignments env db user at)
            ≡ some q
          → holds env q row ≡ allows env db user at permission row
      anchored_agrees last levels q leads levels_iff h =
          elim (Option-cases (follow_parts env row (part ∷ parts))) [
            | inl nowhere ↦
                let resolved : resolve_anchor env row ≡ denied =
                  resolve_anchored
                  ∙ ap {B = Anchor} (λ o. elim o [ none ↦ denied | some n ↦ node n ]) nowhere in
                shown_agrees row denied q
                  (shown_iff env db host user at permission denied row
                    (add_levels env (part ∷ parts) levels) (Reaches env (part ∷ parts) levels row)
                    (add_levels_iff env (part ∷ parts) levels row)
                    (Takes-denied env db host names row (part ∷ parts) levels permission nowhere) q
                    h)
                  (allows_iff env db host user at permission row denied resolved (λ c. c) (λ c. c))
            | inr (mid, follows) ↦
                let resolved : resolve_anchor env row ≡ node mid =
                  resolve_anchored
                  ∙ ap {B = Anchor} (λ o. elim o [ none ↦ denied | some n ↦ node n ]) follows in
                let model =
                  related_sound env host.typed_relations (part ∷ parts) row mid last leads
                    follows in
                shown_agrees row (node mid) q
                  (shown_iff env db host user at permission (node mid) row
                    (add_levels env (part ∷ parts) levels) (Reaches env (part ∷ parts) levels row)
                    (add_levels_iff env (part ∷ parts) levels row)
                    (Takes-iff env db host names row mid (part ∷ parts) last levels permission
                      follows model levels_iff)
                    q h)
                  (allows_iff env db host user at permission row (node mid) resolved (λ c. c)
                    (λ c. c))
          ]

    -- The filter of a model that stores no nodes: it is built, and takes in what is allowed.
    module _ (parents : HasParents env.hierarchy.levels) (valid : HasValidAnchors env) (model : ℕ)
        (other : Registry.is_node_model env.world env.hierarchy model ≡ false) where
      abbrev Agrees : Q → Type 0
      Agrees q =
          (row : Obj) → row.model ≡ model → holds env q row ≡ allows env db user at permission row

      not_node :
          (row : Obj)
          → row.model ≡ model
          → Registry.is_node_model env.world env.hierarchy row.model ≡ false
      not_node row same = ap (Registry.is_node_model env.world env.hierarchy) same ∙ other

      global_lem :
          Registry.is_global env.resources model ≡ true
          → Agrees (global_filter env db user at permission)
      unfolding resolve_anchor
      global_lem all row same =
          let all' : Registry.is_global env.resources row.model ≡ true =
            ap (Registry.is_global env.resources) same ∙ all in
          allows_global env db user at permission row active plain
            (rw (resolve_anchor, not_node row same, all') refl)

      module _ (some_node : Registry.is_global env.resources model ≡ false) where
        not_global :
            (row : Obj) → row.model ≡ model → Registry.is_global env.resources row.model ≡ false
        not_global row same = ap (Registry.is_global env.resources) same ∙ some_node

        module _ (nowhere : Registry.anchor_for env.resources model ≡ none) where
          unanchored :
              (row : Obj)
              → row.model ≡ model
              → resolve_anchor env row ≡ (if env.strict_registration then unregistered else global)
          unfolding resolve_anchor
          unanchored row same =
              let nowhere' : Registry.anchor_for env.resources row.model ≡ none =
                ap (Registry.anchor_for env.resources) same ∙ nowhere in
              rw (resolve_anchor, not_node row same, not_global row same, nowhere') refl

          lenient_lem :
              env.strict_registration ≡ false → Agrees (global_filter env db user at permission)
          lenient_lem lenient row same =
              allows_global env db user at permission row active plain
                (unanchored row same ∙ rw lenient refl)

          strict_lem : env.strict_registration ≡ true → Agrees nothing
          unfolding holds
          strict_lem strict row same = sym (
              allows_unregistered env db user at permission row plain
                (unanchored row same ∙ rw strict refl))

        anchored_lem :
            (anchor : Accessor)
            → Registry.anchor_for env.resources model ≡ some anchor
            → (levels : List (ℕ × Level)) × (q : Q) × (anchor_target_levels env model anchor
                ≡ some levels)
              × (assignment_loop env db
                    (add_levels env anchor levels)
                    permission
                    nothing
                    (effective_assignments env db user at)
                  ≡ some q)
              × Agrees q
        unfolding anchor_target_levels Registry.levels_for_model
        anchored_lem anchor registered =
            let (part, parts, last, path, leads) = valid model anchor registered in
            let (levels, ranked, levels_iff) =
              with_ranks_iff env names (Registry.levels_for_model env.world env.hierarchy last)
                (λ l m.
                  (mem-filter
                    (λ (k : Level).
                      not (Registry.is_root k) && (Registry.model env.world k == some last))
                    env.hierarchy.levels m).0) in
            let (q, loop) =
              assignment_loop-total env db (add_levels env anchor levels) permission
                (λ g rank q' ok scoped r.
                  let (top, at_top, modeled) = modeled_rank env g rank ok scoped r in
                  add_levels-total env parents anchor levels g.assignment rank top at_top modeled
                    (λ i l m. ((levels_iff i l).0 m).1) q')
                nothing (effective_assignments env db user at) in
            (
              levels,
              q,
              ap (anchor_target_levels env model) path
                  ∙ rw (anchor_target_levels, ap (related env model) (sym path) ∙ leads) ranked,
              loop,
              λ row same.
                  anchored_agrees row part parts (not_node row same) (not_global row same)
                    (ap (Registry.anchor_for env.resources) same ∙ registered ∙ ap some path) last
                    levels q
                    (ap (λ m. related env m (part ∷ parts)) same
                      ∙ ap (related env model) (sym path)
                      ∙ leads)
                    levels_iff
                    (ap
                        (λ a.
                          assignment_loop env db (add_levels env a levels) permission nothing
                            (effective_assignments env db user at))
                        (sym path)
                      ∙ loop),
            )

      pub resource_filter_lem :
          (q : Q) × (resource_filter env db user at permission model ≡ some q) × Agrees q
      unfolding resource_filter
      resource_filter_lem = elim (Bool-cases (Registry.is_global env.resources model)) [
        | inl all ↦ (global_filter env db user at permission, ground (arith), global_lem all)
        | inr some_node ↦ elim (Option-cases (Registry.anchor_for env.resources model)) [
          | inl nowhere ↦ elim (Bool-cases env.strict_registration) [
            | inl strict ↦ (nothing, ground arith, strict_lem some_node nowhere strict)
            | inr lenient ↦ (
              global_filter env db user at permission,
              ground arith,
              lenient_lem some_node nowhere lenient,
            )
          ]
          | inr (anchor, registered) ↦
              let (levels, q, targets, loop, agrees) = anchored_lem some_node anchor registered in
              (q, ground (arith, targets, loop), agrees)
        ]
      ]
