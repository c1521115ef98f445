-- ===== src/Engine/Filters/Reach.antt =====
-- Which assignments take a node in (scoped_access/engine.py: `accessible_nodes`): those in whose
-- scope it lies.
use django_auth_with_scoped.Base.{
  ℕ, ◌-◌, ◌≤◌, ◌≡◌, refl, ◌∙◌, sym, ap, ◌↔◌, ◌⊎◌, inl, inr, true, false, Option, some, List, [],
  Memᴰ, arith, ◌==◌, nat_eq, option_eq, get_elem?, get_elem?-mem, not, ◌&&◌, filter-mem, ltb,
  ltb_iff, any_sound, ◌∷◌, filter, mem-filter, Bool-cases, Option-cases,
}
use django_auth_with_scoped.World.{Obj, Accessor, HasSoundReferences}
use django_auth_with_scoped.Registry
use django_auth_with_scoped.Registry.{Level}
use django_auth_with_scoped.Registry.Ranks.{rank_sound, rank-level}
use django_auth_with_scoped.Models.{Assignment, Granted, is_root_scope}
use django_auth_with_scoped.Config.{Env}
use django_auth_with_scoped.Engine.Scope.{
  follow_parts, assignment_scope_or_none, found_or_none, assignment_is_valid,
}
use django_auth_with_scoped.Engine.Scope.Coverage.{InScope}
use django_auth_with_scoped.Engine.Filters.{
  Q, at_path, pk_is, either, rank_or_none, holds, up_path, add_scope,
}
use django_auth_with_scoped.Engine.Filters.Loop.{either_holds}
use django_auth_with_scoped.Engine.Filters.Paths.{IsHost, IsChained, climb, ascend, valid_scope}

module _ (env : Env) where
  -- The lookup up to a rank is an ancestor with the key.
  abbrev pub Climbs : Obj → ℕ → Assignment → ℕ → Type 0
  Climbs n target a rank =
      (rank ≤ target)
      × (path : Accessor) × (up_path env.hierarchy.levels target (target - rank) ≡ some path)
      × (holds env (at_path path a.scope_id) n ≡ true)

  pub mem-queryset :
      (l : Level) (n : Obj)
      → Memᴰ n (Registry.queryset env.world l)
      → (m : ℕ) × (Registry.model env.world l ≡ some m) × Memᴰ n (env.all_rows m)
  unfolding Registry.queryset
  mem-queryset l n mem = elim (Option-cases (Registry.model env.world l)) [
    | inl e ↦ elim (rw (e, Registry.queryset) at mem) [ ]
    | inr (m, e) ↦ (m, e, unfiltered m l.discriminator (rw (e, Registry.queryset) at mem))
  ]
    where
      unfiltered :
          (m : ℕ) (d : List (ℕ × ℕ))
          → Memᴰ n (elim d [
            | [] ↦ env.all_rows m
            | _ ∷ _ ↦ filter (env.satisfies l.discriminator) (env.all_rows m)
          ])
          → Memᴰ n (env.all_rows m)
      unfiltered m [] k = k
      unfiltered m (x ∷ d) k = (mem-filter (env.satisfies l.discriminator) (env.all_rows m) k).0

  pub is_node_model_lem :
      (r : ℕ) (l : Level) (m : ℕ)
      → get_elem? env.hierarchy.levels r ≡ some l
      → Registry.is_root l ≡ false
      → Registry.model env.world l ≡ some m
      → Registry.is_node_model env.world env.hierarchy m ≡ true
  unfolding Registry.is_node_model Registry.levels_for_model
  is_node_model_lem r l m at plain model =
      let test =
        λ (k : Level). not (Registry.is_root k) && (Registry.model env.world k == some m) in
      let mem = filter-mem test (get_elem?-mem env.hierarchy.levels r at) (
        ground
          (arith, plain, (option_eq {A = ℕ}).same_iff (Registry.model env.world l) (some m))) in
      non_empty (filter test env.hierarchy.levels) mem
    where
      non_empty : (ls : List Level) → Memᴰ l ls → (elim ls [ [] ↦ false | _ ∷ _ ↦ true ]) ≡ true
      non_empty [] k = elim k [ ]
      non_empty (x ∷ ls) k = refl

  pub matches_iff :
      (path : Accessor) (id : Option ℕ) (n : Obj)
      → (holds env (at_path path id) n ≡ true)
        ↔ ((top : Obj) × (follow_parts env n path ≡ some top) × (top.pk ≡ id))
  unfolding holds
  matches_iff path id n = (
    λ h. elim (Option-cases (follow_parts env n path)) [
      | inl e ↦ absurd (ground arith)
      | inr (top, e) ↦ (top, e, ground (arith, (option_eq {A = ℕ}).same_iff top.pk id))
    ],
    λ (top, e, same). rw (holds, e) (((option_eq {A = ℕ}).same_iff top.pk id).1 same),
  )

  pub add_scope_iff :
      (n : Obj) (target : ℕ) (a : Assignment) (rank : ℕ) (q q' : Q)
      → add_scope env target a rank q ≡ some q'
      → (holds env q' n ≡ true) ↔ ((holds env q n ≡ true) ⊎ Climbs n target a rank)
  unfolding add_scope up_path holds follow_parts
  add_scope_iff n target a rank q q' h = elim (Bool-cases (ltb target rank)) [
    | inl low ↦
        let same : q ≡ q' = ground arith in
        (
          λ m. inl (ap (λ r. holds env r n) same ∙ m),
          λ m. elim m [
            | inl old ↦ ap (λ r. holds env r n) (sym same) ∙ old
            | inr (le, _, _, _) ↦ absurd (ground (arith, ltb_iff target rank))
          ],
        )
    | inr high ↦
        let le : rank ≤ target = ground (arith, ltb_iff target rank) in
        elim (Bool-cases (rank == target)) [
          | inl same_rank ↦
              let equal : rank ≡ target = (nat_eq.same_iff rank target).0 same_rank in
              let shape : either q (pk_is a.scope_id) ≡ q' = ground arith in
              let no_climb : target - rank ≡ 0 = omega (arith, equal) in
              let here : up_path env.hierarchy.levels target (target - rank) ≡ some [] =
                ap (up_path env.hierarchy.levels target) no_climb ∙ up_path-zero target in
              grown q' (pk_is a.scope_id) shape (
                λ new. (le, [], here, new),
                λ (_, path, climbs, new).
                    let stay : path ≡ [] = cc in
                    ap (λ p. holds env (at_path p a.scope_id) n) (sym stay) ∙ new,
              )
          | inr differs ↦
              elim (Option-cases (up_path env.hierarchy.levels target (target - rank))) [
                | inl e ↦ absurd (ground arith)
                | inr (path, e) ↦
                    let shape : either q (at_path path a.scope_id) ≡ q' = ground arith in
                    grown q' (at_path path a.scope_id) shape (
                      λ new. (le, path, e, new),
                      λ (_, path', climbs, new).
                          let stay : path ≡ path' = cc in
                          ap (λ p. holds env (at_path p a.scope_id) n) stay ∙ new,
                    )
              ]
        ]
  ]
    where
      up_path-zero : (r : ℕ) → up_path env.hierarchy.levels r 0 ≡ some []
      up_path-zero r = refl

      grown :
          (q' r : Q)
          → either q r ≡ q'
          → (holds env r n ≡ true) ↔ Climbs n target a rank
          → (holds env q' n ≡ true) ↔ ((holds env q n ≡ true) ⊎ Climbs n target a rank)
      grown q' r shape iff = (
        λ m. elim ((either_holds env q r n).0 (ap (λ s. holds env s n) shape ∙ m)) [
          | inl old ↦ inl old
          | inr new ↦ inr (iff.0 new)
        ],
        λ m.
            ap (λ s. holds env s n) (sym shape)
            ∙ (either_holds env q r n).1 (elim m [ inl old ↦ inl old | inr new ↦ inr (iff.1 new) ]),
      )

  -- the rank of a valid assignment's level, and the level there
  pub ranked :
      (g : Granted)
      → assignment_is_valid env g ≡ true
      → is_root_scope g.assignment ≡ false
      → (rank : ℕ) × (rank_or_none env.hierarchy g.assignment ≡ some rank)
  unfolding rank_or_none
  ranked g valid scoped =
      let (scope, name, l, fetched, level, found, _, _, _) = valid_scope env g valid scoped in
      let (i, r, _) = rank-level env.hierarchy name l found in (i, rw level r)

  -- the level at that rank has a model
  pub modeled_rank :
      (g : Granted) (rank : ℕ)
      → assignment_is_valid env g ≡ true
      → is_root_scope g.assignment ≡ false
      → rank_or_none env.hierarchy g.assignment ≡ some rank
      → (k : Level) × (get_elem? env.hierarchy.levels rank ≡ some k) × (Registry.is_root k ≡ false)
  unfolding rank_or_none
  modeled_rank g rank valid scoped r =
      let (scope, name, k, fetched, level, found, _, plain, _) = valid_scope env g valid scoped in
      let r' : Registry.rank env.hierarchy name ≡ some rank = ground (arith, r) in
      let (k', found', at_rank, _) = rank_sound env.hierarchy name rank r' in
      (k, at_rank ∙ sym found' ∙ found, plain)

  module _ (sound : HasSoundReferences env.world) where
    -- the scope of a valid assignment at a rank, and its level
    scope_lem :
        (g : Granted) (rank : ℕ)
        → assignment_is_valid env g ≡ true
        → is_root_scope g.assignment ≡ false
        → rank_or_none env.hierarchy g.assignment ≡ some rank
        → (scope : Obj) × (k : Level) × (get_elem? env.hierarchy.levels rank ≡ some k)
          × (Registry.model env.world k ≡ some scope.model)
          × (Registry.has_row env.world k scope.pk ≡ true)
          × (some (env.content_type scope.model) ≡ g.scope_ct_id)
          × (scope.pk ≡ g.scope_id)
    unfolding rank_or_none assignment_scope_or_none found_or_none
    scope_lem g rank valid scoped r =
        let (scope, name, k, fetched, level, found, model, _, stored) =
          valid_scope env g valid scoped in
        let r' : Registry.rank env.hierarchy name ≡ some rank = ground (arith, r) in
        let (k', found', at_rank, _) = rank_sound env.hierarchy name rank r' in
        let (ct, pk) : (some (env.content_type scope.model) ≡ g.scope_ct_id)
            × (scope.pk ≡ g.scope_id) =
          ground (arith, sound g.scope_ct_id g.scope_id scope) in
        (scope, k, at_rank ∙ sym found' ∙ found, model, stored, ct, pk)

    pub Climbs-InScope :
        IsChained env
        → (g : Granted) (n : Obj) (target rank : ℕ) (l : Level)
        → get_elem? env.hierarchy.levels target ≡ some l
        → Registry.model env.world l ≡ some n.model
        → assignment_is_valid env g ≡ true
        → is_root_scope g.assignment ≡ false
        → rank_or_none env.hierarchy g.assignment ≡ some rank
        → Climbs n target g.assignment rank
        → InScope env g.assignment n
    Climbs-InScope chained g n target rank l at model valid scoped r (le, path, climbs, matches) =
        let (scope, k, at_k, k_model, _, ct, _) = scope_lem g rank valid scoped r in
        let (top, follows, top_pk) = (matches_iff path g.scope_id n).0 matches in
        let (up, j, at_j, j_model) =
          climb env chained (target - rank) target path l n top climbs at model follows in
        let back : target - (target - rank) ≡ rank = omega (arith, le) in
        let at_j' : get_elem? env.hierarchy.levels rank ≡ some j =
          ap (get_elem? env.hierarchy.levels) (sym back) ∙ at_j in
        let same : top.model ≡ scope.model = cc in
        (top, up, top_pk, ap (λ m. some (env.content_type m)) same ∙ ct)

  module _ (host : IsHost env) where
    pub typed_row :
        (k : Level) (m : ℕ) (row : Obj)
        → Registry.model env.world k ≡ some m
        → Memᴰ row (Registry.queryset env.world k)
        → row.model ≡ m
    typed_row k m row model mem =
        let (m', model', is_row) = mem-queryset k row mem in
        host.typed_rows m' row is_row ∙ ground (arith, model, model')

    pub InScope-Climbs :
        (g : Granted) (n : Obj) {target : ℕ} (rank : ℕ)
        → assignment_is_valid env g ≡ true
        → is_root_scope g.assignment ≡ false
        → rank_or_none env.hierarchy g.assignment ≡ some rank
        → host.layers.rank_of n ≡ target
        → InScope env g.assignment n
        → Climbs n target g.assignment rank
    unfolding Registry.has_row
    InScope-Climbs g n {target} rank valid scoped r place (top, up, top_pk, top_ct) =
        let (scope, k, at_k, k_model, stored, ct, pk) =
          scope_lem host.sound_references g rank valid scoped r in
        let (row, row_stored, row_pk) = any_sound (λ (o : Obj). o.pk == scope.pk) _ stored in
        let (le, path, climbs, follows) = ascend env host.layers up in
        let row_model : row.model ≡ scope.model = typed_row k scope.model row k_model row_stored in
        let top_model : top.model ≡ scope.model =
          host.distinct_content_types top.model scope.model (ground (arith, ct, top_ct)) in
        let keys : top.pk ≡ row.pk =
          top_pk ∙ sym pk ∙ sym (((option_eq {A = ℕ}).same_iff row.pk scope.pk).0 row_pk) in
        let top_rank : host.layers.rank_of top ≡ rank =
          host.layers.same top row (top_model ∙ sym row_model) keys
          ∙ host.layers.placed rank k row at_k row_stored in
        let gap : host.layers.rank_of n - host.layers.rank_of top ≡ target - rank =
          omega (arith, place, top_rank) in
        (
          omega (arith, le, place, top_rank),
          path,
          ap (up_path env.hierarchy.levels target) (sym gap)
              ∙ ap
                  (λ c.
                    up_path env.hierarchy.levels c
                      (host.layers.rank_of n - host.layers.rank_of top))
                  (sym place)
              ∙ climbs,
          (matches_iff path g.scope_id n).1 (top, follows, top_pk),
        )

    -- an assignment in whose scope a node lies has a scope of a level's model
    pub scope_model :
        (g : Granted) (n : Obj) (rank : ℕ)
        → assignment_is_valid env g ≡ true
        → is_root_scope g.assignment ≡ false
        → rank_or_none env.hierarchy g.assignment ≡ some rank
        → some (env.content_type n.model) ≡ g.scope_ct_id
        → (k : Level) × (get_elem? env.hierarchy.levels rank ≡ some k)
          × (Registry.model env.world k ≡ some n.model)
    scope_model g n rank valid scoped r ct =
        let (scope, k, at_k, k_model, _, scope_ct, _) =
          scope_lem host.sound_references g rank valid scoped r in
        let same : scope.model ≡ n.model =
          host.distinct_content_types scope.model n.model (ground (arith, scope_ct, ct)) in
        (k, at_k, k_model ∙ ap some same)
