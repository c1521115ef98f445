-- ===== src/Engine/Visibility/Levels.antt =====
-- The levels that an anchor can lead to (scoped_access/engine.py: `_anchor_target_levels`), and what
-- `scope_filter_q` adds for them.
use mathlib.Core.List.Memᴰ
use mathlib.Core.List.{◌++◌}
use django_auth_with_scoped.Base.{
  ℕ, ◌-◌, ◌≤◌, ◌≡◌, refl, ◌∙◌, sym, ap, ◌↔◌, ◌⊎◌, inl, inr, true, false, some, List, [], ◌∷◌, Memᴰ,
  arith, nat_eq, option_eq, get_elem?, mem-get_elem?, ltb, ltb_iff, Bool-cases, Option-cases,
}
use django_auth_with_scoped.World.{Obj, Accessor, Field-cases, HasTypedRelations}
use django_auth_with_scoped.Registry
use django_auth_with_scoped.Registry.{Level}
use django_auth_with_scoped.Registry.Ranks.{HasDistinctNames, rank_complete}
use django_auth_with_scoped.Models.{Assignment}
use django_auth_with_scoped.Config.{Env}
use django_auth_with_scoped.Engine.Scope.{follow_parts}
use django_auth_with_scoped.Engine.Filters.{Q, at_path, either, holds, up_path}
use django_auth_with_scoped.Engine.Filters.Loop.{either_holds}
use django_auth_with_scoped.Engine.Filters.Paths.{HasParents, up_path-total}
use django_auth_with_scoped.Engine.Visibility.{related, with_ranks, add_levels}

module _ (env : Env) where
  -- What an anchor path leads to is an instance of the model that its fields lead to.
  pub related_sound :
      HasTypedRelations env.world
      → (path : Accessor) (row n : Obj) (last : ℕ) → related env row.model path ≡ some (some last)
      → follow_parts env row path ≡ some n
      → n.model ≡ last
  unfolding related follow_parts
  related_sound typed [] row n last h f =
      let same : row ≡ n = ground arith in ground (arith, ap (λ (o : Obj). o.model) same)
  related_sound typed (part ∷ parts) row n last h f = elim (Option-cases (env.getattr row part)) [
    | inl e ↦ absurd (ground arith)
    | inr (next, e) ↦ elim (Field-cases (env.get_field row.model part)) [
      | inl missing ↦ absurd (ground arith)
      | inr (inl plain) ↦ absurd (rw plain at (typed row next part e))
      | inr (inr (m, leads)) ↦
          let model : next.model ≡ m = rw leads at (typed row next part e) in
          related_sound typed parts next n last
            (ap (λ k. related env k parts) model ∙ rw (leads, related) at h)
            (rw (e, follow_parts) at f)
    ]
  ]

  -- The levels of a model, with their ranks.
  pub with_ranks_iff :
      HasDistinctNames env.hierarchy
      → (ls : List Level) → ((l : Level) → Memᴰ l ls → Memᴰ l env.hierarchy.levels)
      → (xs : List (ℕ × Level)) × (with_ranks env ls ≡ some xs)
        × ((rank : ℕ) (l : Level)
            → Memᴰ (rank, l) xs ↔ (Memᴰ l ls × (get_elem? env.hierarchy.levels rank ≡ some l)))
  unfolding with_ranks
  with_ranks_iff names [] inside =
      ([], refl, λ rank l. (λ never. elim never [ ], λ (never, _). elim never [ ]))
  with_ranks_iff names (l ∷ ls) inside =
      let (i, at) = mem-get_elem? (inside l (Memᴰ.head refl)) in
      let (_, r) = rank_complete env.hierarchy names i l at in
      let (xs, e, iff) = with_ranks_iff names ls (λ k m. inside k (Memᴰ.tail m)) in
      (
        (i, l) ∷ xs,
        rw (with_ranks, r, e) refl,
        λ rank k. (
          λ m. elim (Memᴰ.cases_cons m) [
            | inl here ↦
                let index : rank ≡ i = ap (λ (p : ℕ × Level). p.0) here in
                let same : k ≡ l = ap (λ (p : ℕ × Level). p.1) here in
                (
                  Memᴰ.head same,
                  ap (get_elem? env.hierarchy.levels) index ∙ at ∙ ap some (sym same),
                )
            | inr later ↦ let (m', at') = (iff rank k).0 later in (Memᴰ.tail m', at')
          ],
          λ (m, at'). elim (Memᴰ.cases_cons m) [
            | inl same ↦
                let index : rank ≡ i = names rank i k l at' at (ap (λ (x : Level). x.name) same) in
                Memᴰ.head (λ j. (index j, same j))
            | inr later ↦ Memᴰ.tail ((iff rank k).1 (later, at'))
          ],
        ),
      )

  -- Some target level at the assignment's rank or below it is one from which a lookup finds the key.
  abbrev pub Reaches : Accessor → List (ℕ × Level) → Obj → Assignment → ℕ → Type 0
  Reaches anchor levels row a a_rank =
      (rank : ℕ) × (l : Level) × Memᴰ (rank, l) levels
      × (a_rank ≤ rank)
      × (up : Accessor) × (up_path env.hierarchy.levels rank (rank - a_rank) ≡ some up)
      × (holds env (at_path (anchor ++ up) a.scope_id) row ≡ true)

  pub add_levels_iff :
      (anchor : Accessor) (levels : List (ℕ × Level)) (row : Obj) (a : Assignment) (a_rank : ℕ)
      (q q' : Q)
      → add_levels env anchor levels a a_rank q ≡ some q'
      → (holds env q' row ≡ true) ↔ ((holds env q row ≡ true) ⊎ Reaches anchor levels row a a_rank)
  unfolding add_levels
  add_levels_iff anchor [] row a a_rank q q' h =
      let same : q ≡ q' = ground arith in
      (
        λ m. inl (ap (λ r. holds env r row) same ∙ m),
        λ m. elim m [
          | inl old ↦ ap (λ r. holds env r row) (sym same) ∙ old
          | inr (_, _, never, _, _, _, _) ↦ elim never [ ]
        ],
      )
  add_levels_iff anchor ((rank, l) ∷ levels) row a a_rank q q' h =
      elim (Bool-cases (ltb rank a_rank)) [
        | inl low ↦
            let iff = add_levels_iff anchor levels row a a_rank q q' (rw (add_levels, low) at h) in
            (
              λ m. elim (iff.0 m) [
                | inl old ↦ inl old
                | inr (r, k, mem, le, up, climbs, new) ↦
                    inr (r, k, Memᴰ.tail mem, le, up, climbs, new)
              ],
              λ m. iff.1 (elim m [
                | inl old ↦ inl old
                | inr (r, k, mem, le, up, climbs, new) ↦ elim (Memᴰ.cases_cons mem) [
                  | inl here ↦
                      absurd (ground (arith, ltb_iff rank a_rank, ap (λ (p : ℕ × Level). p.0) here))
                  | inr later ↦ inr (r, k, later, le, up, climbs, new)
                ]
              ]),
            )
        | inr high ↦
            let le : a_rank ≤ rank = ground (arith, ltb_iff rank a_rank) in
            elim (Option-cases (up_path env.hierarchy.levels rank (rank - a_rank))) [
              | inl e ↦ absurd (ground arith)
              | inr (up, e) ↦
                  let added = at_path (anchor ++ up) a.scope_id in
                  let iff =
                    add_levels_iff anchor levels row a a_rank (either q added) q'
                      (rw (add_levels, high, e) at h) in
                  (
                    λ m. elim (iff.0 m) [
                      | inr (r, k, mem, le', up', climbs, new) ↦
                          inr (r, k, Memᴰ.tail mem, le', up', climbs, new)
                      | inl now ↦ elim ((either_holds env q added row).0 now) [
                        | inl old ↦ inl old
                        | inr new ↦ inr (rank, l, Memᴰ.head refl, le, up, e, new)
                      ]
                    ],
                    λ m. iff.1 (elim m [
                      | inl old ↦ inl ((either_holds env q added row).1 (inl old))
                      | inr (r, k, mem, le', up', climbs, new) ↦ elim (Memᴰ.cases_cons mem) [
                        | inr later ↦ inr (r, k, later, le', up', climbs, new)
                        | inl here ↦
                            let index : r ≡ rank = ap (λ (p : ℕ × Level). p.0) here in
                            let path : up' ≡ up = ground (
                              arith,
                              ap (λ c. up_path env.hierarchy.levels c (c - a_rank)) index,
                            ) in
                            let found : holds env added row ≡ true =
                              ap (λ p. holds env (at_path (anchor ++ p) a.scope_id) row) (sym path)
                              ∙ new in
                            inl ((either_holds env q added row).1 (inr found))
                      ]
                    ]),
                  )
            ]
      ]

  pub add_levels-total :
      HasParents env.hierarchy.levels
      → (anchor : Accessor) (levels : List (ℕ × Level)) (a : Assignment) (a_rank : ℕ) (top : Level)
      → get_elem? env.hierarchy.levels a_rank ≡ some top
      → Registry.is_root top ≡ false
      → ((rank : ℕ) (l : Level)
          → Memᴰ (rank, l) levels
          → get_elem? env.hierarchy.levels rank ≡ some l)
      → (q : Q) → (q' : Q) × (add_levels env anchor levels a a_rank q ≡ some q')
  unfolding add_levels
  add_levels-total parents anchor [] a a_rank top at modeled placed q = (q, refl)
  add_levels-total parents anchor ((rank, l) ∷ levels) a a_rank top at modeled placed q =
      elim (Bool-cases (ltb rank a_rank)) [
        | inl low ↦
            let (q', e) =
              add_levels-total parents anchor levels a a_rank top at modeled
                (λ r k m. placed r k (Memᴰ.tail m)) q in
            (q', rw (add_levels, low) e)
        | inr high ↦
            let (up, climbs) =
              up_path-total env parents (rank - a_rank) rank a_rank top l
                (ground (arith, ltb_iff rank a_rank)) at modeled (placed rank l (Memᴰ.head refl)) in
            let (q', e) =
              add_levels-total parents anchor levels a a_rank top at modeled
                (λ r k m. placed r k (Memᴰ.tail m))
                (either q (at_path (anchor ++ up) a.scope_id)) in
            (q', rw (add_levels, high, climbs) e)
      ]
