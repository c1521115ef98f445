-- ===== src/Engine/Filters/Sound.antt =====
-- `accessible_nodes` (scoped_access/engine.py) lists nothing that the per-object decisions refuse,
-- in hierarchies whose levels may share a model.
use django_auth_with_scoped.Base.{
  ℕ, ◌≡◌, ◌∙◌, sym, ap, ◌⊎◌, inl, inr, true, false, Option, none, some, List, Memᴰ, arith, String,
  filter, mem-filter, get_elem?, Bool-cases, Option-cases, subst, string_eq,
}
use django_auth_with_scoped.World.{Obj, HasSoundReferences, HasTypedRows}
use django_auth_with_scoped.Registry
use django_auth_with_scoped.Registry.{Level}
use django_auth_with_scoped.Registry.Ranks.{rank_sound}
use django_auth_with_scoped.Models.{User, Granted, Db}
use django_auth_with_scoped.Config.{Env}
use django_auth_with_scoped.Engine.Scope.{node}
use django_auth_with_scoped.Engine.Scope.Ancestors.{HasFiniteDepth}
use django_auth_with_scoped.Engine.Scope.Coverage.{CoversAnchor, resolve_anchor_node}
use django_auth_with_scoped.Engine.Decision.{
  effective_assignments, anchor_of, has_perm, user_covers,
}
use django_auth_with_scoped.Engine.Decision.Access.{
  IsInForce, mem-effective_assignments, has_perm_iff,
}
use django_auth_with_scoped.Engine.Decision.Admission.{user_covers_iff}
use django_auth_with_scoped.Engine.Filters.{
  Q, nothing, holds, lacks, add_scope, assignment_loop, node_condition, accessible_nodes,
}
use django_auth_with_scoped.Engine.Filters.Loop.{Takes, assignment_loop_iff}
use django_auth_with_scoped.Engine.Filters.Paths.{IsChained}
use django_auth_with_scoped.Engine.Filters.Reach.{
  Climbs, Climbs-InScope, add_scope_iff, is_node_model_lem, mem-queryset,
}

module _ (env : Env) (db : Db) (sound : HasSoundReferences env.world)
    (chained : IsChained env) where
  -- what a row that is listed shows
  abbrev IsListed : User → Option ℕ → Option String → Obj → Type 0
  IsListed user at permission n =
      (user.is_active ≡ true)
      × ((user.is_superuser ≡ true)
          ⊎ ((g : Granted) × IsInForce env db user at g
              × (lacks db permission g ≡ false)
              × CoversAnchor env g.assignment (node n)))

  Takes-covers :
      (target : ℕ) (permission : Option String) (l : Level) (n : Obj) (g : Granted)
      → get_elem? env.hierarchy.levels target ≡ some l
      → Registry.model env.world l ≡ some n.model
      → Takes env db (add_scope env target) permission n (Climbs env n target) g
      → CoversAnchor env g.assignment (node n)
  Takes-covers target permission l n g at model t = elim t.reaches [
    | inl root ↦ inl (ground (arith, root))
    | inr (scoped, rank, r, c) ↦
        inr (Climbs-InScope env sound chained g n target rank l at model t.valid scoped r c)
  ]

  node_condition_sound :
      (user : User) (target : ℕ) (at : Option ℕ) (permission : Option String) (q : Q) (l : Level)
      (n : Obj)
      → get_elem? env.hierarchy.levels target ≡ some l
      → Registry.model env.world l ≡ some n.model
      → node_condition env db user target at permission ≡ some q
      → holds env q n ≡ true
      → IsListed user at permission n
  unfolding node_condition holds
  node_condition_sound user target at permission q l n at_l model h m =
      elim (Bool-cases user.is_active) [
        | inr e ↦ absurd (ground arith)
        | inl e ↦ elim (Bool-cases user.is_superuser) [
          | inl s ↦ (e, inl s)
          | inr s ↦
              let loop : assignment_loop env db (add_scope env target) permission nothing
                    (effective_assignments env db user at)
                  ≡ some q =
                simp (e, s) at h in
              elim ((assignment_loop_iff env db (add_scope env target) permission n
                  (Climbs env n target) (add_scope_iff env n target) nothing q
                  (effective_assignments env db user at) loop).0
                m) [
                  | inl never ↦ absurd (ground arith)
                  | inr (g, mem, t) ↦ (
                    e,
                    inr (
                      g,
                      (mem-effective_assignments env db user at g).0 (mem, t.valid),
                      t.permitted,
                      Takes-covers target permission l n g at_l model t,
                    ),
                  )
                ]
        ]
      ]

  accessible_nodes_cases :
      (user : User) (name : ℕ) (at : Option ℕ) (permission : Option String) (rows : List Obj)
      → accessible_nodes env db user name at permission ≡ some rows
      → (l : Level) × (target : ℕ) × (q : Q) × (Registry.level env.hierarchy name ≡ some l)
        × (Registry.is_root l ≡ false)
        × (Registry.rank env.hierarchy name ≡ some target)
        × (node_condition env db user target at permission ≡ some q)
        × (filter (holds env q) (Registry.queryset env.world l) ≡ rows)
  unfolding accessible_nodes
  accessible_nodes_cases user name at permission rows h =
      elim (Option-cases (Registry.level env.hierarchy name)) [
        | inl e ↦ absurd (ground arith)
        | inr (l, e) ↦ elim (Bool-cases (Registry.is_root l)) [
          | inl r ↦ absurd (ground arith)
          | inr r ↦ elim (Option-cases (Registry.rank env.hierarchy name)) [
            | inl e' ↦ absurd (ground arith)
            | inr (target, e') ↦
                elim (Option-cases (node_condition env db user target at permission)) [
                  | inl e'' ↦ absurd (ground arith)
                  | inr (q, e'') ↦ (l, target, q, e, r, e', e'', ground arith)
                ]
          ]
        ]
      ]

  module _ (finite : HasFiniteDepth env) (typed : HasTypedRows env.world) where
    listed :
        (user : User) (name : ℕ) (at : Option ℕ) (permission : Option String) (rows : List Obj)
        (n : Obj)
        → accessible_nodes env db user name at permission ≡ some rows
        → Memᴰ n rows
        → (Registry.is_node_model env.world env.hierarchy n.model ≡ true)
          × IsListed user at permission n
    listed user name at permission rows n h mem =
        let (l, target, q, found, plain, ranked, condition, all) =
          accessible_nodes_cases user name at permission rows h in
        let (l', found', at_l', _) = rank_sound env.hierarchy name target ranked in
        let at_l : get_elem? env.hierarchy.levels target ≡ some l = at_l' ∙ sym found' ∙ found in
        let (stored, met) =
          mem-filter (holds env q) (Registry.queryset env.world l)
            (subst (λ r. Memᴰ n r) (sym all) mem) in
        let (m, model, is_row) = mem-queryset env l n stored in
        let model' : Registry.model env.world l ≡ some n.model =
          model ∙ ap some (sym (typed m n is_row)) in
        (
          is_node_model_lem env target l n.model at_l plain model',
          node_condition_sound user target at permission q l n at_l model' condition met,
        )

    -- Every node that `accessible_nodes` lists with a permission is one on which `has_perm`
    -- grants that permission: nothing is listed that the per-object check refuses. It holds
    -- where parents lead to smaller depths, references are sound, rows are of their model, and
    -- the accessor of a level leads to the level above (HasFiniteDepth, HasSoundReferences,
    -- HasTypedRows, IsChained).
    pub accessible_nodes-has_perm :
        (user : User) (name : ℕ) (at : Option ℕ) (perm : String) (rows : List Obj) (n : Obj)
        → accessible_nodes env db user name at (some perm) ≡ some rows
        → Memᴰ n rows
        → has_perm env db user perm (some n) at ≡ true
    unfolding lacks anchor_of
    accessible_nodes-has_perm user name at perm rows n h mem =
        let (is_node, info) = listed user name at (some perm) rows n h mem in
        let (active, who) = info in
        (has_perm_iff env db finite user perm (some n) at).1 (
          active,
          elim who [
            | inl s ↦ inl s
            | inr (g, inforce, permitted, c) ↦
                inr
                  (g, inforce, rw (resolve_anchor_node env n is_node) c, ground (arith, permitted))
          ],
        )

    -- Every node that `accessible_nodes` lists without a permission is one that `user_covers`
    -- admits. It holds where parents lead to smaller depths, references are sound, rows are of
    -- their model, and the accessor of a level leads to the level above (HasFiniteDepth,
    -- HasSoundReferences, HasTypedRows, IsChained).
    pub accessible_nodes-user_covers :
        (user : User) (name : ℕ) (at : Option ℕ) (rows : List Obj) (n : Obj)
        → accessible_nodes env db user name at none ≡ some rows
        → Memᴰ n rows
        → user_covers env db user n at ≡ true
    accessible_nodes-user_covers user name at rows n h mem =
        let (is_node, info) = listed user name at none rows n h mem in
        let (active, who) = info in
        (user_covers_iff env db finite user n at).1 (
          active,
          elim who [
            | inl s ↦ inl s
            | inr (g, inforce, permitted, c) ↦
                inr (rw (resolve_anchor_node env n is_node) (g, inforce, c))
          ],
        )
